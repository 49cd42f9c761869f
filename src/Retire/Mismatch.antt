-- ===== src/Retire/Mismatch.antt =====
-- A call of $getRetireInstPC.
use anycore_pisa.Base.{
  ℕ, ◌+◌, ◌≤◌, ◌<◌, ◌≡◌, ◌≢◌, refl, ap, ◌∙◌, subst, Bool, true, false, ◌&&◌, not, Bool-cases, inl,
  inr, ◌⊎◌, sym, Option, ltb, ◌==◌, if◌then◌else◌, ok, fail, exited, at, arith, bind-ok,
  ok-injective,
}
use anycore_pisa.Debug.Fields.{Entry, DbReg}
use anycore_pisa.Thread.{Thread}
use anycore_pisa.Execute.Run.{pure, stop, ◌>>=◌}
use anycore_pisa.Execute.Keeps.{bind-returns}
use anycore_pisa.Execute.Floating.{Floats}
use anycore_pisa.Retire.{get_instr}
use anycore_pisa.Retire.Chain.{IsTraced, KnownFor}
use anycore_pisa.Retire.Taken.{Returned, get_instr-Returned}
use anycore_pisa.Retire.Check.{
  Retired, stop_after_mismatch, check_rdst, first_rdst, mismatch, get_retire_inst_pc,
}

-- What the arguments say of the entry: the program counter, and, for an instruction with a destination
-- that is not a part of another, the number and the value of the destination.
abbrev pub AgreesRdst : Retired → Entry → Type 0
AgreesRdst r e =
    0 < e.a_num_rdst
    → r.v_check_fission ≡ 0
    → (x : DbReg) × (at e.a_rdst 0 ≡ ok x) × (r.v_rdst ≡ x.n) × (r.v_rdst_value ≡ x.value)

abbrev pub Agrees : Retired → Entry → Type 0
Agrees r e = (r.v_pc ≡ e.a_pc) × AgreesRdst r e

-- A test for what is wrong decides a property.
abbrev Decides : Bool → Type 0 → Type 0
Decides wrong P = (wrong ≡ false → P) × (wrong ≡ true → ¬ P)

check_rdst-returns :
    (r : Retired) (e : Entry) (t u : Thread) (wrong : Bool)
    → check_rdst r e t ≡ ok (wrong, u)
    → (t ≡ u)
      × (x : DbReg) × (at e.a_rdst 0 ≡ ok x)
      × (not (r.v_rdst == x.n && r.v_rdst_value == x.value) ≡ wrong)
unfolding pure
check_rdst-returns r e t u wrong h =
    let (x, t1, found, last) =
      bind-returns (first_rdst e) (λ x. pure (not (r.v_rdst == x.n && r.v_rdst_value == x.value))) t
        wrong u h in
    let (x', there, same) = bind-ok (at e.a_rdst 0) (λ x. ok (x, t)) (x, t1) found in
    let pairs : (x', t) ≡ (x, t1) = ok-injective _ _ same in
    let ends : (not (r.v_rdst == x.n && r.v_rdst_value == x.value), t1) ≡ (wrong, u) =
      ok-injective _ _ last in
    (
      ap (λ (p : DbReg × Thread). p.1) pairs ∙ ap (λ (p : Bool × Thread). p.1) ends,
      x,
      there ∙ ap (λ (p : DbReg × Thread). ok p.0) pairs,
      ap (λ (p : Bool × Thread). p.0) ends,
    )

both_equal : (a b c d : ℕ) → not (a == b && c == d) ≡ false → (a ≡ b) × (c ≡ d)
both_equal a b c d h = (ground (arith, h), ground (arith, h))

either_differs : (a b c d : ℕ) → not (a == b && c == d) ≡ true → a ≡ b → c ≡ d → ⊥
either_differs a b c d h e f = absurd (ground (arith, h, e, f))

both_hold : (n f : ℕ) → (ltb 0 n && f == 0) ≡ true → (0 < n) × (f ≡ 0)
both_hold n f h = (ground (arith, h), ground (arith, h))

-- The part of mismatch after the program counters are compared.
rdst_if :
    (r : Retired) (e : Entry) (t u : Thread) (wrong : Bool)
    → (if ltb 0 e.a_num_rdst && r.v_check_fission == 0 then check_rdst r e else pure false) t
      ≡ ok (wrong, u)
    → (t ≡ u) × Decides wrong (AgreesRdst r e)
unfolding pure
rdst_if r e t u wrong h = elim (Bool-cases (ltb 0 e.a_num_rdst && r.v_check_fission == 0)) [
  | inl both ↦
      let (same, x, there, tested) = check_rdst-returns r e t u wrong (
        subst (λ (b : Bool). (if b then check_rdst r e else pure false) t ≡ ok (wrong, u)) both
          h) in
      (
        same,
        (
          λ right _ _.
              let (n, v) = both_equal r.v_rdst x.n r.v_rdst_value x.value (tested ∙ right) in
              (x, there, n, v),
          λ bad agrees.
              let (some_rdst, whole) = both_hold e.a_num_rdst r.v_check_fission both in
              let (y, here, n, v) = agrees some_rdst whole in
              let same_reg : x ≡ y = ok-injective _ _ (sym there ∙ here) in
              either_differs r.v_rdst x.n r.v_rdst_value x.value (tested ∙ bad)
                (n ∙ ap (λ (z : DbReg). z.n) (sym same_reg))
                (v ∙ ap (λ (z : DbReg). z.value) (sym same_reg)),
        ),
      )
  | inr either ↦
      let returns =
        subst (λ (b : Bool). (if b then check_rdst r e else pure false) t ≡ ok (wrong, u)) either
          h in
      (
        cc,
        (
          λ right some_rdst whole. absurd (ground (arith, either, some_rdst, whole)),
          λ bad. absurd cc,
        ),
      )
]

mismatch-returns :
    (r : Retired) (e : Entry) (t u : Thread) (wrong : Bool)
    → mismatch r e t ≡ ok (wrong, u)
    → (t ≡ u) × Decides wrong (Agrees r e)
unfolding mismatch pure
mismatch-returns r e t u wrong h =
    let rest =
      if ltb 0 e.a_num_rdst && r.v_check_fission == 0 then check_rdst r e else pure false in
    let choose : Bool → Type 0 = λ b. (if not b then pure true else rest) t ≡ ok (wrong, u) in
    elim (Bool-cases (r.v_pc == e.a_pc)) [
      | inl same ↦
          let (left, found) = rdst_if r e t u wrong (subst choose same h) in
          (
            left,
            (λ right. (ground (arith, same), found.0 right), λ bad agrees. found.1 bad agrees.1),
          )
      | inr other ↦
          let returns : ok (true, t) ≡ ok (wrong, u) = subst choose other h in
          (cc, (λ right. absurd cc, λ bad agrees. absurd (ground (arith, other, agrees.0))))
    ]

counted_returns :
    (n n' : ℕ) (t u : Thread)
    → (if ltb stop_after_mismatch n then stop exited else pure n) t ≡ ok (n', u)
    → (n ≤ stop_after_mismatch) × (n ≡ n') × (t ≡ u)
unfolding stop pure
counted_returns n n' t u h =
    let choose : Bool → Type 0 = λ b. (if b then stop exited else pure n) t ≡ ok (n', u) in
    elim (Bool-cases (ltb stop_after_mismatch n)) [
      | inl many ↦ let fails : fail exited ≡ ok (n', u) = subst choose many h in absurd cc
      | inr few ↦
          let returns : ok (n, t) ≡ ok (n', u) = subst choose few h in (ground (arith, few), cc, cc)
    ]

counts_one :
    (P : Type 0) (n n' : ℕ) (wrong : Bool)
    → (if wrong then n + 1 else n) ≡ n'
    → Decides wrong P
    → ((n' ≡ n) × P) ⊎ ((n' ≡ n + 1) × ¬ P)
counts_one P n n' true h d = inr (sym h, d.1 refl)
counts_one P n n' false h d = inl (sym h, d.0 refl)

module _ (floats : Floats) (limit : Option ℕ) (fuel : ℕ) where
  -- What a call that returns says: `n'` is the number of mismatches after it.
  abbrev pub Counts : Retired → ℕ → ℕ → Thread → Thread → Type 0
  Counts r n n' t u =
      (n' ≤ stop_after_mismatch)
      × ((e : Entry) × (get_instr fuel floats limit t ≡ ok (e, u))
          × Returned t e u
          × (((n' ≡ n) × Agrees r e) ⊎ ((n' ≡ n + 1) × ¬ (Agrees r e))))

  -- A call of getRetireInstPC with the check enabled, on a thread whose buffer holds a path of
  -- instructions, each with a case. If it returns, get_instr returns an entry for that thread, the next
  -- instruction in program order, and the buffer holds a path again. If the arguments agree with the
  -- entry, no mismatch is counted, and otherwise one more. There are at most ten in all.
  pub get_retire_inst_pc-Counts :
      (t u : Thread) (r : Retired) (n n' : ℕ)
      → r.v_check_enable ≢ 0
      → IsTraced t
      → KnownFor floats limit fuel t
      → get_retire_inst_pc fuel floats limit r n t ≡ ok (n', u)
      → Counts r n n' t u
  unfolding get_retire_inst_pc get_instr
  get_retire_inst_pc-Counts t u r n n' enabled h known returns =
      let count = λ (wrong : Bool). if wrong then n + 1 else n in
      let finish = λ (wrong : Bool).
        if ltb stop_after_mismatch (count wrong) then stop exited else pure (count wrong) in
      let body = get_instr fuel floats limit >>= λ e. mismatch r e >>= finish in
      let off : (r.v_check_enable == 0) ≡ false = ground (arith, enabled) in
      let run : body t ≡ ok (n', u) =
        subst (λ (b : Bool). (if b then pure n else body) t ≡ ok (n', u)) off returns in
      let (e, t1, got, rest) =
        bind-returns (get_instr fuel floats limit) (λ e. mismatch r e >>= finish) t n' u run in
      let (wrong, t2, compared, last) = bind-returns (mismatch r e) finish t1 n' u rest in
      let (same, decides) = mismatch-returns r e t1 t2 wrong compared in
      let (few, counted, same2) = counted_returns (count wrong) n' t2 u last in
      let returned =
        subst (λ (x : Thread). get_instr fuel floats limit t ≡ ok (e, x)) (same ∙ same2) got in
      (
        subst (λ m. m ≤ stop_after_mismatch) counted few,
        (
          e,
          returned,
          get_instr-Returned floats limit fuel t u e h known returned,
          counts_one (Agrees r e) n n' wrong counted decides,
        ),
      )
