-- ===== src/Retire/Lockstep.antt =====
-- A sequence of calls of $checkRetireInst that all pass.
use anycore_pisa.Base.{
  ℕ, ◌≤◌, ◌≡◌, refl, ap, ◌∙◌, subst, Bool, true, false, not, Bool-cases, inl, inr, Option, List, [],
  ◌∷◌, ltb, ◌==◌, if◌then◌else◌, ok, at, arith, bind-ok, ok-injective,
}
use anycore_pisa.Debug.Fields.{Entry, DbReg}
use anycore_pisa.Thread.{Thread}
use anycore_pisa.Execute.Run.{pure, stop, ◌>>◌}
use anycore_pisa.Execute.Keeps.{bind-returns}
use anycore_pisa.Execute.Floating.{Floats}
use anycore_pisa.Retire.{get_instr}
use anycore_pisa.Retire.Chain.{Chain, IsTraced, KnownFor}
use anycore_pisa.Retire.Taken.{Returned, get_instr-Returned}
use anycore_pisa.Retire.Check.{
  reject_if, check_value, first_rdst, compare_retired, check_retire_inst,
}

-- What the RTL model says of an instruction: the program counter and the value of the destination.
abbrev pub Matches : ℕ × ℕ → Entry → Type 0
Matches r e =
    (r.0 ≡ e.a_pc)
    × (e.a_num_rdst ≤ 1)
    × (e.a_num_rdst ≡ 1 → (x : DbReg) × (at e.a_rdst 0 ≡ ok x) × (r.1 ≡ x.value))

abbrev pub AllMatch : List (ℕ × ℕ) → List Entry → Type 0
AllMatch [] [] = Unit {0}
AllMatch [] (e ∷ es) = [] ≡ e ∷ es
AllMatch (r ∷ rs) [] = r ∷ rs ≡ []
AllMatch (r ∷ rs) (e ∷ es) = Matches r e × AllMatch rs es

reject_if-returns : (b : Bool) (t u : Thread) → reject_if b t ≡ ok (tt, u) → (b ≡ false) × (t ≡ u)
unfolding stop pure
reject_if-returns true t u h = absurd cc
reject_if-returns false t u h = (refl, cc)

equal_words : (x y : ℕ) → not (x == y) ≡ false → x ≡ y
equal_words x y h = ground arith

check_value-returns :
    (value : ℕ) (e : Entry) (t u : Thread)
    → check_value value e t ≡ ok (tt, u)
    → (t ≡ u) × (x : DbReg) × (at e.a_rdst 0 ≡ ok x) × (value ≡ x.value)
check_value-returns value e t u h =
    let (x, t1, found, checked) =
      bind-returns (first_rdst e) (λ r. reject_if (not (value == r.value))) t tt u h in
    let (x', there, same) = bind-ok (at e.a_rdst 0) (λ r. ok (r, t)) (x, t1) found in
    let (equal, last) = reject_if-returns (not (value == x.value)) t1 u checked in
    let pairs : (x', t) ≡ (x, t1) = ok-injective _ _ same in
    (
      ap (λ (r : DbReg × Thread). r.1) pairs ∙ last,
      x,
      there ∙ ap (λ (r : DbReg × Thread). ok r.0) pairs,
      equal_words value x.value equal,
    )

value_if :
    (value n : ℕ) (e : Entry) (t u : Thread)
    → (if n == 1 then check_value value e else pure tt) t ≡ ok (tt, u)
    → (t ≡ u) × (n ≡ 1 → (x : DbReg) × (at e.a_rdst 0 ≡ ok x) × (value ≡ x.value))
unfolding pure
value_if value n e t u h = elim (Bool-cases (n == 1)) [
  | inl one ↦
      let (same, x, there, equal) =
        check_value-returns value e t u (
          subst (λ (b : Bool). (if b then check_value value e else pure tt) t ≡ ok (tt, u)) one
            h) in
      (same, λ n1. (x, there, equal))
  | inr other ↦
      let returns =
        subst (λ (b : Bool). (if b then check_value value e else pure tt) t ≡ ok (tt, u)) other h in
      (cc, λ n1. absurd (ground (arith, other, n1)))
]

compare_retired-returns :
    (pc value : ℕ) (e : Entry) (t u : Thread)
    → compare_retired pc value e t ≡ ok (tt, u)
    → (t ≡ u) × Matches (pc, value) e
unfolding compare_retired
compare_retired-returns pc value e t u h =
    let last = if e.a_num_rdst == 1 then check_value value e else pure tt in
    let right_pc = reject_if (not (pc == e.a_pc)) in
    let (_, t1, e1, r1) =
      bind-returns (reject_if (ltb 1 e.a_num_rdst)) (λ _. right_pc >> last) t tt u h in
    let (few, s1) = reject_if-returns (ltb 1 e.a_num_rdst) t t1 e1 in
    let (_, t2, e2, r2) = bind-returns right_pc (λ _. last) t1 tt u r1 in
    let (at_pc, s2) = reject_if-returns (not (pc == e.a_pc)) t1 t2 e2 in
    let (s3, found) = value_if value e.a_num_rdst e t2 u r2 in
    (s1 ∙ s2 ∙ s3, (equal_words pc e.a_pc at_pc, at_most_one e.a_num_rdst few, found))
  where
    at_most_one : (n : ℕ) → ltb 1 n ≡ false → n ≤ 1
    at_most_one n h = ground arith

module _ (floats : Floats) (limit : Option ℕ) (fuel : ℕ) where
  -- The RTL model retires instructions one after another, and every check passes.
  pub data Retires : Thread → List (ℕ × ℕ) → Thread → Type 0 where
    done : (t : Thread) → Retires t [] t
    retire :
        (t u v : Thread) (pc value : ℕ) (rs : List (ℕ × ℕ))
        → KnownFor floats limit fuel t
        → check_retire_inst fuel floats limit pc value t ≡ ok (tt, u)
        → Retires u rs v
        → Retires t ((pc, value) ∷ rs) v

  -- The entries that as many calls of get_instr return, one after another.
  pub data Obtains : Thread → List Entry → Thread → Type 0 where
    none_left : (t : Thread) → Obtains t [] t
    obtain :
        (t u v : Thread) (e : Entry) (es : List Entry)
        → get_instr fuel floats limit t ≡ ok (e, u)
        → Obtains u es v
        → Obtains t (e ∷ es) v

  check_retire_inst-returns :
      (t u : Thread) (pc value : ℕ)
      → IsTraced t
      → KnownFor floats limit fuel t
      → check_retire_inst fuel floats limit pc value t ≡ ok (tt, u)
      → (e : Entry) × (get_instr fuel floats limit t ≡ ok (e, u))
        × Matches (pc, value) e
        × Returned t e u
  unfolding check_retire_inst
  check_retire_inst-returns t u pc value h known returns =
      let (e, t1, got, compared) =
        bind-returns (get_instr fuel floats limit) (compare_retired pc value) t tt u returns in
      let (same, matches) = compare_retired-returns pc value e t1 u compared in
      (
        e,
        subst (λ (x : Thread). get_instr fuel floats limit t ≡ ok (e, x)) same got,
        matches,
        subst (Returned t e) same (get_instr-Returned floats limit fuel t t1 e h known got),
      )

  -- When the debug buffer holds a path of instructions, every opcode that func_sim meets has a case, and
  -- every check of the instructions that the RTL model retires passes, as many calls of get_instr return entries one after another. These are a path
  -- in program order that begins at the architectural program counter. The RTL model gave the program
  -- counter of each and, where it has a destination, the value of it, and none has two. The buffer holds
  -- a path again.
  pub Retires-path :
      (t v : Thread) (rs : List (ℕ × ℕ))
      → IsTraced t
      → Retires t rs v
      → IsTraced v
        × ((es : List Entry) × Obtains t es v × Chain t.arch_pc es v.arch_pc × AllMatch rs es)
  Retires-path t v rs h (done _) = (h, ([], none_left t, refl, tt))
  Retires-path t v rs h (retire _ u _ pc value rs' known passes rest) =
      let (e, got, matches, (at_pc, moved, h1)) =
        check_retire_inst-returns t u pc value h known passes in
      let (h2, (es, taken, path, all)) = Retires-path u v rs' h1 rest in
      (
        h2,
        (
          e ∷ es,
          obtain t u v e es got taken,
          (at_pc, subst (λ (k : ℕ). Chain k es v.arch_pc) moved path),
          (matches, all),
        ),
      )
