-- ===== src/Execute/Skip.antt =====
-- skip of func_sim.cc.
use anycore_pisa.Base.{
  ℕ, zero, suc, ◌+◌, ◌≤◌, ◌≡◌, refl, sym, ap, ◌∙◌, subst, Bool, true, false, Bool-cases, inl, inr,
  Option, ltb, ok, aborted, arith, max, if◌then◌else◌,
}
use anycore_pisa.Thread.{Thread}
use anycore_pisa.Execute.Run.{Run, pure, stop, modify, continue, ◌>>=◌, ◌>>◌}
use anycore_pisa.Execute.Floating.{Floats}
use anycore_pisa.Execute.Simulate.{func_sim_fast, skip_loop, skip, is_below}
use anycore_pisa.Execute.Keeps.{bind-returns, bind-cong}
use anycore_pisa.Execute.Counted.{HandlerCounts, func_sim_fast-Counted}

module _ (body : Run (Unit {0})) (n : ℕ) where
  abbrev CountsOne : Type 0
  CountsOne = (t u : Thread) → body t ≡ ok (tt, u) → u.num_insn ≡ t.num_insn + 1

  skip_loop-stop :
      (fuel : ℕ) (t : Thread)
      → ltb t.num_insn n ≡ false
      → skip_loop (suc fuel) body n t ≡ ok (tt, t)
  unfolding skip_loop
  skip_loop-stop fuel t h = rw (skip_loop, h) refl

  skip_loop-go :
      (fuel : ℕ) (t : Thread)
      → ltb t.num_insn n ≡ true
      → skip_loop (suc fuel) body n t ≡ (body >>= λ _. skip_loop fuel body n) t
  unfolding skip_loop
  skip_loop-go fuel t h = rw (skip_loop, h) refl

  skip_loop-counts :
      (fuel : ℕ) (t u : Thread)
      → CountsOne
      → skip_loop fuel body n t ≡ ok (tt, u)
      → u.num_insn ≡ max t.num_insn n
  skip_loop-counts zero t u c e = absurd (unfold skip_loop in cc)
  skip_loop-counts (suc fuel) t u c e = elim (Bool-cases (ltb t.num_insn n)) [
    | inl go ↦
        let (_, v, first, rest) =
          bind-returns body (λ _. skip_loop fuel body n) t tt u
            (sym (skip_loop-go fuel t go) ∙ e) in
        let counted = c t v first in let all = skip_loop-counts fuel v u c rest in ground arith
    | inr stop ↦
        let same : t ≡ u = cc (skip_loop-stop fuel t stop) in
        let counted : t.num_insn ≡ u.num_insn = ap (λ (x : Thread). x.num_insn) same in ground arith
  ]

  stopped :
      (f g : ℕ) (t : Thread)
      → ltb t.num_insn n ≡ false
      → skip_loop (suc f) body n t ≡ skip_loop (suc g) body n t
  stopped f g t stop = skip_loop-stop f t stop ∙ sym (skip_loop-stop g t stop)

  skip_loop-enough :
      (f g : ℕ) (t : Thread)
      → CountsOne
      → n ≤ t.num_insn + f
      → n ≤ t.num_insn + g
      → skip_loop (suc f) body n t ≡ skip_loop (suc g) body n t
  skip_loop-enough zero g t c p q = stopped zero g t (ground (arith, p))
  skip_loop-enough (suc f) zero t c p q = stopped (suc f) zero t (ground (arith, q))
  skip_loop-enough (suc f) (suc g) t c p q = elim (Bool-cases (ltb t.num_insn n)) [
    | inr stop ↦ stopped (suc f) (suc g) t stop
    | inl go ↦
        skip_loop-go (suc f) t go
        ∙ bind-cong body (λ _. skip_loop (suc f) body n) (λ _. skip_loop (suc g) body n) t
            (λ _ u e.
              let counted = c t u e in
              skip_loop-enough f g u c (omega (arith, p, counted)) (omega (arith, q, counted)))
        ∙ sym (skip_loop-go (suc g) t go)
  ]

abbrev allowed : Bool → Run (Unit {0})
allowed b = if b then pure tt else stop aborted

test_returns : (b : Bool) (t u : Thread) → allowed b t ≡ ok (tt, u) → t ≡ u
unfolding pure stop
test_returns true t u e = cc
test_returns false t u e = absurd cc

modify_returns :
    (t u : Thread)
    → modify (λ x. record x { arch_pc = x.regs_pc }) t ≡ ok (tt, u)
    → record t { arch_pc = t.regs_pc } ≡ u
unfolding modify
modify_returns t u e = cc

bind-left :
    (m k : Run (Unit {0})) (f : Unit {0} → Run (Unit {0})) (t : Thread)
    → m t ≡ k t
    → (m >>= f) t ≡ (k >>= f) t
unfolding ◌>>=◌
bind-left m k f t e = ap (λ r. continue r f) e

-- skip, given a handler of traps that counts no instruction. One test for each instruction that is
-- skipped, and one more, are enough: with any more fuel skip comes to the same. If it returns, as many
-- instructions have been executed as are to be skipped, unless more had been before, and the
-- architectural program counter is that of the functional simulator.
pub skip-Skips :
    (floats : Floats) (limit : Option ℕ) (handler : Run (Unit {0})) (n f : ℕ) (t : Thread)
    → HandlerCounts floats limit handler
    → n ≤ t.num_insn + f
    → ((g : ℕ)
        → f ≤ g
        → skip (suc f) floats limit handler n t ≡ skip (suc g) floats limit handler n t)
      × ((u : Thread)
          → skip (suc f) floats limit handler n t ≡ ok (tt, u)
          → (u.num_insn ≡ max t.num_insn n) × (u.arch_pc ≡ u.regs_pc))
unfolding skip
skip-Skips floats limit handler n f t h p =
    let body = func_sim_fast floats limit handler in
    let c : CountsOne body n = λ t u e. func_sim_fast-Counted floats limit handler t u h e in
    let test = allowed (is_below limit n) in
    let last = modify (λ x. record x { arch_pc = x.regs_pc }) in
    (
      λ g q.
          bind-cong test (λ _. skip_loop (suc f) body n >> last)
            (λ _. skip_loop (suc g) body n >> last) t
            (λ _ u e.
              let same = test_returns (is_below limit n) t u e in
              let room = ap (λ (x : Thread). x.num_insn) same in
              bind-left (skip_loop (suc f) body n) (skip_loop (suc g) body n) (λ _. last) u
                (skip_loop-enough body n f g u c (omega (arith, p, room))
                  (omega (arith, p, q, room)))),
      λ u e.
          let (_, t1, e1, r1) =
            bind-returns test (λ _. skip_loop (suc f) body n >> last) t tt u e in
          let same = test_returns (is_below limit n) t t1 e1 in
          let (_, t2, e2, r2) = bind-returns (skip_loop (suc f) body n) (λ _. last) t1 tt u r1 in
          let counted = skip_loop-counts body n (suc f) t1 t2 c e2 in
          let moved : record t2 { arch_pc = t2.regs_pc } ≡ u = modify_returns t2 u r2 in
          (
            ap (λ (x : Thread). x.num_insn) (sym moved)
                ∙ counted
                ∙ ap (λ (x : Thread). max x.num_insn n) (sym same),
            subst (λ (x : Thread). x.arch_pc ≡ x.regs_pc) moved refl,
          ),
    )
