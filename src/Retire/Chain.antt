-- ===== src/Retire/Chain.antt =====
-- The entries of the debug buffer are a path of instructions from the architectural program counter
-- to the program counter of the functional simulator.
use anycore_pisa.Base.{
  ℕ, zero, suc, ◌+◌, ◌≤◌, ◌≡◌, refl, sym, ◌∙◌, ap, subst, true, false, ◌&&◌, not, Bool-cases, inl,
  inr, List, [], ◌∷◌, ◌++◌, append_assoc, append-nil, Option, ok, arith, length, length-snoc,
}
use anycore_pisa.Base.Ring.{length-entries}
use anycore_pisa.Debug.{hungry}
use anycore_pisa.Debug.Fields.{Entry}
use anycore_pisa.Debug.Inv.{IsValid, contents, blank}
use anycore_pisa.Thread.{Thread}
use anycore_pisa.Execute.Run.{◌>>=◌}
use anycore_pisa.Execute.Keeps.{bind-returns, bind-cong}
use anycore_pisa.Execute.Floating.{Floats}
use anycore_pisa.Execute.Simulate.{func_sim}
use anycore_pisa.Execute.Traced.{KnownNext, Simulates, func_sim-Simulates}
use anycore_pisa.Retire.{run_ahead}

-- Every entry is at the address that the one before it leads to.
abbrev pub Chain : ℕ → List Entry → ℕ → Type 0
Chain pc [] end = pc ≡ end
Chain pc (e ∷ es) end = (e.a_pc ≡ pc) × Chain e.a_next_pc es end

pub Chain-snoc :
    (pc end : ℕ) (es : List Entry) (e : Entry)
    → Chain pc es end
    → e.a_pc ≡ end
    → Chain pc (es ++ e ∷ []) e.a_next_pc
Chain-snoc pc end [] e c h = (h ∙ sym c, refl)
Chain-snoc pc end (x ∷ es) e c h = (c.0, Chain-snoc x.a_next_pc end es e c.1 h)

pub record IsTraced (t : Thread) : Type 0 where
  pub valid : IsValid t.db
  pub chain : Chain t.arch_pc (contents t.db) t.regs_pc

Simulates-IsTraced : (t t' : Thread) → Simulates t t' → IsTraced t → IsTraced t'
Simulates-IsTraced t t' s h =
    let r = s.reported in
    let grown = Chain-snoc t.arch_pc t.regs_pc (contents t.db) r.entry h.chain r.entry_pc in
    record {
      valid = r.valid;
      chain =
          subst (λ (pc : ℕ). Chain pc (contents t'.db) t'.regs_pc) (sym s.same_arch_pc)
            (subst (λ (es : List Entry). Chain t.arch_pc es t'.regs_pc) (sym r.last)
              (subst (λ (pc : ℕ). Chain t.arch_pc (contents t.db ++ r.entry ∷ []) pc)
                r.entry_next_pc grown));
    }

-- An instruction that func_sim executes joins the end of the path, if the number of its opcode has a
-- case.
pub func_sim-IsTraced :
    (floats : Floats) (limit : Option ℕ) (t t' : Thread)
    → IsTraced t
    → KnownNext t
    → func_sim floats limit t ≡ ok (tt, t')
    → IsTraced t'
      × (length (contents t'.db) ≡ length (contents t.db) + 1)
      × (t'.num_insn ≡ t.num_insn + 1)
func_sim-IsTraced floats limit t t' h known e =
    let s = func_sim-Simulates floats limit t t' h.valid known e in
    (
      Simulates-IsTraced t t' s h,
      ap length s.reported.last ∙ length-snoc (contents t.db) s.reported.entry,
      s.counted,
    )

module _ (floats : Floats) (limit : Option ℕ) where
  -- The next `n` instructions that are executed have cases.
  abbrev pub KnownFor : ℕ → Thread → Type 0
  KnownFor zero t = Unit {0}
  KnownFor (suc n) t =
      KnownNext t × ((u : Thread) → func_sim floats limit t ≡ ok (tt, u) → KnownFor n u)

  run_ahead-stop :
      (fuel : ℕ) (t : Thread)
      → (not t.blocked && hungry t.db) ≡ false
      → run_ahead (suc fuel) floats limit t ≡ ok (tt, t)
  unfolding run_ahead
  run_ahead-stop fuel t h = rw (run_ahead, h) refl

  run_ahead-go :
      (fuel : ℕ) (t : Thread)
      → (not t.blocked && hungry t.db) ≡ true
      → run_ahead (suc fuel) floats limit t
        ≡ (func_sim floats limit >>= λ _. run_ahead fuel floats limit) t
  unfolding run_ahead
  run_ahead-go fuel t h = rw (run_ahead, h) refl

  -- What running ahead comes to.
  abbrev pub RunsAhead : Thread → Thread → Type 0
  RunsAhead t t' =
      IsTraced t'
      × (t'.arch_pc ≡ t.arch_pc)
      × ((es : List Entry) × (contents t'.db ≡ contents t.db ++ es))
      × ((not t'.blocked && hungry t'.db) ≡ false)

  -- Running ahead adds instructions to the path, until the thread is blocked or the buffer is full.
  pub run_ahead-RunsAhead :
      (fuel : ℕ) (t t' : Thread)
      → IsTraced t
      → KnownFor fuel t
      → run_ahead fuel floats limit t ≡ ok (tt, t')
      → RunsAhead t t'
  run_ahead-RunsAhead zero t t' h known e = absurd (unfold run_ahead in cc)
  run_ahead-RunsAhead (suc fuel) t t' h known e = elim (Bool-cases (not t.blocked && hungry t.db)) [
    | inl go ↦
        let (_, u, first, rest) =
          bind-returns (func_sim floats limit) (λ _. run_ahead fuel floats limit) t tt t'
            (sym (run_ahead-go fuel t go) ∙ e) in
        let s = func_sim-Simulates floats limit t u h.valid known.0 first in
        let (h', same, (es, grown), done) =
          run_ahead-RunsAhead fuel u t' (Simulates-IsTraced t u s h) (known.1 u first) rest in
        (
          h',
          same ∙ s.same_arch_pc,
          (
            s.reported.entry ∷ es,
            grown
                ∙ ap (λ xs. xs ++ es) s.reported.last
                ∙ append_assoc (contents t.db) (s.reported.entry ∷ []) es,
          ),
          done,
        )
    | inr stop ↦
        let same : t ≡ t' = cc (run_ahead-stop fuel t stop) in
        subst (RunsAhead t) same (h, refl, ([], sym (append-nil (contents t.db))), stop)
  ]

  Simulates-length : (t u : Thread) → Simulates t u → u.db.length ≡ t.db.length + 1
  Simulates-length t u s = omega (
    arith,
    ap length s.reported.last,
    length-snoc (contents t.db) s.reported.entry,
    length-entries blank t.db.debug_size t.db.db t.db.head t.db.length,
    length-entries blank u.db.debug_size u.db.db u.db.head u.db.length,
  )

  full_buffer_stops :
      (t : Thread)
      → IsTraced t
      → t.db.debug_size ≤ t.db.length
      → (not t.blocked && hungry t.db) ≡ false
  unfolding hungry
  full_buffer_stops t h p = let v = h.valid in ground arith

  stopped_fuel :
      (f g : ℕ) (t : Thread)
      → (not t.blocked && hungry t.db) ≡ false
      → run_ahead (suc f) floats limit t ≡ run_ahead (suc g) floats limit t
  stopped_fuel f g t stop = run_ahead-stop f t stop ∙ sym (run_ahead-stop g t stop)

  -- One round for each free entry of the buffer, and one more, are enough: with any more fuel running
  -- ahead comes to the same.
  pub run_ahead-enough :
      (f g : ℕ) (t : Thread)
      → IsTraced t
      → KnownFor f t
      → t.db.debug_size ≤ t.db.length + f
      → t.db.debug_size ≤ t.db.length + g
      → run_ahead (suc f) floats limit t ≡ run_ahead (suc g) floats limit t
  run_ahead-enough zero g t h known p q =
      stopped_fuel zero g t (full_buffer_stops t h (omega (arith, p)))
  run_ahead-enough (suc f) zero t h known p q =
      stopped_fuel (suc f) zero t (full_buffer_stops t h (omega (arith, q)))
  run_ahead-enough (suc f) (suc g) t h known p q =
      elim (Bool-cases (not t.blocked && hungry t.db)) [
        | inr stop ↦ stopped_fuel (suc f) (suc g) t stop
        | inl go ↦
            run_ahead-go (suc f) t go
            ∙ bind-cong (func_sim floats limit) (λ _. run_ahead (suc f) floats limit)
                (λ _. run_ahead (suc g) floats limit) t
                (λ _ u first.
                  let s = func_sim-Simulates floats limit t u h.valid known.0 first in
                  let size = s.reported.size in
                  let count = Simulates-length t u s in
                  run_ahead-enough f g u (Simulates-IsTraced t u s h) (known.1 u first)
                    (omega (arith, p, size, count)) (omega (arith, q, size, count)))
            ∙ sym (run_ahead-go (suc g) t go)
      ]
