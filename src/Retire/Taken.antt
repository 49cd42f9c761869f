-- ===== src/Retire/Taken.antt =====
-- `get_instr` of Thread.h: the timing model takes the instructions in program order.
use anycore_pisa.Base.{
  ℕ, ◌≡◌, ok-injective, refl, sym, ◌∙◌, ap, subst, true, false, ◌&&◌, not, Bool-cases, inl, inr,
  ◌⊎◌, List, [], ◌∷◌, Option, Outcome, ok, fail, aborted, arith, length, ◌==◌,
}
use anycore_pisa.Base.Ring.{length-entries}
use anycore_pisa.Debug
use anycore_pisa.Debug.{DebugBuffer, hungry}
use anycore_pisa.Debug.Fields.{Entry}
use anycore_pisa.Debug.Inv.{contents, blank, entry_at}
use anycore_pisa.Debug.Queue.{pop_refines, entry_at-head}
use anycore_pisa.Debug.Search.{first_lem}
use anycore_pisa.Thread.{Thread}
use anycore_pisa.Execute.Run.{◌>>=◌}
use anycore_pisa.Execute.Keeps.{bind-after, bind-returns}
use anycore_pisa.Execute.Floating.{Floats}
use anycore_pisa.Retire.{run_ahead, first_index, take_entry, get_instr}
use anycore_pisa.Retire.Chain.{Chain, IsTraced, KnownFor, run_ahead-RunsAhead}

-- What `first` and `pop` come to: the oldest instruction, which is the next in program order, or an
-- assertion that fails when there is none.
abbrev Takes : Thread → Outcome (Entry × Thread) → Type 0
Takes t result =
    ((e : Entry) × (es : List Entry) × (u : Thread) × (result ≡ ok (e, u))
      × (contents t.db ≡ e ∷ es)
      × (e.a_pc ≡ t.arch_pc)
      × (u.arch_pc ≡ e.a_next_pc)
      × (contents u.db ≡ es)
      × (u.regs_pc ≡ t.regs_pc)
      × IsTraced u)
    ⊎ ((contents t.db ≡ []) × (result ≡ fail aborted))

take_entry-head :
    (t : Thread) (e : Entry) (b : DebugBuffer)
    → Debug.pop t.db.head t.db ≡ ok (e, b)
    → take_entry t.db.head t ≡ ok (e, record t { db = b; arch_pc = e.a_next_pc })
unfolding take_entry
take_entry-head t e b h = rw h refl

first_index-head :
    (t : Thread)
    → IsTraced t
    → (t.arch_pc == (entry_at t.db t.db.head).a_pc) ≡ true
    → first_index t ≡ ok (t.db.head, t)
unfolding first_index
first_index-head t h e = rw (first_lem t.arch_pc h.valid, e) refl

first_index-other :
    (t : Thread)
    → IsTraced t
    → (t.arch_pc == (entry_at t.db t.db.head).a_pc) ≡ false
    → first_index t ≡ fail aborted
unfolding first_index
first_index-other t h e = rw (first_lem t.arch_pc h.valid, e) refl

take_entry-empty :
    (t : Thread) → Debug.pop t.db.head t.db ≡ fail aborted → take_entry t.db.head t ≡ fail aborted
unfolding take_entry
take_entry-empty t h = rw h refl

take-after :
    (t : Thread) (r : Outcome (Entry × Thread))
    → first_index t ≡ ok (t.db.head, t)
    → take_entry t.db.head t ≡ r
    → (first_index >>= take_entry) t ≡ r
unfolding ◌>>=◌
take-after t r h e = rw h e

take-none :
    (t : Thread) → first_index t ≡ fail aborted → (first_index >>= take_entry) t ≡ fail aborted
unfolding ◌>>=◌
take-none t h = rw h refl

first_take-Takes : (t : Thread) → IsTraced t → Takes t ((first_index >>= take_entry) t)
first_take-Takes t h = elim (pop_refines t.db.head h.valid) [
  | inl (e, es, b, held, _, popped, valid, rest, size) ↦
      let path = subst (λ (xs : List Entry). Chain t.arch_pc xs t.regs_pc) held h.chain in
      let oldest = entry_at-head e es h.valid held in
      let here : (t.arch_pc == (entry_at t.db t.db.head).a_pc) ≡ true =
        let at_head : (entry_at t.db t.db.head).a_pc ≡ t.arch_pc =
          ap (λ (x : Entry). x.a_pc) oldest ∙ path.0 in
        ground arith in
      inl (
        e,
        es,
        record t { db = b; arch_pc = e.a_next_pc },
        take-after t _ (first_index-head t h here) (take_entry-head t e b popped),
        held,
        path.0,
        refl,
        rest,
        refl,
        record {
          valid = valid;
          chain = subst (λ (xs : List Entry). Chain e.a_next_pc xs t.regs_pc) (sym rest) path.1;
        },
      )
  | inr (inr other, fails) ↦ absurd (other refl)
  | inr (inl none_left, fails) ↦ inr (
    none_left,
    elim (Bool-cases (t.arch_pc == (entry_at t.db t.db.head).a_pc)) [
      | inl here ↦ take-after t _ (first_index-head t h here) (take_entry-empty t fails)
      | inr there ↦ take-none t (first_index-other t h there)
    ],
  )
]

-- What get_instr comes to on `t`, where `ahead` is the thread after it has run ahead.
abbrev pub GetsInstr : Thread → Thread → Outcome (Entry × Thread) → Type 0
GetsInstr t ahead result =
    ((e : Entry) × (es : List Entry) × (u : Thread) × (result ≡ ok (e, u))
      × (contents ahead.db ≡ e ∷ es)
      × (e.a_pc ≡ t.arch_pc)
      × (u.arch_pc ≡ e.a_next_pc)
      × (contents u.db ≡ es)
      × IsTraced u)
    ⊎ ((contents ahead.db ≡ []) × (ahead.blocked ≡ true) × (result ≡ fail aborted))

blocked_when_empty :
    (t : Thread)
    → IsTraced t
    → contents t.db ≡ []
    → (not t.blocked && hungry t.db) ≡ false
    → t.blocked ≡ true
unfolding hungry
blocked_when_empty t h none_left stop =
    let v = h.valid in
    let count : t.db.length ≡ 0 = omega (
      arith,
      ap length none_left,
      length-entries blank t.db.debug_size t.db.db t.db.head t.db.length,
    ) in
    ground arith

-- get_instr of a thread whose buffer holds a path of instructions, when running ahead returns and
-- every instruction on the way has a case. If the buffer holds an instruction then, get_instr returns
-- the oldest one: it is at the architectural program counter, which moves to where the instruction
-- leads, the others stay, and they are a path again. Otherwise the thread is blocked by a trap, and an
-- assertion fails.
pub get_instr-GetsInstr :
    (floats : Floats) (limit : Option ℕ) (fuel : ℕ) (t ahead : Thread)
    → IsTraced t
    → KnownFor floats limit fuel t
    → run_ahead fuel floats limit t ≡ ok (tt, ahead)
    → GetsInstr t ahead (get_instr fuel floats limit t)
unfolding get_instr
get_instr-GetsInstr floats limit fuel t ahead h known e =
    let (h', same, grown, stop) = run_ahead-RunsAhead floats limit fuel t ahead h known e in
    let then_take =
      bind-after (run_ahead fuel floats limit) (λ _. first_index >>= take_entry) t ahead tt e in
    elim (first_take-Takes ahead h') [
      | inl (x, es, u, taken, held, at_pc, moved, rest, _, traced) ↦
          inl (x, es, u, then_take ∙ taken, held, at_pc ∙ same, moved, rest, traced)
      | inr (none_left, fails) ↦
          inr (none_left, blocked_when_empty ahead h' none_left stop, then_take ∙ fails)
    ]

-- What is known of an entry that get_instr returns, and of the thread after it.
abbrev pub Returned : Thread → Entry → Thread → Type 0
Returned t e u = (e.a_pc ≡ t.arch_pc) × (u.arch_pc ≡ e.a_next_pc) × IsTraced u

pub get_instr-Returned :
    (floats : Floats) (limit : Option ℕ) (fuel : ℕ) (t u : Thread) (e : Entry)
    → IsTraced t
    → KnownFor floats limit fuel t
    → get_instr fuel floats limit t ≡ ok (e, u)
    → Returned t e u
unfolding get_instr
get_instr-Returned floats limit fuel t u e h known got =
    let (_, ahead, ran, _) =
      bind-returns (run_ahead fuel floats limit) (λ _. first_index >>= take_entry) t e u got in
    elim (get_instr-GetsInstr floats limit fuel t ahead h known ran) [
      | inl (x, es, v, taken, _, at_pc, moved, _, traced) ↦
          let pairs : (x, v) ≡ (e, u) = ok-injective _ _ (sym taken ∙ got) in
          subst (λ (p : Entry × Thread). Returned t p.0 p.1) pairs (at_pc, moved, traced)
      | inr (_, _, fails) ↦ absurd cc
    ]
