-- ===== src/Execute/Reread.antt =====
-- The last access of a case of the `switch` of func_sim.cc: the words at the address of the last store.
use anycore_pisa.Base.{
  ℕ, ◌≡◌, ◌≢◌, sym, ap, subst, Bool, Bool-cases, inl, inr, ◌⊎◌, List, ok, bind-ok, ok-injective,
  ◌==◌, if◌then◌else◌, arith, add32,
}
use anycore_pisa.Debug.{DebugBuffer}
use anycore_pisa.Debug.Fields.{Inst, f_store}
use anycore_pisa.Memory.{Memory}
use anycore_pisa.Memory.Flat.{flat}
use anycore_pisa.Memory.Same.{SameBytes}
use anycore_pisa.Thread.{Thread, get_arch_mem_value}
use anycore_pisa.Thread.Arch.{get_arch_mem_value-SameBytes}
use anycore_pisa.Execute.Run.{pure, gets, ◌>>=◌}
use anycore_pisa.Execute.Flags.{last_masked}
use anycore_pisa.Execute.Operands.{real_values}
use anycore_pisa.Execute.Simulate.{stored_values, instr_note}
use anycore_pisa.Execute.Alike.{erase}

-- The memory `q` is `m` after the access of an operation with these flags: there is none, or it is a
-- call of get_arch_mem_value for `addr`.
abbrev pub Rereads : List ℕ → ℕ → Memory → Memory → Type 0
Rereads fs addr m q =
    ((last_masked fs f_store ≡ 0) × (m ≡ q))
    ⊎ ((last_masked fs f_store ≢ 0)
        × (upper : ℕ) × (lower : ℕ) × (get_arch_mem_value m addr ≡ ok (q, upper, lower)))

-- Two threads that are the same but for the debug buffer, what is noted for it, and what an access of
-- an operation with the flags `fs` adds to the memory of `t`.
pub record DiffersInNotes (fs : List ℕ) (u t : Thread) : Type 0 where
  pub rest : erase t ≡ erase (record u { memory = t.memory })
  pub reread : Rereads fs t.store_addr u.memory t.memory

pub DiffersInNotes-SameBytes :
    (fs : List ℕ) (u t : Thread) → DiffersInNotes fs u t → SameBytes t.memory u.memory
DiffersInNotes-SameBytes fs u t d x = elim d.reread [
  | inl (_, same) ↦ ap (λ (m : Memory). flat m x) (sym same)
  | inr (_, upper, lower, called) ↦ get_arch_mem_value-SameBytes _ _ _ upper lower called x
]

pub stored_values-DiffersInNotes :
    (fs : List ℕ) (s t u : Thread)
    → stored_values fs s ≡ ok (tt, t)
    → erase s ≡ erase u
    → DiffersInNotes fs u t
unfolding stored_values real_values pure gets ◌>>=◌
stored_values-DiffersInNotes fs s t u e same =
    let choose : Bool → Type 0 =
      λ b. (if b then pure tt else (gets (λ x. x.store_addr) >>= real_values)) s ≡ ok (tt, t) in
    let memory : s.memory ≡ u.memory = ap (λ (x : Thread). x.memory) same in
    elim (Bool-cases (last_masked fs f_store == 0)) [
      | inl none ↦
          let stays : s ≡ t =
            ap (λ (r : Unit {0} × Thread). r.1) (ok-injective _ _ (subst choose none e)) in
          subst (DiffersInNotes fs u) stays record {
            rest = ap (λ (x : Thread). record x { memory = s.memory }) same;
            reread = inl (ground (arith, none), sym memory);
          }
      | inr some_flag ↦
          let ((q, upper, lower), called, last) =
            bind-ok (get_arch_mem_value s.memory s.store_addr)
              (λ r. ok (tt, record s { memory = r.0; real_upper = r.1; real_lower = r.2 })) (tt, t)
              (subst choose some_flag e) in
          let moves : record s { memory = q; real_upper = upper; real_lower = lower } ≡ t =
            ap (λ (r : Unit {0} × Thread). r.1) (ok-injective _ _ last) in
          subst (DiffersInNotes fs u) moves record {
            rest = ap (λ (x : Thread). record x { memory = q }) same;
            reread = inr (
              λ h. absurd (ground (arith, some_flag, h)),
              upper,
              lower,
              subst (λ (m : Memory). get_arch_mem_value m s.store_addr ≡ ok (q, upper, lower))
                  memory called,
            );
          }
    ]

pub instr_note-DiffersInNotes :
    (fs : List ℕ) (inst : Inst) (f l : ℕ) (s t u : Thread)
    → instr_note inst f l s ≡ ok (tt, t)
    → DiffersInNotes fs u s
    → DiffersInNotes fs u t
unfolding instr_note
instr_note-DiffersInNotes fs inst f l s t u e d =
    let (b, _, last) = bind-ok _ (λ (b : DebugBuffer). ok (tt, record s { db = b })) (tt, t) e in
    let moves : record s { db = b } ≡ t =
      ap (λ (r : Unit {0} × Thread). r.1) (ok-injective _ _ last) in
    subst (DiffersInNotes fs u) moves record { rest = d.rest; reread = d.reread }

-- The thread at the next instruction.
abbrev pub advanced : Thread → Thread
advanced t = record t { regs_pc = t.next_pc; next_pc = add32 t.next_pc 8 }

pub advanced-DiffersInNotes :
    (fs : List ℕ) (t u : Thread)
    → DiffersInNotes fs u t
    → DiffersInNotes fs (advanced u) (advanced t)
advanced-DiffersInNotes fs t u d = record { rest = ap advanced d.rest; reread = d.reread }
