-- ===== src/Execute/Simulate.antt =====
-- func_sim, func_sim_fast and skip of libss-vpi/lib.src/func_sim.cc: one instruction with a report to
-- the debug buffer, one instruction without, and many without.
use anycore_pisa.Base.{
  ℕ, zero, suc, ◌+◌, Bool, true, false, ◌&&◌, Option, none, some, List, ltb, ◌==◌, if◌then◌else◌,
  set, add32, not, Outcome, ok, fail, aborted, out_of_fuel, exited, assert, at,
}
use anycore_pisa.Base
use anycore_pisa.Blocks.{unchk_read_bytes}
use anycore_pisa.Debug.{start, push_instr_actual}
use anycore_pisa.Debug.Fields.{Inst, f_store}
use anycore_pisa.Isa.{inst_of, ss_opcode}
use anycore_pisa.Execute.Run.{Run, pure, stop, gets, modify, ◌>>=◌, ◌>>◌}
use anycore_pisa.Execute.Op.{Op, op_of, misc, syscall}
use anycore_pisa.Execute.Operands.{report_all, real_values}
use anycore_pisa.Execute.Notes.{sources, dests}
use anycore_pisa.Execute.Flags.{flags, flag_list, last_masked, latency}
use anycore_pisa.Execute.Floating.{Floats}
use anycore_pisa.Execute.Semantics.{execute}

-- Register 0 is zero when an instruction starts, and the instruction is counted.
unfoldable pub prologue : Run (Unit {0})
prologue t =
    Base.◌>>=◌ (at t.regs_r 0)
      (λ old. ok (tt, record t { regs_r = set t.regs_r 0 0; num_insn = t.num_insn + 1 }))

unfoldable pub fetch_inst : Run Inst
fetch_inst t =
    Base.◌>>=◌ (unchk_read_bytes t.memory.mem_table t.regs_pc 8) (λ bytes. ok (inst_of bytes, t))

-- `DB->start()`, and `DB->push_instr_actual` with the state of the thread.
unfoldable pub start_note : Run (Unit {0})
start_note t = Base.◌>>=◌ (start t.db) (λ b. ok (tt, record t { db = b }))

unfoldable pub instr_note : Inst → ℕ → ℕ → Run (Unit {0})
instr_note inst op_flags op_latency t =
    Base.◌>>=◌
      (push_instr_actual inst op_flags op_latency t.regs_pc t.next_pc t.real_upper t.real_lower
        t.db)
      (λ b. ok (tt, record t { db = b }))

-- The words in memory at the address of the last store: for a store, and by the expansion of the
-- macro for every operation with more than one flag.
unfoldable pub stored_values : List ℕ → Run (Unit {0})
stored_values op_flags =
    if last_masked op_flags f_store == 0
    then pure tt
    else (do addr ← gets (λ t. t.store_addr); real_values addr)

-- One case of the `switch` of func_sim.
unfoldable pub traced : Floats → Op → Inst → Run (Unit {0})
unfolding stored_values instr_note
traced floats op inst = do
  report_all inst (sources op inst)
  execute floats op inst
  report_all inst (dests op inst)
  stored_values (flag_list op)
  instr_note inst (flags op) (latency op)

-- A number without a case leaves the `switch` at once.
unfoldable pub traced_case : Floats → Option Op → Inst → Run (Unit {0})
unfolding traced
traced_case floats none inst = pure tt
traced_case floats (some op) inst = traced floats op inst

-- The next instruction, and the end of the simulation at the limit, if there is one.
pub over_limit : Option ℕ → ℕ → Bool
over_limit none num_insn = false
over_limit (some limit) num_insn = ltb limit num_insn

unfoldable pub advance : Run (Unit {0})
advance t = ok (tt, record t { regs_pc = t.next_pc; next_pc = add32 t.next_pc 8 })

unfoldable pub check_limit : Option ℕ → Run (Unit {0})
unfolding over_limit
check_limit limit t = if over_limit limit t.num_insn then fail exited else ok (tt, t)

unfoldable pub func_sim : Floats → Option ℕ → Run (Unit {0})
unfolding prologue fetch_inst start_note traced_case advance check_limit
func_sim floats limit = do
  prologue
  inst ← fetch_inst
  start_note
  traced_case floats (op_of (ss_opcode inst)) inst
  advance
  check_limit limit

unfoldable pub fast_case : Floats → Option Op → Inst → Run (Unit {0})
fast_case floats none inst = pure tt
fast_case floats (some op) inst = execute floats op inst

abbrev pub is_syscall : Option Op → Bool
is_syscall (some (misc syscall)) = true
is_syscall _ = false

-- `trap_now(); blocked = false`, where `handler` is what trap_now does with the trap.
unfoldable pub trap_now : Run (Unit {0}) → Run (Unit {0})
trap_now handler = do blocked ← gets (λ t. t.blocked); if blocked then handler else stop aborted

unfoldable pub serve_trap : Run (Unit {0}) → Bool → Run (Unit {0})
unfolding trap_now
serve_trap handler false = pure tt
serve_trap handler true = do trap_now handler; modify (λ t. record t { blocked = false })

unfoldable pub func_sim_fast : Floats → Option ℕ → Run (Unit {0}) → Run (Unit {0})
unfolding prologue fetch_inst fast_case serve_trap advance check_limit
func_sim_fast floats limit handler = do
  prologue
  inst ← fetch_inst
  fast_case floats (op_of (ss_opcode inst)) inst
  serve_trap handler (is_syscall (op_of (ss_opcode inst)))
  advance
  check_limit limit

-- `while (n_insn_skip > num_insn) func_sim_fast()`, with fuel for its tests.
unfoldable pub skip_loop : ℕ → Run (Unit {0}) → ℕ → Run (Unit {0})
skip_loop zero body n t = fail out_of_fuel
skip_loop (suc fuel) body n t = elim (ltb t.num_insn n) [
  | true ↦ (body >>= λ _. skip_loop fuel body n) t
  | false ↦ ok (tt, t)
]

abbrev pub is_below : Option ℕ → ℕ → Bool
is_below none n = true
is_below (some limit) n = ltb n limit

unfoldable pub skip : ℕ → Floats → Option ℕ → Run (Unit {0}) → ℕ → Run (Unit {0})
unfolding skip_loop
skip fuel floats limit handler n = do
  if is_below limit n then pure tt else stop aborted
  skip_loop fuel (func_sim_fast floats limit handler) n
  modify (λ t. record t { arch_pc = t.regs_pc })
