-- ===== src/Retire/Tests.antt =====
-- Runs of a thread whose buffer holds two entries.
use anycore_pisa.Base.{
  ℕ, suc, ◌≡◌, refl, sym, ◌∙◌, subst, List, [], ◌∷◌, none, some, ok, fail, arith, mod_mask, ◌+◌,
  length, ok-injective,
}
use anycore_pisa.Blocks.{unchk_read_bytes}
use anycore_pisa.Isa.{inst_of, ss_opcode}
use anycore_pisa.Execute.Op.{Op, op_of, alu, addiu, control, jump}
use anycore_pisa.Execute.Semantics.{execute}
use anycore_pisa.Execute.Integer.{execute_alu}
use anycore_pisa.Execute.Jumps.{execute_control}
use anycore_pisa.Debug.Inv.{contents}
use anycore_pisa.Execute.Access.{gpr, set_gpr, cpc, set_npc}
use anycore_pisa.Execute.Run.{pure, stop, ◌>>=◌}
use anycore_pisa.Execute.Operands.{report_all}
use anycore_pisa.Debug.Fields.{Entry, start_entry, push_instr, push_operand}
use anycore_pisa.Debug.{first, pop, hungry, start, push_operand_actual, push_instr_actual}
use anycore_pisa.Thread.{Thread, get_arch_mem_value}
use anycore_pisa.Execute.Simulate.{func_sim}
use anycore_pisa.Execute.Traced.{KnownNext}
use anycore_pisa.Retire.{run_ahead, get_instr}
use anycore_pisa.Retire.Chain.{Chain, IsTraced, KnownFor, func_sim-IsTraced, run_ahead-enough}
use anycore_pisa.Retire.Check.{
  Retired, compare_retired, mismatch, check_retire_inst, get_retire_inst_pc,
}
use anycore_pisa.Retire.Lockstep.{AllMatch, Obtains, done, retire, Retires-path}
use anycore_pisa.Retire.Mismatch.{Counts, get_retire_inst_pc-Counts}
use anycore_pisa.Retire.Taken.{GetsInstr, get_instr-GetsInstr}
use anycore_pisa.Execute.Samples.{zeros, thread, second, third, thread-second, second-third}

known_next :
    (t : Thread) (bytes : List ℕ) (op : Op)
    → unchk_read_bytes t.memory.mem_table t.regs_pc 8 ≡ ok bytes
    → op_of (ss_opcode (inst_of bytes)) ≡ some op
    → KnownNext t
known_next t bytes op read known = λ bytes' e. (
  op,
  subst (λ (b : List ℕ). op_of (ss_opcode (inst_of b)) ≡ some op) (ok-injective _ _ (sym read ∙ e))
      known,
)

thread-IsTraced : IsTraced thread
thread-IsTraced = record {
  valid = record {
    bits = 1;
    size_pow2 = refl;
    size_small = omega arith;
    active_whole = refl;
    storage = refl;
    head_in = omega arith;
    tail_in = omega arith;
    length_in = omega arith;
    tail_last = refl;
    pc_ptr_in = omega arith;
  };
  chain = refl;
}

abbrev add_bytes : List ℕ
add_bytes = 0x37 ∷ 0 ∷ 0 ∷ 0 ∷ 5 ∷ 0 ∷ 2 ∷ 2 ∷ []

abbrev jump_bytes : List ℕ
jump_bytes = 2 ∷ 0 ∷ 0 ∷ 0 ∷ 0 ∷ 0 ∷ 0x10 ∷ 0 ∷ []

thread-KnownNext : KnownNext thread
unfolding unchk_read_bytes op_of
thread-KnownNext = known_next thread add_bytes (alu addiu) refl refl

second-KnownNext : KnownNext second
unfolding func_sim op_of unchk_read_bytes execute execute_alu mod_mask gpr set_gpr start_entry ◌>>=◌
    start report_all push_operand_actual push_instr_actual push_operand push_instr
second-KnownNext = known_next second jump_bytes (control jump) refl refl

third-KnownNext : KnownNext third
unfolding get_arch_mem_value func_sim op_of unchk_read_bytes execute execute_control execute_alu
    mod_mask gpr set_gpr cpc set_npc start_entry ◌>>=◌ start report_all push_operand_actual
    push_instr_actual push_operand push_instr
third-KnownNext = known_next third add_bytes (alu addiu) refl refl

known_after :
    (n : ℕ) (t u : Thread)
    → KnownNext t
    → func_sim zeros none t ≡ ok (tt, u)
    → KnownFor zeros none n u
    → KnownFor zeros none (suc n) t
known_after n t u known run rest = (
  known,
  λ v e.
      subst (λ (r : Unit {0} × Thread). KnownFor zeros none n r.1) (ok-injective _ _ (sym run ∙ e))
        rest,
)

known_two : KnownFor zeros none 2 thread
known_two = known_after 1 thread second thread-KnownNext thread-second (second-KnownNext, λ u e. tt)

known_three : KnownFor zeros none 3 thread
known_three =
    known_after 2 thread second thread-KnownNext thread-second
      (known_after 1 second third second-KnownNext second-third (third-KnownNext, λ u e. tt))

run_ahead-third : run_ahead 3 zeros none thread ≡ ok (tt, third)
unfolding get_arch_mem_value run_ahead hungry func_sim op_of unchk_read_bytes execute
    execute_control execute_alu mod_mask gpr set_gpr cpc set_npc start_entry ◌>>=◌ start report_all
    push_operand_actual push_instr_actual push_operand push_instr
run_ahead-third = refl

func_sim-IsTraced_example :
    IsTraced second
    × (length (contents second.db) ≡ length (contents thread.db) + 1)
    × (second.num_insn ≡ thread.num_insn + 1)
func_sim-IsTraced_example =
    func_sim-IsTraced zeros none thread second thread-IsTraced thread-KnownNext thread-second

run_ahead-enough_example : run_ahead 3 zeros none thread ≡ run_ahead 6 zeros none thread
run_ahead-enough_example =
    run_ahead-enough zeros none 2 5 thread thread-IsTraced known_two (omega arith) (omega arith)

get_instr-GetsInstr_example : GetsInstr thread third (get_instr 3 zeros none thread)
get_instr-GetsInstr_example =
    get_instr-GetsInstr zeros none 3 thread third thread-IsTraced known_three run_ahead-third

abbrev checked : Thread
checked = elim (check_retire_inst 3 zeros none 0x400000 12 thread) [ ok r ↦ r.1 | fail x ↦ thread ]

thread-checked : check_retire_inst 3 zeros none 0x400000 12 thread ≡ ok (tt, checked)
unfolding get_arch_mem_value check_retire_inst get_instr run_ahead hungry func_sim op_of
    unchk_read_bytes execute execute_control execute_alu mod_mask gpr set_gpr cpc set_npc
    start_entry ◌>>=◌ start report_all push_operand_actual push_instr_actual push_operand push_instr
    first pop pure stop compare_retired
thread-checked = refl

Retires-path_example :
    IsTraced checked
    × ((es : List Entry) × Obtains zeros none 3 thread es checked
        × Chain 0x400000 es checked.arch_pc
        × AllMatch ((0x400000, 12) ∷ []) es)
Retires-path_example =
    Retires-path zeros none 3 thread checked ((0x400000, 12) ∷ []) thread-IsTraced
      (retire thread checked checked 0x400000 12 [] known_three thread-checked (done checked))

-- The right program counter, and a wrong value.
abbrev wrong_value : Retired
wrong_value = record {
  v_check_enable = 1;
  v_pc = 0x400000;
  v_rdst = 2;
  v_rdst_value = 13;
  v_check_fission = 0;
}

thread-counted : get_retire_inst_pc 3 zeros none wrong_value 4 thread ≡ ok (5, checked)
unfolding get_arch_mem_value get_retire_inst_pc get_instr run_ahead hungry func_sim op_of
    unchk_read_bytes execute execute_control execute_alu mod_mask gpr set_gpr cpc set_npc
    start_entry ◌>>=◌ start report_all push_operand_actual push_instr_actual push_operand push_instr
    first pop pure stop mismatch check_retire_inst compare_retired
thread-counted = refl

get_retire_inst_pc-Counts_example : Counts zeros none 3 wrong_value 4 5 thread checked
get_retire_inst_pc-Counts_example =
    get_retire_inst_pc-Counts zeros none 3 thread checked wrong_value 4 5
      (λ e. absurd (omega (arith, e))) thread-IsTraced known_three thread-counted
