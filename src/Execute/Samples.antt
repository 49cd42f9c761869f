-- ===== src/Execute/Samples.antt =====
-- A thread with a program of two instructions: an ADDIU to register 2, and a JUMP back to it.
use anycore_pisa.Base.{
  ℕ, ◌≡◌, refl, true, false, List, [], ◌∷◌, none, some, ok, fail, get_or, replicate, mod_mask, ◌==◌,
  if◌then◌else◌,
}
use anycore_pisa.Blocks.{Table, unchk_read_bytes}
use anycore_pisa.Execute.Op.{op_of}
use anycore_pisa.Execute.Semantics.{execute}
use anycore_pisa.Execute.Integer.{execute_alu}
use anycore_pisa.Execute.Jumps.{execute_control}
use anycore_pisa.Debug.Inv.{blank}
use anycore_pisa.Execute.Access.{gpr, set_gpr, cpc, set_npc}
use anycore_pisa.Execute.Run.{◌>>=◌}
use anycore_pisa.Execute.Operands.{report_all}
use anycore_pisa.Debug.Fields.{
  Entry, DbReg, d_max_rdst, d_max_rsrc, start_entry, push_instr, push_operand,
}
use anycore_pisa.Debug.{start, push_operand_actual, push_instr_actual}
use anycore_pisa.Thread.{Thread, get_arch_mem_value}
use anycore_pisa.Thread.Tests.{thread_with}
use anycore_pisa.Execute.Floating.{Floats}
use anycore_pisa.Execute.Simulate.{func_sim}

-- Arithmetic of a host whose results are all zero.
abbrev pub zeros : Floats
zeros = record {
  arith_s = λ op x y. 0;
  arith_d = λ op x y. (0, 0);
  single_s = λ op x. 0;
  single_d = λ op x. (0, 0);
  compare_s = λ op x y. false;
  compare_d = λ op x y. false;
  is_zero_s = λ x. true;
  is_zero_d = λ x. true;
  s_of_d = λ x. 0;
  s_of_w = λ x. 0;
  d_of_s = λ x. (0, 0);
  d_of_w = λ x. (0, 0);
  w_of_s = λ x. none;
  w_of_d = λ x. none;
}

abbrev pub program : List ℕ
program = 0x37 ∷ 0 ∷ 0 ∷ 0 ∷ 5 ∷ 0 ∷ 2 ∷ 2 ∷ 2 ∷ 0 ∷ 0 ∷ 0 ∷ 0 ∷ 0 ∷ 0x10 ∷ 0 ∷ []

abbrev pub text : Table
text i = if i == 0x40 then some (λ offset. get_or program offset 0) else none

-- An entry with the arrays of the source.
abbrev pub fresh : Entry
fresh =
    let reg : DbReg = record { n = 0; value = 0 } in
    record blank {
      a_rdst = replicate d_max_rdst reg;
      a_rsrc = replicate d_max_rsrc reg;
      a_rsrc_a = replicate d_max_rsrc reg;
    }

abbrev pub thread : Thread
thread =
    let t = thread_with 7 9 in
    record t {
      memory = record t.memory { mem_table = text };
      regs_pc = 0x400000;
      next_pc = 0x400008;
      arch_pc = 0x400000;
      db = record {
        debug_size = 2;
        active_size = 2;
        db = fresh ∷ fresh ∷ [];
        head = 0;
        tail = 1;
        length = 0;
        pc_ptr = 0;
      };
    }

-- The thread that is known to come next, or the same one if nothing returns.
abbrev pub after : Thread → Thread
after t = elim (func_sim zeros none t) [ ok r ↦ r.1 | fail x ↦ t ]

abbrev pub second : Thread
second = after thread

abbrev pub third : Thread
third = after second

pub thread-second : func_sim zeros none thread ≡ ok (tt, second)
unfolding func_sim op_of unchk_read_bytes execute execute_alu mod_mask gpr set_gpr start_entry ◌>>=◌
    start report_all push_operand_actual push_instr_actual push_operand push_instr
thread-second = refl

pub second-third : func_sim zeros none second ≡ ok (tt, third)
unfolding get_arch_mem_value func_sim op_of unchk_read_bytes execute execute_control execute_alu
    mod_mask gpr set_gpr cpc set_npc start_entry ◌>>=◌ start report_all push_operand_actual
    push_instr_actual push_operand push_instr
second-third = refl
