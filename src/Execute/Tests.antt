-- ===== src/Execute/Tests.antt =====
-- Products of words, and an ADDIU, at concrete operands.
use anycore_pisa.Base.{ℕ, suc, ◌*◌, ◌≡◌, refl, arith, none, ok, List, [], ◌∷◌, ◌≤◌, max, mod_mask}
use anycore_pisa.Blocks.{unchk_read_bytes}
use anycore_pisa.Execute.Semantics.{execute}
use anycore_pisa.Execute.Integer.{execute_alu}
use anycore_pisa.Execute.Access.{gpr, set_gpr}
use anycore_pisa.Execute.Operands.{report_all}
use anycore_pisa.Debug.Fields.{start_entry, push_instr, push_operand, f_store}
use anycore_pisa.Debug.{start, push_operand_actual, push_instr_actual}
use anycore_pisa.Thread.{Thread}
use anycore_pisa.Execute.Run.{pure, ◌>>=◌}
use anycore_pisa.Execute.Op.{op_of, control, jump}
use anycore_pisa.Execute.Simulate.{func_sim, func_sim_fast}
use anycore_pisa.Execute.Reread.{DiffersInNotes}
use anycore_pisa.Memory.Same.{SameBytes}
use anycore_pisa.Execute.Flags.{flag_list, last_masked}
use anycore_pisa.Execute.Fast.{func_sim-func_sim_fast}
use anycore_pisa.Execute.Simulate.{skip}
use anycore_pisa.Execute.Keeps.{Keeps-pure}
use anycore_pisa.Execute.Skip.{skip-Skips}
use anycore_pisa.Execute.Access.{over, under}
use anycore_pisa.Execute.Overflow.{over_result, under_result, over-under}
use anycore_pisa.Execute.Samples.{zeros, thread, second, third, second-third}
use anycore_pisa.Execute.Multiply.{multiply_signed, multiply_unsigned}
use anycore_pisa.Execute.Product.{
  value, AreWords, signed_product, multiply_unsigned_lem, multiply_signed_lem,
}

multiply_unsigned_lem_example :
    (value (multiply_unsigned 0xffffffff 0x80000001) ≡ 0xffffffff * 0x80000001)
    × AreWords (multiply_unsigned 0xffffffff 0x80000001)
multiply_unsigned_lem_example =
    multiply_unsigned_lem 0xffffffff 0x80000001 (omega arith) (omega arith)

multiply_signed_lem_example :
    (value (multiply_signed 0xfffffffd 5) ≡ signed_product 0xfffffffd 5)
    × AreWords (multiply_signed 0xfffffffd 5)
multiply_signed_lem_example = multiply_signed_lem 0xfffffffd 5 (omega arith) (omega arith)

-- Minus three times five.
signed_product-minus_15 : signed_product 0xfffffffd 5 ≡ 0xfffffffffffffff1
signed_product-minus_15 = refl

abbrev jump_bytes : List ℕ
jump_bytes = 2 ∷ 0 ∷ 0 ∷ 0 ∷ 0 ∷ 0 ∷ 0x10 ∷ 0 ∷ []

func_sim-func_sim_fast_example :
    (u : Thread) × (func_sim_fast zeros none (pure tt) second ≡ ok (tt, u))
    × DiffersInNotes (flag_list (control jump)) u third
    × SameBytes third.memory u.memory
unfolding func_sim op_of unchk_read_bytes execute execute_alu mod_mask gpr set_gpr start_entry ◌>>=◌
    start report_all push_operand_actual push_instr_actual push_operand push_instr
func_sim-func_sim_fast_example =
    func_sim-func_sim_fast zeros none (pure tt) second third jump_bytes (control jump) refl refl
      refl second-third

-- JUMP has a call of get_arch_mem_value.
jump-masked : last_masked (flag_list (control jump)) f_store ≡ 4
jump-masked = refl

skip-Skips_example :
    ((g : ℕ)
      → 2 ≤ g
      → skip 3 zeros none (pure tt) 102 thread ≡ skip (suc g) zeros none (pure tt) 102 thread)
    × ((u : Thread)
        → skip 3 zeros none (pure tt) 102 thread ≡ ok (tt, u)
        → (u.num_insn ≡ max thread.num_insn 102) × (u.arch_pc ≡ u.regs_pc))
skip-Skips_example = skip-Skips zeros none (pure tt) 102 2 thread (λ n. Keeps-pure tt) (omega arith)

-- The sum is -2^31.
over-under_example :
    (over 0xfffffffe 0x80000002 ≡ over_result 0xfffffffe 0x80000002)
    × (under 0xfffffffe 0x80000002 ≡ under_result 0xfffffffe 0x80000002)
over-under_example = over-under 0xfffffffe 0x80000002 (omega arith) (omega arith)
