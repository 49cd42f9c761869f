-- ===== src/Execute/Built/Integers.antt =====
-- The expressions of the integer and control operations in include/ss.def are built from accesses.
use anycore_pisa.Base.{ℕ, zero, suc, Bool}
use anycore_pisa.Debug.Fields.{Inst}
use anycore_pisa.Execute.Op.{Control, jump, Alu, add}
use anycore_pisa.Execute.Integer.{
  set_rd, set_rt, shifted, shift_left, shift_right, sra_loop, inst_sra, divide, divide_unsigned,
  set_hi_lo, execute_alu,
}
use anycore_pisa.Execute.Jumps.{jump_target, branch_if, branch_on, execute_control}
use anycore_pisa.Execute.Closed.{
  Property, Closed, Meets, Meets-bind, Meets-gpr, Meets-set_gpr, access_rules,
}
use anycore_pisa.Execute.Built.Rules.{fatal_if-Meets, talign-Meets}

module _ {Q : Property} (c : Closed Q) where
  pub set_rd-Meets : (f : ℕ → ℕ → ℕ) (inst : Inst) → Meets Q (set_rd f inst)
  unfolding set_rd
  set_rd-Meets f inst = search access_rules

  pub set_rt-Meets : (f : ℕ → ℕ → ℕ) (v : ℕ) (inst : Inst) → Meets Q (set_rt f v inst)
  unfolding set_rt
  set_rt-Meets f v inst = search access_rules

  pub shift_left-Meets : (x k : ℕ) (inst : Inst) → Meets Q (shift_left x k inst)
  unfolding shift_left shifted
  shift_left-Meets x k inst = search access_rules

  pub shift_right-Meets : (x k : ℕ) (inst : Inst) → Meets Q (shift_right x k inst)
  unfolding shift_right shifted
  shift_right-Meets x k inst = search access_rules

  pub sra_loop-Meets : (count n : ℕ) → Meets Q (sra_loop count n)
  unfolding sra_loop
  sra_loop-Meets zero n = search access_rules
  sra_loop-Meets (suc count) n =
      Meets-bind c _ _ (Meets-gpr c n)
        (λ x. Meets-bind c _ _ (Meets-set_gpr c n _) (λ _. sra_loop-Meets count n))

  pub inst_sra-Meets : (x k : ℕ) (inst : Inst) → Meets Q (inst_sra x k inst)
  unfolding inst_sra
  inst_sra-Meets x k inst = search (access_rules, sra_loop-Meets, shift_right-Meets)

  pub divide-Meets : (x y : ℕ) → Meets Q (divide x y)
  unfolding divide
  divide-Meets x y = search (access_rules, fatal_if-Meets)

  pub divide_unsigned-Meets : (x y : ℕ) → Meets Q (divide_unsigned x y)
  unfolding divide_unsigned
  divide_unsigned-Meets x y = search (access_rules, fatal_if-Meets)

  pub set_hi_lo-Meets : (v : ℕ × ℕ) → Meets Q (set_hi_lo v)
  unfolding set_hi_lo
  set_hi_lo-Meets (h, l) = search access_rules

  pub execute_alu-Meets : (op : Alu) (inst : Inst) → Meets Q (execute_alu op inst)
  unfolding execute_alu
  execute_alu-Meets add inst = search (access_rules, fatal_if-Meets)
  execute_alu-Meets _ inst = search (
    access_rules, fatal_if-Meets, set_rd-Meets, set_rt-Meets, shift_left-Meets, shift_right-Meets,
    inst_sra-Meets, divide-Meets, divide_unsigned-Meets, set_hi_lo-Meets,
  )

  pub jump_target-Meets : (inst : Inst) → Meets Q (jump_target inst)
  unfolding jump_target
  jump_target-Meets inst = search access_rules

  pub branch_if-Meets : (b : Bool) (inst : Inst) → Meets Q (branch_if b inst)
  unfolding branch_if
  branch_if-Meets b inst = search access_rules

  pub branch_on-Meets : (test : ℕ → Bool) (inst : Inst) → Meets Q (branch_on test inst)
  unfolding branch_on
  branch_on-Meets test inst = search (access_rules, branch_if-Meets)

  pub execute_control-Meets : (op : Control) (inst : Inst) → Meets Q (execute_control op inst)
  unfolding execute_control
  execute_control-Meets jump inst = jump_target-Meets inst
  execute_control-Meets _ inst =
      search (access_rules, jump_target-Meets, branch_if-Meets, branch_on-Meets, talign-Meets) depth
        9
