-- ===== src/Execute/Built.antt =====
-- The expressions of include/ss.def are built from accesses of registers, memory, the next program
-- counter and the state of traps.
pub mod Rules
pub mod Integers
pub mod Transfers
pub mod Floating
use anycore_pisa.Base.{
  ℕ, zero, suc, ◌+◌, ◌-◌, Bool, List, true, false, none, some, Option, Outcome, ok, at, ◌≡◌, arith,
}
use anycore_pisa.Debug.Fields.{Inst}
use anycore_pisa.Thread.{Thread}
use anycore_pisa.Execute.Run.{Run, ◌>>=◌}
use anycore_pisa.Execute.Access.{
  Addressing, disp, rr, address, fpr_d, set_fpr_d, read_word, read_unsigned_half, read_signed_half,
  read_unsigned_byte, read_signed_byte, write_word, write_half, write_byte, fatal_if, align, talign,
  bump, inc_dec, ss_tab, fore_row, aft_row,
}
use anycore_pisa.Execute.Op.{
  Op, control, load, store, unaligned, obsolete, alu, float_arith, float_single, convert, compare,
  misc, Control, jump, Load, lb, lbu, lh, lhu, lw, dlw, l_s, l_d, Store, sb, sh, sw, dsw, dsz, s_s,
  s_d, Unaligned, lwl, Obsolete, l_s_rr_r2, Alu, add, Arith, Single, Compare, Convert, cvt_s_d,
  Format, s, d, Misc, nop, syscall,
}
use anycore_pisa.Execute.Integer.{
  set_rd, set_rt, shifted, shift_left, shift_right, sra_loop, inst_sra, divide, divide_unsigned,
  set_hi_lo, execute_alu,
}
use anycore_pisa.Execute.Jumps.{jump_target, branch_if, branch_on, execute_control}
use anycore_pisa.Execute.Transfers.{
  load_gpr, load_expr, execute_load, store_pair, store_one, store_expr, execute_store, load_part,
  store_part, execute_unaligned, address_r2, obsolete_expr, execute_obsolete,
}
use anycore_pisa.Execute.Floating.{
  Floats, align3, align2, or_stop, execute_arith, execute_single, execute_compare, execute_convert,
}
use anycore_pisa.Execute.Semantics.{trap_stop, execute_misc, execute}
use anycore_pisa.Execute.Closed.{
  Property, Closed, Meets, Meets-pure, Meets-stop, Meets-bind, Meets-if, Meets-lift, Meets-gpr,
  Meets-set_gpr, Meets-fpr_l, Meets-set_fpr_l, Meets-read, Meets-write, access_rules,
}
use anycore_pisa.Execute.Built.Rules.{
  fatal_if-Meets, align-Meets, talign-Meets, fpr_d-Meets, set_fpr_d-Meets, address-Meets,
  bump-Meets, inc_dec-Meets,
}
use anycore_pisa.Execute.Built.Integers.{
  set_rd-Meets, set_rt-Meets, shift_left-Meets, shift_right-Meets, sra_loop-Meets, inst_sra-Meets,
  divide-Meets, divide_unsigned-Meets, set_hi_lo-Meets, execute_alu-Meets, jump_target-Meets,
  branch_if-Meets, branch_on-Meets, execute_control-Meets,
}
use anycore_pisa.Execute.Built.Transfers.{
  read_word-Meets, write_word-Meets, load_gpr-Meets, load_expr-Meets, execute_load-Meets,
  store_pair-Meets, store_one-Meets, store_expr-Meets, execute_store-Meets, load_part-Meets,
  store_part-Meets, execute_unaligned-Meets, address_r2-Meets, obsolete_expr-Meets,
  execute_obsolete-Meets,
}
use anycore_pisa.Execute.Built.Floating.{
  execute_arith-Meets, execute_single-Meets, execute_compare-Meets, or_stop-Meets,
  execute_convert-Meets,
}

module _ {Q : Property} (c : Closed Q) where
  trap_stop-Meets : (inst : Inst) → Meets Q (trap_stop inst)
  unfolding trap_stop
  trap_stop-Meets inst = record { holds = c.of_trap_stop inst }

  execute_misc-Meets : (op : Misc) (inst : Inst) → Meets Q (execute_misc op inst)
  unfolding execute_misc
  execute_misc-Meets nop inst = search access_rules
  execute_misc-Meets syscall inst = trap_stop-Meets inst
  execute_misc-Meets _ inst = search (access_rules, align-Meets) depth 9

  module _ (floats : Floats) where
    pub execute-Meets : (op : Op) (inst : Inst) → Meets Q (execute floats op inst)
    unfolding execute
    execute-Meets (control op) inst = execute_control-Meets c op inst
    execute-Meets (load mode op) inst = execute_load-Meets c mode op inst
    execute-Meets (store mode op) inst = execute_store-Meets c mode op inst
    execute-Meets (unaligned op) inst = execute_unaligned-Meets c op inst
    execute-Meets (obsolete op) inst = execute_obsolete-Meets c op inst
    execute-Meets (alu op) inst = execute_alu-Meets c op inst
    execute-Meets (float_arith op format) inst = execute_arith-Meets c floats op format inst
    execute-Meets (float_single op format) inst = execute_single-Meets c floats op format inst
    execute-Meets (convert op) inst = execute_convert-Meets c floats op inst
    execute-Meets (compare op format) inst = execute_compare-Meets c floats op format inst
    execute-Meets (misc op) inst = execute_misc-Meets op inst
