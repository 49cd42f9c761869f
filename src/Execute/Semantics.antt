-- ===== src/Execute/Semantics.antt =====
-- The expressions of the miscellaneous operations in include/ss.def, trap_stop of
-- libss-vpi/lib.src/syscall.cc, and the `switch` of func_sim_fast over all operations.
use anycore_pisa.Base.{◌+◌, true, ok, ◌<<<◌}
use anycore_pisa.Debug.Fields.{Inst}
use anycore_pisa.Isa.{rs, rt, uimm}
use anycore_pisa.Execute.Run.{Run, pure, ◌>>=◌, ◌>>◌}
use anycore_pisa.Execute.Access.{gpr, set_gpr, fpr_l, set_fpr_l, align}
use anycore_pisa.Execute.Op.{
  Op, control, load, store, unaligned, obsolete, alu, float_arith, float_single, convert, compare,
  misc, Misc, nop, syscall, break, lui, mfc1, dmfc1, cfc1, mtc1, dmtc1, ctc1,
}
use anycore_pisa.Execute.Integer.{execute_alu}
use anycore_pisa.Execute.Jumps.{execute_control}
use anycore_pisa.Execute.Transfers.{
  execute_load, execute_store, execute_unaligned, execute_obsolete,
}
use anycore_pisa.Execute.Floating.{
  Floats, execute_arith, execute_single, execute_compare, execute_convert,
}

-- SYSCALL stops the thread until the trap is handled.
unfoldable pub trap_stop : Inst → Run (Unit {0})
trap_stop inst t =
    ok (tt, record t { trap_inst = record { a = inst.a; b = inst.b }; blocked = true })

unfoldable pub execute_misc : Misc → Inst → Run (Unit {0})
unfolding trap_stop
execute_misc nop inst = pure tt
execute_misc syscall inst = trap_stop inst
execute_misc break inst = pure tt
execute_misc lui inst = set_gpr (rt inst) (uimm inst <<< 16)
execute_misc mfc1 inst = do v ← fpr_l (rs inst); set_gpr (rt inst) v
execute_misc dmfc1 inst = do
  align (rt inst)
  align (rs inst)
  low ← fpr_l (rs inst)
  set_gpr (rt inst) low
  high ← fpr_l (rs inst + 1)
  set_gpr (rt inst + 1) high
execute_misc cfc1 inst = pure tt
execute_misc mtc1 inst = do v ← gpr (rt inst); set_fpr_l (rs inst) v
execute_misc dmtc1 inst = do
  align (rs inst)
  align (rt inst)
  low ← gpr (rt inst)
  set_fpr_l (rs inst) low
  high ← gpr (rt inst + 1)
  set_fpr_l (rs inst + 1) high
execute_misc ctc1 inst = pure tt

-- The expression of an operation.
unfoldable pub execute : Floats → Op → Inst → Run (Unit {0})
execute floats (control op) inst = execute_control op inst
execute floats (load mode op) inst = execute_load mode op inst
execute floats (store mode op) inst = execute_store mode op inst
execute floats (unaligned op) inst = execute_unaligned op inst
execute floats (obsolete op) inst = execute_obsolete op inst
execute floats (alu op) inst = execute_alu op inst
execute floats (float_arith op format) inst = execute_arith floats op format inst
execute floats (float_single op format) inst = execute_single floats op format inst
execute floats (convert op) inst = execute_convert floats op inst
execute floats (compare op format) inst = execute_compare floats op format inst
execute floats (misc op) inst = execute_misc op inst
