-- ===== src/Retire/Check.antt =====
-- simulation/functional-sim/vpi/src/checkRetireInst.cpp and getRetireInstPC.cpp: the RTL model retires
-- an instruction, and the functional simulator compares.
use anycore_pisa.Base.{
  ℕ, suc, ◌+◌, Bool, true, false, ◌&&◌, not, Option, none, some, ltb, ◌==◌, if◌then◌else◌, Outcome,
  ok, fail, aborted, exited, at,
}
use anycore_pisa.Base
use anycore_pisa.Debug.Fields.{Entry, DbReg}
use anycore_pisa.Execute.Run.{Run, pure, stop, ◌>>=◌, ◌>>◌}
use anycore_pisa.Execute.Floating.{Floats}
use anycore_pisa.Retire.{get_instr}

-- The first destination of an entry.
abbrev pub first_rdst : Entry → Run DbReg
first_rdst e t = Base.◌>>=◌ (at e.a_rdst 0) (λ r. ok (r, t))

-- A message and `assert(0)`.
abbrev pub reject_if : Bool → Run (Unit {0})
reject_if b = if b then stop aborted else pure tt

abbrev pub check_value : ℕ → Entry → Run (Unit {0})
check_value v_rdst_value e = do r ← first_rdst e; reject_if (not (v_rdst_value == r.value))

-- The checks of the entry.
unfoldable pub compare_retired : ℕ → ℕ → Entry → Run (Unit {0})
compare_retired v_pc v_rdst_value e = do
  reject_if (ltb 1 e.a_num_rdst)
  reject_if (not (v_pc == e.a_pc))
  if e.a_num_rdst == 1 then check_value v_rdst_value e else pure tt

unfoldable pub check_retire_inst : ℕ → Floats → Option ℕ → ℕ → ℕ → Run (Unit {0})
check_retire_inst fuel floats limit v_pc v_rdst_value = do
  e ← get_instr fuel floats limit
  compare_retired v_pc v_rdst_value e

-- The arguments of $getRetireInstPC.
pub record Retired : Type 0 where
  pub v_check_enable : ℕ
  pub v_pc : ℕ
  pub v_rdst : ℕ
  pub v_rdst_value : ℕ
  pub v_check_fission : ℕ

abbrev pub stop_after_mismatch : ℕ
stop_after_mismatch = 10

abbrev pub check_rdst : Retired → Entry → Run Bool
check_rdst r e = do x ← first_rdst e; pure (not (r.v_rdst == x.n && r.v_rdst_value == x.value))

-- Whether the entry is counted as a mismatch.
unfoldable pub mismatch : Retired → Entry → Run Bool
mismatch r e =
    if not (r.v_pc == e.a_pc)
    then pure true
    else (if ltb 0 e.a_num_rdst && r.v_check_fission == 0 then check_rdst r e else pure false)

-- The number of mismatches, `numMismatches`, before and after.
unfoldable pub get_retire_inst_pc : ℕ → Floats → Option ℕ → Retired → ℕ → Run ℕ
get_retire_inst_pc fuel floats limit r num_mismatches =
    if r.v_check_enable == 0 then pure num_mismatches else (do
      e ← get_instr fuel floats limit
      wrong ← mismatch r e
      let n = if wrong then num_mismatches + 1 else num_mismatches
      if ltb stop_after_mismatch n then stop exited else pure n)
