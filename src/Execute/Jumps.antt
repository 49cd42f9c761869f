-- ===== src/Execute/Jumps.antt =====
-- The expressions of the control operations in include/ss.def.
use anycore_pisa.Base.{ℕ, Bool, not, ◌==◌, if◌then◌else◌, add32, bit_and, bit_or, ◌<<<◌}
use anycore_pisa.Debug.Fields.{Inst}
use anycore_pisa.Isa.{rs, rt, rd, imm, targ}
use anycore_pisa.Execute.Run.{Run, pure, ◌>>=◌, ◌>>◌}
use anycore_pisa.Execute.Access.{gpr, set_gpr, cpc, set_npc, fcc, talign, lts}
use anycore_pisa.Execute.Op.{
  Control, jump, jal, jr, jalr, beq, bne, blez, bgtz, bltz, bgez, bc1f, bc1t,
}

-- SET_NPC((CPC & 036000000000) | (TARG << 2)).
unfoldable pub jump_target : Inst → Run (Unit {0})
jump_target inst = do pc ← cpc; set_npc (bit_or (bit_and pc 0xf0000000) (targ inst <<< 2))

-- SET_NPC(CPC + 8 + (OFS << 2)), if the condition holds.
unfoldable pub branch_if : Bool → Inst → Run (Unit {0})
branch_if taken inst = do
  pc ← cpc
  if taken then set_npc (add32 (add32 pc 8) (imm inst <<< 2)) else pure tt

-- A branch on GPR(RS).
unfoldable pub branch_on : (ℕ → Bool) → Inst → Run (Unit {0})
unfolding branch_if
branch_on test inst = do x ← gpr (rs inst); branch_if (test x) inst

unfoldable pub execute_control : Control → Inst → Run (Unit {0})
unfolding jump_target branch_if branch_on
execute_control jump inst = jump_target inst
execute_control jal inst = do jump_target inst; pc ← cpc; set_gpr 31 (add32 pc 8)
execute_control jr inst = do target ← gpr (rs inst); talign target; set_npc target
execute_control jalr inst = do
  target ← gpr (rs inst)
  talign target
  pc ← cpc
  set_gpr (rd inst) (add32 pc 8)
  target' ← gpr (rs inst)
  set_npc target'
execute_control beq inst = do x ← gpr (rs inst); y ← gpr (rt inst); branch_if (x == y) inst
execute_control bne inst = do x ← gpr (rs inst); y ← gpr (rt inst); branch_if (not (x == y)) inst
execute_control blez inst = branch_on (λ x. not (lts 0 x)) inst
execute_control bgtz inst = branch_on (λ x. lts 0 x) inst
execute_control bltz inst = branch_on (λ x. lts x 0) inst
execute_control bgez inst = branch_on (λ x. not (lts x 0)) inst
execute_control bc1f inst = do c ← fcc; branch_if (c == 0) inst
execute_control bc1t inst = do c ← fcc; branch_if (not (c == 0)) inst
