-- ===== src/Execute/Operands.antt =====
-- The last two arguments of the DEFINST lines of include/ss.def, with the macros of include/macros.h:
-- what an instruction reports to the debug buffer before and after it is executed.
use anycore_pisa.Base.{ℕ, ◌+◌, List, [], ◌∷◌, false, Outcome, ok, fail, aborted}
use anycore_pisa.Base
use anycore_pisa.Debug.{push_operand_actual, push_address_actual, DebugBuffer}
use anycore_pisa.Debug.Fields.{
  Inst, Operand, rsrc_operand, rdst_operand, rsrc_a_operand, msrc_operand, mdst_operand,
}
use anycore_pisa.Isa.{rs, rt, rd}
use anycore_pisa.Thread.{get_arch_mem_value, fpr_base, hi_id, lo_id, fcc_id}
use anycore_pisa.Execute.Run.{Run, pure, stop, modify, ◌>>=◌, ◌>>◌}
use anycore_pisa.Execute.Access.{Addressing, disp, rr, address, gpr, fpr_l, hi, lo, fcc}
use anycore_pisa.Execute.Op.{
  Load, dlw, l_s, l_d, Store, sb, sh, sw, dsw, dsz, s_s, s_d, Format, s, d,
}

-- A register with its number and its value, as the operands name it: `RS, GPR(RS)`,
-- `(FS)+FPR_BASE, FPR_L(FS)`, `HI_ID, HI`.
pub data Place : Type 0 where
  gp fp : ℕ → Place
  hi_place lo_place fcc_place : Place

abbrev pub place_id : Place → ℕ
place_id (gp n) = n
place_id (fp n) = n + fpr_base
place_id hi_place = hi_id
place_id lo_place = lo_id
place_id fcc_place = fcc_id

unfoldable pub place_value : Place → Run ℕ
place_value (gp n) = gpr n
place_value (fp n) = fpr_l n
place_value hi_place = hi
place_value lo_place = lo
place_value fcc_place = fcc

-- One macro call. UNIMP is a failed assertion.
pub data Note : Type 0 where
  rsrc rsrc_a rdst : Place → Note
  msrc mdst : Addressing → Note
  unimp : Note

-- A method of the debug buffer.
unfoldable pub on_db : (ℕ → DebugBuffer → Outcome DebugBuffer) → Run (Unit {0})
on_db f t = Base.◌>>=◌ (f t.regs_pc t.db) (λ b. ok (tt, record t { db = b }))

-- get_arch_mem_value into `real_upper` and `real_lower`.
unfoldable pub real_values : ℕ → Run (Unit {0})
real_values addr t =
    Base.◌>>=◌ (get_arch_mem_value t.memory addr)
      (λ r. ok (tt, record t { memory = r.0; real_upper = r.1; real_lower = r.2 }))

unfoldable pub push_address_note : Operand → ℕ → Run (Unit {0})
push_address_note kind addr t =
    Base.◌>>=◌ (push_address_actual addr kind t.regs_pc t.real_upper t.real_lower t.db)
      (λ b. ok (tt, record t { db = b }))

unfoldable pub push_operand_note : Operand → Place → Run (Unit {0})
unfolding place_value on_db
push_operand_note kind place = do
  v ← place_value place
  on_db (push_operand_actual (place_id place) kind v)

unfoldable pub report : Inst → Note → Run (Unit {0})
unfolding push_operand_note push_address_note real_values
report inst (rsrc place) = push_operand_note rsrc_operand place
report inst (rsrc_a place) = push_operand_note rsrc_a_operand place
report inst (rdst place) = push_operand_note rdst_operand place
report inst (msrc mode) = do
  addr ← address mode inst
  real_values addr
  push_address_note msrc_operand addr
report inst (mdst mode) = do
  addr ← address mode inst
  modify (λ t. record t { store_addr = addr })
  real_values addr
  push_address_note mdst_operand addr
report inst unimp = stop aborted

unfoldable pub report_all : Inst → List Note → Run (Unit {0})
unfolding report
report_all inst [] = pure tt
report_all inst (note ∷ notes) = do report inst note; report_all inst notes

-- The address operands of the two addressing modes.
abbrev pub bases : Addressing → Inst → List Note
bases disp inst = rsrc_a (gp (rs inst)) ∷ []
bases rr inst = rsrc_a (gp (rs inst)) ∷ rsrc_a (gp (rd inst)) ∷ []

abbrev pub stored_places : Store → Inst → List Place
stored_places sb inst = gp (rt inst) ∷ []
stored_places sh inst = gp (rt inst) ∷ []
stored_places sw inst = gp (rt inst) ∷ []
stored_places dsw inst = gp (rt inst) ∷ gp (rt inst + 1) ∷ []
stored_places dsz inst = []
stored_places s_s inst = fp (rt inst) ∷ []
stored_places s_d inst = fp (rt inst) ∷ fp (rt inst + 1) ∷ []

abbrev pub loaded_places : Load → Inst → List Place
loaded_places dlw inst = gp (rt inst) ∷ gp (rt inst + 1) ∷ []
loaded_places l_s inst = fp (rt inst) ∷ []
loaded_places l_d inst = fp (rt inst) ∷ fp (rt inst + 1) ∷ []
loaded_places _ inst = gp (rt inst) ∷ []

-- The words of a floating-point operand.
abbrev pub words : Format → ℕ → List Place
words s n = fp n ∷ []
words d n = fp n ∷ fp (n + 1) ∷ []
