-- ===== src/Execute/Noted.antt =====
-- What func_sim of func_sim.cc reports of registers to the debug buffer changes nothing else.
use anycore_pisa.Base.{
  ℕ, ◌+◌, ◌≡◌, refl, sym, ap, ◌∙◌, subst, Bool, true, false, ◌&&◌, Bool-cases, inl, inr, List, [],
  ◌∷◌, ◌++◌, map, Option, none, some, Outcome, ok, fail, bind-ok, at, set, ◌==◌, bit_and,
  if◌then◌else◌, add32, ok-injective,
}
use anycore_pisa.Base
use anycore_pisa.Debug.{DebugBuffer}
use anycore_pisa.Debug.Fields.{Inst, Operand}
use anycore_pisa.Thread.{Thread}
use anycore_pisa.Execute.Access.{gpr, fpr_l, hi, lo, fcc}
use anycore_pisa.Execute.Operands.{
  Place, gp, fp, hi_place, lo_place, fcc_place, place_value, Note, rsrc, rsrc_a, rdst, msrc, mdst,
  unimp, on_db, push_operand_note, report, report_all,
}
use anycore_pisa.Execute.Keeps.{Keeps, Keeps-pure, Keeps-stop, Keeps-bind}
use anycore_pisa.Execute.Frame.{reads}
use anycore_pisa.Execute.Alike.{erase}
use anycore_pisa.Execute.Plain.{on_registers}

-- The thread is as `s`, but for its debug buffer.
abbrev pub Noted : Thread → Thread → Type 0
Noted s t = erase t ≡ erase s

pub push-Noted :
    (s : Thread) (o : Thread → Outcome DebugBuffer)
    → Keeps {0} (Noted s) (λ t. Base.◌>>=◌ (o t) (λ b. ok (tt, record t { db = b })))
push-Noted s o = reads (Noted s) o (λ b t. (tt, record t { db = b })) (λ b t h. h)

place_value-Noted : (s : Thread) (place : Place) → Keeps (Noted s) (place_value place)
unfolding place_value gpr fpr_l hi lo fcc
place_value-Noted s (gp n) = reads (Noted s) (λ t. at t.regs_r n) (λ v t. (v, t)) (λ v t h. h)
place_value-Noted s (fp n) = reads (Noted s) (λ t. at t.regs_f_l n) (λ v t. (v, t)) (λ v t h. h)
place_value-Noted s hi_place = reads (Noted s) (λ t. ok t.regs_hi) (λ v t. (v, t)) (λ v t h. h)
place_value-Noted s lo_place = reads (Noted s) (λ t. ok t.regs_lo) (λ v t. (v, t)) (λ v t h. h)
place_value-Noted s fcc_place = reads (Noted s) (λ t. ok t.regs_fcc) (λ v t. (v, t)) (λ v t h. h)

push_operand_note-Noted :
    (s : Thread) (kind : Operand) (place : Place) → Keeps (Noted s) (push_operand_note kind place)
unfolding push_operand_note on_db
push_operand_note-Noted s kind place =
    Keeps-bind _ _ (place_value-Noted s place) (λ v. push-Noted s _)

pub report_all-Noted :
    (s : Thread) (inst : Inst) (notes : List Note)
    → on_registers notes ≡ true
    → Keeps (Noted s) (report_all inst notes)
unfolding report_all report
report_all-Noted s inst [] h = Keeps-pure tt
report_all-Noted s inst (rsrc place ∷ notes) h =
    Keeps-bind _ _ (push_operand_note-Noted s _ place) (λ _. report_all-Noted s inst notes h)
report_all-Noted s inst (rsrc_a place ∷ notes) h =
    Keeps-bind _ _ (push_operand_note-Noted s _ place) (λ _. report_all-Noted s inst notes h)
report_all-Noted s inst (rdst place ∷ notes) h =
    Keeps-bind _ _ (push_operand_note-Noted s _ place) (λ _. report_all-Noted s inst notes h)
report_all-Noted s inst (msrc mode ∷ notes) h = absurd cc
report_all-Noted s inst (mdst mode ∷ notes) h = absurd cc
report_all-Noted s inst (unimp ∷ notes) h =
    Keeps-bind _ _ (Keeps-stop _) (λ _. report_all-Noted s inst notes h)
