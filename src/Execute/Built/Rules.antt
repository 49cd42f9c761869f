-- ===== src/Execute/Built/Rules.antt =====
-- The macros of func_sim.cc and ss.h are built from accesses.
use anycore_pisa.Base.{ℕ, ◌-◌, Bool, List, at}
use anycore_pisa.Debug.Fields.{Inst}
use anycore_pisa.Execute.Run.{Run}
use anycore_pisa.Execute.Access.{
  Addressing, disp, rr, address, fpr_d, set_fpr_d, fatal_if, align, talign, bump, inc_dec, ss_tab,
  fore_row, aft_row,
}
use anycore_pisa.Execute.Closed.{
  Property, Closed, Meets, Meets-bind, Meets-lift, Meets-gpr, Meets-set_gpr, access_rules,
}

module _ {Q : Property} (c : Closed Q) where
  pub fatal_if-Meets : (b : Bool) → Meets Q (fatal_if b)
  unfolding fatal_if
  fatal_if-Meets b = search access_rules

  pub align-Meets : (n : ℕ) → Meets Q (align n)
  unfolding align
  align-Meets n = fatal_if-Meets _

  pub talign-Meets : (n : ℕ) → Meets Q (talign n)
  unfolding talign
  talign-Meets n = fatal_if-Meets _

  pub fpr_d-Meets : (n : ℕ) → Meets Q (fpr_d n)
  unfolding fpr_d
  fpr_d-Meets n = search access_rules

  pub set_fpr_d-Meets : (n : ℕ) (v : ℕ × ℕ) → Meets Q (set_fpr_d n v)
  unfolding set_fpr_d
  set_fpr_d-Meets n v = search access_rules

  pub address-Meets : (mode : Addressing) (inst : Inst) → Meets Q (address mode inst)
  unfolding address
  address-Meets disp inst = search access_rules
  address-Meets rr inst = search access_rules

  pub bump-Meets :
      (tab : List (List ℕ)) (reg size : ℕ) (inst : Inst) → Meets Q (bump tab reg size inst)
  unfolding bump
  bump-Meets tab reg size inst = Meets-bind c _ _ (Meets-gpr c reg) (λ x.
      Meets-bind c _ _ (Meets-lift c (at tab (size - 1)))
        (λ row. Meets-bind c _ _ (Meets-lift c (at row _)) (λ v. Meets-set_gpr c reg _)))

  pub inc_dec-Meets :
      (expr : Run (Unit {0})) (reg size : ℕ) (inst : Inst)
      → Meets Q expr
      → Meets Q (inc_dec expr reg size inst)
  unfolding inc_dec
  inc_dec-Meets expr reg size inst k =
      Meets-bind c _ _ (bump-Meets (ss_tab fore_row) reg size inst)
        (λ _. Meets-bind c _ _ k (λ _. bump-Meets (ss_tab aft_row) reg size inst))
