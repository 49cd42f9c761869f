-- ===== src/Execute/Built/Floating.antt =====
-- The expressions of the floating-point operations in include/ss.def are built from accesses.
use anycore_pisa.Base.{ℕ, none, some, Option}
use anycore_pisa.Debug.Fields.{Inst}
use anycore_pisa.Execute.Op.{Arith, Single, Compare, Convert, cvt_s_d, Format, s, d}
use anycore_pisa.Execute.Floating.{
  Floats, align3, align2, or_stop, execute_arith, execute_single, execute_compare, execute_convert,
}
use anycore_pisa.Execute.Closed.{Property, Closed, Meets, access_rules}
use anycore_pisa.Execute.Built.Rules.{fatal_if-Meets, align-Meets, fpr_d-Meets, set_fpr_d-Meets}

module _ {Q : Property} (c : Closed Q) where
  module _ (floats : Floats) where
    pub execute_arith-Meets :
        (op : Arith) (format : Format) (inst : Inst) → Meets Q (execute_arith floats op format inst)
    unfolding execute_arith align3
    execute_arith-Meets op s inst = search (access_rules, align-Meets, fatal_if-Meets)
    execute_arith-Meets op d inst =
        search (access_rules, align-Meets, fatal_if-Meets, fpr_d-Meets, set_fpr_d-Meets)

    pub execute_single-Meets :
        (op : Single) (format : Format) (inst : Inst)
        → Meets Q (execute_single floats op format inst)
    unfolding execute_single align2
    execute_single-Meets op s inst = search (access_rules, align-Meets)
    execute_single-Meets op d inst =
        search (access_rules, align-Meets, fpr_d-Meets, set_fpr_d-Meets)

    pub execute_compare-Meets :
        (op : Compare) (format : Format) (inst : Inst)
        → Meets Q (execute_compare floats op format inst)
    unfolding execute_compare
    execute_compare-Meets op s inst = search (access_rules, align-Meets)
    execute_compare-Meets op d inst = search (access_rules, align-Meets, fpr_d-Meets)

    pub or_stop-Meets : (o : Option ℕ) → Meets Q (or_stop o)
    or_stop-Meets none = search access_rules
    or_stop-Meets (some v) = search access_rules

    pub execute_convert-Meets :
        (op : Convert) (inst : Inst) → Meets Q (execute_convert floats op inst)
    unfolding execute_convert align2
    execute_convert-Meets cvt_s_d inst = search (access_rules, align-Meets, fpr_d-Meets)
    execute_convert-Meets _ inst =
        search (access_rules, align-Meets, fpr_d-Meets, set_fpr_d-Meets, or_stop-Meets)
