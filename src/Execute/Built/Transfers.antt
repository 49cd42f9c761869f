-- ===== src/Execute/Built/Transfers.antt =====
-- The expressions of the loads and stores in include/ss.def are built from accesses.
use anycore_pisa.Base.{ℕ}
use anycore_pisa.Debug.Fields.{Inst}
use anycore_pisa.Execute.Run.{Run}
use anycore_pisa.Execute.Access.{
  Addressing, read_word, read_unsigned_half, read_signed_half, read_unsigned_byte, read_signed_byte,
  write_word, write_half, write_byte,
}
use anycore_pisa.Execute.Op.{
  Load, lb, lbu, lh, lhu, lw, dlw, l_s, l_d, Store, sb, sh, sw, dsw, dsz, s_s, s_d, Unaligned, lwl,
  Obsolete, l_s_rr_r2,
}
use anycore_pisa.Execute.Transfers.{
  load_gpr, load_expr, execute_load, store_pair, store_one, store_expr, execute_store, load_part,
  store_part, execute_unaligned, address_r2, obsolete_expr, execute_obsolete,
}
use anycore_pisa.Execute.Closed.{
  Property, Closed, Meets, Meets-bind, Meets-gpr, Meets-set_gpr, Meets-fpr_l, access_rules,
}
use anycore_pisa.Execute.Built.Rules.{align-Meets, address-Meets, inc_dec-Meets}

module _ {Q : Property} (c : Closed Q) where
  pub read_word-Meets : (addr : ℕ) → Meets Q (read_word addr)
  unfolding read_word
  read_word-Meets addr = search access_rules

  pub write_word-Meets : (v addr : ℕ) → Meets Q (write_word v addr)
  unfolding write_word
  write_word-Meets v addr = search access_rules

  pub load_gpr-Meets :
      (read : ℕ → Run ℕ) (mode : Addressing) (inst : Inst)
      → ((addr : ℕ) → Meets Q (read addr))
      → Meets Q (load_gpr read mode inst)
  unfolding load_gpr
  load_gpr-Meets read mode inst k =
      Meets-bind c _ _ (address-Meets c mode inst)
        (λ addr. Meets-bind c _ _ (k addr) (λ v. Meets-set_gpr c _ v))

  pub load_expr-Meets :
      (op : Load) (mode : Addressing) (inst : Inst) → Meets Q (load_expr op mode inst)
  unfolding load_expr read_signed_byte read_unsigned_byte read_signed_half read_unsigned_half
  load_expr-Meets lb mode inst =
      load_gpr-Meets read_signed_byte mode inst (λ addr. search access_rules)
  load_expr-Meets lbu mode inst =
      load_gpr-Meets read_unsigned_byte mode inst (λ addr. search access_rules)
  load_expr-Meets lh mode inst =
      load_gpr-Meets read_signed_half mode inst (λ addr. search access_rules)
  load_expr-Meets lhu mode inst =
      load_gpr-Meets read_unsigned_half mode inst (λ addr. search access_rules)
  load_expr-Meets lw mode inst = load_gpr-Meets read_word mode inst read_word-Meets
  load_expr-Meets dlw mode inst =
      search (access_rules, align-Meets, address-Meets, read_word-Meets) depth 9
  load_expr-Meets l_s mode inst = search (access_rules, address-Meets, read_word-Meets)
  load_expr-Meets l_d mode inst =
      search (access_rules, align-Meets, address-Meets, read_word-Meets) depth 9

  pub execute_load-Meets :
      (mode : Addressing) (op : Load) (inst : Inst) → Meets Q (execute_load mode op inst)
  unfolding execute_load
  execute_load-Meets mode op inst = inc_dec-Meets c _ _ _ inst (load_expr-Meets op mode inst)

  pub store_pair-Meets :
      (first second : Run ℕ) (mode : Addressing) (inst : Inst)
      → Meets Q first
      → Meets Q second
      → Meets Q (store_pair first second mode inst)
  unfolding store_pair
  store_pair-Meets first second mode inst k l = Meets-bind c _ _ k (λ low.
      Meets-bind c _ _ (address-Meets c mode inst) (λ addr.
        Meets-bind c _ _ (write_word-Meets low addr) (λ _.
          Meets-bind c _ _ l (λ high. search (access_rules, address-Meets, write_word-Meets)))))

  pub store_one-Meets :
      (source : Run ℕ) (write : ℕ → ℕ → Run (Unit {0})) (mode : Addressing) (inst : Inst)
      → Meets Q source
      → ((v addr : ℕ) → Meets Q (write v addr))
      → Meets Q (store_one source write mode inst)
  unfolding store_one
  store_one-Meets source write mode inst k l =
      Meets-bind c _ _ k (λ v. Meets-bind c _ _ (address-Meets c mode inst) (λ addr. l v addr))

  pub store_expr-Meets :
      (op : Store) (mode : Addressing) (inst : Inst) → Meets Q (store_expr op mode inst)
  unfolding store_expr write_byte write_half
  store_expr-Meets sb mode inst =
      store_one-Meets _ write_byte mode inst (Meets-gpr c _) (λ v addr. search access_rules)
  store_expr-Meets sh mode inst =
      store_one-Meets _ write_half mode inst (Meets-gpr c _) (λ v addr. search access_rules)
  store_expr-Meets sw mode inst =
      store_one-Meets _ write_word mode inst (Meets-gpr c _) write_word-Meets
  store_expr-Meets dsw mode inst = search (access_rules, align-Meets, store_pair-Meets)
  store_expr-Meets dsz mode inst = search (access_rules, store_pair-Meets)
  store_expr-Meets s_s mode inst =
      store_one-Meets _ write_word mode inst (Meets-fpr_l c _) write_word-Meets
  store_expr-Meets s_d mode inst = search (access_rules, align-Meets, store_pair-Meets)

  pub execute_store-Meets :
      (mode : Addressing) (op : Store) (inst : Inst) → Meets Q (execute_store mode op inst)
  unfolding execute_store
  execute_store-Meets mode op inst = inc_dec-Meets c _ _ _ inst (store_expr-Meets op mode inst)

  pub load_part-Meets : (f : ℕ → ℕ → ℕ → ℕ) (inst : Inst) → Meets Q (load_part f inst)
  unfolding load_part
  load_part-Meets f inst = search (access_rules, address-Meets, read_word-Meets)

  pub store_part-Meets : (f : ℕ → ℕ → ℕ → ℕ) (inst : Inst) → Meets Q (store_part f inst)
  unfolding store_part
  store_part-Meets f inst = search (access_rules, address-Meets, read_word-Meets, write_word-Meets)

  pub execute_unaligned-Meets : (op : Unaligned) (inst : Inst) → Meets Q (execute_unaligned op inst)
  unfolding execute_unaligned
  execute_unaligned-Meets lwl inst = load_part-Meets _ inst
  execute_unaligned-Meets _ inst = search (load_part-Meets, store_part-Meets)

  pub address_r2-Meets : (inst : Inst) → Meets Q (address_r2 inst)
  unfolding address_r2
  address_r2-Meets inst = search (access_rules, address-Meets)

  pub obsolete_expr-Meets : (op : Obsolete) (inst : Inst) → Meets Q (obsolete_expr op inst)
  unfolding obsolete_expr
  obsolete_expr-Meets l_s_rr_r2 inst = search (access_rules, address_r2-Meets, read_word-Meets)
  obsolete_expr-Meets _ inst =
      search (access_rules, address_r2-Meets, read_word-Meets, write_word-Meets)

  pub execute_obsolete-Meets : (op : Obsolete) (inst : Inst) → Meets Q (execute_obsolete op inst)
  unfolding execute_obsolete
  execute_obsolete-Meets op inst = inc_dec-Meets c _ _ _ inst (obsolete_expr-Meets op inst)
