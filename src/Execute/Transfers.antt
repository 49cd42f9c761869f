-- ===== src/Execute/Transfers.antt =====
-- The expressions of the loads and stores in include/ss.def. `sim_swap_words` is zero, since the
-- loader and `decode` stop the program when words have to be swapped.
use anycore_pisa.Base.{ℕ, ◌+◌, add32}
use anycore_pisa.Debug.Fields.{Inst}
use anycore_pisa.Isa.{rs, rt}
use anycore_pisa.Unaligned.{wordalign, lwl_macro, lwr_macro, swl_macro, swr_macro}
use anycore_pisa.Execute.Run.{Run, pure, ◌>>=◌, ◌>>◌}
use anycore_pisa.Execute.Access.{
  Addressing, disp, rr, address, gpr, set_gpr, fpr_l, set_fpr_l, read_word, read_unsigned_half,
  read_signed_half, read_unsigned_byte, read_signed_byte, write_word, write_half, write_byte, align,
  inc_dec,
}
use anycore_pisa.Execute.Op.{
  Load, lb, lbu, lh, lhu, lw, dlw, l_s, l_d, Store, sb, sh, sw, dsw, dsz, s_s, s_d, Unaligned, lwl,
  lwr, swl, swr, Obsolete, l_s_rr_r2, s_s_rr_r2, lw_rr_r2, sw_rr_r2,
}

-- SET_GPR(RT, READ(address)).
unfoldable pub load_gpr : (ℕ → Run ℕ) → Addressing → Inst → Run (Unit {0})
load_gpr read mode inst = do addr ← address mode inst; v ← read addr; set_gpr (rt inst) v

-- The first argument of INC_DEC, and its size.
unfoldable pub load_expr : Load → Addressing → Inst → Run (Unit {0})
unfolding load_gpr
load_expr lb mode inst = load_gpr read_signed_byte mode inst
load_expr lbu mode inst = load_gpr read_unsigned_byte mode inst
load_expr lh mode inst = load_gpr read_signed_half mode inst
load_expr lhu mode inst = load_gpr read_unsigned_half mode inst
load_expr lw mode inst = load_gpr read_word mode inst
load_expr dlw mode inst = do
  align (rt inst)
  addr ← address mode inst
  low ← read_word addr
  set_gpr (rt inst) low
  high ← read_word (add32 addr 4)
  set_gpr (rt inst + 1) high
load_expr l_s mode inst = do addr ← address mode inst; v ← read_word addr; set_fpr_l (rt inst) v
load_expr l_d mode inst = do
  align (rt inst)
  addr ← address mode inst
  low ← read_word addr
  set_fpr_l (rt inst) low
  addr' ← address mode inst
  high ← read_word (add32 addr' 4)
  set_fpr_l (rt inst + 1) high

abbrev pub load_size : Load → ℕ
load_size lb = 1
load_size lbu = 1
load_size lh = 2
load_size lhu = 2
load_size lw = 4
load_size dlw = 8
load_size l_s = 4
load_size l_d = 8

unfoldable pub execute_load : Addressing → Load → Inst → Run (Unit {0})
unfolding load_expr
execute_load mode op inst = inc_dec (load_expr op mode inst) (rs inst) (load_size op) inst

-- WRITE_WORD of the two words of a double operand.
unfoldable pub store_pair : Run ℕ → Run ℕ → Addressing → Inst → Run (Unit {0})
store_pair first second mode inst = do
  low ← first
  addr ← address mode inst
  write_word low addr
  high ← second
  addr' ← address mode inst
  write_word high (add32 addr' 4)

unfoldable pub store_one : Run ℕ → (ℕ → ℕ → Run (Unit {0})) → Addressing → Inst → Run (Unit {0})
store_one source write mode inst = do v ← source; addr ← address mode inst; write v addr

unfoldable pub store_expr : Store → Addressing → Inst → Run (Unit {0})
unfolding store_pair store_one
store_expr sb mode inst = store_one (gpr (rt inst)) write_byte mode inst
store_expr sh mode inst = store_one (gpr (rt inst)) write_half mode inst
store_expr sw mode inst = store_one (gpr (rt inst)) write_word mode inst
store_expr dsw mode inst = do
  align (rt inst)
  store_pair (gpr (rt inst)) (gpr (rt inst + 1)) mode inst
store_expr dsz mode inst = store_pair (gpr 0) (gpr 0) mode inst
store_expr s_s mode inst = store_one (fpr_l (rt inst)) write_word mode inst
store_expr s_d mode inst = do
  align (rt inst)
  store_pair (fpr_l (rt inst)) (fpr_l (rt inst + 1)) mode inst

-- S_D has the size 4 with a displacement, and 8 with an index.
abbrev pub store_size : Addressing → Store → ℕ
store_size mode sb = 1
store_size mode sh = 2
store_size mode sw = 4
store_size mode dsw = 8
store_size mode dsz = 8
store_size mode s_s = 4
store_size disp s_d = 4
store_size rr s_d = 8

unfoldable pub execute_store : Addressing → Store → Inst → Run (Unit {0})
unfolding store_expr
execute_store mode op inst = inc_dec (store_expr op mode inst) (rs inst) (store_size mode op) inst

-- SET_GPR(RT, LWL_MACRO(addr, READ_WORD(WORDALIGN(addr)), GPR(RT))), and the like.
unfoldable pub load_part : (ℕ → ℕ → ℕ → ℕ) → Inst → Run (Unit {0})
load_part macro inst = do
  addr ← address disp inst
  word ← read_word (wordalign addr)
  old ← gpr (rt inst)
  set_gpr (rt inst) (macro addr word old)

unfoldable pub store_part : (ℕ → ℕ → ℕ → ℕ) → Inst → Run (Unit {0})
store_part macro inst = do
  addr ← address disp inst
  v ← gpr (rt inst)
  word ← read_word (wordalign addr)
  write_word (macro addr v word) (wordalign addr)

unfoldable pub execute_unaligned : Unaligned → Inst → Run (Unit {0})
unfolding load_part store_part
execute_unaligned lwl inst = load_part lwl_macro inst
execute_unaligned lwr inst = load_part lwr_macro inst
execute_unaligned swl inst = store_part swl_macro inst
execute_unaligned swr inst = store_part swr_macro inst

-- The address of the obsolete operations is 4 more than that of `(b+d)`.
unfoldable pub address_r2 : Inst → Run ℕ
address_r2 inst = do addr ← address rr inst; pure (add32 addr 4)

unfoldable pub obsolete_expr : Obsolete → Inst → Run (Unit {0})
unfolding address_r2
obsolete_expr l_s_rr_r2 inst = do addr ← address_r2 inst; v ← read_word addr; set_fpr_l (rt inst) v
obsolete_expr s_s_rr_r2 inst = do v ← fpr_l (rt inst); addr ← address_r2 inst; write_word v addr
obsolete_expr lw_rr_r2 inst = do addr ← address_r2 inst; v ← read_word addr; set_gpr (rt inst) v
obsolete_expr sw_rr_r2 inst = do v ← gpr (rt inst); addr ← address_r2 inst; write_word v addr

unfoldable pub execute_obsolete : Obsolete → Inst → Run (Unit {0})
unfolding obsolete_expr
execute_obsolete op inst = inc_dec (obsolete_expr op inst) (rs inst) 4 inst
