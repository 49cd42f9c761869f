-- ===== src/Execute/Access.antt =====
-- The macros of func_sim.cc by which the expressions of ss.def read and write registers and memory,
-- the checks of ss.h, and INC_DEC.
use anycore_pisa.Base.{
  ℕ, ◌+◌, ◌-◌, ◌*◌, ◌/◌, ◌%◌, ◌^◌, Bool, true, false, ◌&&◌, ◌||◌, List, [], ◌∷◌, ltb, leb, ◌==◌,
  if◌then◌else◌, get_or, set, add32, sub32, bit_and, Outcome, ok, fail, aborted, undefined, at,
  sign_bit, sext8, sext16, ◌<<<◌, ◌>>>◌,
}
use anycore_pisa.Base
use anycore_pisa.Blocks.{word_of, bytes_of}
use anycore_pisa.Debug.Fields.{Inst}
use anycore_pisa.Memory.{load, store}
use anycore_pisa.Isa.{rs, rd, imm, ss_comp_op}
use anycore_pisa.Execute.Run.{Run, pure, stop, ◌>>=◌, ◌>>◌}

-- GPR and SET_GPR, FPR_L and SET_FPR_L: a register number has eight bits, and the arrays have 32 words.
unfoldable pub gpr : ℕ → Run ℕ
gpr n t = Base.◌>>=◌ (at t.regs_r n) (λ v. ok (v, t))

unfoldable pub set_gpr : ℕ → ℕ → Run (Unit {0})
set_gpr n v t = Base.◌>>=◌ (at t.regs_r n) (λ old. ok (tt, record t { regs_r = set t.regs_r n v }))

unfoldable pub fpr_l : ℕ → Run ℕ
fpr_l n t = Base.◌>>=◌ (at t.regs_f_l n) (λ v. ok (v, t))

unfoldable pub set_fpr_l : ℕ → ℕ → Run (Unit {0})
set_fpr_l n v t =
    Base.◌>>=◌ (at t.regs_f_l n) (λ old. ok (tt, record t { regs_f_l = set t.regs_f_l n v }))

-- FPR_D and SET_FPR_D: the union's doubles are pairs of its words, the lower word first.
unfoldable pub fpr_d : ℕ → Run (ℕ × ℕ)
fpr_d n = do low ← fpr_l (2 * (n / 2)); high ← fpr_l (2 * (n / 2) + 1); pure (low, high)

unfoldable pub set_fpr_d : ℕ → ℕ × ℕ → Run (Unit {0})
set_fpr_d n v = do set_fpr_l (2 * (n / 2)) v.0; set_fpr_l (2 * (n / 2) + 1) v.1

unfoldable pub hi : Run ℕ
hi t = ok (t.regs_hi, t)

unfoldable pub set_hi : ℕ → Run (Unit {0})
set_hi v t = ok (tt, record t { regs_hi = v })

unfoldable pub lo : Run ℕ
lo t = ok (t.regs_lo, t)

unfoldable pub set_lo : ℕ → Run (Unit {0})
set_lo v t = ok (tt, record t { regs_lo = v })

unfoldable pub fcc : Run ℕ
fcc t = ok (t.regs_fcc, t)

unfoldable pub set_fcc : Bool → Run (Unit {0})
set_fcc b t = ok (tt, record t { regs_fcc = if b then 1 else 0 })

unfoldable pub cpc : Run ℕ
cpc t = ok (t.regs_pc, t)

unfoldable pub set_npc : ℕ → Run (Unit {0})
set_npc v t = ok (tt, record t { next_pc = v })

-- MEM_WORD, MEM_HALF and MEM_BYTE as a value, and as the target of an assignment.
unfoldable pub read_bytes_of : ℕ → ℕ → Run ℕ
read_bytes_of n addr t =
    Base.◌>>=◌ (load n t.memory addr) (λ r. ok (word_of r.1, record t { memory = r.0 }))

unfoldable pub write_bytes_of : ℕ → ℕ → ℕ → Run (Unit {0})
write_bytes_of n value addr t =
    Base.◌>>=◌ (store t.memory addr (bytes_of n value)) (λ m. ok (tt, record t { memory = m }))

unfoldable pub read_word : ℕ → Run ℕ
read_word addr = read_bytes_of 4 addr

unfoldable pub read_unsigned_half : ℕ → Run ℕ
read_unsigned_half addr = read_bytes_of 2 addr

unfoldable pub read_signed_half : ℕ → Run ℕ
read_signed_half addr = do v ← read_bytes_of 2 addr; pure (sext16 v)

unfoldable pub read_unsigned_byte : ℕ → Run ℕ
read_unsigned_byte addr = read_bytes_of 1 addr

unfoldable pub read_signed_byte : ℕ → Run ℕ
read_signed_byte addr = do v ← read_bytes_of 1 addr; pure (sext8 v)

unfoldable pub write_word : ℕ → ℕ → Run (Unit {0})
write_word value addr = write_bytes_of 4 value addr

unfoldable pub write_half : ℕ → ℕ → Run (Unit {0})
write_half value addr = write_bytes_of 2 value addr

unfoldable pub write_byte : ℕ → ℕ → Run (Unit {0})
write_byte value addr = write_bytes_of 1 value addr

-- `<` on words that are read as signed numbers.
abbrev pub lts : ℕ → ℕ → Bool
lts x y = ltb (add32 x sign_bit) (add32 y sign_bit)

abbrev pub maxint : ℕ
maxint = 0x7fffffff

abbrev pub neg32 : ℕ → ℕ
neg32 x = sub32 0 x

-- A call of `fatal` if the test holds.
unfoldable pub fatal_if : Bool → Run (Unit {0})
fatal_if b = if b then stop aborted else pure tt

-- The conditions of OVER, UNDER, DIV0, INTALIGN, FPALIGN and TALIGN.
abbrev pub over : ℕ → ℕ → Bool
over x y =
    (lts 0 x && (lts 0 y && lts (sub32 maxint x) y))
    || (lts x 0 && (lts y 0 && lts y (sub32 (neg32 maxint) x)))

abbrev pub under : ℕ → ℕ → Bool
under x y =
    (lts 0 x && (lts y 0 && lts (add32 maxint y) x))
    || (lts x 0 && (lts 0 y && lts x (add32 (neg32 maxint) y)))

abbrev pub is_odd : ℕ → Bool
is_odd n = bit_and n 0x1 == 1

-- INTALIGN and FPALIGN.
unfoldable pub align : ℕ → Run (Unit {0})
unfolding fatal_if
align n = fatal_if (is_odd n)

unfoldable pub talign : ℕ → Run (Unit {0})
unfolding fatal_if
talign target = fatal_if (ltb 0 (bit_and target 0x7))

-- ss_fore_tab and ss_aft_tab of ss.cc.
abbrev pub xx : ℕ
xx = 0xabababab

abbrev pub invalid_row : List ℕ
invalid_row = xx ∷ xx ∷ xx ∷ xx ∷ xx ∷ []

abbrev pub fore_row : ℕ → List ℕ
fore_row size = 0 ∷ 0 ∷ 0 ∷ size ∷ neg32 size ∷ []

abbrev pub aft_row : ℕ → List ℕ
aft_row size = 0 ∷ size ∷ neg32 size ∷ 0 ∷ 0 ∷ []

abbrev pub ss_tab : (ℕ → List ℕ) → List (List ℕ)
ss_tab row =
    row 1 ∷ row 2 ∷ invalid_row ∷ row 4 ∷ invalid_row ∷ invalid_row ∷ invalid_row ∷ row 8 ∷ []

-- One of the two updates of the base register in INC_DEC. The rows have five columns.
unfoldable pub bump : List (List ℕ) → ℕ → ℕ → Inst → Run (Unit {0})
bump tab reg size inst = do
  x ← gpr reg
  row ← (λ t. Base.◌>>=◌ (at tab (size - 1)) (λ r. ok (r, t)))
  amount ← (λ t. Base.◌>>=◌ (at row (ss_comp_op inst)) (λ v. ok (v, t)))
  set_gpr reg (add32 x amount)

unfoldable pub inc_dec : Run (Unit {0}) → ℕ → ℕ → Inst → Run (Unit {0})
unfolding bump
inc_dec expr reg size inst = do
  bump (ss_tab fore_row) reg size inst
  expr
  bump (ss_tab aft_row) reg size inst

-- The two addressing modes, `o(b)` and `(b+d)`.
pub data Addressing : Type 0 where
  disp rr : Addressing

unfoldable pub address : Addressing → Inst → Run ℕ
address disp inst = do base ← gpr (rs inst); pure (add32 base (imm inst))
address rr inst = do base ← gpr (rs inst); index ← gpr (rd inst); pure (add32 base index)
