-- ===== src/Execute/Integer.antt =====
-- The expressions of the integer ALU operations in include/ss.def.
use anycore_pisa.Base.{
  ℕ, zero, suc, ◌+◌, ◌/◌, ◌%◌, Bool, ◌&&◌, ltb, leb, ◌==◌, if◌then◌else◌, add32, sub32, not32,
  bit_and, bit_or, bit_xor, sign_bit, ◌<<<◌, ◌>>>◌, undefined,
}
use anycore_pisa.Debug.Fields.{Inst}
use anycore_pisa.Isa.{rs, rt, rd, shamt, imm, uimm}
use anycore_pisa.Execute.Run.{Run, pure, stop, ◌>>=◌, ◌>>◌}
use anycore_pisa.Execute.Access.{
  gpr, set_gpr, hi, set_hi, lo, set_lo, fatal_if, over, under, lts, neg32,
}
use anycore_pisa.Execute.Multiply.{
  multiply_signed, multiply_unsigned, is_negative, magnitude, differ,
}
use anycore_pisa.Execute.Op.{
  Alu, add, addi, addu, addiu, sub, subu, mult, multu, div, divu, mfhi, mthi, mflo, mtlo, and, andi,
  or, ori, xor, xori, nor, sll, sllv, srl, srlv, sra, srav, slt, slti, sltu, sltiu,
}

-- SET_GPR(RD, f(GPR(RS), GPR(RT))), and SET_GPR(RT, f(GPR(RS), v)).
unfoldable pub set_rd : (ℕ → ℕ → ℕ) → Inst → Run (Unit {0})
set_rd f inst = do x ← gpr (rs inst); y ← gpr (rt inst); set_gpr (rd inst) (f x y)

unfoldable pub set_rt : (ℕ → ℕ → ℕ) → ℕ → Inst → Run (Unit {0})
set_rt f v inst = do x ← gpr (rs inst); set_gpr (rt inst) (f x v)

-- A shift by 32 or more is undefined.
unfoldable pub shifted : Bool → ℕ → Run ℕ
shifted small v = if small then pure v else stop undefined

unfoldable pub shift_left : ℕ → ℕ → Inst → Run (Unit {0})
unfolding shifted
shift_left x k inst = do v ← shifted (ltb k 32) (x <<< k); set_gpr (rd inst) v

unfoldable pub shift_right : ℕ → ℕ → Inst → Run (Unit {0})
unfolding shifted
shift_right x k inst = do v ← shifted (ltb k 32) (x >>> k); set_gpr (rd inst) v

-- `>> 1` on a signed word, as the compiler does it.
abbrev pub sar1 : ℕ → ℕ
sar1 x = x / 2 + (if leb sign_bit x then sign_bit else 0)

-- The loop of InstSRA and InstSRAV.
unfoldable pub sra_loop : ℕ → ℕ → Run (Unit {0})
sra_loop zero n = pure tt
sra_loop (suc count) n = do x ← gpr n; set_gpr n (bit_or (sar1 x) sign_bit); sra_loop count n

-- InstSRA and InstSRAV, with their shift amounts.
unfoldable pub inst_sra : ℕ → ℕ → Inst → Run (Unit {0})
unfolding sra_loop shift_right
inst_sra x k inst =
    if is_negative x then (do set_gpr (rd inst) x; sra_loop k (rd inst)) else shift_right x k inst

-- The quotient and the remainder of signed words, which C rounds towards zero. The quotient of the
-- least number and -1 is undefined.
abbrev pub signed_quotient : ℕ → ℕ → ℕ
signed_quotient x y =
    let q = magnitude x / magnitude y in
    if differ (is_negative x) (is_negative y) then neg32 q else q

abbrev pub signed_remainder : ℕ → ℕ → ℕ
signed_remainder x y = let r = magnitude x % magnitude y in if is_negative x then neg32 r else r

unfoldable pub divide : ℕ → ℕ → Run (Unit {0})
divide x y = do
  fatal_if (y == 0)
  if x == sign_bit && y == 0xffffffff
      then stop undefined
      else (do set_lo (signed_quotient x y); set_hi (signed_remainder x y))

unfoldable pub divide_unsigned : ℕ → ℕ → Run (Unit {0})
divide_unsigned x y = do fatal_if (y == 0); set_lo (x / y); set_hi (x % y)

unfoldable pub set_hi_lo : ℕ × ℕ → Run (Unit {0})
set_hi_lo (h, l) = do set_hi h; set_lo l

unfoldable pub execute_alu : Alu → Inst → Run (Unit {0})
unfolding set_rd set_rt shift_left shift_right inst_sra divide divide_unsigned set_hi_lo
execute_alu add inst = do
  x ← gpr (rs inst)
  y ← gpr (rt inst)
  fatal_if (over x y)
  set_gpr (rd inst) (add32 x y)
execute_alu addi inst = do
  x ← gpr (rs inst)
  fatal_if (over x (imm inst))
  set_gpr (rt inst) (add32 x (imm inst))
execute_alu addu inst = set_rd add32 inst
execute_alu addiu inst = set_rt add32 (imm inst) inst
execute_alu sub inst = do
  x ← gpr (rs inst)
  y ← gpr (rt inst)
  fatal_if (under x y)
  set_gpr (rd inst) (sub32 x y)
execute_alu subu inst = set_rd sub32 inst
execute_alu mult inst = do x ← gpr (rs inst); y ← gpr (rt inst); set_hi_lo (multiply_signed x y)
execute_alu multu inst = do x ← gpr (rs inst); y ← gpr (rt inst); set_hi_lo (multiply_unsigned x y)
execute_alu div inst = do x ← gpr (rs inst); y ← gpr (rt inst); divide x y
execute_alu divu inst = do x ← gpr (rs inst); y ← gpr (rt inst); divide_unsigned x y
execute_alu mfhi inst = do v ← hi; set_gpr (rd inst) v
execute_alu mthi inst = do v ← gpr (rs inst); set_hi v
execute_alu mflo inst = do v ← lo; set_gpr (rd inst) v
execute_alu mtlo inst = do v ← gpr (rs inst); set_lo v
execute_alu and inst = set_rd bit_and inst
execute_alu andi inst = set_rt bit_and (uimm inst) inst
execute_alu or inst = set_rd bit_or inst
execute_alu ori inst = set_rt bit_or (uimm inst) inst
execute_alu xor inst = set_rd bit_xor inst
execute_alu xori inst = set_rt bit_xor (uimm inst) inst
execute_alu nor inst = set_rd (λ x y. not32 (bit_or x y)) inst
execute_alu sll inst = do x ← gpr (rt inst); shift_left x (shamt inst) inst
execute_alu sllv inst = do x ← gpr (rt inst); k ← gpr (rs inst); shift_left x (bit_and k 0x1f) inst
execute_alu srl inst = do x ← gpr (rt inst); shift_right x (shamt inst) inst
execute_alu srlv inst = do x ← gpr (rt inst); k ← gpr (rs inst); shift_right x (bit_and k 0x1f) inst
execute_alu sra inst = do x ← gpr (rt inst); inst_sra x (shamt inst) inst
execute_alu srav inst = do k ← gpr (rs inst); x ← gpr (rt inst); inst_sra x (bit_and k 0x1f) inst
execute_alu slt inst = set_rd (λ x y. if lts x y then 1 else 0) inst
execute_alu slti inst = set_rt (λ x y. if lts x y then 1 else 0) (imm inst) inst
execute_alu sltu inst = set_rd (λ x y. if ltb x y then 1 else 0) inst
execute_alu sltiu inst = set_rt (λ x y. if ltb x y then 1 else 0) (imm inst) inst
