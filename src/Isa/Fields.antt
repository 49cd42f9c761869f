-- ===== src/Isa/Fields.antt =====
-- The fields of an instruction word, as the macros of ss.h cut them out.
use anycore_pisa.Base.{ℕ, ◌+◌, ◌*◌, ◌/◌, ◌%◌, ◌^◌, ap, bit_and, ◌<◌, ◌≡◌, arith}
use anycore_pisa.Base.Bits.{bit_and-fields, bit_and-mask, bit_and-zero}
use anycore_pisa.Debug.Fields.{Inst}
use anycore_pisa.Isa.{rs, rt, rd, shamt, uimm, imm, targ, ss_opcode, ss_comp_op}

-- The completer is the second byte of the first word.
completer_lem : (a : ℕ) → bit_and a 0xff00 ≡ bit_and (a / 2 ^ 8) 0xff * 2 ^ 8
completer_lem a =
    let digits : a / 2 ^ 8 * 2 ^ 8 + a % 2 ^ 8 ≡ a = omega arith in
    let parts = bit_and-fields 8 (a / 2 ^ 8) (a % 2 ^ 8) 0xff 0 (omega arith) (omega arith) in
    omega (arith, ap (λ (t : ℕ). bit_and t 0xff00) digits, parts, bit_and-zero (a % 2 ^ 8))

-- What the fields of an instruction with 32-bit words are bounded by.
abbrev pub Bounded : Inst → Type 0
Bounded inst =
    (rs inst < 2 ^ 8)
    × (rt inst < 2 ^ 8)
    × (rd inst < 2 ^ 8)
    × (shamt inst < 2 ^ 8)
    × (uimm inst < 2 ^ 16)
    × (imm inst < 2 ^ 32)
    × (targ inst < 2 ^ 26)
    × (ss_opcode inst < 2 ^ 8)
    × (ss_comp_op inst < 2 ^ 8)

-- The fields RS, RT, RD and SHAMT of an instruction whose second word fits 32 bits make up that
-- word, UIMM is RD and SHAMT together, and every field is bounded by its number of bits.
pub fields-Bounded :
    (inst : Inst)
    → inst.b < 2 ^ 32
    → (inst.b ≡ rs inst * 2 ^ 24 + rt inst * 2 ^ 16 + uimm inst)
      × (uimm inst ≡ rd inst * 2 ^ 8 + shamt inst)
      × Bounded inst
fields-Bounded inst h = ground (
  arith,
  bit_and-mask 8 (inst.b / 2 ^ 16),
  bit_and-mask 8 (inst.b / 2 ^ 8),
  bit_and-mask 8 inst.b,
  bit_and-mask 16 inst.b,
  bit_and-mask 26 inst.b,
  bit_and-mask 8 inst.a,
  bit_and-mask 8 (inst.a / 2 ^ 8),
  completer_lem inst.a,
)
