-- ===== src/Isa.antt =====
-- simulation/functional-sim/include/ss.h: the fields of an instruction, and the numbers of the
-- control instructions in `enum ss_opcode`, which follow the order of the entries of ss.def.
pub mod Fields
pub mod Decoder
mod Tests
use anycore_pisa.Base.{ℕ, List, take, drop, ◌+◌, ◌/◌, ◌^◌, bit_and, sext16}
use anycore_pisa.Blocks.{word_of}
use anycore_pisa.Debug.Fields.{Inst}

-- SS_OPCODE: after `Thread::decode` the number of the opcode, before it the mask.
abbrev pub ss_opcode : Inst → ℕ
ss_opcode inst = bit_and inst.a 0xff

-- SS_COMP_OP: the completer, for pre- or post-increment addressing.
abbrev pub ss_comp_op : Inst → ℕ
ss_comp_op inst = bit_and inst.a 0xff00 / 2 ^ 8

abbrev pub rs : Inst → ℕ
rs inst = inst.b / 2 ^ 24

abbrev pub rt : Inst → ℕ
rt inst = bit_and (inst.b / 2 ^ 16) 0xff

abbrev pub rd : Inst → ℕ
rd inst = bit_and (inst.b / 2 ^ 8) 0xff

abbrev pub shamt : Inst → ℕ
shamt inst = bit_and inst.b 0xff

-- IMM, as the word of the signed number.
abbrev pub imm : Inst → ℕ
imm inst = sext16 (bit_and inst.b 0xffff)

abbrev pub uimm : Inst → ℕ
uimm inst = bit_and inst.b 0xffff

abbrev pub targ : Inst → ℕ
targ inst = bit_and inst.b 0x3ffffff

abbrev pub bcode : Inst → ℕ
bcode inst = bit_and inst.b 0xfffff

abbrev pub ss_inst_size : ℕ
ss_inst_size = 8

abbrev pub op_jump : ℕ
op_jump = 2

abbrev pub op_jal : ℕ
op_jal = 3

abbrev pub op_jr : ℕ
op_jr = 4

abbrev pub op_jalr : ℕ
op_jalr = 5

-- BEQ is 6, and BNE, BLEZ, BGTZ, BLTZ, BGEZ, BC1F and BC1T (13) follow.
abbrev pub op_beq : ℕ
op_beq = 6

abbrev pub op_bc1t : ℕ
op_bc1t = 13

-- An instruction is eight bytes, its first word first.
abbrev pub inst_of : List ℕ → Inst
inst_of bytes = record { a = word_of (take 4 bytes); b = word_of (take 4 (drop 4 bytes)) }
