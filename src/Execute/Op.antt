-- ===== src/Execute/Op.antt =====
-- The opcodes of include/ss.def, in groups that share a shape, and `enum ss_opcode`, their order.
use anycore_pisa.Base.{ℕ, zero, suc, List, [], ◌∷◌, Option, none, get_elem?}
use anycore_pisa.Execute.Access.{Addressing, disp, rr}

pub data Control : Type 0 where
  jump jal jr jalr beq bne blez bgtz bltz bgez bc1f bc1t : Control

pub data Load : Type 0 where
  lb lbu lh lhu lw dlw l_s l_d : Load

pub data Store : Type 0 where
  sb sh sw dsw dsz s_s s_d : Store

pub data Unaligned : Type 0 where
  lwl lwr swl swr : Unaligned

-- The four that ss.def calls obsolete.
pub data Obsolete : Type 0 where
  l_s_rr_r2 s_s_rr_r2 lw_rr_r2 sw_rr_r2 : Obsolete

pub data Alu : Type 0 where
  add addi addu addiu sub subu : Alu
  mult multu div divu mfhi mthi mflo mtlo : Alu
  and andi or ori xor xori nor : Alu
  sll sllv srl srlv sra srav slt slti sltu sltiu : Alu

-- An operation on single words or on doubles.
pub data Arith : Type 0 where
  fadd fsub fmul fdiv : Arith

pub data Single : Type 0 where
  fabs fmov fneg fsqrt : Single

pub data Compare : Type 0 where
  c_eq c_lt c_le : Compare

pub data Convert : Type 0 where
  cvt_s_d cvt_s_w cvt_d_s cvt_d_w cvt_w_s cvt_w_d : Convert

pub data Format : Type 0 where
  s d : Format

pub data Misc : Type 0 where
  nop syscall break lui mfc1 dmfc1 cfc1 mtc1 dmtc1 ctc1 : Misc

pub data Op : Type 0 where
  control : Control → Op
  load : Addressing → Load → Op
  store : Addressing → Store → Op
  unaligned : Unaligned → Op
  obsolete : Obsolete → Op
  alu : Alu → Op
  float_arith : Arith → Format → Op
  float_single : Single → Format → Op
  convert : Convert → Op
  compare : Compare → Format → Op
  misc : Misc → Op

-- The opcodes from number 1 on.
abbrev pub ss_ops : List Op
ss_ops =
    misc nop
    ∷ control jump
    ∷ control jal
    ∷ control jr
    ∷ control jalr
    ∷ control beq
    ∷ control bne
    ∷ control blez
    ∷ control bgtz
    ∷ control bltz
    ∷ control bgez
    ∷ control bc1f
    ∷ control bc1t
    ∷ load disp lb
    ∷ load disp lbu
    ∷ load disp lh
    ∷ load disp lhu
    ∷ load disp lw
    ∷ load disp dlw
    ∷ load disp l_s
    ∷ load disp l_d
    ∷ unaligned lwl
    ∷ unaligned lwr
    ∷ store disp sb
    ∷ store disp sh
    ∷ store disp sw
    ∷ store disp dsw
    ∷ store disp dsz
    ∷ store disp s_s
    ∷ store disp s_d
    ∷ unaligned swl
    ∷ unaligned swr
    ∷ load rr lb
    ∷ load rr lbu
    ∷ load rr lh
    ∷ load rr lhu
    ∷ load rr lw
    ∷ load rr dlw
    ∷ load rr l_s
    ∷ load rr l_d
    ∷ store rr sb
    ∷ store rr sh
    ∷ store rr sw
    ∷ store rr dsw
    ∷ store rr dsz
    ∷ store rr s_s
    ∷ store rr s_d
    ∷ obsolete l_s_rr_r2
    ∷ obsolete s_s_rr_r2
    ∷ obsolete lw_rr_r2
    ∷ obsolete sw_rr_r2
    ∷ alu add
    ∷ alu addi
    ∷ alu addu
    ∷ alu addiu
    ∷ alu sub
    ∷ alu subu
    ∷ alu mult
    ∷ alu multu
    ∷ alu div
    ∷ alu divu
    ∷ alu mfhi
    ∷ alu mthi
    ∷ alu mflo
    ∷ alu mtlo
    ∷ alu and
    ∷ alu andi
    ∷ alu or
    ∷ alu ori
    ∷ alu xor
    ∷ alu xori
    ∷ alu nor
    ∷ alu sll
    ∷ alu sllv
    ∷ alu srl
    ∷ alu srlv
    ∷ alu sra
    ∷ alu srav
    ∷ alu slt
    ∷ alu slti
    ∷ alu sltu
    ∷ alu sltiu
    ∷ float_arith fadd s
    ∷ float_arith fadd d
    ∷ float_arith fsub s
    ∷ float_arith fsub d
    ∷ float_arith fmul s
    ∷ float_arith fmul d
    ∷ float_arith fdiv s
    ∷ float_arith fdiv d
    ∷ float_single fabs s
    ∷ float_single fabs d
    ∷ float_single fmov s
    ∷ float_single fmov d
    ∷ float_single fneg s
    ∷ float_single fneg d
    ∷ convert cvt_s_d
    ∷ convert cvt_s_w
    ∷ convert cvt_d_s
    ∷ convert cvt_d_w
    ∷ convert cvt_w_s
    ∷ convert cvt_w_d
    ∷ compare c_eq s
    ∷ compare c_eq d
    ∷ compare c_lt s
    ∷ compare c_lt d
    ∷ compare c_le s
    ∷ compare c_le d
    ∷ float_single fsqrt s
    ∷ float_single fsqrt d
    ∷ misc syscall
    ∷ misc break
    ∷ misc lui
    ∷ misc mfc1
    ∷ misc dmfc1
    ∷ misc cfc1
    ∷ misc mtc1
    ∷ misc dmtc1
    ∷ misc ctc1
    ∷ []

-- The case that the `switch` selects; the number 0 is OP_NA, which has none.
unfoldable pub op_of : ℕ → Option Op
op_of zero = none
op_of (suc n) = get_elem? ss_ops n
