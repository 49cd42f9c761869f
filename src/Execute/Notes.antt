-- ===== src/Execute/Notes.antt =====
-- The operands that each operation of include/ss.def reports before and after it is executed.
use anycore_pisa.Base.{◌+◌, List, [], ◌∷◌, ◌++◌, map}
use anycore_pisa.Debug.Fields.{Inst}
use anycore_pisa.Isa.{rs, rt, rd}
use anycore_pisa.Execute.Access.{disp}
use anycore_pisa.Execute.Op.{
  Op, control, load, store, unaligned, obsolete, alu, float_arith, float_single, convert, compare,
  misc, Control, jump, jal, jr, jalr, beq, bne, blez, bgtz, bltz, bgez, bc1f, bc1t, Unaligned, lwl,
  lwr, swl, swr, Alu, addi, addiu, mult, multu, div, divu, mfhi, mthi, mflo, mtlo, andi, ori, xori,
  sll, srl, sra, slti, sltiu, s, d, Convert, cvt_s_d, cvt_d_s, cvt_d_w, cvt_w_d, Misc, nop, syscall,
  break, lui, mfc1, dmfc1, cfc1, mtc1, dmtc1, ctc1,
}
use anycore_pisa.Execute.Operands.{
  Note, rsrc, rsrc_a, rdst, msrc, mdst, unimp, Place, gp, fp, hi_place, lo_place, fcc_place, bases,
  stored_places, loaded_places, words,
}

-- RSRC(RS,GPR(RS)), and RSRC(RS,GPR(RS)), RSRC(RT,GPR(RT)).
abbrev pub from_rs : Inst → List Place
from_rs inst = gp (rs inst) ∷ []

abbrev pub from_rt : Inst → List Place
from_rt inst = gp (rt inst) ∷ []

abbrev pub from_both : Inst → List Place
from_both inst = gp (rs inst) ∷ gp (rt inst) ∷ []

abbrev pub to_rd : Inst → List Place
to_rd inst = gp (rd inst) ∷ []

abbrev pub hi_lo : List Place
hi_lo = hi_place ∷ lo_place ∷ []

abbrev pub control_sources : Control → Inst → List Place
control_sources jump inst = []
control_sources jal inst = []
control_sources jr inst = from_rs inst
control_sources jalr inst = from_rs inst
control_sources beq inst = from_both inst
control_sources bne inst = from_both inst
control_sources blez inst = from_rs inst
control_sources bgtz inst = from_rs inst
control_sources bltz inst = from_rs inst
control_sources bgez inst = from_rs inst
control_sources bc1f inst = fcc_place ∷ []
control_sources bc1t inst = fcc_place ∷ []

abbrev pub control_dests : Control → Inst → List Place
control_dests jal inst = gp 31 ∷ []
control_dests jalr inst = to_rd inst
control_dests _ inst = []

abbrev pub unaligned_sources : Unaligned → Inst → List Note
unaligned_sources lwl inst = rsrc_a (gp (rs inst)) ∷ rsrc (gp (rt inst)) ∷ msrc disp ∷ []
unaligned_sources lwr inst = rsrc_a (gp (rs inst)) ∷ rsrc (gp (rt inst)) ∷ msrc disp ∷ []
unaligned_sources swl inst = rsrc_a (gp (rs inst)) ∷ rsrc (gp (rt inst)) ∷ mdst disp ∷ []
unaligned_sources swr inst = rsrc_a (gp (rs inst)) ∷ rsrc (gp (rt inst)) ∷ mdst disp ∷ []

abbrev pub unaligned_dests : Unaligned → Inst → List Place
unaligned_dests lwl inst = from_rt inst
unaligned_dests lwr inst = from_rt inst
unaligned_dests swl inst = []
unaligned_dests swr inst = []

abbrev pub alu_sources : Alu → Inst → List Place
alu_sources addi inst = from_rs inst
alu_sources addiu inst = from_rs inst
alu_sources mfhi inst = hi_place ∷ []
alu_sources mthi inst = from_rs inst
alu_sources mflo inst = lo_place ∷ []
alu_sources mtlo inst = from_rs inst
alu_sources andi inst = from_rs inst
alu_sources ori inst = from_rs inst
alu_sources xori inst = from_rs inst
alu_sources sll inst = from_rt inst
alu_sources srl inst = from_rt inst
alu_sources sra inst = from_rt inst
alu_sources slti inst = from_rs inst
alu_sources sltiu inst = from_rs inst
alu_sources _ inst = from_both inst

abbrev pub alu_dests : Alu → Inst → List Place
alu_dests addi inst = from_rt inst
alu_dests addiu inst = from_rt inst
alu_dests mult inst = hi_lo
alu_dests multu inst = hi_lo
alu_dests div inst = hi_lo
alu_dests divu inst = hi_lo
alu_dests mthi inst = hi_place ∷ []
alu_dests mtlo inst = lo_place ∷ []
alu_dests andi inst = from_rt inst
alu_dests ori inst = from_rt inst
alu_dests xori inst = from_rt inst
alu_dests slti inst = from_rt inst
alu_dests sltiu inst = from_rt inst
alu_dests _ inst = to_rd inst

abbrev pub convert_sources : Convert → Inst → List Place
convert_sources cvt_s_d inst = words d (rs inst)
convert_sources cvt_w_d inst = words d (rs inst)
convert_sources _ inst = words s (rs inst)

abbrev pub convert_dests : Convert → Inst → List Place
convert_dests cvt_d_s inst = words d (rd inst)
convert_dests cvt_d_w inst = words d (rd inst)
convert_dests _ inst = words s (rd inst)

abbrev pub misc_sources : Misc → Inst → List Note
misc_sources nop inst = []
misc_sources syscall inst = []
misc_sources break inst = []
misc_sources lui inst = []
misc_sources mfc1 inst = rsrc (fp (rs inst)) ∷ []
misc_sources dmfc1 inst = rsrc (fp (rs inst)) ∷ rsrc (fp (rs inst + 1)) ∷ []
misc_sources cfc1 inst = unimp ∷ []
misc_sources mtc1 inst = rsrc (gp (rt inst)) ∷ []
misc_sources dmtc1 inst = rsrc (gp (rt inst)) ∷ rsrc (gp (rt inst + 1)) ∷ []
misc_sources ctc1 inst = unimp ∷ []

abbrev pub misc_dests : Misc → Inst → List Note
misc_dests nop inst = []
misc_dests syscall inst = []
misc_dests break inst = []
misc_dests lui inst = rdst (gp (rt inst)) ∷ []
misc_dests mfc1 inst = rdst (gp (rt inst)) ∷ []
misc_dests dmfc1 inst = rdst (gp (rt inst)) ∷ rdst (gp (rt inst + 1)) ∷ []
misc_dests cfc1 inst = unimp ∷ []
misc_dests mtc1 inst = rdst (fp (rs inst)) ∷ []
misc_dests dmtc1 inst = rdst (fp (rs inst)) ∷ rdst (fp (rs inst + 1)) ∷ []
misc_dests ctc1 inst = unimp ∷ []

-- TEXPR1.
abbrev pub sources : Op → Inst → List Note
sources (control op) inst = map rsrc (control_sources op inst)
sources (load mode op) inst = bases mode inst ++ msrc mode ∷ []
sources (store mode op) inst =
    bases mode inst ++ (map rsrc (stored_places op inst) ++ mdst mode ∷ [])
sources (unaligned op) inst = unaligned_sources op inst
sources (obsolete op) inst = unimp ∷ []
sources (alu op) inst = map rsrc (alu_sources op inst)
sources (float_arith op format) inst = map rsrc (words format (rs inst) ++ words format (rt inst))
sources (float_single op format) inst = map rsrc (words format (rs inst))
sources (convert op) inst = map rsrc (convert_sources op inst)
sources (compare op format) inst = map rsrc (words format (rs inst) ++ words format (rt inst))
sources (misc op) inst = misc_sources op inst

-- TEXPR2.
abbrev pub dests : Op → Inst → List Note
dests (control op) inst = map rdst (control_dests op inst)
dests (load mode op) inst = map rdst (loaded_places op inst)
dests (store mode op) inst = []
dests (unaligned op) inst = map rdst (unaligned_dests op inst)
dests (obsolete op) inst = unimp ∷ []
dests (alu op) inst = map rdst (alu_dests op inst)
dests (float_arith op format) inst = map rdst (words format (rd inst))
dests (float_single op format) inst = map rdst (words format (rd inst))
dests (convert op) inst = map rdst (convert_dests op inst)
dests (compare op format) inst = rdst fcc_place ∷ []
dests (misc op) inst = misc_dests op inst
