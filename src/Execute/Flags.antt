-- ===== src/Execute/Flags.antt =====
-- The flags and the latencies of the operations in include/ss.def, with the constants of include/ss.h
-- and include/mt.h.
use anycore_pisa.Base.{ℕ, ◌+◌, List, [], ◌∷◌, bit_and, bit_or}
use anycore_pisa.Debug.{f_trap}
use anycore_pisa.Debug.Fields.{f_store}
use anycore_pisa.Execute.Access.{Addressing, disp, rr}
use anycore_pisa.Execute.Op.{
  Op, control, load, store, unaligned, obsolete, alu, float_arith, float_single, convert, compare,
  misc, Control, jump, jal, jr, jalr, Unaligned, lwl, lwr, swl, swr, Obsolete, l_s_rr_r2, s_s_rr_r2,
  lw_rr_r2, sw_rr_r2, Alu, mult, multu, div, divu, Arith, fmul, fdiv, Single, fsqrt, Format, s, d,
  Misc, syscall, break,
}

abbrev pub f_icomp : ℕ
f_icomp = 0x1

abbrev pub f_fcomp : ℕ
f_fcomp = 0x2

abbrev pub f_ctrl : ℕ
f_ctrl = 0x4

abbrev pub f_uncond : ℕ
f_uncond = 0x8

abbrev pub f_cond : ℕ
f_cond = 0x10

abbrev pub f_mem : ℕ
f_mem = 0x20

abbrev pub f_load : ℕ
f_load = 0x40

abbrev pub f_disp : ℕ
f_disp = 0x100

abbrev pub f_rr : ℕ
f_rr = 0x200

abbrev pub f_longlat : ℕ
f_longlat = 0x1000

abbrev pub mode_flag : Addressing → ℕ
mode_flag disp = f_disp
mode_flag rr = f_rr

-- The flags of an operation, in the order of its line.
abbrev pub load_flags : Addressing → List ℕ
load_flags mode = f_mem ∷ f_load ∷ mode_flag mode ∷ []

abbrev pub store_flags : Addressing → List ℕ
store_flags mode = f_mem ∷ f_store ∷ mode_flag mode ∷ []

abbrev pub control_flags : Control → List ℕ
control_flags jump = f_ctrl ∷ f_uncond ∷ []
control_flags jal = f_ctrl ∷ f_uncond ∷ []
control_flags jr = f_ctrl ∷ f_uncond ∷ []
control_flags jalr = f_ctrl ∷ f_uncond ∷ []
control_flags _ = f_ctrl ∷ f_cond ∷ []

abbrev pub unaligned_flags : Unaligned → List ℕ
unaligned_flags lwl = load_flags disp
unaligned_flags lwr = load_flags disp
unaligned_flags swl = store_flags disp
unaligned_flags swr = store_flags disp

abbrev pub obsolete_flags : Obsolete → List ℕ
obsolete_flags l_s_rr_r2 = load_flags rr
obsolete_flags s_s_rr_r2 = store_flags rr
obsolete_flags lw_rr_r2 = load_flags rr
obsolete_flags sw_rr_r2 = store_flags rr

abbrev pub alu_flags : Alu → List ℕ
alu_flags mult = f_icomp ∷ f_longlat ∷ []
alu_flags multu = f_icomp ∷ f_longlat ∷ []
alu_flags div = f_icomp ∷ f_longlat ∷ []
alu_flags divu = f_icomp ∷ f_longlat ∷ []
alu_flags _ = f_icomp ∷ []

abbrev pub arith_flags : Arith → List ℕ
arith_flags fmul = f_fcomp ∷ f_longlat ∷ []
arith_flags fdiv = f_fcomp ∷ f_longlat ∷ []
arith_flags _ = f_fcomp ∷ []

abbrev pub single_flags : Single → List ℕ
single_flags fsqrt = f_fcomp ∷ f_longlat ∷ []
single_flags _ = f_fcomp ∷ []

abbrev pub misc_flags : Misc → List ℕ
misc_flags syscall = f_trap ∷ []
misc_flags break = f_trap ∷ []
misc_flags _ = f_icomp ∷ []

abbrev pub flag_list : Op → List ℕ
flag_list (control op) = control_flags op
flag_list (load mode op) = load_flags mode
flag_list (store mode op) = store_flags mode
flag_list (unaligned op) = unaligned_flags op
flag_list (obsolete op) = obsolete_flags op
flag_list (alu op) = alu_flags op
flag_list (float_arith op format) = arith_flags op
flag_list (float_single op format) = single_flags op
flag_list (convert op) = f_fcomp ∷ []
flag_list (compare op format) = f_fcomp ∷ []
flag_list (misc op) = misc_flags op

-- The value of the argument FLAGS, `F_MEM|F_LOAD|F_DISP`.
abbrev pub or_all : List ℕ → ℕ
or_all [] = 0
or_all (f ∷ fs) = bit_or f (or_all fs)

abbrev pub flags : Op → ℕ
flags op = or_all (flag_list op)

-- `FLAGS & mask` after the macro is expanded, where no parentheses stand around FLAGS: & binds more
-- than | does, and masks the last flag only.
abbrev pub last_masked : List ℕ → ℕ → ℕ
last_masked [] mask = 0
last_masked (f ∷ []) mask = bit_and f mask
last_masked (f ∷ g ∷ fs) mask = bit_or f (last_masked (g ∷ fs) mask)

abbrev pub agen_latency : ℕ
agen_latency = 1

abbrev pub access_latency : ℕ
access_latency = 0

abbrev pub unaligned_latency : Unaligned → ℕ
unaligned_latency lwl = agen_latency + access_latency
unaligned_latency lwr = agen_latency + access_latency
unaligned_latency swl = agen_latency
unaligned_latency swr = agen_latency

abbrev pub alu_latency : Alu → ℕ
alu_latency mult = 3
alu_latency multu = 3
alu_latency div = 11
alu_latency divu = 11
alu_latency _ = 1

abbrev pub arith_latency : Arith → Format → ℕ
arith_latency fdiv s = 11
arith_latency fdiv d = 18
arith_latency _ _ = 3

abbrev pub single_latency : Single → Format → ℕ
single_latency fsqrt s = 17
single_latency fsqrt d = 32
single_latency _ _ = 1

abbrev pub latency : Op → ℕ
latency (control op) = 1
latency (load mode op) = agen_latency + access_latency
latency (store mode op) = agen_latency
latency (unaligned op) = unaligned_latency op
latency (obsolete op) = 1
latency (alu op) = alu_latency op
latency (float_arith op format) = arith_latency op format
latency (float_single op format) = single_latency op format
latency (convert op) = 3
latency (compare op format) = 3
latency (misc op) = 1
