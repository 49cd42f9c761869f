-- ===== src/Isa/Tests.antt =====
-- An instruction of the ISA of ss.h, taken apart.
use anycore_pisa.Base.{◌^◌, ◌-◌, ◌≡◌, refl}
use anycore_pisa.Debug.Fields.{Inst}
use anycore_pisa.Isa.{rt, imm}

-- addi $2, $3, -4
abbrev addi : Inst
addi = record { a = 0x43; b = 0x0302fffc }

rt_test : rt addi ≡ 2
rt_test = refl

imm_test : imm addi ≡ 2 ^ 32 - 4
imm_test = refl
