-- ===== src/Execute/Plain.antt =====
-- The operations of include/ss.def that are neither loads nor stores nor system calls: the operands that
-- they report are in registers.
use anycore_pisa.Base.{◌≡◌, refl, Bool, true, false, List, [], ◌∷◌, ◌++◌, map}
use anycore_pisa.Debug.Fields.{Inst}
use anycore_pisa.Isa.{rs, rt, rd}
use anycore_pisa.Execute.Op.{
  Op, control, load, store, unaligned, obsolete, alu, float_arith, float_single, convert, compare,
  misc, syscall,
}
use anycore_pisa.Execute.Operands.{words, Place, Note, rsrc, rsrc_a, rdst, msrc, mdst, unimp}
use anycore_pisa.Execute.Notes.{
  sources, dests, control_sources, control_dests, alu_sources, alu_dests, convert_sources,
  convert_dests,
}

-- An operation that is neither a load nor a store nor a system call.
abbrev pub is_plain : Op → Bool
is_plain (control op) = true
is_plain (load mode op) = false
is_plain (store mode op) = false
is_plain (unaligned op) = false
is_plain (obsolete op) = false
is_plain (alu op) = true
is_plain (float_arith op format) = true
is_plain (float_single op format) = true
is_plain (convert op) = true
is_plain (compare op format) = true
is_plain (misc syscall) = false
is_plain (misc _) = true

abbrev pub on_registers : List Note → Bool
on_registers [] = true
on_registers (rsrc place ∷ notes) = on_registers notes
on_registers (rsrc_a place ∷ notes) = on_registers notes
on_registers (rdst place ∷ notes) = on_registers notes
on_registers (msrc mode ∷ notes) = false
on_registers (mdst mode ∷ notes) = false
on_registers (unimp ∷ notes) = on_registers notes

on_registers-rsrc : (places : List Place) → on_registers (map rsrc places) ≡ true
on_registers-rsrc [] = refl
on_registers-rsrc (p ∷ places) = on_registers-rsrc places

on_registers-rdst : (places : List Place) → on_registers (map rdst places) ≡ true
on_registers-rdst [] = refl
on_registers-rdst (p ∷ places) = on_registers-rdst places

pub sources-plain :
    (op : Op) (inst : Inst) → is_plain op ≡ true → on_registers (sources op inst) ≡ true
sources-plain (control op) inst h = on_registers-rsrc (control_sources op inst)
sources-plain (alu op) inst h = on_registers-rsrc (alu_sources op inst)
sources-plain (float_arith op format) inst h =
    on_registers-rsrc (words format (rs inst) ++ words format (rt inst))
sources-plain (float_single op format) inst h = on_registers-rsrc (words format (rs inst))
sources-plain (convert op) inst h = on_registers-rsrc (convert_sources op inst)
sources-plain (compare op format) inst h =
    on_registers-rsrc (words format (rs inst) ++ words format (rt inst))
sources-plain (misc syscall) inst h = refl
sources-plain (misc _) inst h = refl
sources-plain _ inst h = absurd cc

pub dests-plain : (op : Op) (inst : Inst) → is_plain op ≡ true → on_registers (dests op inst) ≡ true
dests-plain (control op) inst h = on_registers-rdst (control_dests op inst)
dests-plain (alu op) inst h = on_registers-rdst (alu_dests op inst)
dests-plain (float_arith op format) inst h = on_registers-rdst (words format (rd inst))
dests-plain (float_single op format) inst h = on_registers-rdst (words format (rd inst))
dests-plain (convert op) inst h = on_registers-rdst (convert_dests op inst)
dests-plain (compare op format) inst h = refl
dests-plain (misc syscall) inst h = refl
dests-plain (misc _) inst h = refl
dests-plain _ inst h = absurd cc
