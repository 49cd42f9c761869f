-- ===== src/Debug/Tests.antt =====
-- Runs of the debug buffer, and the theorems about it at concrete buffers.
use anycore_pisa.Base.{
  ℕ, ◌<◌, ◌≡◌, ◌≢◌, refl, mod_mask, List, [], ◌∷◌, replicate, arith, ok, fail, aborted, out_of_fuel,
}
use anycore_pisa.Debug.Fields.{
  Inst, Entry, DbReg, rdst_operand, rsrc_a_operand, start_entry, push_instr,
}
use anycore_pisa.Debug.Inv.{IsValid, Constructs, blank, debug_buffer-IsValid}
use anycore_pisa.Debug.Queue.{
  Starts, Pops, UpdatesLast, operand, fill, fill_entry, start_refines, pop_refines, fill_refines,
}
use anycore_pisa.Debug.Search.{Found, pc_at, first_lem, find-Found, find-full-diverges}
use anycore_pisa.Debug.Operands.{
  Push, IsEntry, rdsts, rsrcs, rsrc_as, push_all, push_all-start_entry,
}
use anycore_pisa.Debug.History.{
  Summary, Op, emit, take, taken, emitted, crashed, emit_instr, run, run_queue, run_refines,
}
use anycore_pisa.Debug.{
  DebugBuffer, start, pop, push_instr_actual, first, check_next, find, debug_index_invalid,
}

abbrev nop : Inst
nop = record { a = 0; b = 0 }

-- Two entries, the second behind the end of the array.
abbrev wrapped : DebugBuffer
wrapped = record {
  debug_size = 4;
  active_size = 4;
  db = record blank { a_pc = 16 } ∷ blank ∷ blank ∷ record blank { a_pc = 8 } ∷ [];
  head = 3;
  tail = 0;
  length = 2;
  pc_ptr = 0;
}

wrapped-IsValid : IsValid wrapped
wrapped-IsValid = record {
  bits = 2;
  size_pow2 = refl;
  size_small = omega arith;
  active_whole = refl;
  storage = refl;
  head_in = omega arith;
  tail_in = omega arith;
  length_in = omega arith;
  tail_last = refl;
  pc_ptr_in = omega arith;
}

abbrev full : DebugBuffer
full = record wrapped { head = 1; length = 4 }

full-IsValid : IsValid full
full-IsValid = record {
  bits = 2;
  size_pow2 = refl;
  size_small = omega arith;
  active_whole = refl;
  storage = refl;
  head_in = omega arith;
  tail_in = omega arith;
  length_in = omega arith;
  tail_last = refl;
  pc_ptr_in = omega arith;
}

abbrev branch : Summary
branch = record { inst = nop; flags = 0x14; latency = 1; pc = 24; next_pc = 64 }

abbrev script : List Op
script = emit branch 0 0 ∷ take ∷ take ∷ take ∷ take ∷ []

abbrev idle_at : ℕ → Summary
idle_at pc = record { inst = nop; flags = 0; latency = 0; pc = pc; next_pc = 0 }

replies :
    run wrapped script
    ≡ emitted ∷ taken (idle_at 8) ∷ taken (idle_at 16) ∷ taken branch ∷ crashed ∷ []
unfolding run emit_instr start pop push_instr_actual mod_mask push_instr start_entry
replies = refl

overflow : start full ≡ fail aborted
unfolding start
overflow = refl

lookups :
    (first 8 wrapped ≡ ok 3)
    × (check_next 3 16 wrapped ≡ ok 0)
    × (check_next 0 16 wrapped ≡ ok debug_index_invalid)
    × (find 4 3 16 wrapped ≡ ok 0)
    × (find 4 3 8 wrapped ≡ ok debug_index_invalid)
    × (find 1000 3 77 full ≡ fail out_of_fuel)
unfolding first check_next find mod_mask
lookups = (refl, refl, refl, refl, refl, refl)

debug_buffer-IsValid_example : Constructs 8 (replicate 8 blank)
debug_buffer-IsValid_example =
    debug_buffer-IsValid 8 (replicate 8 blank) (omega arith) (omega arith) refl

start_refines_example : Starts wrapped
start_refines_example = start_refines wrapped-IsValid

pop_refines_example : Pops 3 wrapped
pop_refines_example = pop_refines 3 wrapped-IsValid

abbrev result : DbReg
result = record { n = 4; value = 7 }

fill_refines_example :
    UpdatesLast wrapped
      (record blank { a_pc = 8 } ∷ [])
      (fill_entry (operand 4 rdst_operand 7 24) (record blank { a_pc = 16 }))
      (fill (operand 4 rdst_operand 7 24) wrapped)
fill_refines_example =
    fill_refines (operand 4 rdst_operand 7 24) (record blank { a_pc = 8 } ∷ [])
      (record blank { a_pc = 16 }) wrapped-IsValid refl

first_lem_example : first 8 wrapped ≡ ok 3
first_lem_example = first_lem 8 wrapped-IsValid

find-Found_example : (r : ℕ) × (find 2 3 16 wrapped ≡ ok r) × Found wrapped 16 1 r
find-Found_example = find-Found 2 0 16 wrapped-IsValid (omega arith) (omega arith) (omega arith)

full-lacks : (i : ℕ) → i < 4 → pc_at full i ≢ 77
full-lacks i h e = ground arith

find-full-diverges_example : find 1000 3 77 full ≡ fail out_of_fuel
find-full-diverges_example = find-full-diverges 1000 2 77 full-IsValid refl (omega arith) full-lacks

-- The empty arrays of an entry that `new db_t[...]` has not filled in.
abbrev fresh_entry : Entry
fresh_entry = record blank {
  a_rdst = replicate 2 result;
  a_rsrc = replicate 4 result;
  a_rsrc_a = replicate 4 result;
}

-- A load: an address source, then the destination.
abbrev load : List Push
load =
    record { kind = rsrc_a_operand; reg = record { n = 29; value = 4096 } }
    ∷ record { kind = rdst_operand; reg = result }
    ∷ []

fresh_entry-IsEntry : IsEntry fresh_entry
fresh_entry-IsEntry = record { rdst_size = refl; rsrc_size = refl; rsrc_a_size = refl }

push_all-start_entry_example :
    (e : Entry) × (push_all load (start_entry fresh_entry) ≡ ok e)
    × (rdsts e ≡ result ∷ [])
    × (rsrcs e ≡ [])
    × (rsrc_as e ≡ record { n = 29; value = 4096 } ∷ [])
push_all-start_entry_example =
    push_all-start_entry load fresh_entry fresh_entry-IsEntry (omega arith) (omega arith)
      (omega arith) (omega arith)

run_refines_example : run wrapped script ≡ run_queue 4 (idle_at 8 ∷ idle_at 16 ∷ []) script
run_refines_example = run_refines script wrapped wrapped-IsValid
