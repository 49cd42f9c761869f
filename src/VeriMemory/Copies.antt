-- ===== src/VeriMemory/Copies.antt =====
-- copy_mem, copy_text_mem and fetch of veri_memory.cc.
use anycore_pisa.Base.{
  ℕ, zero, suc, ◌+◌, ◌-◌, ◌/◌, ◌%◌, ◌≤◌, ◌<◌, ◌^◌, ◌≡◌, refl, ap, sym, ◌∙◌, subst, true, false,
  ◌&&◌, Option, none, some, List, ◌||◌, ◌*◌, bit_and, add32, ltb, leb, if◌then◌else◌, not32,
  Outcome, ok, ◌>>=◌, arith,
}
use anycore_pisa.Base.Bits.{bit_and-mask, bit_and-fields, bit_and-zero}
use anycore_pisa.Blocks.{
  Block, Table, mem_block, mem_table_size, block_or_new, update, unchk_read_bytes,
}
use anycore_pisa.Blocks.Copied.{copied_block, SameBlock, unchk_read_bytes-SameBlock}
use anycore_pisa.Blocks.View.{mem_block_lem, mem_offset_lem}
use anycore_pisa.Debug.Fields.{Inst}
use anycore_pisa.Isa.{inst_of}
use anycore_pisa.VeriMemory.{
  VeriMemory, copied_entry, copy_table, copy_mem, copy_text_mem, fetch, inst_address,
}

copy_table_lem :
    (count i : ℕ) (master table : Table) (k : ℕ)
    → copy_table count i master table k
      ≡ (if leb i k && ltb k (i + count) then copied_entry (master k) (table k) else table k)
unfolding copy_table
copy_table_lem zero i master table k = ground arith
copy_table_lem (suc count) i master table k = ground (
  arith,
  copy_table_lem count (i + 1) master (update table i (copied_entry (master i) (table i))) k,
)

copied_entry-SameBlock :
    (master entry : Option Block) → SameBlock (copied_entry master entry) master
unfolding copied_entry
copied_entry-SameBlock none entry = tt
copied_entry-SameBlock (some master) entry = λ o h. copied_block master (block_or_new entry) o h

copied_at :
    (master table : Table) (k : ℕ)
    → k < mem_table_size
    → copy_table mem_table_size 0 master table k ≡ copied_entry (master k) (table k)
copied_at master table k h =
    let inside_table : (leb 0 k && ltb k (0 + mem_table_size)) ≡ true = ground arith in
    copy_table_lem mem_table_size 0 master table k
    ∙ ap (λ b. if b then copied_entry (master k) (table k) else table k) inside_table

-- After copy_mem, each entry of the table is there if and only if the master's is, and its block has
-- the same bytes, whatever the table held before.
pub copy_mem-SameBlock :
    (master : Table) (m : VeriMemory) (k : ℕ)
    → k < mem_table_size
    → SameBlock ((copy_mem master m).mem_table k) (master k)
unfolding copy_mem
copy_mem-SameBlock master m k h =
    let entry = copied_at master m.mem_table k h in
    subst (λ e. SameBlock e (master k)) (sym entry)
      (copied_entry-SameBlock (master k) (m.mem_table k))

inst_address_lem : (pc : ℕ) → pc < 2 ^ 32 → inst_address pc ≡ pc / 8 * 8
inst_address_lem pc h =
    let digits : pc ≡ pc / 2 ^ 3 * 2 ^ 3 + pc % 2 ^ 3 = omega arith in
    omega (
      arith,
      ap (λ (t : ℕ). bit_and t (not32 7)) digits,
      bit_and-fields 3 (pc / 2 ^ 3) (pc % 2 ^ 3) (2 ^ 29 - 1) 0 (omega arith) (omega arith),
      bit_and-mask 29 (pc / 2 ^ 3),
      bit_and-zero (pc % 2 ^ 3),
    )

-- The instruction that a table holds for a program counter, read without a check.
abbrev pub instruction : Table → ℕ → Outcome Inst
instruction table pc = do bytes ← unchk_read_bytes table (inst_address pc) 8; ok (inst_of bytes)

fetch_text :
    (m : VeriMemory) (pc : ℕ)
    → 0x10000 ≤ pc
    → m.ld_text_base ≤ pc
    → pc ≤ m.ld_text_base + m.ld_text_size
    → m.ld_text_base + m.ld_text_size < 2 ^ 32
    → fetch m pc ≡ instruction m.text_mem_table pc
unfolding fetch
fetch_text m pc high low top small =
    let not_boot : ltb pc 0x10000 ≡ false = ground arith in
    let in_text : (ltb pc m.ld_text_base || ltb (add32 m.ld_text_base m.ld_text_size) pc) ≡ false =
      ground arith in
    rw (not_boot, in_text) refl

-- After copy_text_mem, a fetch from the text segment, above the first 64 kbytes and in the lower half
-- of the address space, gives the instruction of the table that was copied.
pub copy_text_mem-fetch :
    (master : Table) (m : VeriMemory) (pc : ℕ)
    → 0x10000 ≤ pc
    → m.ld_text_base ≤ pc
    → pc ≤ m.ld_text_base + m.ld_text_size
    → m.ld_text_base + m.ld_text_size < 2 ^ 31
    → fetch (copy_text_mem master m) pc ≡ instruction master pc
unfolding copy_text_mem
copy_text_mem-fetch master m pc high low top small =
    let address = inst_address pc in
    let place = inst_address_lem pc (omega arith) in
    let block = mem_block_lem address (omega arith) in
    let offset = mem_offset_lem address in
    let same =
      unchk_read_bytes-SameBlock (copy_table mem_table_size 0 master m.text_mem_table) master
        address 8
        (subst (λ e. SameBlock e (master (mem_block address)))
          (sym (copied_at master m.text_mem_table (mem_block address) (omega arith)))
          (copied_entry-SameBlock (master (mem_block address))
            (m.text_mem_table (mem_block address))))
        (omega arith) in
    fetch_text (copy_text_mem master m) pc high low top (omega arith)
    ∙ ap (λ (o : Outcome (List ℕ)). o >>= λ bytes. ok (inst_of bytes)) same
