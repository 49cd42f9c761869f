-- ===== src/VeriMemory.antt =====
-- simulation/functional-sim/vpi/include/veri_memory.h and vpi/src/veri_memory.cc: the memory that the
-- test bench of the RTL model reads and writes, with a copy of the text segment for fetches. The
-- macros of veri_memory_macros.h are those of memory.h without sharing and counters.
pub mod Words
pub mod Copies
mod Tests
use anycore_pisa.Base.{
  ℕ, zero, suc, ◌+◌, ◌*◌, ◌%◌, ◌^◌, bit_and, Bool, true, false, ◌&&◌, ◌||◌, Option, none, some,
  List, [], ◌∷◌, ltb, leb, ◌==◌, if◌then◌else◌, add32, not32, sext16, sext8, Outcome, ok, ◌>>=◌,
}
use anycore_pisa.Blocks.{
  Block, Table, mem_block, mem_table_size, mem_block_size, mem_newblock, block_or_new, allocate,
  word_of, bytes_of, update, read_bytes, write_bytes, unchk_read_bytes,
}
use anycore_pisa.Blocks.Copied.{copy_block}
use anycore_pisa.Debug.Fields.{Inst}
use anycore_pisa.Isa.{inst_of}

pub record VeriMemory : Type 0 where
  pub ld_text_base : ℕ
  pub ld_text_size : ℕ
  pub text_mem_table : Table
  pub mem_table : Table
  pub tid : ℕ
  pub n_load : ℕ
  pub n_store : ℕ

-- The constructor does not set `text_mem_table`: it keeps what `new veri_memory` finds in memory.
pub veri_memory : Table → ℕ → ℕ → ℕ → VeriMemory
veri_memory text_storage tid ld_text_base ld_text_size = record {
  ld_text_base = ld_text_base;
  ld_text_size = ld_text_size;
  text_mem_table = text_storage;
  mem_table = λ i. none;
  tid = tid;
  n_load = 0;
  n_store = 0;
}

-- __MEMORY_ACCESS of `n` bytes as a value, and as the target of an assignment.
pub memory_read : ℕ → VeriMemory → ℕ → Outcome (VeriMemory × ℕ)
memory_read n m addr = do
  bytes ← read_bytes m.mem_table addr n
  ok (record m { mem_table = allocate m.mem_table addr }, word_of bytes)

pub memory_write : ℕ → VeriMemory → ℕ → ℕ → Outcome VeriMemory
memory_write n m value addr = do
  table ← write_bytes m.mem_table addr (bytes_of n value)
  ok (record m { mem_table = table })

abbrev pub read_unsigned_byte : VeriMemory → ℕ → Outcome (VeriMemory × ℕ)
read_unsigned_byte m addr = memory_read 1 m addr

abbrev pub read_unsigned_half : VeriMemory → ℕ → Outcome (VeriMemory × ℕ)
read_unsigned_half m addr = memory_read 2 m addr

abbrev pub read_word : VeriMemory → ℕ → Outcome (VeriMemory × ℕ)
read_word m addr = memory_read 4 m addr

-- The signed values as words.
abbrev pub read_signed_byte : VeriMemory → ℕ → Outcome (VeriMemory × ℕ)
read_signed_byte m addr = do (m', byte) ← memory_read 1 m addr; ok (m', sext8 byte)

abbrev pub read_signed_half : VeriMemory → ℕ → Outcome (VeriMemory × ℕ)
read_signed_half m addr = do (m', half) ← memory_read 2 m addr; ok (m', sext16 half)

abbrev pub write_byte : VeriMemory → ℕ → ℕ → Outcome VeriMemory
write_byte m src addr = memory_write 1 m src addr

abbrev pub write_half : VeriMemory → ℕ → ℕ → Outcome VeriMemory
write_half m src addr = memory_write 2 m src addr

abbrev pub write_word : VeriMemory → ℕ → ℕ → Outcome VeriMemory
write_word m src addr = memory_write 4 m src addr

abbrev pub inst_address : ℕ → ℕ
inst_address pc = bit_and pc (not32 7)

pub fetch : VeriMemory → ℕ → Outcome Inst
fetch m pc =
    if ltb pc 0x10000
    then (do bytes ← unchk_read_bytes m.mem_table (inst_address pc) 8; ok (inst_of bytes))
    else if ltb pc m.ld_text_base || ltb (add32 m.ld_text_base m.ld_text_size) pc
    then ok (record { a = 0; b = 0 })
    else (do bytes ← unchk_read_bytes m.text_mem_table (inst_address pc) 8; ok (inst_of bytes))

-- One entry of a table, as copy_mem makes it.
pub copied_entry : Option Block → Option Block → Option Block
copied_entry none entry = none
copied_entry (some master) entry = some (copy_block mem_block_size 0 master (block_or_new entry))

-- The loop over the entries of the tables, from `i` on, for `count` of them.
pub copy_table : ℕ → ℕ → Table → Table → Table
unfolding copied_entry
copy_table zero i master table = table
copy_table (suc count) i master table =
    copy_table count (i + 1) master (update table i (copied_entry (master i) (table i)))

pub copy_mem : Table → VeriMemory → VeriMemory
unfolding copy_table
copy_mem master m = record m { mem_table = copy_table mem_table_size 0 master m.mem_table }

pub copy_text_mem : Table → VeriMemory → VeriMemory
unfolding copy_table
copy_text_mem master m = record m {
  text_mem_table = copy_table mem_table_size 0 master m.text_mem_table;
}
