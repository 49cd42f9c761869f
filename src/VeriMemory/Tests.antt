-- ===== src/VeriMemory/Tests.antt =====
-- The memory of a test bench with one block of text.
use anycore_pisa.Base.{◌%◌, ◌^◌, ◌≡◌, refl, none, some, ◌==◌, if◌then◌else◌, ok, arith}
use anycore_pisa.Blocks.{Table}
use anycore_pisa.Blocks.Copied.{SameBlock}
use anycore_pisa.VeriMemory.{
  VeriMemory, veri_memory, memory_read, memory_write, copy_mem, copy_text_mem, fetch,
}
use anycore_pisa.VeriMemory.Words.{memory_write-memory_read}
use anycore_pisa.VeriMemory.Copies.{copy_mem-SameBlock, copy_text_mem-fetch, instruction}

-- One block, for the addresses from 0x400000 on, with the offsets as its bytes.
abbrev master : Table
master k = if k == 0x40 then some (λ o. o % 256) else none

abbrev bench : VeriMemory
bench = veri_memory (λ k. none) 0 0x400000 0x1000

memory_write-memory_read_example :
    (q : VeriMemory) × (r : VeriMemory) × (memory_write 4 bench 0x12345678 0x1000 ≡ ok q)
    × (memory_read 4 q 0x1000 ≡ ok (r, 0x12345678 % 256 ^ 4))
memory_write-memory_read_example =
    memory_write-memory_read 4 bench 0x12345678 0x1000 refl (omega arith) (omega arith)

copy_mem-SameBlock_example : SameBlock ((copy_mem master bench).mem_table 0x40) (master 0x40)
copy_mem-SameBlock_example = copy_mem-SameBlock master bench 0x40 (omega arith)

copy_text_mem-fetch_example :
    fetch (copy_text_mem master bench) 0x400010 ≡ instruction master 0x400010
unfolding veri_memory
copy_text_mem-fetch_example =
    copy_text_mem-fetch master bench 0x400010 (omega arith) (omega arith) (omega arith)
      (omega arith)
