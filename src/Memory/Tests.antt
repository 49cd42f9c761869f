-- ===== src/Memory/Tests.antt =====
-- A small memory, at work.
use anycore_pisa.Base.{ℕ, ◌<◌, ◌≡◌, ◌≢◌, refl, List, [], ◌∷◌, ◌++◌, none, ok, arith}
use anycore_pisa.Blocks.View.{span, written}
use anycore_pisa.Memory.{
  Memory, read, write, mem_bcopy, mem_bcopy4, mem_bzero, read_string, write_string,
}
use anycore_pisa.Memory.Flat.{flat, IsUniform}
use anycore_pisa.Memory.Access.{IsLow, Leaves, Transfers, word, mem_access-read, mem_access-write}
use anycore_pisa.Memory.Copy.{Permits, mem_bcopy-roundtrip}
use anycore_pisa.Memory.Strings.{mem_bzero-Leaves, write_string-roundtrip}
use anycore_pisa.Memory.Words.{mem_bcopy4-overruns}

-- A program with its text at 0x400000, its data at 0x10000000 and its stack at 0x7fffc000.
abbrev loaded : Memory
loaded = record {
  mem_table = λ i. none;
  shmem_table = λ i. none;
  shmem_base = 0;
  shmem_end = 0;
  n_shared_acc = 0;
  n_shared_new = 0;
  n_private_acc = 0;
  n_private_new = 0;
  ld_text_base = 0x400000;
  ld_text_size = 0x1000;
  ld_data_base = 0x10000000;
  ld_data_size = 0x1234;
  ld_stack_base = 0x7fffc000;
  mem_brk_point = 0x10002000;
  mem_stack_min = 0x7fffc000;
}

loaded-IsLow : IsLow loaded
loaded-IsLow = (omega arith, omega arith)

loaded-Permits : (n : ℕ) → n < 0x1000 → Permits loaded write 0x10000000 n
loaded-Permits n h i l = ground arith

loaded-IsUniform : (addr n : ℕ) → IsUniform loaded addr n
loaded-IsUniform addr n i h = ground arith

abbrev bytes : List ℕ
bytes = 1 ∷ 2 ∷ 3 ∷ 4 ∷ []

mem_access-read_example :
    Transfers loaded read 0x400000 word bytes (flat loaded) (span 4 (flat loaded) 0x400000 ++ [])
mem_access-read_example =
    mem_access-read word loaded 0x400000 bytes loaded-IsLow (loaded-IsUniform 0x400000 4) refl

mem_access-write_example :
    Transfers loaded write 0x10000004 word bytes (written bytes (flat loaded) 0x10000004) bytes
mem_access-write_example =
    mem_access-write word loaded 0x10000004 bytes loaded-IsLow (loaded-IsUniform 0x10000004 4) refl

mem_bcopy-roundtrip_example :
    (r : Memory) × (s : Memory) × (mem_bcopy loaded write 0x10000000 bytes 4 ≡ ok (r, bytes))
    × (mem_bcopy r read 0x10000000 (0 ∷ 0 ∷ 0 ∷ 0 ∷ 9 ∷ []) 4 ≡ ok (s, bytes ++ 9 ∷ []))
mem_bcopy-roundtrip_example =
    mem_bcopy-roundtrip loaded 0x10000000 bytes (0 ∷ 0 ∷ 0 ∷ 0 ∷ 9 ∷ []) loaded-IsLow
      (loaded-Permits 4 (omega arith)) (omega arith)

mem_bzero-Leaves_example :
    (r : Memory) × (mem_bzero loaded 0x10000000 3 ≡ ok r)
    × Leaves loaded r (written (0 ∷ 0 ∷ 0 ∷ []) (flat loaded) 0x10000000)
mem_bzero-Leaves_example =
    mem_bzero-Leaves loaded 0x10000000 3 loaded-IsLow (loaded-Permits 3 (omega arith))

write_string-roundtrip_example :
    (q : Memory) × (r : Memory) × (write_string loaded 0x10000000 (104 ∷ 105 ∷ 0 ∷ 7 ∷ [])
      ≡ ok (q, 3))
    × (read_string q 0x10000000 (9 ∷ 9 ∷ 9 ∷ 9 ∷ []) ≡ ok (r, 104 ∷ 105 ∷ 0 ∷ 9 ∷ [], 3))
write_string-roundtrip_example =
    write_string-roundtrip loaded 0x10000000 (104 ∷ 105 ∷ []) (7 ∷ []) (9 ∷ 9 ∷ 9 ∷ 9 ∷ [])
      loaded-IsLow (omega arith, (omega arith, tt)) (loaded-Permits 3 (omega arith)) (omega arith)

mem_bcopy4-overruns_example : mem_bcopy4 loaded write 0x10000000 bytes 4 ≢ ok (loaded, bytes)
mem_bcopy4-overruns_example =
    mem_bcopy4-overruns loaded write 0x10000000 bytes (loaded, bytes) (omega arith) (omega arith)
