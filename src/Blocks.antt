-- ===== src/Blocks.antt =====
-- The two-level tables of simulated memory, in simulation/functional-sim/include/memory.h and, with
-- the same macros under other names, vpi/include/veri_memory_macros.h: a table of 0x8000 pointers to
-- blocks of 64 kbytes, which are allocated, as zeros, when they are first used.
pub mod View
pub mod Copied
use anycore_pisa.Base.{
  ℕ, zero, suc, ◌+◌, ◌*◌, ◌/◌, ◌%◌, ◌^◌, bit_and, Bool, ◌&&◌, Option, none, some, List, [], ◌∷◌,
  ltb, leb, ◌==◌, if◌then◌else◌, length, Outcome, ok, fail, Failure, undefined,
}

abbrev pub mem_table_size : ℕ
mem_table_size = 0x8000

abbrev pub mem_block_size : ℕ
mem_block_size = 0x10000

abbrev pub mem_block : ℕ → ℕ
mem_block addr = bit_and (addr / 2 ^ 16) 0xffff

abbrev pub mem_offset : ℕ → ℕ
mem_offset addr = bit_and addr 0xffff

-- The bytes of a block at the offsets 0 to 0xffff.
abbrev pub Block : Type 0
Block = ℕ → ℕ

abbrev pub Table : Type 0
Table = ℕ → Option Block

abbrev pub update {ℓ} : {A : Type ℓ} → (ℕ → A) → ℕ → A → ℕ → A
update f i a j = if j == i then a else f j

abbrev pub mem_newblock : Block
mem_newblock offset = 0

abbrev pub block_or_new : Option Block → Block
block_or_new none = mem_newblock
block_or_new (some block) = block

abbrev pub get_bytes : ℕ → Block → ℕ → List ℕ
get_bytes zero block offset = []
get_bytes (suc n) block offset = block offset ∷ get_bytes n block (offset + 1)

abbrev pub put_bytes : List ℕ → Block → ℕ → Block
put_bytes [] block offset = block
put_bytes (byte ∷ bytes) block offset = put_bytes bytes (update block offset byte) (offset + 1)

-- An access of `n` bytes stays inside the table and inside one block; any other is undefined.
abbrev pub is_inside : ℕ → ℕ → Bool
is_inside addr n = ltb (mem_block addr) mem_table_size && leb (mem_offset addr + n) mem_block_size

abbrev pub inside {ℓ} : {A : Type ℓ} → ℕ → ℕ → A → Outcome A
inside addr n a = if is_inside addr n then ok a else fail undefined

-- Allocation of the block of an address, if it is not there.
abbrev pub allocate : Table → ℕ → Table
allocate table addr = update table (mem_block addr) (some (block_or_new (table (mem_block addr))))

-- The word of some bytes, the lowest byte first: the hosts are little-endian.
abbrev pub word_of : List ℕ → ℕ
word_of [] = 0
word_of (byte ∷ bytes) = byte + 256 * word_of bytes

abbrev pub bytes_of : ℕ → ℕ → List ℕ
bytes_of zero word = []
bytes_of (suc n) word = word % 256 ∷ bytes_of n (word / 256)

-- `*((type *)(mem_table[MEM_BLOCK(addr)] + MEM_OFFSET(addr)))`, after the block is allocated: the
-- bytes of a read, and the table after a write.
unfoldable pub read_bytes : Table → ℕ → ℕ → Outcome (List ℕ)
read_bytes table addr n =
    inside addr n (get_bytes n (block_or_new (table (mem_block addr))) (mem_offset addr))

unfoldable pub write_bytes : Table → ℕ → List ℕ → Outcome Table
write_bytes table addr bytes = inside addr (length bytes) (
    update table (mem_block addr)
      (some (put_bytes bytes (block_or_new (table (mem_block addr))) (mem_offset addr))))

-- __UNCHK_MEM_ACCESS does not allocate: a block that is missing is a null pointer.
unfoldable pub unchk_read_bytes : Table → ℕ → ℕ → Outcome (List ℕ)
unchk_read_bytes table addr n = elim (table (mem_block addr)) [
  | none ↦ fail undefined
  | some block ↦ inside addr n (get_bytes n block (mem_offset addr))
]

unfoldable pub unchk_write_bytes : Table → ℕ → List ℕ → Outcome Table
unchk_write_bytes table addr bytes = elim (table (mem_block addr)) [
  | none ↦ fail undefined
  | some block ↦
      inside addr (length bytes)
        (update table (mem_block addr) (some (put_bytes bytes block (mem_offset addr))))
]
