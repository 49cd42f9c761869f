-- ===== src/Blocks/Copied.antt =====
-- The loop that copies a block byte by byte, in veri_memory.cc and for a forked thread in Thread.h.
use anycore_pisa.Base.{
  ℕ, zero, suc, ◌+◌, ◌≤◌, ◌<◌, ◌≡◌, refl, ap, ap₂, ◌&&◌, Option, none, some, ◌∷◌, ltb, leb,
  if◌then◌else◌, arith,
}
use anycore_pisa.Base.Bits.{bit_and_le}
use anycore_pisa.Blocks.{
  Block, Table, mem_block, mem_offset, mem_block_size, block_or_new, update, inside, get_bytes,
  unchk_read_bytes,
}
use anycore_pisa.Blocks.View.{view}

-- The bytes of one block from `j` on, for `count` of them.
pub copy_block : ℕ → ℕ → Block → Block → Block
copy_block zero j master block = block
copy_block (suc count) j master block = copy_block count (j + 1) master (update block j (master j))

copy_block_lem :
    (count j : ℕ) (master block : Block) (o : ℕ)
    → copy_block count j master block o
      ≡ (if leb j o && ltb o (j + count) then master o else block o)
unfolding copy_block
copy_block_lem zero j master block o = ground arith
copy_block_lem (suc count) j master block o =
    ground (arith, copy_block_lem count (j + 1) master (update block j (master j)) o)

pub copied_block :
    (master block : Block) (o : ℕ)
    → o < mem_block_size
    → copy_block mem_block_size 0 master block o ≡ master o
copied_block master block o h = ground (arith, copy_block_lem mem_block_size 0 master block o)

-- A copied entry is there if and only if the master's is, with the same bytes.
abbrev pub SameBlock : Option Block → Option Block → Type 0
SameBlock none none = Unit {0}
SameBlock none (some b) = none ≡ some b
SameBlock (some b) none = some b ≡ none
SameBlock (some b) (some c) = (o : ℕ) → o < mem_block_size → b o ≡ c o

pub get_bytes-SameBlock :
    (n : ℕ) (b c : Block) (o : ℕ)
    → o + n ≤ mem_block_size
    → ((i : ℕ) → i < mem_block_size → b i ≡ c i)
    → get_bytes n b o ≡ get_bytes n c o
get_bytes-SameBlock zero b c o h s = refl
get_bytes-SameBlock (suc n) b c o h s =
    ap₂ ◌∷◌ (s o (omega arith)) (get_bytes-SameBlock n b c (o + 1) (omega arith) s)

same_read :
    (addr n : ℕ) (x y : Option Block)
    → SameBlock x y
    → mem_offset addr + n ≤ mem_block_size
    → unchk_read_bytes (λ k. x) addr n ≡ unchk_read_bytes (λ k. y) addr n
unfolding unchk_read_bytes
same_read addr n none none s h = refl
same_read addr n none (some c) s h = absurd cc
same_read addr n (some b) none s h = absurd cc
same_read addr n (some b) (some c) s h =
    ap (inside addr n) (get_bytes-SameBlock n b c (mem_offset addr) h s)

pub unchk_read_bytes-SameBlock :
    (t u : Table) (addr n : ℕ)
    → SameBlock (t (mem_block addr)) (u (mem_block addr))
    → mem_offset addr + n ≤ mem_block_size
    → unchk_read_bytes t addr n ≡ unchk_read_bytes u addr n
unfolding unchk_read_bytes
unchk_read_bytes-SameBlock t u addr n s h =
    same_read addr n (t (mem_block addr)) (u (mem_block addr)) s h

-- Tables with the same blocks hold the same bytes.
view_same :
    (o : ℕ) (x y : Option Block)
    → o < mem_block_size
    → SameBlock x y
    → block_or_new x o ≡ block_or_new y o
view_same o none none h s = refl
view_same o none (some c) h s = absurd cc
view_same o (some b) none h s = absurd cc
view_same o (some b) (some c) h s = s o h

pub view-SameBlock :
    (t u : Table) (x : ℕ) → SameBlock (t (mem_block x)) (u (mem_block x)) → view t x ≡ view u x
view-SameBlock t u x s =
    view_same (mem_offset x) (t (mem_block x)) (u (mem_block x))
      (omega (arith, bit_and_le x 0xffff)) s
