-- ===== src/VeriMemory/Words.antt =====
-- Reads and writes of veri_memory.h.
use native.Mathlib.Nat.{div-div-eq-div-mul, mod-add-div, mul_comm, one-le-pow, pow-suc}
use anycore_pisa.Base.{
  ℕ, zero, suc, ◌+◌, ◌*◌, ◌/◌, ◌%◌, ◌≤◌, ◌<◌, ◌^◌, ◌≡◌, ◌⊎◌, inl, inr, refl, ap, sym, ◌∙◌, true,
  false, ◌&&◌, List, length, ltb, leb, ok, arith,
}
use anycore_pisa.Blocks.{is_inside, allocate, word_of, bytes_of}
use anycore_pisa.Blocks.View.{
  view, span, span-cong, span-written, written, read_bytes-view, write_bytes_lem, after_write,
  after_write-view,
}
use anycore_pisa.VeriMemory.{VeriMemory, memory_read, memory_write}

length-bytes_of : (n v : ℕ) → length (bytes_of n v) ≡ n
length-bytes_of zero v = refl
length-bytes_of (suc n) v = ap suc (length-bytes_of n (v / 256))

mod_bytes : (a t : ℕ) → 0 < t → a % (t * 256) ≡ a / 256 % t * 256 + a % 256
mod_bytes a t h = omega (
  arith,
  mod-add-div a (t * 256),
  mod-add-div (a / 256) t,
  ap (λ (d : ℕ). t * d) (div-div-eq-div-mul a 256 t),
  ap (λ (d : ℕ). t * (a / d)) (mul_comm 256 t),
)

-- The bytes of a word make up the word, modulo its number of bits.
pub word_of-bytes_of : (n v : ℕ) → word_of (bytes_of n v) ≡ v % 256 ^ n
word_of-bytes_of zero v = omega arith
word_of-bytes_of (suc n) v = omega (
  arith,
  word_of-bytes_of n (v / 256),
  mod_bytes v (256 ^ n) (omega (arith, one-le-pow n 256)),
  ap (λ (t : ℕ). v % t) (pow-suc 256 n),
)

abbrev pub after : ℕ → VeriMemory → ℕ → ℕ → VeriMemory
after n m v addr = record m { mem_table = after_write m.mem_table addr (bytes_of n v) }

memory_write_lem :
    (n : ℕ) (m : VeriMemory) (v addr : ℕ)
    → is_inside addr n ≡ true
    → memory_write n m v addr ≡ ok (after n m v addr)
unfolding memory_write
memory_write_lem n m v addr h =
    rw
      (write_bytes_lem m.mem_table addr (bytes_of n v)
        (ap (is_inside addr) (length-bytes_of n v) ∙ h))
      refl

memory_read_lem :
    (n : ℕ) (m : VeriMemory) (addr : ℕ)
    → is_inside addr n ≡ true
    → addr < 2 ^ 32
    → memory_read n m addr
      ≡ ok (
        record m { mem_table = allocate m.mem_table addr },
        word_of (span n (view m.mem_table) addr),
      )
unfolding memory_read
memory_read_lem n m addr h l = rw (read_bytes-view m.mem_table addr n h l) refl

outside :
    (values : List ℕ) (b : ℕ → ℕ) (addr x : ℕ)
    → (x < addr) ⊎ (addr + length values ≤ x)
    → written values b addr x ≡ b x
outside values b addr x h =
    let no : (leb addr x && ltb x (addr + length values)) ≡ false = ground arith in rw no refl

apart_at :
    (n k addr x i size : ℕ)
    → size ≡ n
    → i < k
    → (x + k ≤ addr) ⊎ (addr + n ≤ x)
    → (x + i < addr) ⊎ (addr + size ≤ x + i)
apart_at n k addr x i size e h (inl g) = inl (omega arith)
apart_at n k addr x i size e h (inr g) = inr (omega arith)

-- A value that is written inside of one block is read back, modulo its number of bits.
pub memory_write-memory_read :
    (n : ℕ) (m : VeriMemory) (v addr : ℕ)
    → is_inside addr n ≡ true
    → addr + n ≤ 2 ^ 32
    → 0 < n
    → (q : VeriMemory) × (r : VeriMemory) × (memory_write n m v addr ≡ ok q)
      × (memory_read n q addr ≡ ok (r, v % 256 ^ n))
memory_write-memory_read n m v addr h l p =
    let q = after n m v addr in
    let size = length-bytes_of n v in
    let inside_bytes = ap (is_inside addr) size ∙ h in
    let bytes : span n (view q.mem_table) addr ≡ bytes_of n v =
      span-cong n (view q.mem_table) (written (bytes_of n v) (view m.mem_table) addr) addr (λ i o.
        after_write-view m.mem_table addr (bytes_of n v) (addr + i) inside_bytes (omega arith)
          (omega arith))
      ∙ ap (λ (k : ℕ). span k (written (bytes_of n v) (view m.mem_table) addr) addr) (sym size)
      ∙ span-written (bytes_of n v) (view m.mem_table) addr in
    let r = record q { mem_table = allocate q.mem_table addr } in
    (
      q,
      r,
      memory_write_lem n m v addr h,
      memory_read_lem n q addr h (omega arith)
          ∙ ap (λ (b : List ℕ). ok (r, word_of b)) bytes
          ∙ ap (λ (w : ℕ). ok (r, w)) (word_of-bytes_of n v),
    )

-- A write inside of one block does not change the value of a read, inside of one block, of bytes
-- that lie before or after those that are written.
pub memory_write-other :
    (n k : ℕ) (m : VeriMemory) (v addr x : ℕ)
    → is_inside addr n ≡ true
    → is_inside x k ≡ true
    → addr + n ≤ 2 ^ 32
    → x + k ≤ 2 ^ 32
    → 0 < n
    → 0 < k
    → (x + k ≤ addr) ⊎ (addr + n ≤ x)
    → (q : VeriMemory) × (r : VeriMemory) × (s : VeriMemory) × (w : ℕ) × (memory_write n m v addr
        ≡ ok q)
      × (memory_read k m x ≡ ok (r, w))
      × (memory_read k q x ≡ ok (s, w))
memory_write-other n k m v addr x h g l o p c apart =
    let q = after n m v addr in
    let size = length-bytes_of n v in
    let inside_bytes = ap (is_inside addr) size ∙ h in
    let bytes : span k (view q.mem_table) x ≡ span k (view m.mem_table) x =
      span-cong k (view q.mem_table) (view m.mem_table) x (λ i e.
        after_write-view m.mem_table addr (bytes_of n v) (x + i) inside_bytes (omega arith)
          (omega arith)
        ∙ outside (bytes_of n v) (view m.mem_table) addr (x + i)
            (apart_at n k addr x i (length (bytes_of n v)) size e apart)) in
    (
      q,
      record m { mem_table = allocate m.mem_table x },
      record q { mem_table = allocate q.mem_table x },
      word_of (span k (view m.mem_table) x),
      memory_write_lem n m v addr h,
      memory_read_lem k m x g (omega arith),
      memory_read_lem k q x g (omega arith)
          ∙ ap (λ (b : List ℕ). ok (record q { mem_table = allocate q.mem_table x }, word_of b))
              bytes,
    )
