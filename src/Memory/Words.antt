-- ===== src/Memory/Words.antt =====
-- mem_bcopy4 and mem_init of memory.cc.
use anycore_pisa.Base.{
  ℕ, zero, suc, ◌+◌, ◌-◌, ◌*◌, ◌/◌, ◌%◌, ◌≤◌, ◌<◌, ◌^◌, ◌≡◌, ◌≢◌, refl, ap, sym, ◌∙◌, ◌&&◌, inl,
  inr, List, length, take, drop, length-append, length-drop, bit_and, not32, add32, ok, undefined,
  aborted, test-ok, bind-ok, either-ok, ok-injective, arith,
}
use anycore_pisa.Base.Bits.{bit_and-fields, bit_and-mask, bit_and-zero}
use anycore_pisa.Blocks.{
  Block, Table, mem_block, mem_offset, block_or_new, get_bytes, is_inside, read_bytes,
}
use anycore_pisa.Memory.{
  is_shared, touch_shared, touch_private, load, store, Memory, MemCmd, read, write, is_aligned,
  is_permitted, tracked, transfer, mem_access, has_room, bcopy4_loop, mem_bcopy4, mem_init,
  round_up, ss_page_size,
}
use anycore_pisa.Memory.Access.{word, mem_access-transfer}

length-get_bytes : (n : ℕ) (block : Block) (offset : ℕ) → length (get_bytes n block offset) ≡ n
length-get_bytes zero block offset = refl
length-get_bytes (suc n) block offset = ap suc (length-get_bytes n block (offset + 1))

read_bytes-length :
    (table : Table) (addr n : ℕ) (bytes : List ℕ)
    → read_bytes table addr n ≡ ok bytes
    → length bytes ≡ n
unfolding read_bytes
read_bytes-length table addr n bytes e =
    let block = block_or_new (table (mem_block addr)) in
    let done = test-ok (is_inside addr n) _ undefined bytes e in
    ap length (sym (ok-injective _ _ done.1)) ∙ length-get_bytes n block (mem_offset addr)

pair_second : (a b : Memory × List ℕ) → ok a ≡ ok b → a.1 ≡ b.1
pair_second a b e = ap (λ (p : Memory × List ℕ). p.1) (ok-injective a b e)

load-length :
    (n : ℕ) (m q : Memory) (addr : ℕ) (bytes : List ℕ)
    → load n m addr ≡ ok (q, bytes)
    → length bytes ≡ n
unfolding load
load-length n m q addr bytes e = elim (either-ok (is_shared m addr) _ _ (q, bytes) e) [
  | inl s ↦
      let (b, done, last) = bind-ok (read_bytes (touch_shared m addr).shmem_table addr n) _ _ s in
      ap length (sym (pair_second _ _ last)) ∙ read_bytes-length _ addr n b done
  | inr s ↦
      let (b, done, last) = bind-ok (read_bytes (touch_private m addr).mem_table addr n) _ _ s in
      ap length (sym (pair_second _ _ last)) ∙ read_bytes-length _ addr n b done
]

-- A transfer that returns found room in the object, and leaves an object of the same length.
transfer-ok :
    (m q : Memory) (cmd : MemCmd) (addr : ℕ) (p r : List ℕ)
    → transfer 4 m cmd addr p ≡ ok (q, r)
    → (4 ≤ length p) × (length r ≡ length p)
unfolding transfer
transfer-ok m q read addr p r e =
    let (room, rest) = test-ok (has_room 4 p) _ undefined (q, r) e in
    let (mid, loaded, last) = bind-ok (load 4 m addr) _ (q, r) rest in
    let bytes = load-length 4 m mid.0 addr mid.1 loaded in
    let both = length-append mid.1 (drop 4 p) in
    let same_list = ap length (pair_second _ _ last) in
    let dropped = length-drop 4 p in
    let four : 4 ≤ length p = ground arith in (four, omega (arith, bytes, both, same_list, dropped))
transfer-ok m q write addr p r e =
    let (room, rest) = test-ok (has_room 4 p) _ undefined (q, r) e in
    let (mid, done, last) = bind-ok (store m addr (take 4 p)) _ (q, r) rest in
    (ground arith, ap length (sym (pair_second _ _ last)))

-- What the first word of a loop that returns does to the object.
bcopy4_step :
    (words : ℕ) (m : Memory) (cmd : MemCmd) (addr : ℕ) (p : List ℕ) (r : Memory × List ℕ)
    → bcopy4_loop (suc words) m cmd addr p ≡ ok r
    → (q : Memory) × (z : List ℕ) × (s : Memory × List ℕ) × (8 ≤ length p)
      × (length z + 4 ≡ length p)
      × (bcopy4_loop words q cmd (add32 addr 4) z ≡ ok s)
unfolding bcopy4_loop
bcopy4_step words m cmd addr p r e =
    let ((q, z), first, rest) = bind-ok (mem_access m cmd (add32 addr 4) (drop 4 p) 4) _ r e in
    let go = transfer 4 (tracked m (add32 addr 4)) cmd (add32 addr 4) (drop 4 p) in
    let moved =
      test-ok (is_aligned (add32 addr 4) 4 && is_permitted m cmd (add32 addr 4)) go aborted (q, z)
        (sym (mem_access-transfer word m cmd (add32 addr 4) (drop 4 p)) ∙ first) in
    let sizes = transfer-ok (tracked m (add32 addr 4)) q cmd (add32 addr 4) (drop 4 p) z moved.1 in
    let dropped = length-drop 4 p in
    let (s, run, last) = bind-ok (bcopy4_loop words q cmd (add32 addr 4) z) _ r rest in
    (q, z, s, omega (arith, sizes, dropped), omega (arith, sizes, dropped), run)

-- A loop that returns after at least one word had four bytes more than it copied.
bcopy4_loop-ok :
    (words : ℕ) (m : Memory) (cmd : MemCmd) (addr : ℕ) (p : List ℕ) (r : Memory × List ℕ)
    → bcopy4_loop (suc words) m cmd addr p ≡ ok r
    → suc words * 4 + 4 ≤ length p
bcopy4_loop-ok zero m cmd addr p r e =
    let (q, z, s, room, left, run) = bcopy4_step 0 m cmd addr p r e in room
bcopy4_loop-ok (suc words) m cmd addr p r e =
    let (q, z, s, room, left, run) = bcopy4_step (suc words) m cmd addr p r e in
    omega (arith, left, bcopy4_loop-ok words q cmd (add32 addr 4) z s run)

loop_overruns :
    (words : ℕ) (m : Memory) (cmd : MemCmd) (addr : ℕ) (p : List ℕ) (r : Memory × List ℕ)
    → 4 ≤ length p
    → length p < words * 4 + 4
    → bcopy4_loop words m cmd addr p ≢ ok r
loop_overruns zero m cmd addr p r h l e = omega arith
loop_overruns (suc words) m cmd addr p r h l e =
    omega (arith, bcopy4_loop-ok words m cmd addr p r e)

-- mem_bcopy4 moves its pointers before the first transfer, so it needs four bytes more than it is
-- told to copy: it never returns from a copy of at least one word with an object of the size it is
-- given.
pub mem_bcopy4-overruns :
    (m : Memory) (cmd : MemCmd) (addr : ℕ) (p : List ℕ) (r : Memory × List ℕ)
    → 4 ≤ length p
    → length p % 4 ≡ 0
    → mem_bcopy4 m cmd addr p (length p) ≢ ok r
mem_bcopy4-overruns m cmd addr p r h d = loop_overruns (length p / 4) m cmd addr p r h (omega arith)

round_up_lem :
    (n : ℕ) → n + ss_page_size ≤ 2 ^ 32 → round_up n ss_page_size ≡ (n + 4095) / 4096 * 4096
round_up_lem n h =
    let top = n + 4095 in
    let digits : add32 n 4095 ≡ top / 2 ^ 12 * 2 ^ 12 + top % 2 ^ 12 = omega arith in
    let fields =
      bit_and-fields 12 (top / 2 ^ 12) (top % 2 ^ 12) (2 ^ 20 - 1) 0 (omega arith) (omega arith) in
    omega (
      arith,
      ap (λ (t : ℕ). bit_and t (not32 4095)) digits,
      fields,
      bit_and-mask 20 (top / 2 ^ 12),
      bit_and-zero (top % 2 ^ 12),
    )

-- mem_init puts the break at the first multiple of the page size that is at or above the end of the
-- data segment, when that end is at least a page below 2^32.
pub mem_init_lem :
    (m : Memory) (sp : ℕ)
    → m.ld_data_base + m.ld_data_size + ss_page_size ≤ 2 ^ 32
    → ((mem_init m sp).mem_brk_point % ss_page_size ≡ 0)
      × (m.ld_data_base + m.ld_data_size ≤ (mem_init m sp).mem_brk_point)
      × ((mem_init m sp).mem_brk_point < m.ld_data_base + m.ld_data_size + ss_page_size)
unfolding mem_init
mem_init_lem m sp h =
    let up = round_up_lem (m.ld_data_base + m.ld_data_size) h in
    let sum : add32 m.ld_data_base m.ld_data_size ≡ m.ld_data_base + m.ld_data_size = omega arith in
    let brk = ap (λ (t : ℕ). round_up t ss_page_size) sum ∙ up in
    (omega (arith, brk), omega (arith, brk), omega (arith, brk))
