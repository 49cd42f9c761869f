-- ===== src/Memory.antt =====
-- simulation/functional-sim/include/memory.h and libss-vpi/lib.src/memory.cc: the memory of a
-- simulated thread. The state is the part of class Thread that memory.cc works on, with the shared
-- table, which is a global variable.
pub mod Flat
pub mod Same
pub mod Access
pub mod Copy
pub mod Strings
pub mod Words
mod Tests
use anycore_pisa.Base.{
  ℕ, zero, suc, ◌+◌, ◌/◌, ◌^◌, bit_and, Bool, true, false, ◌&&◌, ◌||◌, Option, none, some, List, [],
  ◌∷◌, ◌++◌, ltb, leb, ◌==◌, if◌then◌else◌, length, get_or, take, drop, add32, sub32, not32,
  Outcome, ok, fail, Failure, aborted, undefined, ◌>>=◌, ◌>>◌, assert,
}
use anycore_pisa.Blocks.{Table, mem_block, allocate, read_bytes, write_bytes}

-- What a program's memory consists of. The `ld_` fields are set by the loader.
pub record Memory : Type 0 where
  pub mem_table : Table
  pub shmem_table : Table
  pub shmem_base : ℕ
  pub shmem_end : ℕ
  pub n_shared_acc : ℕ
  pub n_shared_new : ℕ
  pub n_private_acc : ℕ
  pub n_private_new : ℕ
  pub ld_text_base : ℕ
  pub ld_text_size : ℕ
  pub ld_data_base : ℕ
  pub ld_data_size : ℕ
  pub ld_stack_base : ℕ
  pub mem_brk_point : ℕ
  pub mem_stack_min : ℕ

pub data MemCmd : Type 0 where
  read write : MemCmd

abbrev pub is_shared : Memory → ℕ → Bool
is_shared m addr = ltb addr m.shmem_end && leb m.shmem_base addr

abbrev pub is_missing : Table → ℕ → ℕ
is_missing table addr = elim (table (mem_block addr)) [ none ↦ 1 | some block ↦ 0 ]

-- __MEM_ACCESS up to the access itself: it counts, and allocates the block.
abbrev pub touch_shared : Memory → ℕ → Memory
touch_shared m addr = record m {
  n_shared_acc = add32 m.n_shared_acc 1;
  n_shared_new = add32 m.n_shared_new (is_missing m.shmem_table addr);
  shmem_table = allocate m.shmem_table addr;
}

abbrev pub touch_private : Memory → ℕ → Memory
touch_private m addr = record m {
  n_private_acc = add32 m.n_private_acc 1;
  n_private_new = add32 m.n_private_new (is_missing m.mem_table addr);
  mem_table = allocate m.mem_table addr;
}

-- __MEM_ACCESS of `n` bytes as a value, and as the target of an assignment.
pub load : ℕ → Memory → ℕ → Outcome (Memory × List ℕ)
load n m addr =
    if is_shared m addr
    then (do
      bytes ← read_bytes (touch_shared m addr).shmem_table addr n
      ok (touch_shared m addr, bytes))
    else (do
      bytes ← read_bytes (touch_private m addr).mem_table addr n
      ok (touch_private m addr, bytes))

pub store : Memory → ℕ → List ℕ → Outcome Memory
store m addr bytes =
    if is_shared m addr
    then (do
      table ← write_bytes (touch_shared m addr).shmem_table addr bytes
      ok (record (touch_shared m addr) { shmem_table = table }))
    else (do
      table ← write_bytes (touch_private m addr).mem_table addr bytes
      ok (record (touch_private m addr) { mem_table = table }))

-- The conditions of the two `fatal` calls of mem_access.
abbrev pub is_aligned : ℕ → ℕ → Bool
is_aligned addr nbytes =
    (bit_and nbytes (sub32 nbytes 1) == 0) && (bit_and addr (sub32 nbytes 1) == 0)

abbrev pub is_read : MemCmd → Bool
is_read read = true
is_read write = false

abbrev pub is_permitted : Memory → MemCmd → ℕ → Bool
is_permitted m cmd addr =
    (leb m.ld_text_base addr && ltb addr (add32 m.ld_text_base m.ld_text_size) && is_read cmd)
    || (leb m.ld_data_base addr && ltb addr m.ld_stack_base)

-- mem_access tracks the lowest address above the heap.
abbrev pub tracked : Memory → ℕ → Memory
tracked m addr =
    if ltb m.mem_brk_point addr && ltb addr m.mem_stack_min
    then record m { mem_stack_min = addr }
    else m

-- The object at `p` has to have the bytes that a transfer reads or writes.
abbrev pub has_room : ℕ → List ℕ → Bool
has_room n p = leb n (length p)

-- One transfer between simulated memory and the bytes at `p`.
pub transfer : ℕ → Memory → MemCmd → ℕ → List ℕ → Outcome (Memory × List ℕ)
transfer n m read addr p =
    if has_room n p
    then (do (m', bytes) ← load n m addr; ok (m', bytes ++ drop n p))
    else fail undefined
transfer n m write addr p =
    if has_room n p then (do m' ← store m addr (take n p); ok (m', p)) else fail undefined

-- The loop over the words of a longer transfer.
unfoldable transfer_words : ℕ → Memory → MemCmd → ℕ → List ℕ → Outcome (Memory × List ℕ)
transfer_words zero m cmd addr p = ok (m, p)
transfer_words (suc words) m cmd addr p = do
  (m', p') ← transfer 4 m cmd addr p
  (m'', rest) ← transfer_words words m' cmd (add32 addr 4) (drop 4 p')
  ok (m'', take 4 p' ++ rest)

pub mem_access : Memory → MemCmd → ℕ → List ℕ → ℕ → Outcome (Memory × List ℕ)
mem_access m cmd addr p nbytes = do
  assert (is_aligned addr nbytes)
  assert (is_permitted m cmd addr)
  if nbytes == 1
      then transfer 1 (tracked m addr) cmd addr p
      else if nbytes == 2
      then transfer 2 (tracked m addr) cmd addr p
      else if nbytes == 4
      then transfer 4 (tracked m addr) cmd addr p
      else transfer_words (nbytes / 4) (tracked m addr) cmd addr p

-- mem_strcpy with Read: the new state and bytes at `s`, and the number of bytes copied. The loop
-- ends at a zero byte, or, past the end of the object at `s`, in undefined behaviour.
pub read_string : Memory → ℕ → List ℕ → Outcome (Memory × List ℕ × ℕ)
read_string m addr [] = do (m', c) ← mem_access m read addr (0 ∷ []) 1; fail undefined
read_string m addr (old ∷ s) = do
  (m', c) ← mem_access m read addr (old ∷ []) 1
  elim (get_or c 0 0) [
    | zero ↦ ok (m', c ++ s, 1)
    | suc _ ↦ do (m'', s', n) ← read_string m' (add32 addr 1) s; ok (m'', c ++ s', n + 1)
  ]

-- mem_strcpy with Write.
pub write_string : Memory → ℕ → List ℕ → Outcome (Memory × ℕ)
write_string m addr [] = fail undefined
write_string m addr (c ∷ s) = do
  (m', p) ← mem_access m write addr (c ∷ []) 1
  elim c [
    | zero ↦ ok (m', 1)
    | suc _ ↦ do (m'', n) ← write_string m' (add32 addr 1) s; ok (m'', n + 1)
  ]

-- The loop copies one byte at a time, from the object at `p` or to it.
pub mem_bcopy : Memory → MemCmd → ℕ → List ℕ → ℕ → Outcome (Memory × List ℕ)
mem_bcopy m cmd addr p zero = ok (m, p)
mem_bcopy m cmd addr [] (suc nbytes) = fail undefined
mem_bcopy m cmd addr (x ∷ p) (suc nbytes) = do
  (m', y) ← mem_access m cmd addr (x ∷ []) 1
  (m'', rest) ← mem_bcopy m' cmd (add32 addr 1) p nbytes
  ok (m'', y ++ rest)

-- The loop of mem_bcopy4: both pointers go on before each transfer.
pub bcopy4_loop : ℕ → Memory → MemCmd → ℕ → List ℕ → Outcome (Memory × List ℕ)
bcopy4_loop zero m cmd addr p = ok (m, p)
bcopy4_loop (suc words) m cmd addr p = do
  (m', q) ← mem_access m cmd (add32 addr 4) (drop 4 p) 4
  (m'', rest) ← bcopy4_loop words m' cmd (add32 addr 4) q
  ok (m'', take 4 p ++ rest)

abbrev pub mem_bcopy4 : Memory → MemCmd → ℕ → List ℕ → ℕ → Outcome (Memory × List ℕ)
mem_bcopy4 m cmd addr p nbytes = bcopy4_loop (nbytes / 4) m cmd addr p

pub mem_bzero : Memory → ℕ → ℕ → Outcome Memory
mem_bzero m addr zero = ok m
mem_bzero m addr (suc nbytes) = do
  (m', p) ← mem_access m write addr (0 ∷ []) 1
  mem_bzero m' (add32 addr 1) nbytes

-- ROUND_UP of misc.h, for an alignment that is a power of two.
abbrev pub round_up : ℕ → ℕ → ℕ
round_up n align = bit_and (add32 n (sub32 align 1)) (not32 (sub32 align 1))

abbrev pub ss_page_size : ℕ
ss_page_size = 4096

-- mem_init, with the value of the register for the stack pointer.
pub mem_init : Memory → ℕ → Memory
mem_init m sp = record m {
  mem_brk_point = round_up (add32 m.ld_data_base m.ld_data_size) ss_page_size;
  mem_stack_min = sp;
}
