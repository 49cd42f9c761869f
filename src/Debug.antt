-- ===== src/Debug.antt =====
-- simulation/functional-sim/include/debug.h: the debug buffer, a circular window of the
-- instructions that the functional simulator has executed and the timing model has not yet retired.
-- The methods are sealed: the modules below prove what a client may know of them.
pub mod Fields
pub mod Inv
pub mod Queue
pub mod Search
pub mod Operands
pub mod History
mod Tests
use anycore_pisa.Base.{
  ℕ, zero, suc, ◌+◌, ◌-◌, ◌≤◌, Bool, true, false, ◌&&◌, ◌||◌, List, bit_and, ltb, leb, ◌==◌,
  if◌then◌else◌, set, add32, sub32, mod_mask, is_pow2, Outcome, ok, fail, out_of_fuel, ◌>>=◌, ◌>>◌,
  assert, at,
}
use Fields.{
  Inst, Entry, Operand, msrc_operand, mdst_operand, push_operand, push_address, push_instr,
  start_entry,
}

-- `length` is the source's `int length`, which is never negative.
pub record DebugBuffer : Type 0 where
  pub debug_size : ℕ
  pub active_size : ℕ
  pub db : List Entry
  pub head : ℕ
  pub tail : ℕ
  pub length : ℕ
  pub pc_ptr : ℕ

abbrev pub debug_index_invalid : ℕ
debug_index_invalid = 0xbadbeef

-- The constructor; `storage` is what `new db_t[DEBUG_SIZE]` finds in memory.
pub debug_buffer : ℕ → List Entry → Outcome DebugBuffer
debug_buffer window_size storage = do
  assert (is_pow2 window_size && is_pow2 window_size)
  ok (record {
    debug_size = window_size;
    active_size = window_size;
    db = storage;
    head = 0;
    tail = sub32 window_size 1;
    length = 0;
    pc_ptr = 0;
  })

-- Whether an index lies between `head` and `tail`.
pub is_active : DebugBuffer → ℕ → Bool
is_active b e =
    if ltb 0 b.length
    then (if leb b.head b.tail then leb b.head e && leb e b.tail else leb b.head e || leb e b.tail)
    else false

unfoldable pub hungry : DebugBuffer → Bool
hungry b = ltb b.length b.active_size

pub empty : DebugBuffer → Bool
empty b = b.length == 0

unfoldable pub start : DebugBuffer → Outcome DebugBuffer
start b = do
  assert (ltb b.length b.active_size)
  let tail = mod_mask (add32 b.tail 1) b.debug_size
  entry ← at b.db tail
  ok (record b { length = b.length + 1; tail = tail; db = set b.db tail (start_entry entry) })

-- The three methods that fill in `db[tail]`.
pub update_tail : DebugBuffer → (Entry → Outcome Entry) → Outcome DebugBuffer
update_tail b f = do
  entry ← at b.db b.tail
  entry' ← f entry
  ok (record b { db = set b.db b.tail entry' })

unfoldable pub push_operand_actual : ℕ → Operand → ℕ → ℕ → DebugBuffer → Outcome DebugBuffer
unfolding update_tail
push_operand_actual n t value pc b = update_tail b (push_operand n t value)

pub push_address_actual : ℕ → Operand → ℕ → ℕ → ℕ → DebugBuffer → Outcome DebugBuffer
unfolding update_tail
push_address_actual addr t pc upper lower b = update_tail b (push_address addr t upper lower)

unfoldable pub push_instr_actual : Inst → ℕ → ℕ → ℕ → ℕ → ℕ → ℕ → DebugBuffer → Outcome DebugBuffer
unfolding update_tail
push_instr_actual inst flags latency pc next_pc upper lower b =
    update_tail b λ entry. ok (push_instr inst flags latency pc next_pc upper lower entry)

unfoldable pub first : ℕ → DebugBuffer → Outcome ℕ
first pc b = do entry ← at b.db b.head; assert (pc == entry.a_pc); ok b.head

pub check_next : ℕ → ℕ → DebugBuffer → Outcome ℕ
unfolding is_active
check_next i pc b =
    let e = mod_mask (add32 i 1) b.debug_size in
    if is_active b e
    then (do entry ← at b.db e; ok (if pc == entry.a_pc then e else debug_index_invalid))
    else ok debug_index_invalid

-- The `while` of `find` at index `e`, with fuel for its rounds.
pub find_from : ℕ → ℕ → ℕ → DebugBuffer → Outcome ℕ
find_from zero e pc b = fail out_of_fuel
find_from (suc fuel) e pc b =
    let rest = find_from fuel (mod_mask (add32 e 1) b.debug_size) pc b in
    if is_active b e
    then (do entry ← at b.db e; if pc == entry.a_pc then ok e else rest)
    else ok debug_index_invalid

pub find : ℕ → ℕ → ℕ → DebugBuffer → Outcome ℕ
unfolding find_from
find fuel i pc b = find_from fuel (mod_mask (add32 i 1) b.debug_size) pc b

pub peek : ℕ → DebugBuffer → Outcome Entry
peek i b = do assert (is_active b i); at b.db i

-- The pointer that `pop` returns is read as the entry that it points to.
unfoldable pub pop : ℕ → DebugBuffer → Outcome (Entry × DebugBuffer)
pop i b = do
  assert (i == b.head)
  assert (ltb 0 b.length)
  entry ← at b.db i
  ok (entry, record b { length = b.length - 1; head = mod_mask (add32 b.head 1) b.debug_size })

pub pop_pc : DebugBuffer → Outcome (ℕ × DebugBuffer)
pop_pc b = do
  entry ← at b.db b.pc_ptr
  ok (entry.a_pc, record b { pc_ptr = mod_mask (add32 b.pc_ptr 1) b.debug_size })

-- F_TRAP of ss.h.
abbrev pub f_trap : ℕ
f_trap = 0x800

pub finish_syscall_exit : DebugBuffer → Outcome DebugBuffer
unfolding push_instr_actual
finish_syscall_exit b = do
  let x = mod_mask (sub32 (add32 b.tail b.debug_size) 1) b.debug_size
  entry ← at b.db x
  push_instr_actual (record { a = 0x6f; b = 0 }) f_trap 1 entry.a_next_pc 0 0 0 b
