-- ===== src/Trap.antt =====
-- simulation/functional-sim/libss-vpi/lib.src/syscall.cc: trap_now, save_trap and restore_trap. A
-- checkpoint file also holds the effects of the system calls behind the checkpoint, so that a restored
-- run replays them. What ss_syscall does to the thread is a parameter.
pub mod Differences
pub mod Rows
pub mod Registers
pub mod Steps
pub mod Replay
mod Tests
use anycore_pisa.Base.{
  ℕ, zero, suc, ◌+◌, Bool, true, false, ◌&&◌, not, Option, none, some, List, [], ◌∷◌, ◌++◌, ltb,
  ◌==◌, if◌then◌else◌, get_or, set, map, Outcome, ok, fail, aborted, undefined, ◌>>=◌, ◌>>◌, assert,
}
use anycore_pisa.Blocks.{Block, Table, mem_table_size, mem_block_size, update}
use anycore_pisa.Thread.{Thread}
use anycore_pisa.Checkpoint.{Item, number, counter, byte, is_null, Saving}

-- The registers of the arguments and results of a system call.
abbrev pub trap_regs : List ℕ
trap_regs = 2 ∷ 3 ∷ 4 ∷ 5 ∷ 6 ∷ 7 ∷ 31 ∷ []

pub reg_items : List ℕ → List ℕ → List Item
reg_items [] regs = []
reg_items (n ∷ ns) regs = number (get_or regs n 0) ∷ reg_items ns regs

-- The loops over the bytes of a block, for `count` of them from `i` on.
pub count_bytes : ℕ → ℕ → Block → Block → ℕ
count_bytes zero i new old = 0
count_bytes (suc count) i new old =
    let rest = count_bytes count (i + 1) new old in if new i == old i then rest else suc rest

pub byte_items : ℕ → ℕ → ℕ → Block → Block → List Item
byte_items zero i row new old = []
byte_items (suc count) i row new old =
    let rest = byte_items count (i + 1) row new old in
    if new i == old i then rest else number row ∷ number i ∷ byte (new i) ∷ rest

-- Step 5a and 5b for one row: a block that was not there before the trap is a failed assertion.
abbrev pub count_row : Option Block → Option Block → Outcome ℕ
count_row none old = ok 0
count_row (some new) none = fail aborted
count_row (some new) (some old) = ok (count_bytes mem_block_size 0 new old)

pub count_rows : ℕ → ℕ → Table → Table → Outcome ℕ
count_rows zero i new old = ok 0
count_rows (suc rows) i new old = do
  here ← count_row (new i) (old i)
  rest ← count_rows rows (i + 1) new old
  ok (here + rest)

-- Step 5c.
abbrev pub row_items : ℕ → Option Block → Option Block → Outcome (List Item)
row_items i none old = ok []
row_items i (some new) none = fail undefined
row_items i (some new) (some old) = ok (byte_items mem_block_size 0 i new old)

pub table_items : ℕ → ℕ → Table → Table → Outcome (List Item)
table_items zero i new old = ok []
table_items (suc rows) i new old = do
  here ← row_items i (new i) (old i)
  rest ← table_items rows (i + 1) new old
  ok (here ++ rest)

-- What is written before and after the trap is handled.
abbrev pub before_items : Thread → List Item
before_items t =
    counter t.num_insn ∷ number t.trap_inst.a ∷ number t.trap_inst.b ∷ reg_items trap_regs t.regs_r

pub written : Thread → Thread → Outcome (List Item)
written t t' = do
  differences ← count_rows mem_table_size 0 t'.memory.mem_table t.memory.mem_table
  items ← table_items mem_table_size 0 t'.memory.mem_table t.memory.mem_table
  ok (before_items t ++ (reg_items trap_regs t'.regs_r ++ number differences ∷ items))

abbrev pub file_of : Saving → List Item
file_of s = elim s.checkpoint_fp [ none ↦ [] | some file ↦ file ]

pub save_trap : (Thread → Outcome Thread) → Saving → Outcome Saving
save_trap ss_syscall s = do
  assert (not (is_null s.checkpoint_fp))
  assert s.create_checkpoint
  t' ← ss_syscall s.thread
  items ← written s.thread t'
  ok (record s { thread = t'; checkpoint_fp = some (file_of s ++ items) })

-- Steps 1 to 3 of restore_trap.
pub check_regs : List ℕ → List ℕ → List Item → Outcome (Bool × List Item)
check_regs [] regs file = ok (true, file)
check_regs (n ∷ ns) regs (number v ∷ file) = do
  r ← check_regs ns regs file
  ok (v == get_or regs n 0 && r.0, r.1)
check_regs (n ∷ ns) regs file = fail undefined

pub load_regs : List ℕ → List ℕ → List Item → Outcome (List ℕ × List Item)
load_regs [] regs file = ok (regs, file)
load_regs (n ∷ ns) regs (number v ∷ file) = load_regs ns (set regs n v) file
load_regs (n ∷ ns) regs file = fail undefined

-- `mem_table[row][col]` is read from the file.
abbrev pub put_byte : ℕ → ℕ → ℕ → Option Block → Table → Outcome Table
put_byte row col v none table = fail undefined
put_byte row col v (some block) table = ok (update table row (some (update block col v)))

-- Step 4, for `differences` bytes.
pub apply_items : ℕ → Table → List Item → Outcome (Table × List Item)
apply_items zero table file = ok (table, file)
apply_items (suc differences) table (number row ∷ number col ∷ byte v ∷ file) =
    if ltb row mem_table_size && ltb col mem_block_size
    then (do table' ← put_byte row col v (table row) table; apply_items differences table' file)
    else fail undefined
apply_items (suc differences) table file = fail undefined

-- The thread after the differences are read.
pub replay_memory : Thread → List Item → Outcome (Thread × List Item)
replay_memory t (number differences ∷ file) = do
  r ← apply_items differences t.memory.mem_table file
  ok (record t { memory = record t.memory { mem_table = r.0 } }, r.1)
replay_memory t file = fail undefined

pub replay : Thread → List Item → Outcome (Thread × List Item)
replay t (counter num_insn ∷ number a ∷ number b ∷ file) = do
  assert (num_insn == t.num_insn && (a == t.trap_inst.a && b == t.trap_inst.b))
  checked ← check_regs trap_regs t.regs_r file
  assert checked.0
  loaded ← load_regs trap_regs t.regs_r checked.1
  replay_memory (record t { regs_r = loaded.0 }) loaded.1
replay t file = fail undefined

pub restore_trap : Saving → Outcome Saving
restore_trap s = do
  assert (not (is_null s.checkpoint_fp))
  assert (not s.create_checkpoint)
  r ← replay s.thread (file_of s)
  ok (record s { thread = r.0; checkpoint_fp = some r.1 })

-- The three ways of trap_now, with its assertion before them.
pub handle_trap : (Thread → Outcome Thread) → Saving → Outcome Saving
handle_trap ss_syscall s = do
  assert s.thread.blocked
  if is_null s.checkpoint_fp
      then (do t' ← ss_syscall s.thread; ok (record s { thread = t' }))
      else (if s.create_checkpoint then save_trap ss_syscall s else restore_trap s)
