-- ===== src/Thread/Fork.antt =====
-- The constructor of a forked thread in Thread.h, and the functions of Thread.h that only pass on to
-- the debug buffer.
use anycore_pisa.Base.{
  ℕ, zero, suc, ◌+◌, ◌<◌, ◌≡◌, ap, subst, sym, ◌∙◌, Bool, true, false, ◌&&◌, Option, none, some,
  List, ltb, leb, if◌then◌else◌, Outcome, ok, ◌>>=◌, arith,
}
use anycore_pisa.Blocks.{
  Block, Table, mem_table_size, mem_block_size, mem_newblock, update, bytes_of,
}
use anycore_pisa.Blocks.Copied.{copy_block, copied_block, SameBlock}
use anycore_pisa.Debug.{DebugBuffer, debug_buffer, empty, first, pop, finish_syscall_exit}
use anycore_pisa.Debug.Fields.{Entry}
use anycore_pisa.Memory.{Memory, store}
use anycore_pisa.Thread.{Thread, copy}

abbrev pub db_size : ℕ
db_size = 16384

-- The loop over the rows of the master's table, for `rows` of them from `i` on.
pub forked_entry : Option Block → Option Block
forked_entry none = none
forked_entry (some master) = some (copy_block mem_block_size 0 master mem_newblock)

pub fork_table : ℕ → ℕ → Table → Table → Table
unfolding forked_entry
fork_table zero i master table = table
fork_table (suc rows) i master table =
    fork_table rows (i + 1) master (update table i (forked_entry (master i)))

-- The last part of the constructor: counters, the debug buffer and statistics.
abbrev pub fresh : DebugBuffer → Memory → Thread → Thread
fresh db m t = record t {
  memory = record m { n_shared_acc = 0; n_shared_new = 0; n_private_acc = 0; n_private_new = 0 };
  num_insn = 0;
  num_refs = 0;
  arch_pc = t.regs_pc;
  db = db;
  n_shared_tas = 0;
  n_shared_tas_succeed = 0;
  n_private_tas = 0;
  n_private_tas_succeed = 0;
  blocked = false;
}

-- `t` is the object before its constructor runs, and `entries` what `new` finds for the buffer.
unfoldable pub fork : Thread → Thread → ℕ → ℕ → List Entry → Outcome Thread
unfolding fork_table
fork master t thread_id_ptr id entries = do
  let u = copy master (record t {
    memory = record t.memory {
      mem_table = fork_table mem_table_size 0 master.memory.mem_table t.memory.mem_table;
    };
  })
  m ← store u.memory thread_id_ptr (bytes_of 4 id)
  db ← debug_buffer db_size entries
  ok (fresh db m u)

pub is_blocked : Thread → Bool
is_blocked t = t.blocked && empty t.db

pub cleanup_init : Thread → Outcome Thread
cleanup_init t = do db ← finish_syscall_exit t.db; ok (record t { db = db })

-- The null pointer at the end is `none`.
pub cleanup_get_instr : Thread → Outcome (Thread × Option Entry)
cleanup_get_instr t = if empty t.db then ok (t, none) else (do
  i ← first t.arch_pc t.db
  (entry, db) ← pop i t.db
  ok (record t { db = db; arch_pc = entry.a_next_pc }, some entry))

fork_table_lem :
    (rows i : ℕ) (master table : Table) (k : ℕ)
    → fork_table rows i master table k
      ≡ (if leb i k && ltb k (i + rows) then forked_entry (master k) else table k)
unfolding fork_table
fork_table_lem zero i master table k = ground arith
fork_table_lem (suc rows) i master table k =
    ground (arith, fork_table_lem rows (i + 1) master (update table i (forked_entry (master i))) k)

forked_entry-SameBlock : (entry : Option Block) → SameBlock (forked_entry entry) entry
unfolding forked_entry
forked_entry-SameBlock none = tt
forked_entry-SameBlock (some master) = λ o h. copied_block master mem_newblock o h

in_table : (k : ℕ) → k < mem_table_size → (leb 0 k && ltb k (0 + mem_table_size)) ≡ true
in_table k h = ground arith

pub fork_table-SameBlock :
    (master table : Table) (k : ℕ)
    → k < mem_table_size
    → SameBlock (fork_table mem_table_size 0 master table k) (master k)
fork_table-SameBlock master table k h =
    let entry =
      fork_table_lem mem_table_size 0 master table k
      ∙ ap (λ b. if b then forked_entry (master k) else table k) (in_table k h) in
    subst (λ e. SameBlock e (master k)) (sym entry) (forked_entry-SameBlock (master k))
