-- ===== src/Checkpoint.antt =====
-- simulation/functional-sim/include/checkpoint.h, and save_checkpoint and restore_checkpoint of
-- libss-vpi/lib.src/func_sim.cc. A file is the list of the objects that fwrite put there; an fread of
-- anything else, or past the end, leaves a variable of the restoring function without a value.
pub mod Rows
pub mod Roundtrip
mod Tests
use anycore_pisa.Base.{
  ℕ, zero, suc, ◌+◌, Bool, true, false, Option, none, some, List, [], ◌∷◌, ◌++◌, ltb, replicate,
  Outcome, ok, fail, undefined, ◌>>=◌, ◌>>◌, assert,
}
use anycore_pisa.Blocks.{Block, Table, mem_table_size, update}
use anycore_pisa.Thread.{Thread, ss_num_regs, copy_words}

-- struct a_checkpoint.
pub record ACheckpoint : Type 0 where
  pub num_insn : ℕ
  pub num_refs : ℕ
  pub arch_pc : ℕ
  pub blocked : Bool
  pub ld_text_base : ℕ
  pub ld_text_size : ℕ
  pub ld_data_base : ℕ
  pub ld_data_size : ℕ
  pub ld_stack_base : ℕ
  pub ld_stack_size : ℕ
  pub ld_prog_entry : ℕ
  pub ld_environ_base : ℕ
  pub mem_brk_point : ℕ
  pub mem_stack_min : ℕ
  pub regs_hi : ℕ
  pub regs_lo : ℕ
  pub regs_fcc : ℕ
  pub shmem_base : ℕ
  pub shmem_end : ℕ
  pub regs_pc : ℕ
  pub next_pc : ℕ
  pub lockaddr : ℕ
  pub n_shared_tas : ℕ
  pub n_shared_tas_succeed : ℕ
  pub n_private_tas : ℕ
  pub n_private_tas_succeed : ℕ
  pub n_shared_acc : ℕ
  pub n_shared_new : ℕ
  pub n_private_acc : ℕ
  pub n_private_new : ℕ
  pub real_upper : ℕ
  pub real_lower : ℕ
  pub store_addr : ℕ
  pub trap_inst_a : ℕ
  pub trap_inst_b : ℕ
  pub regs_r : List ℕ
  pub regs_f_l : List ℕ

pub data Item : Type 0 where
  checkpoint : ACheckpoint → Item
  number counter byte : ℕ → Item
  row : Block → Item

-- The fields of a thread in a checkpoint; the arrays of the checkpoint start with what is in memory.
pub filled : List ℕ → List ℕ → Thread → ACheckpoint
filled words_r words_f t = record {
  num_insn = t.num_insn;
  num_refs = t.num_refs;
  arch_pc = t.arch_pc;
  blocked = t.blocked;
  ld_text_base = t.memory.ld_text_base;
  ld_text_size = t.memory.ld_text_size;
  ld_data_base = t.memory.ld_data_base;
  ld_data_size = t.memory.ld_data_size;
  ld_stack_base = t.memory.ld_stack_base;
  ld_stack_size = t.ld_stack_size;
  ld_prog_entry = t.ld_prog_entry;
  ld_environ_base = t.ld_environ_base;
  mem_brk_point = t.memory.mem_brk_point;
  mem_stack_min = t.memory.mem_stack_min;
  regs_hi = t.regs_hi;
  regs_lo = t.regs_lo;
  regs_fcc = t.regs_fcc;
  shmem_base = t.memory.shmem_base;
  shmem_end = t.memory.shmem_end;
  regs_pc = t.regs_pc;
  next_pc = t.next_pc;
  lockaddr = t.lockaddr;
  n_shared_tas = t.n_shared_tas;
  n_shared_tas_succeed = t.n_shared_tas_succeed;
  n_private_tas = t.n_private_tas;
  n_private_tas_succeed = t.n_private_tas_succeed;
  n_shared_acc = t.memory.n_shared_acc;
  n_shared_new = t.memory.n_shared_new;
  n_private_acc = t.memory.n_private_acc;
  n_private_new = t.memory.n_private_new;
  real_upper = t.real_upper;
  real_lower = t.real_lower;
  store_addr = t.store_addr;
  trap_inst_a = t.trap_inst.a;
  trap_inst_b = t.trap_inst.b;
  regs_r = copy_words ss_num_regs 0 t.regs_r words_r;
  regs_f_l = copy_words ss_num_regs 0 t.regs_f_l words_f;
}

-- The fields of a thread from a checkpoint.
pub restored : ACheckpoint → Thread → Thread
restored c t = record t {
  memory = record t.memory {
    ld_text_base = c.ld_text_base;
    ld_text_size = c.ld_text_size;
    ld_data_base = c.ld_data_base;
    ld_data_size = c.ld_data_size;
    ld_stack_base = c.ld_stack_base;
    mem_brk_point = c.mem_brk_point;
    mem_stack_min = c.mem_stack_min;
    shmem_base = c.shmem_base;
    shmem_end = c.shmem_end;
    n_shared_acc = c.n_shared_acc;
    n_shared_new = c.n_shared_new;
    n_private_acc = c.n_private_acc;
    n_private_new = c.n_private_new;
  };
  num_insn = c.num_insn;
  num_refs = c.num_refs;
  arch_pc = c.arch_pc;
  blocked = c.blocked;
  ld_stack_size = c.ld_stack_size;
  ld_prog_entry = c.ld_prog_entry;
  ld_environ_base = c.ld_environ_base;
  regs_hi = c.regs_hi;
  regs_lo = c.regs_lo;
  regs_fcc = c.regs_fcc;
  regs_pc = c.regs_pc;
  next_pc = c.next_pc;
  lockaddr = c.lockaddr;
  n_shared_tas = c.n_shared_tas;
  n_shared_tas_succeed = c.n_shared_tas_succeed;
  n_private_tas = c.n_private_tas;
  n_private_tas_succeed = c.n_private_tas_succeed;
  real_upper = c.real_upper;
  real_lower = c.real_lower;
  store_addr = c.store_addr;
  trap_inst = record { a = c.trap_inst_a; b = c.trap_inst_b };
  regs_r = copy_words ss_num_regs 0 c.regs_r t.regs_r;
  regs_f_l = copy_words ss_num_regs 0 c.regs_f_l t.regs_f_l;
}

-- The loops over the rows of the table, for `rows` of them from `i` on.
pub count_blocks : ℕ → ℕ → Table → ℕ
count_blocks zero i table = 0
count_blocks (suc rows) i table = elim (table i) [
  | none ↦ count_blocks rows (i + 1) table
  | some block ↦ suc (count_blocks rows (i + 1) table)
]

pub stored_blocks : ℕ → ℕ → Table → List Item
stored_blocks zero i table = []
stored_blocks (suc rows) i table = elim (table i) [
  | none ↦ stored_blocks rows (i + 1) table
  | some block ↦ number i ∷ row block ∷ stored_blocks rows (i + 1) table
]

pub cleared : ℕ → ℕ → Table → Table
cleared zero i table = table
cleared (suc rows) i table = cleared rows (i + 1) (update table i none)

-- Whether a row is empty.
abbrev pub is_none : Option Block → Bool
is_none none = true
is_none (some block) = false

-- The loop that loads the blocks, for `blocks` of them.
pub load_blocks : ℕ → Table → List Item → Outcome (Table × List Item)
load_blocks zero table file = ok (table, file)
load_blocks (suc blocks) table (number i ∷ row block ∷ file) = do
  assert (ltb i mem_table_size)
  assert (is_none (table i))
  load_blocks blocks (update table i (some block)) file
load_blocks (suc blocks) table file = fail undefined

abbrev pub is_null : Option (List Item) → Bool
is_null none = true
is_null (some file) = false

-- `checkpoint_fp` is set to null by the constructor of a thread, and to the file by both functions.
pub record Saving : Type 0 where
  pub thread : Thread
  pub checkpoint_fp : Option (List Item)
  pub create_checkpoint : Bool

pub save_checkpoint : List ℕ → List ℕ → Saving → Outcome Saving
save_checkpoint words_r words_f s = do
  assert (is_null s.checkpoint_fp)
  ok (record {
    thread = s.thread;
    checkpoint_fp = some (
        checkpoint (filled words_r words_f s.thread)
        ∷ number (count_blocks mem_table_size 0 s.thread.memory.mem_table)
        ∷ stored_blocks mem_table_size 0 s.thread.memory.mem_table);
    create_checkpoint = true;
  })

-- The state after a checkpoint is read, and its blocks are loaded.
pub restore_from : Thread → List Item → Outcome Saving
restore_from t (checkpoint c ∷ number blocks ∷ file) = do
  (table, rest) ← load_blocks blocks (cleared mem_table_size 0 (restored c t).memory.mem_table) file
  ok (record {
    thread = record (restored c t) { memory = record (restored c t).memory { mem_table = table } };
    checkpoint_fp = some rest;
    create_checkpoint = false;
  })
restore_from t file = fail undefined

pub restore_checkpoint : List Item → Saving → Outcome Saving
restore_checkpoint file s = do assert (is_null s.checkpoint_fp); restore_from s.thread file
