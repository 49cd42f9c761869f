-- ===== src/Checkpoint/Roundtrip.antt =====
-- A thread that func_sim.cc saves and restores.
use anycore_pisa.Base.{
  ℕ, suc, ◌+◌, ◌<◌, ◌≡◌, refl, ap, ap₂, sym, ◌∙◌, Bool, true, false, ◌&&◌, none, some, List, [],
  ◌∷◌, ltb, leb, if◌then◌else◌, length, get_or, ok, arith,
}
use anycore_pisa.Blocks.{Table, mem_table_size}
use anycore_pisa.Thread.{Thread, ss_num_regs, copy_words}
use anycore_pisa.Thread.Regs.{HasRegs, copy_words_lem, length-copy_words}
use anycore_pisa.Checkpoint.{
  ACheckpoint, Item, checkpoint, number, filled, restored, count_blocks, stored_blocks, cleared,
  load_blocks, save_checkpoint, restore_from, restore_checkpoint,
}
use anycore_pisa.Checkpoint.Rows.{load_all}

-- Lists of the same length with the same elements are the same.
list_ext :
    (xs ys : List ℕ)
    → length xs ≡ length ys
    → ((k : ℕ) → k < length xs → get_or xs k 0 ≡ get_or ys k 0)
    → xs ≡ ys
list_ext [] [] h e = refl
list_ext [] (y ∷ ys) h e = absurd (omega arith)
list_ext (x ∷ xs) [] h e = absurd (omega arith)
list_ext (x ∷ xs) (y ∷ ys) h e =
    ap₂ ◌∷◌ (e 0 (omega arith)) (list_ext xs ys (omega arith) (λ k l. e (suc k) (omega arith)))

-- The loop over all registers copies the whole file.
copy_words_all :
    (from to : List ℕ)
    → length from ≡ ss_num_regs
    → length to ≡ ss_num_regs
    → copy_words ss_num_regs 0 from to ≡ from
copy_words_all from to h g =
    let size = length-copy_words ss_num_regs 0 from to in
    list_ext (copy_words ss_num_regs 0 from to) from (size ∙ g ∙ sym h) (λ k l.
      copy_words_lem ss_num_regs 0 k from to (omega (arith, g))
      ∙ ap (λ b. if b then get_or from k 0 else get_or to k 0) (in_file k (omega (arith, size, g))))
  where
    in_file : (k : ℕ) → k < ss_num_regs → (leb 0 k && ltb k (0 + ss_num_regs)) ≡ true
    in_file k h = ground arith

-- The checkpoint of a thread, field by field.
abbrev image : Thread → ACheckpoint
image t = record {
  num_insn = t.num_insn;
  num_refs = t.num_refs;
  arch_pc = t.arch_pc;
  blocked = t.blocked;
  ld_text_base = t.memory.ld_text_base;
  ld_text_size = t.memory.ld_text_size;
  ld_data_base = t.memory.ld_data_base;
  ld_data_size = t.memory.ld_data_size;
  ld_stack_base = t.memory.ld_stack_base;
  ld_stack_size = t.ld_stack_size;
  ld_prog_entry = t.ld_prog_entry;
  ld_environ_base = t.ld_environ_base;
  mem_brk_point = t.memory.mem_brk_point;
  mem_stack_min = t.memory.mem_stack_min;
  regs_hi = t.regs_hi;
  regs_lo = t.regs_lo;
  regs_fcc = t.regs_fcc;
  shmem_base = t.memory.shmem_base;
  shmem_end = t.memory.shmem_end;
  regs_pc = t.regs_pc;
  next_pc = t.next_pc;
  lockaddr = t.lockaddr;
  n_shared_tas = t.n_shared_tas;
  n_shared_tas_succeed = t.n_shared_tas_succeed;
  n_private_tas = t.n_private_tas;
  n_private_tas_succeed = t.n_private_tas_succeed;
  n_shared_acc = t.memory.n_shared_acc;
  n_shared_new = t.memory.n_shared_new;
  n_private_acc = t.memory.n_private_acc;
  n_private_new = t.memory.n_private_new;
  real_upper = t.real_upper;
  real_lower = t.real_lower;
  store_addr = t.store_addr;
  trap_inst_a = t.trap_inst.a;
  trap_inst_b = t.trap_inst.b;
  regs_r = t.regs_r;
  regs_f_l = t.regs_f_l;
}

filled-image :
    (words_r words_f : List ℕ) (t : Thread)
    → HasRegs t
    → length words_r ≡ ss_num_regs
    → length words_f ≡ ss_num_regs
    → filled words_r words_f t ≡ image t
unfolding filled
filled-image words_r words_f t h r f =
    ap₂ (λ (a b : List ℕ). record (image t) { regs_r = a; regs_f_l = b })
      (copy_words_all t.regs_r words_r h.0 r) (copy_words_all t.regs_f_l words_f h.1 f)

abbrev with_table : Thread → Table → Thread
with_table t table = record t { memory = record t.memory { mem_table = table } }

-- The thread `t` with the table `table` of blocks, and with what no checkpoint holds from `u`: the table
-- of shared blocks, the debug buffer and the hardware counters.
abbrev pub resumed : Thread → Thread → Table → Thread
resumed t u table = record t {
  memory = record t.memory { mem_table = table; shmem_table = u.memory.shmem_table };
  db = u.db;
  hardware_counters = u.hardware_counters;
}

restored-image :
    (t u : Thread) (table : Table)
    → HasRegs t
    → HasRegs u
    → with_table (restored (image t) u) table ≡ resumed t u table
unfolding restored
restored-image t u table h g =
    ap₂ (λ (a b : List ℕ). record (resumed t u table) { regs_r = a; regs_f_l = b })
      (copy_words_all t.regs_r u.regs_r h.0 g.0) (copy_words_all t.regs_f_l u.regs_f_l h.1 g.1)

save_ok :
    (words_r words_f : List ℕ) (t : Thread) (was : Bool)
    → save_checkpoint words_r words_f
        (record { thread = t; checkpoint_fp = none; create_checkpoint = was })
      ≡ ok (record {
        thread = t;
        checkpoint_fp = some (
            checkpoint (filled words_r words_f t)
            ∷ number (count_blocks mem_table_size 0 t.memory.mem_table)
            ∷ stored_blocks mem_table_size 0 t.memory.mem_table);
        create_checkpoint = true;
      })
unfolding save_checkpoint
save_ok words_r words_f t was = refl

restore_ok :
    (c : ACheckpoint) (u : Thread) (n : ℕ) (rows : List Item) (table : Table) (will : Bool)
    → load_blocks n (cleared mem_table_size 0 (restored c u).memory.mem_table) rows ≡ ok (table, [])
    → restore_checkpoint
        (checkpoint c ∷ number n ∷ rows)
        (record { thread = u; checkpoint_fp = none; create_checkpoint = will })
      ≡ ok (record {
        thread = with_table (restored c u) table;
        checkpoint_fp = some [];
        create_checkpoint = false;
      })
unfolding restore_checkpoint restore_from
restore_ok c u n rows table will e = rw e refl

-- A thread that is saved, when no checkpoint file is open, and restored from that file into another
-- thread for which none is open, is the thread that was saved in every field, with the same blocks of
-- memory, whatever the other thread held before, except that the table of shared blocks, the debug buffer
-- and the hardware counters are those of the other thread. The file is read to its end. Both threads,
-- and the storage of the checkpoint, have all registers.
pub save_checkpoint-restore_checkpoint :
    (words_r words_f : List ℕ) (t u : Thread) (was will : Bool)
    → HasRegs t
    → HasRegs u
    → length words_r ≡ ss_num_regs
    → length words_f ≡ ss_num_regs
    → (file : List Item) × (table : Table) × (save_checkpoint words_r words_f
          (record { thread = t; checkpoint_fp = none; create_checkpoint = was })
        ≡ ok (record { thread = t; checkpoint_fp = some file; create_checkpoint = true }))
      × (restore_checkpoint file
            (record { thread = u; checkpoint_fp = none; create_checkpoint = will })
          ≡ ok (record {
            thread = resumed t u table;
            checkpoint_fp = some [];
            create_checkpoint = false;
          }))
      × ((k : ℕ) → k < mem_table_size → table k ≡ t.memory.mem_table k)
save_checkpoint-restore_checkpoint words_r words_f t u was will h g r f =
    let c = filled words_r words_f t in
    let table = t.memory.mem_table in
    let n = count_blocks mem_table_size 0 table in
    let rows = stored_blocks mem_table_size 0 table in
    let (loaded, load, rows_same) = load_all table (restored c u).memory.mem_table in
    let same : with_table (restored c u) loaded ≡ resumed t u loaded =
      ap (λ (i : ACheckpoint). with_table (restored i u) loaded)
        (filled-image words_r words_f t h r f)
      ∙ restored-image t u loaded h g in
    (
      checkpoint c ∷ number n ∷ rows,
      loaded,
      save_ok words_r words_f t was,
      restore_ok c u n rows loaded will load
          ∙ ap
              (λ (v : Thread).
                ok (record { thread = v; checkpoint_fp = some []; create_checkpoint = false }))
              same,
      rows_same,
    )
