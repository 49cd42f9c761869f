-- ===== src/Checkpoint/Tests.antt =====
-- A thread that is saved and restored into another.
use anycore_pisa.Base.{ℕ, ◌<◌, ◌≡◌, refl, true, false, List, [], replicate, none, some, ok}
use anycore_pisa.Blocks.{Table, mem_table_size}
use anycore_pisa.Thread.Tests.{thread_with, thread_with-HasRegs}
use anycore_pisa.Checkpoint.{Item, save_checkpoint, restore_checkpoint}
use anycore_pisa.Checkpoint.Roundtrip.{resumed, save_checkpoint-restore_checkpoint}

save_checkpoint-restore_checkpoint_example :
    (file : List Item) × (table : Table) × (save_checkpoint
        (replicate 32 1)
        (replicate 32 1)
        (record { thread = thread_with 7 9; checkpoint_fp = none; create_checkpoint = false })
      ≡ ok (record {
        thread = thread_with 7 9;
        checkpoint_fp = some file;
        create_checkpoint = true;
      }))
    × (restore_checkpoint file
          (record { thread = thread_with 0 0; checkpoint_fp = none; create_checkpoint = true })
        ≡ ok (record {
          thread = resumed (thread_with 7 9) (thread_with 0 0) table;
          checkpoint_fp = some [];
          create_checkpoint = false;
        }))
    × ((k : ℕ) → k < mem_table_size → table k ≡ (thread_with 7 9).memory.mem_table k)
save_checkpoint-restore_checkpoint_example =
    save_checkpoint-restore_checkpoint (replicate 32 1) (replicate 32 1) (thread_with 7 9)
      (thread_with 0 0) false true (thread_with-HasRegs 7 9) (thread_with-HasRegs 0 0) refl refl
