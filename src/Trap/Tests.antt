-- ===== src/Trap/Tests.antt =====
-- A system call that is saved and replayed.
use anycore_pisa.Base.{
  ◌≡◌, refl, true, false, Bool-cases, inl, inr, none, some, List, [], ◌∷◌, ◌==◌, if◌then◌else◌, set,
  Outcome, ok, fail, exited, ◌++◌,
}
use anycore_pisa.Blocks.{Block, Table, update}
use anycore_pisa.Checkpoint.{Item, number}
use anycore_pisa.Thread.{Thread}
use anycore_pisa.Thread.Tests.{thread_with}
use anycore_pisa.Trap.{handle_trap}
use anycore_pisa.Trap.Differences.{SameRows}
use anycore_pisa.Trap.Steps.{AtTrap}
use anycore_pisa.Trap.Replay.{Replays, handle_trap-Replays}

abbrev buffer : Block
buffer offset = if offset == 5 then 7 else 0

abbrev one_block : Block → Table
one_block block row = if row == 0x1000 then some block else none

abbrev trapped : Block → Thread
trapped block =
    let t = thread_with 7 9 in
    record t { blocked = true; memory = record t.memory { mem_table = one_block block } }

-- A system call that reads two bytes.
abbrev read_two : Thread → Outcome Thread
read_two t =
    let block = update (update buffer 5 1) 6 2 in
    ok (record t {
      regs_r = set (set t.regs_r 2 2) 7 0;
      memory = record t.memory { mem_table = one_block block };
    })

abbrev went_on : Thread
went_on =
    let t = trapped buffer in
    record t {
      regs_r = set (set t.regs_r 2 2) 7 0;
      memory = record t.memory { mem_table = one_block (update (update buffer 5 1) 6 2) };
    }

one_block-SameRows : (b c : Block) → SameRows (one_block b) (one_block c)
one_block-SameRows b c =
    λ k h. elim (Bool-cases (k == 0x1000)) [ inl t ↦ rw t refl | inr f ↦ rw f refl ]

trapped-AtTrap : (b : Block) → AtTrap (trapped b) (trapped b)
trapped-AtTrap b = record {
  num_insn = refl;
  inst_a = refl;
  inst_b = refl;
  regs = λ k e. refl;
  memory = record { rows = λ k h. refl; bytes = λ k j h g. refl };
}

handle_trap-Replays_example :
    (items : List Item) × (v : Thread) × (handle_trap read_two
        (record { thread = trapped buffer; checkpoint_fp = some []; create_checkpoint = true })
      ≡ ok (record {
        thread = went_on;
        checkpoint_fp = some ([] ++ items);
        create_checkpoint = true;
      }))
    × (handle_trap
          (λ t. fail exited)
          (record {
            thread = trapped buffer;
            checkpoint_fp = some (items ++ number 3 ∷ []);
            create_checkpoint = false;
          })
        ≡ ok (record {
          thread = v;
          checkpoint_fp = some (number 3 ∷ []);
          create_checkpoint = false;
        }))
    × Replays (trapped buffer) went_on v
handle_trap-Replays_example =
    handle_trap-Replays read_two (λ t. fail exited) (trapped buffer) went_on (trapped buffer) []
      (number 3 ∷ []) refl refl refl (one_block-SameRows (update (update buffer 5 1) 6 2) buffer)
      (trapped-AtTrap buffer) refl
