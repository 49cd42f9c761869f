-- ===== src/Trap/Replay.antt =====
-- A trap that save_trap of syscall.cc records, and restore_trap replays.
use anycore_pisa.Base.{
  ℕ, ◌+◌, ◌<◌, ◌≡◌, refl, sym, ap, ◌∙◌, Bool, true, false, ◌&&◌, Bool-cases, inl, inr, Option, none,
  some, List, ◌∷◌, ◌++◌, length, ltb, leb, if◌then◌else◌, get_or, Outcome, ok, arith,
}
use anycore_pisa.Blocks.{Block, block_or_new, Table, mem_table_size, mem_block_size}
use anycore_pisa.Thread.{Thread, ss_num_regs}
use anycore_pisa.Checkpoint.{Item, number}
use anycore_pisa.Trap.{
  trap_regs, reg_items, before_items, save_trap, apply_items, restore_trap, handle_trap,
}
use anycore_pisa.Trap.Differences.{is_some, SameRows}
use anycore_pisa.Trap.Rows.{rows_lem}
use anycore_pisa.Trap.Registers.{elem, merged, merged_lem}
use anycore_pisa.Trap.Steps.{
  SameMemory, AtTrap, replayed, written_lem, save_trap_lem, restore_trap_lem, replay_lem,
}

plus_zero : (n : ℕ) → n ≡ n + 0
plus_zero n = omega arith

apply_none : (table : Table) (rest : List Item) → apply_items 0 table rest ≡ ok (table, rest)
unfolding apply_items
apply_none table rest = refl

no_block : (o : Option Block) (j : ℕ) → is_some o ≡ false → block_or_new o j ≡ 0
no_block none j h = refl
no_block (some block) j h = absurd cc

in_table :
    (k j x y : ℕ) (p : Bool)
    → k < mem_table_size
    → j < mem_block_size
    → p ≡ true
    → (if leb 0 k && ltb k (0 + mem_table_size) && (p && ltb j mem_block_size) then x else y) ≡ x
in_table k j x y p h g e = ground arith

-- What replaying a trap leaves: the registers of system calls and the memory of the thread that went
-- on, and the rest as it was.
pub record Replays (u t' v : Thread) : Type 0 where
  pub regs :
      (k : ℕ)
      → k < ss_num_regs
      → get_or v.regs_r k 0
        ≡ (if elem k trap_regs then get_or t'.regs_r k 0 else get_or u.regs_r k 0)
  pub memory : SameMemory v t'
  pub others : (regs : List ℕ) × (table : Table) × (v ≡ replayed u regs table)

save_trap-restore_trap :
    (ss_syscall : Thread → Outcome Thread) (t t' u : Thread) (file rest : List Item)
    → ss_syscall t ≡ ok t'
    → SameRows t'.memory.mem_table t.memory.mem_table
    → AtTrap u t
    → length u.regs_r ≡ ss_num_regs
    → (items : List Item) × (v : Thread) × (save_trap ss_syscall
          (record { thread = t; checkpoint_fp = some file; create_checkpoint = true })
        ≡ ok (record {
          thread = t';
          checkpoint_fp = some (file ++ items);
          create_checkpoint = true;
        }))
      × (restore_trap
            (record { thread = u; checkpoint_fp = some (items ++ rest); create_checkpoint = false })
          ≡ ok (record { thread = v; checkpoint_fp = some rest; create_checkpoint = false }))
      × Replays u t' v
save_trap-restore_trap ss_syscall t t' u file rest called same a size =
    let new = t'.memory.mem_table in
    let old = t.memory.mem_table in
    let (count, items, table, counted, made, applies, has, bytes) =
      rows_lem mem_table_size 0 new old u.memory.mem_table (omega arith) same a.memory.rows
        (λ k j _ h g. a.memory.bytes k j h g) in
    let regs = merged trap_regs u.regs_r t'.regs_r in
    let read : apply_items count u.memory.mem_table (items ++ rest) ≡ ok (table, rest) =
      ap (λ n. apply_items n u.memory.mem_table (items ++ rest)) (plus_zero count)
      ∙ applies 0 rest
      ∙ apply_none table rest in
    (
      before_items t ++ (reg_items trap_regs t'.regs_r ++ number count ∷ items),
      replayed u regs table,
      save_trap_lem ss_syscall t t' file _ called (written_lem t t' count items counted made),
      restore_trap_lem u (replayed u regs table) _ rest
          (replay_lem u t t' count table items rest a read),
      record {
        regs = λ k h. merged_lem trap_regs u.regs_r t'.regs_r k (omega (arith, h, size));
        memory = record {
          rows = λ k h. has k ∙ a.memory.rows k h ∙ sym (same k h);
          bytes = λ k j h g. elim (Bool-cases (is_some (new k))) [
            | inl there ↦ bytes k j ∙ in_table k j _ _ _ h g there
            | inr none_there ↦
                no_block (table k) j (has k ∙ a.memory.rows k h ∙ sym (same k h) ∙ none_there)
                ∙ sym (no_block (new k) j none_there)
          ];
        };
        others = (regs, table, refl);
      },
    )

handle_trap-saves :
    (ss_syscall : Thread → Outcome Thread) (t : Thread) (file : List Item)
    → t.blocked ≡ true
    → handle_trap ss_syscall
        (record { thread = t; checkpoint_fp = some file; create_checkpoint = true })
      ≡ save_trap ss_syscall
          (record { thread = t; checkpoint_fp = some file; create_checkpoint = true })
unfolding handle_trap
handle_trap-saves ss_syscall t file h = rw h refl

handle_trap-restores :
    (ss_syscall : Thread → Outcome Thread) (t : Thread) (file : List Item)
    → t.blocked ≡ true
    → handle_trap ss_syscall
        (record { thread = t; checkpoint_fp = some file; create_checkpoint = false })
      ≡ restore_trap (record { thread = t; checkpoint_fp = some file; create_checkpoint = false })
unfolding handle_trap
handle_trap-restores ss_syscall t file h = rw h refl

-- trap_now of a blocked thread while a checkpoint is made, and of another blocked thread while one is
-- restored, where the system call allocates no block and frees none. The first call saves the trap
-- behind the file. If the second thread is at the same trap, with the same seven registers and the
-- same memory, the second call reads the trap from the file, whatever its own system call would do: it
-- restores those registers and the memory as they were after the first system call. Every other
-- register keeps its value and every other field stays as it was.
pub handle_trap-Replays :
    (ss_syscall other_syscall : Thread → Outcome Thread) (t t' u : Thread) (file rest : List Item)
    → t.blocked ≡ true
    → u.blocked ≡ true
    → ss_syscall t ≡ ok t'
    → SameRows t'.memory.mem_table t.memory.mem_table
    → AtTrap u t
    → length u.regs_r ≡ ss_num_regs
    → (items : List Item) × (v : Thread) × (handle_trap ss_syscall
          (record { thread = t; checkpoint_fp = some file; create_checkpoint = true })
        ≡ ok (record {
          thread = t';
          checkpoint_fp = some (file ++ items);
          create_checkpoint = true;
        }))
      × (handle_trap other_syscall
            (record { thread = u; checkpoint_fp = some (items ++ rest); create_checkpoint = false })
          ≡ ok (record { thread = v; checkpoint_fp = some rest; create_checkpoint = false }))
      × Replays u t' v
handle_trap-Replays ss_syscall other_syscall t t' u file rest h g called same a size =
    let (items, v, saved, restored, replays) =
      save_trap-restore_trap ss_syscall t t' u file rest called same a size in
    (
      items,
      v,
      handle_trap-saves ss_syscall t file h ∙ saved,
      handle_trap-restores other_syscall u (items ++ rest) g ∙ restored,
      replays,
    )
