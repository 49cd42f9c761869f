-- ===== src/Trap/Steps.antt =====
-- save_trap and restore_trap of syscall.cc, step by step.
use anycore_pisa.Base.{
  ℕ, ◌<◌, ◌≡◌, refl, ap, ◌∙◌, true, false, ◌&&◌, some, List, ◌∷◌, ◌++◌, append_assoc, ◌==◌, Outcome,
  ok, arith,
}
use anycore_pisa.Blocks.{Table, mem_table_size, mem_block_size}
use anycore_pisa.Thread.{Thread}
use anycore_pisa.Checkpoint.{Item, number, counter}
use anycore_pisa.Trap.{
  trap_regs, reg_items, before_items, written, save_trap, check_regs, load_regs, count_rows,
  table_items, apply_items, replay_memory, replay, restore_trap,
}
use anycore_pisa.Trap.Differences.{byte_at, SameRows}
use anycore_pisa.Trap.Registers.{AgreeOn, merged, check_regs-reg_items, load_regs-reg_items}

-- Two threads whose memory has the same blocks.
pub record SameMemory (u t : Thread) : Type 0 where
  pub rows : SameRows u.memory.mem_table t.memory.mem_table
  pub bytes :
      (k j : ℕ)
      → k < mem_table_size
      → j < mem_block_size
      → byte_at u.memory.mem_table k j ≡ byte_at t.memory.mem_table k j

-- A thread that is at the trap of another.
pub record AtTrap (u t : Thread) : Type 0 where
  pub num_insn : u.num_insn ≡ t.num_insn
  pub inst_a : u.trap_inst.a ≡ t.trap_inst.a
  pub inst_b : u.trap_inst.b ≡ t.trap_inst.b
  pub regs : AgreeOn trap_regs u.regs_r t.regs_r
  pub memory : SameMemory u t

abbrev pub replayed : Thread → List ℕ → Table → Thread
replayed u regs table = record u { regs_r = regs; memory = record u.memory { mem_table = table } }

pub written_lem :
    (t t' : Thread) (count : ℕ) (items : List Item)
    → count_rows mem_table_size 0 t'.memory.mem_table t.memory.mem_table ≡ ok count
    → table_items mem_table_size 0 t'.memory.mem_table t.memory.mem_table ≡ ok items
    → written t t' ≡ ok (before_items t ++ (reg_items trap_regs t'.regs_r ++ number count ∷ items))
unfolding written
written_lem t t' count items h g = rw (h, g) refl

pub save_trap_lem :
    (ss_syscall : Thread → Outcome Thread) (t t' : Thread) (file items : List Item)
    → ss_syscall t ≡ ok t'
    → written t t' ≡ ok items
    → save_trap ss_syscall
        (record { thread = t; checkpoint_fp = some file; create_checkpoint = true })
      ≡ ok (record { thread = t'; checkpoint_fp = some (file ++ items); create_checkpoint = true })
unfolding save_trap
save_trap_lem ss_syscall t t' file items h g = rw (h, g) refl

pub restore_trap_lem :
    (u v : Thread) (file rest : List Item)
    → replay u file ≡ ok (v, rest)
    → restore_trap (record { thread = u; checkpoint_fp = some file; create_checkpoint = false })
      ≡ ok (record { thread = v; checkpoint_fp = some rest; create_checkpoint = false })
unfolding restore_trap
restore_trap_lem u v file rest h = rw h refl

replay_memory_lem :
    (u : Thread) (count : ℕ) (table : Table) (file rest : List Item)
    → apply_items count u.memory.mem_table file ≡ ok (table, rest)
    → replay_memory u (number count ∷ file)
      ≡ ok (record u { memory = record u.memory { mem_table = table } }, rest)
unfolding replay_memory
replay_memory_lem u count table file rest h = rw h refl

replay-checked :
    (u : Thread) (n a b : ℕ) (file rest rest' : List Item) (regs : List ℕ) (r : Thread × List Item)
    → (n == u.num_insn && (a == u.trap_inst.a && b == u.trap_inst.b)) ≡ true
    → check_regs trap_regs u.regs_r file ≡ ok (true, rest)
    → load_regs trap_regs u.regs_r rest ≡ ok (regs, rest')
    → replay_memory (record u { regs_r = regs }) rest' ≡ ok r
    → replay u (counter n ∷ number a ∷ number b ∷ file) ≡ ok r
unfolding replay
replay-checked u n a b file rest rest' regs r same checked loaded read =
    rw (same, checked, loaded) read

same_trap :
    (n n' a a' b b' : ℕ) → n' ≡ n → a' ≡ a → b' ≡ b → (n == n' && (a == a' && b == b')) ≡ true
same_trap n n' a a' b b' e f g = ground arith

pub replay_lem :
    (u t t' : Thread) (count : ℕ) (table : Table) (items rest : List Item)
    → AtTrap u t
    → apply_items count u.memory.mem_table (items ++ rest) ≡ ok (table, rest)
    → replay u ((before_items t ++ (reg_items trap_regs t'.regs_r ++ number count ∷ items)) ++ rest)
      ≡ ok (replayed u (merged trap_regs u.regs_r t'.regs_r) table, rest)
replay_lem u t t' count table items rest a h =
    let regs = merged trap_regs u.regs_r t'.regs_r in
    let last = number count ∷ (items ++ rest) in
    let before = reg_items trap_regs t.regs_r in
    let after = reg_items trap_regs t'.regs_r in
    ap (replay u) (
      append_assoc (before_items t) (after ++ number count ∷ items) rest
      ∙ ap (λ xs. before_items t ++ xs) (append_assoc after (number count ∷ items) rest))
    ∙ replay-checked u t.num_insn t.trap_inst.a t.trap_inst.b (before ++ (after ++ last))
        (after ++ last) last regs (replayed u regs table, rest)
        (same_trap t.num_insn u.num_insn t.trap_inst.a u.trap_inst.a t.trap_inst.b u.trap_inst.b
          a.num_insn a.inst_a a.inst_b)
        (check_regs-reg_items trap_regs u.regs_r t.regs_r (after ++ last) a.regs)
        (load_regs-reg_items trap_regs u.regs_r t'.regs_r last)
        (replay_memory_lem (record u { regs_r = regs }) count table (items ++ rest) rest h)
