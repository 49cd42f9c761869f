-- ===== src/Thread/Forked.antt =====
-- What a forked thread of Thread.h takes over from its master.
use anycore_pisa.Base.{
  ℕ, ◌<◌, ◌^◌, ◌≡◌, refl, ap, ap₂, sym, ◌∙◌, inl, inr, true, false, List, [], length, if◌then◌else◌,
  add32, is_pow2, Outcome, ok, ◌>>=◌, arith,
}
use anycore_pisa.Blocks.{mem_block, mem_table_size, bytes_of, is_inside}
use anycore_pisa.Blocks.Copied.{view-SameBlock}
use anycore_pisa.Blocks.View.{view, written, mem_block_lem}
use anycore_pisa.Debug.{DebugBuffer, debug_buffer}
use anycore_pisa.Debug.Fields.{Entry}
use anycore_pisa.Debug.Inv.{IsValid, contents, debug_buffer-IsValid}
use anycore_pisa.Memory.{Memory, is_shared, store}
use anycore_pisa.Memory.Flat.{flat, IsUniform, stored, store_lem, stored-flat, written_same}
use anycore_pisa.Thread.{Thread, copy, get_arch_reg_value}
use anycore_pisa.Thread.Regs.{HasRegs, copy-get_arch_reg_value}
use anycore_pisa.Thread.Fork.{db_size, fork_table, fork_table-SameBlock, fresh, fork}

-- The thread before its constructor stores the thread id.
abbrev pub copied : Thread → Thread → Thread
copied master t = copy master (record t {
  memory = record t.memory {
    mem_table = fork_table mem_table_size 0 master.memory.mem_table t.memory.mem_table;
  };
})

-- The table of shared blocks is a global variable.
abbrev pub SharesTable : Thread → Thread → Type 0
SharesTable master t = t.memory.shmem_table ≡ master.memory.shmem_table

copied-flat :
    (master t : Thread) (x : ℕ)
    → SharesTable master t
    → x < 2 ^ 31
    → flat (copied master t).memory x ≡ flat master.memory x
unfolding copy
copied-flat master t x s h =
    let block : mem_block x < mem_table_size = omega (arith, mem_block_lem x (omega arith)) in
    ap₂ (λ (a b : ℕ). if is_shared master.memory x then a else b) (ap (λ k. view k x) s)
      (view-SameBlock (fork_table mem_table_size 0 master.memory.mem_table t.memory.mem_table)
        master.memory.mem_table x
        (fork_table-SameBlock master.memory.mem_table t.memory.mem_table (mem_block x) block))

copied-IsUniform :
    (master t : Thread) (addr n : ℕ)
    → IsUniform master.memory addr n
    → IsUniform (copied master t).memory addr n
unfolding copy
copied-IsUniform master t addr n u = u

fork_ok :
    (master t : Thread) (ptr id : ℕ) (entries : List Entry) (m : Memory) (db : DebugBuffer)
    → store (copied master t).memory ptr (bytes_of 4 id) ≡ ok m
    → debug_buffer db_size entries ≡ ok db
    → fork master t ptr id entries ≡ ok (fresh db m (copied master t))
unfolding fork
fork_ok master t ptr id entries m db = ap₂ (λ (o : Outcome Memory) (d : Outcome DebugBuffer). do
  m ← o
  db ← d
  ok (fresh db m (copied master t)))

fresh-get_arch_reg_value :
    (db : DebugBuffer) (m : Memory) (t : Thread) (n : ℕ)
    → get_arch_reg_value (fresh db m t) n ≡ get_arch_reg_value t n
unfolding get_arch_reg_value
fresh-get_arch_reg_value db m t n = refl

copied-get_arch_reg_value :
    (master t : Thread) (n : ℕ)
    → HasRegs master
    → HasRegs t
    → get_arch_reg_value (copied master t) n ≡ get_arch_reg_value master n
copied-get_arch_reg_value master t n h g =
    (copy-get_arch_reg_value master
      (record t {
        memory = record t.memory {
          mem_table = fork_table mem_table_size 0 master.memory.mem_table t.memory.mem_table;
        };
      })
      n h g).0

copied-regs_pc : (master t : Thread) → (copied master t).regs_pc ≡ add32 master.regs_pc 8
unfolding copy
copied-regs_pc master t = refl

fork_size_is_pow2 : is_pow2 db_size ≡ true
unfolding is_pow2
fork_size_is_pow2 = refl

-- What a forked thread has of its master, when the id is stored at an address.
pub record IsForked (master : Thread) (ptr id : ℕ) (t : Thread) : Type 0 where
  pub registers : (n : ℕ) → get_arch_reg_value t n ≡ get_arch_reg_value master n
  pub regs_pc : t.regs_pc ≡ add32 master.regs_pc 8
  pub arch_pc : t.arch_pc ≡ add32 master.regs_pc 8
  pub bytes :
      (x : ℕ) → x < 2 ^ 31 → flat t.memory x ≡ written (bytes_of 4 id) (flat master.memory) ptr x
  pub runs : t.blocked ≡ false
  pub buffer : IsValid t.db × (contents t.db ≡ [])

-- A thread is forked without failure when the address for its id lies in one block and is all shared
-- or all private. It has the master's registers and goes on behind the master's instruction, its
-- memory below 2^31 has the master's bytes, but for the id at that address, and it is not blocked and
-- has an empty debug buffer.
pub fork-IsForked :
    (master t : Thread) (ptr id : ℕ) (entries : List Entry)
    → HasRegs master
    → HasRegs t
    → SharesTable master t
    → length entries ≡ db_size
    → is_inside ptr 4 ≡ true
    → ptr < 2 ^ 31
    → IsUniform master.memory ptr 4
    → (u : Thread) × (fork master t ptr id entries ≡ ok u) × IsForked master ptr id u
fork-IsForked master t ptr id entries h g s e i l u =
    let base = copied master t in
    let m = stored base.memory ptr (bytes_of 4 id) in
    let uniform = copied-IsUniform master t ptr 4 u in
    elim (debug_buffer-IsValid db_size entries (omega arith) (omega arith) e) [
      | inr (f, stop) ↦ let clash : true ≡ false = sym fork_size_is_pow2 ∙ f in absurd cc
      | inl (p, db, made, valid, no_entries, size) ↦ (
        fresh db m base,
        fork_ok master t ptr id entries m db (store_lem base.memory ptr (bytes_of 4 id) i) made,
        record {
          registers =
              λ n. fresh-get_arch_reg_value db m base n ∙ copied-get_arch_reg_value master t n h g;
          regs_pc = copied-regs_pc master t;
          arch_pc = copied-regs_pc master t;
          bytes = λ x below.
              stored-flat base.memory ptr (bytes_of 4 id) x i (omega arith) uniform (omega arith)
              ∙ written_same (bytes_of 4 id) (flat base.memory) (flat master.memory) ptr x
                  (copied-flat master t x s below);
          runs = refl;
          buffer = (valid, no_entries);
        },
      )
    ]
