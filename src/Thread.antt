-- ===== src/Thread.antt =====
-- simulation/functional-sim/include/Thread.h with libss-vpi/lib.src/regs.cc and arch.cc: the state of
-- a simulated thread, and the operations on it that do not execute instructions.
pub mod Regs
pub mod Arch
pub mod Fork
pub mod Forked
pub mod Decode
pub mod Decoded
pub mod Tests
use anycore_pisa.Base.{
  ℕ, zero, suc, ◌+◌, ◌-◌, bit_and, bit_or, Bool, true, false, ◌&&◌, ◌||◌, Option, none, some, List,
  [], ◌∷◌, ltb, leb, ◌==◌, if◌then◌else◌, length, get_or, set, replicate, add32, sub32, not32,
  Outcome, ok, fail, aborted, ◌>>=◌, ◌>>◌, assert, at,
}
use anycore_pisa.Blocks.{Block, Table, word_of, bytes_of, unchk_read_bytes, update}
use anycore_pisa.Debug.{DebugBuffer}
use anycore_pisa.Debug.Fields.{Inst, Entry}
use anycore_pisa.Isa.{inst_of, ss_inst_size}
use anycore_pisa.Memory.{Memory, load}

pub record Thread : Type 0 where
  pub memory : Memory
  pub ld_stack_size : ℕ
  pub ld_prog_entry : ℕ
  pub ld_environ_base : ℕ
  pub blocked : Bool
  pub lockaddr : ℕ
  pub regs_r : List ℕ
  pub regs_f_l : List ℕ
  pub regs_hi : ℕ
  pub regs_lo : ℕ
  pub regs_fcc : ℕ
  pub regs_pc : ℕ
  pub next_pc : ℕ
  pub db : DebugBuffer
  pub arch_pc : ℕ
  pub n_shared_tas : ℕ
  pub n_shared_tas_succeed : ℕ
  pub n_private_tas : ℕ
  pub n_private_tas_succeed : ℕ
  pub real_upper : ℕ
  pub real_lower : ℕ
  pub store_addr : ℕ
  pub trap_inst : Inst
  pub hardware_counters : List ℕ
  pub num_insn : ℕ
  pub num_refs : ℕ

abbrev pub ss_num_regs : ℕ
ss_num_regs = 32

abbrev pub fpr_base : ℕ
fpr_base = 32

abbrev pub hi_id : ℕ
hi_id = 64

abbrev pub lo_id : ℕ
lo_id = 65

abbrev pub fcc_id : ℕ
fcc_id = 66

-- The loop that clears both register files, for `count` registers from `i` on.
pub clear_words : ℕ → ℕ → List ℕ → List ℕ
clear_words zero i words = words
clear_words (suc count) i words = clear_words count (i + 1) (set words i 0)

pub regs_init : Thread → Thread
unfolding clear_words
regs_init t = record t {
  regs_r = clear_words ss_num_regs 0 t.regs_r;
  regs_f_l = clear_words ss_num_regs 0 t.regs_f_l;
  regs_hi = 0;
  regs_lo = 0;
  regs_fcc = 0;
  regs_pc = 0;
}

-- arch.cc: a register by its number among the integer, floating-point and special registers.
pub get_arch_reg_value : Thread → ℕ → Outcome ℕ
get_arch_reg_value t n =
    if ltb n fpr_base
    then at t.regs_r n
    else if ltb n hi_id
    then at t.regs_f_l (n - fpr_base)
    else if n == hi_id
    then ok t.regs_hi
    else if n == lo_id
    then ok t.regs_lo
    else if n == fcc_id
    then ok t.regs_fcc
    else fail aborted

abbrev pub is_mapped : Memory → ℕ → Bool
is_mapped m addr =
    (leb m.ld_text_base addr && ltb addr (add32 m.ld_text_base m.ld_text_size))
    || (leb m.ld_data_base addr && ltb addr m.ld_stack_base)

-- The memory after the two accesses, with the upper and the lower word.
unfoldable pub get_arch_mem_value : Memory → ℕ → Outcome (Memory × ℕ × ℕ)
get_arch_mem_value m n =
    if is_mapped m (bit_and n (not32 7))
    then (do
      (m', upper) ← load 4 m (add32 (bit_and n (not32 7)) 4)
      (m'', lower) ← load 4 m' (bit_and n (not32 7))
      ok (m'', word_of upper, word_of lower))
    else ok (m, 0, 0)

abbrev pub num_hw_counters : ℕ
num_hw_counters = 8

unfoldable reset_hw_counter : Thread → ℕ → Outcome Thread
reset_hw_counter t ctr = do
  assert (ltb ctr num_hw_counters)
  ok (record t { hardware_counters = set t.hardware_counters ctr 0 })

pub read_hw_counter : Thread → ℕ → Outcome ℕ
read_hw_counter t ctr = do assert (ltb ctr num_hw_counters); at t.hardware_counters ctr

pub increment_hw_counter : Thread → ℕ → Outcome Thread
increment_hw_counter t ctr = do
  assert (ltb ctr num_hw_counters)
  old ← at t.hardware_counters ctr
  ok (record t { hardware_counters = set t.hardware_counters ctr (add32 old 1) })

-- NOP is the opcode with the number 1.
unfoldable pub fetch : Thread → ℕ → Outcome Inst
fetch t pc =
    if ltb pc t.memory.ld_text_base || ltb (add32 t.memory.ld_text_base t.memory.ld_text_size) pc
    then ok (record { a = 1; b = 0 })
    else (do
      bytes ← unchk_read_bytes t.memory.mem_table (bit_and pc (not32 7)) 8
      ok (inst_of bytes))

-- The loops over words and blocks that copy state, for `count` of them from `i` on.
pub copy_words : ℕ → ℕ → List ℕ → List ℕ → List ℕ
copy_words zero i from to = to
copy_words (suc count) i from to = copy_words count (i + 1) from (set to i (get_or from i 0))

-- `copy`, with the thread whose fields the references of its arguments are. The new thread goes on
-- behind the instruction that the master is executing.
pub copy : Thread → Thread → Thread
unfolding copy_words
copy master t = record t {
  memory = record t.memory {
    ld_text_base = master.memory.ld_text_base;
    ld_text_size = master.memory.ld_text_size;
    ld_data_base = master.memory.ld_data_base;
    ld_data_size = master.memory.ld_data_size;
    ld_stack_base = master.memory.ld_stack_base;
    mem_brk_point = master.memory.mem_brk_point;
    mem_stack_min = master.memory.mem_stack_min;
    shmem_base = master.memory.shmem_base;
    shmem_end = master.memory.shmem_end;
  };
  ld_stack_size = master.ld_stack_size;
  ld_prog_entry = master.ld_prog_entry;
  ld_environ_base = master.ld_environ_base;
  regs_r = copy_words ss_num_regs 0 master.regs_r t.regs_r;
  regs_f_l = copy_words ss_num_regs 0 master.regs_f_l t.regs_f_l;
  regs_hi = master.regs_hi;
  regs_lo = master.regs_lo;
  regs_fcc = master.regs_fcc;
  regs_pc = add32 master.regs_pc ss_inst_size;
  next_pc = add32 (add32 master.regs_pc ss_inst_size) ss_inst_size;
}
