-- ===== src/Thread/Tests.antt =====
-- A thread with a small program loaded.
use anycore_pisa.Base.{
  ℕ, ◌+◌, ◌*◌, ◌/◌, ◌≡◌, refl, false, ◌==◌, if◌then◌else◌, [], replicate, none, some, ◌<◌, ◌%◌, ◌^◌,
  AllBelow-replicate, ok, arith, length-replicate,
}
use anycore_pisa.Blocks.{word_of}
use anycore_pisa.Blocks.View.{span, view}
use anycore_pisa.Memory.{Memory}
use anycore_pisa.Memory.Flat.{flat, IsUniform}
use anycore_pisa.Thread.{Thread, get_arch_mem_value}
use anycore_pisa.Thread.Regs.{HasRegs}
use anycore_pisa.Debug.Inv.{blank}
use anycore_pisa.Thread.Decode.{decode}
use anycore_pisa.Thread.Decoded.{decoded_view, decode-decoded_view}
use anycore_pisa.Thread.Fork.{db_size, fork}
use anycore_pisa.Thread.Forked.{IsForked, fork-IsForked}
use anycore_pisa.Thread.Arch.{get_arch_mem_value-flat}

abbrev loaded : Memory
loaded = record {
  mem_table = λ i. none;
  shmem_table = λ i. none;
  shmem_base = 0;
  shmem_end = 0;
  n_shared_acc = 0;
  n_shared_new = 0;
  n_private_acc = 0;
  n_private_new = 0;
  ld_text_base = 0x400000;
  ld_text_size = 0x1000;
  ld_data_base = 0x10000000;
  ld_data_size = 0x1234;
  ld_stack_base = 0x7fffc000;
  mem_brk_point = 0x10002000;
  mem_stack_min = 0x7fffc000;
}

-- Every integer register holds `r`, and every floating-point register `f`.
abbrev pub thread_with : ℕ → ℕ → Thread
thread_with r f = record {
  memory = loaded;
  ld_stack_size = 0x4000;
  ld_prog_entry = 0x400140;
  ld_environ_base = 0x7fff8000;
  blocked = false;
  lockaddr = 0;
  regs_r = replicate 32 r;
  regs_f_l = replicate 32 f;
  regs_hi = 5;
  regs_lo = 6;
  regs_fcc = 1;
  regs_pc = 0x400140;
  next_pc = 0x400148;
  db = record {
    debug_size = 0;
    active_size = 0;
    db = [];
    head = 0;
    tail = 0;
    length = 0;
    pc_ptr = 0;
  };
  arch_pc = 0x400140;
  n_shared_tas = 0;
  n_shared_tas_succeed = 0;
  n_private_tas = 0;
  n_private_tas_succeed = 0;
  real_upper = 0;
  real_lower = 0;
  store_addr = 0;
  trap_inst = record { a = 0; b = 0 };
  hardware_counters = replicate 8 3;
  num_insn = 100;
  num_refs = 0;
}

pub thread_with-HasRegs : (r f : ℕ) → HasRegs (thread_with r f)
thread_with-HasRegs r f = (refl, refl)

loaded-IsUniform : (addr n : ℕ) → IsUniform loaded addr n
loaded-IsUniform addr n i h = ground arith

get_arch_mem_value-flat_example :
    (q : Memory) × (get_arch_mem_value loaded 0x1000000d
      ≡ ok (
        q,
        word_of (span 4 (flat loaded) (0x1000000d / 8 * 8 + 4)),
        word_of (span 4 (flat loaded) (0x1000000d / 8 * 8)),
      ))
    × ((x : ℕ) → flat q x ≡ flat loaded x)
get_arch_mem_value-flat_example =
    get_arch_mem_value-flat loaded 0x1000000d (omega arith, omega arith) (omega arith) refl
      (loaded-IsUniform 0x10000008 8)

fork-IsForked_example :
    (u : Thread) × (fork (thread_with 7 9) (thread_with 0 0) 0x10000040 3 (replicate db_size blank)
      ≡ ok u)
    × IsForked (thread_with 7 9) 0x10000040 3 u
fork-IsForked_example =
    fork-IsForked (thread_with 7 9) (thread_with 0 0) 0x10000040 3 (replicate db_size blank)
      (thread_with-HasRegs 7 9) (thread_with-HasRegs 0 0) refl (length-replicate db_size blank) refl
      (omega arith) (loaded-IsUniform 0x10000040 4)

-- A text segment whose blocks all hold the same bytes.
abbrev with_text : Thread
with_text = record (thread_with 7 9) {
  memory = record loaded { mem_table = λ i. some (λ o. if (o % 8) == 0 then 0x43 else 0) };
}

decode-decoded_view_example :
    (u : Thread) × (decode 513 (replicate 256 5) false with_text ≡ ok u)
    × ((x : ℕ)
        → x < 2 ^ 32
        → view u.memory.mem_table x
          ≡ decoded_view (replicate 256 5) (view with_text.memory.mem_table) 0x400000 0x401000 x)
    × (u.arch_pc ≡ 0x400140)
    × (u.regs_pc ≡ 0x400140)
    × (u.next_pc ≡ 0x400148)
decode-decoded_view_example =
    decode-decoded_view (replicate 256 5) with_text (length-replicate {A = ℕ} 256 5)
      (AllBelow-replicate 256 256 5 (omega arith)) refl refl (omega arith) (λ x g h. (_, refl))
      (λ x h. ground arith)
