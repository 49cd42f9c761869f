-- ===== src/Lib.antt =====
-- The functional simulator of AnyCore for the PISA instruction set, and the memory of its RTL test
-- bench: a model of the C++ code in simulation/functional-sim, with proofs. Paths below are relative
-- to that directory.
--
-- The program. A thread (include/Thread.h) holds the registers and the memory of a simulated program.
-- It executes one instruction after another ahead of the timing model (the RTL model, behind vpi/src),
-- and records each of them in the debug buffer (include/debug.h). The test bench takes the entries out
-- of the buffer, in order, when the RTL model retires the same instructions, and compares the two. It
-- has its own copy of the memory (vpi/include/veri_memory.h). Beside that stand a branch predictor
-- (include/gshare_predictor.h), the decoder of instruction words (include/ss.h, include/ss.def,
-- libss-vpi/lib.src/ss.cc), and checkpoints of a thread in files (libss-vpi/lib.src/func_sim.cc).
--
-- The files, each with the modules below it:
--   Base         shared helpers: tests on numbers, C arrays as lists, the outcome of C code, 32-bit
--                words, bit operations as arithmetic, positions in a ring
--   Debug        include/debug.h, include/operand.h, include/common.h: class debug_buffer
--   Isa          include/ss.h: the fields of an instruction; Isa/Decoder: ss_init_decoder
--   Predictor    include/gshare_predictor.h: class gshare_predictor
--   Blocks       the two-level tables of memory blocks, which memory.h and veri_memory_macros.h share,
--                and their view as a flat array of bytes
--   Memory       include/memory.h, libss-vpi/lib.src/memory.cc: accesses of a thread's memory
--   Unaligned    include/I_hate_these_instructions.h: the macros for LWL, LWR, SWL and SWR
--   VeriMemory   vpi/include/veri_memory.h, vpi/src/veri_memory.cc: class veri_memory
--   Misc         libss-vpi/lib.src/misc.cc: log_base2 and elapsed_time
--   Thread       include/Thread.h, libss-vpi/lib.src/regs.cc and arch.cc: the state of a thread, its
--                registers, a forked thread, and decode
--   Checkpoint   include/checkpoint.h, libss-vpi/lib.src/func_sim.cc: save and restore
--   Execute      include/ss.def, include/macros.h, libss-vpi/lib.src/func_sim.cc: the instructions with the
--                operands that they report, func_sim, func_sim_fast and skip
--   Retire       include/Thread.h: run_ahead, get_instr and pop; vpi/src/checkRetireInst.cpp and
--                getRetireInstPC.cpp: the comparison with the RTL model
--   Trap         libss-vpi/lib.src/syscall.cc: trap_now, save_trap and restore_trap
-- A module Tests holds concrete runs.
--
-- How the code is modelled. A class or a struct is a record with the source's fields, and a member
-- function is a function from the state to the new state and the result. Whatever may stop the program
-- returns an Outcome: `aborted` is a failed assert, a call of fatal or of panic, and `undefined` is
-- behaviour that C leaves undefined, such as an index out of range or a null pointer. The Makefile
-- compiles with -m32 and for little-endian hosts, so unsigned numbers are natural numbers with their
-- wrap-around at 2^32 written out, and a signed word is modelled by the word of its bits. Simulated
-- memory is a function from the number of a block to the block, if it is allocated, and a block is a
-- function from offsets to bytes.
--
-- Loops over a counter are recursion on the number of rounds left. Five loops have fuel. The search of
-- the debug buffer (debug_buffer::find) needs no more fuel than there are entries in the buffer from
-- the index on, and a result of the list says when no fuel is enough. The loop over the text segment
-- (Thread::decode) needs one round for each instruction and one more, and the loop of log_base2 has 31
-- rounds, one for each bit of a positive int; their results say that this is enough. The loop of mem_strcpy is
-- recursion on the object that it copies from or to, whose end the source does not check.
--
-- run_ahead has fuel for its tests, one for each free entry of the debug buffer and one more, and a result
-- says that this is enough. The loop of skip has fuel for one test of each instruction and one more, and
-- a result says that this is enough.
--
-- An instruction is an action on the state of a thread (Execute/Run): it may stop the program, and it may
-- return a value. The arithmetic of the host on float and double is a parameter, the record Floats, whose
-- functions work on the bits of the operands. What ss_syscall does to a thread is an argument of trap_now
-- and save_trap. The test of FLAGS in func_sim is modelled as
-- the preprocessor expands it, without parentheses (Execute/Flags). A switch on an opcode without a case
-- falls through, as in the source; the results about
-- func_sim have the hypothesis that the opcode has a case.
--
-- What is not modelled: printing and statistics output; the loader of ECOFF files and the bodies of the
-- system calls, which work on files of the host; and most VPI routines, which pass arguments between the
-- RTL simulator and the functions here. Where the code reads memory that it has not set, such as the storage of a new
-- array, what is there is an argument of the model.
pub mod Base
pub mod Debug
pub mod Blocks
pub mod Isa
pub mod Predictor
pub mod Memory
pub mod Unaligned
pub mod VeriMemory
pub mod Misc
pub mod Thread
pub mod Checkpoint
pub mod Execute
pub mod Retire
pub mod Trap
