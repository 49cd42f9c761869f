-- ===== src/Execute.antt =====
-- simulation/functional-sim/libss-vpi/lib.src/func_sim.cc with include/ss.def, ss.h and macros.h: the
-- execution of instructions.
pub mod Run
pub mod Access
pub mod Op
pub mod Multiply
pub mod Integer
pub mod Jumps
pub mod Transfers
pub mod Floating
pub mod Semantics
pub mod Flags
pub mod Operands
pub mod Notes
pub mod Simulate
pub mod Keeps
pub mod Frame
pub mod Closed
pub mod Built
pub mod Alike
pub mod Plain
pub mod Noted
pub mod Fast
pub mod Trace
pub mod Reported
pub mod Traced
pub mod Counted
pub mod Skip
pub mod Samples
pub mod Overflow
pub mod Reread
pub mod Product
mod Tests
