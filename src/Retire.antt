-- ===== src/Retire.antt =====
-- simulation/functional-sim/include/Thread.h: the functional simulator runs ahead and fills the debug
-- buffer, and the timing model takes the instructions from it.
pub mod Chain
pub mod Taken
pub mod Begins
pub mod Check
pub mod Lockstep
pub mod Mismatch
mod Tests
use anycore_pisa.Base.{
  ℕ, zero, suc, Bool, true, false, ◌&&◌, not, Option, Outcome, ok, fail, out_of_fuel,
}
use anycore_pisa.Base
use anycore_pisa.Debug
use anycore_pisa.Debug.{DebugBuffer, hungry}
use anycore_pisa.Debug.Fields.{Entry}
use anycore_pisa.Thread.{Thread}
use anycore_pisa.Execute.Run.{Run, pure, gets, modify, ◌>>=◌, ◌>>◌}
use anycore_pisa.Execute.Floating.{Floats}
use anycore_pisa.Execute.Simulate.{func_sim}

-- `while (!blocked && DB->hungry()) func_sim()`, with fuel for its tests.
pub run_ahead : ℕ → Floats → Option ℕ → Run (Unit {0})
run_ahead zero floats limit t = fail out_of_fuel
run_ahead (suc fuel) floats limit t = elim (not t.blocked && hungry t.db) [
  | true ↦ (func_sim floats limit >>= λ _. run_ahead fuel floats limit) t
  | false ↦ ok (tt, t)
]

-- `DB->first(arch_PC)`.
pub first_index : Run ℕ
first_index t = Base.◌>>=◌ (Debug.first t.arch_pc t.db) (λ i. ok (i, t))

-- `DB->pop(i)`, after which `arch_PC` is where the instruction leads.
pub take_entry : ℕ → Run Entry
take_entry i t =
    Base.◌>>=◌ (Debug.pop i t.db) (λ r. ok (r.0, record t { db = r.1; arch_pc = r.0.a_next_pc }))

pub get_instr : ℕ → Floats → Option ℕ → Run Entry
unfolding first_index take_entry
get_instr fuel floats limit = do run_ahead fuel floats limit; i ← first_index; take_entry i

-- The `pop` of class Thread.
unfoldable pub pop : ℕ → Floats → Option ℕ → ℕ → Run Entry
unfolding take_entry
pop fuel floats limit i = do run_ahead fuel floats limit; take_entry i

-- syscall.cc: a thread goes on after its trap is handled.
unfoldable trap_resume : ℕ → Floats → Option ℕ → Run (Unit {0})
trap_resume fuel floats limit = do
  modify (λ t. record t { blocked = false })
  run_ahead fuel floats limit
