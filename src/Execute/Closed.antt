-- ===== src/Execute/Closed.antt =====
-- The ways in which ss.def builds its expressions: a property of actions that holds of every access of
-- the state, and of what is built from them, holds of every instruction.
use anycore_pisa.Base.{ℕ, Bool, Outcome, ok, ◌>>=◌, if◌then◌else◌, true, false, Failure}
use anycore_pisa.Debug.Fields.{Inst}
use anycore_pisa.Execute.Run
use anycore_pisa.Execute.Run.{Run, pure, stop}
use anycore_pisa.Execute.Access.{
  gpr, set_gpr, fpr_l, set_fpr_l, hi, set_hi, lo, set_lo, fcc, set_fcc, cpc, set_npc, read_bytes_of,
  write_bytes_of,
}
use anycore_pisa.Execute.Semantics.{trap_stop}

abbrev pub Property : Type 1
Property = (A : Type 0) → Run A → Type 0

pub record Meets {A : Type 0} (Q : Property) (m : Run A) : Type 0 where
  pub holds : Q A m

pub record Closed (Q : Property) : Type 1 where
  pub of_pure : {A : Type 0} (a : A) → Q A (pure a)
  pub of_stop : {A : Type 0} (x : Failure) → Q A (stop {A = A} x)
  pub of_bind :
      {A B : Type 0} (m : Run A) (f : A → Run B)
      → Q A m
      → ((a : A) → Q B (f a))
      → Q B (Run.◌>>=◌ m f)
  pub of_lift : {A : Type 0} (o : Outcome A) → Q A (λ t. o >>= λ a. ok (a, t))
  pub of_gpr : (n : ℕ) → Q ℕ (gpr n)
  pub of_set_gpr : (n v : ℕ) → Q (Unit {0}) (set_gpr n v)
  pub of_fpr_l : (n : ℕ) → Q ℕ (fpr_l n)
  pub of_set_fpr_l : (n v : ℕ) → Q (Unit {0}) (set_fpr_l n v)
  pub of_hi : Q ℕ hi
  pub of_set_hi : (v : ℕ) → Q (Unit {0}) (set_hi v)
  pub of_lo : Q ℕ lo
  pub of_set_lo : (v : ℕ) → Q (Unit {0}) (set_lo v)
  pub of_fcc : Q ℕ fcc
  pub of_set_fcc : (b : Bool) → Q (Unit {0}) (set_fcc b)
  pub of_cpc : Q ℕ cpc
  pub of_set_npc : (v : ℕ) → Q (Unit {0}) (set_npc v)
  pub of_read : (n addr : ℕ) → Q ℕ (read_bytes_of n addr)
  pub of_write : (n v addr : ℕ) → Q (Unit {0}) (write_bytes_of n v addr)
  pub of_trap_stop : (inst : Inst) → Q (Unit {0}) (trap_stop inst)

module _ {Q : Property} (c : Closed Q) where
  pub Meets-pure : {A : Type 0} (a : A) → Meets Q (pure a)
  Meets-pure a = record { holds = c.of_pure a }

  pub Meets-stop : {A : Type 0} (x : Failure) → Meets Q (stop {A = A} x)
  Meets-stop x = record { holds = c.of_stop x }

  pub Meets-bind :
      {A B : Type 0} (m : Run A) (f : A → Run B)
      → Meets Q m
      → ((a : A) → Meets Q (f a))
      → Meets Q (Run.◌>>=◌ m f)
  Meets-bind m f h g = record { holds = c.of_bind m f h.holds (λ a. (g a).holds) }

  pub Meets-if :
      {A : Type 0} (b : Bool) (m n : Run A) → Meets Q m → Meets Q n → Meets Q (if b then m else n)
  Meets-if true m n h g = h
  Meets-if false m n h g = g

  pub Meets-lift : {A : Type 0} (o : Outcome A) → Meets Q (λ t. o >>= λ a. ok (a, t))
  Meets-lift o = record { holds = c.of_lift o }

  pub Meets-gpr : (n : ℕ) → Meets Q (gpr n)
  Meets-gpr n = record { holds = c.of_gpr n }

  pub Meets-set_gpr : (n v : ℕ) → Meets Q (set_gpr n v)
  Meets-set_gpr n v = record { holds = c.of_set_gpr n v }

  pub Meets-fpr_l : (n : ℕ) → Meets Q (fpr_l n)
  Meets-fpr_l n = record { holds = c.of_fpr_l n }

  pub Meets-set_fpr_l : (n v : ℕ) → Meets Q (set_fpr_l n v)
  Meets-set_fpr_l n v = record { holds = c.of_set_fpr_l n v }

  pub Meets-hi : Meets Q hi
  Meets-hi = record { holds = c.of_hi }

  pub Meets-set_hi : (v : ℕ) → Meets Q (set_hi v)
  Meets-set_hi v = record { holds = c.of_set_hi v }

  pub Meets-lo : Meets Q lo
  Meets-lo = record { holds = c.of_lo }

  pub Meets-set_lo : (v : ℕ) → Meets Q (set_lo v)
  Meets-set_lo v = record { holds = c.of_set_lo v }

  pub Meets-fcc : Meets Q fcc
  Meets-fcc = record { holds = c.of_fcc }

  pub Meets-set_fcc : (b : Bool) → Meets Q (set_fcc b)
  Meets-set_fcc b = record { holds = c.of_set_fcc b }

  pub Meets-cpc : Meets Q cpc
  Meets-cpc = record { holds = c.of_cpc }

  pub Meets-set_npc : (v : ℕ) → Meets Q (set_npc v)
  Meets-set_npc v = record { holds = c.of_set_npc v }

  pub Meets-read : (n addr : ℕ) → Meets Q (read_bytes_of n addr)
  Meets-read n addr = record { holds = c.of_read n addr }

  pub Meets-write : (n v addr : ℕ) → Meets Q (write_bytes_of n v addr)
  Meets-write n v addr = record { holds = c.of_write n v addr }

pub ruleset access_rules = (
  Meets-pure, Meets-stop, Meets-bind, Meets-if, Meets-gpr, Meets-set_gpr, Meets-fpr_l,
  Meets-set_fpr_l, Meets-hi, Meets-set_hi, Meets-lo, Meets-set_lo, Meets-fcc, Meets-set_fcc,
  Meets-cpc, Meets-set_npc, Meets-read, Meets-write,
)
