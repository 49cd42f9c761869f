-- ===== src/Execute/Run.antt =====
-- Code that runs on a thread, may stop the program, and may return a value.
use anycore_pisa.Base.{Outcome, ok, fail, Failure}
use anycore_pisa.Thread.{Thread}

abbrev pub Run {ℓ} : Type ℓ → Type ℓ
Run A = Thread → Outcome (A × Thread)

module _ {ℓ} {A : Type ℓ} where
  unfoldable pub pure : A → Run A
  pure a t = ok (a, t)

  unfoldable pub stop : Failure → Run A
  stop e t = fail e

  unfoldable pub gets : (Thread → A) → Run A
  gets f t = ok (f t, t)

unfoldable pub modify : (Thread → Thread) → Run (Unit {0})
modify f t = ok (tt, f t)

module _ {ℓ κ} {A : Type ℓ} {B : Type κ} where
  abbrev pub continue : Outcome (A × Thread) → (A → Run B) → Outcome (B × Thread)
  continue (ok (a, t)) f = f a t
  continue (fail e) f = fail e

  infixl 5 ◌>>=◌
  -- Opening this opens `pure`, `stop`, `gets` and `modify` too.
  unfoldable pub ◌>>=◌ : Run A → (A → Run B) → Run B
  unfolding pure stop gets modify
  ◌>>=◌ m f t = continue (m t) f

infixl 5 ◌>>◌
abbrev pub ◌>>◌ {ℓ} : {B : Type ℓ} → Run (Unit {0}) → Run B → Run B
m >> k = m >>= λ _. k
