-- ===== src/Execute/Keeps.antt =====
-- Properties of the state that an action keeps whenever it returns, with a rule for each way to build
-- an action.
use anycore_pisa.Base.{
  ◌≡◌, refl, subst, Bool, true, false, if◌then◌else◌, Outcome, ok, fail, Failure,
}
use anycore_pisa.Thread.{Thread}
use anycore_pisa.Execute.Run.{Run, pure, stop, gets, modify, continue, ◌>>=◌}

pub record Keeps {ℓ} {A : Type ℓ} (P : Thread → Type 0) (m : Run A) : Type ℓ where
  pub at : (t : Thread) (a : A) (t' : Thread) → P t → m t ≡ ok (a, t') → P t'

module _ {ℓ} {A : Type ℓ} {P : Thread → Type 0} where
  pub Keeps-pure : (a : A) → Keeps P (pure a)
  unfolding pure
  Keeps-pure a = record { at = λ t b t' h e. let same : t ≡ t' = cc in subst P same h }

  pub Keeps-stop : (x : Failure) → Keeps P (stop {A = A} x)
  unfolding stop
  Keeps-stop x = record { at = λ t b t' h e. absurd cc }

  pub Keeps-gets : (f : Thread → A) → Keeps P (gets f)
  unfolding gets
  Keeps-gets f = record { at = λ t b t' h e. let same : t ≡ t' = cc in subst P same h }

  pub Keeps-if : (b : Bool) (m n : Run A) → Keeps P m → Keeps P n → Keeps P (if b then m else n)
  Keeps-if true m n km kn = km
  Keeps-if false m n km kn = kn

pub Keeps-modify :
    {P : Thread → Type 0} (f : Thread → Thread)
    → ((t : Thread) → P t → P (f t))
    → Keeps P (modify f)
unfolding modify
Keeps-modify {P} f k = record {
  at = λ t b t' h e. let same : f t ≡ t' = cc in subst P same (k t h);
}

module _ {ℓ κ} {A : Type ℓ} {B : Type κ} where
  continue-ok :
      (r : Outcome (A × Thread)) (f : A → Run B) (b : B) (t' : Thread)
      → continue r f ≡ ok (b, t')
      → (a : A) × (u : Thread) × (r ≡ ok (a, u)) × (f a u ≡ ok (b, t'))
  continue-ok (ok (a, u)) f b t' e = (a, u, refl, e)
  continue-ok (fail x) f b t' e = absurd cc

  -- What a chain that returns went through.
  pub bind-returns :
      (m : Run A) (f : A → Run B) (t : Thread) (b : B) (t' : Thread)
      → (m >>= f) t ≡ ok (b, t')
      → (a : A) × (u : Thread) × (m t ≡ ok (a, u)) × (f a u ≡ ok (b, t'))
  unfolding ◌>>=◌
  bind-returns m f t b t' e = continue-ok (m t) f b t' e

  pub bind-after :
      (m : Run A) (f : A → Run B) (t u : Thread) (a : A) → m t ≡ ok (a, u) → (m >>= f) t ≡ f a u
  unfolding ◌>>=◌
  bind-after m f t u a e = rw e refl

  continue-cong :
      (r : Outcome (A × Thread)) (f g : A → Run B)
      → ((a : A) (u : Thread) → r ≡ ok (a, u) → f a u ≡ g a u)
      → continue r f ≡ continue r g
  continue-cong (ok (a, u)) f g h = h a u refl
  continue-cong (fail x) f g h = refl

  -- Two chains that go on in the same way wherever the first action returns.
  pub bind-cong :
      (m : Run A) (f g : A → Run B) (t : Thread)
      → ((a : A) (u : Thread) → m t ≡ ok (a, u) → f a u ≡ g a u)
      → (m >>= f) t ≡ (m >>= g) t
  unfolding ◌>>=◌
  bind-cong m f g t h = continue-cong (m t) f g h

  pub Keeps-bind :
      {P : Thread → Type 0} (m : Run A) (f : A → Run B)
      → Keeps P m
      → ((a : A) → Keeps P (f a))
      → Keeps P (m >>= f)
  Keeps-bind m f km kf = record {
    at = λ t b t' h e.
        let (a, u, first, second) = bind-returns m f t b t' e in
        (kf a).at u b t' (km.at t a u h first) second;
  }

pub ruleset keeps_rules = (Keeps-pure, Keeps-stop, Keeps-gets, Keeps-if, Keeps-bind)
