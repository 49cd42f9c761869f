-- ===== src/Predictor/Steps.antt =====
-- Calls of gshare and uncond_indirects_corr of gshare_predictor.h, one after another.
use anycore_pisa.Base.{
  ℕ, ◌≡◌, refl, ◌⊎◌, inl, inr, ◌∙◌, Bool, true, false, List, [], ◌∷◌, length, length-set, Outcome,
  ok, ◌>>=◌, arith,
}
use anycore_pisa.Predictor.{Predictor, is_taken, shifted, gshare, uncond_indirects_corr}
use anycore_pisa.Predictor.Inv.{
  IsValid, gshare_lem, after_gshare, after_gshare-IsValid, uncond_indirects_corr_lem, after_target,
  after_target-IsValid,
}

-- A call of gshare or of uncond_indirects_corr, with its program counter and the next one.
pub data Step : Type 0 where
  branch jump : ℕ → ℕ → Step

abbrev pub run : List Step → Predictor → Outcome Predictor
run [] p = ok p
run (branch pc next_pc ∷ steps) p = do (q, right, conf) ← gshare p pc next_pc; run steps q
run (jump pc target ∷ steps) p = do (q, right) ← uncond_indirects_corr p pc target; run steps q

abbrev pub after_step : Step → Predictor → Predictor
after_step (branch pc next_pc) p = after_gshare p pc next_pc
after_step (jump pc target) p = after_target p pc target

abbrev pub after : List Step → Predictor → Predictor
after [] p = p
after (step ∷ steps) p = after steps (after_step step p)

pub after_step-IsValid : (step : Step) (p : Predictor) → IsValid p → IsValid (after_step step p)
after_step-IsValid (branch pc next_pc) p v = after_gshare-IsValid p pc next_pc v
after_step-IsValid (jump pc target) p v = after_target-IsValid p pc target v

pub after-IsValid : (steps : List Step) (p : Predictor) → IsValid p → IsValid (after steps p)
after-IsValid [] p v = v
after-IsValid (step ∷ steps) p v =
    after-IsValid steps (after_step step p) (after_step-IsValid step p v)

pub run-after : (steps : List Step) (p : Predictor) → IsValid p → run steps p ≡ ok (after steps p)
run-after [] p v = refl
run-after (branch pc next_pc ∷ steps) p v =
    rw (gshare_lem p pc next_pc v)
      (run-after steps (after_gshare p pc next_pc) (after_gshare-IsValid p pc next_pc v))
run-after (jump pc target ∷ steps) p v =
    rw (uncond_indirects_corr_lem p pc target v)
      (run-after steps (after_target p pc target) (after_target-IsValid p pc target v))

-- The branch history stays as it is: in bimodal mode when it is zero, or when there is no branch.
abbrev pub NoBranch : List Step → Type 0
NoBranch [] = Unit {0}
NoBranch (branch pc next_pc ∷ steps) = true ≡ false
NoBranch (jump pc target ∷ steps) = NoBranch steps

abbrev pub IsBimodal : Predictor → Type 0
IsBimodal p = (p.bimodal ≡ true) × (p.bhr ≡ 0)

abbrev pub IsSteady : List Step → Predictor → Type 0
IsSteady steps p = IsBimodal p ⊎ NoBranch steps

shifted_bimodal : (p : Predictor) (outcome : Bool) → IsBimodal p → shifted p outcome ≡ p.bhr
shifted_bimodal p outcome (b, z) = ground (arith, b, z)

pub step-IsSteady :
    (step : Step) (steps : List Step) (p : Predictor)
    → IsSteady (step ∷ steps) p
    → ((after_step step p).bhr ≡ p.bhr) × IsSteady steps (after_step step p)
step-IsSteady (branch pc next_pc) steps p (inl (b, z)) =
    let same_bhr = shifted_bimodal p (is_taken pc next_pc) (b, z) in
    (same_bhr, inl (b, same_bhr ∙ z))
step-IsSteady (branch pc next_pc) steps p (inr none) = absurd cc
step-IsSteady (jump pc target) steps p (inl h) = (refl, inl h)
step-IsSteady (jump pc target) steps p (inr none) = (refl, inr none)

pub after_step-sizes :
    (step : Step) (p : Predictor)
    → ((after_step step p).pht_size ≡ p.pht_size)
      × ((after_step step p).jht_size ≡ p.jht_size)
      × (length (after_step step p).pht ≡ length p.pht)
      × (length (after_step step p).jht ≡ length p.jht)
after_step-sizes (branch pc next_pc) p = (refl, refl, length-set _ _ _, refl)
after_step-sizes (jump pc target) p = (refl, refl, refl, length-set _ _ _)
