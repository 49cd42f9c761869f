-- ===== src/Predictor/Tests.antt =====
-- A predictor with small tables, at work.
use anycore_pisa.Base.{ℕ, Bool, ◌≡◌, refl, true, false, List, [], ◌∷◌, ok, arith, inl, mod_mask}
use anycore_pisa.Predictor.{
  Predictor, gshare_predictor, predict, bit, gshare, uncond_indirects_corr,
}
use anycore_pisa.Predictor.Profiles.{profile_of}
use anycore_pisa.Predictor.Inv.{IsValid, gshare_predictor-IsValid}
use anycore_pisa.Predictor.Stats.{Predicts}
use anycore_pisa.Predictor.Run.{
  Call, Tallies, is_control, predict_all, predict_all-Tallies, predict-Predicts,
  gshare_predictor-IsCounted,
}
use anycore_pisa.Predictor.Learn.{Event, profile_run, profile_run-times}
use anycore_pisa.Predictor.Steps.{Step, branch, jump, run}
use anycore_pisa.Predictor.Trained.{gshare-after}
use anycore_pisa.Predictor.Targets.{uncond_indirects_corr-after}

abbrev small : Predictor
small = gshare_predictor 8 4 true true false

-- BNE at `pc`, which goes to `next_pc`.
abbrev bne : ℕ → ℕ → Call
bne pc next_pc = record { inst = record { a = 7; b = 0 }; pc = pc; next_pc = next_pc; conf = false }

-- JALR at `pc`.
abbrev jalr : ℕ → ℕ → Call
jalr pc next_pc = record {
  inst = record { a = 5; b = 0 };
  pc = pc;
  next_pc = next_pc;
  conf = false;
}

abbrev calls : List Call
calls = bne 64 72 ∷ bne 64 128 ∷ jalr 96 64 ∷ jalr 96 64 ∷ bne 64 128 ∷ []

predict_all-Tallies_example :
    (q : Predictor) × (n : ℕ) × (predict_all small calls ≡ ok (q, n)) × Tallies q calls n
predict_all-Tallies_example =
    predict_all-Tallies 8 4 true true false calls (omega arith) (omega arith) (omega arith)
      (omega arith) (omega arith)

predict-Predicts_example :
    Predicts small (bit (is_control (bne 64 72).inst)) (predict small (bne 64 72).inst 64 72 false)
predict-Predicts_example =
    predict-Predicts small (bne 64 72).inst 64 72 false
      (gshare_predictor-IsCounted 8 4 true true false (omega arith) (omega arith) (omega arith)
        (omega arith))
      (unfold gshare_predictor in omega arith)

small-IsValid : IsValid small
small-IsValid =
    gshare_predictor-IsValid 8 4 true true false (omega arith) (omega arith) (omega arith)
      (omega arith)

-- Addresses 64 and 128 share a counter, as 96 and 160 share a target; 72 and 97 have others.
abbrev mixed : List Step
mixed = branch 64 128 ∷ branch 72 80 ∷ jump 96 64 ∷ branch 128 64 ∷ jump 97 32 ∷ jump 160 64 ∷ []

gshare-after_example :
    (q : Predictor) × (r : Predictor) × (conf : Bool) × (run mixed small ≡ ok q)
    × (gshare q 64 128 ≡ ok (r, true, conf))
unfolding gshare_predictor mod_mask
gshare-after_example =
    gshare-after small 64 128 mixed small-IsValid (refl, refl)
      ((λ e. refl), ((λ e. absurd (omega (arith, e))), ((λ e. refl), tt))) (omega arith)

uncond_indirects_corr-after_example :
    (q : Predictor) × (r : Predictor) × (run (jump 96 64 ∷ mixed) small ≡ ok q)
    × (uncond_indirects_corr q 96 64 ≡ ok (r, true))
unfolding gshare_predictor mod_mask
uncond_indirects_corr-after_example =
    uncond_indirects_corr-after small 96 64 64 mixed small-IsValid (inl (refl, refl))
      ((λ e. refl), ((λ e. absurd (omega (arith, e))), ((λ e. refl), tt)))

abbrev events : List Event
events = (64, true) ∷ (32, false) ∷ (64, false) ∷ []

profile_run-times_example :
    ((profile_of 64 (profile_run events [])).n ≡ 2)
    × ((profile_of 64 (profile_run events [])).m ≡ 1)
profile_run-times_example = profile_run-times 64 events (omega arith)
