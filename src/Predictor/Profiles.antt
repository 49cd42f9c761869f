-- ===== src/Predictor/Profiles.antt =====
-- simulation/functional-sim/include/gshare_predictor.h: `branch_profiles`, a map from the address of
-- a branch to its counts, as an association list in the order of the keys, and `profile`.
use anycore_pisa.Base.{ℕ, ◌<◌, Bool, List, [], ◌∷◌, ltb, ◌==◌, if◌then◌else◌, add32, arith}

-- `branch_profile_t`: how often the branch came, and how often it was mispredicted.
pub record BranchProfile : Type 0 where
  pub n : ℕ
  pub m : ℕ

abbrev pub branch_profile : BranchProfile
branch_profile = record { n = 0; m = 0 }

abbrev pub BranchProfiles : Type 0
BranchProfiles = List (ℕ × BranchProfile)

-- The counts of an address, which are zeros when the map does not have it.
unfoldable pub profile_of : ℕ → BranchProfiles → BranchProfile
profile_of pc [] = branch_profile
profile_of pc (e ∷ es) = if pc == e.0 then e.1 else profile_of pc es

abbrev pub counted : Bool → BranchProfile → BranchProfile
counted misp e = record { n = add32 e.n 1; m = if misp then add32 e.m 1 else e.m }

-- `profile`: operator[] of the map makes a missing entry.
unfoldable pub profiled : ℕ → Bool → BranchProfiles → BranchProfiles
profiled pc misp [] = (pc, counted misp branch_profile) ∷ []
profiled pc misp (e ∷ es) =
    let rest = profiled pc misp es in
    if pc == e.0
    then (e.0, counted misp e.1) ∷ es
    else if ltb pc e.0
    then (pc, counted misp branch_profile) ∷ e ∷ es
    else e ∷ rest

-- All keys are above a number, and the keys ascend.
abbrev pub KeysAbove : ℕ → BranchProfiles → Type 0
KeysAbove k [] = Unit {0}
KeysAbove k (e ∷ es) = (k < e.0) × KeysAbove e.0 es

abbrev pub IsSorted : BranchProfiles → Type 0
IsSorted [] = Unit {0}
IsSorted (e ∷ es) = KeysAbove e.0 es

KeysAbove-profiled :
    (k pc : ℕ) (misp : Bool) (es : BranchProfiles)
    → k < pc
    → KeysAbove k es
    → KeysAbove k (profiled pc misp es)
unfolding profiled
KeysAbove-profiled k pc misp [] h s = (h, tt)
KeysAbove-profiled k pc misp (e ∷ es) h s =
    ground (arith, λ (g : e.0 < pc). KeysAbove-profiled e.0 pc misp es g s.1)

pub IsSorted-profiled :
    (pc : ℕ) (misp : Bool) (es : BranchProfiles) → IsSorted es → IsSorted (profiled pc misp es)
unfolding profiled
IsSorted-profiled pc misp [] s = tt
IsSorted-profiled pc misp (e ∷ es) s =
    ground (arith, λ (g : e.0 < pc). KeysAbove-profiled e.0 pc misp es g s)
