-- ===== src/Predictor/Learn.antt =====
-- What the profiles of gshare_predictor.h count.
use anycore_pisa.Base.{
  ℕ, ◌+◌, ◌<◌, ◌≤◌, ◌^◌, ◌≡◌, refl, ap, ◌⊎◌, inl, inr, Bool-cases, Bool, true, false, ◌&&◌, ◌==◌,
  List, [], ◌∷◌, ltb, if◌then◌else◌, length, arith,
}
use anycore_pisa.Predictor.{bit}
use anycore_pisa.Predictor.Profiles.{
  BranchProfile, BranchProfiles, branch_profile, profile_of, counted, profiled, KeysAbove, IsSorted,
  IsSorted-profiled,
}

-- A mispredicted or a right branch, as `profile` is told of it.
abbrev pub Event : Type 0
Event = ℕ × Bool

abbrev pub profile_run : List Event → BranchProfiles → BranchProfiles
profile_run [] es = es
profile_run (e ∷ more) es = profile_run more (profiled e.0 e.1 es)

-- How often an address comes in a list of events, and how often mispredicted.
abbrev pub times : ℕ → List Event → ℕ
times pc [] = 0
times pc (e ∷ es) = bit (pc == e.0) + times pc es

abbrev pub misses : ℕ → List Event → ℕ
misses pc [] = 0
misses pc (e ∷ es) = bit ((pc == e.0) && e.1) + misses pc es

-- An address below all keys has no profile.
profile_of-KeysAbove :
    (k pc : ℕ) (es : BranchProfiles) → KeysAbove k es → pc ≤ k → profile_of pc es ≡ branch_profile
unfolding profile_of
profile_of-KeysAbove k pc [] s h = refl
profile_of-KeysAbove k pc (e ∷ es) s h =
    ground (arith, profile_of-KeysAbove e.0 pc es s.1 (omega arith))

IsSorted-KeysAbove : (k : ℕ) (es : BranchProfiles) → KeysAbove k es → IsSorted es
IsSorted-KeysAbove k [] s = tt
IsSorted-KeysAbove k (e ∷ es) s = s.1

-- The three places of a key: at the head of the list, in front of it, and behind it.
module _ (f : BranchProfile → BranchProfile) (q pc k : ℕ) (v y : BranchProfile) where
  at_head :
      pc ≡ k
      → (if q == k then f v else y)
        ≡ (if q == pc then f (if q == k then v else y) else if q == k then v else y)
  at_head e = elim (Bool-cases (q == k)) [ inl h ↦ rw (e, h) refl | inr h ↦ rw (e, h) refl ]

  in_front :
      (z : BranchProfile)
      → pc < k
      → (q ≤ k → y ≡ z)
      → (if q == pc then f z else if q == k then v else y)
        ≡ (if q == pc then f (if q == k then v else y) else if q == k then v else y)
  in_front z h low = elim (Bool-cases (q == pc)) [
    | inl e ↦
        let other : (q == k) ≡ false = ground arith in
        let same_profile : y ≡ z = low (ground arith) in rw (e, other, same_profile) refl
    | inr e ↦ rw e refl
  ]

  behind :
      (x : BranchProfile)
      → k < pc
      → x ≡ (if q == pc then f y else y)
      → (if q == k then v else x)
        ≡ (if q == pc then f (if q == k then v else y) else if q == k then v else y)
  behind x h r = elim (Bool-cases (q == k)) [
    | inl e ↦ let other : (q == pc) ≡ false = ground arith in rw (e, other) refl
    | inr e ↦ rw (e, r) refl
  ]

profiled_at :
    (pc : ℕ) (misp : Bool) (e : ℕ × BranchProfile) (es : BranchProfiles)
    → ((pc ≡ e.0) × (profiled pc misp (e ∷ es) ≡ (e.0, counted misp e.1) ∷ es))
      ⊎ ((pc < e.0) × (profiled pc misp (e ∷ es) ≡ (pc, counted misp branch_profile) ∷ e ∷ es))
      ⊎ ((e.0 < pc) × (profiled pc misp (e ∷ es) ≡ e ∷ profiled pc misp es))
unfolding profiled
profiled_at pc misp e es = elim (Bool-cases (pc == e.0)) [
  | inl h ↦ inl (ground arith, rw h refl)
  | inr h ↦ elim (Bool-cases (ltb pc e.0)) [
    | inl g ↦ inr (inl (ground arith, rw (h, g) refl))
    | inr g ↦ inr (inr (ground arith, rw (h, g) refl))
  ]
]

profile_of-profiled :
    (pc q : ℕ) (misp : Bool) (es : BranchProfiles)
    → IsSorted es
    → profile_of q (profiled pc misp es)
      ≡ (if q == pc then counted misp (profile_of q es) else profile_of q es)
unfolding profile_of
profile_of-profiled pc q misp [] s = unfold profiled in refl
profile_of-profiled pc q misp (e ∷ es) s =
    let rest = profile_of-profiled pc q misp es (IsSorted-KeysAbove e.0 es s) in
    elim (profiled_at pc misp e es) [
      | inl (h, g) ↦ rw g (at_head (counted misp) q pc e.0 e.1 (profile_of q es) h)
      | inr (inl (h, g)) ↦ rw g (
          in_front (counted misp) q pc e.0 e.1 (profile_of q es) branch_profile h
            (λ l. profile_of-KeysAbove e.0 q es s l))
      | inr (inr (h, g)) ↦ rw g (
          behind (counted misp) q pc e.0 e.1 (profile_of q es) (profile_of q (profiled pc misp es))
            h rest)
    ]

abbrev Room : ℕ → List Event → BranchProfile → Type 0
Room pc events old = (old.n + times pc events < 2 ^ 32) × (old.m + misses pc events < 2 ^ 32)

abbrev BothCounts : ℕ → List Event → BranchProfile → BranchProfile → Type 0
BothCounts pc events old new =
    (new.n ≡ old.n + times pc events) × (new.m ≡ old.m + misses pc events)

one_event :
    (b misp : Bool) (old : BranchProfile)
    → old.n + bit b < 2 ^ 32
    → old.m + bit (b && misp) < 2 ^ 32
    → ((if b then counted misp old else old).n ≡ old.n + bit b)
      × ((if b then counted misp old else old).m ≡ old.m + bit (b && misp))
one_event true true old h g = (omega arith, omega arith)
one_event true false old h g = (omega arith, omega arith)
one_event false misp old h g = (omega arith, omega arith)

-- The first of some events, from the counts `old` to the counts `mid`.
module _ (pc : ℕ) (e : Event) (events : List Event) (old mid : BranchProfile)
    (h : mid ≡ (if pc == e.0 then counted e.1 old else old)) (r : Room pc (e ∷ events) old) where
  first_event : (mid.n ≡ old.n + bit (pc == e.0)) × (mid.m ≡ old.m + bit ((pc == e.0) && e.1))
  first_event = rw h (one_event (pc == e.0) e.1 old (omega (arith, r.0)) (omega (arith, r.1)))

  BothCounts-cons :
      (new : BranchProfile)
      → (Room pc events mid → BothCounts pc events mid new)
      → BothCounts pc (e ∷ events) old new
  BothCounts-cons new rest =
      omega (arith, first_event, rest (omega (arith, first_event), omega (arith, first_event)))

profile_run-BothCounts :
    (pc : ℕ) (events : List Event) (es : BranchProfiles)
    → IsSorted es
    → Room pc events (profile_of pc es)
    → BothCounts pc events (profile_of pc es) (profile_of pc (profile_run events es))
profile_run-BothCounts pc [] es s r = (omega arith, omega arith)
profile_run-BothCounts pc (e ∷ events) es s r =
    let es' = profiled e.0 e.1 es in
    BothCounts-cons pc e events (profile_of pc es) (profile_of pc es')
      (profile_of-profiled e.0 pc e.1 es s) r (profile_of pc (profile_run events es'))
      (λ r'. profile_run-BothCounts pc events es' (IsSorted-profiled e.0 e.1 es s) r')

times_le :
    (pc : ℕ) (events : List Event)
    → (times pc events ≤ length events) × (misses pc events ≤ length events)
times_le pc [] = (omega arith, omega arith)
times_le pc (e ∷ events) = ground (arith, times_le pc events)

-- After fewer than 2^32 calls of `profile` on an empty map, the two counts of every address are how
-- often `profile` was called for it and how often with a misprediction, whatever the order.
pub profile_run-times :
    (pc : ℕ) (events : List Event)
    → length events < 2 ^ 32
    → ((profile_of pc (profile_run events [])).n ≡ times pc events)
      × ((profile_of pc (profile_run events [])).m ≡ misses pc events)
profile_run-times pc events h =
    let few = times_le pc events in
    let empty : profile_of pc [] ≡ branch_profile = unfold profile_of in refl in
    let n = ap (λ (b : BranchProfile). b.n) empty in
    let m = ap (λ (b : BranchProfile). b.m) empty in
    let run =
      profile_run-BothCounts pc events [] tt
        (omega (arith, few.0, few.1, n), omega (arith, few.0, few.1, m)) in
    (omega (arith, run.0, n), omega (arith, run.1, m))
