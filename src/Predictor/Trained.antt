-- ===== src/Predictor/Trained.antt =====
-- What the tables of gshare_predictor.h predict of a direction after other branches and jumps.
use anycore_pisa.Base.{
  ℕ, zero, suc, ◌+◌, ◌<◌, ◌≤◌, ◌≡◌, refl, sym, ap, ap₂, inl, inr, Bool-cases, bit_xor, mod_mask,
  ◌>>>◌, AllBelow-get_or, ◌∙◌, Bool, true, false, ◌||◌, ◌==◌, List, [], ◌∷◌, leb, length, get_or,
  set, get_or-set_self, get_or-set_ne, ok, arith,
}
use anycore_pisa.Predictor.{Predictor, bit, is_taken, trained, same, gshare, gshare_index}
use anycore_pisa.Predictor.Inv.{
  IsValid, counter_of, gshare_lem, gshare_index_lt, after_gshare, after_target,
}
use anycore_pisa.Predictor.Steps.{
  Step, branch, jump, run, after_step, after, after-IsValid, run-after, IsBimodal, IsSteady,
  step-IsSteady, after_step-sizes,
}

-- The branches that share an entry of the table of counters: they all go one way, and their number.
abbrev pub AllGo : (ℕ → ℕ) → ℕ → Bool → List Step → Type 0
AllGo index i outcome [] = Unit {0}
AllGo index i outcome (branch pc next_pc ∷ steps) =
    (index pc ≡ i → is_taken pc next_pc ≡ outcome) × AllGo index i outcome steps
AllGo index i outcome (jump pc target ∷ steps) = AllGo index i outcome steps

abbrev pub hits : (ℕ → ℕ) → ℕ → List Step → ℕ
hits index i [] = 0
hits index i (branch pc next_pc ∷ steps) = bit (index pc == i) + hits index i steps
hits index i (jump pc target ∷ steps) = hits index i steps

abbrev trained_times : ℕ → Bool → ℕ → ℕ
trained_times zero outcome counter = counter
trained_times (suc n) outcome counter = trained_times n outcome (trained outcome counter)

-- A two-bit counter trained twice one way predicts that way, and keeps doing so.
trained_twice :
    (outcome : Bool) (counter : ℕ)
    → counter < 4
    → same (leb 2 (trained outcome (trained outcome counter))) outcome ≡ true
trained_twice outcome counter h = ground arith

trained_again :
    (outcome : Bool) (counter : ℕ)
    → same (leb 2 counter) outcome ≡ true
    → same (leb 2 (trained outcome counter)) outcome ≡ true
trained_again true counter h = ground arith
trained_again false counter h = ground arith

trained_on :
    (n : ℕ) (outcome : Bool) (counter : ℕ)
    → same (leb 2 counter) outcome ≡ true
    → same (leb 2 (trained_times n outcome counter)) outcome ≡ true
trained_on zero outcome counter h = h
trained_on (suc n) outcome counter h =
    trained_on n outcome (trained outcome counter) (trained_again outcome counter h)

trained_enough :
    (n : ℕ) (outcome : Bool) (counter : ℕ)
    → 2 ≤ n
    → counter < 4
    → same (leb 2 (trained_times n outcome counter)) outcome ≡ true
trained_enough zero outcome counter h c = absurd (omega arith)
trained_enough (suc zero) outcome counter h c = absurd (omega arith)
trained_enough (suc (suc n)) outcome counter h c =
    trained_on n outcome (trained outcome (trained outcome counter))
      (trained_twice outcome counter c)

-- One branch trains the counter at `i`, or leaves it.
branch_counter :
    (p : Predictor) (pc next_pc i : ℕ) (outcome : Bool)
    → i < length p.pht
    → (gshare_index p pc ≡ i → is_taken pc next_pc ≡ outcome)
    → get_or (after_gshare p pc next_pc).pht i 0
      ≡ trained_times (bit (gshare_index p pc == i)) outcome (get_or p.pht i 0)
branch_counter p pc next_pc i outcome l goes =
    let j = gshare_index p pc in
    let new = trained (is_taken pc next_pc) (counter_of p pc) in
    elim (Bool-cases (j == i)) [
      | inl hit ↦
          let here : j ≡ i = ground (arith, hit) in
          ap (λ (k : ℕ). get_or (set p.pht k new) i 0) here
          ∙ get_or-set_self p.pht i new 0 l
          ∙ ap₂ (λ (o : Bool) (k : ℕ). trained o (get_or p.pht k 0)) (goes here) here
          ∙ ap (λ (b : Bool). trained_times (bit b) outcome (get_or p.pht i 0)) (sym hit)
      | inr miss ↦
          get_or-set_ne p.pht j i new 0 (λ e. absurd (ground (arith, miss, e)))
          ∙ ap (λ (b : Bool). trained_times (bit b) outcome (get_or p.pht i 0)) (sym miss)
    ]

trained_times-add :
    (m n : ℕ) (outcome : Bool) (counter : ℕ)
    → trained_times n outcome (trained_times m outcome counter)
      ≡ trained_times (m + n) outcome counter
trained_times-add zero n outcome counter =
    let same_number : n ≡ 0 + n = omega arith in
    ap (λ (k : ℕ). trained_times k outcome counter) same_number
trained_times-add (suc m) n outcome counter =
    let same_number : suc (m + n) ≡ suc m + n = omega arith in
    trained_times-add m n outcome (trained outcome counter)
    ∙ ap (λ (k : ℕ). trained_times k outcome counter) same_number

-- The index of an address does not change while the branch history does not.
abbrev IsIndex : Predictor → (ℕ → ℕ) → Type 0
IsIndex p index = (pc : ℕ) → gshare_index p pc ≡ index pc

step-IsIndex :
    (step : Step) (p : Predictor) (index : ℕ → ℕ)
    → (after_step step p).bhr ≡ p.bhr
    → IsIndex p index
    → IsIndex (after_step step p) index
step-IsIndex step p index same_bhr h pc =
    ap₂ (λ (b s : ℕ). mod_mask (bit_xor b (pc >>> 3)) s) same_bhr (after_step-sizes step p).0 ∙ h pc

-- The counter at `i` after all the steps.
counter_after :
    (steps : List Step) (p : Predictor) (index : ℕ → ℕ) (i : ℕ) (outcome : Bool)
    → IsSteady steps p
    → IsIndex p index
    → i < length p.pht
    → AllGo index i outcome steps
    → IsIndex (after steps p) index
      × (get_or (after steps p).pht i 0
          ≡ trained_times (hits index i steps) outcome (get_or p.pht i 0))
counter_after [] p index i outcome h same l goes = (same, refl)
counter_after (branch pc next_pc ∷ steps) p index i outcome h same l (goes, all) =
    let q = after_gshare p pc next_pc in
    let (same_bhr, steady) = step-IsSteady (branch pc next_pc) steps p h in
    let (same', trained_rest) =
      counter_after steps q index i outcome steady
        (step-IsIndex (branch pc next_pc) p index same_bhr same)
        (omega (arith, l, (after_step-sizes (branch pc next_pc) p).2)) all in
    let one = branch_counter p pc next_pc i outcome l (λ e. goes (sym (same pc) ∙ e)) in
    (
      same',
      trained_rest
          ∙ ap (trained_times (hits index i steps) outcome) one
          ∙ trained_times-add (bit (gshare_index p pc == i)) (hits index i steps) outcome
              (get_or p.pht i 0)
          ∙ ap
              (λ (k : ℕ).
                trained_times (bit (k == i) + hits index i steps) outcome (get_or p.pht i 0))
              (same pc),
    )
counter_after (jump pc target ∷ steps) p index i outcome h same l all =
    let (same_bhr, steady) = step-IsSteady (jump pc target) steps p h in
    counter_after steps (after_target p pc target) index i outcome steady
      (step-IsIndex (jump pc target) p index same_bhr same) l all

-- In bimodal mode with an empty branch history, after any sequence of branches and indirect jumps in
-- which at least two of the branches share the entry of an address in the table of counters, and all
-- that share it go one way, the branch at that address is predicted right when it goes that way,
-- whatever the tables held before. No call accesses a table out of range.
pub gshare-after :
    (p : Predictor) (pc next_pc : ℕ) (steps : List Step)
    → IsValid p
    → IsBimodal p
    → AllGo (gshare_index p) (gshare_index p pc) (is_taken pc next_pc) steps
    → 2 ≤ hits (gshare_index p) (gshare_index p pc) steps
    → (q : Predictor) × (r : Predictor) × (conf : Bool) × (run steps p ≡ ok q)
      × (gshare q pc next_pc ≡ ok (r, true, conf))
gshare-after p pc next_pc steps v b goes many =
    let q = after steps p in
    let i = gshare_index p pc in
    let outcome = is_taken pc next_pc in
    let vq = after-IsValid steps p v in
    let (same_index, counter) =
      counter_after steps p (gshare_index p) i outcome (inl b) (λ x. refl) (gshare_index_lt p pc v)
        goes in
    let right =
      ap (λ (k : ℕ). same (leb 2 (get_or q.pht k 0)) outcome) (same_index pc)
      ∙ ap (λ (c : ℕ). same (leb 2 c) outcome) counter
      ∙ trained_enough (hits (gshare_index p) i steps) outcome (get_or p.pht i 0) many
          (AllBelow-get_or 4 p.pht i 0 v.two_bits (gshare_index_lt p pc v)) in
    (
      q,
      after_gshare q pc next_pc,
      (counter_of q pc == 0) || (counter_of q pc == 3),
      run-after steps p v,
      gshare_lem q pc next_pc vq
          ∙ ap
              (λ (x : Bool).
                ok (after_gshare q pc next_pc, x, (counter_of q pc == 0) || (counter_of q pc == 3)))
              right,
    )
