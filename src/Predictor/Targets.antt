-- ===== src/Predictor/Targets.antt =====
-- What the tables of gshare_predictor.h predict of a target after other branches and jumps.
use anycore_pisa.Base.{
  ℕ, ◌<◌, ◌≡◌, refl, sym, ap, ap₂, inl, inr, Bool-cases, bit_xor, mod_mask, ◌∙◌, ◌==◌, List, [],
  ◌∷◌, length, get_or, set, get_or-set_self, get_or-set_ne, ok, arith,
}
use anycore_pisa.Predictor.{Predictor, same, jht_index, uncond_indirects_corr}
use anycore_pisa.Predictor.Inv.{
  IsValid, after_gshare, uncond_indirects_corr_lem, jht_index_lt, after_target,
}
use anycore_pisa.Predictor.Steps.{
  Step, branch, jump, run, after_step, after, after-IsValid, run-after, IsSteady, step-IsSteady,
  after_step-sizes,
}

-- The jumps that share an entry of the table of targets all go to one address.
abbrev pub AllJump : (ℕ → ℕ) → ℕ → ℕ → List Step → Type 0
AllJump index i target [] = Unit {0}
AllJump index i target (branch pc next_pc ∷ steps) = AllJump index i target steps
AllJump index i target (jump pc next_pc ∷ steps) =
    (index pc ≡ i → next_pc ≡ target) × AllJump index i target steps

-- The index of an address does not change while the branch history does not.
abbrev IsIndex : Predictor → (ℕ → ℕ) → Type 0
IsIndex p index = (pc : ℕ) → jht_index p pc ≡ index pc

step-IsIndex :
    (step : Step) (p : Predictor) (index : ℕ → ℕ)
    → (after_step step p).bhr ≡ p.bhr
    → IsIndex p index
    → IsIndex (after_step step p) index
step-IsIndex step p index same_bhr h pc =
    ap₂ (λ (b s : ℕ). mod_mask (bit_xor b pc) s) same_bhr (after_step-sizes step p).1 ∙ h pc

-- One jump sets the target at `i` to `target`, or leaves it.
jump_target :
    (p : Predictor) (pc next_pc i target : ℕ)
    → i < length p.jht
    → (jht_index p pc ≡ i → next_pc ≡ target)
    → get_or p.jht i 0 ≡ target
    → get_or (after_target p pc next_pc).jht i 0 ≡ target
jump_target p pc next_pc i target l goes held =
    let j = jht_index p pc in
    elim (Bool-cases (j == i)) [
      | inl hit ↦
          let here : j ≡ i = ground (arith, hit) in
          ap (λ (k : ℕ). get_or (set p.jht k next_pc) i 0) here
          ∙ get_or-set_self p.jht i next_pc 0 l
          ∙ goes here
      | inr miss ↦ get_or-set_ne p.jht j i next_pc 0 (λ e. absurd (ground (arith, miss, e))) ∙ held
    ]

target_after :
    (steps : List Step) (p : Predictor) (index : ℕ → ℕ) (i target : ℕ)
    → IsSteady steps p
    → IsIndex p index
    → i < length p.jht
    → AllJump index i target steps
    → get_or p.jht i 0 ≡ target
    → IsIndex (after steps p) index × (get_or (after steps p).jht i 0 ≡ target)
target_after [] p index i target h same l goes held = (same, held)
target_after (branch pc next_pc ∷ steps) p index i target h same l all held =
    let (same_bhr, steady) = step-IsSteady (branch pc next_pc) steps p h in
    target_after steps (after_gshare p pc next_pc) index i target steady
      (step-IsIndex (branch pc next_pc) p index same_bhr same) l all held
target_after (jump pc next_pc ∷ steps) p index i target h same l (goes, all) held =
    let (same_bhr, steady) = step-IsSteady (jump pc next_pc) steps p h in
    target_after steps (after_target p pc next_pc) index i target steady
      (step-IsIndex (jump pc next_pc) p index same_bhr same)
      (omega (arith, l, (after_step-sizes (jump pc next_pc) p).3)) all
      (jump_target p pc next_pc i target l (λ e. goes (sym (same pc) ∙ e)) held)

-- After an indirect jump, and any sequence of jumps and branches behind it, the prediction for an
-- indirect jump at the same address is right if and only if it goes where the first one went, provided
-- that every jump between them that shares the entry in the table of targets went there too, and that
-- the branch history stays as it is: in bimodal mode with an empty history, or with no conditional
-- branch in between. No call accesses a table out of range.
pub uncond_indirects_corr-after :
    (p : Predictor) (pc a b : ℕ) (steps : List Step)
    → IsValid p
    → IsSteady steps p
    → AllJump (jht_index p) (jht_index p pc) a steps
    → (q : Predictor) × (r : Predictor) × (run (jump pc a ∷ steps) p ≡ ok q)
      × (uncond_indirects_corr q pc b ≡ ok (r, a == b))
uncond_indirects_corr-after p pc a b steps v steady all =
    let first = after_target p pc a in
    let q = after steps first in
    let i = jht_index p pc in
    let vq = after-IsValid (jump pc a ∷ steps) p v in
    let low = jht_index_lt p pc v in
    let steady' : IsSteady steps first = elim steady [ inl h ↦ inl h | inr h ↦ inr h ] in
    let (same_index, held) =
      target_after steps first (jht_index p) i a steady' (λ x. refl)
        (omega (arith, low, (after_step-sizes (jump pc a) p).3)) all
        (get_or-set_self p.jht i a 0 low) in
    (
      q,
      after_target q pc b,
      run-after (jump pc a ∷ steps) p v,
      uncond_indirects_corr_lem q pc b vq
          ∙ ap (λ (k : ℕ). ok (after_target q pc b, get_or q.jht k 0 == b)) (same_index pc)
          ∙ ap (λ (t : ℕ). ok (after_target q pc b, t == b)) held,
    )
