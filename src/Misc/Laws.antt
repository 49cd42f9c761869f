-- ===== src/Misc/Laws.antt =====
-- misc.cc: logarithms and times.
use anycore_pisa.Base.{
  ℕ, zero, suc, ◌+◌, ◌*◌, ◌/◌, ◌≤◌, ◌<◌, ◌^◌, ◌≡◌, refl, ap, ◌∙◌, ◌⊎◌, inl, inr, Bool-cases, true,
  false, ◌||◌, not, List, [], ◌∷◌, ltb, leb, ◌==◌, ok, fail, aborted, sign_bit, is_pow2, arith,
}
use native.Mathlib.Nat.{pow-suc, one-le-pow, pow-le-pow_right}
use anycore_pisa.Base.Bits.{is_pow2-exists}
use anycore_pisa.Misc.{count_shifts, log_base2, TimeUnit, days, hours, mins, secs, elapsed_time}

exponent_lt : (k : ℕ) → 2 ^ k < 2 ^ 31 → k < 31
exponent_lt k h = elim (Bool-cases (ltb k 31)) [
  | inl t ↦ ground arith
  | inr f ↦
      let large : 31 ≤ k = ground arith in
      absurd (omega (arith, h, pow-le-pow_right {n = 2} (omega arith) large))
]

count_shifts_lem : (fuel k power : ℕ) → k < fuel → count_shifts fuel (2 ^ k) power ≡ ok (power + k)
unfolding count_shifts
count_shifts_lem zero k power h = absurd (omega arith)
count_shifts_lem (suc fuel) zero power h = ap ok (omega arith)
count_shifts_lem (suc fuel) (suc k) power h =
    let half : 2 ^ suc k / 2 ≡ 2 ^ k = omega (arith, pow-suc 2 k) in
    let more : (2 ^ k == 0) ≡ false = ground (arith, one-le-pow k 2) in
    rw (half, more) (count_shifts_lem fuel k (power + 1) (omega arith) ∙ ap ok (omega arith))

shifts-power : (n k : ℕ) → n ≡ 2 ^ k → n < 2 ^ 31 → count_shifts 31 n 0 ≡ ok k
shifts-power n k e h =
    ap (λ (m : ℕ). count_shifts 31 m 0) e
    ∙ count_shifts_lem 31 k 0 (exponent_lt k (omega (arith, e, h)))
    ∙ ap ok (omega arith)

-- The logarithm of a positive power of two below 2^31 is found, and the call panics for every other
-- argument.
pub log_base2-power :
    (n : ℕ)
    → n < 2 ^ 32
    → ((p : ℕ) × (n ≡ 2 ^ p) × (log_base2 n ≡ ok p))
      ⊎ ((((n == 0 || leb sign_bit n) || not (is_pow2 n)) ≡ true) × (log_base2 n ≡ fail aborted))
unfolding log_base2
log_base2-power n h = elim (Bool-cases ((n == 0 || leb sign_bit n) || not (is_pow2 n))) [
  | inl t ↦ inr (t, rw t refl)
  | inr f ↦
      let pow : is_pow2 n ≡ true = ground arith in
      let bounds : (0 < n) × (n < 2 ^ 31) = ground arith in
      let (k, e) = is_pow2-exists n bounds.0 h pow in inl (k, e, rw f (shifts-power n k e bounds.1))
]

abbrev pub seconds : TimeUnit → ℕ
seconds days = 86400
seconds hours = 3600
seconds mins = 60
seconds secs = 1

abbrev pub total : List (ℕ × TimeUnit) → ℕ
total [] = 0
total (p ∷ ps) = p.0 * seconds p.1 + total ps

-- The parts of the time of a positive number of seconds add up to it.
pub elapsed_time-total : (sec : ℕ) → sec < 2 ^ 31 → total (elapsed_time sec) ≡ sec
unfolding elapsed_time
elapsed_time-total sec h = ground arith
