-- ===== src/Base/Bits.antt =====
-- Bitwise operations as arithmetic: the equation for the lowest digit, low masks as remainders,
-- and what the power-of-two test of common.h means.
use Prim.Native.Nat.{digits, bit_and-bitwise, bit_or-bitwise}
use native.Mathlib.Nat.{div-div-eq-div-mul, mod-add-div, mul_comm, one-le-pow, pow-suc}
use anycore_pisa.Base.{
  ℕ, zero, suc, ◌+◌, ◌-◌, ◌*◌, ◌/◌, ◌%◌, ◌^◌, ◌≤◌, ◌<◌, min, max, bit_and, bit_or, ◌≡◌, refl, ap,
  ◌⊎◌, inl, inr, true, sym, ◌∙◌, arith, sub32, mod_mask, is_pow2, ==_iff,
}

module _ (z : ℕ → ℕ) (f : ℕ → ℕ → ℕ) where
  -- Any count of digits that covers the first number gives the same result.
  digits_enough :
      (x y count more : ℕ) → x ≤ count → x ≤ more → digits z f more x y ≡ digits z f count x y
  digits_enough zero y zero zero enough too = refl
  digits_enough zero y (suc count) zero enough too = refl
  digits_enough zero y zero (suc more) enough too = refl
  digits_enough zero y (suc count) (suc more) enough too = refl
  digits_enough (suc x) y zero more enough too = absurd (omega arith)
  digits_enough (suc x) y (suc count) zero enough too = absurd (omega arith)
  digits_enough (suc x) y (suc count) (suc more) enough too =
      let half = digits_enough (suc x / 2) (y / 2) count more (omega arith) (omega arith) in
      ap (λ (t : ℕ). t * 2 + f (suc x % 2) (y % 2)) half

  lowest_digit :
      (a b : ℕ)
      → digits z f (suc a) (suc a) b
        ≡ digits z f (suc a / 2) (suc a / 2) (b / 2) * 2 + f (suc a % 2) (b % 2)
  lowest_digit a b =
      omega (arith, digits_enough (suc a / 2) (b / 2) (suc a / 2) a (omega arith) (omega arith))

pub bit_and_halves : (a b : ℕ) → bit_and a b ≡ bit_and (a / 2) (b / 2) * 2 + min (a % 2) (b % 2)
bit_and_halves zero b = omega (arith, bit_and-bitwise 0 b, bit_and-bitwise 0 (b / 2))
bit_and_halves (suc a) b = omega (
  arith,
  bit_and-bitwise (suc a) b,
  bit_and-bitwise (suc a / 2) (b / 2),
  lowest_digit (λ y. 0) min a b,
)

pub bit_or_halves : (a b : ℕ) → bit_or a b ≡ bit_or (a / 2) (b / 2) * 2 + max (a % 2) (b % 2)
bit_or_halves zero b = omega (arith, bit_or-bitwise 0 b, bit_or-bitwise 0 (b / 2))
bit_or_halves (suc a) b = omega (
  arith,
  bit_or-bitwise (suc a) b,
  bit_or-bitwise (suc a / 2) (b / 2),
  lowest_digit (λ y. y) max a b,
)

-- Induction on a bound of the first argument, halved at each step.
bit_and_zero_below : (n a : ℕ) → a ≤ n → bit_and a 0 ≡ 0
bit_and_zero_below n zero h = refl
bit_and_zero_below zero (suc a) h = absurd (omega arith)
bit_and_zero_below (suc n) (suc a) h =
    omega (arith, bit_and_halves (suc a) 0, bit_and_zero_below n (suc a / 2) (omega arith))

pub bit_and-zero : (a : ℕ) → bit_and a 0 ≡ 0
bit_and-zero a = bit_and_zero_below a a (omega arith)

bit_or_zero_below : (n a : ℕ) → a ≤ n → bit_or a 0 ≡ a
bit_or_zero_below n zero h = refl
bit_or_zero_below zero (suc a) h = absurd (omega arith)
bit_or_zero_below (suc n) (suc a) h =
    omega (arith, bit_or_halves (suc a) 0, bit_or_zero_below n (suc a / 2) (omega arith))

pub bit_or-zero : (a : ℕ) → bit_or a 0 ≡ a
bit_or-zero a = bit_or_zero_below a a (omega arith)

bit_and_self_below : (n a : ℕ) → a ≤ n → bit_and a a ≡ a
bit_and_self_below n zero h = refl
bit_and_self_below zero (suc a) h = absurd (omega arith)
bit_and_self_below (suc n) (suc a) h =
    omega (arith, bit_and_halves (suc a) (suc a), bit_and_self_below n (suc a / 2) (omega arith))

pub bit_and_self : (a : ℕ) → bit_and a a ≡ a
bit_and_self a = bit_and_self_below a a (omega arith)

mod_double : (a t : ℕ) → 0 < t → a % (t * 2) ≡ a / 2 % t * 2 + a % 2
mod_double a t h = omega (
  arith,
  mod-add-div a (t * 2),
  mod-add-div (a / 2) t,
  ap (λ (d : ℕ). t * d) (div-div-eq-div-mul a 2 t),
  ap (λ (d : ℕ). t * (a / d)) (mul_comm 2 t),
)

-- `a & (2 ^ k - 1)` is the remainder by `2 ^ k`.
pub bit_and-mask : (k a : ℕ) → bit_and a (2 ^ k - 1) ≡ a % 2 ^ k
bit_and-mask zero a = omega (arith, bit_and-zero a)
bit_and-mask (suc k) a = ground (
  arith,
  one-le-pow k 2,
  pow-suc 2 k,
  bit_and_halves a (2 ^ suc k - 1),
  bit_and-mask k (a / 2),
  mod_double a (2 ^ k),
)

-- `(q << k) | r` is a sum when `r` has `k` bits.
pub bit_or-fields : (k q r : ℕ) → r < 2 ^ k → bit_or (q * 2 ^ k) r ≡ q * 2 ^ k + r
bit_or-fields zero q r h = ground (arith, bit_or-zero q)
bit_or-fields (suc k) q r h = ground (
  arith,
  pow-suc 2 k,
  ap (λ (t : ℕ). q * t) (pow-suc 2 k),
  bit_or_halves (q * 2 ^ suc k) r,
  bit_or-fields k q (r / 2),
)

-- `a & ~(2 ^ k - 1)` clears the `k` low bits.
pub bit_and-fields :
    (k q r p s : ℕ)
    → r < 2 ^ k
    → s < 2 ^ k
    → bit_and (q * 2 ^ k + r) (p * 2 ^ k + s) ≡ bit_and q p * 2 ^ k + bit_and r s
bit_and-fields zero q r p s h g = ground (arith, bit_and-zero 0)
bit_and-fields (suc k) q r p s h g = ground (
  arith,
  pow-suc 2 k,
  ap (λ (t : ℕ). q * t) (pow-suc 2 k),
  ap (λ (t : ℕ). p * t) (pow-suc 2 k),
  ap (λ (t : ℕ). bit_and q p * t) (pow-suc 2 k),
  bit_and_halves (q * 2 ^ suc k + r) (p * 2 ^ suc k + s),
  bit_and_halves r s,
  bit_and-fields k q (r / 2) p (s / 2),
)

parity : (a : ℕ) → (a % 2 ≡ 0) ⊎ (a % 2 ≡ 1)
parity a = ground arith

odd_halves : (a : ℕ) → a % 2 ≡ 1 → bit_and (a / 2) ((a - 1) / 2) ≡ bit_and (a / 2) (a / 2)
odd_halves a h = ap (bit_and (a / 2)) (omega arith)

even_halves :
    (a : ℕ) → a % 2 ≡ 0 → 0 < a → bit_and (a / 2) ((a - 1) / 2) ≡ bit_and (a / 2) (a / 2 - 1)
even_halves a h p = ap (bit_and (a / 2)) (omega arith)

-- A power of two below 2 ^ 32 has no digit in common with the number before it.
is_pow2_below : (n a : ℕ) → a ≤ n → 0 < a → bit_and a (a - 1) ≡ 0 → (k : ℕ) × (a ≡ 2 ^ k)
is_pow2_below zero a h p e = absurd (omega arith)
is_pow2_below (suc n) a h p e = elim (parity a) [
  | inl even ↦
      let (k, e') =
        is_pow2_below n (a / 2) (omega arith) (omega arith)
          (omega (arith, bit_and_halves a (a - 1), even_halves a even p)) in
      (suc k, omega (arith, pow-suc 2 k))
  | inr odd ↦ (0, omega (arith, bit_and_halves a (a - 1), bit_and_self (a / 2), odd_halves a odd))
]

minus_one : (b : ℕ) → 0 < b → b < 2 ^ 32 → sub32 b 1 ≡ b - 1
minus_one b p h = omega arith

-- MOD(a, b) is the remainder when `b` is a power of two that fits a word.
pub mod_mask-eq-mod : (k a b : ℕ) → b ≡ 2 ^ k → b < 2 ^ 32 → mod_mask a b ≡ a % b
unfolding mod_mask
mod_mask-eq-mod k a b e h = rw (minus_one b (omega (arith, one-le-pow k 2)) h, e) (bit_and-mask k a)

-- IsPow2 accepts, besides 0, powers of two only.
pub is_pow2-exists : (a : ℕ) → 0 < a → a < 2 ^ 32 → is_pow2 a ≡ true → (k : ℕ) × (a ≡ 2 ^ k)
unfolding is_pow2
is_pow2-exists a p h e =
    is_pow2_below a a (omega arith) p (ap (bit_and a) (sym (minus_one a p h)) ∙ (==_iff _ 0).0 e)

bit_and_le_below : (n a b : ℕ) → a ≤ n → bit_and a b ≤ b
bit_and_le_below n zero b h = omega (arith, bit_and-bitwise 0 b)
bit_and_le_below zero (suc a) b h = absurd (omega arith)
bit_and_le_below (suc n) (suc a) b h =
    omega (arith, bit_and_halves (suc a) b, bit_and_le_below n (suc a / 2) (b / 2) (omega arith))

pub bit_and_le : (a b : ℕ) → bit_and a b ≤ b
bit_and_le a b = bit_and_le_below a a b (omega arith)

-- MOD(a, b) is below `b`, a power of two or not, unless `b` is 0.
pub mod_mask_lt : (a b : ℕ) → 0 < b → b < 2 ^ 32 → mod_mask a b < b
unfolding mod_mask
mod_mask_lt a b p h = omega (arith, minus_one b p h, bit_and_le a (sub32 b 1))
