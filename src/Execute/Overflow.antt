-- ===== src/Execute/Overflow.antt =====
-- OVER and UNDER of include/ss.h, by which ADD, ADDI and SUB stop the program.
use anycore_pisa.Base.{
  ℕ, ◌+◌, ◌*◌, ◌%◌, ◌^◌, ◌<◌, ◌≡◌, Bool, ◌&&◌, ◌||◌, not, ltb, leb, ◌==◌, sign_bit, arith,
  Bool-cases, inl, inr,
}
use anycore_pisa.Execute.Access.{over, under}

-- A word read as a signed number, plus 2^31.
abbrev pub biased : ℕ → ℕ
biased x = (x + sign_bit) % 2 ^ 32

-- Whether the sum of two words, read as signed numbers, is outside of the signed words, and whether it
-- is -2^31.
abbrev pub sum_overflows : ℕ → ℕ → Bool
sum_overflows x y = ltb (biased x + biased y) sign_bit || leb (3 * sign_bit) (biased x + biased y)

abbrev pub sum_lowest : ℕ → ℕ → Bool
sum_lowest x y = biased x + biased y == sign_bit

-- The same for the difference.
abbrev pub difference_overflows : ℕ → ℕ → Bool
difference_overflows x y =
    ltb (biased x + sign_bit) (biased y) || leb (biased y + sign_bit) (biased x)

abbrev pub difference_lowest : ℕ → ℕ → Bool
difference_lowest x y = biased x + sign_bit == biased y

abbrev pub over_result : ℕ → ℕ → Bool
over_result x y = sum_overflows x y || (sum_lowest x y && not (x == 0 || y == 0))

abbrev pub under_result : ℕ → ℕ → Bool
under_result x y =
    (difference_overflows x y && not (x == 0)) || (difference_lowest x y && not (y == 0))

over_lem : (x y : ℕ) → x < 2 ^ 32 → y < 2 ^ 32 → over x y ≡ over_result x y
over_lem x y h g = elim (Bool-cases (ltb x sign_bit)) [
  | inl px ↦ elim (Bool-cases (ltb y sign_bit)) [ inl py ↦ ground arith | inr ny ↦ ground arith ]
  | inr nx ↦ elim (Bool-cases (ltb y sign_bit)) [ inl py ↦ ground arith | inr ny ↦ ground arith ]
]

under_lem : (x y : ℕ) → x < 2 ^ 32 → y < 2 ^ 32 → under x y ≡ under_result x y
under_lem x y h g = elim (Bool-cases (ltb x sign_bit)) [
  | inl px ↦ elim (Bool-cases (ltb y sign_bit)) [ inl py ↦ ground arith | inr ny ↦ ground arith ]
  | inr nx ↦ elim (Bool-cases (ltb y sign_bit)) [ inl py ↦ ground arith | inr ny ↦ ground arith ]
]

-- OVER is true of two words if and only if their sum, as signed numbers, is no signed word, or is
-- -2^31, which is a signed word, while neither of the two is zero. UNDER is true of two words if and only
-- if their difference is no signed word and the first is not zero, or the difference is -2^31 and the
-- second is not zero; so the difference of 0 and -2^31, which is no signed word, is not found.
pub over-under :
    (x y : ℕ)
    → x < 2 ^ 32
    → y < 2 ^ 32
    → (over x y ≡ over_result x y) × (under x y ≡ under_result x y)
over-under x y h g = (over_lem x y h g, under_lem x y h g)
