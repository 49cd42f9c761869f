-- ===== src/Unaligned/Lanes.antt =====
-- LWL, LWR, SWL and SWR of I_hate_these_instructions.h in arithmetic: a load or a store of a word
-- that no alignment holds for takes the two instructions of a pair.
use native.Mathlib.Nat.{mod-eq_of_lt}
use anycore_pisa.Base.{
  ℕ, zero, suc, ◌+◌, ◌-◌, ◌*◌, ◌/◌, ◌%◌, ◌≤◌, ◌<◌, ◌^◌, ◌≡◌, ap, ap₂, ◌∙◌, bit_and, bit_or, get_or,
  not32, ◌<<<◌, ◌>>>◌, arith,
}
use anycore_pisa.Base.Bits.{
  bit_and-mask, bit_and-fields, bit_and-zero, bit_or-fields, bit_or_halves,
}
use anycore_pisa.Unaligned.{ss_lr_masks}

bit_or_comm_below : (n a b : ℕ) → a ≤ n → b ≤ n → bit_or a b ≡ bit_or b a
bit_or_comm_below zero a b h g = ap₂ bit_or (omega arith) (omega arith)
bit_or_comm_below (suc n) a b h g = omega (
  arith,
  bit_or_halves a b,
  bit_or_halves b a,
  bit_or_comm_below n (a / 2) (b / 2) (omega arith) (omega arith),
)

bit_or_comm : (a b : ℕ) → bit_or a b ≡ bit_or b a
bit_or_comm a b = bit_or_comm_below (a + b) a b (omega arith) (omega arith)

-- A mask of the high bits of a word clears the low ones.
clear_low :
    (k j q r : ℕ)
    → q < 2 ^ j
    → r < 2 ^ k
    → 0 < 2 ^ k
    → bit_and (q * 2 ^ k + r) ((2 ^ j - 1) * 2 ^ k + 0) ≡ q * 2 ^ k
clear_low k j q r h g z = omega (
  arith,
  bit_and-fields k q r (2 ^ j - 1) 0 g z,
  ap (λ (t : ℕ). t * 2 ^ k) (bit_and-mask j q),
  ap (λ (t : ℕ). t * 2 ^ k) (mod-eq_of_lt h),
  bit_and-zero r,
)

-- The high bits of one word joined with the low bits of another.
join :
    (k j q r b : ℕ)
    → q < 2 ^ j
    → r < 2 ^ k
    → 0 < 2 ^ k
    → b % 2 ^ k < 2 ^ k
    → bit_or (bit_and (q * 2 ^ k + r) ((2 ^ j - 1) * 2 ^ k + 0)) (bit_and b (2 ^ k - 1))
      ≡ q * 2 ^ k + b % 2 ^ k
join k j q r b h g z l =
    ap₂ bit_or (clear_low k j q r h g z) (bit_and-mask k b) ∙ bit_or-fields k q (b % 2 ^ k) l

abbrev pub lwl_at : ℕ → ℕ → ℕ → ℕ
lwl_at s load_data back_data =
    bit_or (bit_and back_data (get_or ss_lr_masks (s + 1) 0))
      (bit_and (load_data <<< (8 * (4 - s - 1))) (not32 (get_or ss_lr_masks (s + 1) 0)))

-- The four cases of LWL: the low bytes of the loaded word go to the top of the register.
pub lwl_at_0 : (w b : ℕ) → w < 2 ^ 32 → lwl_at 0 w b ≡ w % 2 ^ 8 * 2 ^ 24 + b % 2 ^ 24
lwl_at_0 w b h =
    let shifted : w <<< 24 ≡ w % 2 ^ 8 * 2 ^ 24 + 0 = omega arith in
    bit_or_comm _ _
    ∙ ap (λ (t : ℕ). bit_or (bit_and t 0xff000000) (bit_and b 0xffffff)) shifted
    ∙ join 24 8 (w % 2 ^ 8) 0 b (omega arith) (omega arith) (omega arith) (omega arith)

pub lwl_at_1 : (w b : ℕ) → w < 2 ^ 32 → lwl_at 1 w b ≡ w % 2 ^ 16 * 2 ^ 16 + b % 2 ^ 16
lwl_at_1 w b h =
    let shifted : w <<< 16 ≡ w % 2 ^ 16 * 2 ^ 16 + 0 = omega arith in
    bit_or_comm _ _
    ∙ ap (λ (t : ℕ). bit_or (bit_and t 0xffff0000) (bit_and b 0xffff)) shifted
    ∙ join 16 16 (w % 2 ^ 16) 0 b (omega arith) (omega arith) (omega arith) (omega arith)

pub lwl_at_2 : (w b : ℕ) → w < 2 ^ 32 → lwl_at 2 w b ≡ w % 2 ^ 24 * 2 ^ 8 + b % 2 ^ 8
lwl_at_2 w b h =
    let shifted : w <<< 8 ≡ w % 2 ^ 24 * 2 ^ 8 + 0 = omega arith in
    bit_or_comm _ _
    ∙ ap (λ (t : ℕ). bit_or (bit_and t 0xffffff00) (bit_and b 0xff)) shifted
    ∙ join 8 24 (w % 2 ^ 24) 0 b (omega arith) (omega arith) (omega arith) (omega arith)

pub lwl_at_3 : (w b : ℕ) → w < 2 ^ 32 → lwl_at 3 w b ≡ w % 2 ^ 32 * 2 ^ 0 + b % 2 ^ 0
lwl_at_3 w b h =
    let shifted : w <<< 0 ≡ w % 2 ^ 32 * 2 ^ 0 + 0 = omega arith in
    bit_or_comm _ _
    ∙ ap (λ (t : ℕ). bit_or (bit_and t 0xffffffff) (bit_and b 0x0)) shifted
    ∙ join 0 32 (w % 2 ^ 32) 0 b (omega arith) (omega arith) (omega arith) (omega arith)

abbrev pub lwr_at : ℕ → ℕ → ℕ → ℕ
lwr_at s load_data back_data =
    bit_or (bit_and back_data (not32 (get_or ss_lr_masks (4 - (4 - s)) 0)))
      (bit_and (load_data >>> (8 * (s + 1 - 1))) (get_or ss_lr_masks (4 - (4 - s)) 0))

-- The four cases of LWR: the high bytes of the loaded word go to the bottom of the register.
pub lwr_at_0 : (w b : ℕ) → w < 2 ^ 32 → b < 2 ^ 32 → lwr_at 0 w b ≡ b / 2 ^ 32 * 2 ^ 32 + w / 2 ^ 0
lwr_at_0 w b h g =
    let parts : b ≡ b / 2 ^ 32 * 2 ^ 32 + b % 2 ^ 32 = omega arith in
    ap (λ (t : ℕ). bit_or (bit_and t 0x0) (bit_and (w / 2 ^ 0) 0xffffffff)) parts
    ∙ join 32 0 (b / 2 ^ 32) (b % 2 ^ 32) (w / 2 ^ 0) (omega arith) (omega arith) (omega arith)
        (omega arith)
    ∙ omega arith

pub lwr_at_1 : (w b : ℕ) → w < 2 ^ 32 → b < 2 ^ 32 → lwr_at 1 w b ≡ b / 2 ^ 24 * 2 ^ 24 + w / 2 ^ 8
lwr_at_1 w b h g =
    let parts : b ≡ b / 2 ^ 24 * 2 ^ 24 + b % 2 ^ 24 = omega arith in
    ap (λ (t : ℕ). bit_or (bit_and t 0xff000000) (bit_and (w / 2 ^ 8) 0xffffff)) parts
    ∙ join 24 8 (b / 2 ^ 24) (b % 2 ^ 24) (w / 2 ^ 8) (omega arith) (omega arith) (omega arith)
        (omega arith)
    ∙ omega arith

pub lwr_at_2 : (w b : ℕ) → w < 2 ^ 32 → b < 2 ^ 32 → lwr_at 2 w b ≡ b / 2 ^ 16 * 2 ^ 16 + w / 2 ^ 16
lwr_at_2 w b h g =
    let parts : b ≡ b / 2 ^ 16 * 2 ^ 16 + b % 2 ^ 16 = omega arith in
    ap (λ (t : ℕ). bit_or (bit_and t 0xffff0000) (bit_and (w / 2 ^ 16) 0xffff)) parts
    ∙ join 16 16 (b / 2 ^ 16) (b % 2 ^ 16) (w / 2 ^ 16) (omega arith) (omega arith) (omega arith)
        (omega arith)
    ∙ omega arith

pub lwr_at_3 : (w b : ℕ) → w < 2 ^ 32 → b < 2 ^ 32 → lwr_at 3 w b ≡ b / 2 ^ 8 * 2 ^ 8 + w / 2 ^ 24
lwr_at_3 w b h g =
    let parts : b ≡ b / 2 ^ 8 * 2 ^ 8 + b % 2 ^ 8 = omega arith in
    ap (λ (t : ℕ). bit_or (bit_and t 0xffffff00) (bit_and (w / 2 ^ 24) 0xff)) parts
    ∙ join 8 24 (b / 2 ^ 8) (b % 2 ^ 8) (w / 2 ^ 24) (omega arith) (omega arith) (omega arith)
        (omega arith)
    ∙ omega arith

abbrev pub swl_at : ℕ → ℕ → ℕ → ℕ
swl_at s store_data back_data =
    bit_or (bit_and (store_data >>> (8 * (4 - (s + 1)))) (get_or ss_lr_masks (4 - (s + 1)) 0))
      (bit_and back_data (not32 (get_or ss_lr_masks (4 - (s + 1)) 0)))

-- The four cases of SWL: the high bytes of the register go to the bottom of the stored word.
pub swl_at_0 : (w b : ℕ) → w < 2 ^ 32 → b < 2 ^ 32 → swl_at 0 w b ≡ b / 2 ^ 8 * 2 ^ 8 + w / 2 ^ 24
swl_at_0 w b h g =
    let parts : b ≡ b / 2 ^ 8 * 2 ^ 8 + b % 2 ^ 8 = omega arith in
    bit_or_comm _ _
    ∙ ap (λ (t : ℕ). bit_or (bit_and t 0xffffff00) (bit_and (w / 2 ^ 24) 0xff)) parts
    ∙ join 8 24 (b / 2 ^ 8) (b % 2 ^ 8) (w / 2 ^ 24) (omega arith) (omega arith) (omega arith)
        (omega arith)
    ∙ omega arith

pub swl_at_1 : (w b : ℕ) → w < 2 ^ 32 → b < 2 ^ 32 → swl_at 1 w b ≡ b / 2 ^ 16 * 2 ^ 16 + w / 2 ^ 16
swl_at_1 w b h g =
    let parts : b ≡ b / 2 ^ 16 * 2 ^ 16 + b % 2 ^ 16 = omega arith in
    bit_or_comm _ _
    ∙ ap (λ (t : ℕ). bit_or (bit_and t 0xffff0000) (bit_and (w / 2 ^ 16) 0xffff)) parts
    ∙ join 16 16 (b / 2 ^ 16) (b % 2 ^ 16) (w / 2 ^ 16) (omega arith) (omega arith) (omega arith)
        (omega arith)
    ∙ omega arith

pub swl_at_2 : (w b : ℕ) → w < 2 ^ 32 → b < 2 ^ 32 → swl_at 2 w b ≡ b / 2 ^ 24 * 2 ^ 24 + w / 2 ^ 8
swl_at_2 w b h g =
    let parts : b ≡ b / 2 ^ 24 * 2 ^ 24 + b % 2 ^ 24 = omega arith in
    bit_or_comm _ _
    ∙ ap (λ (t : ℕ). bit_or (bit_and t 0xff000000) (bit_and (w / 2 ^ 8) 0xffffff)) parts
    ∙ join 24 8 (b / 2 ^ 24) (b % 2 ^ 24) (w / 2 ^ 8) (omega arith) (omega arith) (omega arith)
        (omega arith)
    ∙ omega arith

pub swl_at_3 : (w b : ℕ) → w < 2 ^ 32 → b < 2 ^ 32 → swl_at 3 w b ≡ b / 2 ^ 32 * 2 ^ 32 + w / 2 ^ 0
swl_at_3 w b h g =
    let parts : b ≡ b / 2 ^ 32 * 2 ^ 32 + b % 2 ^ 32 = omega arith in
    bit_or_comm _ _
    ∙ ap (λ (t : ℕ). bit_or (bit_and t 0x0) (bit_and (w / 2 ^ 0) 0xffffffff)) parts
    ∙ join 32 0 (b / 2 ^ 32) (b % 2 ^ 32) (w / 2 ^ 0) (omega arith) (omega arith) (omega arith)
        (omega arith)
    ∙ omega arith

abbrev pub swr_at : ℕ → ℕ → ℕ → ℕ
swr_at s store_data back_data =
    bit_or (bit_and (store_data <<< (8 * (4 - (4 - s)))) (not32 (get_or ss_lr_masks (4 - s) 0)))
      (bit_and back_data (get_or ss_lr_masks (4 - s) 0))

-- The four cases of SWR: the low bytes of the register go to the top of the stored word.
pub swr_at_0 : (w b : ℕ) → w < 2 ^ 32 → swr_at 0 w b ≡ w % 2 ^ 32 * 2 ^ 0 + b % 2 ^ 0
swr_at_0 w b h =
    let shifted : w <<< 0 ≡ w % 2 ^ 32 * 2 ^ 0 + 0 = omega arith in
    ap (λ (t : ℕ). bit_or (bit_and t 0xffffffff) (bit_and b 0x0)) shifted
    ∙ join 0 32 (w % 2 ^ 32) 0 b (omega arith) (omega arith) (omega arith) (omega arith)

pub swr_at_1 : (w b : ℕ) → w < 2 ^ 32 → swr_at 1 w b ≡ w % 2 ^ 24 * 2 ^ 8 + b % 2 ^ 8
swr_at_1 w b h =
    let shifted : w <<< 8 ≡ w % 2 ^ 24 * 2 ^ 8 + 0 = omega arith in
    ap (λ (t : ℕ). bit_or (bit_and t 0xffffff00) (bit_and b 0xff)) shifted
    ∙ join 8 24 (w % 2 ^ 24) 0 b (omega arith) (omega arith) (omega arith) (omega arith)

pub swr_at_2 : (w b : ℕ) → w < 2 ^ 32 → swr_at 2 w b ≡ w % 2 ^ 16 * 2 ^ 16 + b % 2 ^ 16
swr_at_2 w b h =
    let shifted : w <<< 16 ≡ w % 2 ^ 16 * 2 ^ 16 + 0 = omega arith in
    ap (λ (t : ℕ). bit_or (bit_and t 0xffff0000) (bit_and b 0xffff)) shifted
    ∙ join 16 16 (w % 2 ^ 16) 0 b (omega arith) (omega arith) (omega arith) (omega arith)

pub swr_at_3 : (w b : ℕ) → w < 2 ^ 32 → swr_at 3 w b ≡ w % 2 ^ 8 * 2 ^ 24 + b % 2 ^ 24
swr_at_3 w b h =
    let shifted : w <<< 24 ≡ w % 2 ^ 8 * 2 ^ 24 + 0 = omega arith in
    ap (λ (t : ℕ). bit_or (bit_and t 0xff000000) (bit_and b 0xffffff)) shifted
    ∙ join 24 8 (w % 2 ^ 8) 0 b (omega arith) (omega arith) (omega arith) (omega arith)
