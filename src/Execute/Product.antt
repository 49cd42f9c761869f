-- ===== src/Execute/Product.antt =====
-- InstMULT and InstMULTU of ss.def compute products.
use native.Mathlib.Nat.{div-div-eq-div-mul, pow-suc, div-le_self, mul-le-mul}
use anycore_pisa.Base.{
  ℕ, zero, suc, ◌+◌, ◌-◌, ◌*◌, ◌/◌, ◌%◌, ◌^◌, ◌≤◌, ◌<◌, ◌≡◌, refl, sym, ◌∙◌, ap, true, false,
  Bool-cases, inl, inr, ltb, leb, ◌==◌, if◌then◌else◌, bit_and, sign_bit, arith, ◌<<<◌,
}
use anycore_pisa.Base.Bits.{bit_and-mask, bit_and-fields, bit_and-zero}
use anycore_pisa.Execute.Multiply.{
  extractl, is_negative, mult_round, mult_loop, multiply_unsigned, magnitude, complemented, differ,
  multiply_signed,
}

-- The 64-bit number that HI and LO hold.
abbrev pub value : ℕ × ℕ → ℕ
value hi_lo = hi_lo.0 * 2 ^ 32 + hi_lo.1

abbrev pub AreWords : ℕ × ℕ → Type 0
AreWords hi_lo = (hi_lo.0 < 2 ^ 32) × (hi_lo.1 < 2 ^ 32)

extractl-bit : (word pos : ℕ) → extractl word pos 1 ≡ word / 2 ^ pos % 2
unfolding extractl
extractl-bit word pos =
    let here : pos + 1 - 1 ≡ pos = omega arith in rw here (bit_and-mask 1 (word / 2 ^ pos))

sign_part : (op : ℕ) → op < 2 ^ 32 → bit_and op sign_bit ≡ op / 2 ^ 31 * 2 ^ 31
sign_part op h =
    let whole : op / 2 ^ 31 * 2 ^ 31 + op % 2 ^ 31 ≡ op = omega arith in
    let fields : bit_and (op / 2 ^ 31 * 2 ^ 31 + op % 2 ^ 31) sign_bit
        ≡ bit_and (op / 2 ^ 31) 1 * 2 ^ 31 + bit_and (op % 2 ^ 31) 0 =
      bit_and-fields 31 (op / 2 ^ 31) (op % 2 ^ 31) 1 0 (omega arith) (omega arith) in
    let e = ap (λ (x : ℕ). bit_and x sign_bit) (sym whole) ∙ fields in
    omega (arith, h, e, bit_and-mask 1 (op / 2 ^ 31), bit_and-zero (op % 2 ^ 31))

pub is_negative_lem : (op : ℕ) → op < 2 ^ 32 → is_negative op ≡ leb sign_bit op
is_negative_lem op h = let e = sign_part op h in ground arith

-- One round doubles the number, and adds the second operand for a bit that is set.
mult_round_lem :
    (i op1 op2 b hi lo : ℕ)
    → hi < 2 ^ 32
    → lo < 2 ^ 32
    → op2 < 2 ^ 32
    → op1 / 2 ^ (30 - i) % 2 ≡ b
    → 2 * (hi * 2 ^ 32 + lo) + b * op2 < 2 ^ 64
    → (value (mult_round i op1 op2 (hi, lo)) ≡ 2 * (hi * 2 ^ 32 + lo) + b * op2)
      × AreWords (mult_round i op1 op2 (hi, lo))
unfolding mult_round
mult_round_lem i op1 op2 b hi lo h l p e small =
    let bit : extractl op1 (30 - i) 1 ≡ b = extractl-bit op1 (30 - i) ∙ e in
    let top : extractl lo 31 1 ≡ lo / 2 ^ 31 % 2 = extractl-bit lo 31 in
    let half : hi < 2 ^ 31 = omega (arith, small) in
    elim (Bool-cases (b == 1)) [
      | inl t ↦
          let one : b ≡ 1 = ground arith in
          elim (Bool-cases (ltb (0xffffffff - lo <<< 1) op2)) [
            | inl c ↦ rw (mult_round, bit, top, t, c) (ground arith)
            | inr c ↦ rw (mult_round, bit, top, t, c) (ground arith)
          ]
      | inr f ↦
          let none_set : b ≡ 0 = ground (arith, sym e) in
          rw (mult_round, bit, top, f) (ground arith)
    ]

-- The bits of `op1` from bit `r` on are those from bit `r` + 1 on, and bit `r`.
next_bit : (op1 r : ℕ) → op1 / 2 ^ r ≡ 2 * (op1 / 2 ^ suc r) + op1 / 2 ^ r % 2
next_bit op1 r =
    let halved : op1 / 2 ^ r / 2 ≡ op1 / 2 ^ suc r =
      div-div-eq-div-mul op1 (2 ^ r) 2 ∙ ap (λ (x : ℕ). op1 / x) (sym (pow-suc 2 r)) in
    omega (arith, halved)

square_small : {x y : ℕ} → x < 2 ^ 32 → y < 2 ^ 32 → x * y < 2 ^ 64
square_small {x} {y} h g =
    let x_max : x ≤ 2 ^ 32 - 1 = omega (arith, h) in
    let y_max : y ≤ 2 ^ 32 - 1 = omega (arith, g) in omega (arith, mul-le-mul x_max y_max)

mult_loop_lem :
    (rounds i op1 op2 hi lo : ℕ)
    → rounds + i ≡ 31
    → op1 < 2 ^ 32
    → op2 < 2 ^ 32
    → AreWords (hi, lo)
    → hi * 2 ^ 32 + lo ≡ op1 / 2 ^ rounds * op2
    → (value (mult_loop rounds i op1 op2 (hi, lo)) ≡ op1 * op2)
      × AreWords (mult_loop rounds i op1 op2 (hi, lo))
unfolding mult_loop
mult_loop_lem zero i op1 op2 hi lo at_i h1 h2 words so_far =
    (so_far ∙ ap (λ (x : ℕ). x * op2) (omega arith), words)
mult_loop_lem (suc r) i op1 op2 hi lo at_i h1 h2 words so_far =
    let here : 30 - i ≡ r = omega (arith, at_i) in
    let b = op1 / 2 ^ r % 2 in
    let more : 2 * (hi * 2 ^ 32 + lo) + b * op2 ≡ op1 / 2 ^ r * op2 =
      omega (arith, so_far, ap (λ (x : ℕ). x * op2) (next_bit op1 r)) in
    let small : op1 / 2 ^ r * op2 < 2 ^ 64 =
      square_small (omega (arith, h1, div-le_self op1 (2 ^ r))) h2 in
    let round =
      mult_round_lem i op1 op2 b hi lo words.0 words.1 h2 (ap (λ (x : ℕ). op1 / 2 ^ x % 2) here)
        (omega (arith, more, small)) in
    let next = mult_round i op1 op2 (hi, lo) in
    mult_loop_lem r (i + 1) op1 op2 next.0 next.1 (omega (arith, at_i)) h1 h2 round.1
      (round.0 ∙ more)

-- InstMULTU leaves the 64-bit product of the two words in HI and LO, each of which is a word.
pub multiply_unsigned_lem :
    (op1 op2 : ℕ)
    → op1 < 2 ^ 32
    → op2 < 2 ^ 32
    → (value (multiply_unsigned op1 op2) ≡ op1 * op2) × AreWords (multiply_unsigned op1 op2)
unfolding multiply_unsigned
multiply_unsigned_lem op1 op2 h1 h2 =
    let sign = is_negative_lem op1 h1 in
    let top_bit : leb sign_bit op1 ≡ true → op1 / 2 ^ 31 ≡ 1 = λ t. ground (arith, t) in
    let top_clear : leb sign_bit op1 ≡ false → op1 / 2 ^ 31 ≡ 0 = λ f. ground (arith, f) in
    elim (Bool-cases (leb sign_bit op1)) [
      | inl t ↦
          rw (multiply_unsigned, sign, t)
            (mult_loop_lem 31 0 op1 op2 0 op2 refl h1 h2 (omega arith, h2)
              (omega (arith, ap (λ (x : ℕ). x * op2) (top_bit t))))
      | inr f ↦
          rw (multiply_unsigned, sign, f)
            (mult_loop_lem 31 0 op1 op2 0 0 refl h1 h2 (omega arith, omega arith)
              (omega (arith, ap (λ (x : ℕ). x * op2) (top_clear f))))
    ]

-- The absolute value of a word that is read as a signed number.
abbrev pub absolute : ℕ → ℕ
absolute op = if leb sign_bit op then 2 ^ 32 - op else op

magnitude_lem : (op : ℕ) → op < 2 ^ 32 → (magnitude op ≡ absolute op) × (absolute op < 2 ^ 32)
unfolding magnitude
magnitude_lem op h = (rw (magnitude, is_negative_lem op h) (ground arith), ground arith)

complemented_lem :
    (hi lo v : ℕ)
    → AreWords (hi, lo)
    → hi * 2 ^ 32 + lo ≡ v
    → (value (complemented (hi, lo)) ≡ (2 ^ 64 - v) % 2 ^ 64) × AreWords (complemented (hi, lo))
unfolding complemented
complemented_lem hi lo v words e = ground arith

-- The 64-bit two's complement of the product of two words that are read as signed numbers.
abbrev pub signed_product : ℕ → ℕ → ℕ
signed_product op1 op2 =
    if differ (leb sign_bit op1) (leb sign_bit op2)
    then (2 ^ 64 - absolute op1 * absolute op2) % 2 ^ 64
    else absolute op1 * absolute op2

-- InstMULT leaves the 64-bit product of the two words, read as signed numbers, in HI and LO, each of
-- which is a word.
pub multiply_signed_lem :
    (op1 op2 : ℕ)
    → op1 < 2 ^ 32
    → op2 < 2 ^ 32
    → (value (multiply_signed op1 op2) ≡ signed_product op1 op2)
      × AreWords (multiply_signed op1 op2)
unfolding multiply_signed
multiply_signed_lem op1 op2 h1 h2 =
    let (m1, small1) = magnitude_lem op1 h1 in
    let (m2, small2) = magnitude_lem op2 h2 in
    let product = multiply_unsigned_lem (absolute op1) (absolute op2) small1 small2 in
    let hi_lo = multiply_unsigned (absolute op1) (absolute op2) in
    elim (Bool-cases (differ (leb sign_bit op1) (leb sign_bit op2))) [
      | inl t ↦
          rw (multiply_signed, m1, m2, is_negative_lem op1 h1, is_negative_lem op2 h2, t)
            (complemented_lem hi_lo.0 hi_lo.1 (absolute op1 * absolute op2) product.1 product.0)
      | inr f ↦
          rw (multiply_signed, m1, m2, is_negative_lem op1 h1, is_negative_lem op2 h2, f) product
    ]
