-- ===== src/Unaligned/Pairs.antt =====
-- Pairs of LWL and LWR, and of SWL and SWR, of I_hate_these_instructions.h: what compilers use them
-- for, a load or a store of a word at any address.
use anycore_pisa.Base.{ℕ, ◌+◌, ◌*◌, ◌/◌, ◌%◌, ◌<◌, ◌^◌, ◌≡◌, ◌⊎◌, inl, inr, ap, ◌∙◌, bit_and, arith}
use anycore_pisa.Base.Bits.{bit_and-mask}
use anycore_pisa.Unaligned.{lwl_macro, lwr_macro, swl_macro, swr_macro}
use anycore_pisa.Unaligned.Lanes.{
  lwl_at, lwr_at, swl_at, swr_at, lwl_at_0, lwl_at_1, lwl_at_2, lwl_at_3, lwr_at_0, lwr_at_1,
  lwr_at_2, lwr_at_3, swl_at_0, swl_at_1, swl_at_2, swr_at_1, swr_at_2, swr_at_3,
}

-- The word `r` bytes after the start of two consecutive words.
abbrev pub word_at : ℕ → ℕ → ℕ → ℕ
word_at r low high = (low + 2 ^ 32 * high) / 2 ^ (8 * r) % 2 ^ 32

remainders : (a : ℕ) → (a % 4 ≡ 0) ⊎ (a % 4 ≡ 1) ⊎ (a % 4 ≡ 2) ⊎ (a % 4 ≡ 3)
remainders a = ground arith

low_digits : (addr r : ℕ) → addr % 4 ≡ r → bit_and addr 3 ≡ r
low_digits addr r h = bit_and-mask 2 addr ∙ h

lwl_macro_at : (addr r w b : ℕ) → addr % 4 ≡ r → lwl_macro addr w b ≡ lwl_at r w b
unfolding lwl_macro
lwl_macro_at addr r w b h = ap (λ (s : ℕ). lwl_at s w b) (low_digits addr r h)

lwr_macro_at : (addr r w b : ℕ) → addr % 4 ≡ r → lwr_macro addr w b ≡ lwr_at r w b
unfolding lwr_macro
lwr_macro_at addr r w b h = ap (λ (s : ℕ). lwr_at s w b) (low_digits addr r h)

swl_macro_at : (addr r w b : ℕ) → addr % 4 ≡ r → swl_macro addr w b ≡ swl_at r w b
unfolding swl_macro
swl_macro_at addr r w b h = ap (λ (s : ℕ). swl_at s w b) (low_digits addr r h)

swr_macro_at : (addr r w b : ℕ) → addr % 4 ≡ r → swr_macro addr w b ≡ swr_at r w b
unfolding swr_macro
swr_macro_at addr r w b h = ap (λ (s : ℕ). swr_at s w b) (low_digits addr r h)

-- LWR at an address and LWL three bytes further on load the word at the address from the two words
-- that it lies in, whatever the register held. At an aligned address the two words are the same.
pub lwl_macro-lwr_macro :
    (addr low high old : ℕ)
    → low < 2 ^ 32
    → high < 2 ^ 32
    → old < 2 ^ 32
    → (addr % 4 ≡ 0 → high ≡ low)
    → lwl_macro (addr + 3) high (lwr_macro addr low old) ≡ word_at (addr % 4) low high
lwl_macro-lwr_macro addr low high old l h o e = elim (remainders addr) [
  | inl r ↦
      let right = lwr_macro_at addr 0 low old r ∙ lwr_at_0 low old l o in
      let left =
        lwl_macro_at (addr + 3) 3 high (lwr_macro addr low old) (omega arith)
        ∙ lwl_at_3 high (lwr_macro addr low old) h in
      omega (arith, right, left, ap (λ (s : ℕ). word_at s low high) r, e r)
  | inr (inl r) ↦
      let right = lwr_macro_at addr 1 low old r ∙ lwr_at_1 low old l o in
      let left =
        lwl_macro_at (addr + 3) 0 high (lwr_macro addr low old) (omega arith)
        ∙ lwl_at_0 high (lwr_macro addr low old) h in
      omega (arith, right, left, ap (λ (s : ℕ). word_at s low high) r)
  | inr (inr (inl r)) ↦
      let right = lwr_macro_at addr 2 low old r ∙ lwr_at_2 low old l o in
      let left =
        lwl_macro_at (addr + 3) 1 high (lwr_macro addr low old) (omega arith)
        ∙ lwl_at_1 high (lwr_macro addr low old) h in
      omega (arith, right, left, ap (λ (s : ℕ). word_at s low high) r)
  | inr (inr (inr r)) ↦
      let right = lwr_macro_at addr 3 low old r ∙ lwr_at_3 low old l o in
      let left =
        lwl_macro_at (addr + 3) 2 high (lwr_macro addr low old) (omega arith)
        ∙ lwl_at_2 high (lwr_macro addr low old) h in
      omega (arith, right, left, ap (λ (s : ℕ). word_at s low high) r)
]

-- SWR at an address that is not aligned and SWL three bytes further on store a word in the two words
-- that it lies in: LWR and LWL load it back, and the bytes before and after it stay.
pub swl_macro-swr_macro :
    (addr word low high : ℕ)
    → word < 2 ^ 32
    → low < 2 ^ 32
    → high < 2 ^ 32
    → 0 < addr % 4
    → (word_at (addr % 4) (swr_macro addr word low) (swl_macro (addr + 3) word high) ≡ word)
      × (swr_macro addr word low % 2 ^ (8 * (addr % 4)) ≡ low % 2 ^ (8 * (addr % 4)))
      × (swl_macro (addr + 3) word high / 2 ^ (8 * (addr % 4)) ≡ high / 2 ^ (8 * (addr % 4)))
swl_macro-swr_macro addr word low high w l h u = elim (remainders addr) [
  | inl r ↦ absurd (omega arith)
  | inr (inl r) ↦
      let right = swr_macro_at addr 1 word low r ∙ swr_at_1 word low w in
      let left = swl_macro_at (addr + 3) 0 word high (omega arith) ∙ swl_at_0 word high w h in
      rw r (omega (arith, right, left), omega (arith, right, left), omega (arith, right, left))
  | inr (inr (inl r)) ↦
      let right = swr_macro_at addr 2 word low r ∙ swr_at_2 word low w in
      let left = swl_macro_at (addr + 3) 1 word high (omega arith) ∙ swl_at_1 word high w h in
      rw r (omega (arith, right, left), omega (arith, right, left), omega (arith, right, left))
  | inr (inr (inr r)) ↦
      let right = swr_macro_at addr 3 word low r ∙ swr_at_3 word low w in
      let left = swl_macro_at (addr + 3) 2 word high (omega arith) ∙ swl_at_2 word high w h in
      rw r (omega (arith, right, left), omega (arith, right, left), omega (arith, right, left))
]
