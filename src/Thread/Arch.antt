-- ===== src/Thread/Arch.antt =====
-- get_arch_mem_value of arch.cc: the doubleword around an address.
use anycore_pisa.Base.{
  ℕ, ◌+◌, ◌*◌, ◌/◌, ◌%◌, ◌<◌, ◌^◌, ◌≡◌, refl, ap, sym, ◌∙◌, ◌-◌, bit_and, not32, true, List, Bool,
  Bool-cases, inl, inr, subst, bind-ok, ok-injective, if◌then◌else◌, add32, Outcome, ok, ◌>>=◌,
  arith,
}
use anycore_pisa.Base.Bits.{bit_and-fields, bit_and-mask, bit_and-zero}
use anycore_pisa.Blocks.{word_of}
use anycore_pisa.Blocks.View.{span, span-cong}
use anycore_pisa.Memory.{Memory, is_shared, load}
use anycore_pisa.Memory.Flat.{flat, IsUniform, touch, load-flat, flat-touch}
use anycore_pisa.Memory.Same.{SameBytes, load-SameBytes}
use anycore_pisa.Memory.Access.{IsLow, word, is_inside-aligned, touch-limits, IsUniform-limits}
use anycore_pisa.Thread.{get_arch_mem_value, is_mapped}

doubleword_lem : (n : ℕ) → n < 2 ^ 32 → bit_and n (not32 7) ≡ n / 8 * 8
doubleword_lem n h =
    let digits : n ≡ n / 2 ^ 3 * 2 ^ 3 + n % 2 ^ 3 = omega arith in
    omega (
      arith,
      ap (λ (t : ℕ). bit_and t (not32 7)) digits,
      bit_and-fields 3 (n / 2 ^ 3) (n % 2 ^ 3) (2 ^ 29 - 1) 0 (omega arith) (omega arith),
      bit_and-mask 29 (n / 2 ^ 3),
      bit_and-zero (n % 2 ^ 3),
    )

-- get_arch_mem_value at the address of its doubleword.
abbrev arch_at : Memory → ℕ → Outcome (Memory × ℕ × ℕ)
arch_at m address =
    if is_mapped m address
    then (do
      (m', upper) ← load 4 m (add32 address 4)
      (m'', lower) ← load 4 m' address
      ok (m'', word_of upper, word_of lower))
    else ok (m, 0, 0)

two_loads :
    (m q r : Memory) (b c : ℕ) (upper lower : List ℕ)
    → is_mapped m b ≡ true
    → add32 b 4 ≡ c
    → load 4 m c ≡ ok (q, upper)
    → load 4 q b ≡ ok (r, lower)
    → arch_at m b ≡ ok (r, word_of upper, word_of lower)
two_loads m q r b c upper lower e n f g = rw (e, n, f, g) refl

-- For a mapped address, of memory with its segments in the lower half of the address space, whose
-- doubleword is all shared or all private, get_arch_mem_value gives the two words of the doubleword,
-- the word at the higher address first, and changes no byte of memory.
pub get_arch_mem_value-flat :
    (m : Memory) (n : ℕ)
    → IsLow m
    → n < 2 ^ 32
    → is_mapped m (n / 8 * 8) ≡ true
    → IsUniform m (n / 8 * 8) 8
    → (q : Memory) × (get_arch_mem_value m n
        ≡ ok (q, word_of (span 4 (flat m) (n / 8 * 8 + 4)), word_of (span 4 (flat m) (n / 8 * 8))))
      × ((x : ℕ) → flat q x ≡ flat m x)
unfolding get_arch_mem_value
get_arch_mem_value-flat m n low h mapped u =
    let base = n / 8 * 8 in
    let address = doubleword_lem n h in
    let below : base < 2 ^ 31 = ground arith in
    let next : add32 base 4 ≡ base + 4 = omega arith in
    let in_upper = is_inside-aligned word (base + 4) (omega arith) (omega arith) in
    let in_lower = is_inside-aligned word base (omega arith) (omega arith) in
    let u_upper : IsUniform m (base + 4) 4 = λ i l.
      ap (λ (x : ℕ). is_shared m x) (omega arith)
      ∙ u (4 + i) (omega arith)
      ∙ sym (u 4 (omega arith)) in
    let u_lower : IsUniform m base 4 = λ i l. u i (omega arith) in
    let mid = touch m (base + 4) in
    let u_mid = IsUniform-limits m mid base 4 (touch-limits m (base + 4)) u_lower in
    let upper = load-flat 4 m (base + 4) in_upper (omega arith) u_upper in
    let lower = load-flat 4 mid base in_lower (omega arith) u_mid in
    (
      touch mid base,
      ap (arch_at m) address
          ∙ two_loads m mid (touch mid base) base (base + 4) (span 4 (flat m) (base + 4))
              (span 4 (flat mid) base) mapped next upper lower
          ∙ ap
              (λ (b : List ℕ). ok (touch mid base, word_of (span 4 (flat m) (base + 4)), word_of b))
              (span-cong 4 (flat mid) (flat m) base (λ i l. flat-touch m (base + 4) (base + i))),
      λ x. flat-touch mid base x ∙ flat-touch m (base + 4) x,
    )

-- Whatever address is asked for, get_arch_mem_value changes no byte of memory.
pub get_arch_mem_value-SameBytes :
    (m q : Memory) (n upper lower : ℕ)
    → get_arch_mem_value m n ≡ ok (q, upper, lower)
    → SameBytes q m
unfolding get_arch_mem_value
get_arch_mem_value-SameBytes m q n upper lower h x =
    let base = bit_and n (not32 7) in
    let choose : Bool → Type 0 = λ b.
      (if b then (load 4 m (add32 base 4) >>= upper_loaded base) else ok (m, 0, 0))
      ≡ ok (q, upper, lower) in
    elim (Bool-cases (is_mapped m base)) [
      | inl s ↦
          let ((m', high), e1, rest) =
            bind-ok (load 4 m (add32 base 4)) (upper_loaded base) (q, upper, lower)
              (subst choose s h) in
          let ((m'', low), e2, last) =
            bind-ok (load 4 m' base) (λ r. ok (r.0, word_of high, word_of r.1)) (q, upper, lower)
              rest in
          let same : m'' ≡ q = ap (λ (r : Memory × ℕ × ℕ). r.0) (ok-injective _ _ last) in
          ap (λ (r : Memory). flat r x) (sym same)
          ∙ load-SameBytes 4 m' m'' base low e2 x
          ∙ load-SameBytes 4 m m' (add32 base 4) high e1 x
      | inr s ↦
          let same : m ≡ q =
            ap (λ (r : Memory × ℕ × ℕ). r.0) (ok-injective _ _ (subst choose s h)) in
          ap (λ (r : Memory). flat r x) (sym same)
    ]
  where
    upper_loaded : ℕ → Memory × List ℕ → Outcome (Memory × ℕ × ℕ)
    upper_loaded base r = load 4 r.0 base >>= λ s. ok (s.0, word_of r.1, word_of s.1)
