-- ===== src/Memory/Copy.antt =====
-- The copy loops of memory.cc, byte by byte.
use anycore_pisa.Base.{
  ℕ, zero, suc, ◌+◌, ◌≤◌, ◌<◌, ◌^◌, ◌≡◌, refl, ap, subst, sym, ◌∙◌, Bool, true, ◌&&◌, ◌||◌, inl,
  inr, List, [], ◌∷◌, ◌++◌, ltb, leb, length, take, drop, add32, Outcome, ok, arith,
}
use anycore_pisa.Blocks.View.{span, written, span-cong, span-written, written_cons, written_nil}
use anycore_pisa.Memory.{
  Memory, MemCmd, read, write, is_permitted, is_read, is_shared, mem_access, mem_bcopy,
}
use anycore_pisa.Memory.Flat.{flat, IsUniform, written_same}
use anycore_pisa.Memory.Access.{
  Limits, limits, IsLow, is_permitted-low, Leaves, byte, mem_access-read, mem_access-write,
}

-- The addresses of a copy are permitted.
abbrev pub Permits : Memory → MemCmd → ℕ → ℕ → Type 0
Permits m cmd addr n = (i : ℕ) → i < n → is_permitted m cmd (addr + i) ≡ true

IsUniform-byte : (m : Memory) (addr : ℕ) → IsUniform m addr 1
IsUniform-byte m addr i h = ap (λ (x : ℕ). is_shared m x) (omega arith)

-- A copy that returns, with what it leaves in memory and in the object.
abbrev pub Returns {ℓ} : {A : Type ℓ} → Outcome (Memory × A) → Memory → (ℕ → ℕ) → A → Type ℓ
Returns o m bytes q = (m' : Memory) × (o ≡ ok (m', q)) × Leaves m m' bytes

pub write_byte :
    (m : Memory) (addr x : ℕ)
    → IsLow m
    → is_permitted m write addr ≡ true
    → Returns (mem_access m write addr (x ∷ []) 1) m (written (x ∷ []) (flat m) addr) (x ∷ [])
write_byte m addr x low h =
    elim (mem_access-write byte m addr (x ∷ []) low (IsUniform-byte m addr) refl) [
      | inl (f, e) ↦ absurd (ground arith)
      | inr (t, q, e, k) ↦ (q, e, k)
    ]

pub read_byte :
    (m : Memory) (addr x : ℕ)
    → IsLow m
    → is_permitted m read addr ≡ true
    → Returns (mem_access m read addr (x ∷ []) 1) m (flat m) (flat m addr ∷ [])
read_byte m addr x low h =
    elim (mem_access-read byte m addr (x ∷ []) low (IsUniform-byte m addr) refl) [
      | inl (f, e) ↦ absurd (ground arith)
      | inr (t, q, e, k) ↦ (q, e, k)
    ]

abbrev permitted_by : Limits → MemCmd → ℕ → Bool
permitted_by l cmd addr =
    (leb l.ld_text_base addr && ltb addr (add32 l.ld_text_base l.ld_text_size) && is_read cmd)
    || (leb l.ld_data_base addr && ltb addr l.ld_stack_base)

abbrev LowBy : Limits → Type 0
LowBy l = (l.ld_text_base + l.ld_text_size ≤ 2 ^ 31) × (l.ld_stack_base ≤ 2 ^ 31)

pub IsLow-limits : (m q : Memory) → limits q ≡ limits m → IsLow m → IsLow q
IsLow-limits m q e = subst LowBy (sym e)

pub Permits-next :
    (m q : Memory) (cmd : MemCmd) (addr n : ℕ)
    → limits q ≡ limits m
    → Permits m cmd addr (suc n)
    → Permits q cmd (addr + 1) n
Permits-next m q cmd addr n e h i l =
    ap (λ k. permitted_by k cmd (addr + 1 + i)) e
    ∙ ap (λ (x : ℕ). is_permitted m cmd x) (omega arith)
    ∙ h (i + 1) (omega arith)

pub Permits-first :
    (m : Memory) (cmd : MemCmd) (addr n : ℕ)
    → Permits m cmd addr (suc n)
    → is_permitted m cmd addr ≡ true
Permits-first m cmd addr n h =
    ap (λ (x : ℕ). is_permitted m cmd x) (omega arith) ∙ h 0 (omega arith)

pub next_address :
    (m : Memory) (cmd : MemCmd) (addr : ℕ)
    → IsLow m
    → is_permitted m cmd addr ≡ true
    → add32 addr 1 ≡ addr + 1
next_address m cmd addr low h = omega (arith, is_permitted-low m cmd addr low h)

mem_bcopy-cons :
    (m q : Memory) (cmd : MemCmd) (addr x y n : ℕ) (p : List ℕ) (r : Memory) (z : List ℕ)
    → mem_access m cmd addr (x ∷ []) 1 ≡ ok (q, y ∷ [])
    → mem_bcopy q cmd (add32 addr 1) p n ≡ ok (r, z)
    → mem_bcopy m cmd addr (x ∷ p) (suc n) ≡ ok (r, y ∷ z)
unfolding mem_bcopy
mem_bcopy-cons m q cmd addr x y n p r z e f = rw (e, f) refl

-- mem_bcopy to permitted addresses in the lower half of the address space returns. It replaces the
-- bytes there by the first bytes of the object, and changes no other byte of memory.
pub mem_bcopy-write :
    (m : Memory) (addr : ℕ) (p : List ℕ) (n : ℕ)
    → IsLow m
    → Permits m write addr n
    → n ≤ length p
    → Returns (mem_bcopy m write addr p n) m (written (take n p) (flat m) addr) p
mem_bcopy-write m addr p zero low h l = (
  m,
  unfold mem_bcopy in refl,
  record { keeps = refl; leaves = λ x i. sym (written_nil (flat m) addr x) },
)
mem_bcopy-write m addr [] (suc n) low h l = absurd (omega arith)
mem_bcopy-write m addr (x ∷ p) (suc n) low h l =
    let first = Permits-first m write addr n h in
    let (q, e, k) = write_byte m addr x low first in
    let next = next_address m write addr low first in
    let (r, f, g) =
      mem_bcopy-write q (addr + 1) p n (IsLow-limits m q k.keeps low)
        (Permits-next m q write addr n k.keeps h) (omega arith) in
    (
      r,
      mem_bcopy-cons m q write addr x x n p r p e
          (ap (λ (a : ℕ). mem_bcopy q write a p n) next ∙ f),
      record {
        keeps = g.keeps ∙ k.keeps;
        leaves = λ y i.
            g.leaves y i
            ∙ written_same (take n p) (flat q) (written (x ∷ []) (flat m) addr) (addr + 1) y
                (k.leaves y i)
            ∙ written_cons x (take n p) (flat m) addr y;
      },
    )

pub in_low :
    (m : Memory) (cmd : MemCmd) (addr n : ℕ)
    → IsLow m
    → Permits m cmd addr (suc n)
    → (i : ℕ) → i < n
    → addr + 1 + i < 2 ^ 32
in_low m cmd addr n low h i o =
    omega (arith, is_permitted-low m cmd (addr + (i + 1)) low (h (i + 1) (omega arith)))

pub Leaves-flat : (m q r : Memory) → Leaves m q (flat m) → Leaves q r (flat q) → Leaves m r (flat m)
Leaves-flat m q r k g = record {
  keeps = g.keeps ∙ k.keeps;
  leaves = λ y i. g.leaves y i ∙ k.leaves y i;
}

-- mem_bcopy from permitted addresses in the lower half of the address space returns. It replaces the
-- first bytes of the object by the bytes of memory, and changes no byte of memory.
pub mem_bcopy-read :
    (m : Memory) (addr : ℕ) (p : List ℕ) (n : ℕ)
    → IsLow m
    → Permits m read addr n
    → n ≤ length p
    → Returns (mem_bcopy m read addr p n) m (flat m) (span n (flat m) addr ++ drop n p)
mem_bcopy-read m addr p zero low h l =
    (m, unfold mem_bcopy in refl, record { keeps = refl; leaves = λ x i. refl })
mem_bcopy-read m addr [] (suc n) low h l = absurd (omega arith)
mem_bcopy-read m addr (x ∷ p) (suc n) low h l =
    let first = Permits-first m read addr n h in
    let (q, e, k) = read_byte m addr x low first in
    let next = next_address m read addr low first in
    let (r, f, g) =
      mem_bcopy-read q (addr + 1) p n (IsLow-limits m q k.keeps low)
        (Permits-next m q read addr n k.keeps h) (omega arith) in
    (
      r,
      mem_bcopy-cons m q read addr x (flat m addr) n p r (span n (flat q) (addr + 1) ++ drop n p) e
            (ap (λ (a : ℕ). mem_bcopy q read a p n) next ∙ f)
          ∙ ap (λ (b : List ℕ). ok (r, flat m addr ∷ b ++ drop n p))
              (span-cong n (flat q) (flat m) (addr + 1)
                (λ i o. k.leaves (addr + 1 + i) (in_low m read addr n low h i o))),
      Leaves-flat m q r k g,
    )

pub take_all : (p : List ℕ) → take (length p) p ≡ p
take_all [] = refl
take_all (x ∷ p) = ap (◌∷◌ x) (take_all p)

is_permitted-read :
    (m : Memory) (addr : ℕ) → is_permitted m write addr ≡ true → is_permitted m read addr ≡ true
is_permitted-read m addr h = ground arith

pub Permits-read :
    (m r : Memory) (addr n : ℕ)
    → limits r ≡ limits m
    → Permits m write addr n
    → Permits r read addr n
Permits-read m r addr n e h i l =
    ap (λ k. permitted_by k read (addr + i)) e ∙ is_permitted-read m (addr + i) (h i l)

-- What mem_bcopy writes to permitted addresses, mem_bcopy reads back.
pub mem_bcopy-roundtrip :
    (m : Memory) (addr : ℕ) (p q : List ℕ)
    → IsLow m
    → Permits m write addr (length p)
    → length p ≤ length q
    → (r : Memory) × (s : Memory) × (mem_bcopy m write addr p (length p) ≡ ok (r, p))
      × (mem_bcopy r read addr q (length p) ≡ ok (s, p ++ drop (length p) q))
mem_bcopy-roundtrip m addr p q low h l =
    let (r, e, k) = mem_bcopy-write m addr p (length p) low h (omega arith) in
    let (s, f, g) =
      mem_bcopy-read r addr q (length p) (IsLow-limits m r k.keeps low)
        (Permits-read m r addr (length p) k.keeps h) l in
    let bytes : span (length p) (flat r) addr ≡ p =
      span-cong (length p) (flat r) (written p (flat m) addr) addr (λ i o.
        k.leaves (addr + i) (omega (arith, is_permitted-low m write (addr + i) low (h i o)))
        ∙ ap (λ (v : List ℕ). written v (flat m) addr (addr + i)) (take_all p))
      ∙ span-written p (flat m) addr in
    (r, s, e, f ∙ ap (λ (b : List ℕ). ok (s, b ++ drop (length p) q)) bytes)
