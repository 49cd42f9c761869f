-- ===== src/Memory/Strings.antt =====
-- mem_bzero and mem_strcpy of memory.cc.
use anycore_pisa.Base.{
  ℕ, zero, suc, ◌+◌, ◌<◌, ◌≡◌, refl, ap, ap₂, get_or, length-snoc, sym, ◌∙◌, List, [], ◌∷◌, ◌++◌,
  length, drop, replicate, add32, ok, arith,
}
use anycore_pisa.Blocks.View.{span, written, span-cong, span-written, written_cons, written_nil}
use anycore_pisa.Memory.{Memory, read, write, mem_access, mem_bzero, read_string, write_string}
use anycore_pisa.Memory.Flat.{flat, written_same}
use anycore_pisa.Memory.Access.{IsLow, is_permitted-low, Leaves}
use anycore_pisa.Memory.Copy.{
  Permits, Permits-first, Permits-next, Permits-read, Returns, IsLow-limits, Leaves-flat, in_low,
  next_address, read_byte, write_byte,
}

bzero_cons :
    (m q r : Memory) (addr n : ℕ) (p : List ℕ)
    → mem_access m write addr (0 ∷ []) 1 ≡ ok (q, p)
    → mem_bzero q (add32 addr 1) n ≡ ok r
    → mem_bzero m addr (suc n) ≡ ok r
unfolding mem_bzero
bzero_cons m q r addr n p e f = rw (e, f) refl

-- mem_bzero of permitted addresses in the lower half of the address space returns. It makes the
-- bytes there zeros, and changes no other byte of memory.
pub mem_bzero-Leaves :
    (m : Memory) (addr n : ℕ)
    → IsLow m
    → Permits m write addr n
    → (r : Memory) × (mem_bzero m addr n ≡ ok r)
      × Leaves m r (written (replicate n 0) (flat m) addr)
mem_bzero-Leaves m addr zero low h = (
  m,
  unfold mem_bzero in refl,
  record { keeps = refl; leaves = λ x i. sym (written_nil (flat m) addr x) },
)
mem_bzero-Leaves m addr (suc n) low h =
    let first = Permits-first m write addr n h in
    let (q, e, k) = write_byte m addr 0 low first in
    let next = next_address m write addr low first in
    let (r, f, g) =
      mem_bzero-Leaves q (addr + 1) n (IsLow-limits m q k.keeps low)
        (Permits-next m q write addr n k.keeps h) in
    (
      r,
      bzero_cons m q r addr n (0 ∷ []) e (ap (λ (a : ℕ). mem_bzero q a n) next ∙ f),
      record {
        keeps = g.keeps ∙ k.keeps;
        leaves = λ y i.
            g.leaves y i
            ∙ written_same (replicate n 0) (flat q) (written (0 ∷ []) (flat m) addr) (addr + 1) y
                (k.leaves y i)
            ∙ written_cons 0 (replicate n 0) (flat m) addr y;
      },
    )

-- No byte of a string is zero.
abbrev pub NonZero : List ℕ → Type 0
NonZero [] = Unit {0}
NonZero (c ∷ s) = (0 < c) × NonZero s

write_end :
    (m q : Memory) (addr : ℕ) (rest : List ℕ)
    → mem_access m write addr (0 ∷ []) 1 ≡ ok (q, 0 ∷ [])
    → write_string m addr (0 ∷ rest) ≡ ok (q, 1)
unfolding write_string
write_end m q addr rest e = rw e refl

write_cons :
    (m q r : Memory) (addr c n : ℕ) (s : List ℕ)
    → 0 < c
    → mem_access m write addr (c ∷ []) 1 ≡ ok (q, c ∷ [])
    → write_string q (add32 addr 1) s ≡ ok (r, n)
    → write_string m addr (c ∷ s) ≡ ok (r, n + 1)
unfolding write_string
write_cons m q r addr zero n s h e f = absurd (omega arith)
write_cons m q r addr (suc c) n s h e f = rw (e, f) refl

-- mem_strcpy to permitted addresses in the lower half of the address space copies a string with the
-- zero byte that ends it, returns the number of bytes, and changes no other byte of memory.
pub write_string-Returns :
    (m : Memory) (addr : ℕ) (s rest : List ℕ)
    → IsLow m
    → NonZero s
    → Permits m write addr (suc (length s))
    → Returns
        (write_string m addr (s ++ 0 ∷ rest))
        m
        (written (s ++ 0 ∷ []) (flat m) addr)
        (suc (length s))
write_string-Returns m addr [] rest low z h =
    let (q, e, k) = write_byte m addr 0 low (Permits-first m write addr 0 h) in
    (q, write_end m q addr rest e, k)
write_string-Returns m addr (c ∷ s) rest low z h =
    let first = Permits-first m write addr (suc (length s)) h in
    let (q, e, k) = write_byte m addr c low first in
    let next = next_address m write addr low first in
    let (r, f, g) =
      write_string-Returns q (addr + 1) s rest (IsLow-limits m q k.keeps low) z.1
        (Permits-next m q write addr (suc (length s)) k.keeps h) in
    (
      r,
      write_cons m q r addr c (suc (length s)) (s ++ 0 ∷ rest) z.0 e
            (ap (λ (a : ℕ). write_string q a (s ++ 0 ∷ rest)) next ∙ f)
          ∙ ap (λ (n : ℕ). ok (r, n)) (omega arith),
      record {
        keeps = g.keeps ∙ k.keeps;
        leaves = λ y i.
            g.leaves y i
            ∙ written_same (s ++ 0 ∷ []) (flat q) (written (c ∷ []) (flat m) addr) (addr + 1) y
                (k.leaves y i)
            ∙ written_cons c (s ++ 0 ∷ []) (flat m) addr y;
      },
    )

read_end :
    (m q : Memory) (addr x c : ℕ) (buffer : List ℕ)
    → mem_access m read addr (x ∷ []) 1 ≡ ok (q, c ∷ [])
    → c ≡ 0
    → read_string m addr (x ∷ buffer) ≡ ok (q, c ∷ buffer, 1)
unfolding read_string
read_end m q addr x zero buffer e z = rw e refl
read_end m q addr x (suc c) buffer e z = absurd (omega arith)

read_cons :
    (m q r : Memory) (addr x c n : ℕ) (buffer s : List ℕ)
    → mem_access m read addr (x ∷ []) 1 ≡ ok (q, c ∷ [])
    → 0 < c
    → read_string q (add32 addr 1) buffer ≡ ok (r, s, n)
    → read_string m addr (x ∷ buffer) ≡ ok (r, c ∷ s, n + 1)
unfolding read_string
read_cons m q r addr x zero n buffer s e h f = absurd (omega arith)
read_cons m q r addr x (suc c) n buffer s e h f = rw (e, f) refl

-- mem_strcpy from permitted addresses in the lower half of the address space, where memory holds a
-- string and the zero byte that ends it, copies them to an object with room for them, returns the
-- number of bytes, and changes no byte of memory.
pub read_string-Returns :
    (m : Memory) (addr : ℕ) (s buffer : List ℕ)
    → IsLow m
    → NonZero s
    → Permits m read addr (suc (length s))
    → length s < length buffer
    → span (suc (length s)) (flat m) addr ≡ s ++ 0 ∷ []
    → (r : Memory) × (read_string m addr buffer
        ≡ ok (r, s ++ 0 ∷ drop (suc (length s)) buffer, suc (length s)))
      × Leaves m r (flat m)
read_string-Returns m addr s [] low z h l e = absurd (omega arith)
read_string-Returns m addr [] (x ∷ buffer) low z h l e =
    let (q, a, k) = read_byte m addr x low (Permits-first m read addr 0 h) in
    let zero_byte : flat m addr ≡ 0 = ap (λ (b : List ℕ). get_or b 0 0) e in
    (
      q,
      read_end m q addr x (flat m addr) buffer a zero_byte
          ∙ ap (λ (c : ℕ). ok (q, c ∷ buffer, 1)) zero_byte,
      k,
    )
read_string-Returns m addr (c ∷ s) (x ∷ buffer) low z h l e =
    let first = Permits-first m read addr (suc (length s)) h in
    let (q, a, k) = read_byte m addr x low first in
    let next = next_address m read addr low first in
    let here : flat m addr ≡ c = ap (λ (b : List ℕ). get_or b 0 0) e in
    let there : span (suc (length s)) (flat m) (addr + 1) ≡ s ++ 0 ∷ [] = ap (drop 1) e in
    let same_span =
      span-cong (suc (length s)) (flat q) (flat m) (addr + 1)
        (λ i o. k.leaves (addr + 1 + i) (in_low m read addr (suc (length s)) low h i o)) in
    let (r, f, g) =
      read_string-Returns q (addr + 1) s buffer (IsLow-limits m q k.keeps low) z.1
        (Permits-next m q read addr (suc (length s)) k.keeps h) (omega arith) (same_span ∙ there) in
    (
      r,
      read_cons m q r addr x (flat m addr) (suc (length s)) buffer
            (s ++ 0 ∷ drop (suc (length s)) buffer) a (omega (arith, here, z.0))
            (ap (λ (a : ℕ). read_string q a buffer) next ∙ f)
          ∙ ap₂ (λ (b n : ℕ). ok (r, b ∷ s ++ 0 ∷ drop (suc (length s)) buffer, n)) here
              (omega arith),
      Leaves-flat m q r k g,
    )

-- A string that mem_strcpy writes to permitted addresses, mem_strcpy reads back.
pub write_string-roundtrip :
    (m : Memory) (addr : ℕ) (s rest buffer : List ℕ)
    → IsLow m
    → NonZero s
    → Permits m write addr (suc (length s))
    → length s < length buffer
    → (q : Memory) × (r : Memory) × (write_string m addr (s ++ 0 ∷ rest) ≡ ok (q, suc (length s)))
      × (read_string q addr buffer ≡ ok (r, s ++ 0 ∷ drop (suc (length s)) buffer, suc (length s)))
write_string-roundtrip m addr s rest buffer low z h l =
    let (q, e, k) = write_string-Returns m addr s rest low z h in
    let all : suc (length s) ≡ length (s ++ 0 ∷ []) = omega (arith, length-snoc s 0) in
    let bytes : span (suc (length s)) (flat q) addr ≡ s ++ 0 ∷ [] =
      span-cong (suc (length s)) (flat q) (written (s ++ 0 ∷ []) (flat m) addr) addr (λ i o.
        k.leaves (addr + i) (omega (arith, is_permitted-low m write (addr + i) low (h i o))))
      ∙ ap (λ (n : ℕ). span n (written (s ++ 0 ∷ []) (flat m) addr) addr) all
      ∙ span-written (s ++ 0 ∷ []) (flat m) addr in
    let (r, f, g) =
      read_string-Returns q addr s buffer (IsLow-limits m q k.keeps low) z
        (Permits-read m q addr (suc (length s)) k.keeps h) l bytes in
    (q, r, e, f)
