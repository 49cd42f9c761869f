-- ===== src/Memory/Same.antt =====
-- The loads of memory.c change no byte.
use anycore_pisa.Base.{
  ℕ, ◌≡◌, sym, ap, ◌∙◌, Bool, Bool-cases, inl, inr, List, ok, bind-ok, ok-injective, if◌then◌else◌,
  Outcome, ◌>>=◌, subst,
}
use anycore_pisa.Blocks.{read_bytes}
use anycore_pisa.Memory.{Memory, is_shared, touch_shared, touch_private, load}
use anycore_pisa.Memory.Flat.{flat, touch, flat-touch}

-- Two memories with the same bytes.
abbrev pub SameBytes : Memory → Memory → Type 0
SameBytes q m = (x : ℕ) → flat q x ≡ flat m x

module _ (q : Memory) (bytes : List ℕ) where
  abbrev loaded : Memory → Outcome (List ℕ) → Outcome (Memory × List ℕ)
  loaded r read = read >>= λ b. ok (r, b)

  loaded_same : (r : Memory) (read : Outcome (List ℕ)) → loaded r read ≡ ok (q, bytes) → r ≡ q
  loaded_same r read e =
      let (b, _, last) = bind-ok read (λ b. ok (r, b)) (q, bytes) e in
      ap (λ (p : Memory × List ℕ). p.0) (ok-injective _ _ last)

pub load-SameBytes :
    (n : ℕ) (m q : Memory) (addr : ℕ) (bytes : List ℕ)
    → load n m addr ≡ ok (q, bytes)
    → SameBytes q m
unfolding load
load-SameBytes n m q addr bytes h x =
    let shared = touch_shared m addr in
    let private = touch_private m addr in
    let choose : Bool → Type 0 = λ b.
      (if b
        then loaded q bytes shared (read_bytes shared.shmem_table addr n)
        else loaded q bytes private (read_bytes private.mem_table addr n))
      ≡ ok (q, bytes) in
    let same : touch m addr ≡ q = elim (Bool-cases (is_shared m addr)) [
      | inl s ↦
          ap (λ b. if b then shared else private) s
          ∙ loaded_same q bytes shared _ (subst choose s h)
      | inr s ↦
          ap (λ b. if b then shared else private) s
          ∙ loaded_same q bytes private _ (subst choose s h)
    ] in
    ap (λ (r : Memory). flat r x) (sym same) ∙ flat-touch m addr x
