-- ===== src/Base/Ring.antt =====
-- A circular array: the indices that follow `h` modulo `n`, written without division, and the
-- elements that a run of such indices holds.
use native.Mathlib.Numerals.{add-one, sub-one}
use anycore_pisa.Base.{
  ℕ, zero, suc, ◌+◌, ◌-◌, ◌≤◌, ◌<◌, ◌≡◌, refl, ap, ap₂, subst, sym, List, [], ◌∷◌, ◌++◌, arith, ltb,
  leb, ◌==◌, if◌then◌else◌, length, get_or, set, length-append, get_or-set_ne, get_or-set_self,
}

abbrev pub next : ℕ → ℕ → ℕ
next n x = if x + 1 == n then 0 else x + 1

abbrev pub slot : ℕ → ℕ → ℕ → ℕ
slot n h k = if ltb (h + k) n then h + k else h + k - n

pub slot-lt : (n h k : ℕ) → h < n → k ≤ n → slot n h k < n
slot-lt n h k p q = ground arith

pub slot-next : (n h k : ℕ) → h < n → k < n → slot n (next n h) k ≡ slot n h (suc k)
slot-next n h k p q = ground arith

pub next-slot : (n h k : ℕ) → h < n → k < n → next n (slot n h k) ≡ slot n h (suc k)
next-slot n h k p q = ground arith

pub slot-injective : (n h i j : ℕ) → h < n → i < n → j < n → slot n h i ≡ slot n h j → i ≡ j
slot-injective n h i j p q r e = ground arith

-- The inverse of `slot`: how far `e` lies behind `h`.
abbrev pub offset : ℕ → ℕ → ℕ → ℕ
offset n h e = if leb h e then e - h else e + n - h

pub slot-offset : (n h e : ℕ) → h < n → e < n → (offset n h e < n) × (slot n h (offset n h e) ≡ e)
slot-offset n h e p q = ground arith

pub offset-slot : (n h k : ℕ) → h < n → k < n → offset n h (slot n h k) ≡ k
offset-slot n h k p q = ground arith

module _ {ℓ} {A : Type ℓ} (d : A) (n : ℕ) where
  -- The first `k` elements from index `h` on, going round at `n`.
  abbrev pub entries : List A → ℕ → ℕ → List A
  entries xs h zero = []
  entries xs h (suc k) = entries xs h k ++ get_or xs (slot n h k) d ∷ []

  pub length-entries : (xs : List A) (h k : ℕ) → length (entries xs h k) ≡ k
  length-entries xs h zero = refl
  length-entries xs h (suc k) =
      omega (
        arith,
        length-entries xs h k,
        length-append (entries xs h k) (get_or xs (slot n h k) d ∷ []),
      )

  -- The run starts with the element at `h` and goes on behind it.
  pub entries-cons :
      (xs : List A) (h k : ℕ)
      → h < n
      → k < n
      → entries xs h (suc k) ≡ get_or xs h d ∷ entries xs (next n h) k
  entries-cons xs h zero p q = ap (λ i. get_or xs i d ∷ []) (ground arith)
  entries-cons xs h (suc k) p q = rw (entries-cons xs h k p (omega arith)) (
      ap (λ i. get_or xs h d ∷ (entries xs (next n h) k ++ get_or xs i d ∷ []))
        (sym (slot-next n h k p (omega arith))))

  -- A write at an index outside of the run does not show in it.
  pub entries-set_outside :
      (xs : List A) (h k m : ℕ) (v : A)
      → h < n
      → k ≤ m
      → m < n
      → entries (set xs (slot n h m) v) h k ≡ entries xs h k
  entries-set_outside xs h zero m v p q r = refl
  entries-set_outside xs h (suc k) m v p q r =
      ap₂ (λ es e. es ++ e ∷ []) (entries-set_outside xs h k m v p (omega arith) r)
        (get_or-set_ne xs (slot n h m) (slot n h k) v d (ground arith))

  -- A write at the last index of the run replaces its last element.
  pub entries-set_last :
      (xs : List A) (h k : ℕ) (v : A)
      → h < n
      → k < n
      → n ≤ length xs
      → entries (set xs (slot n h k) v) h (suc k) ≡ entries xs h k ++ v ∷ []
  entries-set_last xs h k v p q r =
      ap₂ (λ es e. es ++ e ∷ []) (entries-set_outside xs h k k v p (omega arith) q)
        (get_or-set_self xs (slot n h k) v d (ground arith))

  -- The same two facts as the code of a queue meets them: it counts up, and down.
  pub entries-push :
      (xs : List A) (h k t : ℕ) (v : A)
      → h < n
      → k < n
      → n ≤ length xs
      → t ≡ slot n h k
      → entries (set xs t v) h (k + 1) ≡ entries xs h k ++ v ∷ []
  entries-push xs h k t v p q r e = rw add-one (
      subst (λ i. entries (set xs i v) h (suc k) ≡ entries xs h k ++ v ∷ []) (sym e)
        (entries-set_last xs h k v p q r))

  pub entries-pop :
      (xs : List A) (h k : ℕ)
      → h < n
      → 0 < k
      → k ≤ n
      → entries xs h k ≡ get_or xs h d ∷ entries xs (next n h) (k - 1)
  entries-pop xs h zero p q r = absurd (omega arith)
  entries-pop xs h (suc k) p q r = rw sub-one (entries-cons xs h k p r)

  -- A write at the last index of a run that is not empty changes its last element only.
  pub entries-update :
      (xs : List A) (h k t : ℕ) (v : A)
      → h < n
      → 0 < k
      → k ≤ n
      → n ≤ length xs
      → t < n
      → next n t ≡ slot n h k
      → (entries xs h k ≡ entries xs h (k - 1) ++ get_or xs t d ∷ [])
        × (entries (set xs t v) h k ≡ entries xs h (k - 1) ++ v ∷ [])
  entries-update xs h zero t v p q r s u e = absurd (omega arith)
  entries-update xs h (suc k) t v p q r s u e =
      let at_last : slot n h k ≡ t = ground arith in
      subst
        (λ i.
          (entries xs h (suc k) ≡ entries xs h (suc k - 1) ++ get_or xs i d ∷ [])
          × (entries (set xs i v) h (suc k) ≡ entries xs h (suc k - 1) ++ v ∷ []))
        at_last (rw sub-one (refl, entries-set_last xs h k v p r s))
