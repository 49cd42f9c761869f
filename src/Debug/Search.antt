-- ===== src/Debug/Search.antt =====
-- `first`, `check_next` and `find`: looking up entries of a valid buffer by program counter.
use anycore_pisa.Base.{
  ℕ, zero, suc, ◌+◌, ◌-◌, ◌≤◌, ◌<◌, ◌≡◌, ◌≢◌, refl, ap, subst, ◌∙◌, ◌⊎◌, inl, inr, arith, ltb, ◌==◌,
  if◌then◌else◌, ok, fail, aborted, out_of_fuel, add32, mod_mask,
}
use native.Mathlib.Decide.{ℕ_discrete}
use anycore_pisa.Base.Ring.{next, slot, slot-lt, next-slot, offset-slot}
use anycore_pisa.Debug.Inv.{IsValid, entry_at, advance, at_valid, is_active_lem}
use anycore_pisa.Debug.{
  DebugBuffer, is_active, first, check_next, find, find_from, debug_index_invalid,
}

-- The index of the entry at position `k` of the contents, and its program counter.
abbrev pub index_of : DebugBuffer → ℕ → ℕ
index_of b k = slot b.debug_size b.head k

abbrev pub pc_at : DebugBuffer → ℕ → ℕ
pc_at b k = (entry_at b (index_of b k)).a_pc

-- `first` returns the head exactly if the head entry has the program counter asked for.
pub first_lem :
    {b : DebugBuffer} (pc : ℕ)
    → IsValid b
    → first pc b ≡ (if pc == (entry_at b b.head).a_pc then ok b.head else fail aborted)
unfolding first
first_lem {b} pc v = ground (arith, at_valid b.head v v.head_in)

is_active-index :
    {b : DebugBuffer} (k : ℕ)
    → IsValid b
    → k < b.debug_size
    → is_active b (index_of b k) ≡ ltb k b.length
is_active-index {b} k v h =
    is_active_lem (index_of b k) v (slot-lt b.debug_size b.head k v.head_in (omega arith))
    ∙ ap (λ i. ltb i b.length) (offset-slot b.debug_size b.head k v.head_in h)

advance-index :
    {b : DebugBuffer} (k : ℕ)
    → IsValid b
    → k < b.debug_size
    → mod_mask (add32 (index_of b k) 1) b.debug_size ≡ index_of b (suc k)
advance-index {b} k v h =
    advance (index_of b k) v (slot-lt b.debug_size b.head k v.head_in (omega arith))
    ∙ next-slot b.debug_size b.head k v.head_in h

-- Unless the entry at `k` is the last of a full buffer, `check_next` looks at position `k + 1`.
pub check_next_lem :
    {b : DebugBuffer} (k pc : ℕ)
    → IsValid b
    → suc k < b.debug_size
    → check_next (index_of b k) pc b
      ≡ ok (
          if ltb (suc k) b.length
          then (if pc == pc_at b (suc k) then index_of b (suc k) else debug_index_invalid)
          else debug_index_invalid)
unfolding check_next
check_next_lem {b} k pc v h = ground (
  arith,
  advance-index k v,
  is_active-index (suc k) v h,
  at_valid (index_of b (suc k)) v,
  slot-lt b.debug_size b.head (suc k),
)

-- `r` is the index of the first entry from position `lo` on with the program counter `pc`, or
-- DEBUG_INDEX_INVALID if there is none.
abbrev pub Found : DebugBuffer → ℕ → ℕ → ℕ → Type 0
Found b pc lo r =
    ((i : ℕ) × (lo ≤ i)
      × (i < b.length)
      × (r ≡ index_of b i)
      × (pc_at b i ≡ pc)
      × ((l : ℕ) → lo ≤ l → l < i → pc_at b l ≢ pc))
    ⊎ ((r ≡ debug_index_invalid) × ((l : ℕ) → lo ≤ l → l < b.length → pc_at b l ≢ pc))

-- Behind the last position of a full circle comes the first.
wrap_index :
    {b : DebugBuffer} (k : ℕ)
    → IsValid b
    → k < b.debug_size
    → index_of b (suc k) ≡ index_of b (next b.debug_size k)
wrap_index {b} k v h = ground arith

not_before :
    (P : ℕ → Type 0) (lo hi : ℕ)
    → ¬ P lo
    → ((l : ℕ) → suc lo ≤ l → l < hi → ¬ P l)
    → (l : ℕ) → lo ≤ l
    → l < hi
    → ¬ P l
not_before P lo hi miss later l p q = elim (ℕ_discrete lo l) [
  | yes e ↦ subst (λ k. ¬ P k) e miss
  | no ne ↦ later l (ground arith) q
]

Found-later :
    (b : DebugBuffer) (pc lo r : ℕ) → pc_at b lo ≢ pc → Found b pc (suc lo) r → Found b pc lo r
Found-later b pc lo r miss (inl (i, p, q, e, hit, before)) =
    inl (i, omega arith, q, e, hit, not_before (λ l. pc_at b l ≡ pc) lo i miss before)
Found-later b pc lo r miss (inr (e, absent)) =
    inr (e, not_before (λ l. pc_at b l ≡ pc) lo b.length miss absent)

-- One round of `find`, at the index of a position.
find_from-suc :
    {b : DebugBuffer} (fuel k pc : ℕ)
    → IsValid b
    → k < b.debug_size
    → find_from (suc fuel) (index_of b k) pc b ≡ (
        if ltb k b.length
        then (if pc == pc_at b k
            then ok (index_of b k)
            else find_from fuel (index_of b (suc k)) pc b)
        else ok debug_index_invalid)
unfolding find_from
find_from-suc {b} fuel k pc v h = ground (
  arith,
  advance-index k v h,
  is_active-index k v h,
  at_valid (index_of b k) v,
  slot-lt b.debug_size b.head k,
)

find_from-Found :
    {b : DebugBuffer} (m fuel lo pc : ℕ)
    → IsValid b
    → b.length < b.debug_size
    → lo + m ≡ b.length
    → m < fuel
    → (r : ℕ) × (find_from fuel (index_of b lo) pc b ≡ ok r) × Found b pc lo r
find_from-Found m zero lo pc v room e h = absurd (omega arith)
find_from-Found {b} zero (suc fuel) lo pc v room e h = (
  debug_index_invalid,
  ground (arith, find_from-suc fuel lo pc v),
  inr (refl, λ l p q. absurd (omega arith)),
)
find_from-Found {b} (suc m) (suc fuel) lo pc v room e h = elim (ℕ_discrete (pc_at b lo) pc) [
  | yes hit ↦ (
    index_of b lo,
    ground (arith, find_from-suc fuel lo pc v),
    inl (lo, omega arith, omega arith, refl, hit, λ l p q. absurd (omega arith)),
  )
  | no miss ↦
      let (r, returns, found) =
        find_from-Found m fuel (suc lo) pc v room (omega arith) (omega arith) in
      (r, ground (arith, find_from-suc fuel lo pc v, returns), Found-later b pc lo r miss found)
]

-- On a valid buffer that is not full, `find` from the entry at position `k` ends within as many
-- rounds as the buffer has entries. It returns the index of the first later entry with the program
-- counter `pc`, or DEBUG_INDEX_INVALID if no later entry has it.
pub find-Found :
    {b : DebugBuffer} (fuel k pc : ℕ)
    → IsValid b
    → b.length < b.debug_size
    → k < b.length
    → b.length ≤ fuel
    → (r : ℕ) × (find fuel (index_of b k) pc b ≡ ok r) × Found b pc (suc k) r
unfolding find
find-Found {b} fuel k pc v room h enough =
    rw (advance-index k v (omega arith))
      (find_from-Found (b.length - suc k) fuel (suc k) pc v room (omega arith) (omega arith))

runs_on :
    {b : DebugBuffer} (fuel k pc : ℕ)
    → IsValid b
    → b.length ≡ b.debug_size
    → ((i : ℕ) → i < b.debug_size → pc_at b i ≢ pc)
    → k < b.debug_size
    → find_from fuel (index_of b k) pc b ≡ fail out_of_fuel
runs_on zero k pc v full absent h = unfold find_from in refl
runs_on {b} (suc fuel) k pc v full absent h = ground (
  arith,
  find_from-suc fuel k pc v h,
  absent k h,
  wrap_index k v h,
  runs_on fuel (next b.debug_size k) pc v full absent,
)

-- `find` on a full buffer that does not hold `pc` never ends: every index is active.
pub find-full-diverges :
    {b : DebugBuffer} (fuel k pc : ℕ)
    → IsValid b
    → b.length ≡ b.debug_size
    → k < b.length
    → ((i : ℕ) → i < b.length → pc_at b i ≢ pc)
    → find fuel (index_of b k) pc b ≡ fail out_of_fuel
unfolding find
find-full-diverges {b} fuel k pc v full h absent =
    rw (advance-index k v (omega arith), wrap_index k v (omega arith))
      (runs_on fuel (next b.debug_size k) pc v full (rw full at absent) (ground arith))
