-- ===== src/Trap/Differences.antt =====
-- The bytes of a block that save_trap of syscall.cc writes to a file, and restore_trap reads from it.
use anycore_pisa.Base.{
  ℕ, zero, suc, ◌+◌, ◌≤◌, ◌<◌, ◌≡◌, refl, sym, ap, ◌∙◌, Bool, true, false, ◌&&◌, Bool-cases, inl,
  inr, Option, none, some, List, ◌∷◌, ◌++◌, ltb, leb, ◌==◌, if◌then◌else◌, lt→ltb, arith,
}
use anycore_pisa.Blocks.{Block, Table, mem_table_size, mem_block_size, update, block_or_new}
use anycore_pisa.Checkpoint.{Item, number, byte}
use anycore_pisa.Trap.{count_bytes, byte_items, apply_items}

abbrev pub is_some : Option Block → Bool
is_some none = false
is_some (some block) = true

abbrev pub byte_at : Table → ℕ → ℕ → ℕ
byte_at table k j = block_or_new (table k) j

-- Two tables with blocks in the same rows.
abbrev pub SameRows : Table → Table → Type 0
SameRows x y = (k : ℕ) → k < mem_table_size → is_some (x k) ≡ is_some (y k)

-- Reading `count` items, with more items behind them, comes to reading those from another table.
abbrev pub Applies : ℕ → List Item → Table → Table → Type 0
Applies count items table table' =
    (m : ℕ) (rest : List Item)
    → apply_items (count + m) table (items ++ rest) ≡ apply_items m table' rest

apply_one :
    (m row col v : ℕ) (table : Table) (block : Block) (rest : List Item)
    → row < mem_table_size
    → col < mem_block_size
    → table row ≡ some block
    → apply_items (suc m) table (number row ∷ number col ∷ byte v ∷ rest)
      ≡ apply_items m (update table row (some (update block col v))) rest
unfolding apply_items
apply_one m row col v table block rest h g e =
    rw (lt→ltb row mem_table_size h, lt→ltb col mem_block_size g, e) refl

pub some_block : (o : Option Block) → is_some o ≡ true → (block : Block) × (o ≡ some block)
some_block none h = absurd cc
some_block (some block) h = (block, refl)

pub eq_of : {a b : ℕ} → (a == b) ≡ true → a ≡ b
eq_of t = ground arith

-- The table that reading one item leaves.
put_lem :
    (table : Table) (row col v : ℕ) (block : Block)
    → table row ≡ some block
    → ((k : ℕ) → is_some (update table row (some (update block col v)) k) ≡ is_some (table k))
      × ((k j : ℕ)
          → byte_at (update table row (some (update block col v))) k j
            ≡ (if k == row && j == col then v else byte_at table k j))
put_lem table row col v block e = (
  λ k. elim (Bool-cases (k == row)) [
    | inl t ↦ let there : table k ≡ some block = ap table (eq_of t) ∙ e in rw (t, there) refl
    | inr f ↦ rw f refl
  ],
  λ k j. elim (Bool-cases (k == row)) [
    | inl t ↦ let there : table k ≡ some block = ap table (eq_of t) ∙ e in rw (t, there) refl
    | inr f ↦ rw f refl
  ],
)

suc_plus : (a b : ℕ) → suc a + b ≡ suc (a + b)
suc_plus a b = omega arith

-- The bytes from `i` to `i + count` in a row of `table'` are those of `new`.
abbrev pub Replaced : ℕ → ℕ → ℕ → Block → Table → Table → Type 0
Replaced count i row new table table' =
    ((k : ℕ) → is_some (table' k) ≡ is_some (table k))
    × ((k j : ℕ)
        → byte_at table' k j
          ≡ (if k == row && (leb i j && ltb j (i + count)) then new j else byte_at table k j))

other_byte : (row i j a b : ℕ) → i + 1 ≤ j → (if row == row && j == i then a else b) ≡ b
other_byte row i j a b h = ground arith

-- One byte more is replaced, the byte at `i`.
one_more :
    (count i row k j x y n ni b : ℕ)
    → x ≡ (if k == row && (leb (i + 1) j && ltb j (i + 1 + count)) then n else y)
    → y ≡ (if k == row && j == i then ni else b)
    → (j ≡ i → ni ≡ n)
    → x ≡ (if k == row && (leb i j && ltb j (i + suc count)) then n else b)
one_more count i row k j x y n ni b h g e = elim (Bool-cases (k == row)) [
  | inr f ↦ let y' : y ≡ b = g ∙ rw f refl in h ∙ rw f y'
  | inl t ↦ elim (Bool-cases (j == i)) [
    | inl at_i ↦ let same : ni ≡ n = e (eq_of at_i) in ground arith
    | inr f ↦ ground arith
  ]
]

unchanged :
    (row k j i ni b : ℕ) → (k ≡ row → j ≡ i → ni ≡ b) → b ≡ (if k == row && j == i then ni else b)
unchanged row k j i ni b e = elim (Bool-cases (k == row)) [
  | inr f ↦ rw f refl
  | inl t ↦ elim (Bool-cases (j == i)) [
    | inl at_i ↦ rw (t, at_i) (sym (e (eq_of t) (eq_of at_i)))
    | inr f ↦ rw (t, f) refl
  ]
]

pub bytes_lem :
    (count i row : ℕ) (new old : Block) (table : Table)
    → row < mem_table_size
    → i + count ≤ mem_block_size
    → is_some (table row) ≡ true
    → ((j : ℕ) → i ≤ j → j < i + count → byte_at table row j ≡ old j)
    → (table' : Table) × Applies
        (count_bytes count i new old)
        (byte_items count i row new old)
        table
        table'
      × Replaced count i row new table table'
unfolding count_bytes byte_items
bytes_lem zero i row new old table h g e s = (
  table,
  λ m rest. ap (λ n. apply_items n table rest) (omega arith),
  (λ k. refl, λ k j. ground arith),
)
bytes_lem (suc count) i row new old table h g e s = elim (Bool-cases (new i == old i)) [
  | inl same ↦
      let (table', applies, (has, bytes)) =
        bytes_lem count (i + 1) row new old table h (omega (arith, g)) e
          (λ j l u. s j (omega (arith, l)) (omega (arith, u))) in
      (
        table',
        λ m rest. rw same (applies m rest),
        (
          has,
          λ k j.
              one_more count i row k j (byte_at table' k j) (byte_at table k j) (new j) (new i)
                (byte_at table k j) (bytes k j)
                (unchanged row k j i (new i) (byte_at table k j) (λ at_row at_i.
                  eq_of same
                  ∙ sym (s i (omega arith) (omega arith))
                  ∙ sym (ap (λ x. byte_at table x i) at_row)
                  ∙ sym (ap (byte_at table k) at_i)))
                (λ at_i. sym (ap new at_i)),
        ),
      )
  | inr differ ↦
      let (block, there) = some_block (table row) e in
      let (has1, bytes1) = put_lem table row i (new i) block there in
      let (table', applies, (has, bytes)) =
        bytes_lem count (i + 1) row new old (update table row (some (update block i (new i)))) h
          (omega (arith, g)) (has1 row ∙ e)
          (λ j l u.
            bytes1 row j
            ∙ other_byte row i j (new i) (byte_at table row j) l
            ∙ s j (omega (arith, l)) (omega (arith, u))) in
      (
        table',
        λ m rest. rw differ (
            ap
              (λ n. apply_items n table (
                number row
                ∷ number i
                ∷ byte (new i)
                ∷ (byte_items count (i + 1) row new old ++ rest)))
              (suc_plus (count_bytes count (i + 1) new old) m)
            ∙ apply_one _ row i (new i) table block (byte_items count (i + 1) row new old ++ rest) h
                (omega (arith, g)) there
            ∙ applies m rest),
        (
          λ k. has k ∙ has1 k,
          λ k j.
              one_more count i row k j (byte_at table' k j)
                (byte_at (update table row (some (update block i (new i)))) k j) (new j) (new i)
                (byte_at table k j) (bytes k j) (bytes1 k j) (λ at_i. sym (ap new at_i)),
        ),
      )
]
