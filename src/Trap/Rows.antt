-- ===== src/Trap/Rows.antt =====
-- The bytes of all blocks that save_trap of syscall.cc writes to a file, and restore_trap reads from it.
use anycore_pisa.Base.{
  ℕ, zero, suc, ◌+◌, ◌≤◌, ◌<◌, ◌≡◌, refl, sym, ap, ◌∙◌, Bool, ◌&&◌, Bool-cases, inl, inr, Option,
  none, some, List, [], ◌++◌, append_assoc, ltb, leb, ◌==◌, if◌then◌else◌, ok, arith,
}
use anycore_pisa.Blocks.{Block, Table, mem_table_size, mem_block_size, block_or_new}
use anycore_pisa.Checkpoint.{Item}
use anycore_pisa.Trap.{
  count_bytes, byte_items, count_row, count_rows, row_items, table_items, apply_items,
}
use anycore_pisa.Trap.Differences.{is_some, byte_at, SameRows, Applies, eq_of, bytes_lem}

abbrev HasRows : Table → Table → Type 0
HasRows table table' = (k : ℕ) → is_some (table' k) ≡ is_some (table k)

one_row :
    (i : ℕ) (new old : Option Block) (table : Table)
    → i < mem_table_size
    → is_some new ≡ is_some old
    → is_some (table i) ≡ is_some old
    → ((j : ℕ) → j < mem_block_size → byte_at table i j ≡ block_or_new old j)
    → (count : ℕ) × (items : List Item) × (table' : Table) × (count_row new old ≡ ok count)
      × (row_items i new old ≡ ok items)
      × Applies count items table table'
      × HasRows table table'
      × ((k j : ℕ)
          → byte_at table' k j ≡ (
              if k == i && (is_some new && ltb j mem_block_size)
              then block_or_new new j
              else byte_at table k j))
one_row i none old table h same there bytes = (
  0,
  [],
  table,
  refl,
  refl,
  λ m rest. ap (λ n. apply_items n table rest) (omega arith),
  λ k. refl,
  λ k j. ground arith,
)
one_row i (some new) none table h same there bytes = absurd cc
one_row i (some new) (some old) table h same there bytes =
    let (table', applies, (has, replaced)) =
      bytes_lem mem_block_size 0 i new old table h (omega arith) there
        (λ j l u. bytes j (omega (arith, u))) in
    (
      count_bytes mem_block_size 0 new old,
      byte_items mem_block_size 0 i new old,
      table',
      refl,
      refl,
      applies,
      has,
      λ k j. replaced k j ∙ ground arith,
    )

plus_assoc : (a b c : ℕ) → a + b + c ≡ a + (b + c)
plus_assoc a b c = omega arith

later_row : (i k : ℕ) (p : Bool) (a b : ℕ) → i + 1 ≤ k → (if k == i && p then a else b) ≡ b
later_row i k p a b h = ground arith

-- One row more is replaced, the row `i`.
row_more :
    (rows i k x y n n' b : ℕ) (p p' : Bool)
    → x ≡ (if (leb (i + 1) k && ltb k (i + 1 + rows)) && p then n else y)
    → y ≡ (if k == i && p' then n' else b)
    → (k ≡ i → (p' ≡ p) × (n' ≡ n))
    → x ≡ (if (leb i k && ltb k (i + suc rows)) && p then n else b)
row_more rows i k x y n n' b p p' h g e = elim (Bool-cases (k == i)) [
  | inl at_i ↦ let (same_p, same_n) = e (eq_of at_i) in ground arith
  | inr f ↦ ground arith
]

counted_more :
    (rows i : ℕ) (new old : Table) (c d : ℕ)
    → count_row (new i) (old i) ≡ ok c
    → count_rows rows (i + 1) new old ≡ ok d
    → count_rows (suc rows) i new old ≡ ok (c + d)
unfolding count_rows
counted_more rows i new old c d h g = rw (h, g) refl

items_more :
    (rows i : ℕ) (new old : Table) (xs ys : List Item)
    → row_items i (new i) (old i) ≡ ok xs
    → table_items rows (i + 1) new old ≡ ok ys
    → table_items (suc rows) i new old ≡ ok (xs ++ ys)
unfolding table_items
items_more rows i new old xs ys h g = rw (h, g) refl

Applies-append :
    (c d : ℕ) (xs ys : List Item) (table table' table'' : Table)
    → Applies c xs table table'
    → Applies d ys table' table''
    → Applies (c + d) (xs ++ ys) table table''
Applies-append c d xs ys table table' table'' f g m rest =
    ap (λ n. apply_items n table ((xs ++ ys) ++ rest)) (plus_assoc c d m)
    ∙ ap (apply_items (c + (d + m)) table) (append_assoc xs ys rest)
    ∙ f (d + m) (ys ++ rest)
    ∙ g m rest

-- The differences of two tables, applied to a table that is like the old one.
pub rows_lem :
    (rows i : ℕ) (new old table : Table)
    → i + rows ≤ mem_table_size
    → SameRows new old
    → SameRows table old
    → ((k j : ℕ)
        → i ≤ k
        → k < mem_table_size
        → j < mem_block_size
        → byte_at table k j ≡ byte_at old k j)
    → (count : ℕ) × (items : List Item) × (table' : Table) × (count_rows rows i new old ≡ ok count)
      × (table_items rows i new old ≡ ok items)
      × Applies count items table table'
      × HasRows table table'
      × ((k j : ℕ)
          → byte_at table' k j ≡ (
              if (leb i k && ltb k (i + rows)) && (is_some (new k) && ltb j mem_block_size)
              then byte_at new k j
              else byte_at table k j))
unfolding count_rows table_items
rows_lem zero i new old table h same there bytes = (
  0,
  [],
  table,
  refl,
  refl,
  λ m rest. ap (λ n. apply_items n table rest) (omega arith),
  λ k. refl,
  λ k j. ground arith,
)
rows_lem (suc rows) i new old table h same there bytes =
    let low : i < mem_table_size = omega (arith, h) in
    let (c, xs, table1, counted1, items1, applies1, has1, bytes1) =
      one_row i (new i) (old i) table low (same i low) (there i low)
        (λ j u. bytes i j (omega arith) low u) in
    let (d, ys, table2, counted2, items2, applies2, has2, bytes2) =
      rows_lem rows (i + 1) new old table1 (omega (arith, h)) same (λ k u. has1 k ∙ there k u)
        (λ k j l u v. bytes1 k j ∙ later_row i k _ _ _ l ∙ bytes k j (omega (arith, l)) u v) in
    (
      c + d,
      xs ++ ys,
      table2,
      counted_more rows i new old c d counted1 counted2,
      items_more rows i new old xs ys items1 items2,
      Applies-append c d xs ys table table1 table2 applies1 applies2,
      λ k. has2 k ∙ has1 k,
      λ k j.
          row_more rows i k (byte_at table2 k j) (byte_at table1 k j) (byte_at new k j)
            (block_or_new (new i) j) (byte_at table k j) (is_some (new k) && ltb j mem_block_size)
            (is_some (new i) && ltb j mem_block_size) (bytes2 k j) (bytes1 k j)
            (λ at_i. (
              ap (λ x. is_some (new x) && ltb j mem_block_size) (sym at_i),
              ap (λ x. byte_at new x j) (sym at_i),
            )),
    )
