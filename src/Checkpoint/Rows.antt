-- ===== src/Checkpoint/Rows.antt =====
-- The rows of the table of blocks that func_sim.cc writes to a file and loads from it.
use anycore_pisa.Base.{
  ℕ, zero, suc, ◌+◌, ◌≤◌, ◌<◌, ◌≡◌, refl, ap, ◌∙◌, true, false, ◌&&◌, Option, none, some, List, [],
  ◌∷◌, ltb, leb, ◌==◌, if◌then◌else◌, lt→ltb, ok, arith,
}
use anycore_pisa.Blocks.{Block, Table, mem_table_size, update}
use anycore_pisa.Checkpoint.{Item, number, row, count_blocks, stored_blocks, cleared, load_blocks}

-- A table with the rows of another put in, for `rows` of them from `i` on.
abbrev over : Option Block → Option Block → Option Block
over none old = old
over (some block) old = some block

abbrev loaded_row : Option Block → Table → ℕ → Table
loaded_row none to i = to
loaded_row (some block) to i = update to i (some block)

loaded : ℕ → ℕ → Table → Table → Table
loaded zero i from to = to
loaded (suc rows) i from to = loaded rows (i + 1) from (loaded_row (from i) to i)

loaded_row_lem :
    (o : Option Block) (to : Table) (i k : ℕ)
    → loaded_row o to i k ≡ (if k == i then over o (to i) else to k)
loaded_row_lem none to i k = ground arith
loaded_row_lem (some block) to i k = refl

loaded_lem :
    (rows i : ℕ) (from to : Table) (k : ℕ)
    → loaded rows i from to k ≡ (if leb i k && ltb k (i + rows) then over (from k) (to k) else to k)
unfolding loaded
loaded_lem zero i from to k = ground arith
loaded_lem (suc rows) i from to k = ground (
  arith,
  loaded_lem rows (i + 1) from (loaded_row (from i) to i) k,
  loaded_row_lem (from i) to i k,
)

cleared_lem :
    (rows i : ℕ) (table : Table) (k : ℕ)
    → cleared rows i table k ≡ (if leb i k && ltb k (i + rows) then none else table k)
unfolding cleared
cleared_lem zero i table k = ground arith
cleared_lem (suc rows) i table k = ground (arith, cleared_lem rows (i + 1) (update table i none) k)

-- The rows that a loop loads are empty before.
abbrev IsEmpty : ℕ → ℕ → Table → Type 0
IsEmpty rows i table = (k : ℕ) → i ≤ k → k < i + rows → table k ≡ none

load_row :
    (n i : ℕ) (block : Block) (table : Table) (file : List Item)
    → i < mem_table_size
    → table i ≡ none
    → load_blocks (suc n) table (number i ∷ row block ∷ file)
      ≡ load_blocks n (update table i (some block)) file
unfolding load_blocks
load_row n i block table file h e = let low = lt→ltb i mem_table_size h in rw (low, e) refl

loaded-suc :
    (rows i : ℕ) (from to : Table)
    → loaded rows (i + 1) from (loaded_row (from i) to i) ≡ loaded (suc rows) i from to
unfolding loaded
loaded-suc rows i from to = refl

in_table : (k : ℕ) → k < mem_table_size → (leb 0 k && ltb k (0 + mem_table_size)) ≡ true
in_table k h = ground arith

over-none : (o old : Option Block) → old ≡ none → over o old ≡ o
over-none none old e = e
over-none (some block) old e = refl

IsEmpty-loaded_row :
    (rows i : ℕ) (o : Option Block) (table : Table)
    → IsEmpty (suc rows) i table
    → IsEmpty rows (i + 1) (loaded_row o table i)
IsEmpty-loaded_row rows i o table e k l h =
    let other : (k == i) ≡ false = ground arith in
    loaded_row_lem o table i k
    ∙ ap (λ b. if b then over o (table i) else table k) other
    ∙ e k (omega arith) (omega arith)

-- One row of the stored blocks, there or not.
load_one :
    (n i : ℕ) (o : Option Block) (table : Table) (file : List Item)
    → i < mem_table_size
    → table i ≡ none
    → load_blocks
        (elim o [ none ↦ n | some block ↦ suc n ])
        table
        (elim o [ none ↦ file | some block ↦ number i ∷ row block ∷ file ])
      ≡ load_blocks n (loaded_row o table i) file
load_one n i none table file h e = refl
load_one n i (some block) table file h e = load_row n i block table file h e

-- The loop loads the rows that were stored, into a table in which they are empty.
load_blocks-stored_blocks :
    (rows i : ℕ) (from to : Table)
    → i + rows ≤ mem_table_size
    → IsEmpty rows i to
    → load_blocks (count_blocks rows i from) to (stored_blocks rows i from)
      ≡ ok (loaded rows i from to, [])
unfolding count_blocks stored_blocks
load_blocks-stored_blocks zero i from to h e = unfold load_blocks loaded in refl
load_blocks-stored_blocks (suc rows) i from to h e =
    load_one (count_blocks rows (i + 1) from) i (from i) to (stored_blocks rows (i + 1) from)
      (omega arith) (e i (omega arith) (omega arith))
    ∙ load_blocks-stored_blocks rows (i + 1) from (loaded_row (from i) to i) (omega arith)
        (IsEmpty-loaded_row rows i (from i) to e)
    ∙ ap (λ (t : Table). ok (t, [])) (loaded-suc rows i from to)

-- The whole table, loaded into a table that is cleared.
pub load_all :
    (from to : Table)
    → (u : Table) × (load_blocks
          (count_blocks mem_table_size 0 from)
          (cleared mem_table_size 0 to)
          (stored_blocks mem_table_size 0 from)
        ≡ ok (u, []))
      × ((k : ℕ) → k < mem_table_size → u k ≡ from k)
load_all from to =
    let empty = cleared mem_table_size 0 to in
    let is_empty : IsEmpty mem_table_size 0 empty = λ k l h.
      cleared_lem mem_table_size 0 to k ∙ ap (λ b. if b then none else to k) (in_table k h) in
    (
      loaded mem_table_size 0 from empty,
      load_blocks-stored_blocks mem_table_size 0 from empty (omega arith) is_empty,
      λ k h.
          loaded_lem mem_table_size 0 from empty k
          ∙ ap (λ b. if b then over (from k) (empty k) else empty k) (in_table k h)
          ∙ over-none (from k) (empty k) (is_empty k (omega arith) h),
    )
