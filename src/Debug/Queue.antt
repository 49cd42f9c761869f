-- ===== src/Debug/Queue.antt =====
-- A valid buffer behaves as a bounded queue of entries: `start` adds one at the end, the three
-- `push` methods fill in the last one, and `pop` takes the first.
use anycore_pisa.Base.{
  ℕ, zero, suc, ◌+◌, ◌-◌, ◌<◌, ◌≡◌, ◌≢◌, refl, ap, ◌∙◌, true, false, ◌⊎◌, inl, inr, subst, List, [],
  ◌∷◌, ◌++◌, arith, length, set, length-set, Outcome, ok, fail, aborted, length-snoc,
  snoc-injective, sym,
}
use native.Mathlib.Decide.{dec_lt, ℕ_discrete}
use anycore_pisa.Base.Ring.{
  next, entries, entries-push, entries-pop, entries-update, length-entries,
}
use anycore_pisa.Debug.Fields.{
  Inst, Entry, Operand, start_entry, push_operand, push_address, push_instr,
}
use anycore_pisa.Debug.Inv.{IsValid, contents, entry_at, blank, advance, at_valid}
use anycore_pisa.Debug.{
  DebugBuffer, update_tail, hungry, start, pop, push_operand_actual, push_address_actual,
  push_instr_actual,
}

-- The state after a `start` that succeeds.
started : DebugBuffer → DebugBuffer
started b =
    let t = next b.debug_size b.tail in
    record b { length = b.length + 1; tail = t; db = set b.db t (start_entry (entry_at b t)) }

start-started : {b : DebugBuffer} → IsValid b → b.length < b.active_size → start b ≡ ok (started b)
unfolding start started
start-started {b} v h =
    ground (arith, advance b.tail v v.tail_in, at_valid (next b.debug_size b.tail) v)

started-IsValid : {b : DebugBuffer} → IsValid b → b.length < b.active_size → IsValid (started b)
unfolding started
started-IsValid {b} v h = ground (
  arith,
  length-set b.db (next b.debug_size b.tail) (start_entry (entry_at b (next b.debug_size b.tail))),
)

contents-started :
    {b : DebugBuffer}
    → IsValid b
    → b.length < b.active_size
    → contents (started b) ≡ contents b ++ start_entry (entry_at b (next b.debug_size b.tail)) ∷ []
unfolding started
contents-started {b} v h =
    entries-push blank b.debug_size b.db b.head b.length (next b.debug_size b.tail)
      (start_entry (entry_at b (next b.debug_size b.tail))) v.head_in (omega arith)
      (omega (arith, v.storage)) v.tail_last

-- The state after a `pop` that succeeds.
popped : DebugBuffer → DebugBuffer
popped b = record b { length = b.length - 1; head = next b.debug_size b.head }

pop-popped :
    {b : DebugBuffer} → IsValid b → 0 < b.length → pop b.head b ≡ ok (entry_at b b.head, popped b)
unfolding pop popped
pop-popped {b} v h = ground (arith, advance b.head v v.head_in, at_valid b.head v)

popped-IsValid : {b : DebugBuffer} → IsValid b → 0 < b.length → IsValid (popped b)
unfolding popped
popped-IsValid {b} v h = ground arith

contents-popped :
    {b : DebugBuffer}
    → IsValid b
    → 0 < b.length
    → contents b ≡ entry_at b b.head ∷ contents (popped b)
unfolding popped
contents-popped {b} v h =
    entries-pop blank b.debug_size b.db b.head b.length v.head_in h v.length_in

-- What `start` may come to, as `hungry` tells.
abbrev pub Starts : DebugBuffer → Type 0
Starts b =
    ((hungry b ≡ true)
      × (b' : DebugBuffer) × (e : Entry) × (start b ≡ ok b')
      × IsValid b'
      × (contents b' ≡ contents b ++ start_entry e ∷ [])
      × (b'.debug_size ≡ b.debug_size))
    ⊎ ((hungry b ≡ false) × (start b ≡ fail aborted))

-- On a valid buffer `hungry` tells exactly when `start` succeeds. Then the buffer stays valid and
-- keeps its size, and one entry with no operands joins the end of its contents. Otherwise the
-- assertion fails.
pub start_refines : {b : DebugBuffer} → IsValid b → Starts b
unfolding hungry start
start_refines {b} v = elim (dec_lt b.length b.active_size) [
  | yes room ↦ inl (
    ground arith,
    started b,
    entry_at b (next b.debug_size b.tail),
    start-started v room,
    started-IsValid v room,
    contents-started v room,
    unfold started in refl,
  )
  | no full ↦ inr (ground arith, ground arith)
]

-- What `pop i` may come to.
abbrev pub Pops : ℕ → DebugBuffer → Type 0
Pops i b =
    ((e : Entry) × (es : List Entry) × (b' : DebugBuffer) × (contents b ≡ e ∷ es)
      × (i ≡ b.head)
      × (pop i b ≡ ok (e, b'))
      × IsValid b'
      × (contents b' ≡ es)
      × (b'.debug_size ≡ b.debug_size))
    ⊎ (((contents b ≡ []) ⊎ (i ≢ b.head)) × (pop i b ≡ fail aborted))

-- `pop` of a valid buffer takes the oldest entry if it is given the index of the head, and keeps the
-- buffer valid. It fails on the empty buffer and on any other index.
pub pop_refines : {b : DebugBuffer} (i : ℕ) → IsValid b → Pops i b
pop_refines {b} i v = elim (ℕ_discrete i b.head) [
  | yes e ↦ subst (λ j. Pops j b) (sym e) (by_length b.length refl)
  | no ne ↦ inr (inr ne, unfold pop in ground arith)
]
  where
    by_length : (n : ℕ) → b.length ≡ n → Pops b.head b
    by_length zero e =
        inr (inl (ap (entries blank b.debug_size b.db b.head) e), unfold pop in ground arith)
    by_length (suc n) e =
        let held : 0 < b.length = omega arith in
        inl (
          entry_at b b.head,
          contents (popped b),
          popped b,
          contents-popped v held,
          refl,
          pop-popped v held,
          popped-IsValid v held,
          refl,
          unfold popped in refl,
        )

-- The oldest entry stands at the index of the head.
pub entry_at-head :
    {b : DebugBuffer} (e : Entry) (es : List Entry)
    → IsValid b
    → contents b ≡ e ∷ es
    → entry_at b b.head ≡ e
entry_at-head {b} e es v c =
    let held : 0 < b.length =
      omega (arith, ap length c, length-entries blank b.debug_size b.db b.head b.length) in
    cc (contents-popped v held, c)

-- What an update of the last entry must come to, where `r` is what becomes of the entry: it fails as
-- `r` fails, and otherwise replaces the last entry and nothing else.
abbrev pub UpdatesLast : DebugBuffer → List Entry → Outcome Entry → Outcome DebugBuffer → Type 0
UpdatesLast b xs (ok e) result =
    (b' : DebugBuffer) × (result ≡ ok b')
    × IsValid b'
    × (contents b' ≡ xs ++ e ∷ [])
    × (b'.head ≡ b.head)
    × (b'.debug_size ≡ b.debug_size)
UpdatesLast b xs (fail x) result = result ≡ fail x

update_tail-UpdatesLast :
    {b : DebugBuffer} (xs : List Entry) (e : Entry) (f : Entry → Outcome Entry)
    → IsValid b
    → contents b ≡ xs ++ e ∷ []
    → UpdatesLast b xs (f e) (update_tail b f)
update_tail-UpdatesLast {b} xs e f v c = by_result (f e) refl
  where
    count : length (contents b) ≡ b.length
    count = length-entries blank b.debug_size b.db b.head b.length

    held : 0 < b.length
    held = omega (arith, ap length c, length-snoc xs e, count)

    upd :
        (w : Entry)
        → (contents b
            ≡ entries blank b.debug_size b.db b.head (b.length - 1) ++ entry_at b b.tail ∷ [])
          × (entries blank b.debug_size (set b.db b.tail w) b.head b.length
              ≡ entries blank b.debug_size b.db b.head (b.length - 1) ++ w ∷ [])
    upd w =
        entries-update blank b.debug_size b.db b.head b.length b.tail w v.head_in held v.length_in
          (omega (arith, v.storage)) v.tail_in v.tail_last

    last : (entries blank b.debug_size b.db b.head (b.length - 1) ≡ xs) × (entry_at b b.tail ≡ e)
    last = snoc-injective _ xs _ e (sym (upd e).0 ∙ c)

    by_result : (r : Outcome Entry) → f e ≡ r → UpdatesLast b xs r (update_tail b f)
    by_result (ok w) r = (
      record b { db = set b.db b.tail w },
      unfold update_tail in ground (arith, at_valid b.tail v, last.1, r),
      ground (arith, length-set b.db b.tail w),
      (upd w).1 ∙ ap (λ ys. ys ++ w ∷ []) last.0,
      refl,
      refl,
    )
    by_result (fail x) r = unfold update_tail in ground (arith, at_valid b.tail v, last.1, r)

-- A call of one of the three methods that fill in an entry.
pub data Fill : Type 0 where
  operand : ℕ → Operand → ℕ → ℕ → Fill
  address : ℕ → Operand → ℕ → ℕ → ℕ → Fill
  instr : Inst → ℕ → ℕ → ℕ → ℕ → ℕ → ℕ → Fill

abbrev pub fill : Fill → DebugBuffer → Outcome DebugBuffer
fill (operand n t value pc) = push_operand_actual n t value pc
fill (address addr t pc upper lower) = push_address_actual addr t pc upper lower
fill (instr inst flags latency pc next_pc upper lower) =
    push_instr_actual inst flags latency pc next_pc upper lower

abbrev pub fill_entry : Fill → Entry → Outcome Entry
fill_entry (operand n t value pc) e = push_operand n t value e
fill_entry (address addr t pc upper lower) e = push_address addr t upper lower e
fill_entry (instr inst flags latency pc next_pc upper lower) e =
    ok (push_instr inst flags latency pc next_pc upper lower e)

-- The three methods that fill in an entry, on a valid buffer that is not empty, do to the last entry
-- what `push_operand`, `push_address` and `push_instr` say. They leave every other entry, the head and
-- the size alone, keep the buffer valid, and fail only as these fail.
pub fill_refines :
    {b : DebugBuffer} (c : Fill) (xs : List Entry) (e : Entry)
    → IsValid b
    → contents b ≡ xs ++ e ∷ []
    → UpdatesLast b xs (fill_entry c e) (fill c b)
unfolding push_operand_actual push_address_actual push_instr_actual
fill_refines (operand n t value pc) xs e v c =
    update_tail-UpdatesLast xs e (push_operand n t value) v c
fill_refines (address addr t pc upper lower) xs e v c =
    update_tail-UpdatesLast xs e (push_address addr t upper lower) v c
fill_refines (instr inst flags latency pc next_pc upper lower) xs e v c =
    update_tail-UpdatesLast xs e
      (λ entry. ok (push_instr inst flags latency pc next_pc upper lower entry)) v c
