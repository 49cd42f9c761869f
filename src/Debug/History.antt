-- ===== src/Debug/History.antt =====
-- Whole histories of the buffer: the simulator records instructions (`start`, then
-- `push_instr_actual`), the timing model pops them.
use mathlib.Core.List.{map-append}
use native.Mathlib.Decide.{dec_lt}
use anycore_pisa.Base.{
  ℕ, ◌≤◌, ◌<◌, ◌≡◌, refl, ap, ◌∙◌, inl, inr, true, List, [], ◌∷◌, ◌++◌, map, arith, ltb,
  if◌then◌else◌, length, Outcome, ok, fail, aborted, ◌>>=◌, length-map,
}
use anycore_pisa.Base.Ring.{length-entries}
use anycore_pisa.Debug.Fields.{Inst, Entry, start_entry, push_instr}
use anycore_pisa.Debug.Inv.{IsValid, contents, blank}
use anycore_pisa.Debug.Queue.{Starts, Pops, instr, start_refines, pop_refines, fill_refines}
use anycore_pisa.Debug.{DebugBuffer, hungry, start, push_instr_actual, pop}

-- What `push_instr_actual` is told of an instruction, less the data of a store.
pub record Summary : Type 0 where
  pub inst : Inst
  pub flags : ℕ
  pub latency : ℕ
  pub pc : ℕ
  pub next_pc : ℕ

abbrev pub summary : Entry → Summary
summary e = record {
  inst = e.a_inst;
  flags = e.a_flags;
  latency = e.a_lat;
  pc = e.a_pc;
  next_pc = e.a_next_pc;
}

pub data Op : Type 0 where
  emit : Summary → ℕ → ℕ → Op
  take : Op

-- An assertion that fails ends the process, and with it the history.
pub data Reply : Type 0 where
  emitted : Reply
  taken : Summary → Reply
  crashed : Reply

unfoldable pub emit_instr : Summary → ℕ → ℕ → DebugBuffer → Outcome DebugBuffer
emit_instr s upper lower b = do
  b' ← start b
  push_instr_actual s.inst s.flags s.latency s.pc s.next_pc upper lower b'

unfoldable pub run : DebugBuffer → List Op → List Reply
run b [] = []
run b (emit s upper lower ∷ ops) = elim (emit_instr s upper lower b) [
  | ok b' ↦ emitted ∷ run b' ops
  | fail x ↦ crashed ∷ []
]
run b (take ∷ ops) = elim (pop b.head b) [
  | ok (e, b') ↦ taken (summary e) ∷ run b' ops
  | fail x ↦ crashed ∷ []
]

-- The specification: a queue of summaries, of at most `cap`.
pub run_queue : ℕ → List Summary → List Op → List Reply
run_queue cap q [] = []
run_queue cap q (emit s upper lower ∷ ops) =
    let rest = run_queue cap (q ++ s ∷ []) ops in
    if ltb (length q) cap then emitted ∷ rest else crashed ∷ []
run_queue cap [] (take ∷ ops) = crashed ∷ []
run_queue cap (s ∷ q) (take ∷ ops) = taken s ∷ run_queue cap q ops

abbrev pub summaries : DebugBuffer → List Summary
summaries b = map summary (contents b)

length-summaries : (b : DebugBuffer) → length (summaries b) ≡ b.length
length-summaries b =
    length-map (contents b) summary ∙ length-entries blank b.debug_size b.db b.head b.length

summary-push_instr :
    (s : Summary) (upper lower : ℕ) (e : Entry)
    → summary (push_instr s.inst s.flags s.latency s.pc s.next_pc upper lower e) ≡ s
unfolding push_instr
summary-push_instr s upper lower e = ground arith

hungry-true : {b : DebugBuffer} → IsValid b → b.length < b.debug_size → hungry b ≡ true
unfolding hungry
hungry-true v h = ground arith

emit_room :
    {b : DebugBuffer} (s : Summary) (upper lower : ℕ)
    → IsValid b
    → b.length < b.debug_size
    → (b' : DebugBuffer) × (emit_instr s upper lower b ≡ ok b')
      × IsValid b'
      × (summaries b' ≡ summaries b ++ s ∷ [])
      × (b'.debug_size ≡ b.debug_size)
unfolding emit_instr
emit_room {b} s upper lower v room = joined (start_refines v)
  where
    joined :
        Starts b
        → (b' : DebugBuffer) × (emit_instr s upper lower b ≡ ok b')
          × IsValid b'
          × (summaries b' ≡ summaries b ++ s ∷ [])
          × (b'.debug_size ≡ b.debug_size)
    joined (inl (_, b1, e, returns, v1, c1, size1)) =
        let (b2, returns2, v2, c2, _, size2) =
          fill_refines (instr s.inst s.flags s.latency s.pc s.next_pc upper lower) (contents b)
            (start_entry e) v1 c1 in
        (
          b2,
          ground (arith, returns, returns2),
          v2,
          ap (map summary) c2
              ∙ map-append summary (contents b) _
              ∙ ap (λ t. summaries b ++ t ∷ []) (summary-push_instr s upper lower (start_entry e)),
          size2 ∙ size1,
        )
    joined (inr (refused, _)) = absurd (ground (arith, hungry-true v room))

emit_full :
    {b : DebugBuffer} (s : Summary) (upper lower : ℕ)
    → IsValid b
    → b.debug_size ≤ b.length
    → emit_instr s upper lower b ≡ fail aborted
unfolding emit_instr start
emit_full {b} s upper lower v full = ground arith

-- What is proved of the rest of a history, from any valid buffer.
abbrev Refines : List Op → Type 0
Refines ops = (b : DebugBuffer) → IsValid b → run b ops ≡ run_queue b.debug_size (summaries b) ops

run-emit :
    (s : Summary) (upper lower : ℕ) (ops : List Op)
    → Refines ops
    → Refines (emit s upper lower ∷ ops)
unfolding run run_queue
run-emit s upper lower ops rest b v = elim (dec_lt b.length b.debug_size) [
  | yes room ↦
      let (b', returns, v', c', size') = emit_room s upper lower v room in
      ground (
        arith,
        returns,
        length-summaries b,
        rest b' v',
        ap (λ q. run_queue b.debug_size q ops) c',
        ap (λ n. run_queue n (summaries b') ops) size',
      )
  | no full ↦ ground (arith, emit_full s upper lower v, length-summaries b)
]

run-take : (ops : List Op) → Refines ops → Refines (take ∷ ops)
run-take ops rest b v = by_pop (pop_refines b.head v)
  where
    by_pop : Pops b.head b → run b (take ∷ ops) ≡ run_queue b.debug_size (summaries b) (take ∷ ops)
    by_pop (inl (e, es, b', c, _, returns, v', c', size')) =
        unfold run run_queue in
        ground (
          arith,
          returns,
          rest b' v',
          ap (map summary) c,
          ap (λ q. run_queue b.debug_size (map summary q) ops) c',
          ap (λ n. run_queue n (summaries b') ops) size',
        )
    by_pop (inr (inl none_held, fails)) =
        unfold run run_queue in ground (arith, fails, ap (map summary) none_held)
    by_pop (inr (inr other, fails)) = absurd (other refl)

-- The buffer is a FIFO of bounded capacity: from a valid buffer, no history of recording and popping
-- can be told from the same history of the queue of its summaries, the crash on overflow or on
-- underflow included.
pub run_refines :
    (ops : List Op) (b : DebugBuffer)
    → IsValid b
    → run b ops ≡ run_queue b.debug_size (summaries b) ops
run_refines [] b v = unfold run run_queue in refl
run_refines (emit s upper lower ∷ ops) b v = run-emit s upper lower ops (run_refines ops) b v
run_refines (take ∷ ops) b v = run-take ops (run_refines ops) b v
