-- ===== src/Thread/Decoded.antt =====
-- The loop of `decode` in Thread.h over the whole text segment.
use anycore_pisa.Base.{
  ℕ, zero, suc, ◌+◌, ◌-◌, ◌*◌, ◌/◌, ◌%◌, ◌≤◌, ◌<◌, ◌^◌, ◌≡◌, refl, ap, sym, ◌∙◌, inl, inr,
  Bool-cases, true, false, ◌&&◌, some, List, [], ◌∷◌, ltb, leb, ◌==◌, if◌then◌else◌, length, get_or,
  AllBelow, AllBelow-get_or, add32, Outcome, ok, ◌>>=◌, arith,
}
use anycore_pisa.Blocks.{
  Block, Table, mem_block, mem_offset, put_bytes, block_or_new, is_inside, unchk_write_bytes,
  write_bytes,
}
use anycore_pisa.Blocks.View.{
  view, span, written, written_cons, read_bytes-view, write_bytes_lem, after_write,
  after_write-view, mem_block_lem, mem_offset_lem,
}
use anycore_pisa.Debug.Fields.{Inst}
use anycore_pisa.Isa.{inst_of}
use anycore_pisa.Thread.{Thread}
use anycore_pisa.Thread.Decode.{
  decoded_inst, bytes_of_inst, decode_one, decode_text, at_entry, decode, unchk_read_lem,
  unchk_write_lem, decoded_inst_lem,
}

get_or-span : (n : ℕ) (b : ℕ → ℕ) (a k : ℕ) → k < n → get_or (span n b a) k 0 ≡ b (a + k)
get_or-span zero b a k h = absurd (omega arith)
get_or-span (suc n) b a zero h = ap b (omega arith)
get_or-span (suc n) b a (suc k) h = get_or-span n b (a + 1) k (omega arith) ∙ ap b (omega arith)

length-span : (n : ℕ) (b : ℕ → ℕ) (a : ℕ) → length (span n b a) ≡ n
length-span zero b a = refl
length-span (suc n) b a = ap suc (length-span n b (a + 1))

-- Bytes that are written over themselves.
written-span :
    (n : ℕ) (b c : ℕ → ℕ) (a x : ℕ)
    → ((y : ℕ) → a ≤ y → b y ≡ c y)
    → written (span n c a) b a x ≡ b x
written-span n b c a x h = elim (Bool-cases (leb a x && ltb x (a + length (span n c a)))) [
  | inl t ↦
      let low : (a ≤ x) × (x < a + length (span n c a)) = ground arith in
      rw t (
        get_or-span n c a (x - a) (omega (arith, length-span n c a, low.1))
        ∙ ap c (omega arith)
        ∙ sym (h x low.0))
  | inr f ↦ rw f refl
]

-- An instruction whose first byte is replaced.
abbrev with_opcode : List ℕ → (ℕ → ℕ) → ℕ → ℕ → ℕ
with_opcode ops b addr x = if x == addr then get_or ops (b x) 0 else b x

written_opcode :
    (ops : List ℕ) (b : ℕ → ℕ) (addr x : ℕ)
    → written (get_or ops (b addr) 0 ∷ span 7 b (addr + 1)) b addr x ≡ with_opcode ops b addr x
written_opcode ops b addr x =
    let op = get_or ops (b addr) 0 in
    sym (written_cons op (span 7 b (addr + 1)) b addr x)
    ∙ written-span 7 (written (op ∷ []) b addr) b (addr + 1) x (λ y h. ground arith)
    ∙ ground arith

-- The bytes of memory are bytes, and the blocks of a segment are there.
abbrev pub HasBytes : Table → Type 0
HasBytes table = (x : ℕ) → x < 2 ^ 32 → view table x < 256

abbrev pub IsMapped : Table → ℕ → ℕ → Type 0
IsMapped table base end =
    (x : ℕ) → base ≤ x → x < end → (b : Block) × (table (mem_block x) ≡ some b)

is_inside-inst : (addr : ℕ) → addr % 8 ≡ 0 → addr < 2 ^ 31 → is_inside addr 8 ≡ true
is_inside-inst addr h l = ground (arith, mem_block_lem addr (omega arith), mem_offset_lem addr)

IsMapped-after_write :
    (table : Table) (addr base end : ℕ) (values : List ℕ)
    → IsMapped table base end
    → IsMapped (after_write table addr values) base end
IsMapped-after_write table addr base end values m x h l =
    elim (Bool-cases (mem_block x == mem_block addr)) [
      | inl e ↦
          (put_bytes values (block_or_new (table (mem_block addr))) (mem_offset addr), rw e refl)
      | inr e ↦ let (b, f) = m x h l in (b, rw e f)
    ]

-- The text segment with every instruction's mask replaced by its opcode.
abbrev pub decoded_view : List ℕ → (ℕ → ℕ) → ℕ → ℕ → ℕ → ℕ
decoded_view ops b base end x =
    if leb base x && (ltb x end && (x % 8) == 0) then get_or ops (b x) 0 else b x

-- What the loop gives from an address on.
abbrev pub IsDecoded : List ℕ → ℕ → Table → ℕ → ℕ → Type 0
IsDecoded ops fuel table addr end =
    (table' : Table) × (decode_text fuel ops end table addr ≡ ok table')
    × ((x : ℕ) → x < 2 ^ 32 → view table' x ≡ decoded_view ops (view table) addr end x)

decode_text-stop :
    (ops : List ℕ) (fuel : ℕ) (table : Table) (addr end : ℕ)
    → ltb addr end ≡ false
    → decode_text (suc fuel) ops end table addr ≡ ok table
unfolding decode_text
decode_text-stop ops fuel table addr end t = rw (decode_text, t) refl

decode_text-next :
    (ops : List ℕ) (fuel : ℕ) (table u : Table) (addr end : ℕ)
    → ltb addr end ≡ true
    → decode_one ops table addr ≡ ok u
    → decode_text (suc fuel) ops end table addr ≡ decode_text fuel ops end u (add32 addr 8)
unfolding decode_text
decode_text-next ops fuel table u addr end t e = rw (decode_text, t, e) refl

decode_text_done :
    (ops : List ℕ) (fuel : ℕ) (table : Table) (addr end : ℕ)
    → ltb addr end ≡ false
    → IsDecoded ops (suc fuel) table addr end
decode_text_done ops fuel table addr end t = (
  table,
  decode_text-stop ops fuel table addr end t,
  λ x g.
      let out : (leb addr x && (ltb x end && (x % 8) == 0)) ≡ false = ground arith in rw out refl,
)

module _ (ops : List ℕ) (size : length ops ≡ 256) (below : AllBelow 256 ops) where
  -- One round.
  decode_one_lem :
      (table : Table) (addr : ℕ) (b : Block)
      → table (mem_block addr) ≡ some b
      → addr % 8 ≡ 0
      → addr < 2 ^ 31
      → HasBytes table
      → decode_one ops table addr
        ≡ ok (
            after_write table addr
              (get_or ops (view table addr) 0 ∷ span 7 (view table) (addr + 1)))
  unfolding decode_one
  decode_one_lem table addr b e h l bytes =
      let v = view table in
      let inside = is_inside-inst addr h l in
      let reading =
        unchk_read_lem table addr 8 b e ∙ read_bytes-view table addr 8 inside (omega (arith, l)) in
      let (inst, d, w) =
        decoded_inst_lem ops (v addr) (v (addr + 1)) (v (addr + 1 + 1)) (v (addr + 1 + 1 + 1))
          (v (addr + 1 + 1 + 1 + 1)) (v (addr + 1 + 1 + 1 + 1 + 1))
          (v (addr + 1 + 1 + 1 + 1 + 1 + 1)) (v (addr + 1 + 1 + 1 + 1 + 1 + 1 + 1)) size below
          (
            bytes addr (omega arith),
            bytes (addr + 1) (omega arith),
            bytes (addr + 1 + 1) (omega arith),
            bytes (addr + 1 + 1 + 1) (omega arith),
          )
          (
            bytes (addr + 1 + 1 + 1 + 1) (omega arith),
            bytes (addr + 1 + 1 + 1 + 1 + 1) (omega arith),
            bytes (addr + 1 + 1 + 1 + 1 + 1 + 1) (omega arith),
            bytes (addr + 1 + 1 + 1 + 1 + 1 + 1 + 1) (omega arith),
          ) in
      let writing =
        unchk_write_lem table addr (bytes_of_inst inst) b e
        ∙ ap (write_bytes table addr) w
        ∙ write_bytes_lem table addr (get_or ops (v addr) 0 ∷ span 7 v (addr + 1)) inside in
      ap
        (λ (o : Outcome (List ℕ)). do
          read ← o
          found ← decoded_inst ops (inst_of read)
          unchk_write_bytes table addr (bytes_of_inst found))
        reading
      ∙ ap (λ (o : Outcome Inst). do found ← o; unchk_write_bytes table addr (bytes_of_inst found))
          d
      ∙ writing

  one_view :
      (table : Table) (addr x : ℕ)
      → addr % 8 ≡ 0
      → addr < 2 ^ 31
      → x < 2 ^ 32
      → view
          (after_write table addr (get_or ops (view table addr) 0 ∷ span 7 (view table) (addr + 1)))
          x
        ≡ with_opcode ops (view table) addr x
  one_view table addr x h l g =
      after_write-view table addr (get_or ops (view table addr) 0 ∷ span 7 (view table) (addr + 1))
        x (is_inside-inst addr h l) (omega (arith, l)) g
      ∙ written_opcode ops (view table) addr x

  one_byte : (b : ℕ → ℕ) (addr x : ℕ) → b x < 256 → with_opcode ops b addr x < 256
  one_byte b addr x h = elim (Bool-cases (x == addr)) [
    | inl t ↦ rw t (AllBelow-get_or 256 ops (b x) 0 below (omega (arith, h, size)))
    | inr f ↦ rw f h
  ]

  decoded_view_step :
      (b c : ℕ → ℕ) (addr end x : ℕ)
      → addr < end
      → addr % 8 ≡ 0
      → c x ≡ with_opcode ops b addr x
      → decoded_view ops c (addr + 8) end x ≡ decoded_view ops b addr end x
  decoded_view_step b c addr end x l a e = elim (Bool-cases (x == addr)) [
    | inl t ↦
        let now : (leb addr x && (ltb x end && (x % 8) == 0)) ≡ true = ground arith in
        let later : (leb (addr + 8) x && (ltb x end && (x % 8) == 0)) ≡ false = ground arith in
        rw (now, later) (e ∙ rw t refl)
    | inr f ↦
        let same : (leb (addr + 8) x && (ltb x end && (x % 8) == 0))
            ≡ (leb addr x && (ltb x end && (x % 8) == 0)) =
          ground arith in
        let e' : c x ≡ b x = e ∙ rw f refl in rw (same, e') refl
  ]

  pub decode_text_lem :
      (fuel : ℕ) (table : Table) (addr end : ℕ)
      → end ≤ addr + 8 * fuel
      → addr % 8 ≡ 0
      → end ≤ 2 ^ 31
      → IsMapped table addr end
      → HasBytes table
      → IsDecoded ops (suc fuel) table addr end
  decode_text_lem zero table addr end f a e m h =
      decode_text_done ops zero table addr end (ground arith)
  decode_text_lem (suc fuel) table addr end f a e m h = elim (Bool-cases (ltb addr end)) [
    | inr t ↦ decode_text_done ops (suc fuel) table addr end t
    | inl t ↦
        let l : addr < end = ground arith in
        let (b, mapped) = m addr (omega arith) l in
        let values = get_or ops (view table addr) 0 ∷ span 7 (view table) (addr + 1) in
        let table1 = after_write table addr values in
        let small : addr < 2 ^ 31 = omega arith in
        let once = decode_one_lem table addr b mapped a small h in
        let seen : (x : ℕ) → x < 2 ^ 32 → view table1 x ≡ with_opcode ops (view table) addr x =
          λ x g. one_view table addr x a small g in
        let (table2, run, result) =
          decode_text_lem fuel table1 (addr + 8) end (omega arith) (omega arith) e
            (λ x g k. IsMapped-after_write table addr addr end values m x (omega arith) k)
            (λ x g. rw (seen x g) (one_byte (view table) addr x (h x g))) in
        let next : add32 addr 8 ≡ addr + 8 = omega arith in
        (
          table2,
          decode_text-next ops (suc fuel) table table1 addr end t once
              ∙ ap (decode_text (suc fuel) ops end table1) next
              ∙ run,
          λ x g.
              result x g ∙ decoded_view_step (view table) (view table1) addr end x l a (seen x g),
        )
  ]

-- A text segment of whole instructions below 2^31, whose blocks are there, is decoded in place: the
-- first byte of every instruction becomes the opcode's number, nothing else in memory changes, and
-- the thread is at the program's entry. One round for each instruction and one more are enough.
pub decode-decoded_view :
    (ops : List ℕ) (t : Thread)
    → length ops ≡ 256
    → AllBelow 256 ops
    → t.memory.ld_text_base % 8 ≡ 0
    → t.memory.ld_text_size % 8 ≡ 0
    → t.memory.ld_text_base + t.memory.ld_text_size ≤ 2 ^ 31
    → IsMapped t.memory.mem_table t.memory.ld_text_base
        (t.memory.ld_text_base + t.memory.ld_text_size)
    → HasBytes t.memory.mem_table
    → (u : Thread) × (decode (suc (t.memory.ld_text_size / 8)) ops false t ≡ ok u)
      × ((x : ℕ)
          → x < 2 ^ 32
          → view u.memory.mem_table x
            ≡ decoded_view ops
                (view t.memory.mem_table)
                t.memory.ld_text_base
                (t.memory.ld_text_base + t.memory.ld_text_size)
                x)
      × (u.arch_pc ≡ t.ld_prog_entry)
      × (u.regs_pc ≡ t.ld_prog_entry)
      × (u.next_pc ≡ add32 t.ld_prog_entry 8)
unfolding decode
decode-decoded_view ops t size below base whole e m h =
    let start = t.memory.ld_text_base in
    let bytes = t.memory.ld_text_size in
    let end : add32 start bytes ≡ start + bytes = omega (arith, e) in
    let (table, run, result) =
      decode_text_lem ops size below (bytes / 8) t.memory.mem_table start (start + bytes)
        (omega (arith, whole)) base e m h in
    (
      at_entry t table,
      ap (λ (o : Outcome Table). do decoded ← o; ok (at_entry t decoded))
          (ap (λ (e : ℕ). decode_text (suc (bytes / 8)) ops e t.memory.mem_table start) end ∙ run),
      result,
      refl,
      refl,
      refl,
    )
