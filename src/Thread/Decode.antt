-- ===== src/Thread/Decode.antt =====
-- `decode` of Thread.h: the text segment with the numbers of the opcodes in place of their masks.
use anycore_pisa.Base.{
  ℕ, zero, suc, ◌+◌, ◌-◌, ◌*◌, ◌<◌, ◌^◌, ◌≡◌, refl, ap, sym, ◌∙◌, bit_and, bit_or, Bool, true,
  false, not, Option, none, some, List, [], ◌∷◌, ◌++◌, ltb, length, get_or, AllBelow,
  AllBelow-get_or, ap₂, get_elem?-eq-get_or, add32, not32, Outcome, ok, fail, out_of_fuel,
  undefined, ◌>>=◌, ◌>>◌, assert, at, arith,
}
use anycore_pisa.Base.Bits.{bit_and-fields, bit_and-mask, bit_and-zero, bit_or-fields}
use anycore_pisa.Blocks.{
  Block, Table, mem_block, word_of, bytes_of, inside, mem_offset, get_bytes, put_bytes, update,
  block_or_new, unchk_read_bytes, unchk_write_bytes, read_bytes, write_bytes,
}
use anycore_pisa.Debug.Fields.{Inst}
use anycore_pisa.Isa.{ss_opcode, ss_inst_size, inst_of}
use anycore_pisa.Thread.{Thread}

-- The instruction with its opcode in place of its mask; `ops` is ss_mask2op.
abbrev pub decoded_inst : List ℕ → Inst → Outcome Inst
decoded_inst ops inst = do
  op ← at ops (ss_opcode inst)
  ok (record { a = bit_or (bit_and inst.a (not32 0xff)) op; b = inst.b })

abbrev pub bytes_of_inst : Inst → List ℕ
bytes_of_inst inst = bytes_of 4 inst.a ++ bytes_of 4 inst.b

-- One round of the loop over the text segment.
unfoldable pub decode_one : List ℕ → Table → ℕ → Outcome Table
decode_one ops table addr = do
  bytes ← unchk_read_bytes table addr 8
  inst ← decoded_inst ops (inst_of bytes)
  unchk_write_bytes table addr (bytes_of_inst inst)

-- The loop, from an address on, with fuel for its rounds.
unfoldable pub decode_text : ℕ → List ℕ → ℕ → Table → ℕ → Outcome Table
decode_text zero ops end table addr = fail out_of_fuel
decode_text (suc fuel) ops end table addr = elim (ltb addr end) [
  | true ↦ do
    table' ← decode_one ops table addr
    decode_text fuel ops end table' (add32 addr ss_inst_size)
  | false ↦ ok table
]

-- The decoded text, and the thread before its first instruction.
abbrev pub at_entry : Thread → Table → Thread
at_entry t table = record t {
  memory = record t.memory { mem_table = table };
  num_insn = 0;
  num_refs = 0;
  regs_pc = t.ld_prog_entry;
  next_pc = add32 t.ld_prog_entry 8;
  arch_pc = t.ld_prog_entry;
}

-- `swap` is whether bytes or words have to be swapped.
unfoldable pub decode : ℕ → List ℕ → Bool → Thread → Outcome Thread
decode fuel ops swap t = do
  assert (not swap)
  table ←
      decode_text fuel ops (add32 t.memory.ld_text_base t.memory.ld_text_size) t.memory.mem_table
        t.memory.ld_text_base
  ok (at_entry t table)

-- A block that is there, and one that is allocated, read and write in the same way.
pub unchk_read_lem :
    (table : Table) (addr n : ℕ) (b : Block)
    → table (mem_block addr) ≡ some b
    → unchk_read_bytes table addr n ≡ read_bytes table addr n
unfolding unchk_read_bytes read_bytes
unchk_read_lem table addr n b e =
    ap
      (λ (o : Option Block). elim o [
        | none ↦ fail undefined
        | some block ↦ inside addr n (get_bytes n block (mem_offset addr))
      ])
      e
    ∙ ap (λ (o : Option Block). inside addr n (get_bytes n (block_or_new o) (mem_offset addr)))
        (sym e)

pub unchk_write_lem :
    (table : Table) (addr : ℕ) (bytes : List ℕ) (b : Block)
    → table (mem_block addr) ≡ some b
    → unchk_write_bytes table addr bytes ≡ write_bytes table addr bytes
unfolding unchk_write_bytes write_bytes
unchk_write_lem table addr bytes b e =
    ap
      (λ (o : Option Block). elim o [
        | none ↦ fail undefined
        | some block ↦
            inside addr (length bytes)
              (update table (mem_block addr) (some (put_bytes bytes block (mem_offset addr))))
      ])
      e
    ∙ ap
        (λ (o : Option Block). inside addr (length bytes) (
          update table (mem_block addr)
            (some (put_bytes bytes (block_or_new o) (mem_offset addr)))))
        (sym e)

word_bytes :
    (b0 b1 b2 b3 : ℕ)
    → b0 < 256
    → b1 < 256
    → b2 < 256
    → b3 < 256
    → bytes_of 4 (word_of (b0 ∷ b1 ∷ b2 ∷ b3 ∷ [])) ≡ b0 ∷ b1 ∷ b2 ∷ b3 ∷ []
word_bytes b0 b1 b2 b3 h0 h1 h2 h3 =
    ap₂ ◌∷◌ (omega arith)
      (ap₂ ◌∷◌ (omega arith) (ap₂ ◌∷◌ (omega arith) (ap (λ (b : ℕ). b ∷ []) (omega arith))))

-- The first word of an instruction, with another lowest byte.
opcode_word :
    (b0 q op : ℕ)
    → b0 < 256
    → q < 2 ^ 24
    → op < 256
    → bit_or (bit_and (b0 + 256 * q) (not32 0xff)) op ≡ op + 256 * q
opcode_word b0 q op h0 h h1 =
    let digits : b0 + 256 * q ≡ q * 2 ^ 8 + b0 = omega arith in
    let high =
      ap (λ (t : ℕ). bit_and t (not32 0xff)) digits
      ∙ bit_and-fields 8 q b0 (2 ^ 24 - 1) 0 (omega arith) (omega arith) in
    let cleared : bit_and (b0 + 256 * q) (not32 0xff) ≡ q * 2 ^ 8 =
      omega (arith, high, bit_and-mask 24 q, bit_and-zero b0) in
    ap (λ (t : ℕ). bit_or t op) cleared ∙ omega (arith, bit_or-fields 8 q op (omega arith))

pub decoded_inst_lem :
    (ops : List ℕ) (b0 b1 b2 b3 c0 c1 c2 c3 : ℕ)
    → length ops ≡ 256
    → AllBelow 256 ops
    → (b0 < 256) × (b1 < 256) × (b2 < 256) × (b3 < 256)
    → (c0 < 256) × (c1 < 256) × (c2 < 256) × (c3 < 256)
    → (inst : Inst) × (decoded_inst ops (inst_of (b0 ∷ b1 ∷ b2 ∷ b3 ∷ c0 ∷ c1 ∷ c2 ∷ c3 ∷ []))
        ≡ ok inst)
      × (bytes_of_inst inst ≡ get_or ops b0 0 ∷ b1 ∷ b2 ∷ b3 ∷ c0 ∷ c1 ∷ c2 ∷ c3 ∷ [])
decoded_inst_lem ops b0 b1 b2 b3 c0 c1 c2 c3 l below b c =
    let a = word_of (b0 ∷ b1 ∷ b2 ∷ b3 ∷ []) in
    let second = word_of (c0 ∷ c1 ∷ c2 ∷ c3 ∷ []) in
    let q = word_of (b1 ∷ b2 ∷ b3 ∷ []) in
    let op = get_or ops b0 0 in
    let small : op < 256 = AllBelow-get_or 256 ops b0 0 below (omega (arith, b.0, l)) in
    let mask : bit_and a 0xff ≡ b0 = omega (arith, bit_and-mask 8 a, b.0) in
    let found = get_elem?-eq-get_or ops b0 0 (omega (arith, b.0, l)) in
    let first_word = opcode_word b0 q op b.0 (omega (arith, b.1, b.2, b.3)) small in
    (
      record { a = bit_or (bit_and a (not32 0xff)) op; b = second },
      rw (mask, found) refl,
      ap₂ ◌++◌ (ap (bytes_of 4) first_word ∙ word_bytes op b1 b2 b3 small b.1 b.2 b.3)
          (word_bytes c0 c1 c2 c3 c.0 c.1 c.2 c.3),
    )
