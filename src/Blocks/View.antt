-- ===== src/Blocks/View.antt =====
-- Simulated memory as a flat array of bytes, and accesses as reads and writes of that array.
use anycore_pisa.Base.{
  ℕ, zero, suc, ◌+◌, ◌-◌, ◌/◌, ◌%◌, ◌^◌, ◌≤◌, ◌<◌, ◌≡◌, ◌≢◌, refl, ap, ap₂, sym, ◌∙◌, true, false,
  ◌&&◌, some, List, [], ◌∷◌, ltb, leb, ◌==◌, if◌then◌else◌, length, get_or, ok, arith, inl, inr,
  Bool-cases,
}
use anycore_pisa.Base.Bits.{bit_and-mask}
use anycore_pisa.Blocks.{
  mem_block, mem_offset, Block, Table, update, block_or_new, get_bytes, put_bytes, is_inside,
  allocate, read_bytes, write_bytes,
}

-- The byte at an address. A block that is not there reads as zeros.
abbrev pub view : Table → ℕ → ℕ
view table addr = block_or_new (table (mem_block addr)) (mem_offset addr)

-- The bytes from an address on.
abbrev pub span : ℕ → (ℕ → ℕ) → ℕ → List ℕ
span zero bytes addr = []
span (suc n) bytes addr = bytes addr ∷ span n bytes (addr + 1)

-- The array of bytes with some of them replaced, from an address on.
abbrev pub written : List ℕ → (ℕ → ℕ) → ℕ → ℕ → ℕ
written values bytes addr x =
    if leb addr x && ltb x (addr + length values) then get_or values (x - addr) 0 else bytes x

pub mem_block_lem : (addr : ℕ) → addr < 2 ^ 32 → mem_block addr ≡ addr / 2 ^ 16
mem_block_lem addr h = omega (arith, bit_and-mask 16 (addr / 2 ^ 16))

pub mem_offset_lem : (addr : ℕ) → mem_offset addr ≡ addr % 2 ^ 16
mem_offset_lem addr = bit_and-mask 16 addr

-- Two addresses below 2^32 with the same block and offset are the same.
pub block_offset-injective :
    (x y : ℕ)
    → x < 2 ^ 32
    → y < 2 ^ 32
    → mem_block x ≡ mem_block y
    → mem_offset x ≡ mem_offset y
    → x ≡ y
block_offset-injective x y h g e f =
    omega (arith, mem_block_lem x h, mem_block_lem y g, mem_offset_lem x, mem_offset_lem y)

-- Offsets inside of an access that stays in its block.
pub next_byte :
    (addr i n : ℕ)
    → is_inside addr n ≡ true
    → addr < 2 ^ 32
    → i < n
    → (mem_block (addr + i) ≡ mem_block addr) × (mem_offset (addr + i) ≡ mem_offset addr + i)
next_byte addr i n h g l =
    let small : mem_offset addr + n ≤ 0x10000 = ground arith in
    ground (
      arith,
      mem_offset_lem addr,
      mem_offset_lem (addr + i),
      bit_and-mask 16 (addr / 2 ^ 16),
      bit_and-mask 16 ((addr + i) / 2 ^ 16),
    )

get_bytes-span :
    (n : ℕ) (block : Block) (offset : ℕ) (bytes : ℕ → ℕ) (addr : ℕ)
    → ((i : ℕ) → i < n → block (offset + i) ≡ bytes (addr + i))
    → get_bytes n block offset ≡ span n bytes addr
get_bytes-span zero block offset bytes addr h = refl
get_bytes-span (suc n) block offset bytes addr h =
    let first : block offset ≡ bytes addr =
      ap block (omega arith) ∙ h 0 (omega arith) ∙ ap bytes (omega arith) in
    let rest =
      get_bytes-span n block (offset + 1) bytes (addr + 1)
        (λ i l. ap block (omega arith) ∙ h (i + 1) (omega arith) ∙ ap bytes (omega arith)) in
    ap₂ ◌∷◌ first rest

put_bytes_lem :
    (values : List ℕ) (block : Block) (offset x : ℕ)
    → put_bytes values block offset x ≡ written values block offset x
put_bytes_lem [] block offset x = ground arith
put_bytes_lem (v ∷ values) block offset x =
    ground (arith, put_bytes_lem values (update block offset v) (offset + 1) x)

-- A read that stays in its block gives the bytes of the flat array.
pub read_bytes-view :
    (table : Table) (addr n : ℕ)
    → is_inside addr n ≡ true
    → addr < 2 ^ 32
    → read_bytes table addr n ≡ ok (span n (view table) addr)
unfolding read_bytes
read_bytes-view table addr n h l = rw h (
    ap ok (
      get_bytes-span n (block_or_new (table (mem_block addr))) (mem_offset addr) (view table) addr
        (λ i g.
          let place = next_byte addr i n h l g in
          ap₂ (λ (b o : ℕ). block_or_new (table b) o) (sym place.0) (sym place.1))))

abbrev pub after_write : Table → ℕ → List ℕ → Table
after_write table addr values =
    update table (mem_block addr)
      (some (put_bytes values (block_or_new (table (mem_block addr))) (mem_offset addr)))

pub write_bytes_lem :
    (table : Table) (addr : ℕ) (values : List ℕ)
    → is_inside addr (length values) ≡ true
    → write_bytes table addr values ≡ ok (after_write table addr values)
unfolding write_bytes
write_bytes_lem table addr values h = rw h refl

-- The place of an address, relative to a write in the same block.
same_place :
    (addr x n : ℕ)
    → is_inside addr n ≡ true
    → addr < 2 ^ 32
    → x < 2 ^ 32
    → mem_block x ≡ mem_block addr
    → (mem_offset x + addr ≡ mem_offset addr + x)
same_place addr x n h l g e =
    omega (arith, mem_block_lem x g, mem_block_lem addr l, mem_offset_lem x, mem_offset_lem addr)

other_place :
    (addr x n : ℕ)
    → is_inside addr n ≡ true
    → addr < 2 ^ 32
    → x < 2 ^ 32
    → mem_block x ≢ mem_block addr
    → (leb addr x && ltb x (addr + n)) ≡ false
other_place addr x n h l g e = elim (Bool-cases (leb addr x && ltb x (addr + n))) [
  | inl t ↦
      let low : (addr ≤ x) × (x < addr + n) = ground arith in
      let place = next_byte addr (x - addr) n h l (omega arith) in
      absurd (e (ap mem_block (omega arith) ∙ place.0))
  | inr f ↦ f
]

written_moved :
    (values : List ℕ) (b c : ℕ → ℕ) (o y addr x : ℕ)
    → y + addr ≡ o + x
    → b y ≡ c x
    → written values b o y ≡ written values c addr x
written_moved values b c o y addr x e f =
    elim (Bool-cases (leb addr x && ltb x (addr + length values))) [
      | inl t ↦
          let inside_too : (leb o y && ltb y (o + length values)) ≡ true = ground arith in
          rw (t, inside_too) (ap (λ (i : ℕ). get_or values i 0) (ground arith))
      | inr t ↦
          let outside_too : (leb o y && ltb y (o + length values)) ≡ false = ground arith in
          rw (t, outside_too) f
    ]

-- A write that stays in its block replaces the bytes of the flat array, and no others.
pub after_write-view :
    (table : Table) (addr : ℕ) (values : List ℕ) (x : ℕ)
    → is_inside addr (length values) ≡ true
    → addr < 2 ^ 32
    → x < 2 ^ 32
    → view (after_write table addr values) x ≡ written values (view table) addr x
after_write-view table addr values x h l g =
    let block = block_or_new (table (mem_block addr)) in
    elim (Bool-cases (mem_block x == mem_block addr)) [
      | inl e ↦
          let e' : mem_block x ≡ mem_block addr = ground arith in
          rw e (
            put_bytes_lem values block (mem_offset addr) (mem_offset x)
            ∙ written_moved values block (view table) (mem_offset addr) (mem_offset x) addr x
                (same_place addr x (length values) h l g e')
                (ap (λ (b : ℕ). block_or_new (table b) (mem_offset x)) (sym e')))
      | inr e ↦
          let e' : mem_block x ≢ mem_block addr = λ q. ground arith in
          rw (e, other_place addr x (length values) h l g e') refl
    ]

pub allocate-view : (table : Table) (addr x : ℕ) → view (allocate table addr) x ≡ view table x
allocate-view table addr x = elim (Bool-cases (mem_block x == mem_block addr)) [
  | inl e ↦
      let e' : mem_block x ≡ mem_block addr = ground arith in
      rw e (ap (λ (b : ℕ). block_or_new (table b) (mem_offset x)) (sym e'))
  | inr e ↦ rw e refl
]

pub span-cong :
    (n : ℕ) (b c : ℕ → ℕ) (addr : ℕ)
    → ((i : ℕ) → i < n → b (addr + i) ≡ c (addr + i))
    → span n b addr ≡ span n c addr
span-cong zero b c addr h = refl
span-cong (suc n) b c addr h =
    let first : b addr ≡ c addr = ap b (omega arith) ∙ h 0 (omega arith) ∙ ap c (omega arith) in
    ap₂ ◌∷◌ first (
      span-cong n b c (addr + 1)
        (λ i l. ap b (omega arith) ∙ h (i + 1) (omega arith) ∙ ap c (omega arith)))

pub written_nil : (b : ℕ → ℕ) (addr y : ℕ) → written [] b addr y ≡ b y
written_nil b addr y = ground arith

pub written_cons :
    (x : ℕ) (values : List ℕ) (b : ℕ → ℕ) (addr y : ℕ)
    → written values (written (x ∷ []) b addr) (addr + 1) y ≡ written (x ∷ values) b addr y
written_cons x values b addr y = ground arith

pub written_first :
    (x : ℕ) (values : List ℕ) (b : ℕ → ℕ) (addr : ℕ) → written (x ∷ values) b addr addr ≡ x
written_first x values b addr =
    let here : (leb addr addr && ltb addr (addr + suc (length values))) ≡ true = ground arith in
    let none : addr - addr ≡ 0 = omega arith in rw (here, none) refl

pub span-written :
    (values : List ℕ) (b : ℕ → ℕ) (addr : ℕ)
    → span (length values) (written values b addr) addr ≡ values
span-written [] b addr = refl
span-written (x ∷ values) b addr =
    let first : written (x ∷ values) b addr addr ≡ x = written_first x values b addr in
    ap₂ ◌∷◌ first (
      span-cong (length values) (written (x ∷ values) b addr)
        (written values (written (x ∷ []) b addr) (addr + 1)) (addr + 1)
        (λ i h. sym (written_cons x values b addr (addr + 1 + i)))
      ∙ span-written values (written (x ∷ []) b addr) (addr + 1))
