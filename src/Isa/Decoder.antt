-- ===== src/Isa/Decoder.antt =====
-- simulation/functional-sim/libss-vpi/lib.src/ss.cc: `ss_init_decoder` fills in the table
-- `ss_mask2op` from the masks of ss.def, in the order of `enum ss_opcode`.
use anycore_pisa.Base.{
  ℕ, zero, suc, ◌+◌, ◌<◌, ◌≡◌, ◌≢◌, refl, sym, ◌∙◌, List, [], ◌∷◌, arith, leb, not, ◌==◌, length,
  get_or, set, replicate, length-set, length-replicate, AllBelow, true, Bool, ◌&&◌, ltb, ltb→lt,
  get_or-set_self, get_or-set_ne, get_elem?-eq-get_or, get_or-replicate, Outcome, ok, ◌>>=◌, ◌>>◌,
  assert, at,
}

-- The second arguments of the DEFINST lines of ss.def.
abbrev pub ss_def_masks : List ℕ
ss_def_masks =
    0x0 ∷ 0x1 ∷ 0x2 ∷ 0x3 ∷ 0x4 ∷ 0x5 ∷ 0x6 ∷ 0x7 ∷ 0x8 ∷ 0x9 ∷ 0xa ∷ 0xb ∷ 0xc ∷ 0x20 ∷ 0x22 ∷ 0x24
    ∷ 0x26 ∷ 0x28 ∷ 0x29 ∷ 0x2a ∷ 0x2b ∷ 0x2c ∷ 0x2d ∷ 0x30 ∷ 0x32 ∷ 0x34 ∷ 0x35 ∷ 0x38 ∷ 0x36
    ∷ 0x37 ∷ 0x39 ∷ 0x3a ∷ 0xc0 ∷ 0xc1 ∷ 0xc2 ∷ 0xc3 ∷ 0xc4 ∷ 0xce ∷ 0xc5 ∷ 0xcf ∷ 0xc6 ∷ 0xc7
    ∷ 0xc8 ∷ 0xd0 ∷ 0xd1 ∷ 0xc9 ∷ 0xd2 ∷ 0xca ∷ 0xcb ∷ 0xcc ∷ 0xcd ∷ 0x40 ∷ 0x41 ∷ 0x42 ∷ 0x43
    ∷ 0x44 ∷ 0x45 ∷ 0x46 ∷ 0x47 ∷ 0x48 ∷ 0x49 ∷ 0x4a ∷ 0x4b ∷ 0x4c ∷ 0x4d ∷ 0x4e ∷ 0x4f ∷ 0x50
    ∷ 0x51 ∷ 0x52 ∷ 0x53 ∷ 0x54 ∷ 0x55 ∷ 0x56 ∷ 0x57 ∷ 0x58 ∷ 0x59 ∷ 0x5a ∷ 0x5b ∷ 0x5c ∷ 0x5d
    ∷ 0x5e ∷ 0x70 ∷ 0x71 ∷ 0x72 ∷ 0x73 ∷ 0x74 ∷ 0x75 ∷ 0x76 ∷ 0x77 ∷ 0x78 ∷ 0x79 ∷ 0x7a ∷ 0x7b
    ∷ 0x7c ∷ 0x7d ∷ 0x80 ∷ 0x81 ∷ 0x82 ∷ 0x83 ∷ 0x84 ∷ 0x85 ∷ 0x90 ∷ 0x91 ∷ 0x92 ∷ 0x93 ∷ 0x94
    ∷ 0x95 ∷ 0x96 ∷ 0x97 ∷ 0xa0 ∷ 0xa1 ∷ 0xa2 ∷ 0xa3 ∷ 0xa7 ∷ 0xa4 ∷ 0xa5 ∷ 0xa8 ∷ 0xa6 ∷ []

abbrev pub ss_max_mask : ℕ
ss_max_mask = 255

-- The lines that DEFINST expands to, for the opcodes from `op` on.
pub init_from : ℕ → List ℕ → List ℕ → Outcome (List ℕ)
init_from op [] table = ok table
init_from op (mask ∷ masks) table = do
  old ← at table mask
  assert (old == 0)
  assert (leb mask ss_max_mask)
  init_from (op + 1) masks (set table mask op)

-- The table is a global variable, so it starts as zeros.
pub ss_init_decoder : Outcome (List ℕ)
unfolding init_from
ss_init_decoder = init_from 1 ss_def_masks (replicate 256 0)

abbrev pub NotIn : ℕ → List ℕ → Type 0
NotIn m [] = Unit {0}
NotIn m (x ∷ xs) = (m ≢ x) × NotIn m xs

abbrev pub Distinct : List ℕ → Type 0
Distinct [] = Unit {0}
Distinct (x ∷ xs) = NotIn x xs × Distinct xs

abbrev pub AllZero : List ℕ → List ℕ → Type 0
AllZero table [] = Unit {0}
AllZero table (x ∷ xs) = (get_or table x 0 ≡ 0) × AllZero table xs

AllZero-set :
    (table : List ℕ) (m op : ℕ) (xs : List ℕ)
    → NotIn m xs
    → AllZero table xs
    → AllZero (set table m op) xs
AllZero-set table m op [] n z = tt
AllZero-set table m op (x ∷ xs) n z =
    (get_or-set_ne table m x op 0 n.0 ∙ z.0, AllZero-set table m op xs n.1 z.1)

AllZero-replicate : (n : ℕ) (xs : List ℕ) → AllZero (replicate n 0) xs
AllZero-replicate n [] = tt
AllZero-replicate n (x ∷ xs) = (get_or-replicate n x 0, AllZero-replicate n xs)

-- What a run for the opcodes from `op` on makes of a table.
record Decodes (op : ℕ) (masks table : List ℕ) : Type 0 where
  pub out : List ℕ
  pub returns : init_from op masks table ≡ ok out
  pub hits : (i : ℕ) → i < length masks → get_or out (get_or masks i 0) 0 ≡ op + i
  pub misses : (m : ℕ) → NotIn m masks → get_or out m 0 ≡ get_or table m 0

init_from-cons :
    (op mask : ℕ) (masks table : List ℕ)
    → mask < 256
    → length table ≡ 256
    → get_or table mask 0 ≡ 0
    → init_from op (mask ∷ masks) table ≡ init_from (op + 1) masks (set table mask op)
unfolding init_from
init_from-cons op mask masks table b l z = ground (arith, get_elem?-eq-get_or table mask 0)

-- The number of an opcode in a longer list of masks.
hits_cons :
    (op mask : ℕ) (masks out : List ℕ)
    → get_or out mask 0 ≡ op
    → ((i : ℕ) → i < length masks → get_or out (get_or masks i 0) 0 ≡ op + 1 + i)
    → (i : ℕ) → i < length (mask ∷ masks)
    → get_or out (get_or (mask ∷ masks) i 0) 0 ≡ op + i
hits_cons op mask masks out here there zero h = omega (arith, here)
hits_cons op mask masks out here there (suc i) h = omega (arith, there i (omega arith))

init_from-Decodes :
    (op : ℕ) (masks table : List ℕ)
    → length table ≡ 256
    → AllBelow 256 masks
    → Distinct masks
    → AllZero table masks
    → Decodes op masks table
init_from-Decodes op [] table l b d z = record {
  out = table;
  returns = unfold init_from in refl;
  hits = λ i h. absurd (omega arith);
  misses = λ m n. refl;
}
init_from-Decodes op (mask ∷ masks) table l b d z =
    let rest =
      init_from-Decodes (op + 1) masks (set table mask op) (length-set table mask op ∙ l) b.1 d.1
        (AllZero-set table mask op masks d.0 z.1) in
    record {
      out = rest.out;
      returns = init_from-cons op mask masks table b.0 l z.0 ∙ rest.returns;
      hits =
          hits_cons op mask masks rest.out
            (rest.misses mask d.0 ∙ get_or-set_self table mask op 0 (omega arith)) rest.hits;
      misses = λ m n. rest.misses m n.1 ∙ get_or-set_ne table mask m op 0 (λ e. n.0 (sym e));
    }

-- Boolean tests of the two conditions on a list of masks.
not_in : ℕ → List ℕ → Bool
not_in m [] = true
not_in m (x ∷ xs) = not (m == x) && not_in m xs

distinct : List ℕ → Bool
distinct [] = true
distinct (x ∷ xs) = not_in x xs && distinct xs

all_below : ℕ → List ℕ → Bool
all_below n [] = true
all_below n (x ∷ xs) = ltb x n && all_below n xs

not_in-NotIn : (m : ℕ) (xs : List ℕ) → not_in m xs ≡ true → NotIn m xs
unfolding not_in
not_in-NotIn m [] h = tt
not_in-NotIn m (x ∷ xs) h =
    let both : (not (m == x) ≡ true) × (not_in m xs ≡ true) = ground arith in
    ((λ e. ground arith), not_in-NotIn m xs both.1)

distinct-Distinct : (xs : List ℕ) → distinct xs ≡ true → Distinct xs
unfolding distinct
distinct-Distinct [] h = tt
distinct-Distinct (x ∷ xs) h =
    let both : (not_in x xs ≡ true) × (distinct xs ≡ true) = ground arith in
    (not_in-NotIn x xs both.0, distinct-Distinct xs both.1)

all_below-AllBelow : (n : ℕ) (xs : List ℕ) → all_below n xs ≡ true → AllBelow n xs
unfolding all_below
all_below-AllBelow n [] h = tt
all_below-AllBelow n (x ∷ xs) h =
    let both : (ltb x n ≡ true) × (all_below n xs ≡ true) = ground arith in
    (ltb→lt x n both.0, all_below-AllBelow n xs both.1)

ss_def_masks-Distinct : Distinct ss_def_masks
unfolding distinct not_in
ss_def_masks-Distinct = distinct-Distinct ss_def_masks refl

ss_def_masks-AllBelow : AllBelow 256 ss_def_masks
unfolding all_below
ss_def_masks-AllBelow = all_below-AllBelow 256 ss_def_masks refl

ss_init_decoder-run : Decodes 1 ss_def_masks (replicate 256 0)
ss_init_decoder-run =
    init_from-Decodes 1 ss_def_masks (replicate 256 0) (length-replicate {A = ℕ} 256 0)
      ss_def_masks-AllBelow ss_def_masks-Distinct (AllZero-replicate 256 ss_def_masks)

-- The table that `ss_init_decoder` leaves: the mask of each opcode has the number of the opcode,
-- and any other index has 0, which is OP_NA.
abbrev pub DecodesAll : List ℕ → Type 0
DecodesAll out =
    ((i : ℕ) → i < length ss_def_masks → get_or out (get_or ss_def_masks i 0) 0 ≡ i + 1)
    × ((m : ℕ) → NotIn m ss_def_masks → get_or out m 0 ≡ 0)

-- `ss_init_decoder` returns, none of its assertions fails, and its table maps the mask of each
-- opcode of ss.def to the number of that opcode and every other index to OP_NA.
pub ss_init_decoder-DecodesAll : (out : List ℕ) × (ss_init_decoder ≡ ok out) × DecodesAll out
unfolding ss_init_decoder
ss_init_decoder-DecodesAll =
    let run = ss_init_decoder-run in
    (
      run.out,
      run.returns,
      ((λ i h. omega (arith, run.hits i h)), λ m n. run.misses m n ∙ get_or-replicate 256 m 0),
    )
