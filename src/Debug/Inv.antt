-- ===== src/Debug/Inv.antt =====
-- The representation invariant of `debug_buffer`, and the list of entries that a buffer holds.
use anycore_pisa.Base.{
  ℕ, ◌+◌, ◌%◌, ◌^◌, ◌≤◌, ◌<◌, ◌≡◌, refl, ◌∙◌, true, false, ◌⊎◌, inl, inr, Bool-cases, List, [],
  arith, ltb, length, get_or, get_elem?-eq-get_or, add32, sub32, mod_mask, is_pow2, ok, fail,
  aborted, at,
}
use anycore_pisa.Base.Bits.{mod_mask-eq-mod, is_pow2-exists}
use anycore_pisa.Base.Ring.{next, slot, offset, entries}
use anycore_pisa.Debug.Fields.{Entry}
use anycore_pisa.Debug.{DebugBuffer, debug_buffer, is_active}

abbrev pub blank : Entry
blank = record {
  a_pc = 0;
  a_next_pc = 0;
  a_inst = record { a = 0; b = 0 };
  a_flags = 0;
  a_lat = 0;
  a_num_rdst = 0;
  a_rdst = [];
  a_num_rsrc = 0;
  a_rsrc = [];
  a_num_rsrc_a = 0;
  a_rsrc_a = [];
  a_addr = 0;
  real_upper = 0;
  real_lower = 0;
  store_data = record { word_0 = 0; word_1 = 0 };
  why_vector = 0;
}

pub record IsValid (b : DebugBuffer) : Type 0 where
  pub bits : ℕ
  pub size_pow2 : b.debug_size ≡ 2 ^ bits
  pub size_small : b.debug_size < 2 ^ 32
  pub active_whole : b.active_size ≡ b.debug_size
  pub storage : length b.db ≡ b.debug_size
  pub head_in : b.head < b.debug_size
  pub tail_in : b.tail < b.debug_size
  pub length_in : b.length ≤ b.debug_size
  pub tail_last : next b.debug_size b.tail ≡ slot b.debug_size b.head b.length
  pub pc_ptr_in : b.pc_ptr < b.debug_size

-- Oldest first.
abbrev pub contents : DebugBuffer → List Entry
contents b = entries blank b.debug_size b.db b.head b.length

abbrev pub entry_at : DebugBuffer → ℕ → Entry
entry_at b i = get_or b.db i blank

no_carry : (n x : ℕ) → x < n → n < 2 ^ 32 → add32 x 1 ≡ x + 1
no_carry n x h p = omega arith

next_wraps : (n x : ℕ) → x < n → (x + 1) % n ≡ next n x
next_wraps n x h = grind arith

next-eq-mod : (n x : ℕ) → x < n → n < 2 ^ 32 → add32 x 1 % n ≡ next n x
next-eq-mod n x h p = rw (no_carry n x h p) (next_wraps n x h)

-- MOD(x + 1, DEBUG_SIZE) goes to the next index of the circle.
pub advance :
    {b : DebugBuffer} (x : ℕ)
    → IsValid b
    → x < b.debug_size
    → mod_mask (add32 x 1) b.debug_size ≡ next b.debug_size x
advance {b} x v h =
    mod_mask-eq-mod v.bits (add32 x 1) b.debug_size v.size_pow2 v.size_small
    ∙ next-eq-mod b.debug_size x h v.size_small

pub at_valid :
    {b : DebugBuffer} (x : ℕ) → IsValid b → x < b.debug_size → at b.db x ≡ ok (entry_at b x)
at_valid {b} x v h = ground (arith, get_elem?-eq-get_or b.db x blank, v.storage)

-- `is_active` is true of exactly the first `length` indices from `head` on.
pub is_active_lem :
    {b : DebugBuffer} (e : ℕ)
    → IsValid b
    → e < b.debug_size
    → is_active b e ≡ ltb (offset b.debug_size b.head e) b.length
unfolding is_active
is_active_lem {b} e v h = ground (arith, v.tail_last)

-- What the constructor may come to.
abbrev pub Constructs : ℕ → List Entry → Type 0
Constructs n storage =
    ((is_pow2 n ≡ true)
      × (b : DebugBuffer) × (debug_buffer n storage ≡ ok b)
      × IsValid b
      × (contents b ≡ [])
      × (b.debug_size ≡ n))
    ⊎ ((is_pow2 n ≡ false) × (debug_buffer n storage ≡ fail aborted))

-- For a size that is not 0 the constructor accepts the powers of two only, and what it makes is valid
-- and empty. It fails on any other size.
pub debug_buffer-IsValid :
    (n : ℕ) (storage : List Entry) → 0 < n → n < 2 ^ 32 → length storage ≡ n → Constructs n storage
unfolding debug_buffer
debug_buffer-IsValid n storage p h e = elim (Bool-cases (is_pow2 n)) [
  | inl t ↦
      let (k, e') = is_pow2-exists n p h t in
      inl (
        t,
        record {
          debug_size = n;
          active_size = n;
          db = storage;
          head = 0;
          tail = sub32 n 1;
          length = 0;
          pc_ptr = 0;
        },
        ground arith,
        record {
          bits = k;
          size_pow2 = e';
          size_small = h;
          active_whole = refl;
          storage = e;
          head_in = p;
          tail_in = omega arith;
          length_in = omega arith;
          tail_last = ground arith;
          pc_ptr_in = p;
        },
        refl,
        refl,
      )
  | inr f ↦ inr (f, ground arith)
]
