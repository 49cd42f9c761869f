-- ===== src/Memory/Access.antt =====
-- mem_access of memory.cc for transfers of one unit of 1, 2 or 4 bytes, on all of its branches.
use anycore_pisa.Base.{
  ℕ, ◌+◌, ◌%◌, ◌≤◌, ◌<◌, ◌^◌, ◌≡◌, refl, ap, subst, sym, ◌∙◌, Bool, true, false, ◌&&◌, ◌⊎◌, inl,
  inr, Bool-cases, List, ◌++◌, ltb, leb, ◌==◌, if◌then◌else◌, length, take, drop, length-take,
  Outcome, ok, fail, aborted, assert, ◌>>◌, arith,
}
use anycore_pisa.Base.Bits.{bit_and-mask}
use anycore_pisa.Blocks.{is_inside}
use anycore_pisa.Blocks.View.{span, span-cong, written, mem_block_lem, mem_offset_lem}
use anycore_pisa.Memory.{
  Memory, MemCmd, read, write, is_aligned, is_permitted, tracked, has_room, touch_shared,
  touch_private, transfer, mem_access,
}
use anycore_pisa.Memory.Flat.{
  flat, IsUniform, touch, flat-touch, load-flat, either_memory, written_same, stored, stored_shared,
  stored_private, store_lem, stored-flat,
}

-- What the loader and mem_init set, and an access leaves as it is.
pub record Limits : Type 0 where
  pub shmem_base : ℕ
  pub shmem_end : ℕ
  pub ld_text_base : ℕ
  pub ld_text_size : ℕ
  pub ld_data_base : ℕ
  pub ld_data_size : ℕ
  pub ld_stack_base : ℕ
  pub mem_brk_point : ℕ

abbrev pub limits : Memory → Limits
limits m = record {
  shmem_base = m.shmem_base;
  shmem_end = m.shmem_end;
  ld_text_base = m.ld_text_base;
  ld_text_size = m.ld_text_size;
  ld_data_base = m.ld_data_base;
  ld_data_size = m.ld_data_size;
  ld_stack_base = m.ld_stack_base;
  mem_brk_point = m.mem_brk_point;
}

-- The segments lie in the lower half of the address space, which the table of blocks covers.
abbrev pub IsLow : Memory → Type 0
IsLow m = (m.ld_text_base + m.ld_text_size ≤ 2 ^ 31) × (m.ld_stack_base ≤ 2 ^ 31)

pub is_permitted-low :
    (m : Memory) (cmd : MemCmd) (addr : ℕ)
    → IsLow m
    → is_permitted m cmd addr ≡ true
    → addr < 2 ^ 31
is_permitted-low m cmd addr (t, s) h = ground arith

-- The transfers of one unit, and their numbers of bytes.
pub data Width : Type 0 where
  byte half word : Width

abbrev pub nbytes : Width → ℕ
nbytes byte = 1
nbytes half = 2
nbytes word = 4

pub is_aligned_lem : (w : Width) (addr : ℕ) → is_aligned addr (nbytes w) ≡ (addr % nbytes w == 0)
is_aligned_lem byte addr = ground (arith, bit_and-mask 0 1, bit_and-mask 0 addr)
is_aligned_lem half addr = ground (arith, bit_and-mask 1 2, bit_and-mask 1 addr)
is_aligned_lem word addr = ground (arith, bit_and-mask 2 4, bit_and-mask 2 addr)

-- An aligned unit in the lower half of the address space stays inside of one block.
pub is_inside-aligned :
    (w : Width) (addr : ℕ) → addr % nbytes w ≡ 0 → addr < 2 ^ 31 → is_inside addr (nbytes w) ≡ true
is_inside-aligned byte addr h l =
    ground (arith, mem_block_lem addr (omega arith), mem_offset_lem addr)
is_inside-aligned half addr h l =
    ground (arith, mem_block_lem addr (omega arith), mem_offset_lem addr)
is_inside-aligned word addr h l =
    ground (arith, mem_block_lem addr (omega arith), mem_offset_lem addr)

-- What an access does to memory: it keeps the limits, and makes `bytes` of the flat array.
pub record Leaves (m m' : Memory) (bytes : ℕ → ℕ) : Type 0 where
  pub keeps : limits m' ≡ limits m
  pub leaves : (x : ℕ) → x < 2 ^ 32 → flat m' x ≡ bytes x

tracked-flat : (m : Memory) (addr x : ℕ) → flat (tracked m addr) x ≡ flat m x
tracked-flat m addr x = either_memory (λ q. flat q x ≡ flat m x) _ _ m (λ e. refl) (λ e. refl)

tracked-limits : (m : Memory) (addr : ℕ) → limits (tracked m addr) ≡ limits m
tracked-limits m addr = either_memory (λ q. limits q ≡ limits m) _ _ m (λ e. refl) (λ e. refl)

pub touch-limits : (m : Memory) (addr : ℕ) → limits (touch m addr) ≡ limits m
touch-limits m addr =
    either_memory (λ q. limits q ≡ limits m) _ (touch_shared m addr) (touch_private m addr)
      (λ e. refl) (λ e. refl)

stored-limits : (m : Memory) (addr : ℕ) (p : List ℕ) → limits (stored m addr p) ≡ limits m
stored-limits m addr p =
    either_memory (λ q. limits q ≡ limits m) _ (stored_shared m addr p) (stored_private m addr p)
      (λ e. refl) (λ e. refl)

abbrev shared_by : Limits → ℕ → Bool
shared_by l x = ltb x l.shmem_end && leb l.shmem_base x

pub IsUniform-limits :
    (m q : Memory) (addr n : ℕ) → limits q ≡ limits m → IsUniform m addr n → IsUniform q addr n
IsUniform-limits m q addr n e u i h =
    ap (λ l. shared_by l (addr + i)) e ∙ u i h ∙ ap (λ l. shared_by l addr) (sym e)

-- A read of one unit.
transfer_read :
    (w : Width) (m : Memory) (addr : ℕ) (p : List ℕ)
    → is_inside addr (nbytes w) ≡ true
    → addr < 2 ^ 32
    → IsUniform m addr (nbytes w)
    → has_room (nbytes w) p ≡ true
    → transfer (nbytes w) m read addr p
      ≡ ok (touch m addr, span (nbytes w) (flat m) addr ++ drop (nbytes w) p)
unfolding transfer
transfer_read w m addr p h l u r = rw (r, load-flat (nbytes w) m addr h l u) refl

transfer_write :
    (w : Width) (m : Memory) (addr : ℕ) (p : List ℕ)
    → is_inside addr (nbytes w) ≡ true
    → has_room (nbytes w) p ≡ true
    → transfer (nbytes w) m write addr p ≡ ok (stored m addr (take (nbytes w) p), p)
unfolding transfer
transfer_write w m addr p h r =
    let n : length (take (nbytes w) p) ≡ nbytes w = length-take (nbytes w) p (ground arith) in
    let i = ap (is_inside addr) n ∙ h in rw (r, store_lem m addr (take (nbytes w) p) i) refl

-- Two assertions in front of a call.
both_hold :
    {A : Type 0} (a b : Bool) (o : Outcome A)
    → (do assert a; assert b; o) ≡ (if a && b then o else fail aborted)
both_hold true true o = refl
both_hold true false o = refl
both_hold false b o = refl

pub mem_access-transfer :
    (w : Width) (m : Memory) (cmd : MemCmd) (addr : ℕ) (p : List ℕ)
    → mem_access m cmd addr p (nbytes w) ≡ (
        if is_aligned addr (nbytes w) && is_permitted m cmd addr
        then transfer (nbytes w) (tracked m addr) cmd addr p
        else fail aborted)
unfolding mem_access
mem_access-transfer byte m cmd addr p = both_hold (is_aligned addr 1) (is_permitted m cmd addr) _
mem_access-transfer half m cmd addr p = both_hold (is_aligned addr 2) (is_permitted m cmd addr) _
mem_access-transfer word m cmd addr p = both_hold (is_aligned addr 4) (is_permitted m cmd addr) _

-- The two ways a unit transfer goes: `fatal`, or into a memory with some bytes.
abbrev pub Transfers : Memory → MemCmd → ℕ → Width → List ℕ → (ℕ → ℕ) → List ℕ → Type 0
Transfers m cmd addr w p bytes q =
    (((addr % nbytes w == 0) && is_permitted m cmd addr ≡ false)
      × (mem_access m cmd addr p (nbytes w) ≡ fail aborted))
    ⊎ (((addr % nbytes w == 0) && is_permitted m cmd addr ≡ true)
        × (m' : Memory) × (mem_access m cmd addr p (nbytes w) ≡ ok (m', q))
        × Leaves m m' bytes)

module _ (w : Width) (m : Memory) (addr : ℕ) (p : List ℕ) (low : IsLow m)
    (u : IsUniform m addr (nbytes w)) (r : has_room (nbytes w) p ≡ true) where
  IsUniform-tracked : IsUniform (tracked m addr) addr (nbytes w)
  IsUniform-tracked = IsUniform-limits m (tracked m addr) addr (nbytes w) (tracked-limits m addr) u

  guarded :
      (cmd : MemCmd) (b : Bool)
      → ((addr % nbytes w == 0) && is_permitted m cmd addr) ≡ b
      → mem_access m cmd addr p (nbytes w)
        ≡ (if b then transfer (nbytes w) (tracked m addr) cmd addr p else fail aborted)
  guarded cmd b e =
      let go = transfer (nbytes w) (tracked m addr) cmd addr p in
      mem_access-transfer w m cmd addr p
      ∙ ap (λ c. if c && is_permitted m cmd addr then go else fail aborted) (is_aligned_lem w addr)
      ∙ ap (λ c. if c then go else fail aborted) e

  -- Where the conditions of mem_access hold, the unit is inside of a block.
  inside_guarded :
      (cmd : MemCmd)
      → ((addr % nbytes w == 0) && is_permitted m cmd addr) ≡ true
      → (addr < 2 ^ 31) × (is_inside addr (nbytes w) ≡ true)
  inside_guarded cmd e =
      let both : (addr % nbytes w ≡ 0) × (is_permitted m cmd addr ≡ true) = ground arith in
      let below = is_permitted-low m cmd addr low both.1 in
      (below, is_inside-aligned w addr both.0 below)

  -- A unit read of memory with its segments in the lower half of the address space, at an address
  -- whose bytes are all shared or all private, into an object with room for it, either stops with a
  -- fatal error, when the address is not aligned or not permitted, or reads the bytes at the address
  -- and changes no byte of memory.
  pub mem_access-read :
      Transfers m read addr w p (flat m) (span (nbytes w) (flat m) addr ++ drop (nbytes w) p)
  mem_access-read = elim (Bool-cases ((addr % nbytes w == 0) && is_permitted m read addr)) [
    | inl t ↦
        let (below, inside) = inside_guarded read t in
        inr (
          t,
          touch (tracked m addr) addr,
          guarded read true t
              ∙ transfer_read w (tracked m addr) addr p inside (omega arith) IsUniform-tracked r
              ∙ ap (λ (b : List ℕ). ok (touch (tracked m addr) addr, b ++ drop (nbytes w) p))
                  (span-cong (nbytes w) (flat (tracked m addr)) (flat m) addr
                    (λ i h. tracked-flat m addr (addr + i))),
          record {
            keeps = touch-limits (tracked m addr) addr ∙ tracked-limits m addr;
            leaves = λ x h. flat-touch (tracked m addr) addr x ∙ tracked-flat m addr x;
          },
        )
    | inr f ↦ inl (f, guarded read false f)
  ]

  -- A unit write, under the same conditions, either stops with a fatal error, or replaces the bytes
  -- at the address by the bytes of the object, and changes no other byte of memory.
  pub mem_access-write : Transfers m write addr w p (written (take (nbytes w) p) (flat m) addr) p
  mem_access-write = elim (Bool-cases ((addr % nbytes w == 0) && is_permitted m write addr)) [
    | inl t ↦
        let (below, inside) = inside_guarded write t in
        let values = take (nbytes w) p in
        let n : length values ≡ nbytes w = length-take (nbytes w) p (ground arith) in
        inr (
          t,
          stored (tracked m addr) addr values,
          guarded write true t ∙ transfer_write w (tracked m addr) addr p inside r,
          record {
            keeps = stored-limits (tracked m addr) addr values ∙ tracked-limits m addr;
            leaves = λ x h.
                stored-flat (tracked m addr) addr values x (ap (is_inside addr) n ∙ inside)
                  (omega arith) (subst (IsUniform (tracked m addr) addr) (sym n) IsUniform-tracked)
                  h
                ∙ written_same values (flat (tracked m addr)) (flat m) addr x
                    (tracked-flat m addr x);
          },
        )
    | inr f ↦ inl (f, guarded write false f)
  ]
