-- ===== src/Memory/Flat.antt =====
-- The memory of memory.h as one flat array of bytes, and loads and stores as reads and writes of it.
use anycore_pisa.Base.{
  ℕ, ◌≢◌, ◌+◌, ◌-◌, ◌≤◌, ◌<◌, ◌^◌, ◌≡◌, refl, ap, ◌∙◌, Bool, true, false, not, ◌&&◌, inl, inr,
  Bool-cases, List, ltb, leb, if◌then◌else◌, length, get_or, ok, arith,
}
use anycore_pisa.Blocks.{is_inside, allocate}
use anycore_pisa.Blocks.View.{
  view, span, span-cong, written, after_write, read_bytes-view, write_bytes_lem, after_write-view,
  allocate-view,
}
use anycore_pisa.Memory.{Memory, is_shared, touch_shared, touch_private, load, store}

-- The byte at an address, in the table that its accesses use.
abbrev pub flat : Memory → ℕ → ℕ
flat m x = if is_shared m x then view m.shmem_table x else view m.mem_table x

-- The addresses of an access of `n` bytes are all shared, or all private.
abbrev pub IsUniform : Memory → ℕ → ℕ → Type 0
IsUniform m addr n = (i : ℕ) → i < n → is_shared m (addr + i) ≡ is_shared m addr

abbrev pub touch : Memory → ℕ → Memory
touch m addr = if is_shared m addr then touch_shared m addr else touch_private m addr

flat-shared : (m : Memory) (x : ℕ) → is_shared m x ≡ true → view m.shmem_table x ≡ flat m x
flat-shared m x s = rw s refl

flat-private : (m : Memory) (x : ℕ) → is_shared m x ≡ false → view m.mem_table x ≡ flat m x
flat-private m x s = rw s refl

-- A load inside of one block reads the flat array.
pub load-flat :
    (n : ℕ) (m : Memory) (addr : ℕ)
    → is_inside addr n ≡ true
    → addr < 2 ^ 32
    → IsUniform m addr n
    → load n m addr ≡ ok (touch m addr, span n (flat m) addr)
unfolding load
load-flat n m addr h l u = elim (Bool-cases (is_shared m addr)) [
  | inl s ↦
      rw (s, read_bytes-view (allocate m.shmem_table addr) addr n h l)
        (ap (λ (b : List ℕ). ok (touch_shared m addr, b))
          (span-cong n (view (allocate m.shmem_table addr)) (flat m) addr (λ i g.
            allocate-view m.shmem_table addr (addr + i) ∙ flat-shared m (addr + i) (u i g ∙ s))))
  | inr s ↦
      rw (s, read_bytes-view (allocate m.mem_table addr) addr n h l)
        (ap (λ (b : List ℕ). ok (touch_private m addr, b))
          (span-cong n (view (allocate m.mem_table addr)) (flat m) addr (λ i g.
            allocate-view m.mem_table addr (addr + i) ∙ flat-private m (addr + i) (u i g ∙ s))))
]

-- What holds of both results of a test holds of the result.
pub either_memory :
    (P : Memory → Type 0) (b : Bool) (x y : Memory)
    → (b ≡ true → P x)
    → (b ≡ false → P y)
    → P (if b then x else y)
either_memory P true x y h g = h refl
either_memory P false x y h g = g refl

either_view :
    (b : Bool) (s s' p p' : ℕ)
    → (b ≡ true → s ≡ s')
    → (b ≡ false → p ≡ p')
    → (if b then s else p) ≡ (if b then s' else p')
either_view true s s' p p' h g = h refl
either_view false s s' p p' h g = g refl

pub flat-touch : (m : Memory) (addr x : ℕ) → flat (touch m addr) x ≡ flat m x
flat-touch m addr x =
    either_memory (λ q. flat q x ≡ flat m x) (is_shared m addr) (touch_shared m addr)
      (touch_private m addr)
      (λ s.
        either_view (is_shared m x) _ _ _ _ (λ e. allocate-view m.shmem_table addr x) (λ e. refl))
      (λ s. either_view (is_shared m x) _ _ _ _ (λ e. refl) (λ e. allocate-view m.mem_table addr x))

abbrev pub stored_shared : Memory → ℕ → List ℕ → Memory
stored_shared m addr values = record (touch_shared m addr) {
  shmem_table = after_write (allocate m.shmem_table addr) addr values;
}

abbrev pub stored_private : Memory → ℕ → List ℕ → Memory
stored_private m addr values = record (touch_private m addr) {
  mem_table = after_write (allocate m.mem_table addr) addr values;
}

abbrev pub stored : Memory → ℕ → List ℕ → Memory
stored m addr values =
    if is_shared m addr then stored_shared m addr values else stored_private m addr values

pub store_lem :
    (m : Memory) (addr : ℕ) (values : List ℕ)
    → is_inside addr (length values) ≡ true
    → store m addr values ≡ ok (stored m addr values)
unfolding store
store_lem m addr values h = elim (Bool-cases (is_shared m addr)) [
  | inl s ↦ rw (s, write_bytes_lem (allocate m.shmem_table addr) addr values h) refl
  | inr s ↦ rw (s, write_bytes_lem (allocate m.mem_table addr) addr values h) refl
]

-- An address of the other kind is not among those of a uniform access.
not_among :
    (m : Memory) (addr n x : ℕ)
    → IsUniform m addr n
    → is_shared m x ≢ is_shared m addr
    → (leb addr x && ltb x (addr + n)) ≡ false
not_among m addr n x u h = elim (Bool-cases (leb addr x && ltb x (addr + n))) [
  | inl t ↦
      let low : (addr ≤ x) × (x < addr + n) = ground arith in
      absurd (h (ap (is_shared m) (omega arith) ∙ u (x - addr) (omega arith)))
  | inr f ↦ f
]

by_kind :
    (b : Bool) (s p v : ℕ) → (b ≡ true → s ≡ v) → (b ≡ false → p ≡ v) → (if b then s else p) ≡ v
by_kind true s p v h g = h refl
by_kind false s p v h g = g refl

pub written_same :
    (values : List ℕ) (b c : ℕ → ℕ) (addr x : ℕ)
    → b x ≡ c x
    → written values b addr x ≡ written values c addr x
written_same values b c addr x = ap (λ (t : ℕ).
    if leb addr x && ltb x (addr + length values) then get_or values (x - addr) 0 else t)

written_outside :
    (values : List ℕ) (b : ℕ → ℕ) (addr x : ℕ)
    → (leb addr x && ltb x (addr + length values)) ≡ false
    → b x ≡ written values b addr x
written_outside values b addr x h = rw h refl

unlike : (b c d : Bool) → c ≡ d → b ≡ not d → b ≢ c
unlike b c d e f g = ground arith

-- A store inside of one block writes the flat array, and changes no other byte of it.
pub stored-flat :
    (m : Memory) (addr : ℕ) (values : List ℕ) (x : ℕ)
    → is_inside addr (length values) ≡ true
    → addr < 2 ^ 32
    → IsUniform m addr (length values)
    → x < 2 ^ 32
    → flat (stored m addr values) x ≡ written values (flat m) addr x
stored-flat m addr values x h l u g =
    let goal = λ (q : Memory). flat q x ≡ written values (flat m) addr x in
    either_memory goal (is_shared m addr) (stored_shared m addr values)
      (stored_private m addr values)
      (λ s.
        by_kind (is_shared m x) _ _ _
          (λ e.
            after_write-view (allocate m.shmem_table addr) addr values x h l g
            ∙ written_same values (view (allocate m.shmem_table addr)) (flat m) addr x
                (allocate-view m.shmem_table addr x ∙ flat-shared m x e))
          (λ e.
            flat-private m x e
            ∙ written_outside values (flat m) addr x
                (not_among m addr (length values) x u (unlike _ _ true s e))))
      (λ s.
        by_kind (is_shared m x) _ _ _
          (λ e.
            flat-shared m x e
            ∙ written_outside values (flat m) addr x
                (not_among m addr (length values) x u (unlike _ _ false s e)))
          (λ e.
            after_write-view (allocate m.mem_table addr) addr values x h l g
            ∙ written_same values (view (allocate m.mem_table addr)) (flat m) addr x
                (allocate-view m.mem_table addr x ∙ flat-private m x e)))
