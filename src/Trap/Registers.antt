-- ===== src/Trap/Registers.antt =====
-- The registers that save_trap of syscall.cc writes to a file, and restore_trap reads from it.
use anycore_pisa.Base.{
  ℕ, ◌<◌, ◌≡◌, refl, sym, ap, ◌∙◌, subst, Bool, true, false, ◌||◌, Bool-cases, inl, inr, List, [],
  ◌∷◌, ◌++◌, length, ◌==◌, if◌then◌else◌, get_or, set, length-set, get_or-set_self, get_or-set_ne,
  ok, arith,
}
use anycore_pisa.Checkpoint.{Item}
use anycore_pisa.Trap.{reg_items, check_regs, load_regs}

abbrev pub elem : ℕ → List ℕ → Bool
elem k [] = false
elem k (n ∷ ns) = k == n || elem k ns

abbrev pub AgreeOn : List ℕ → List ℕ → List ℕ → Type 0
AgreeOn ns xs ys = (k : ℕ) → elem k ns ≡ true → get_or xs k 0 ≡ get_or ys k 0

elem-head : (n : ℕ) (ns : List ℕ) → elem n (n ∷ ns) ≡ true
elem-head n ns = ground arith

elem-tail : (k n : ℕ) (ns : List ℕ) → elem k ns ≡ true → elem k (n ∷ ns) ≡ true
elem-tail k n ns h = ground arith

pub check_regs-reg_items :
    (ns regs regs' : List ℕ) (rest : List Item)
    → AgreeOn ns regs regs'
    → check_regs ns regs (reg_items ns regs' ++ rest) ≡ ok (true, rest)
unfolding check_regs reg_items
check_regs-reg_items [] regs regs' rest h = refl
check_regs-reg_items (n ∷ ns) regs regs' rest h =
    let here : (get_or regs' n 0 == get_or regs n 0) ≡ true =
      let same = h n (elem-head n ns) in ground arith in
    rw (check_regs-reg_items ns regs regs' rest (λ k e. h k (elem-tail k n ns e)), here) refl

-- The registers after those in `ns` are loaded.
abbrev pub merged : List ℕ → List ℕ → List ℕ → List ℕ
merged [] regs regs' = regs
merged (n ∷ ns) regs regs' = merged ns (set regs n (get_or regs' n 0)) regs'

pub load_regs-reg_items :
    (ns regs regs' : List ℕ) (rest : List Item)
    → load_regs ns regs (reg_items ns regs' ++ rest) ≡ ok (merged ns regs regs', rest)
unfolding load_regs reg_items
load_regs-reg_items [] regs regs' rest = refl
load_regs-reg_items (n ∷ ns) regs regs' rest =
    load_regs-reg_items ns (set regs n (get_or regs' n 0)) regs' rest

set_one :
    (regs : List ℕ) (n v k : ℕ)
    → k < length regs
    → get_or (set regs n v) k 0 ≡ (if k == n then v else get_or regs k 0)
set_one regs n v k h = elim (Bool-cases (k == n)) [
  | inl t ↦
      let same : k ≡ n = ground arith in
      rw t (subst (λ m. get_or (set regs m v) k 0 ≡ v) same (get_or-set_self regs k v 0 h))
  | inr f ↦ rw f (get_or-set_ne regs n k v 0 (λ e. absurd (ground (arith, e))))
]

loaded_one :
    (k n : ℕ) (e : Bool) (a x v b : ℕ)
    → x ≡ (if k == n then v else b)
    → (k ≡ n → v ≡ a)
    → (if e then a else x) ≡ (if k == n || e then a else b)
loaded_one k n e a x v b h g = elim (Bool-cases (k == n)) [
  | inl t ↦ let same : v ≡ a = g (ground arith) in ground arith
  | inr f ↦ ground arith
]

pub merged_lem :
    (ns regs regs' : List ℕ) (k : ℕ)
    → k < length regs
    → get_or (merged ns regs regs') k 0 ≡ (if elem k ns then get_or regs' k 0 else get_or regs k 0)
merged_lem [] regs regs' k h = refl
merged_lem (n ∷ ns) regs regs' k h =
    let v = get_or regs' n 0 in
    let rest = merged_lem ns (set regs n v) regs' k (omega (arith, h, length-set regs n v)) in
    rest
    ∙ loaded_one k n (elem k ns) (get_or regs' k 0) _ v (get_or regs k 0) (set_one regs n v k h)
        (λ same. sym (ap (λ m. get_or regs' m 0) same))
