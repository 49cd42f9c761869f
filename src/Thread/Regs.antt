-- ===== src/Thread/Regs.antt =====
-- The registers of a thread: regs.cc, arch.cc, and the hardware counters of Thread.h.
use anycore_pisa.Base.{
  ℕ, zero, suc, ◌+◌, ◌-◌, ◌≤◌, ◌<◌, ◌≡◌, ◌≢◌, refl, ap, sym, ◌∙◌, ◌&&◌, List, ltb, leb, ◌==◌,
  if◌then◌else◌, length, get_or, set, length-set, get_or-set_self, get_or-set_ne,
  get_elem?-eq-get_or, lt→ltb, add32, Outcome, ok, fail, aborted, arith,
}
use anycore_pisa.Thread.{
  Thread, ss_num_regs, fpr_base, hi_id, lo_id, fcc_id, clear_words, copy_words, regs_init,
  get_arch_reg_value, num_hw_counters, read_hw_counter, increment_hw_counter, copy,
}

-- Both register files have their sizes.
abbrev pub HasRegs : Thread → Type 0
HasRegs t = (length t.regs_r ≡ ss_num_regs) × (length t.regs_f_l ≡ ss_num_regs)

length-clear_words : (count i : ℕ) (ws : List ℕ) → length (clear_words count i ws) ≡ length ws
unfolding clear_words
length-clear_words zero i ws = refl
length-clear_words (suc count) i ws =
    length-clear_words count (i + 1) (set ws i 0) ∙ length-set ws i 0

pub length-copy_words :
    (count i : ℕ) (from to : List ℕ) → length (copy_words count i from to) ≡ length to
unfolding copy_words
length-copy_words zero i from to = refl
length-copy_words (suc count) i from to =
    length-copy_words count (i + 1) from (set to i (get_or from i 0))
    ∙ length-set to i (get_or from i 0)

get_or-set :
    (ws : List ℕ) (i k v : ℕ)
    → i < length ws
    → get_or (set ws i v) k 0 ≡ (if k == i then v else get_or ws k 0)
get_or-set ws i k v h =
    ground (arith, get_or-set_self ws i v 0 h, λ (n : i ≢ k). get_or-set_ne ws i k v 0 n)

clear_words_lem :
    (count i k : ℕ) (ws : List ℕ)
    → i + count ≤ length ws
    → get_or (clear_words count i ws) k 0
      ≡ (if leb i k && ltb k (i + count) then 0 else get_or ws k 0)
unfolding clear_words
clear_words_lem zero i k ws h = ground arith
clear_words_lem (suc count) i k ws h =
    let size = length-set ws i 0 in
    ground (
      arith,
      clear_words_lem count (i + 1) k (set ws i 0) (omega arith),
      get_or-set ws i k 0 (omega arith),
    )

pub copy_words_lem :
    (count i k : ℕ) (from to : List ℕ)
    → i + count ≤ length to
    → get_or (copy_words count i from to) k 0
      ≡ (if leb i k && ltb k (i + count) then get_or from k 0 else get_or to k 0)
unfolding copy_words
copy_words_lem zero i k from to h = ground arith
copy_words_lem (suc count) i k from to h =
    let size = length-set to i (get_or from i 0) in
    ground (
      arith,
      copy_words_lem count (i + 1) k from (set to i (get_or from i 0)) (omega arith),
      get_or-set to i k (get_or from i 0) (omega arith),
    )

-- The register that a number stands for.
abbrev pub reg_value : Thread → ℕ → ℕ
reg_value t n =
    if ltb n fpr_base
    then get_or t.regs_r n 0
    else if ltb n hi_id
    then get_or t.regs_f_l (n - fpr_base) 0
    else if n == hi_id
    then t.regs_hi
    else if n == lo_id
    then t.regs_lo
    else t.regs_fcc

pub get_arch_reg_value_lem :
    (t : Thread) (n : ℕ)
    → HasRegs t
    → get_arch_reg_value t n ≡ (if leb n fcc_id then ok (reg_value t n) else fail aborted)
unfolding get_arch_reg_value
get_arch_reg_value_lem t n h = ground (
  arith,
  λ (l : n < length t.regs_r). get_elem?-eq-get_or t.regs_r n 0 l,
  λ (l : n - 32 < length t.regs_f_l). get_elem?-eq-get_or t.regs_f_l (n - 32) 0 l,
)

abbrev value_by : ℕ → ℕ → ℕ → ℕ → ℕ → ℕ → Outcome ℕ
value_by n r f hi lo fcc =
    if leb n fcc_id
    then ok (
        if ltb n fpr_base
        then r
        else if ltb n hi_id
        then f
        else if n == hi_id
        then hi
        else if n == lo_id
        then lo
        else fcc)
    else fail aborted

zero_value :
    (n r f r' f' : ℕ)
    → n ≤ fcc_id
    → r ≡ (if leb 0 n && ltb n (0 + ss_num_regs) then 0 else r')
    → f ≡ (if leb 0 (n - fpr_base) && ltb (n - fpr_base) (0 + ss_num_regs) then 0 else f')
    → value_by n r f 0 0 0 ≡ ok 0
zero_value n r f r' f' l e g = ground arith

same_value :
    (n r f r' f' r'' f'' hi lo fcc : ℕ)
    → r ≡ (if leb 0 n && ltb n (0 + ss_num_regs) then r' else r'')
    → f ≡ (if leb 0 (n - fpr_base) && ltb (n - fpr_base) (0 + ss_num_regs) then f' else f'')
    → value_by n r f hi lo fcc ≡ value_by n r' f' hi lo fcc
same_value n r f r' f' r'' f'' hi lo fcc e g = ground arith

-- After regs_init every register, of both files and the special ones, is zero, and so is the program
-- counter.
pub regs_init-get_arch_reg_value :
    (t : Thread) (n : ℕ)
    → HasRegs t
    → n ≤ fcc_id
    → (get_arch_reg_value (regs_init t) n ≡ ok 0) × ((regs_init t).regs_pc ≡ 0)
unfolding regs_init
regs_init-get_arch_reg_value t n h l =
    let r = clear_words ss_num_regs 0 t.regs_r in
    let f = clear_words ss_num_regs 0 t.regs_f_l in
    let sizes : (length r ≡ ss_num_regs) × (length f ≡ ss_num_regs) = (
      length-clear_words ss_num_regs 0 t.regs_r ∙ h.0,
      length-clear_words ss_num_regs 0 t.regs_f_l ∙ h.1,
    ) in
    let in_r = clear_words_lem ss_num_regs 0 n t.regs_r (omega (arith, h.0)) in
    let in_f = clear_words_lem ss_num_regs 0 (n - fpr_base) t.regs_f_l (omega (arith, h.1)) in
    (
      get_arch_reg_value_lem (regs_init t) n sizes
          ∙ zero_value n (get_or r n 0) (get_or f (n - fpr_base) 0) (get_or t.regs_r n 0)
              (get_or t.regs_f_l (n - fpr_base) 0) l in_r in_f,
      refl,
    )

-- A thread that copies a master has the value of every register of the master, and goes on behind
-- the instruction that the master is at.
pub copy-get_arch_reg_value :
    (master t : Thread) (n : ℕ)
    → HasRegs master
    → HasRegs t
    → (get_arch_reg_value (copy master t) n ≡ get_arch_reg_value master n)
      × ((copy master t).regs_pc ≡ add32 master.regs_pc 8)
      × ((copy master t).next_pc ≡ add32 master.regs_pc 16)
unfolding copy
copy-get_arch_reg_value master t n h g =
    let r = copy_words ss_num_regs 0 master.regs_r t.regs_r in
    let f = copy_words ss_num_regs 0 master.regs_f_l t.regs_f_l in
    let sizes : (length r ≡ ss_num_regs) × (length f ≡ ss_num_regs) = (
      length-copy_words ss_num_regs 0 master.regs_r t.regs_r ∙ g.0,
      length-copy_words ss_num_regs 0 master.regs_f_l t.regs_f_l ∙ g.1,
    ) in
    let in_r = copy_words_lem ss_num_regs 0 n master.regs_r t.regs_r (omega (arith, g.0)) in
    let in_f =
      copy_words_lem ss_num_regs 0 (n - fpr_base) master.regs_f_l t.regs_f_l (omega (arith, g.1)) in
    (
      get_arch_reg_value_lem (copy master t) n sizes
          ∙ same_value n (get_or r n 0) (get_or f (n - fpr_base) 0) (get_or master.regs_r n 0)
              (get_or master.regs_f_l (n - fpr_base) 0) (get_or t.regs_r n 0)
              (get_or t.regs_f_l (n - fpr_base) 0) master.regs_hi master.regs_lo master.regs_fcc
              in_r in_f
          ∙ sym (get_arch_reg_value_lem master n h),
      refl,
      omega arith,
    )

-- Of the eight counters, increment_hw_counter adds one to the one it is given, and leaves the others.
pub increment_hw_counter-read_hw_counter :
    (t : Thread) (c d : ℕ)
    → length t.hardware_counters ≡ num_hw_counters
    → c < num_hw_counters
    → d < num_hw_counters
    → (u : Thread) × (v : ℕ) × (increment_hw_counter t c ≡ ok u)
      × (read_hw_counter t d ≡ ok v)
      × (read_hw_counter u d ≡ ok (if d == c then add32 v 1 else v))
unfolding increment_hw_counter read_hw_counter
increment_hw_counter-read_hw_counter t c d l h g =
    let counters = t.hardware_counters in
    let v = get_or counters d 0 in
    let next = add32 (get_or counters c 0) 1 in
    let size = length-set counters c next in
    let low_c = lt→ltb c num_hw_counters h in
    let low_d = lt→ltb d num_hw_counters g in
    let old_c = get_elem?-eq-get_or counters c 0 (omega arith) in
    let old_d = get_elem?-eq-get_or counters d 0 (omega arith) in
    let new_d = get_elem?-eq-get_or (set counters c next) d 0 (omega arith) in
    (
      record t { hardware_counters = set counters c next },
      v,
      rw (low_c, old_c) refl,
      rw (low_d, old_d) refl,
      rw (low_d, new_d) (ap ok (get_or-set counters c d next (omega arith) ∙ ground arith)),
    )
