-- ===== src/Retire/Begins.antt =====
-- A thread whose program is decoded, and a forked thread, begin with an empty path.
use anycore_pisa.Base.{
  ℕ, ◌≡◌, refl, sym, ◌∙◌, ap, subst, Bool, not, List, [], length, inl, inr, ok, bind-ok,
  ok-injective, assert, arith,
}
use anycore_pisa.Blocks.{bytes_of}
use anycore_pisa.Debug.{debug_buffer}
use anycore_pisa.Debug.Fields.{Entry}
use anycore_pisa.Debug.Inv.{IsValid, contents, debug_buffer-IsValid}
use anycore_pisa.Memory.{store}
use anycore_pisa.Thread.{Thread}
use anycore_pisa.Thread.Decode.{decode, at_entry}
use anycore_pisa.Thread.Fork.{fork, fresh, db_size}
use anycore_pisa.Thread.Forked.{copied}
use anycore_pisa.Retire.Chain.{Chain, IsTraced}

empty-IsTraced :
    (t : Thread) → IsValid t.db → contents t.db ≡ [] → t.arch_pc ≡ t.regs_pc → IsTraced t
empty-IsTraced t v none_left same = record {
  valid = v;
  chain = subst (λ (es : List Entry). Chain t.arch_pc es t.regs_pc) (sym none_left) same;
}

-- `decode` of a thread with a valid and empty buffer.
pub decode-IsTraced :
    (fuel : ℕ) (ops : List ℕ) (swap : Bool) (t u : Thread)
    → IsValid t.db
    → contents t.db ≡ []
    → decode fuel ops swap t ≡ ok u
    → IsTraced u
unfolding decode
decode-IsTraced fuel ops swap t u v none_left e =
    let (_, _, rest) = bind-ok (assert (not swap)) _ u e in
    let (table, _, made) = bind-ok _ (λ table. ok (at_entry t table)) u rest in
    subst IsTraced (ok-injective _ _ made) (empty-IsTraced (at_entry t table) v none_left refl)

-- The constructor of a forked thread, where `entries` is the storage of its new buffer.
pub fork-IsTraced :
    (master t u : Thread) (ptr id : ℕ) (entries : List Entry)
    → length entries ≡ db_size
    → fork master t ptr id entries ≡ ok u
    → IsTraced u
unfolding fork
fork-IsTraced master t u ptr id entries size e =
    let (m, _, rest) = bind-ok (store (copied master t).memory ptr (bytes_of 4 id)) _ u e in
    let (db, made, last) =
      bind-ok (debug_buffer db_size entries) (λ db. ok (fresh db m (copied master t))) u rest in
    elim (debug_buffer-IsValid db_size entries (omega arith) (omega arith) size) [
      | inl (_, b, returns, v, none_left, _) ↦
          let same : b ≡ db = ok-injective _ _ (sym returns ∙ made) in
          subst IsTraced (ok-injective _ _ last) (
            empty-IsTraced (fresh db m (copied master t)) (subst IsValid same v)
              (ap contents (sym same) ∙ none_left) refl)
      | inr (_, fails) ↦ absurd cc
    ]
