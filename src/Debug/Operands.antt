-- ===== src/Debug/Operands.antt =====
-- The operands of an entry: what a run of `push_operand_actual` calls after `start` leaves in the
-- three operand arrays of debug.h.
use anycore_pisa.Base.{
  ℕ, ◌+◌, ◌≤◌, ◌<◌, ◌≡◌, refl, ap, sym, ◌∙◌, List, [], ◌∷◌, ◌++◌, append-nil, append_assoc, arith,
  length, take, take-set, set, length-set, Outcome, ok, ◌>>=◌,
}
use anycore_pisa.Debug.Fields.{
  Entry, DbReg, Operand, rsrc_operand, rdst_operand, msrc_operand, mdst_operand, rsrc_a_operand,
  d_max_rdst, d_max_rsrc, start_entry, push_operand,
}

-- One call: the kind of the operand, its register and its value.
pub record Push : Type 0 where
  pub kind : Operand
  pub reg : DbReg

pub push_all : List Push → Entry → Outcome Entry
push_all [] e = ok e
push_all (p ∷ ps) e = do e' ← push_operand p.reg.n p.kind p.reg.value e; push_all ps e'

-- The arrays have the sizes that `db_t` declares.
pub record IsEntry (e : Entry) : Type 0 where
  pub rdst_size : length e.a_rdst ≡ d_max_rdst
  pub rsrc_size : length e.a_rsrc ≡ d_max_rsrc
  pub rsrc_a_size : length e.a_rsrc_a ≡ d_max_rsrc

abbrev pub rdsts : Entry → List DbReg
rdsts e = take e.a_num_rdst e.a_rdst

abbrev pub rsrcs : Entry → List DbReg
rsrcs e = take e.a_num_rsrc e.a_rsrc

abbrev pub rsrc_as : Entry → List DbReg
rsrc_as e = take e.a_num_rsrc_a e.a_rsrc_a

-- The register operands of one kind among the calls, in order.
abbrev pub keep_rdst : Operand → DbReg → List DbReg → List DbReg
keep_rdst rdst_operand r rs = r ∷ rs
keep_rdst _ r rs = rs

abbrev pub keep_rsrc : Operand → DbReg → List DbReg → List DbReg
keep_rsrc rsrc_operand r rs = r ∷ rs
keep_rsrc _ r rs = rs

abbrev pub keep_rsrc_a : Operand → DbReg → List DbReg → List DbReg
keep_rsrc_a rsrc_a_operand r rs = r ∷ rs
keep_rsrc_a _ r rs = rs

abbrev pub pushed_rdsts : List Push → List DbReg
pushed_rdsts [] = []
pushed_rdsts (p ∷ ps) = keep_rdst p.kind p.reg (pushed_rdsts ps)

abbrev pub pushed_rsrcs : List Push → List DbReg
pushed_rsrcs [] = []
pushed_rsrcs (p ∷ ps) = keep_rsrc p.kind p.reg (pushed_rsrcs ps)

abbrev pub pushed_rsrc_as : List Push → List DbReg
pushed_rsrc_as [] = []
pushed_rsrc_as (p ∷ ps) = keep_rsrc_a p.kind p.reg (pushed_rsrc_as ps)

abbrev pub IsRegister : Operand → Type 0
IsRegister rdst_operand = Unit {0}
IsRegister rsrc_operand = Unit {0}
IsRegister rsrc_a_operand = Unit {0}
IsRegister msrc_operand = ⊥
IsRegister mdst_operand = ⊥

abbrev pub AllRegisters : List Push → Type 0
AllRegisters [] = Unit {0}
AllRegisters (p ∷ ps) = IsRegister p.kind × AllRegisters ps

-- What `push_all ps` must make of `e`: each array extended by the operands of its kind.
abbrev Extends : List Push → Entry → Type 0
Extends ps e =
    (e' : Entry) × (push_all ps e ≡ ok e')
    × IsEntry e'
    × (rdsts e' ≡ rdsts e ++ pushed_rdsts ps)
    × (rsrcs e' ≡ rsrcs e ++ pushed_rsrcs ps)
    × (rsrc_as e' ≡ rsrc_as e ++ pushed_rsrc_as ps)

abbrev Fits : List Push → Entry → Type 0
Fits ps e =
    (e.a_num_rdst + length (pushed_rdsts ps) ≤ d_max_rdst)
    × (e.a_num_rsrc + length (pushed_rsrcs ps) ≤ d_max_rsrc)
    × (e.a_num_rsrc_a + length (pushed_rsrc_as ps) ≤ d_max_rsrc)

extended :
    (xs : List DbReg) (n : ℕ) (r : DbReg) (rs : List DbReg)
    → n < length xs
    → take (n + 1) (set xs n r) ++ rs ≡ take n xs ++ r ∷ rs
extended xs n r rs h = ap (λ t. t ++ rs) (take-set xs n r h) ∙ append_assoc (take n xs) (r ∷ []) rs

-- One call, for each kind of register operand; `rest` is what is proved of the calls after it.
Extends-push :
    (k : Operand) (r : DbReg) (ps : List Push) (e : Entry)
    → IsEntry e
    → IsRegister k
    → Fits (record { kind = k; reg = r } ∷ ps) e
    → ((e' : Entry) → IsEntry e' → Fits ps e' → Extends ps e')
    → Extends (record { kind = k; reg = r } ∷ ps) e
unfolding push_all push_operand
Extends-push rdst_operand r ps e v t f rest =
    let e1 : Entry = record e {
      a_rdst = set e.a_rdst e.a_num_rdst r;
      a_num_rdst = e.a_num_rdst + 1;
    } in
    let (e2, returns, v2, dst, src, src_a) =
      rest e1 (ground (arith, length-set e.a_rdst e.a_num_rdst r)) (omega arith) in
    (
      e2,
      ground (arith, returns),
      v2,
      dst ∙ extended e.a_rdst e.a_num_rdst r (pushed_rdsts ps) (omega (arith, v.rdst_size)),
      src,
      src_a,
    )
Extends-push rsrc_operand r ps e v t f rest =
    let e1 : Entry = record e {
      a_rsrc = set e.a_rsrc e.a_num_rsrc r;
      a_num_rsrc = e.a_num_rsrc + 1;
    } in
    let (e2, returns, v2, dst, src, src_a) =
      rest e1 (ground (arith, length-set e.a_rsrc e.a_num_rsrc r)) (omega arith) in
    (
      e2,
      ground (arith, returns),
      v2,
      dst,
      src ∙ extended e.a_rsrc e.a_num_rsrc r (pushed_rsrcs ps) (omega (arith, v.rsrc_size)),
      src_a,
    )
Extends-push rsrc_a_operand r ps e v t f rest =
    let e1 : Entry = record e {
      a_rsrc_a = set e.a_rsrc_a e.a_num_rsrc_a r;
      a_num_rsrc_a = e.a_num_rsrc_a + 1;
    } in
    let (e2, returns, v2, dst, src, src_a) =
      rest e1 (ground (arith, length-set e.a_rsrc_a e.a_num_rsrc_a r)) (omega arith) in
    (
      e2,
      ground (arith, returns),
      v2,
      dst,
      src,
      src_a
          ∙ extended e.a_rsrc_a e.a_num_rsrc_a r (pushed_rsrc_as ps) (omega (arith, v.rsrc_a_size)),
    )
Extends-push msrc_operand r ps e v t f rest = absurd t
Extends-push mdst_operand r ps e v t f rest = absurd t

push_all-Extends :
    (ps : List Push) (e : Entry) → IsEntry e → AllRegisters ps → Fits ps e → Extends ps e
push_all-Extends [] e v r f =
    (e, unfold push_all in refl, v, sym (append-nil _), sym (append-nil _), sym (append-nil _))
push_all-Extends (p ∷ ps) e v r f =
    Extends-push p.kind p.reg ps e v r.0 f λ e' v' f'. push_all-Extends ps e' v' r.1 f'

-- The register operands that are pushed after a `start` are those that the entry holds, each kind in
-- its array and in the order of the calls, if there are at most two destinations, four sources and
-- four address sources.
pub push_all-start_entry :
    (ps : List Push) (e : Entry)
    → IsEntry e
    → AllRegisters ps
    → length (pushed_rdsts ps) ≤ d_max_rdst
    → length (pushed_rsrcs ps) ≤ d_max_rsrc
    → length (pushed_rsrc_as ps) ≤ d_max_rsrc
    → (e' : Entry) × (push_all ps (start_entry e) ≡ ok e')
      × (rdsts e' ≡ pushed_rdsts ps)
      × (rsrcs e' ≡ pushed_rsrcs ps)
      × (rsrc_as e' ≡ pushed_rsrc_as ps)
unfolding start_entry
push_all-start_entry ps e v r d s a =
    let (e', returns, _, dst, src, src_a) =
      push_all-Extends ps (start_entry e) v' r (omega arith) in
    (e', returns, dst, src, src_a)
  where
    v' : IsEntry (start_entry e)
    v' = record { rdst_size = v.rdst_size; rsrc_size = v.rsrc_size; rsrc_a_size = v.rsrc_a_size }
