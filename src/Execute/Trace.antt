-- ===== src/Execute/Trace.antt =====
-- What func_sim.cc leaves in the debug buffer: the instruction's entry, which starts at the
-- instruction's program counter and leads to the next one.
use anycore_pisa.Base.{
  ℕ, ◌≡◌, refl, sym, ◌∙◌, ap, subst, List, [], ◌∷◌, ◌++◌, Outcome, ok, fail, bind-ok, ◌>>=◌, arith,
}
use anycore_pisa.Debug.{DebugBuffer}
use anycore_pisa.Debug.Fields.{Inst, Entry, Operand}
use anycore_pisa.Debug.Inv.{IsValid, contents}
use anycore_pisa.Debug.Queue.{Fill, operand, address, fill, fill_entry, fill_refines, UpdatesLast}
use anycore_pisa.Thread.{Thread, get_arch_mem_value}
use anycore_pisa.Execute.Operands.{
  Place, gp, fp, hi_place, lo_place, fcc_place, place_id, place_value, Note, rsrc, rsrc_a, rdst,
  msrc, mdst, unimp, on_db, real_values, push_address_note, push_operand_note, report, report_all,
}
use anycore_pisa.Execute.Keeps.{
  Keeps, Keeps-bind, Keeps-modify, Keeps-stop, Keeps-pure, Keeps-gets, Keeps-if,
}
use anycore_pisa.Execute.Simulate.{stored_values}
use anycore_pisa.Execute.Frame.{
  Frames-Closed, Frames, reads, gpr-Frames, fpr_l-Frames, hi-Frames, lo-Frames, fcc-Frames,
}
use anycore_pisa.Execute.Built.Rules.{address-Meets}

-- A valid buffer of size `n` that holds one entry behind the entries `xs`.
abbrev pub Holds : ℕ → List Entry → DebugBuffer → Type 0
Holds n xs b = IsValid b × (b.debug_size ≡ n) × (e : Entry) × (contents b ≡ xs ++ e ∷ [])

pub UpdatesLast-Holds :
    (b b' : DebugBuffer) (xs : List Entry) (r : Outcome Entry) (result : Outcome DebugBuffer)
    → UpdatesLast b xs r result
    → result ≡ ok b'
    → IsValid b'
      × (b'.debug_size ≡ b.debug_size)
      × (e : Entry) × (r ≡ ok e)
      × (contents b' ≡ xs ++ e ∷ [])
UpdatesLast-Holds b b' xs (ok e) result (b1, returns, v, c, _, size) h =
    let same : b1 ≡ b' = cc in
    (
      subst IsValid same v,
      ap (λ x. x.debug_size) (sym same) ∙ size,
      e,
      refl,
      ap contents (sym same) ∙ c,
    )
UpdatesLast-Holds b b' xs (fail x) result u h = absurd cc

pub fill-Holds :
    (n : ℕ) (xs : List Entry) (c : Fill) (b b' : DebugBuffer)
    → Holds n xs b
    → fill c b ≡ ok b'
    → Holds n xs b'
fill-Holds n xs c b b' (v, size, e, held) h =
    let (v', size', e', _, held') =
      UpdatesLast-Holds b b' xs (fill_entry c e) (fill c b) (fill_refines c xs e v held) h in
    (v', size' ∙ size, e', held')

module _ (n : ℕ) (xs : List Entry) (s : Thread) where
  -- A method call on the buffer that fills in the last entry.
  fills :
      (c : Thread → Fill)
      → Keeps {0}
          (Frames (Holds n xs) s)
          (λ t. fill (c t) t.db >>= λ b. ok (tt, record t { db = b }))
  fills c = record {
    at = λ t a t' h e.
        let (b, called, rest) =
          bind-ok (fill (c t) t.db) (λ b. ok (tt, record t { db = b })) (a, t') e in
        let buffer = fill-Holds n xs (c t) t.db b h.buffer called in
        let moved : Frames (Holds n xs) s (record t { db = b }) = record {
          buffer = buffer;
          same_pc = h.same_pc;
          same_arch_pc = h.same_arch_pc;
          same_num_insn = h.same_num_insn;
          regs_size = h.regs_size;
          f_regs_size = h.f_regs_size;
        } in
        let same : record t { db = b } ≡ t' = cc in subst (Frames (Holds n xs) s) same moved;
  }

  place_value-Frames : (place : Place) → Keeps (Frames (Holds n xs) s) (place_value place)
  unfolding place_value
  place_value-Frames (gp k) = gpr-Frames k
  place_value-Frames (fp k) = fpr_l-Frames k
  place_value-Frames hi_place = hi-Frames
  place_value-Frames lo_place = lo-Frames
  place_value-Frames fcc_place = fcc-Frames

  push_operand_note-Frames :
      (kind : Operand) (place : Place)
      → Keeps (Frames (Holds n xs) s) (push_operand_note kind place)
  unfolding push_operand_note on_db
  push_operand_note-Frames kind place =
      Keeps-bind _ _ (place_value-Frames place)
        (λ v. fills (λ t. operand (place_id place) kind v t.regs_pc))

  push_address_note-Frames :
      (kind : Operand) (addr : ℕ) → Keeps (Frames (Holds n xs) s) (push_address_note kind addr)
  unfolding push_address_note
  push_address_note-Frames kind addr =
      fills (λ t. address addr kind t.regs_pc t.real_upper t.real_lower)

  real_values-Frames : (addr : ℕ) → Keeps (Frames (Holds n xs) s) (real_values addr)
  unfolding real_values
  real_values-Frames addr =
      reads (Frames (Holds n xs) s) (λ t. get_arch_mem_value t.memory addr)
        (λ r t. (tt, record t { memory = r.0; real_upper = r.1; real_lower = r.2 }))
        (λ r t h. ground arith)

  report-Frames : (inst : Inst) (note : Note) → Keeps (Frames (Holds n xs) s) (report inst note)
  unfolding report
  report-Frames inst (rsrc place) = push_operand_note-Frames _ place
  report-Frames inst (rsrc_a place) = push_operand_note-Frames _ place
  report-Frames inst (rdst place) = push_operand_note-Frames _ place
  report-Frames inst (msrc mode) =
      Keeps-bind _ _ ((address-Meets Frames-Closed mode inst).holds)
        (λ addr. Keeps-bind _ _ (real_values-Frames addr) (λ _. push_address_note-Frames _ addr))
  report-Frames inst (mdst mode) =
      Keeps-bind _ _ ((address-Meets Frames-Closed mode inst).holds) (λ addr.
        Keeps-bind _ _ (Keeps-modify _ (λ t h. ground arith))
          (λ _. Keeps-bind _ _ (real_values-Frames addr) (λ _. push_address_note-Frames _ addr)))
  report-Frames inst unimp = Keeps-stop _

  pub report_all-Frames :
      (inst : Inst) (notes : List Note) → Keeps (Frames (Holds n xs) s) (report_all inst notes)
  unfolding report_all
  report_all-Frames inst [] = Keeps-pure tt
  report_all-Frames inst (note ∷ notes) =
      Keeps-bind _ _ (report-Frames inst note) (λ _. report_all-Frames inst notes)

  pub stored_values-Frames :
      (op_flags : List ℕ) → Keeps (Frames (Holds n xs) s) (stored_values op_flags)
  unfolding stored_values
  stored_values-Frames op_flags =
      Keeps-if _ _ _ (Keeps-pure tt)
        (Keeps-bind _ _ (Keeps-gets _) (λ addr. real_values-Frames addr))
