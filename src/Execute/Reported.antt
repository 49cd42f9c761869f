-- ===== src/Execute/Reported.antt =====
-- One case of the `switch` of func_sim in func_sim.cc: the instruction's entry in the debug buffer.
use anycore_pisa.Base.{
  ℕ, ◌≡◌, refl, sym, subst, ◌∙◌, ap, Bool-cases, inl, inr, List, [], ◌∷◌, ◌++◌, ok, bind-ok,
  ok-injective, ◌==◌, bit_and,
}
use anycore_pisa.Debug.{DebugBuffer}
use anycore_pisa.Debug.Fields.{Inst, Entry, push_instr, f_store}
use anycore_pisa.Debug.Inv.{IsValid, contents}
use anycore_pisa.Debug.Queue.{instr, fill, fill_entry, fill_refines}
use anycore_pisa.Thread.{Thread}
use anycore_pisa.Execute.Run.{◌>>◌}
use anycore_pisa.Execute.Op.{Op}
use anycore_pisa.Execute.Flags.{flags, flag_list, latency}
use anycore_pisa.Execute.Floating.{Floats}
use anycore_pisa.Execute.Semantics.{execute}
use anycore_pisa.Execute.Operands.{report_all}
use anycore_pisa.Execute.Notes.{sources, dests}
use anycore_pisa.Execute.Simulate.{stored_values, instr_note, traced}
use anycore_pisa.Execute.Keeps.{bind-returns}
use anycore_pisa.Execute.Frame.{Frames-Closed, Frames}
use anycore_pisa.Execute.Built.{execute-Meets}
use anycore_pisa.Execute.Trace.{Holds, UpdatesLast-Holds, report_all-Frames, stored_values-Frames}

push_instr_lem :
    (inst : Inst) (f l pc next upper lower : ℕ) (e : Entry)
    → ((push_instr inst f l pc next upper lower e).a_pc ≡ pc)
      × ((push_instr inst f l pc next upper lower e).a_next_pc ≡ next)
      × ((push_instr inst f l pc next upper lower e).a_inst ≡ inst)
      × ((push_instr inst f l pc next upper lower e).a_flags ≡ f)
      × ((push_instr inst f l pc next upper lower e).a_lat ≡ l)
unfolding push_instr
push_instr_lem inst f l pc next upper lower e = elim (Bool-cases (bit_and f f_store == 0)) [
  | inl t ↦ rw t (refl, refl, refl, refl, refl)
  | inr t ↦ rw t (refl, refl, refl, refl, refl)
]

-- The last entry of a valid buffer tells of an instruction and where it leads.
pub record Records (n : ℕ) (xs : List Entry) (inst : Inst) (f l pc next : ℕ) (b : DebugBuffer)
    : Type 0 where
  pub valid : IsValid b
  pub size : b.debug_size ≡ n
  pub entry : Entry
  pub last : contents b ≡ xs ++ entry ∷ []
  pub entry_pc : entry.a_pc ≡ pc
  pub entry_next_pc : entry.a_next_pc ≡ next
  pub entry_inst : entry.a_inst ≡ inst
  pub entry_flags : entry.a_flags ≡ f
  pub entry_lat : entry.a_lat ≡ l

instr_note-Records :
    (n : ℕ) (xs : List Entry) (inst : Inst) (f l : ℕ) (t t' : Thread)
    → Holds n xs t.db
    → instr_note inst f l t ≡ ok (tt, t')
    → (b : DebugBuffer) × (record t { db = b } ≡ t') × Records n xs inst f l t.regs_pc t.next_pc b
unfolding instr_note
instr_note-Records n xs inst f l t t' (v, size, e, held) h =
    let c = instr inst f l t.regs_pc t.next_pc t.real_upper t.real_lower in
    let (b, called, rest) = bind-ok (fill c t.db) (λ b. ok (tt, record t { db = b })) (tt, t') h in
    let (v', size', e', same, held') =
      UpdatesLast-Holds t.db b xs (fill_entry c e) (fill c t.db) (fill_refines c xs e v held)
        called in
    let told = push_instr_lem inst f l t.regs_pc t.next_pc t.real_upper t.real_lower e in
    let made = ok-injective _ _ same in
    (
      b,
      cc,
      record {
        valid = v';
        size = size' ∙ size;
        entry = e';
        last = held';
        entry_pc = ap (λ (x : Entry). x.a_pc) (sym made) ∙ told.0;
        entry_next_pc = ap (λ (x : Entry). x.a_next_pc) (sym made) ∙ told.1;
        entry_inst = ap (λ (x : Entry). x.a_inst) (sym made) ∙ told.2;
        entry_flags = ap (λ (x : Entry). x.a_flags) (sym made) ∙ told.3;
        entry_lat = ap (λ (x : Entry). x.a_lat) (sym made) ∙ told.4;
      },
    )

recorded :
    (n : ℕ) (xs : List Entry) (inst : Inst) (f l : ℕ) (s u : Thread) (b : DebugBuffer)
    → Frames (Holds n xs) s u
    → Records n xs inst f l u.regs_pc u.next_pc b
    → Frames (Records n xs inst f l s.regs_pc u.next_pc) s (record u { db = b })
recorded n xs inst f l s u b p told = record {
  buffer = subst (λ pc. Records n xs inst f l pc u.next_pc b) p.same_pc told;
  same_pc = p.same_pc;
  same_arch_pc = p.same_arch_pc;
  same_num_insn = p.same_num_insn;
  regs_size = p.regs_size;
  f_regs_size = p.f_regs_size;
}

-- One case of the `switch`.
pub traced-Records :
    (floats : Floats) (op : Op) (inst : Inst) (n : ℕ) (xs : List Entry) (s t' : Thread)
    → Holds n xs s.db
    → traced floats op inst s ≡ ok (tt, t')
    → Frames (Records n xs inst (flags op) (latency op) s.regs_pc t'.next_pc) s t'
unfolding traced
traced-Records floats op inst n xs s t' h e =
    let P = Frames (Holds n xs) s in
    let p0 : P s = record {
      buffer = h;
      same_pc = refl;
      same_arch_pc = refl;
      same_num_insn = refl;
      regs_size = refl;
      f_regs_size = refl;
    } in
    let before = report_all inst (sources op inst) in
    let after = report_all inst (dests op inst) in
    let stored = stored_values (flag_list op) in
    let note = instr_note inst (flags op) (latency op) in
    let (_, u1, e1, r1) =
      bind-returns before (λ _. execute floats op inst >> (after >> (stored >> note))) s tt t' e in
    let p1 = (report_all-Frames n xs s inst (sources op inst)).at s tt u1 p0 e1 in
    let (_, u2, e2, r2) =
      bind-returns (execute floats op inst) (λ _. after >> (stored >> note)) u1 tt t' r1 in
    let p2 = (execute-Meets Frames-Closed floats op inst).holds.at u1 tt u2 p1 e2 in
    let (_, u3, e3, r3) = bind-returns after (λ _. stored >> note) u2 tt t' r2 in
    let p3 = (report_all-Frames n xs s inst (dests op inst)).at u2 tt u3 p2 e3 in
    let (_, u4, e4, r4) = bind-returns stored (λ _. note) u3 tt t' r3 in
    let p4 : P u4 = (stored_values-Frames n xs s (flag_list op)).at u3 tt u4 p3 e4 in
    let (b, same, told) = instr_note-Records n xs inst (flags op) (latency op) u4 t' p4.buffer r4 in
    subst (λ v. Frames (Records n xs inst (flags op) (latency op) s.regs_pc v.next_pc) s v) same
      (recorded n xs inst (flags op) (latency op) s u4 b p4 told)
