-- ===== src/Execute/Fast.antt =====
-- func_sim and func_sim_fast of func_sim.cc: the same instruction with and without the debug buffer.
use anycore_pisa.Base.{
  ℕ, ◌≡◌, refl, sym, ap, ◌∙◌, subst, true, false, Bool-cases, inl, inr, List, Option, some, Outcome,
  ok, fail, ok-injective,
}
use anycore_pisa.Blocks.{unchk_read_bytes}
use anycore_pisa.Debug.{start}
use anycore_pisa.Debug.Fields.{Inst}
use anycore_pisa.Isa.{inst_of, ss_opcode}
use anycore_pisa.Thread.{Thread}
use anycore_pisa.Execute.Run.{Run, pure, ◌>>=◌, ◌>>◌}
use anycore_pisa.Execute.Op.{Op, op_of, misc, syscall}
use anycore_pisa.Execute.Flags.{flags, flag_list, latency}
use anycore_pisa.Execute.Floating.{Floats}
use anycore_pisa.Execute.Semantics.{execute}
use anycore_pisa.Execute.Operands.{report_all}
use anycore_pisa.Execute.Notes.{sources, dests}
use anycore_pisa.Execute.Simulate.{
  prologue, fetch_inst, start_note, stored_values, instr_note, traced, traced_case, advance,
  check_limit, over_limit, func_sim, fast_case, is_syscall, serve_trap, func_sim_fast,
}
use anycore_pisa.Execute.Keeps.{Keeps, bind-returns, bind-after}
use anycore_pisa.Execute.Built.{execute-Meets}
use anycore_pisa.Execute.Alike.{erase, Alike, Agrees, Agrees-Closed}
use anycore_pisa.Execute.Reread.{
  DiffersInNotes, DiffersInNotes-SameBytes, stored_values-DiffersInNotes, instr_note-DiffersInNotes,
  advanced, advanced-DiffersInNotes,
}
use anycore_pisa.Memory.Same.{SameBytes}
use anycore_pisa.Execute.Plain.{is_plain, sources-plain, dests-plain}
use anycore_pisa.Execute.Noted.{Noted, push-Noted, report_all-Noted}
use anycore_pisa.Execute.Traced.{prologue_lem, fetch_inst_lem, traced_case_lem, rest_of}

-- What an action returns, another that agrees with it returns too.
agreed :
    {A : Type 0} (m n : Run A) (t u t' : Thread) (a : A)
    → Agrees m n
    → erase t ≡ erase u
    → m t ≡ ok (a, t')
    → (u' : Thread) × (n u ≡ ok (a, u')) × (erase t' ≡ erase u')
agreed {A = A} m n t u t' a h e returns =
    go (n u) (subst (λ (r : Outcome (A × Thread)). Alike r (n u)) returns (h.on t u e))
  where
    go :
        (r : Outcome (A × Thread))
        → Alike (ok (a, t')) r
        → (u' : Thread) × (r ≡ ok (a, u')) × (erase t' ≡ erase u')
    go (ok (b, u')) (same, h) = (u', ap (λ (x : A). ok (x, u')) (sym same), h)
    go (fail x) h = absurd cc

-- One case of the `switch` of func_sim, and its expression alone.
traced-execute :
    (floats : Floats) (op : Op) (inst : Inst) (s t t' : Thread)
    → is_plain op ≡ true
    → erase s ≡ erase t
    → traced floats op inst s ≡ ok (tt, t')
    → (u : Thread) × (execute floats op inst t ≡ ok (tt, u)) × DiffersInNotes (flag_list op) u t'
unfolding traced
traced-execute floats op inst s t t' plain same e =
    let before = report_all inst (sources op inst) in
    let after = report_all inst (dests op inst) in
    let stored = stored_values (flag_list op) in
    let note = instr_note inst (flags op) (latency op) in
    let (_, u1, e1, r1) =
      bind-returns before (λ _. execute floats op inst >> (after >> (stored >> note))) s tt t' e in
    let p1 =
      (report_all-Noted s inst (sources op inst) (sources-plain op inst plain)).at s tt u1 refl
        e1 in
    let (_, u2, e2, r2) =
      bind-returns (execute floats op inst) (λ _. after >> (stored >> note)) u1 tt t' r1 in
    let (u, ran, p2) =
      agreed (execute floats op inst) (execute floats op inst) u1 t u2 tt
        (execute-Meets Agrees-Closed floats op inst).holds (p1 ∙ same) e2 in
    let (_, u3, e3, r3) = bind-returns after (λ _. stored >> note) u2 tt t' r2 in
    let p3 =
      (report_all-Noted u2 inst (dests op inst) (dests-plain op inst plain)).at u2 tt u3 refl e3 in
    let (_, u4, e4, r4) = bind-returns stored (λ _. note) u3 tt t' r3 in
    let d = stored_values-DiffersInNotes (flag_list op) u3 u4 u e4 (p3 ∙ p2) in
    (u, ran, instr_note-DiffersInNotes (flag_list op) inst (flags op) (latency op) u4 t' u r4 d)

-- The end of an instruction depends on the number of instructions only.
finish_lem :
    (limit : Option ℕ) (t t' u : Thread)
    → (advance >> check_limit limit) t ≡ ok (tt, t')
    → t.num_insn ≡ u.num_insn
    → (advanced t ≡ t') × ((advance >> check_limit limit) u ≡ ok (tt, advanced u))
unfolding advance check_limit ◌>>=◌
finish_lem limit t t' u e same = elim (Bool-cases (over_limit limit t.num_insn)) [
  | inl stops ↦ absurd cc
  | inr goes ↦
      let goes' : over_limit limit u.num_insn ≡ false = ap (over_limit limit) (sym same) ∙ goes in
      (cc, rw goes' refl)
]

not_syscall : (op : Op) → is_plain op ≡ true → is_syscall (some op) ≡ false
not_syscall (misc syscall) h = absurd cc
not_syscall (misc _) h = refl
not_syscall _ h = refl

fast_case_lem :
    (floats : Floats) (limit : Option ℕ) (handler : Run (Unit {0})) (o : Option Op) (op : Op)
    (inst : Inst) (t u : Thread)
    → o ≡ some op
    → is_plain op ≡ true
    → execute floats op inst t ≡ ok (tt, u)
    → (fast_case floats o inst
          >> (serve_trap handler (is_syscall o) >> (advance >> check_limit limit)))
        t
      ≡ (advance >> check_limit limit) u
unfolding fast_case serve_trap ◌>>=◌ pure
fast_case_lem floats limit handler o op inst t u known plain ran =
    rw (known, ran, not_syscall op plain) refl

start_note-Noted : (s : Thread) → Keeps (Noted s) start_note
unfolding start_note
start_note-Noted s = push-Noted s (λ t. start t.db)

-- func_sim_fast after the instruction is fetched.
abbrev fast_rest : Floats → Option ℕ → Run (Unit {0}) → Inst → Run (Unit {0})
fast_rest floats limit handler inst =
    fast_case floats (op_of (ss_opcode inst)) inst
    >> (serve_trap handler (is_syscall (op_of (ss_opcode inst))) >> (advance >> check_limit limit))

rest_of-fast_rest :
    (floats : Floats) (limit : Option ℕ) (handler : Run (Unit {0})) (op : Op) (inst : Inst)
    (t t' : Thread)
    → op_of (ss_opcode inst) ≡ some op
    → is_plain op ≡ true
    → rest_of floats limit inst t ≡ ok (tt, t')
    → (u : Thread) × (fast_rest floats limit handler inst t ≡ ok (tt, u))
      × DiffersInNotes (flag_list op) u t'
rest_of-fast_rest floats limit handler op inst t t' known plain e =
    let found = op_of (ss_opcode inst) in
    let end = advance >> check_limit limit in
    let (_, u1, e1, r1) =
      bind-returns start_note (λ _. traced_case floats found inst >> end) t tt t' e in
    let p1 = (start_note-Noted t).at t tt u1 refl e1 in
    let (_, u2, e2, r2) = bind-returns (traced_case floats found inst) (λ _. end) u1 tt t' r1 in
    let (u, ran, p2) =
      traced-execute floats op inst u1 t u2 plain p1
        (traced_case_lem floats found op inst u1 u2 known e2) in
    let counted : u2.num_insn ≡ u.num_insn = ap (λ (x : Thread). x.num_insn) p2.rest in
    let (last, finished) = finish_lem limit u2 t' u r2 counted in
    (
      advanced u,
      fast_case_lem floats limit handler found op inst t u known plain ran ∙ finished,
      subst (DiffersInNotes (flag_list op) (advanced u)) last
          (advanced-DiffersInNotes (flag_list op) u2 u p2),
    )

-- Where func_sim returns from an operation that is neither a load nor a store nor a system call,
-- func_sim_fast returns too. The two threads after it differ at most in the debug buffer, in the three
-- words that are noted for it, and in the memory: when `FLAGS & F_STORE`, as the macro is expanded, is
-- not zero, func_sim has called get_arch_mem_value for the address of the last store, which counts
-- accesses and may allocate blocks, and otherwise the memory is the same. No byte of memory differs.
pub func_sim-func_sim_fast :
    (floats : Floats) (limit : Option ℕ) (handler : Run (Unit {0})) (t t' : Thread) (bytes : List ℕ)
    (op : Op)
    → unchk_read_bytes t.memory.mem_table t.regs_pc 8 ≡ ok bytes
    → op_of (ss_opcode (inst_of bytes)) ≡ some op
    → is_plain op ≡ true
    → func_sim floats limit t ≡ ok (tt, t')
    → (u : Thread) × (func_sim_fast floats limit handler t ≡ ok (tt, u))
      × DiffersInNotes (flag_list op) u t'
      × SameBytes t'.memory u.memory
unfolding func_sim func_sim_fast
func_sim-func_sim_fast floats limit handler t t' bytes op read known plain e =
    let (_, u1, e1, r1) =
      bind-returns prologue (λ _. fetch_inst >>= rest_of floats limit) t tt t' e in
    let (inst, u2, e2, r2) = bind-returns fetch_inst (rest_of floats limit) u1 tt t' r1 in
    let (bytes', read', decoded, _) = fetch_inst_lem u1 u2 inst e2 in
    let reads_same : unchk_read_bytes t.memory.mem_table t.regs_pc 8 ≡ ok bytes' =
      subst (λ (u : Thread). unchk_read_bytes u.memory.mem_table u.regs_pc 8 ≡ ok bytes')
        (sym (prologue_lem t u1 e1)) read' in
    let same_bytes : bytes ≡ bytes' = ok-injective _ _ (sym read ∙ reads_same) in
    let same_inst : inst_of bytes ≡ inst = ap inst_of same_bytes ∙ decoded in
    let (u, finished, p) =
      rest_of-fast_rest floats limit handler op inst u2 t'
        (ap (λ i. op_of (ss_opcode i)) (sym same_inst) ∙ known) plain r2 in
    (
      u,
      bind-after prologue (λ _. fetch_inst >>= fast_rest floats limit handler) t u1 tt e1
          ∙ bind-after fetch_inst (fast_rest floats limit handler) u1 u2 inst e2
          ∙ finished,
      p,
      DiffersInNotes-SameBytes (flag_list op) u t' p,
    )
