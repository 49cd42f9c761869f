-- ===== src/Execute/Counted.antt =====
-- func_sim_fast of func_sim.cc counts one instruction.
use anycore_pisa.Base.{
  ℕ, ◌+◌, ◌≡◌, refl, sym, ap, ◌∙◌, subst, Bool, true, false, Option, none, some, ok, add32,
}
use anycore_pisa.Debug.Fields.{Inst}
use anycore_pisa.Isa.{ss_opcode}
use anycore_pisa.Thread.{Thread}
use anycore_pisa.Execute.Run.{Run, ◌>>=◌, ◌>>◌}
use anycore_pisa.Execute.Op.{Op, op_of}
use anycore_pisa.Execute.Floating.{Floats}
use anycore_pisa.Execute.Semantics.{execute}
use anycore_pisa.Execute.Simulate.{
  prologue, fetch_inst, advance, check_limit, fast_case, is_syscall, trap_now, serve_trap,
  func_sim_fast,
}
use anycore_pisa.Execute.Keeps.{
  Keeps, Keeps-pure, Keeps-stop, Keeps-gets, Keeps-if, Keeps-bind, Keeps-modify, bind-returns,
}
use anycore_pisa.Execute.Frame.{Frames, Frames-Closed}
use anycore_pisa.Execute.Built.{execute-Meets}
use anycore_pisa.Execute.Traced.{prologue_lem, fetch_inst_lem, check_limit_lem}

-- `n` instructions have been counted.
abbrev pub Counted : ℕ → Thread → Type 0
Counted n t = t.num_insn ≡ n

execute-Counted :
    (floats : Floats) (op : Op) (inst : Inst) (n : ℕ) → Keeps (Counted n) (execute floats op inst)
execute-Counted floats op inst n = record {
  at = λ t a t' h e.
      let start : Frames (λ b. Unit {0}) t t = record {
        buffer = tt;
        same_pc = refl;
        same_arch_pc = refl;
        same_num_insn = refl;
        regs_size = refl;
        f_regs_size = refl;
      } in
      ((execute-Meets Frames-Closed floats op inst).holds.at t a t' start e).same_num_insn ∙ h;
}

fast_case-Counted :
    (floats : Floats) (o : Option Op) (inst : Inst) (n : ℕ)
    → Keeps (Counted n) (fast_case floats o inst)
unfolding fast_case
fast_case-Counted floats none inst n = Keeps-pure tt
fast_case-Counted floats (some op) inst n = execute-Counted floats op inst n

module _ (floats : Floats) (limit : Option ℕ) (handler : Run (Unit {0})) where
  -- What is done for a trap counts no instruction.
  abbrev pub HandlerCounts : Type 0
  HandlerCounts = (n : ℕ) → Keeps (Counted n) handler

  serve_trap-Counted : HandlerCounts → (b : Bool) (n : ℕ) → Keeps (Counted n) (serve_trap handler b)
  unfolding serve_trap trap_now
  serve_trap-Counted h false n = Keeps-pure tt
  serve_trap-Counted h true n =
      Keeps-bind _ _
        (Keeps-bind _ _ (Keeps-gets _) (λ blocked. Keeps-if blocked _ _ (h n) (Keeps-stop _)))
        (λ _. Keeps-modify _ (λ t e. e))

  advance-Counted : (n : ℕ) → Keeps (Counted n) advance
  unfolding advance
  advance-Counted n = record {
    at = λ t a t' h e.
        let same : record t { regs_pc = t.next_pc; next_pc = add32 t.next_pc 8 } ≡ t' = cc in
        subst (Counted n) same h;
  }

  check_limit-Counted : (n : ℕ) → Keeps (Counted n) (check_limit limit)
  check_limit-Counted n = record {
    at = λ t a t' h e. subst (Counted n) (check_limit_lem limit t t' e) h;
  }

  after_fetch-Counted :
      HandlerCounts
      → (inst : Inst) (n : ℕ)
      → Keeps (Counted n) (
          fast_case floats (op_of (ss_opcode inst)) inst
          >> (serve_trap handler (is_syscall (op_of (ss_opcode inst)))
              >> (advance >> check_limit limit)))
  after_fetch-Counted h inst n =
      Keeps-bind _ _ (fast_case-Counted floats (op_of (ss_opcode inst)) inst n) (λ _.
        Keeps-bind _ _ (serve_trap-Counted h (is_syscall (op_of (ss_opcode inst))) n)
          (λ _. Keeps-bind _ _ (advance-Counted n) (λ _. check_limit-Counted n)))

  pub func_sim_fast-Counted :
      (t u : Thread)
      → HandlerCounts
      → func_sim_fast floats limit handler t ≡ ok (tt, u)
      → u.num_insn ≡ t.num_insn + 1
  unfolding func_sim_fast
  func_sim_fast-Counted t u h e =
      let rest = λ (inst : Inst).
        fast_case floats (op_of (ss_opcode inst)) inst
        >> (serve_trap handler (is_syscall (op_of (ss_opcode inst)))
            >> (advance >> check_limit limit)) in
      let (_, u1, e1, r1) = bind-returns prologue (λ _. fetch_inst >>= rest) t tt u e in
      let (inst, u2, e2, r2) = bind-returns fetch_inst rest u1 tt u r1 in
      let (_, _, _, same) = fetch_inst_lem u1 u2 inst e2 in
      let counted : u2.num_insn ≡ t.num_insn + 1 =
        ap (λ (x : Thread). x.num_insn) (sym same)
        ∙ ap (λ (x : Thread). x.num_insn) (sym (prologue_lem t u1 e1)) in
      (after_fetch-Counted h inst (t.num_insn + 1)).at u2 tt u counted r2
