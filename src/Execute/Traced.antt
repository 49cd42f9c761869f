-- ===== src/Execute/Traced.antt =====
-- func_sim of func_sim.cc: one more entry in the debug buffer, from the program counter before the
-- instruction to the one after it.
use anycore_pisa.Base.{
  ℕ, ◌+◌, ◌≡◌, refl, sym, subst, add32, ap₂, ◌∙◌, ap, Bool-cases, inl, inr, List, Option, some, ok,
  bind-ok, ok-injective, at, length, set, length-set,
}
use anycore_pisa.Blocks.{unchk_read_bytes}
use anycore_pisa.Debug.{DebugBuffer, start}
use anycore_pisa.Debug.Fields.{Inst, start_entry}
use anycore_pisa.Debug.Inv.{IsValid, contents}
use anycore_pisa.Debug.Queue.{start_refines}
use anycore_pisa.Isa.{inst_of, ss_opcode}
use anycore_pisa.Thread.{Thread}
use anycore_pisa.Execute.Run.{Run, ◌>>=◌, ◌>>◌}
use anycore_pisa.Execute.Op.{Op, op_of}
use anycore_pisa.Execute.Flags.{flags, latency}
use anycore_pisa.Execute.Floating.{Floats}
use anycore_pisa.Execute.Simulate.{
  prologue, fetch_inst, start_note, traced, traced_case, advance, check_limit, over_limit, func_sim,
}
use anycore_pisa.Execute.Keeps.{bind-returns}
use anycore_pisa.Execute.Trace.{Holds}
use anycore_pisa.Execute.Reported.{Records, traced-Records}

-- The number of the opcode at the program counter has a case.
abbrev pub KnownNext : Thread → Type 0
KnownNext t =
    (bytes : List ℕ)
    → unchk_read_bytes t.memory.mem_table t.regs_pc 8 ≡ ok bytes
    → (op : Op) × (op_of (ss_opcode (inst_of bytes)) ≡ some op)

-- What one instruction comes to.
pub record Simulates (t t' : Thread) : Type 0 where
  pub bytes : List ℕ
  pub op : Op
  pub fetched : unchk_read_bytes t.memory.mem_table t.regs_pc 8 ≡ ok bytes
  pub decoded : op_of (ss_opcode (inst_of bytes)) ≡ some op
  pub reported :
      Records t.db.debug_size
        (contents t.db)
        (inst_of bytes)
        (flags op)
        (latency op)
        t.regs_pc
        t'.regs_pc
        t'.db
  pub next : t'.next_pc ≡ add32 t'.regs_pc 8
  pub same_arch_pc : t'.arch_pc ≡ t.arch_pc
  pub counted : t'.num_insn ≡ t.num_insn + 1
  pub regs_size : length t'.regs_r ≡ length t.regs_r
  pub f_regs_size : length t'.regs_f_l ≡ length t.regs_f_l

pub prologue_lem :
    (t u : Thread)
    → prologue t ≡ ok (tt, u)
    → record t { regs_r = set t.regs_r 0 0; num_insn = t.num_insn + 1 } ≡ u
unfolding prologue
prologue_lem t u e =
    let (old, _, rest) =
      bind-ok (at t.regs_r 0)
        (λ old. ok (tt, record t { regs_r = set t.regs_r 0 0; num_insn = t.num_insn + 1 })) (tt, u)
        e in
    cc

pub fetch_inst_lem :
    (t u : Thread) (inst : Inst)
    → fetch_inst t ≡ ok (inst, u)
    → (bytes : List ℕ) × (unchk_read_bytes t.memory.mem_table t.regs_pc 8 ≡ ok bytes)
      × (inst_of bytes ≡ inst)
      × (t ≡ u)
unfolding fetch_inst
fetch_inst_lem t u inst e =
    let (bytes, read, rest) =
      bind-ok (unchk_read_bytes t.memory.mem_table t.regs_pc 8) (λ bytes. ok (inst_of bytes, t))
        (inst, u) e in
    (bytes, read, cc, cc)

start_note-Holds :
    (t u : Thread)
    → IsValid t.db
    → start_note t ≡ ok (tt, u)
    → (b : DebugBuffer) × (record t { db = b } ≡ u) × Holds t.db.debug_size (contents t.db) b
unfolding start_note
start_note-Holds t u v e =
    let (b, started, rest) = bind-ok (start t.db) (λ b. ok (tt, record t { db = b })) (tt, u) e in
    elim (start_refines v) [
      | inl (_, b', old, returns, v', held, size) ↦
          let same : b' ≡ b = ok-injective _ _ (sym returns ∙ started) in
          (
            b,
            cc,
            (
              subst IsValid same v',
              ap (λ (x : DebugBuffer). x.debug_size) (sym same) ∙ size,
              start_entry old,
              ap contents (sym same) ∙ held,
            ),
          )
      | inr (_, fails) ↦ absurd cc
    ]

pub check_limit_lem : (limit : Option ℕ) (t u : Thread) → check_limit limit t ≡ ok (tt, u) → t ≡ u
unfolding check_limit
check_limit_lem limit t u e = elim (Bool-cases (over_limit limit t.num_insn)) [
  | inl b ↦ absurd cc
  | inr b ↦ cc
]

pub traced_case_lem :
    (floats : Floats) (o : Option Op) (op : Op) (inst : Inst) (t u : Thread)
    → o ≡ some op
    → traced_case floats o inst t ≡ ok (tt, u)
    → traced floats op inst t ≡ ok (tt, u)
unfolding traced_case
traced_case_lem floats o op inst t u known e =
    subst (λ (x : Option Op). traced_case floats x inst t ≡ ok (tt, u)) known e

advance_lem :
    (t u : Thread)
    → advance t ≡ ok (tt, u)
    → record t { regs_pc = t.next_pc; next_pc = add32 t.next_pc 8 } ≡ u
unfolding advance
advance_lem t u e = cc

-- func_sim after the instruction is fetched.
abbrev pub rest_of : Floats → Option ℕ → Inst → Run (Unit {0})
rest_of floats limit inst =
    start_note
    >> (traced_case floats (op_of (ss_opcode inst)) inst >> (advance >> check_limit limit))

-- The thread after the prologue.
abbrev pub begun : Thread → Thread
begun t = record t { regs_r = set t.regs_r 0 0; num_insn = t.num_insn + 1 }

rest_of-Simulates :
    (floats : Floats) (limit : Option ℕ) (t t' : Thread) (bytes : List ℕ) (op : Op)
    → IsValid t.db
    → unchk_read_bytes t.memory.mem_table t.regs_pc 8 ≡ ok bytes
    → op_of (ss_opcode (inst_of bytes)) ≡ some op
    → rest_of floats limit (inst_of bytes) (begun t) ≡ ok (tt, t')
    → Simulates t t'
rest_of-Simulates floats limit t t' bytes op v read known e =
    let inst = inst_of bytes in
    let found = op_of (ss_opcode inst) in
    let end = advance >> check_limit limit in
    let (_, u1, e1, r1) =
      bind-returns start_note (λ _. traced_case floats found inst >> end) (begun t) tt t' e in
    let (b, s1, holds) = start_note-Holds (begun t) u1 v e1 in
    let t1 = record (begun t) { db = b } in
    let (_, u2, e2, r2) = bind-returns (traced_case floats found inst) (λ _. end) u1 tt t' r1 in
    let run =
      traced_case_lem floats found op inst t1 u2 known
        (subst (λ (u : Thread). traced_case floats found inst u ≡ ok (tt, u2)) (sym s1) e2) in
    let p = traced-Records floats op inst t.db.debug_size (contents t.db) t1 u2 holds run in
    let (_, u3, e3, r3) = bind-returns advance (λ _. check_limit limit) u2 tt t' r2 in
    let last : record u2 { regs_pc = u2.next_pc; next_pc = add32 u2.next_pc 8 } ≡ t' =
      advance_lem u2 u3 e3 ∙ check_limit_lem limit u3 t' r3 in
    subst (Simulates t) last record {
      bytes = bytes;
      op = op;
      fetched = read;
      decoded = known;
      reported = p.buffer;
      next = refl;
      same_arch_pc = p.same_arch_pc;
      counted = p.same_num_insn;
      regs_size = p.regs_size ∙ length-set t.regs_r 0 0;
      f_regs_size = p.f_regs_size;
    }

-- The whole of func_sim, when the number of the opcode has a case.
pub func_sim-Simulates :
    (floats : Floats) (limit : Option ℕ) (t t' : Thread)
    → IsValid t.db
    → KnownNext t
    → func_sim floats limit t ≡ ok (tt, t')
    → Simulates t t'
unfolding func_sim
func_sim-Simulates floats limit t t' v known e =
    let (_, u1, e1, r1) =
      bind-returns prologue (λ _. fetch_inst >>= rest_of floats limit) t tt t' e in
    let s1 : begun t ≡ u1 = prologue_lem t u1 e1 in
    let (inst, u2, e2, r2) = bind-returns fetch_inst (rest_of floats limit) u1 tt t' r1 in
    let (bytes, read, decoded, s2) = fetch_inst_lem u1 u2 inst e2 in
    let read' =
      subst (λ (u : Thread). unchk_read_bytes u.memory.mem_table u.regs_pc 8 ≡ ok bytes) (sym s1)
        read in
    let (op, k) = known bytes read' in
    rest_of-Simulates floats limit t t' bytes op v read' k
      (ap₂ (rest_of floats limit) decoded (s1 ∙ s2) ∙ r2)
