-- ===== src/Execute/Frame.antt =====
-- What the expressions of ss.def leave alone: the debug buffer, the program counter of the
-- instruction, the architectural program counter, the count of instructions, and the sizes of the
-- register files.
use anycore_pisa.Base.{
  true, ℕ, ◌≡◌, subst, Bool, length, set, length-set, Outcome, ok, at, bind-ok, ◌>>=◌,
  if◌then◌else◌, arith,
}
use anycore_pisa.Debug.{DebugBuffer}
use anycore_pisa.Blocks.{word_of, bytes_of}
use anycore_pisa.Memory.{load, store}
use anycore_pisa.Thread.{Thread}
use anycore_pisa.Execute.Access.{
  gpr, set_gpr, fpr_l, set_fpr_l, hi, set_hi, lo, set_lo, fcc, set_fcc, cpc, set_npc, read_bytes_of,
  write_bytes_of,
}
use anycore_pisa.Execute.Run.{Run}
use anycore_pisa.Execute.Keeps.{Keeps, Keeps-pure, Keeps-stop, Keeps-bind}
use anycore_pisa.Execute.Semantics.{trap_stop}
use anycore_pisa.Execute.Closed.{Closed}
use anycore_pisa.Debug.Fields.{Inst}

-- `t` differs from `s` by what an expression may change, and its debug buffer is as `D` says.
pub record Frames (D : DebugBuffer → Type 0) (s t : Thread) : Type 0 where
  pub buffer : D t.db
  pub same_pc : t.regs_pc ≡ s.regs_pc
  pub same_arch_pc : t.arch_pc ≡ s.arch_pc
  pub same_num_insn : t.num_insn ≡ s.num_insn
  pub regs_size : length t.regs_r ≡ length s.regs_r
  pub f_regs_size : length t.regs_f_l ≡ length s.regs_f_l

-- An access that returns has read what it looks at, and the rest is a function of that.
pub reads {ℓ κ} :
    {A : Type ℓ} {B : Type κ} (P : Thread → Type 0) (o : Thread → Outcome A)
    (f : A → Thread → B × Thread)
    → ((a : A) (t : Thread) → P t → P (f a t).1)
    → Keeps P (λ t. o t >>= λ a. ok (f a t))
reads P o f k = record {
  at = λ t b t' h e.
      let (a, _, g) = bind-ok (o t) (λ a. ok (f a t)) (b, t') e in
      let same : (f a t).1 ≡ t' = cc in subst P same (k a t h);
}

module _ {D : DebugBuffer → Type 0} {s : Thread} where
  pub gpr-Frames : (n : ℕ) → Keeps (Frames D s) (gpr n)
  unfolding gpr
  gpr-Frames n = reads (Frames D s) (λ t. at t.regs_r n) (λ v t. (v, t)) (λ v t h. h)

  pub set_gpr-Frames : (n v : ℕ) → Keeps (Frames D s) (set_gpr n v)
  unfolding set_gpr
  set_gpr-Frames n v =
      reads (Frames D s) (λ t. at t.regs_r n)
        (λ old t. (tt, record t { regs_r = set t.regs_r n v }))
        (λ old t h. ground (arith, length-set t.regs_r n v))

  pub fpr_l-Frames : (n : ℕ) → Keeps (Frames D s) (fpr_l n)
  unfolding fpr_l
  fpr_l-Frames n = reads (Frames D s) (λ t. at t.regs_f_l n) (λ v t. (v, t)) (λ v t h. h)

  pub set_fpr_l-Frames : (n v : ℕ) → Keeps (Frames D s) (set_fpr_l n v)
  unfolding set_fpr_l
  set_fpr_l-Frames n v =
      reads (Frames D s) (λ t. at t.regs_f_l n)
        (λ old t. (tt, record t { regs_f_l = set t.regs_f_l n v }))
        (λ old t h. ground (arith, length-set t.regs_f_l n v))

  -- An action that cannot fail.
  pub sets-Frames {ℓ} :
      {A : Type ℓ} (f : Thread → A × Thread)
      → ((t : Thread) → Frames D s t → Frames D s (f t).1)
      → Keeps (Frames D s) (λ t. ok (f t))
  sets-Frames f k = record {
    at = λ t a t' h e. let same : (f t).1 ≡ t' = cc in subst (Frames D s) same (k t h);
  }

  pub hi-Frames : Keeps (Frames D s) hi
  unfolding hi
  hi-Frames = sets-Frames (λ t. (t.regs_hi, t)) (λ t h. h)

  pub lo-Frames : Keeps (Frames D s) lo
  unfolding lo
  lo-Frames = sets-Frames (λ t. (t.regs_lo, t)) (λ t h. h)

  pub fcc-Frames : Keeps (Frames D s) fcc
  unfolding fcc
  fcc-Frames = sets-Frames (λ t. (t.regs_fcc, t)) (λ t h. h)

  pub cpc-Frames : Keeps (Frames D s) cpc
  unfolding cpc
  cpc-Frames = sets-Frames (λ t. (t.regs_pc, t)) (λ t h. h)

  pub set_hi-Frames : (v : ℕ) → Keeps (Frames D s) (set_hi v)
  unfolding set_hi
  set_hi-Frames v = sets-Frames (λ t. (tt, record t { regs_hi = v })) (λ t h. ground arith)

  pub set_lo-Frames : (v : ℕ) → Keeps (Frames D s) (set_lo v)
  unfolding set_lo
  set_lo-Frames v = sets-Frames (λ t. (tt, record t { regs_lo = v })) (λ t h. ground arith)

  pub set_fcc-Frames : (b : Bool) → Keeps (Frames D s) (set_fcc b)
  unfolding set_fcc
  set_fcc-Frames b =
      sets-Frames (λ t. (tt, record t { regs_fcc = if b then 1 else 0 })) (λ t h. ground arith)

  pub set_npc-Frames : (v : ℕ) → Keeps (Frames D s) (set_npc v)
  unfolding set_npc
  set_npc-Frames v = sets-Frames (λ t. (tt, record t { next_pc = v })) (λ t h. ground arith)

  pub read_bytes_of-Frames : (n addr : ℕ) → Keeps (Frames D s) (read_bytes_of n addr)
  unfolding read_bytes_of
  read_bytes_of-Frames n addr =
      reads (Frames D s) (λ t. load n t.memory addr)
        (λ r t. (word_of r.1, record t { memory = r.0 })) (λ r t h. ground arith)

  pub write_bytes_of-Frames : (n v addr : ℕ) → Keeps (Frames D s) (write_bytes_of n v addr)
  unfolding write_bytes_of
  write_bytes_of-Frames n v addr =
      reads (Frames D s) (λ t. store t.memory addr (bytes_of n v))
        (λ m t. (tt, record t { memory = m })) (λ m t h. ground arith)

  pub lift-Frames {ℓ} :
      {A : Type ℓ} (o : Outcome A) → Keeps (Frames D s) (λ t. o >>= λ a. ok (a, t))
  lift-Frames o = reads (Frames D s) (λ t. o) (λ a t. (a, t)) (λ a t h. h)

  trap_stop-Frames : (inst : Inst) → Keeps (Frames D s) (trap_stop inst)
  unfolding trap_stop
  trap_stop-Frames inst =
      sets-Frames
        (λ u. (tt, record u { trap_inst = record { a = inst.a; b = inst.b }; blocked = true }))
        (λ u h. ground arith)

  pub Frames-Closed : Closed (λ (A : Type 0) (m : Run A). Keeps {0} (Frames D s) m)
  Frames-Closed = record {
    of_pure = λ a. Keeps-pure a;
    of_stop = λ x. Keeps-stop x;
    of_bind = λ m f h g. Keeps-bind m f h g;
    of_lift = λ o. lift-Frames o;
    of_gpr = gpr-Frames;
    of_set_gpr = set_gpr-Frames;
    of_fpr_l = fpr_l-Frames;
    of_set_fpr_l = set_fpr_l-Frames;
    of_hi = hi-Frames;
    of_set_hi = set_hi-Frames;
    of_lo = lo-Frames;
    of_set_lo = set_lo-Frames;
    of_fcc = fcc-Frames;
    of_set_fcc = set_fcc-Frames;
    of_cpc = cpc-Frames;
    of_set_npc = set_npc-Frames;
    of_read = read_bytes_of-Frames;
    of_write = write_bytes_of-Frames;
    of_trap_stop = trap_stop-Frames;
  }
