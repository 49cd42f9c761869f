-- ===== src/Execute/Alike.antt =====
-- Actions that do the same on two threads that differ in the debug buffer and what is noted for it
-- only.
use anycore_pisa.Base.{
  ℕ, ◌≡◌, refl, sym, ap, ◌∙◌, subst, Bool, true, false, [], Outcome, ok, fail, Failure, at, set,
  if◌then◌else◌,
}
use anycore_pisa.Base
use anycore_pisa.Debug.{DebugBuffer}
use anycore_pisa.Blocks.{word_of, bytes_of}
use anycore_pisa.Memory.{load, store}
use anycore_pisa.Thread.{Thread}
use anycore_pisa.Execute.Run.{Run, pure, stop, continue, ◌>>=◌}
use anycore_pisa.Execute.Access.{
  gpr, set_gpr, fpr_l, set_fpr_l, hi, set_hi, lo, set_lo, fcc, set_fcc, cpc, set_npc, read_bytes_of,
  write_bytes_of,
}
use anycore_pisa.Execute.Semantics.{trap_stop}
use anycore_pisa.Execute.Closed.{Closed}

abbrev pub no_buffer : DebugBuffer
no_buffer = record {
  debug_size = 0;
  active_size = 0;
  db = [];
  head = 0;
  tail = 0;
  length = 0;
  pc_ptr = 0;
}

-- A thread without its debug buffer.
abbrev pub erase : Thread → Thread
erase t = record t { db = no_buffer; real_upper = 0; real_lower = 0; store_addr = 0 }

abbrev pub Alike {ℓ} : {A : Type ℓ} → Outcome (A × Thread) → Outcome (A × Thread) → Type ℓ
Alike (ok (a, t)) (ok (b, u)) = (a ≡ b) × (erase t ≡ erase u)
Alike (fail x) r = fail x ≡ r
Alike (ok r) (fail x) = ok r ≡ fail x

pub record Agrees {ℓ} {A : Type ℓ} (m n : Run A) : Type ℓ where
  pub on : (t u : Thread) → erase t ≡ erase u → Alike (m t) (n u)

module _ {A : Type 0} where
  pub pure-Agrees : (a : A) → Agrees (pure a) (pure a)
  unfolding pure
  pure-Agrees a = record { on = λ t u h. (refl, h) }

  pub stop-Agrees : (x : Failure) → Agrees (stop {A = A} x) (stop x)
  unfolding stop
  stop-Agrees x = record { on = λ t u h. refl }

module _ {A B : Type 0} where
  continue-Alike :
      (r s : Outcome (A × Thread)) (f g : A → Run B)
      → Alike r s
      → ((a : A) → Agrees (f a) (g a))
      → Alike (continue r f) (continue s g)
  continue-Alike (ok (a, t)) (ok (b, u)) f g (same, h) k =
      subst (λ (x : A). Alike (f a t) (g x u)) same ((k a).on t u h)
  continue-Alike (ok r) (fail x) f g h k = absurd cc
  continue-Alike (fail x) (ok r) f g h k = absurd cc
  continue-Alike (fail x) (fail y) f g h k = let same : x ≡ y = cc in ap fail same

  pub bind-Agrees :
      (m n : Run A) (f g : A → Run B)
      → Agrees m n
      → ((a : A) → Agrees (f a) (g a))
      → Agrees (m >>= f) (n >>= g)
  unfolding ◌>>=◌
  bind-Agrees m n f g h k = record { on = λ t u e. continue-Alike (m t) (n u) f g (h.on t u e) k }

  -- An access that reads what both threads have.
  pub reads-Agrees :
      (o : Thread → Outcome A) (f : A → Thread → B × Thread)
      → ((t u : Thread) → erase t ≡ erase u → o t ≡ o u)
      → ((a : A) (t u : Thread)
          → erase t ≡ erase u
          → ((f a t).0 ≡ (f a u).0) × (erase (f a t).1 ≡ erase (f a u).1))
      → Agrees (λ t. Base.◌>>=◌ (o t) (λ a. ok (f a t))) (λ t. Base.◌>>=◌ (o t) (λ a. ok (f a t)))
  reads-Agrees o f same k = record { on = λ t u h. go (o t) (o u) t u (same t u h) h }
    where
      go :
          (r s : Outcome A) (t u : Thread)
          → r ≡ s
          → erase t ≡ erase u
          → Alike (Base.◌>>=◌ r (λ a. ok (f a t))) (Base.◌>>=◌ s (λ a. ok (f a u)))
      go (ok a) s t u e h =
          subst (λ (x : Outcome A). Alike (ok (f a t)) (Base.◌>>=◌ x (λ b. ok (f b u)))) e
            (k a t u h)
      go (fail x) s t u e h =
          subst (λ (y : Outcome A). Alike (fail x) (Base.◌>>=◌ y (λ b. ok (f b u)))) e refl

-- The accesses that do not fail.
total-Agrees :
    {A : Type 0} (f : Thread → A × Thread)
    → ((t u : Thread) → erase t ≡ erase u → ((f t).0 ≡ (f u).0) × (erase (f t).1 ≡ erase (f u).1))
    → Agrees (λ t. ok (f t)) (λ t. ok (f t))
total-Agrees f k = record { on = k }

pub Agrees-Closed : Closed (λ (A : Type 0) (m : Run A). Agrees m m)
unfolding gpr set_gpr fpr_l set_fpr_l hi set_hi lo set_lo fcc set_fcc cpc set_npc read_bytes_of
    write_bytes_of trap_stop
Agrees-Closed = record {
  of_pure = pure-Agrees;
  of_stop = stop-Agrees;
  of_bind = λ m f h k. bind-Agrees m m f f h k;
  of_lift = λ o. reads-Agrees (λ t. o) (λ a t. (a, t)) (λ t u h. refl) (λ a t u h. (refl, h));
  of_gpr = λ n.
      reads-Agrees (λ t. at t.regs_r n) (λ v t. (v, t))
        (λ t u h. ap (λ (x : Thread). at x.regs_r n) h) (λ v t u h. (refl, h));
  of_set_gpr = λ n v.
      reads-Agrees (λ t. at t.regs_r n) (λ old t. (tt, record t { regs_r = set t.regs_r n v }))
        (λ t u h. ap (λ (x : Thread). at x.regs_r n) h)
        (λ old t u h. (refl, ap (λ (x : Thread). record x { regs_r = set x.regs_r n v }) h));
  of_fpr_l = λ n.
      reads-Agrees (λ t. at t.regs_f_l n) (λ v t. (v, t))
        (λ t u h. ap (λ (x : Thread). at x.regs_f_l n) h) (λ v t u h. (refl, h));
  of_set_fpr_l = λ n v.
      reads-Agrees (λ t. at t.regs_f_l n)
        (λ old t. (tt, record t { regs_f_l = set t.regs_f_l n v }))
        (λ t u h. ap (λ (x : Thread). at x.regs_f_l n) h)
        (λ old t u h. (refl, ap (λ (x : Thread). record x { regs_f_l = set x.regs_f_l n v }) h));
  of_hi = total-Agrees (λ t. (t.regs_hi, t)) (λ t u h. (ap (λ (x : Thread). x.regs_hi) h, h));
  of_set_hi = λ v.
      total-Agrees (λ t. (tt, record t { regs_hi = v }))
        (λ t u h. (refl, ap (λ (x : Thread). record x { regs_hi = v }) h));
  of_lo = total-Agrees (λ t. (t.regs_lo, t)) (λ t u h. (ap (λ (x : Thread). x.regs_lo) h, h));
  of_set_lo = λ v.
      total-Agrees (λ t. (tt, record t { regs_lo = v }))
        (λ t u h. (refl, ap (λ (x : Thread). record x { regs_lo = v }) h));
  of_fcc = total-Agrees (λ t. (t.regs_fcc, t)) (λ t u h. (ap (λ (x : Thread). x.regs_fcc) h, h));
  of_set_fcc = λ b.
      total-Agrees (λ t. (tt, record t { regs_fcc = if b then 1 else 0 }))
        (λ t u h. (refl, ap (λ (x : Thread). record x { regs_fcc = if b then 1 else 0 }) h));
  of_cpc = total-Agrees (λ t. (t.regs_pc, t)) (λ t u h. (ap (λ (x : Thread). x.regs_pc) h, h));
  of_set_npc = λ v.
      total-Agrees (λ t. (tt, record t { next_pc = v }))
        (λ t u h. (refl, ap (λ (x : Thread). record x { next_pc = v }) h));
  of_read = λ n addr.
      reads-Agrees (λ t. load n t.memory addr) (λ r t. (word_of r.1, record t { memory = r.0 }))
        (λ t u h. ap (λ (x : Thread). load n x.memory addr) h)
        (λ r t u h. (refl, ap (λ (x : Thread). record x { memory = r.0 }) h));
  of_write = λ n v addr.
      reads-Agrees (λ t. store t.memory addr (bytes_of n v)) (λ m t. (tt, record t { memory = m }))
        (λ t u h. ap (λ (x : Thread). store x.memory addr (bytes_of n v)) h)
        (λ m t u h. (refl, ap (λ (x : Thread). record x { memory = m }) h));
  of_trap_stop = λ inst.
      total-Agrees
        (λ t. (tt, record t { trap_inst = record { a = inst.a; b = inst.b }; blocked = true }))
        (λ t u h. (
          refl,
          ap
              (λ (x : Thread). record x {
                trap_inst = record { a = inst.a; b = inst.b };
                blocked = true;
              })
              h,
        ));
}
