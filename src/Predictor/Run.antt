-- ===== src/Predictor/Run.antt =====
-- Runs of `predict` of gshare_predictor.h, and what its counters hold at the end.
use anycore_pisa.Base.{
  ℕ, ◌+◌, ◌<◌, ◌≤◌, ◌^◌, ◌≡◌, refl, Bool, true, false, not, ◌&&◌, ◌==◌, List, [], ◌∷◌, leb,
  if◌then◌else◌, length, add32, Outcome, ok, ◌>>=◌, arith, subst,
}
use anycore_pisa.Debug.Fields.{Inst}
use anycore_pisa.Isa.{rs, ss_opcode, op_jump, op_jal, op_jr, op_jalr, op_bc1t}
use anycore_pisa.Predictor.{
  Predictor, Predicted, bit, predict, is_cond_branch, stats_total, stats_misp, gshare_predictor,
}
use anycore_pisa.Predictor.Inv.{gshare_predictor-IsValid}
use anycore_pisa.Predictor.Stats.{
  branches, mispredictions, IsCounted, Counts, Predicts, jump_indirect-Predicts, return-Predicts,
  call_indirect-Predicts, cond_branch-Predicts,
}

-- The opcodes of control instructions are those from JUMP to BC1T.
abbrev pub is_control : Inst → Bool
is_control inst = leb op_jump (ss_opcode inst) && leb (ss_opcode inst) op_bc1t

direct :
    (p q : Predictor) (conf : Bool) (n : ℕ)
    → Counts p n false q
    → Predicts p n (ok (q, false, conf))
direct p q conf n c = record { state = q; misp = false; conf = conf; runs = refl; counts = c }

jump_direct-Counts :
    (p : Predictor)
    → IsCounted p
    → branches p + 1 < 2 ^ 32
    → Counts p 1 false (record p { num_jump_directs = add32 p.num_jump_directs 1 })
jump_direct-Counts p c h = record {
  counted = record {
    valid = c.valid;
    jump_indirects = c.jump_indirects;
    returns = c.returns;
    call_indirects = c.call_indirects;
    cond_branches = c.cond_branches;
  };
  total = omega arith;
  misps = omega arith;
}

call_direct-Counts :
    (p : Predictor)
    → IsCounted p
    → branches p + 1 < 2 ^ 32
    → Counts p 1 false (record p { num_call_directs = add32 p.num_call_directs 1 })
call_direct-Counts p c h = record {
  counted = record {
    valid = c.valid;
    jump_indirects = c.jump_indirects;
    returns = c.returns;
    call_indirects = c.call_indirects;
    cond_branches = c.cond_branches;
  };
  total = omega arith;
  misps = omega arith;
}

-- A case of the switch, for a predicate on outcomes.
pick :
    (P : Outcome Predicted → Type 0) (b : Bool) (x y : Outcome Predicted)
    → (b ≡ true → P x)
    → (b ≡ false → P y)
    → P (if b then x else y)
pick P true x y f g = f refl
pick P false x y f g = g refl

counting :
    (p : Predictor) (n k : ℕ) (o : Outcome Predicted) → n ≡ k → Predicts p n o → Predicts p k o
counting p n k o e = subst (λ (j : ℕ). Predicts p j o) e

-- One call of `predict` on a valid predictor whose counters are in order and have room returns. It
-- keeps the predictor valid and its counters in order, counts the instruction if and only if its
-- opcode is one of JUMP to BC1T, and counts a misprediction if and only if it returns true.
pub predict-Predicts :
    (p : Predictor) (inst : Inst) (pc next_pc : ℕ) (conf : Bool)
    → IsCounted p
    → branches p + 1 < 2 ^ 32
    → Predicts p (bit (is_control inst)) (predict p inst pc next_pc conf)
unfolding predict
predict-Predicts p inst pc next_pc conf c h =
    let goal = Predicts p (bit (is_control inst)) in
    pick goal (ss_opcode inst == op_jump) _ _
      (λ e. counting p 1 _ _ (ground arith) (direct p _ true 1 (jump_direct-Counts p c h)))
      (λ n1.
        pick goal (ss_opcode inst == op_jal) _ _
          (λ e. counting p 1 _ _ (ground arith) (direct p _ true 1 (call_direct-Counts p c h)))
          (λ n2.
            pick goal (ss_opcode inst == op_jr) _ _
              (λ e.
                pick goal (not (rs inst == 31)) _ _
                  (λ r. counting p 1 _ _ (ground arith) (jump_indirect-Predicts p pc next_pc c h))
                  (λ r. counting p 1 _ _ (ground arith) (return-Predicts p pc next_pc c h)))
              (λ n3.
                pick goal (ss_opcode inst == op_jalr) _ _
                  (λ e. counting p 1 _ _ (ground arith) (call_indirect-Predicts p pc next_pc c h))
                  (λ n4.
                    pick goal (is_cond_branch (ss_opcode inst)) _ _
                      (λ e. counting p 1 _ _ (ground arith) (cond_branch-Predicts p pc next_pc c h))
                      (λ n5. counting p 0 _ _ (ground arith) (
                        direct p p conf 0
                          (record { counted = c; total = omega arith; misps = omega arith })))))))

-- The arguments of a call of `predict`.
pub record Call : Type 0 where
  pub inst : Inst
  pub pc : ℕ
  pub next_pc : ℕ
  pub conf : Bool

-- A run of calls, with the number of calls that returned true.
pub predict_all : Predictor → List Call → Outcome (Predictor × ℕ)
predict_all p [] = ok (p, 0)
predict_all p (call ∷ calls) = do
  (q, misp, conf) ← predict p call.inst call.pc call.next_pc call.conf
  (r, n) ← predict_all q calls
  ok (r, bit misp + n)

abbrev pub controls : List Call → ℕ
controls [] = 0
controls (call ∷ calls) = bit (is_control call.inst) + controls calls

record Runs (p : Predictor) (calls : List Call) : Type 0 where
  pub state : Predictor
  pub count : ℕ
  pub runs : predict_all p calls ≡ ok (state, count)
  pub counted : IsCounted state
  pub total : branches state ≡ branches p + controls calls
  pub misps : mispredictions state ≡ mispredictions p + count

predict_all-cons :
    (p : Predictor) (call : Call) (calls : List Call) (q r : Predictor) (misp conf : Bool) (n : ℕ)
    → predict p call.inst call.pc call.next_pc call.conf ≡ ok (q, misp, conf)
    → predict_all q calls ≡ ok (r, n)
    → predict_all p (call ∷ calls) ≡ ok (r, bit misp + n)
unfolding predict_all
predict_all-cons p call calls q r misp conf n e f = rw (e, f) refl

bit_le_one : (b : Bool) → bit b ≤ 1
bit_le_one b = ground arith

predict_all-Runs :
    (p : Predictor) (calls : List Call)
    → IsCounted p
    → branches p + length calls < 2 ^ 32
    → Runs p calls
predict_all-Runs p [] c h = record {
  state = p;
  count = 0;
  runs = unfold predict_all in refl;
  counted = c;
  total = omega arith;
  misps = omega arith;
}
predict_all-Runs p (call ∷ calls) c h =
    let one = predict-Predicts p call.inst call.pc call.next_pc call.conf c (omega arith) in
    let small = bit_le_one (is_control call.inst) in
    let rest =
      predict_all-Runs one.state calls one.counts.counted
        (omega (arith, small, one.counts.total)) in
    record {
      state = rest.state;
      count = bit one.misp + rest.count;
      runs =
          predict_all-cons p call calls one.state rest.state one.misp one.conf rest.count one.runs
            rest.runs;
      counted = rest.counted;
      total = omega (arith, rest.total, one.counts.total);
      misps = omega (arith, rest.misps, one.counts.misps);
    }

-- What the counters of a predictor hold after calls of which `count` returned true.
abbrev pub Tallies : Predictor → List Call → ℕ → Type 0
Tallies p calls count =
    IsCounted p
    × (branches p ≡ controls calls)
    × (stats_misp p ≡ count)
    × (stats_misp p ≤ stats_total p)

controls_le : (calls : List Call) → controls calls ≤ length calls
controls_le [] = omega arith
controls_le (call ∷ calls) = omega (arith, controls_le calls, bit_le_one (is_control call.inst))

tallied :
    (p : Predictor) (calls : List Call) (q : Predictor) (count : ℕ)
    → branches p ≡ 0
    → mispredictions p ≡ 0
    → length calls < 2 ^ 32
    → IsCounted q
    → branches q ≡ branches p + controls calls
    → mispredictions q ≡ mispredictions p + count
    → Tallies q calls count
tallied p calls q count b m h c total misps =
    let few = controls_le calls in
    let returns = c.returns in
    let jumps = c.jump_indirects in
    let indirects = c.call_indirects in
    let conds = c.cond_branches in (c, omega arith, omega arith, omega arith)

pub gshare_predictor-IsCounted :
    (pht_size jht_size : ℕ) (bimodal all print : Bool)
    → 0 < pht_size
    → 0 < jht_size
    → pht_size < 2 ^ 32
    → jht_size < 2 ^ 32
    → IsCounted (gshare_predictor pht_size jht_size bimodal all print)
gshare_predictor-IsCounted pht_size jht_size bimodal all print p j p' j' =
    let valid = gshare_predictor-IsValid pht_size jht_size bimodal all print p j p' j' in
    unfold gshare_predictor in
    record {
      valid = valid;
      jump_indirects = omega arith;
      returns = omega arith;
      call_indirects = omega arith;
      cond_branches = omega arith;
    }

-- A predictor that is made with tables of positive 32-bit sizes makes any fewer than 2^32
-- predictions without an access outside of its tables. At the end it is valid, the counters of
-- control instructions add up to the number of calls with an opcode from JUMP to BC1T, the total of
-- mispredictions that `stats` prints is the number of calls that returned true, and it is at most
-- the total of predictions that `stats` prints.
pub predict_all-Tallies :
    (pht_size jht_size : ℕ) (bimodal all print : Bool) (calls : List Call)
    → 0 < pht_size
    → 0 < jht_size
    → pht_size < 2 ^ 32
    → jht_size < 2 ^ 32
    → length calls < 2 ^ 32
    → (q : Predictor) × (n : ℕ) × (predict_all
          (gshare_predictor pht_size jht_size bimodal all print)
          calls
        ≡ ok (q, n))
      × Tallies q calls n
predict_all-Tallies pht_size jht_size bimodal all print calls p j p' j' h =
    let start = gshare_predictor pht_size jht_size bimodal all print in
    let run =
      predict_all-Runs start calls
        (gshare_predictor-IsCounted pht_size jht_size bimodal all print p j p' j')
        (unfold gshare_predictor in omega arith) in
    (
      run.state,
      run.count,
      run.runs,
      tallied start calls run.state run.count (unfold gshare_predictor in refl)
          (unfold gshare_predictor in refl) h run.counted run.total run.misps,
    )
