-- ===== src/Predictor.antt =====
-- simulation/functional-sim/include/gshare_predictor.h: the branch predictor of the functional
-- simulator. The prediction functions return the new state, with what the C++ functions return.
pub mod Profiles
pub mod Inv
pub mod Stats
pub mod Run
pub mod Learn
pub mod Steps
pub mod Targets
pub mod Trained
mod Tests
use anycore_pisa.Base.{
  ℕ, ◌+◌, ◌-◌, bit_xor, Bool, true, false, not, ◌&&◌, ◌||◌, List, [], replicate, set, ltb, leb,
  ◌==◌, if◌then◌else◌, add32, ◌<<<◌, ◌>>>◌, mod_mask, Outcome, ok, ◌>>=◌, at,
}
use anycore_pisa.Debug.Fields.{Inst}
use anycore_pisa.Isa.{rs, ss_opcode, ss_inst_size, op_jump, op_jal, op_jr, op_jalr, op_beq, op_bc1t}
use anycore_pisa.Predictor.Profiles.{BranchProfiles, profiled}

pub record Predictor : Type 0 where
  pub jht : List ℕ
  pub jht_size : ℕ
  pub pht : List ℕ
  pub pht_size : ℕ
  pub bhr : ℕ
  pub bimodal : Bool
  pub profile_all_branches : Bool
  pub branch_profiles : BranchProfiles
  pub print_gsh_stats : Bool
  pub num_jump_directs : ℕ
  pub num_call_directs : ℕ
  pub num_jump_indirects : ℕ
  pub num_misp_jump_indirects : ℕ
  pub num_returns : ℕ
  pub num_misp_returns : ℕ
  pub num_call_indirects : ℕ
  pub num_misp_call_indirects : ℕ
  pub num_cond_branches : ℕ
  pub num_misp_branches : ℕ

pub gshare_predictor : ℕ → ℕ → Bool → Bool → Bool → Predictor
gshare_predictor pht_size jht_size bimodal profile_all_branches print_gsh_stats = record {
  jht = replicate jht_size 0;
  jht_size = jht_size;
  pht = replicate pht_size 2;
  pht_size = pht_size;
  bhr = 0;
  bimodal = bimodal;
  profile_all_branches = profile_all_branches;
  branch_profiles = [];
  print_gsh_stats = print_gsh_stats;
  num_jump_directs = 0;
  num_call_directs = 0;
  num_jump_indirects = 0;
  num_misp_jump_indirects = 0;
  num_returns = 0;
  num_misp_returns = 0;
  num_call_indirects = 0;
  num_misp_call_indirects = 0;
  num_cond_branches = 0;
  num_misp_branches = 0;
}

abbrev pub same : Bool → Bool → Bool
same true b = b
same false b = not b

-- The value of a C++ bool in arithmetic.
abbrev pub bit : Bool → ℕ
bit true = 1
bit false = 0

abbrev pub gshare_index : Predictor → ℕ → ℕ
gshare_index p pc = mod_mask (bit_xor p.bhr (pc >>> 3)) p.pht_size

-- Taken: the next instruction is not the one that follows.
abbrev pub is_taken : ℕ → ℕ → Bool
is_taken pc next_pc = not (next_pc == add32 pc ss_inst_size)

-- The update of a two-bit counter.
abbrev pub trained : Bool → ℕ → ℕ
trained outcome counter =
    if outcome
    then (if ltb counter 3 then counter + 1 else counter)
    else (if ltb 0 counter then counter - 1 else counter)

abbrev pub shifted : Predictor → Bool → ℕ
shifted p outcome = if p.bimodal then 0 else add32 (p.bhr <<< 1) (bit outcome)

-- The new state, whether the prediction was right, and `conf`.
pub gshare : Predictor → ℕ → ℕ → Outcome (Predictor × Bool × Bool)
gshare p pc next_pc = do
  counter ← at p.pht (gshare_index p pc)
  ok (
    record p {
      pht = set p.pht (gshare_index p pc) (trained (is_taken pc next_pc) counter);
      bhr = shifted p (is_taken pc next_pc);
    },
    same (leb 2 counter) (is_taken pc next_pc),
    (counter == 0) || (counter == 3),
  )

abbrev pub jht_index : Predictor → ℕ → ℕ
jht_index p pc = mod_mask (bit_xor p.bhr pc) p.jht_size

pub uncond_indirects_corr : Predictor → ℕ → ℕ → Outcome (Predictor × Bool)
uncond_indirects_corr p pc target = do
  old ← at p.jht (jht_index p pc)
  ok (record p { jht = set p.jht (jht_index p pc) target }, old == target)

-- The return address stack is commented out: every return counts as right, and a push does nothing.
abbrev pub pop_ras : ℕ → Bool
pop_ras target = true

abbrev pub push_ras : Predictor → ℕ → Predictor
push_ras p return_address = p

abbrev pub profile : Predictor → ℕ → Bool → Predictor
profile p pc misp = record p { branch_profiles = profiled pc misp p.branch_profiles }

abbrev pub profile_if_all : Predictor → ℕ → Bool → Predictor
profile_if_all p pc misp = if p.profile_all_branches then profile p pc misp else p

-- What `predict` returns, after the new state: `is_mispredict` and `conf`.
abbrev pub Predicted : Type 0
Predicted = Predictor × Bool × Bool

abbrev pub jump_indirect : Predictor → ℕ → ℕ → Outcome Predicted
jump_indirect p pc next_pc = do
  (q, correct) ← uncond_indirects_corr p pc next_pc
  ok (
    profile_if_all
        (record q { num_misp_jump_indirects = add32 q.num_misp_jump_indirects (bit (not correct)) })
        pc (not correct),
    not correct,
    false,
  )

abbrev pub return : Predictor → ℕ → ℕ → Outcome Predicted
return p pc next_pc = ok (
  profile_if_all
      (record p { num_misp_returns = add32 p.num_misp_returns (bit (not (pop_ras next_pc))) }) pc
      (not (pop_ras next_pc)),
  not (pop_ras next_pc),
  false,
)

abbrev pub call_indirect : Predictor → ℕ → ℕ → Outcome Predicted
call_indirect p pc next_pc = do
  (q, correct) ← uncond_indirects_corr (push_ras p (add32 pc ss_inst_size)) pc next_pc
  ok (
    profile_if_all
        (record q { num_misp_call_indirects = add32 q.num_misp_call_indirects (bit (not correct)) })
        pc (not correct),
    not correct,
    false,
  )

abbrev pub cond_branch : Predictor → ℕ → ℕ → Outcome Predicted
cond_branch p pc next_pc = do
  (q, correct, conf) ← gshare p pc next_pc
  ok (
    profile_if_all (record q { num_misp_branches = add32 q.num_misp_branches (bit (not correct)) })
        pc (not correct),
    not correct,
    conf,
  )

abbrev pub is_cond_branch : ℕ → Bool
is_cond_branch opcode = leb op_beq opcode && leb opcode op_bc1t

pub predict : Predictor → Inst → ℕ → ℕ → Bool → Outcome Predicted
predict p inst pc next_pc conf =
    if ss_opcode inst == op_jump
    then ok (record p { num_jump_directs = add32 p.num_jump_directs 1 }, false, true)
    else if ss_opcode inst == op_jal
    then ok (
      push_ras (record p { num_call_directs = add32 p.num_call_directs 1 }) (add32 pc ss_inst_size),
      false,
      true,
    )
    else if ss_opcode inst == op_jr
    then if not (rs inst == 31)
      then jump_indirect (record p { num_jump_indirects = add32 p.num_jump_indirects 1 }) pc next_pc
      else return (record p { num_returns = add32 p.num_returns 1 }) pc next_pc
    else if ss_opcode inst == op_jalr
    then call_indirect (record p { num_call_indirects = add32 p.num_call_indirects 1 }) pc next_pc
    else if is_cond_branch (ss_opcode inst)
    then cond_branch (record p { num_cond_branches = add32 p.num_cond_branches 1 }) pc next_pc
    else ok (p, false, conf)

-- `total` and `misp` of `stats`.
abbrev pub stats_total : Predictor → ℕ
stats_total p =
    add32 (add32 (add32 p.num_jump_indirects p.num_returns) p.num_call_indirects)
      p.num_cond_branches

abbrev pub stats_misp : Predictor → ℕ
stats_misp p =
    add32 (add32 (add32 p.num_misp_jump_indirects p.num_misp_returns) p.num_misp_call_indirects)
      p.num_misp_branches
