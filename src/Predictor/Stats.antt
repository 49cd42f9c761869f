-- ===== src/Predictor/Stats.antt =====
-- The counters of the predictor: what one call of `predict` counts, and what a run of calls counts.
use anycore_pisa.Base.{
  ℕ, ◌+◌, ◌<◌, ◌≤◌, ◌^◌, ◌≡◌, refl, Bool, true, false, not, ◌==◌, leb, ◌||◌, if◌then◌else◌, get_or,
  add32, Outcome, ok, arith,
}
use anycore_pisa.Predictor.{
  Predictor, Predicted, bit, same, is_taken, jht_index, profile, profile_if_all, jump_indirect,
  return, call_indirect, cond_branch,
}
use anycore_pisa.Predictor.Profiles.{IsSorted-profiled}
use anycore_pisa.Predictor.Inv.{
  IsValid, counter_of, gshare_lem, after_gshare, after_gshare-IsValid, uncond_indirects_corr_lem,
  after_target, after_target-IsValid,
}

-- How many control instructions were counted, and how many of them as mispredicted.
abbrev pub branches : Predictor → ℕ
branches p =
    p.num_jump_directs + p.num_call_directs + p.num_jump_indirects + p.num_returns
    + p.num_call_indirects + p.num_cond_branches

abbrev pub mispredictions : Predictor → ℕ
mispredictions p =
    p.num_misp_jump_indirects + p.num_misp_returns + p.num_misp_call_indirects + p.num_misp_branches

pub record IsCounted (p : Predictor) : Type 0 where
  pub valid : IsValid p
  pub jump_indirects : p.num_misp_jump_indirects ≤ p.num_jump_indirects
  pub returns : p.num_misp_returns ≡ 0
  pub call_indirects : p.num_misp_call_indirects ≤ p.num_call_indirects
  pub cond_branches : p.num_misp_branches ≤ p.num_cond_branches

-- The state after one instruction, which counts `n` control instructions.
pub record Counts (p : Predictor) (n : ℕ) (misp : Bool) (q : Predictor) : Type 0 where
  pub counted : IsCounted q
  pub total : branches q ≡ branches p + n
  pub misps : mispredictions q ≡ mispredictions p + bit misp

-- A prediction returns, and counts.
pub record Predicts (p : Predictor) (n : ℕ) (o : Outcome Predicted) : Type 0 where
  pub state : Predictor
  pub misp : Bool
  pub conf : Bool
  pub runs : o ≡ ok (state, misp, conf)
  pub counts : Counts p n misp state

profile-IsValid : (p : Predictor) (pc : ℕ) (misp : Bool) → IsValid p → IsValid (profile p pc misp)
profile-IsValid p pc misp v = record {
  pht_length = v.pht_length;
  jht_length = v.jht_length;
  pht_some = v.pht_some;
  jht_some = v.jht_some;
  pht_word = v.pht_word;
  jht_word = v.jht_word;
  two_bits = v.two_bits;
  sorted = IsSorted-profiled pc misp p.branch_profiles v.sorted;
}

Counts-profile :
    (p q : Predictor) (n pc : ℕ) (misp m : Bool)
    → Counts p n misp q
    → Counts p n misp (profile q pc m)
Counts-profile p q n pc misp m c = record {
  counted = record {
    valid = profile-IsValid q pc m c.counted.valid;
    jump_indirects = c.counted.jump_indirects;
    returns = c.counted.returns;
    call_indirects = c.counted.call_indirects;
    cond_branches = c.counted.cond_branches;
  };
  total = c.total;
  misps = c.misps;
}

either : (P : Predictor → Type 0) (b : Bool) (x y : Predictor) → P x → P y → P (if b then x else y)
either P true x y h g = h
either P false x y h g = g

Counts-profile_if_all :
    (p q : Predictor) (n pc : ℕ) (misp m : Bool)
    → Counts p n misp q
    → Counts p n misp (profile_if_all q pc m)
Counts-profile_if_all p q n pc misp m c =
    either (Counts p n misp) q.profile_all_branches (profile q pc m) q
      (Counts-profile p q n pc misp m c) c

bit_le : (b : Bool) → bit b ≤ 1
bit_le b = ground arith

pub jump_indirect-Predicts :
    (p : Predictor) (pc next_pc : ℕ)
    → IsCounted p
    → branches p + 1 < 2 ^ 32
    → Predicts p 1
        (jump_indirect (record p { num_jump_indirects = add32 p.num_jump_indirects 1 }) pc next_pc)
jump_indirect-Predicts p pc next_pc c h =
    let start = record p { num_jump_indirects = add32 p.num_jump_indirects 1 } in
    let misp = not (get_or start.jht (jht_index start pc) 0 == next_pc) in
    let next = record (after_target start pc next_pc) {
      num_misp_jump_indirects = add32 p.num_misp_jump_indirects (bit misp);
    } in
    let small = bit_le misp in
    record {
      state = profile_if_all next pc misp;
      misp = misp;
      conf = false;
      runs = rw (uncond_indirects_corr_lem start pc next_pc c.valid) refl;
      counts = Counts-profile_if_all p next 1 pc misp misp (record {
        counted = record {
          valid = after_target-IsValid start pc next_pc c.valid;
          jump_indirects = omega (arith, c.jump_indirects);
          returns = c.returns;
          call_indirects = c.call_indirects;
          cond_branches = c.cond_branches;
        };
        total = omega arith;
        misps = omega (arith, c.jump_indirects, c.returns, c.call_indirects, c.cond_branches);
      });
    }

pub call_indirect-Predicts :
    (p : Predictor) (pc next_pc : ℕ)
    → IsCounted p
    → branches p + 1 < 2 ^ 32
    → Predicts p 1
        (call_indirect (record p { num_call_indirects = add32 p.num_call_indirects 1 }) pc next_pc)
call_indirect-Predicts p pc next_pc c h =
    let start = record p { num_call_indirects = add32 p.num_call_indirects 1 } in
    let misp = not (get_or start.jht (jht_index start pc) 0 == next_pc) in
    let next = record (after_target start pc next_pc) {
      num_misp_call_indirects = add32 p.num_misp_call_indirects (bit misp);
    } in
    let small = bit_le misp in
    record {
      state = profile_if_all next pc misp;
      misp = misp;
      conf = false;
      runs = rw (uncond_indirects_corr_lem start pc next_pc c.valid) refl;
      counts = Counts-profile_if_all p next 1 pc misp misp (record {
        counted = record {
          valid = after_target-IsValid start pc next_pc c.valid;
          jump_indirects = c.jump_indirects;
          returns = c.returns;
          call_indirects = omega (arith, c.call_indirects);
          cond_branches = c.cond_branches;
        };
        total = omega arith;
        misps = omega (arith, c.jump_indirects, c.returns, c.call_indirects, c.cond_branches);
      });
    }

pub return-Predicts :
    (p : Predictor) (pc next_pc : ℕ)
    → IsCounted p
    → branches p + 1 < 2 ^ 32
    → Predicts p 1 (return (record p { num_returns = add32 p.num_returns 1 }) pc next_pc)
return-Predicts p pc next_pc c h =
    let next = record p {
      num_returns = add32 p.num_returns 1;
      num_misp_returns = add32 p.num_misp_returns 0;
    } in
    record {
      state = profile_if_all next pc false;
      misp = false;
      conf = false;
      runs = refl;
      counts = Counts-profile_if_all p next 1 pc false false (record {
        counted = record {
          valid = c.valid;
          jump_indirects = c.jump_indirects;
          returns = omega (arith, c.returns);
          call_indirects = c.call_indirects;
          cond_branches = c.cond_branches;
        };
        total = omega arith;
        misps = omega (arith, c.returns);
      });
    }

pub cond_branch-Predicts :
    (p : Predictor) (pc next_pc : ℕ)
    → IsCounted p
    → branches p + 1 < 2 ^ 32
    → Predicts p 1
        (cond_branch (record p { num_cond_branches = add32 p.num_cond_branches 1 }) pc next_pc)
cond_branch-Predicts p pc next_pc c h =
    let start = record p { num_cond_branches = add32 p.num_cond_branches 1 } in
    let misp = not (same (leb 2 (counter_of start pc)) (is_taken pc next_pc)) in
    let next = record (after_gshare start pc next_pc) {
      num_misp_branches = add32 p.num_misp_branches (bit misp);
    } in
    let small = bit_le misp in
    record {
      state = profile_if_all next pc misp;
      misp = misp;
      conf = (counter_of start pc == 0) || (counter_of start pc == 3);
      runs = rw (gshare_lem start pc next_pc c.valid) refl;
      counts = Counts-profile_if_all p next 1 pc misp misp (record {
        counted = record {
          valid = after_gshare-IsValid start pc next_pc c.valid;
          jump_indirects = c.jump_indirects;
          returns = c.returns;
          call_indirects = c.call_indirects;
          cond_branches = omega (arith, c.cond_branches);
        };
        total = omega arith;
        misps = omega (arith, c.jump_indirects, c.returns, c.call_indirects, c.cond_branches);
      });
    }
