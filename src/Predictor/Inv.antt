-- ===== src/Predictor/Inv.antt =====
-- Well-formed predictors: both tables have their sizes, every two-bit counter has two bits, and the
-- profiles are in order.
use anycore_pisa.Base.{
  ℕ, ◌^◌, ◌<◌, ◌≡◌, refl, ◌∙◌, Bool, List, length, get_or, set, AllBelow, AllBelow-set,
  AllBelow-replicate, AllBelow-get_or, length-set, length-replicate, leb, ◌==◌, ◌||◌,
  get_elem?-eq-get_or, ok, arith,
}
use anycore_pisa.Base.Bits.{mod_mask_lt}
use anycore_pisa.Predictor.{
  Predictor, gshare_predictor, gshare, gshare_index, trained, is_taken, shifted, same, jht_index,
  uncond_indirects_corr,
}
use anycore_pisa.Predictor.Profiles.{BranchProfiles, IsSorted}

pub record Fits (pht : List ℕ) (pht_size : ℕ) (jht : List ℕ) (jht_size : ℕ) (es : BranchProfiles)
    : Type 0 where
  pub pht_length : length pht ≡ pht_size
  pub jht_length : length jht ≡ jht_size
  pub pht_some : 0 < pht_size
  pub jht_some : 0 < jht_size
  pub pht_word : pht_size < 2 ^ 32
  pub jht_word : jht_size < 2 ^ 32
  pub two_bits : AllBelow 4 pht
  pub sorted : IsSorted es

abbrev pub IsValid : Predictor → Type 0
IsValid p = Fits p.pht p.pht_size p.jht p.jht_size p.branch_profiles

pub gshare_predictor-IsValid :
    (pht_size jht_size : ℕ) (bimodal all print : Bool)
    → 0 < pht_size
    → 0 < jht_size
    → pht_size < 2 ^ 32
    → jht_size < 2 ^ 32
    → IsValid (gshare_predictor pht_size jht_size bimodal all print)
unfolding gshare_predictor
gshare_predictor-IsValid pht_size jht_size bimodal all print p j p' j' = record {
  pht_length = length-replicate pht_size 2;
  jht_length = length-replicate jht_size 0;
  pht_some = p;
  jht_some = j;
  pht_word = p';
  jht_word = j';
  two_bits = AllBelow-replicate 4 pht_size 2 (omega arith);
  sorted = tt;
}

pub gshare_index_lt : (p : Predictor) (pc : ℕ) → IsValid p → gshare_index p pc < length p.pht
gshare_index_lt p pc v = omega (arith, v.pht_length, mod_mask_lt _ p.pht_size v.pht_some v.pht_word)

pub jht_index_lt : (p : Predictor) (pc : ℕ) → IsValid p → jht_index p pc < length p.jht
jht_index_lt p pc v = omega (arith, v.jht_length, mod_mask_lt _ p.jht_size v.jht_some v.jht_word)

trained_lt : (outcome : Bool) (counter : ℕ) → counter < 4 → trained outcome counter < 4
trained_lt outcome counter h = ground arith

abbrev pub counter_of : Predictor → ℕ → ℕ
counter_of p pc = get_or p.pht (gshare_index p pc) 0

abbrev pub after_gshare : Predictor → ℕ → ℕ → Predictor
after_gshare p pc next_pc = record p {
  pht = set p.pht (gshare_index p pc) (trained (is_taken pc next_pc) (counter_of p pc));
  bhr = shifted p (is_taken pc next_pc);
}

pub gshare_lem :
    (p : Predictor) (pc next_pc : ℕ)
    → IsValid p
    → gshare p pc next_pc
      ≡ ok (
        after_gshare p pc next_pc,
        same (leb 2 (counter_of p pc)) (is_taken pc next_pc),
        (counter_of p pc == 0) || (counter_of p pc == 3),
      )
unfolding gshare
gshare_lem p pc next_pc v =
    rw (get_elem?-eq-get_or p.pht (gshare_index p pc) 0 (gshare_index_lt p pc v)) refl

pub after_gshare-IsValid :
    (p : Predictor) (pc next_pc : ℕ) → IsValid p → IsValid (after_gshare p pc next_pc)
after_gshare-IsValid p pc next_pc v =
    let i = gshare_index p pc in
    let new = trained (is_taken pc next_pc) (counter_of p pc) in
    record {
      pht_length = length-set p.pht i new ∙ v.pht_length;
      jht_length = v.jht_length;
      pht_some = v.pht_some;
      jht_some = v.jht_some;
      pht_word = v.pht_word;
      jht_word = v.jht_word;
      two_bits = AllBelow-set 4 p.pht i new v.two_bits (
          trained_lt (is_taken pc next_pc) (counter_of p pc)
            (AllBelow-get_or 4 p.pht i 0 v.two_bits (gshare_index_lt p pc v)));
      sorted = v.sorted;
    }

abbrev pub after_target : Predictor → ℕ → ℕ → Predictor
after_target p pc target = record p { jht = set p.jht (jht_index p pc) target }

pub uncond_indirects_corr_lem :
    (p : Predictor) (pc target : ℕ)
    → IsValid p
    → uncond_indirects_corr p pc target
      ≡ ok (after_target p pc target, get_or p.jht (jht_index p pc) 0 == target)
unfolding uncond_indirects_corr
uncond_indirects_corr_lem p pc target v =
    rw (get_elem?-eq-get_or p.jht (jht_index p pc) 0 (jht_index_lt p pc v)) refl

pub after_target-IsValid :
    (p : Predictor) (pc target : ℕ) → IsValid p → IsValid (after_target p pc target)
after_target-IsValid p pc target v = record {
  pht_length = v.pht_length;
  jht_length = length-set p.jht (jht_index p pc) target ∙ v.jht_length;
  pht_some = v.pht_some;
  jht_some = v.jht_some;
  pht_word = v.pht_word;
  jht_word = v.jht_word;
  two_bits = v.two_bits;
  sorted = v.sorted;
}
