-- ===== src/Execute/Floating.antt =====
-- The expressions of the floating-point operations in include/ss.def. The host's arithmetic on `float`
-- and `double` is a parameter, as functions on the bits of the operands: one word, or two words of
-- which the lower is the first.
use anycore_pisa.Base.{ℕ, Bool, true, false, Option, none, some, if◌then◌else◌, undefined}
use anycore_pisa.Debug.Fields.{Inst}
use anycore_pisa.Isa.{rs, rt, rd}
use anycore_pisa.Execute.Run.{Run, pure, stop, ◌>>=◌, ◌>>◌}
use anycore_pisa.Execute.Access.{fpr_l, set_fpr_l, fpr_d, set_fpr_d, set_fcc, align, fatal_if}
use anycore_pisa.Execute.Op.{
  Arith, fdiv, Single, Compare, Convert, cvt_s_d, cvt_s_w, cvt_d_s, cvt_d_w, cvt_w_s, cvt_w_d,
  Format, s, d,
}

-- A conversion to an integer gives nothing where C leaves it undefined.
pub record Floats : Type 0 where
  pub arith_s : Arith → ℕ → ℕ → ℕ
  pub arith_d : Arith → ℕ × ℕ → ℕ × ℕ → ℕ × ℕ
  pub single_s : Single → ℕ → ℕ
  pub single_d : Single → ℕ × ℕ → ℕ × ℕ
  pub compare_s : Compare → ℕ → ℕ → Bool
  pub compare_d : Compare → ℕ × ℕ → ℕ × ℕ → Bool
  pub is_zero_s : ℕ → Bool
  pub is_zero_d : ℕ × ℕ → Bool
  pub s_of_d : ℕ × ℕ → ℕ
  pub s_of_w : ℕ → ℕ
  pub d_of_s : ℕ → ℕ × ℕ
  pub d_of_w : ℕ → ℕ × ℕ
  pub w_of_s : ℕ → Option ℕ
  pub w_of_d : ℕ × ℕ → Option ℕ

-- FS, FT and FD are RS, RT and RD. FPALIGN of three operands, and of the result and one operand.
unfoldable pub align3 : Inst → Run (Unit {0})
align3 inst = do align (rd inst); align (rs inst); align (rt inst)

unfoldable pub align2 : Inst → Run (Unit {0})
align2 inst = do align (rd inst); align (rs inst)

abbrev pub divides : Arith → Bool
divides fdiv = true
divides _ = false

abbrev pub or_stop : Option ℕ → Run ℕ
or_stop none = stop undefined
or_stop (some v) = pure v

module _ (floats : Floats) where
  -- DIV0 stands before the division of FDIV_S and FDIV_D only.
  unfoldable pub execute_arith : Arith → Format → Inst → Run (Unit {0})
  unfolding align3
  execute_arith op s inst = do
    align3 inst
    x ← fpr_l (rs inst)
    y ← fpr_l (rt inst)
    fatal_if (if divides op then floats.is_zero_s y else false)
    set_fpr_l (rd inst) (floats.arith_s op x y)
  execute_arith op d inst = do
    align3 inst
    x ← fpr_d (rs inst)
    y ← fpr_d (rt inst)
    fatal_if (if divides op then floats.is_zero_d y else false)
    set_fpr_d (rd inst) (floats.arith_d op x y)

  unfoldable pub execute_single : Single → Format → Inst → Run (Unit {0})
  unfolding align2
  execute_single op s inst = do
    align2 inst
    x ← fpr_l (rs inst)
    set_fpr_l (rd inst) (floats.single_s op x)
  execute_single op d inst = do
    align2 inst
    x ← fpr_d (rs inst)
    set_fpr_d (rd inst) (floats.single_d op x)

  unfoldable pub execute_compare : Compare → Format → Inst → Run (Unit {0})
  execute_compare op s inst = do
    align (rs inst)
    align (rt inst)
    x ← fpr_l (rs inst)
    y ← fpr_l (rt inst)
    set_fcc (floats.compare_s op x y)
  execute_compare op d inst = do
    align (rs inst)
    align (rt inst)
    x ← fpr_d (rs inst)
    y ← fpr_d (rt inst)
    set_fcc (floats.compare_d op x y)

  unfoldable pub execute_convert : Convert → Inst → Run (Unit {0})
  unfolding align2
  execute_convert cvt_s_d inst = do
    align2 inst
    x ← fpr_d (rs inst)
    set_fpr_l (rd inst) (floats.s_of_d x)
  execute_convert cvt_s_w inst = do
    align2 inst
    x ← fpr_l (rs inst)
    set_fpr_l (rd inst) (floats.s_of_w x)
  execute_convert cvt_d_s inst = do
    align2 inst
    x ← fpr_l (rs inst)
    set_fpr_d (rd inst) (floats.d_of_s x)
  execute_convert cvt_d_w inst = do
    align2 inst
    x ← fpr_l (rs inst)
    set_fpr_d (rd inst) (floats.d_of_w x)
  execute_convert cvt_w_s inst = do
    align2 inst
    x ← fpr_l (rs inst)
    v ← or_stop (floats.w_of_s x)
    set_fpr_l (rd inst) v
  execute_convert cvt_w_d inst = do
    align2 inst
    x ← fpr_d (rs inst)
    v ← or_stop (floats.w_of_d x)
    set_fpr_l (rd inst) v
