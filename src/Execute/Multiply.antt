-- ===== src/Execute/Multiply.antt =====
-- InstMULT and InstMULTU of include/ss.def, and extractl of include/misc.h.
use anycore_pisa.Base.{
  ℕ, zero, suc, ◌+◌, ◌-◌, Bool, ltb, ◌==◌, not, if◌then◌else◌, add32, not32, bit_and, sign_bit,
  ◌<<<◌, ◌>>>◌,
}

-- `num` bits of a word, down from bit `pos`.
unfoldable pub extractl : ℕ → ℕ → ℕ → ℕ
extractl word pos num = bit_and (word >>> (pos + 1 - num)) (not32 (0xffffffff <<< num))

-- `if (op & 020000000000)`.
abbrev pub is_negative : ℕ → Bool
is_negative op = not (bit_and op sign_bit == 0)

-- One round of the loop over the bits of `op1`, from bit 30 down, on HI and LO.
unfoldable pub mult_round : ℕ → ℕ → ℕ → ℕ × ℕ → ℕ × ℕ
unfolding extractl
mult_round i op1 op2 (hi, lo) =
    let hi' = add32 (hi <<< 1) (extractl lo 31 1) in
    let lo' = lo <<< 1 in
    if extractl op1 (30 - i) 1 == 1
    then (if ltb (0xffffffff - lo') op2 then add32 hi' 1 else hi', add32 lo' op2)
    else (hi', lo')

unfoldable pub mult_loop : ℕ → ℕ → ℕ → ℕ → ℕ × ℕ → ℕ × ℕ
unfolding mult_round
mult_loop zero i op1 op2 hi_lo = hi_lo
mult_loop (suc rounds) i op1 op2 hi_lo =
    mult_loop rounds (i + 1) op1 op2 (mult_round i op1 op2 hi_lo)

-- HI and LO after InstMULTU.
unfoldable pub multiply_unsigned : ℕ → ℕ → ℕ × ℕ
multiply_unsigned op1 op2 = mult_loop 31 0 op1 op2 (0, if is_negative op1 then op2 else 0)

unfoldable pub magnitude : ℕ → ℕ
magnitude op = if is_negative op then add32 (not32 op) 1 else op

-- The two's complement of HI and LO.
unfoldable pub complemented : ℕ × ℕ → ℕ × ℕ
complemented (hi, lo) =
    (if not32 lo == 0xffffffff then add32 (not32 hi) 1 else not32 hi, add32 (not32 lo) 1)

abbrev pub differ : Bool → Bool → Bool
differ sign1 sign2 = if sign1 then not sign2 else sign2

-- HI and LO after InstMULT.
unfoldable pub multiply_signed : ℕ → ℕ → ℕ × ℕ
multiply_signed op1 op2 =
    let hi_lo = multiply_unsigned (magnitude op1) (magnitude op2) in
    if differ (is_negative op1) (is_negative op2) then complemented hi_lo else hi_lo
