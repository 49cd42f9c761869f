-- ===== src/Misc.antt =====
-- simulation/functional-sim/libss-vpi/lib.src/misc.cc: the helpers that compute something. A string
-- of elapsed_time is the list of its parts, each a number and the letter of its unit.
pub mod Laws
pub mod Tests
use anycore_pisa.Base.{
  ℕ, zero, suc, ◌+◌, ◌/◌, ◌%◌, Bool, true, false, ◌||◌, not, List, [], ◌∷◌, ◌++◌, ltb, leb, ◌==◌,
  if◌then◌else◌, Outcome, ok, fail, aborted, out_of_fuel, sign_bit, is_pow2,
}

-- `while (n >>= 1) power++`, with fuel for its tests.
pub count_shifts : ℕ → ℕ → ℕ → Outcome ℕ
count_shifts zero n power = fail out_of_fuel
count_shifts (suc fuel) n power =
    let rest = count_shifts fuel (n / 2) (power + 1) in if (n / 2) == 0 then ok power else rest

-- The int `n` is a 32-bit word; it has 31 bits when it is positive.
pub log_base2 : ℕ → Outcome ℕ
log_base2 n =
    if (n == 0 || leb sign_bit n) || not (is_pow2 n) then fail aborted else count_shifts 31 n 0

pub data TimeUnit : Type 0 where
  days hours mins secs : TimeUnit

-- A part that is left out where it is zero, as `sec >= size` says, and the seconds after it.
abbrev pub part : ℕ → TimeUnit → ℕ → List (ℕ × TimeUnit)
part size unit sec = if leb size sec then (sec / size, unit) ∷ [] else []

abbrev pub rest_of : ℕ → ℕ → ℕ
rest_of size sec = if leb size sec then sec % size else sec

-- The long `sec` is a 32-bit word.
pub elapsed_time : ℕ → List (ℕ × TimeUnit)
elapsed_time sec =
    if sec == 0 || leb sign_bit sec
    then (0, secs) ∷ []
    else part 86400 days sec
      ++ (part 3600 hours (rest_of 86400 sec)
          ++ (part 60 mins (rest_of 3600 (rest_of 86400 sec))
              ++ part 1 secs (rest_of 60 (rest_of 3600 (rest_of 86400 sec)))))
