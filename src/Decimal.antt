-- ===== src/Decimal.antt =====
-- Python's `decimal.Decimal` as the program uses it (app/services/currency/converter.py,
-- app/services/fx/ingest.py), under the default context: 28 significant digits, ties to even.
-- `finite c s` is the number c / 10 ^ s. A number that Python writes with a positive exponent has
-- scale 0 here, and `infinity` stands for both signs; the limits on exponents are not modelled.
-- `to_numeric` is what a NUMERIC(p, s) column (app/models/*.py) makes of a value.
use voice_spend.Prelude.{
  ℕ, zero, suc, ◌+◌, ◌-◌, ◌*◌, ◌/◌, ◌%◌, ◌^◌, Bool, true, false, Option, none, some, Result, ok,
  err, ltb, leb, ◌==◌, if◌then◌else◌,
}
use voice_spend.Prelude.Int.{ℤ, pos, negsuc, abs, with_sign}

pub data Decimal : Type 0 where
  finite : ℤ → ℕ → Decimal
  infinity : Decimal
  nan : Decimal

-- The signals of the default context that are raised as exceptions.
pub data ArithmeticError : Type 0 where
  invalid_operation division_by_zero : ArithmeticError

abbrev pub decimal_precision : ℕ
decimal_precision = 28

abbrev pub is_finite : Decimal → Bool
is_finite (finite c s) = true
is_finite infinity = false
is_finite nan = false

-- `value > 0`, for a finite value.
abbrev pub is_positive : Decimal → Bool
is_positive (finite (pos zero) s) = false
is_positive (finite (pos (suc n)) s) = true
is_positive (finite (negsuc n) s) = false
is_positive infinity = false
is_positive nan = false

-- The nearest whole number to n / d, a tie away from zero, and a tie to the even neighbour.
unfoldable pub round_half_up : ℕ → ℕ → ℕ
round_half_up n d = (2 * n + d) / (2 * d)

unfoldable pub round_half_even : ℕ → ℕ → ℕ
round_half_even n d =
    let q = n / d in
    let r = n % d in if ltb (2 * r) d then q else if ltb d (2 * r) then q + 1 else q + q % 2

unfoldable pub digits_from : ℕ → ℕ → ℕ
digits_from zero n = 1
digits_from (suc fuel) n = elim (ltb n 10) [ true ↦ 1 | false ↦ suc (digits_from fuel (n / 10)) ]

-- The number of decimal digits; `n` itself is enough fuel, as each round divides by ten.
unfoldable pub digits : ℕ → ℕ
digits n = digits_from n n

-- A magnitude and its scale, at another scale, the ties by the given rounding.
unfoldable pub rescale : (ℕ → ℕ → ℕ) → ℕ → ℕ → ℕ → ℕ
rescale round m from to = if leb from to then m * 10 ^ (to - from) else round m (10 ^ (from - to))

-- The context's rounding of a result to 28 significant digits.
unfoldable pub fix : ℤ → ℕ → ℕ → Decimal
fix sign m s =
    let excess = digits m - decimal_precision in
    let q = round_half_even m (10 ^ excess) in
    if excess == 0
    then finite (with_sign sign m) s
    else if leb excess s
    then finite (with_sign sign q) (s - excess)
    else finite (with_sign sign (q * 10 ^ (excess - s))) 0

abbrev sign_of_product : ℤ → ℤ → ℤ
sign_of_product (pos a) (pos b) = pos 0
sign_of_product (pos a) (negsuc b) = negsuc 0
sign_of_product (negsuc a) (pos b) = negsuc 0
sign_of_product (negsuc a) (negsuc b) = pos 0

-- a * b
unfoldable pub mul : Decimal → Decimal → Result ArithmeticError Decimal
mul (finite a s) (finite b t) = ok (fix (sign_of_product a b) (abs a * abs b) (s + t))
mul (finite (pos zero) s) infinity = err invalid_operation
mul infinity (finite (pos zero) t) = err invalid_operation
mul nan y = ok nan
mul (finite a s) nan = ok nan
mul infinity nan = ok nan
mul (finite (pos (suc a)) s) infinity = ok infinity
mul (finite (negsuc a) s) infinity = ok infinity
mul infinity (finite (pos (suc b)) t) = ok infinity
mul infinity (finite (negsuc b) t) = ok infinity
mul infinity infinity = ok infinity

-- The quotient of two magnitudes: one digit more than the precision, the last one made odd where
-- the division leaves a remainder, so that the rounding in `fix` sees on which side it lies.
unfoldable pub quotient : ℤ → ℕ → ℕ → ℕ → ℕ → Decimal
quotient sign a s b t =
    let up = decimal_precision + 1 + digits b - digits a in
    let down = digits a - (decimal_precision + 1 + digits b) in
    let n = a * 10 ^ up in
    let d = b * 10 ^ down in
    let q = n / d in
    let sticky = if n % d == 0 then q else if q % 5 == 0 then q + 1 else q in
    if leb (t + down) (s + up)
    then fix sign sticky (s + up - (t + down))
    else fix sign (sticky * 10 ^ (t + down - (s + up))) 0

-- a / b
unfoldable pub div : Decimal → Decimal → Result ArithmeticError Decimal
div (finite a s) (finite (pos zero) t) =
    if abs a == 0 then err invalid_operation else err division_by_zero
div (finite a s) (finite (pos (suc b)) t) =
    ok (quotient (sign_of_product a (pos 0)) (abs a) s (suc b) t)
div (finite a s) (finite (negsuc b) t) =
    ok (quotient (sign_of_product a (negsuc 0)) (abs a) s (suc b) t)
div (finite a s) infinity = ok (finite (pos 0) 0)
div (finite a s) nan = ok nan
div infinity (finite b t) = ok infinity
div infinity infinity = err invalid_operation
div infinity nan = ok nan
div nan y = ok nan

-- value.quantize(Decimal(1) / 10 ** places)
unfoldable pub quantize : ℕ → Decimal → Result ArithmeticError Decimal
quantize places (finite c s) =
    let m = rescale round_half_even (abs c) s places in
    if leb (digits m) decimal_precision
    then ok (finite (with_sign c m) places)
    else err invalid_operation
quantize places infinity = err invalid_operation
quantize places nan = ok nan

-- The value of a NUMERIC(precision, places) column, in units of 1 / 10 ^ places: PostgreSQL rounds
-- ties away from zero, and refuses a value that has too many digits.
unfoldable pub to_numeric : ℕ → ℕ → Decimal → Option ℤ
to_numeric precision places (finite c s) =
    let m = rescale round_half_up (abs c) s places in
    if ltb m (10 ^ precision) then some (with_sign c m) else none
to_numeric precision places infinity = none
to_numeric precision places nan = none
