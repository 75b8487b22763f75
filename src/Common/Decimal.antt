-- ===== src/Common/Decimal.antt =====
-- `str(n)` of a natural number, `str.isdigit` and `int(text)`, for ASCII digits.
use mathlib.Core.Path.{◌≡◌, refl, ap}
use mathlib.Core.Bool.{Bool, true, false, ◌&&◌}
use mathlib.Core.List.{[], ◌∷◌, ◌++◌}
use native.Mathlib.Omega.{arith}
use Prim.Native.Nat.{ℕ, zero, suc, ◌+◌, ◌-◌, ◌*◌, ◌/◌, ◌%◌, ◌<◌}
use nsysu_crs.Common.Tests.{ltb, leb, if◌then◌else◌}
use nsysu_crs.Common.Characters.{Text, contains}

-- The digits of `n`, most significant first; `suc n` rounds are enough.
decimal_fuel : ℕ → ℕ → Text
decimal_fuel zero n = []
decimal_fuel (suc f) n =
    let higher = decimal_fuel f (n / 10) in
    if ltb n 10 then (b'0' + n) ∷ [] else higher ++ ((b'0' + n % 10) ∷ [])

unfoldable pub decimal : ℕ → Text
unfolding decimal_fuel
decimal n = decimal_fuel (suc n) n

abbrev pub is_digit_code : ℕ → Bool
is_digit_code c = leb b'0' c && leb c b'9'

all_digits : Text → Bool
all_digits [] = true
all_digits (c ∷ cs) = is_digit_code c && all_digits cs

-- `text.isdigit()`: false for the empty text.
unfoldable pub is_digits : Text → Bool
unfolding all_digits
is_digits [] = false
is_digits (c ∷ cs) = all_digits (c ∷ cs)

value_from : ℕ → Text → ℕ
value_from acc [] = acc
value_from acc (c ∷ cs) = value_from (acc * 10 + (c - b'0')) cs

-- `int(text)` of digits.
unfoldable pub digits_value : Text → ℕ
unfolding value_from
digits_value t = value_from 0 t

value-append :
    (acc c : ℕ) (t : Text) → value_from acc (t ++ (c ∷ [])) ≡ value_from acc t * 10 + (c - b'0')
unfolding value_from
value-append acc c [] = refl
value-append acc c (d ∷ t) = value-append (acc * 10 + (d - b'0')) c t

all_digits-append :
    (t : Text) (c : ℕ)
    → all_digits t ≡ true
    → is_digit_code c ≡ true
    → all_digits (t ++ (c ∷ [])) ≡ true
unfolding all_digits
all_digits-append [] c h k = ground arith
all_digits-append (d ∷ t) c h k = ground (arith, all_digits-append t c)

value-decimal_fuel : (f n : ℕ) → n < f → value_from 0 (decimal_fuel f n) ≡ n
unfolding decimal_fuel value_from
value-decimal_fuel zero n h = elim h [ ]
value-decimal_fuel (suc f) n h =
    ground (
      arith,
      value-decimal_fuel f (n / 10),
      value-append 0 (b'0' + n % 10) (decimal_fuel f (n / 10)),
    )

digits-decimal_fuel : (f n : ℕ) → all_digits (decimal_fuel f n) ≡ true
unfolding decimal_fuel all_digits
digits-decimal_fuel zero n = refl
digits-decimal_fuel (suc f) n = ground (
  arith,
  digits-decimal_fuel f (n / 10),
  all_digits-append (decimal_fuel f (n / 10)) (b'0' + n % 10),
)

nonempty-append :
    (t : Text) (c : ℕ) → all_digits (t ++ (c ∷ [])) ≡ true → is_digits (t ++ (c ∷ [])) ≡ true
unfolding is_digits
nonempty-append [] c h = h
nonempty-append (d ∷ t) c h = h

is_digits-decimal_fuel : (f n : ℕ) → is_digits (decimal_fuel (suc f) n) ≡ true
unfolding decimal_fuel is_digits
is_digits-decimal_fuel f n = ground (
  arith,
  digits-decimal_fuel f (n / 10),
  all_digits-append (decimal_fuel f (n / 10)) (b'0' + n % 10),
  nonempty-append (decimal_fuel f (n / 10)) (b'0' + n % 10),
)

-- `f"{n:02d}"`
unfoldable pub pad_two : ℕ → Text
unfolding decimal
pad_two n = if ltb n 10 then b'0' ∷ decimal n else decimal n

pub is_digits-pad_two : (n : ℕ) → is_digits (pad_two n) ≡ true
unfolding pad_two is_digits decimal_fuel
is_digits-pad_two n = ground (arith, is_digits-decimal_fuel n n)

pub value-pad_two : (n : ℕ) → digits_value (pad_two n) ≡ n
unfolding pad_two digits_value
value-pad_two n = ground (arith, value-decimal_fuel (suc n) n)

pub value-decimal : (n : ℕ) → digits_value (decimal n) ≡ n
unfolding decimal digits_value
value-decimal n = value-decimal_fuel (suc n) n (omega arith)

-- Different numbers have different texts.
pub decimal_injective : (m n : ℕ) → decimal m ≡ decimal n → m ≡ n
unfolding decimal
decimal_injective m n h =
    omega (arith, value-decimal_fuel (suc m) m, value-decimal_fuel (suc n) n, ap (value_from 0) h)

free_of_digits :
    (c : ℕ) (t : Text) → is_digit_code c ≡ false → all_digits t ≡ true → contains c t ≡ false
unfolding all_digits contains
free_of_digits c [] h k = refl
free_of_digits c (d ∷ t) h k = ground (arith, free_of_digits c t)

-- A text of digits holds no character that is not a digit.
pub digits-free :
    (c : ℕ) (t : Text) → is_digit_code c ≡ false → is_digits t ≡ true → contains c t ≡ false
unfolding is_digits
digits-free c [] h k = cc
digits-free c (d ∷ t) h k = free_of_digits c (d ∷ t) h k
