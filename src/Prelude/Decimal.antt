-- ===== src/Prelude/Decimal.antt =====
-- Decimal numbers as the standard library's `{}` and `{:0w}` print and read them.
pub mod Laws
use hayate.Prelude.Tests.{ltb, leb, ◌==◌, if◌then◌else◌}
use hayate.Prelude.Text.{Text, codes}
use hayate.Prelude.Lists.{length}
use Prim.Native.Nat.{ℕ, zero, suc, ◌+◌, ◌-◌, ◌*◌, ◌/◌, ◌%◌, ◌<◌}
use mathlib.Core.Path.{◌≡◌, refl, ◌∙◌}
use mathlib.Core.Bool.{Bool, ◌&&◌}
use mathlib.Core.Option.{Option, none, some}
use mathlib.Core.List.{[], ◌∷◌, ◌++◌}
use native.Mathlib.Omega.{arith}

show_fuel : ℕ → ℕ → Text
show_fuel zero n = []
show_fuel (suc f) n =
    let rest = show_fuel f (n / 10) ++ (48 + n % 10) ∷ [] in
    if ltb n 10 then (48 + n) ∷ [] else rest

-- `format!("{}", n)`
unfoldable pub show : ℕ → Text
unfolding show_fuel
show n = show_fuel (suc n) n

zeros : ℕ → Text → Text
zeros zero s = s
zeros (suc n) s = 48 ∷ zeros n s

-- `format!("{:0w}", n)`
unfoldable pub show_padded : ℕ → ℕ → Text
unfolding show zeros
show_padded w n = let s = show n in zeros (w - length s) s

-- The number that a text of digits stands for.
unfoldable pub value : ℕ → Text → ℕ
value acc [] = acc
value acc (c ∷ s) = value (acc * 10 + (c - 48)) s

value-append : (acc : ℕ) (s t : Text) → value acc (s ++ t) ≡ value (value acc s) t
unfolding value
value-append acc [] t = refl
value-append acc (c ∷ s) t = value-append (acc * 10 + (c - 48)) s t

value-show_fuel : (f n : ℕ) → n < f → value 0 (show_fuel f n) ≡ n
unfolding value show_fuel
value-show_fuel zero n h = elim h [ ]
value-show_fuel (suc f) n h =
    ground (
      arith,
      value-append 0 (show_fuel f (n / 10)) ((48 + n % 10) ∷ []),
      value-show_fuel f (n / 10),
    )

-- A printed number is read back.
pub value-show : (n : ℕ) → value 0 (show n) ≡ n
unfolding show
value-show n = value-show_fuel (suc n) n (omega arith)

value-zeros : (k : ℕ) (s : Text) → value 0 (zeros k s) ≡ value 0 s
unfolding value zeros
value-zeros zero s = refl
value-zeros (suc k) s = value-zeros k s

pub value-show_padded : (w n : ℕ) → value 0 (show_padded w n) ≡ n
unfolding show_padded
value-show_padded w n = value-zeros (w - length (show n)) (show n) ∙ value-show n

abbrev pub is_digit : ℕ → Bool
is_digit c = leb b'0' c && leb c b'9'

-- 2 ^ 64
abbrev pub u64_limit : ℕ
u64_limit = 18446744073709551616

-- The digits of a number, each with its checked multiplication and addition.
unfoldable pub parse_digits : ℕ → Text → Option ℕ
parse_digits acc [] = some acc
parse_digits acc (c ∷ s) =
    let acc' = acc * 10 + (c - 48) in
    let rest = parse_digits acc' s in if is_digit c && ltb acc' u64_limit then rest else none

-- At least one digit.
parse_unsigned : Text → Option ℕ
parse_unsigned [] = none
parse_unsigned (c ∷ s) = parse_digits 0 (c ∷ s)

-- `str::parse::<u64>`; one plus sign may stand in front.
unfoldable pub parse_u64 : Text → Option ℕ
unfolding parse_unsigned
parse_u64 [] = none
parse_u64 (c ∷ s) = if c == b'+' then parse_unsigned s else parse_unsigned (c ∷ s)

show_padded_test : show_padded 5 120 ≡ 48 ∷ 48 ∷ 49 ∷ 50 ∷ 48 ∷ []
unfolding show_padded
show_padded_test = refl

parse_u64_test : parse_u64 (codes "+0120") ≡ some 120
unfolding parse_u64 parse_digits
parse_u64_test = refl
