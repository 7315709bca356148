-- ===== src/Prelude/Decimal/Laws.antt =====
-- Printed numbers: their digits, their length, and how they are read back.
use hayate.Prelude.Tests.{ltb, ◌==◌, Bool-cases}
use hayate.Prelude.Text.{Text}
use hayate.Prelude.Lists.{length, length-append, All, All-append}
use hayate.Prelude.Decimal.{
  show_fuel, show, zeros, show_padded, value, value-show, is_digit, u64_limit, parse_digits,
  parse_unsigned, parse_u64,
}
use Prim.Native.Nat.{ℕ, zero, suc, ◌+◌, ◌-◌, ◌*◌, ◌/◌, ◌%◌, ◌<◌, ◌≤◌}
use mathlib.Core.Path.{◌≡◌, refl, ap, sym, ◌∙◌}
use mathlib.Core.Logic.{inl, inr}
use mathlib.Core.Bool.{true, false}
use mathlib.Core.Option.{some}
use mathlib.Core.List.{[], ◌∷◌, ◌++◌}
use native.Mathlib.Omega.{arith}

abbrev pub IsDigits : Text → Type 0
IsDigits = All (λ c. is_digit c ≡ true)

digit_value : (d : ℕ) → d < 10 → is_digit (48 + d) ≡ true
digit_value d h = ground arith

show_fuel-IsDigits : (f n : ℕ) → IsDigits (show_fuel f n)
unfolding show_fuel
show_fuel-IsDigits zero n = tt
show_fuel-IsDigits (suc f) n = elim (Bool-cases (ltb n 10)) [
  | inl low ↦ rw low (digit_value n (ground arith), tt)
  | inr high ↦ rw high (
      All-append _ (show_fuel f (n / 10)) ((48 + n % 10) ∷ []) (show_fuel-IsDigits f (n / 10))
        (digit_value (n % 10) (omega arith), tt))
]

show_fuel-enough : (f g n : ℕ) → n < f → n < g → show_fuel f n ≡ show_fuel g n
unfolding show_fuel
show_fuel-enough zero g n h k = elim h [ ]
show_fuel-enough (suc f) zero n h k = elim k [ ]
show_fuel-enough (suc f) (suc g) n h k = elim (Bool-cases (ltb n 10)) [
  | inl low ↦ rw low
  | inr high ↦ rw high (
      ap (λ s. s ++ (48 + n % 10) ∷ [])
        (show_fuel-enough f g (n / 10) (ground arith) (ground arith)))
]

-- A digit more.
pub show-digit : (n d : ℕ) → 0 < n → d < 10 → show (n * 10 + d) ≡ show n ++ (48 + d) ∷ []
unfolding show show_fuel
show-digit n d hn hd =
    let high : ltb (n * 10 + d) 10 ≡ false = ground arith in
    let tens : (n * 10 + d) / 10 ≡ n = omega arith in
    let last : (n * 10 + d) % 10 ≡ d = omega arith in
    rw (high, tens, last)
      (ap (λ s. s ++ (48 + d) ∷ [])
        (show_fuel-enough (n * 10 + d) (suc n) n (omega arith) (omega arith)))

pub length-show_pos : (n : ℕ) → 0 < length (show n)
unfolding show show_fuel
length-show_pos n = elim (Bool-cases (ltb n 10)) [
  | inl low ↦ rw low (omega arith)
  | inr high ↦ rw high (omega (arith, length-append (show_fuel n (n / 10)) ((48 + n % 10) ∷ [])))
]

pub show-IsDigits : (n : ℕ) → IsDigits (show n)
unfolding show
show-IsDigits n = show_fuel-IsDigits (suc n) n

pub show-injective : (m n : ℕ) → show m ≡ show n → m ≡ n
show-injective m n e = sym (value-show m) ∙ ap (value 0) e ∙ value-show n

zeros-IsDigits : (k : ℕ) (s : Text) → IsDigits s → IsDigits (zeros k s)
unfolding zeros
zeros-IsDigits zero s h = h
zeros-IsDigits (suc k) s h = (refl, zeros-IsDigits k s h)

pub show_padded-IsDigits : (w n : ℕ) → IsDigits (show_padded w n)
unfolding show_padded show
show_padded-IsDigits w n =
    zeros-IsDigits (w - length (show n)) (show n) (show_fuel-IsDigits (suc n) n)

pub pow10 : ℕ → ℕ
pow10 zero = 1
pow10 (suc k) = 10 * pow10 k

length-show_fuel : (f n k : ℕ) → n < pow10 (suc k) → length (show_fuel f n) ≤ suc k
unfolding show_fuel pow10
length-show_fuel zero n k h = omega arith
length-show_fuel (suc f) n zero h = let e : ltb n 10 ≡ true = ground arith in rw e (omega arith)
length-show_fuel (suc f) n (suc k) h = elim (Bool-cases (ltb n 10)) [
  | inl low ↦ rw low (omega arith)
  | inr high ↦ rw high (
      omega (
        arith,
        length-append (show_fuel f (n / 10)) ((48 + n % 10) ∷ []),
        length-show_fuel f (n / 10) k (omega arith),
      ))
]

length-zeros : (k : ℕ) (s : Text) → length (zeros k s) ≡ k + length s
unfolding zeros
length-zeros zero s = omega arith
length-zeros (suc k) s = omega (arith, length-zeros k s)

length-show : (w n : ℕ) → n < pow10 (suc w) → length (show n) ≤ suc w
unfolding show
length-show w n h = length-show_fuel (suc n) n w h

pub length-show_padded : (w n : ℕ) → n < pow10 (suc w) → length (show_padded (suc w) n) ≡ suc w
unfolding show_padded
length-show_padded w n h =
    omega (arith, length-zeros (suc w - length (show n)) (show n), length-show w n h)

pub value-le : (acc : ℕ) (s : Text) → acc ≤ value acc s
unfolding value
value-le acc [] = omega arith
value-le acc (c ∷ s) = omega (arith, value-le (acc * 10 + (c - 48)) s)

-- A text of digits that stands for a 64-bit number is read as the number.
parse_digits-value :
    (acc : ℕ) (s : Text)
    → IsDigits s
    → value acc s < u64_limit
    → parse_digits acc s ≡ some (value acc s)
unfolding parse_digits value
parse_digits-value acc [] h b = refl
parse_digits-value acc (c ∷ s) (d, h) b =
    let e : ltb (acc * 10 + (c - 48)) u64_limit ≡ true =
      ground (arith, value-le (acc * 10 + (c - 48)) s) in
    rw (d, e) (parse_digits-value (acc * 10 + (c - 48)) s h b)

no_sign : (c : ℕ) → is_digit c ≡ true → (c == 43) ≡ false
no_sign c h = ground arith

parse_u64-value :
    (c : ℕ) (s : Text)
    → IsDigits (c ∷ s)
    → value 0 (c ∷ s) < u64_limit
    → parse_u64 (c ∷ s) ≡ some (value 0 (c ∷ s))
unfolding parse_u64 parse_unsigned
parse_u64-value c s h b = rw (no_sign c h.0) (parse_digits-value 0 (c ∷ s) h b)

-- A text of digits that is not empty, and its number.
pub parse_u64-digits :
    (s : Text) (n : ℕ)
    → IsDigits s
    → 0 < length s
    → value 0 s ≡ n
    → n < u64_limit
    → parse_u64 s ≡ some n
parse_u64-digits [] n h l e b = elim l [ ]
parse_u64-digits (c ∷ s) n h l e b = parse_u64-value c s h (omega arith) ∙ ap some e

-- Twenty digits are enough for 64 bits.
pub u64-lt-pow10 : (n : ℕ) → n < u64_limit → n < pow10 20
unfolding pow10
u64-lt-pow10 n h = omega arith
