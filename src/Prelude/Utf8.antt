-- ===== src/Prelude/Utf8.antt =====
-- `str::from_utf8`: the byte ranges of well-formed UTF-8, by the lead byte.
use hayate.Prelude.Tests.{leb, ltb, ◌==◌, if◌then◌else◌}
use hayate.Prelude.Text.{Text, Bytes}
use hayate.Prelude.Lists.{All}
use Prim.Native.Nat.{ℕ, ◌<◌}
use mathlib.Core.Path.{◌≡◌, refl}
use mathlib.Core.Bool.{Bool, true, false, ◌&&◌}
use mathlib.Core.Option.{Option, none, some}
use mathlib.Core.List.{List, [], ◌∷◌}
use native.Mathlib.Omega.{arith}

-- The ranges of the bytes that must follow a lead byte.
following : ℕ → Option (List (ℕ × ℕ))
following b =
    if ltb b 0x80
    then some []
    else if leb 0xc2 b && leb b 0xdf
    then some ((0x80, 0xbf) ∷ [])
    else if b == 0xe0
    then some ((0xa0, 0xbf) ∷ (0x80, 0xbf) ∷ [])
    else if b == 0xed
    then some ((0x80, 0x9f) ∷ (0x80, 0xbf) ∷ [])
    else if leb 0xe1 b && leb b 0xef
    then some ((0x80, 0xbf) ∷ (0x80, 0xbf) ∷ [])
    else if b == 0xf0
    then some ((0x90, 0xbf) ∷ (0x80, 0xbf) ∷ (0x80, 0xbf) ∷ [])
    else if leb 0xf1 b && leb b 0xf3
    then some ((0x80, 0xbf) ∷ (0x80, 0xbf) ∷ (0x80, 0xbf) ∷ [])
    else if b == 0xf4
    then some ((0x80, 0x8f) ∷ (0x80, 0xbf) ∷ (0x80, 0xbf) ∷ [])
    else none

valid_after : List (ℕ × ℕ) → Bytes → Bool
valid_after [] [] = true
valid_after (r ∷ rs) [] = false
valid_after [] (b ∷ bs) = elim (following b) [ none ↦ false | some rs ↦ valid_after rs bs ]
valid_after ((lo, hi) ∷ rs) (b ∷ bs) = elim (leb lo b && leb b hi) [
  | true ↦ valid_after rs bs
  | false ↦ false
]

unfoldable pub from_utf8 : Bytes → Option Text
unfolding valid_after following
from_utf8 b = if valid_after [] b then some b else none

abbrev pub IsAscii : Text → Type 0
IsAscii = All (λ c. c < 0x80)

valid_after_ascii : (s : Text) → IsAscii s → valid_after [] s ≡ true
unfolding valid_after following
valid_after_ascii [] h = refl
valid_after_ascii (c ∷ s) h = ground (arith, valid_after_ascii s h.1)

pub from_utf8_ascii : (s : Text) → IsAscii s → from_utf8 s ≡ some s
unfolding from_utf8
from_utf8_ascii s h = rw (valid_after_ascii s h)

pub from_utf8_sound : (b t : Bytes) → from_utf8 b ≡ some t → t ≡ b
unfolding from_utf8
from_utf8_sound b t h = ground arith
