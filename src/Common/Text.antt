-- ===== src/Common/Text.antt =====
-- The methods of a string that the source calls: `trim`, and `toLowerCase` over the ASCII letters.
use Prim.Native.Nat.{ℕ, zero, suc, ◌+◌, ◌-◌}
use Prim.Native.Char.{Char, code}
use Prim.Native.String.{String, [], ◌∷◌}
use mathlib.Core.Path.{◌≡◌, refl}
use mathlib.Core.Bool.{Bool, true, false, ◌&&◌, ◌||◌}
use ai_client_acquisition_os.Common.Tests.{leb, ◌==◌, if◌then◌else◌}

-- White space and line ends of ECMAScript.
unfoldable pub is_space : ℕ → Bool
is_space n =
    (leb 9 n && leb n 13)
    || (n == 32)
    || (n == 160)
    || (n == 5760)
    || (leb 8192 n && leb n 8202)
    || (n == 8232)
    || (n == 8233)
    || (n == 8239)
    || (n == 8287)
    || (n == 12288)
    || (n == 65279)

trim_start : String → String
trim_start [] = []
trim_start (c ∷ s) = let rest = trim_start s in if is_space (code c) then rest else c ∷ s

abbrev is_empty : String → Bool
is_empty [] = true
is_empty (_ ∷ _) = false

trim_end : String → String
trim_end [] = []
trim_end (c ∷ s) =
    let rest = trim_end s in if is_space (code c) && is_empty rest then [] else c ∷ rest

-- `s.trim()`.
unfoldable pub trim : String → String
unfolding trim_start trim_end is_space
trim s = trim_end (trim_start s)

nth_char : String → ℕ → Char → Char
nth_char [] n d = d
nth_char (c ∷ s) zero d = c
nth_char (c ∷ s) (suc n) d = nth_char s n d

lower_char : Char → Char
lower_char c =
    if leb 65 (code c) && leb (code c) 90
    then nth_char "abcdefghijklmnopqrstuvwxyz" (code c - 65) c
    else c

-- `s.toLowerCase()`.
unfoldable pub to_lower : String → String
unfolding lower_char nth_char
to_lower [] = []
to_lower (c ∷ s) = lower_char c ∷ to_lower s

-- `!s` for a string.
abbrev pub is_blank : String → Bool
is_blank s = is_empty s

-- `s.length`: UTF-16 code units.
unfoldable pub utf16_length : String → ℕ
utf16_length [] = 0
utf16_length (c ∷ s) = (if leb 65536 (code c) then 2 else 1) + utf16_length s

trim_test : to_lower (trim "  Ab Z@X.com\n") ≡ "ab z@x.com"
unfolding trim to_lower
trim_test = refl
