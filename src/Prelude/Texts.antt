-- ===== src/Prelude/Texts.antt =====
-- The operations on JavaScript strings that the source uses, by code points: on texts without
-- surrogate pairs these are its code units.
use Prim.Native.Nat.{ℕ, zero, suc, ◌-◌}
use Prim.Native.Char.{Char, code}
use Prim.Native.String
use Prim.Native.String.{String, [], ◌∷◌}
use mathlib.Core.Bool.{Bool, true, false, not, ◌&&◌, ◌||◌}
use mathlib.Core.List.{List}
use blueballs.Prelude.Lists.{keep}
use blueballs.Prelude.Tests.{str_eq, ltb, leb, ◌==◌, if◌then◌else◌}

-- `s < t`
unfoldable pub str_ltb : String → String → Bool
str_ltb [] [] = false
str_ltb [] (d ∷ t) = true
str_ltb (c ∷ s) [] = false
str_ltb (c ∷ s) (d ∷ t) =
    if ltb (code c) (code d) then true else (if code c == code d then str_ltb s t else false)

-- `s.length === 0`
abbrev pub is_empty : String → Bool
is_empty [] = true
is_empty (c ∷ s) = false

-- A template literal puts texts together.
infixr 65 ◌^^◌
abbrev pub ◌^^◌ : String → String → String
s ^^ t = String.◌++◌ s t

-- The white space and line ends that `trim` removes.
abbrev is_space : ℕ → Bool
is_space n =
    (leb 9 n && leb n 13)
    || n == 32
    || n == 160
    || n == 0x1680
    || (leb 0x2000 n && leb n 0x200a)
    || n == 0x2028
    || n == 0x2029
    || n == 0x202f
    || n == 0x205f
    || n == 0x3000
    || n == 0xfeff

abbrev pub trim_start : String → String
trim_start [] = []
trim_start (c ∷ s) = if is_space (code c) then trim_start s else c ∷ s

abbrev trim_after : Char → String → String
trim_after c [] = if is_space (code c) then [] else c ∷ []
trim_after c (d ∷ s) = c ∷ d ∷ s

abbrev pub trim_end : String → String
trim_end [] = []
trim_end (c ∷ s) = trim_after c (trim_end s)

-- `s.trim()`
abbrev pub trim : String → String
trim s = trim_end (trim_start s)

-- `toUpperCase` and `toLowerCase`, on the letters of ASCII; other characters stay.
abbrev upper_char : Char → Char
upper_char c =
    if leb 97 (code c) && leb (code c) 122
    then String.char_at "ABCDEFGHIJKLMNOPQRSTUVWXYZ" (code c - 97)
    else c

abbrev pub upper : String → String
upper [] = []
upper (c ∷ s) = upper_char c ∷ upper s

abbrev lower_char : Char → Char
lower_char c =
    if leb 65 (code c) && leb (code c) 90
    then String.char_at "abcdefghijklmnopqrstuvwxyz" (code c - 65)
    else c

abbrev pub lower : String → String
lower [] = []
lower (c ∷ s) = lower_char c ∷ lower s

-- `s.startsWith(p)`
abbrev pub starts_with : String → String → Bool
starts_with s [] = true
starts_with [] (c ∷ p) = false
starts_with (d ∷ s) (c ∷ p) = (code d == code c) && starts_with s p

-- `s.includes(p)`
abbrev pub includes : String → String → Bool
includes [] p = is_empty p
includes (c ∷ s) p = starts_with (c ∷ s) p || includes s p

-- `[...new Set(xs)]`: the first of equal texts stays.
unfoldable pub unique : List String → List String
unique List.[] = List.[]
unique (List.◌∷◌ x xs) = List.◌∷◌ x (keep (λ y. not (str_eq x y)) (unique xs))

-- `s.length`, on texts without surrogate pairs.
abbrev pub text_length : String → ℕ
text_length [] = 0
text_length (c ∷ s) = suc (text_length s)

-- `s.slice(0, n)`
abbrev pub take_chars : ℕ → String → String
take_chars zero s = []
take_chars (suc n) [] = []
take_chars (suc n) (c ∷ s) = c ∷ take_chars n s
