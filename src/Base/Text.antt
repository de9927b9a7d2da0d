-- ===== src/Base/Text.antt =====
-- Texts. `String` is the native one; `trim`, `eq_ignore_ascii_case` and decimal printing are
-- those of Rust's standard library.
use Prim.Native.Nat.{ℕ, zero, suc, ◌+◌, ◌-◌, ◌*◌, ◌/◌, ◌%◌}
use Prim.Native.Char.{code}
use Prim.Native.String.{String, ◌++◌}
use mathlib.Core.Path.{◌≡◌, refl}
use mathlib.Core.Bool.{Bool, true, false, ◌&&◌, ◌||◌}
use mathlib.Core.List.{List, [], ◌∷◌, reverse, map}
use text.Mathlib.Text.{◌==◌ as str_eq}
use mathlib.Core.Option.{Option, none, some}
use flowtile_wm.Base.Tests.{if◌then◌else◌, ltb, leb, ◌==◌, is_some}

abbrev pub eq_text : String → String → Bool
eq_text = str_eq

abbrev pub codes : String → List ℕ
codes String.[] = []
codes (String.◌∷◌ c s) = code c ∷ codes s

-- The code points that have the Unicode property White_Space.
abbrev is_whitespace : ℕ → Bool
is_whitespace c =
    (leb 9 c && leb c 13)
    || c == 32
    || c == 133
    || c == 160
    || c == 5760
    || (leb 8192 c && leb c 8202)
    || c == 8232
    || c == 8233
    || c == 8239
    || c == 8287
    || c == 12288

unfoldable pub trim_start : List ℕ → List ℕ
trim_start [] = []
trim_start (c ∷ s) = let rest = trim_start s in if is_whitespace c then rest else c ∷ s

-- `str::trim`.
abbrev pub trim : List ℕ → List ℕ
trim s = reverse (trim_start (reverse (trim_start s)))

abbrev pub to_ascii_lower : ℕ → ℕ
to_ascii_lower c = if leb 65 c && leb c 90 then c + 32 else c

abbrev pub eq_codes : List ℕ → List ℕ → Bool
eq_codes [] [] = true
eq_codes (a ∷ s) (b ∷ t) = a == b && eq_codes s t
eq_codes _ _ = false

-- `str::eq_ignore_ascii_case`.
abbrev pub eq_ignore_ascii_case : List ℕ → List ℕ → Bool
eq_ignore_ascii_case s t = eq_codes (map to_ascii_lower s) (map to_ascii_lower t)

abbrev digit : ℕ → String
digit n =
    if n == 0
    then "0"
    else if n == 1
    then "1"
    else if n == 2
    then "2"
    else if n == 3
    then "3"
    else if n == 4
    then "4"
    else if n == 5
    then "5"
    else if n == 6
    then "6"
    else if n == 7
    then "7"
    else if n == 8
    then "8"
    else "9"

abbrev decimal_from : ℕ → ℕ → String
decimal_from zero n = ""
decimal_from (suc more) n =
    let longer = decimal_from more (n / 10) ++ digit (n % 10) in
    if ltb n 10 then digit n else longer

-- The digits of a `u64`, of which there are at most twenty.
unfoldable pub decimal : ℕ → String
decimal n = decimal_from 20 n

decimal_test : decimal 1024 ≡ "1024"
unfolding decimal
decimal_test = refl

-- `str::starts_with`, with what follows; `strip_suffix`; and `contains`.
unfoldable pub after_prefix : List ℕ → List ℕ → Option (List ℕ)
after_prefix [] s = some s
after_prefix (a ∷ p) [] = none
after_prefix (a ∷ p) (b ∷ s) = let rest = after_prefix p s in if a == b then rest else none

unfoldable pub strip_suffix : List ℕ → List ℕ → List ℕ
strip_suffix suffix s = elim (after_prefix (reverse suffix) (reverse s)) [
  | none ↦ s
  | some rest ↦ reverse rest
]

unfoldable pub contains_text : List ℕ → List ℕ → Bool
contains_text part [] = is_some (after_prefix part [])
contains_text part (c ∷ s) = is_some (after_prefix part (c ∷ s)) || contains_text part s

abbrev pub to_ascii_upper : ℕ → ℕ
to_ascii_upper c = if leb 97 c && leb c 122 then c - 32 else c

-- `str::split` at a code point.
abbrev prepend : ℕ → List (List ℕ) → List (List ℕ)
prepend c [] = (c ∷ []) ∷ []
prepend c (part ∷ parts) = (c ∷ part) ∷ parts

unfoldable pub split : ℕ → List ℕ → List (List ℕ)
split separator [] = [] ∷ []
split separator (c ∷ s) =
    let rest = split separator s in if c == separator then [] ∷ rest else prepend c rest

-- `str::parse::<u32>`: digits, after a plus sign or not, of a number below 2^32.
abbrev digits_from : ℕ → List ℕ → Option ℕ
digits_from value [] = some value
digits_from value (c ∷ s) =
    let next = value * 10 + (c - 48) in
    let rest = digits_from next s in
    if leb 48 c && leb c 57 && ltb next 4294967296 then rest else none

abbrev unsigned : List ℕ → Option ℕ
unsigned [] = none
unsigned (c ∷ s) = digits_from 0 (c ∷ s)

unfoldable pub parse_u32 : List ℕ → Option ℕ
parse_u32 [] = none
parse_u32 (c ∷ s) = if c == 43 then unsigned s else unsigned (c ∷ s)

parse_u32_test : parse_u32 (codes "24") ≡ some 24
unfolding parse_u32
parse_u32_test = refl
