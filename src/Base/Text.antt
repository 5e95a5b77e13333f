-- ===== src/Base/Text.antt =====
-- Texts: comparison of identifiers and keys, and the `trim` of JavaScript.
use Prim.Native.Nat.{ℕ, zero, suc, ◌/◌, ◌%◌}
use Prim.Native.Char.{code}
use Prim.Native.String.{String, ◌++◌ as text_append}
use mathlib.Core.Path.{◌≡◌, refl}
use mathlib.Core.Bool.{Bool, true, false, ◌&&◌, ◌||◌}
use text.Mathlib.Text.{◌==◌ as text_eq}
use text.Mathlib.TextEquality.{eq_iff}
use multi_marketplace.Base.Tests.{◌==◌, leb, ltb, if◌then◌else◌}

-- `s === t` on texts.
unfoldable pub str_eq : String → String → Bool
str_eq s t = text_eq s t

pub eq_of_str_eq : (s t : String) → str_eq s t ≡ true → s ≡ t
unfolding str_eq
eq_of_str_eq s t h = (eq_iff s t).0 h

pub str_eq_refl : (s : String) → str_eq s s ≡ true
unfolding str_eq
str_eq_refl s = (eq_iff s s).1 refl

-- The white space and line terminators of ECMAScript.
is_space : ℕ → Bool
is_space c =
    (leb 9 c && leb c 13)
    || c == 32
    || c == 160
    || c == 0x1680
    || (leb 0x2000 c && leb c 0x200a)
    || c == 0x2028
    || c == 0x2029
    || c == 0x202f
    || c == 0x205f
    || c == 0x3000
    || c == 0xfeff

trim_start : String → String
unfolding is_space
trim_start String.[] = String.[]
trim_start (String.◌∷◌ c s) =
    let rest = trim_start s in if is_space (code c) then rest else String.◌∷◌ c s

is_empty : String → Bool
is_empty String.[] = true
is_empty (String.◌∷◌ c s) = false

trim_end : String → String
unfolding is_space is_empty
trim_end String.[] = String.[]
trim_end (String.◌∷◌ c s) =
    let rest = trim_end s in
    if is_empty rest && is_space (code c) then String.[] else String.◌∷◌ c rest

-- `s.trim()`.
unfoldable pub trim : String → String
unfolding trim_start trim_end
trim s = trim_end (trim_start s)

-- `!s?.trim()` of a text that is there.
unfoldable pub is_blank : String → Bool
unfolding trim is_empty
is_blank s = is_empty (trim s)

-- `s.trim() || other`.
unfoldable pub trim_or : String → String → String
unfolding trim is_empty
trim_or s other = if is_empty (trim s) then other else trim s

trim_sample : trim "  a b  " ≡ "a b"
unfolding trim
trim_sample = refl

digit : ℕ → String
digit n =
    if n == 0
    then "0"
    else if n == 1
    then "1"
    else if n == 2
    then "2"
    else if n == 3
    then "3"
    else if n == 4
    then "4"
    else if n == 5
    then "5"
    else if n == 6
    then "6"
    else if n == 7
    then "7"
    else if n == 8
    then "8"
    else "9"

-- A number has fewer digits than its successor counts, so the fuel is enough.
decimal_digits : ℕ → ℕ → String
unfolding digit
decimal_digits zero n = ""
decimal_digits (suc fuel) n =
    let rest = decimal_digits fuel (n / 10) in
    if ltb n 10 then digit n else text_append rest (digit (n % 10))

-- `${n}`.
unfoldable pub decimal : ℕ → String
unfolding decimal_digits
decimal n = decimal_digits (suc n) n

decimal_sample : decimal 1075 ≡ "1075"
unfolding decimal
decimal_sample = refl
