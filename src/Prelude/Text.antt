-- ===== src/Prelude/Text.antt =====
-- Go's `strings` functions that the program calls, over the native text.
use Prim.Native.Nat.{ℕ, ◌+◌, ◌-◌, ◌≤◌}
use native.Mathlib.Omega.{arith}
use Prim.Native.Char.{Char, code}
use Prim.Native.String.{String, ◌++◌ as ◌+++◌}
use mathlib.Core.List.{List, [], ◌∷◌}
use mathlib.Core.Bool.{Bool, true, false, not, ◌&&◌, ◌||◌}
use text.Mathlib.Text.{◌==◌ as text_eq, starts_with}
use maintainer_cockpit.Prelude.Tests.{leb, ltb, ◌==◌, if◌then◌else◌, if_both}

abbrev pub str_eq : String → String → Bool
str_eq s t = text_eq s t

-- strings.HasPrefix
abbrev pub has_prefix : String → String → Bool
has_prefix s t = starts_with s t

-- strings.HasSuffix
unfoldable pub has_suffix : String → String → Bool
has_suffix String.[] t = str_eq "" t
has_suffix (String.◌∷◌ c s) t = str_eq (String.◌∷◌ c s) t || has_suffix s t

-- strings.Contains
unfoldable pub contains : String → String → Bool
contains String.[] t = starts_with "" t
contains (String.◌∷◌ c s) t = starts_with (String.◌∷◌ c s) t || contains s t

-- strings.Cut at a character: the text before it, the text after it, and whether it was found
unfoldable pub cut : ℕ → String → String × String × Bool
cut sep String.[] = ("", "", false)
cut sep (String.◌∷◌ c s) =
    let (before, after, found) = cut sep s in
    if code c == sep then ("", s, true) else (String.◌∷◌ c before, after, found)

-- unicode.IsSpace
abbrev pub is_space : ℕ → Bool
is_space c =
    (leb 9 c && leb c 13)
    || c == 32
    || c == 0x85
    || c == 0xa0
    || c == 0x1680
    || (leb 0x2000 c && leb c 0x200a)
    || c == 0x2028
    || c == 0x2029
    || c == 0x202f
    || c == 0x205f
    || c == 0x3000

abbrev is_empty : String → Bool
is_empty s = str_eq s ""

abbrev trim_left : String → String
trim_left String.[] = ""
trim_left (String.◌∷◌ c s) =
    let rest = trim_left s in if is_space (code c) then rest else String.◌∷◌ c s

abbrev trim_right : String → String
trim_right String.[] = ""
trim_right (String.◌∷◌ c s) =
    let rest = trim_right s in if is_space (code c) && is_empty rest then "" else String.◌∷◌ c rest

-- strings.TrimSpace
unfoldable pub trim_space : String → String
trim_space s = trim_right (trim_left s)

-- The bytes of a character in UTF-8.
abbrev width : ℕ → ℕ
width c = if ltb c 0x80 then 1 else if ltb c 0x800 then 2 else if ltb c 0x10000 then 3 else 4

-- len(s)
unfoldable pub byte_length : String → ℕ
byte_length String.[] = 0
byte_length (String.◌∷◌ c s) = width (code c) + byte_length s

-- A character in front of the first text.
abbrev with_first : Char → List String → List String
with_first c [] = String.◌∷◌ c "" ∷ []
with_first c (s ∷ ss) = String.◌∷◌ c s ∷ ss

-- strings.Split at a character
unfoldable pub split : ℕ → String → List String
split sep String.[] = "" ∷ []
split sep (String.◌∷◌ c s) =
    let rest = split sep s in if code c == sep then "" ∷ rest else with_first c rest

-- strings.Join
unfoldable pub join : String → List String → String
join sep [] = ""
join sep (s ∷ []) = s
join sep (s ∷ t ∷ ts) = s +++ (sep +++ join sep (t ∷ ts))

-- Whether a text is in a list.
abbrev pub is_member : String → List String → Bool
is_member s [] = false
is_member s (t ∷ ts) = str_eq s t || is_member s ts

abbrev begins_field : String → Bool
begins_field String.[] = false
begins_field (String.◌∷◌ c s) = not (is_space (code c))

-- strings.Fields
unfoldable pub fields : String → List String
fields String.[] = []
fields (String.◌∷◌ c s) =
    let rest = fields s in
    if is_space (code c)
    then rest
    else if begins_field s
    then with_first c rest
    else String.◌∷◌ c "" ∷ rest

-- utf8.RuneCountInString
unfoldable pub rune_count : String → ℕ
rune_count String.[] = 0
rune_count (String.◌∷◌ c s) = 1 + rune_count s

-- The longest prefix of whole characters within a number of bytes.
unfoldable pub truncate_bytes : String → ℕ → String
truncate_bytes String.[] limit = ""
truncate_bytes (String.◌∷◌ c s) limit =
    let rest = truncate_bytes s (limit - width (code c)) in
    if leb (width (code c)) limit then String.◌∷◌ c rest else ""

pub byte_length-truncate_bytes :
    (s : String) (limit : ℕ) → byte_length (truncate_bytes s limit) ≤ limit
unfolding byte_length truncate_bytes
byte_length-truncate_bytes String.[] limit = omega arith
byte_length-truncate_bytes (String.◌∷◌ c s) limit =
    if_both (λ t. byte_length t ≤ limit) (leb (width (code c)) limit)
      (λ e. ground (arith, byte_length-truncate_bytes s (limit - width (code c))))
      (λ _. omega arith)
