-- ===== src/Base/Text.antt =====
-- What the program uses of Go's `strings` package, on the native texts. Letters outside ASCII keep
-- their case, but for the four that Go maps into ASCII.
use Prim.Native.Nat.{ℕ, ◌-◌}
use Prim.Native.Char.{Char, code}
use Prim.Native.String.{String}
use mathlib.Core.Bool.{Bool, true, false, ◌&&◌, ◌||◌}
use mathlib.Core.Option.{Option, none, some}
use mathlib.Core.List.{List, [], ◌∷◌}
use text.Mathlib.Text.{◌==◌, starts_with, char_at?}
use agent_comms.Base.Tests.{leb, if◌then◌else◌}

abbrev nat_eq : ℕ → ℕ → Bool
nat_eq a b = leb a b && leb b a

-- unicode.IsSpace
pub is_space : Char → Bool
is_space c =
    let n = code c in
    (leb 9 n && leb n 13)
    || nat_eq n 32
    || nat_eq n 0x85
    || nat_eq n 0xa0
    || nat_eq n 0x1680
    || (leb 0x2000 n && leb n 0x200a)
    || nat_eq n 0x2028
    || nat_eq n 0x2029
    || nat_eq n 0x202f
    || nat_eq n 0x205f
    || nat_eq n 0x3000

pub trim_left : String → String
unfolding is_space
trim_left String.[] = String.[]
trim_left (String.◌∷◌ c s) = let rest = trim_left s in if is_space c then rest else String.◌∷◌ c s

pub trim_right : String → String
unfolding is_space
trim_right String.[] = String.[]
trim_right (String.◌∷◌ c s) =
    let rest = trim_right s in if rest == "" && is_space c then String.[] else String.◌∷◌ c rest

-- strings.TrimSpace
unfoldable pub trim_space : String → String
unfolding trim_left trim_right
trim_space s = trim_right (trim_left s)

abbrev letter_or : Char → Option Char → Char
letter_or c none = c
letter_or c (some d) = d

upper_char : Char → Char
upper_char c =
    let n = code c in
    if leb 97 n && leb n 122
    then letter_or c (char_at? "ABCDEFGHIJKLMNOPQRSTUVWXYZ" (n - 97))
    else if nat_eq n 0x131
    then "I"
    else if nat_eq n 0x17f
    then "S"
    else c

lower_char : Char → Char
lower_char c =
    let n = code c in
    if leb 65 n && leb n 90
    then letter_or c (char_at? "abcdefghijklmnopqrstuvwxyz" (n - 65))
    else if nat_eq n 0x130
    then "i"
    else if nat_eq n 0x212a
    then "k"
    else c

-- strings.ToUpper
unfoldable pub to_upper : String → String
unfolding upper_char
to_upper String.[] = String.[]
to_upper (String.◌∷◌ c s) = String.◌∷◌ (upper_char c) (to_upper s)

-- strings.ToLower
unfoldable pub to_lower : String → String
unfolding lower_char
to_lower String.[] = String.[]
to_lower (String.◌∷◌ c s) = String.◌∷◌ (lower_char c) (to_lower s)

-- strings.EqualFold: simple folding is upper case and then lower case for the letters above.
unfoldable pub equal_fold : String → String → Bool
unfolding to_upper to_lower
equal_fold s t = to_lower (to_upper s) == to_lower (to_upper t)

-- strings.Contains
unfoldable pub contains : String → String → Bool
contains String.[] t = t == ""
contains (String.◌∷◌ c s) t = starts_with (String.◌∷◌ c s) t || contains s t

-- strings.CutPrefix s p; also strings.TrimPrefix where the prefix is known to be there
unfoldable pub cut_prefix : String → String → Option String
cut_prefix s String.[] = some s
cut_prefix String.[] (String.◌∷◌ d p) = none
cut_prefix (String.◌∷◌ c s) (String.◌∷◌ d p) =
    let rest = cut_prefix s p in if nat_eq (code c) (code d) then rest else none

abbrev on_fst : Char → Option (String × String) → Option (String × String)
on_fst c none = none
on_fst c (some (a, b)) = some (String.◌∷◌ c a, b)

-- strings.Cut s "-"
unfoldable pub cut_hyphen : String → Option (String × String)
cut_hyphen String.[] = none
cut_hyphen (String.◌∷◌ c s) =
    let rest = cut_hyphen s in if nat_eq (code c) b'-' then some (String.[], s) else on_fst c rest

-- Every character passes the test; a class of a regular expression.
unfoldable pub every : (ℕ → Bool) → String → Bool
every p String.[] = true
every p (String.◌∷◌ c s) = p (code c) && every p s

-- Equality in a list of texts.
unfoldable pub has : List String → String → Bool
has [] x = false
has (y ∷ ys) x = y == x || has ys x
