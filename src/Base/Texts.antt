-- ===== src/Base/Texts.antt =====
-- What the adapters use of Go's packages strings and fmt, on texts as lists of code points.
use Prim.Native.Char.{Char, code}
use Prim.Native.Nat.{ℕ, suc, zero, ◌+◌, ◌/◌, ◌%◌}
use Prim.Native.String.{String, ◌++◌ as str_append}
use mathlib.Core.Bool.{Bool, true, false, ◌&&◌}
use mathlib.Core.Option.{Option, none, some}
use mathlib.Core.List.{List, [], ◌∷◌}
use legacy_messenger_ecs_con.Base.Tests.{◌==◌, if◌then◌else◌, leb}

abbrev pub add_to_first : Char → List String → List String
add_to_first c [] = String.◌∷◌ c String.[] ∷ []
add_to_first c (part ∷ parts) = String.◌∷◌ c part ∷ parts

-- strings.Split at one character. The result is never empty.
unfoldable pub split : ℕ → String → List String
split sep String.[] = String.[] ∷ []
split sep (String.◌∷◌ c s) =
    let parts = split sep s in if code c == sep then String.[] ∷ parts else add_to_first c parts

-- parts[len(parts)-1]
unfoldable pub last : List String → String
last [] = ""
last (part ∷ []) = part
last (part ∷ next ∷ parts) = last (next ∷ parts)

unfoldable pub text_length : String → ℕ
text_length String.[] = 0
text_length (String.◌∷◌ c s) = suc (text_length s)

-- s[n:]
unfoldable pub text_from : ℕ → String → String
text_from zero s = s
text_from (suc n) String.[] = String.[]
text_from (suc n) (String.◌∷◌ c s) = text_from n s

abbrev pub later_index : Bool → Option ℕ → Option ℕ
later_index here (some i) = some (suc i)
later_index true none = some 0
later_index false none = none

-- strings.LastIndex of one character.
unfoldable pub last_index : ℕ → String → Option ℕ
last_index sep String.[] = none
last_index sep (String.◌∷◌ c s) = later_index (code c == sep) (last_index sep s)

unfoldable pub has_prefix : String → String → Bool
has_prefix String.[] s = true
has_prefix (String.◌∷◌ c p) String.[] = false
has_prefix (String.◌∷◌ c p) (String.◌∷◌ d s) = code c == code d && has_prefix p s

abbrev next_index : Option ℕ → Option ℕ
next_index none = none
next_index (some i) = some (suc i)

-- strings.Index of a marker that is not empty.
unfoldable pub index : String → String → Option ℕ
unfolding has_prefix
index marker String.[] = none
index marker (String.◌∷◌ c s) =
    let rest = index marker s in
    if has_prefix marker (String.◌∷◌ c s) then some 0 else next_index rest

-- unicode.ToLower, as far as the result is ASCII: a letter outside ASCII stays outside, but for U+0130
-- and U+212A, which become i and k.
unfoldable pub lower : ℕ → ℕ
lower n =
    if leb b'A' n && leb n b'Z'
    then n + 32
    else if n == 0x130
    then b'i'
    else if n == 0x212a
    then b'k'
    else n

-- strings.ToLower(s) == t, at an ASCII text t.
unfoldable pub lowers_to : String → String → Bool
unfolding lower
lowers_to String.[] String.[] = true
lowers_to String.[] (String.◌∷◌ d t) = false
lowers_to (String.◌∷◌ c s) String.[] = false
lowers_to (String.◌∷◌ c s) (String.◌∷◌ d t) = lower (code c) == code d && lowers_to s t

digit : ℕ → String
digit n =
    if n == 0
    then "0"
    else if n == 1
    then "1"
    else if n == 2
    then "2"
    else if n == 3
    then "3"
    else if n == 4
    then "4"
    else if n == 5
    then "5"
    else if n == 6
    then "6"
    else if n == 7
    then "7"
    else if n == 8
    then "8"
    else "9"

-- The digits of a number below 10 ^ fuel.
digits : ℕ → ℕ → String
digits zero n = ""
digits (suc fuel) n =
    let more = str_append (digits fuel (n / 10)) (digit (n % 10)) in
    if leb n 9 then digit n else more

-- %d
unfoldable pub sprint_int : ℕ → String
unfolding digit digits
sprint_int n = digits (suc n) n
