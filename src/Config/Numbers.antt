-- ===== src/Config/Numbers.antt =====
-- strconv.Atoi, where an int has 64 bits.
use Prim.Native.Char.{code}
use legacy_messenger_ecs_con.Base.{
  ℕ, ◌+◌, ◌-◌, ◌*◌, ◌^◌, ℤ, pos, negsuc, String, Option, none, some, ◌==◌, leb, ltb, ◌&&◌,
  if◌then◌else◌,
}

-- The digits, with the number so far.
unfoldable pub number_of : ℕ → String → Option ℕ
number_of n String.[] = some n
number_of n (String.◌∷◌ c s) =
    let rest = number_of (n * 10 + (code c - b'0')) s in
    if leb b'0' (code c) && leb (code c) b'9' then rest else none

-- At least one digit.
abbrev digits_of : String → Option ℕ
digits_of String.[] = none
digits_of (String.◌∷◌ c s) = number_of 0 (String.◌∷◌ c s)

abbrev positive : Option ℕ → Option ℤ
positive none = none
positive (some n) = if ltb n (2 ^ 63) then some (pos n) else none

abbrev negative : Option ℕ → Option ℤ
negative none = none
negative (some n) =
    if n == 0 then some (pos 0) else if leb n (2 ^ 63) then some (negsuc (n - 1)) else none

unfoldable pub atoi : String → Option ℤ
unfolding number_of
atoi String.[] = none
atoi (String.◌∷◌ c s) =
    if code c == b'-'
    then negative (digits_of s)
    else if code c == b'+'
    then positive (digits_of s)
    else positive (digits_of (String.◌∷◌ c s))
