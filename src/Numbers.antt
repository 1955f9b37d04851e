-- ===== src/Numbers.antt =====
-- Machine integers and strconv.Atoi, as the program uses them on port numbers.
use Prim.Native.Char.{code}
use ingress_nginx.Prelude.{
  ℕ, zero, suc, ◌+◌, ◌-◌, ◌*◌, ◌%◌, ◌≡◌, refl, ℤ, pos, negsuc, Bool, true, false, ◌&&◌, Option,
  none, some, String, ltb, leb, nat_eq, ◌==◌, if◌then◌else◌,
}

abbrev two_31 : ℕ
two_31 = 2147483648

abbrev two_32 : ℕ
two_32 = 4294967296

abbrev two_63 : ℕ
two_63 = 9223372036854775808

-- The number of a 32-bit pattern in two's complement.
signed : ℕ → ℤ
signed m = if ltb m two_31 then pos m else negsuc (two_32 - m - 1)

-- int32(n)
unfoldable pub int32 : ℤ → ℤ
unfolding signed
int32 (pos n) = signed (n % two_32)
int32 (negsuc n) = signed (two_32 - 1 - n % two_32)

-- The value of a text of decimal digits, after the value `n` of those before them.
digits : ℕ → String → Option ℕ
digits n String.[] = some n
digits n (String.◌∷◌ c s) =
    let rest = digits (10 * n + (code c - b'0')) s in
    if leb b'0' (code c) && leb (code c) b'9' then rest else none

-- At least one digit.
digits1 : String → Option ℕ
unfolding digits
digits1 String.[] = none
digits1 (String.◌∷◌ c s) = digits 0 (String.◌∷◌ c s)

-- What strconv.Atoi returns: the value, and whether there is an error. The value is 0 at a syntax
-- error and the nearest 64-bit integer at a range error.
clamp_pos : Option ℕ → ℤ × Bool
clamp_pos none = (pos 0, true)
clamp_pos (some n) = if ltb n two_63 then (pos n, false) else (pos (two_63 - 1), true)

negate : ℕ → ℤ
negate zero = pos 0
negate (suc n) = negsuc n

clamp_neg : Option ℕ → ℤ × Bool
unfolding negate
clamp_neg none = (pos 0, true)
clamp_neg (some n) = if leb n two_63 then (negate n, false) else (negsuc (two_63 - 1), true)

unfoldable pub atoi : String → ℤ × Bool
unfolding digits1 clamp_pos clamp_neg
atoi String.[] = (pos 0, true)
atoi (String.◌∷◌ c s) =
    if code c == b'-'
    then clamp_neg (digits1 s)
    else if code c == b'+'
    then clamp_pos (digits1 s)
    else clamp_pos (digits1 (String.◌∷◌ c s))

tests :
    (atoi "8080" ≡ (pos 8080, false))
    × (atoi "-1" ≡ (negsuc 0, false))
    × (atoi "http" ≡ (pos 0, true))
    × (atoi "8a" ≡ (pos 0, true))
    × (atoi "" ≡ (pos 0, true))
    × (int32 (pos 4294967295) ≡ negsuc 0)
    × (int32 (negsuc 4294967295) ≡ pos 0)
unfolding atoi int32
tests = (refl, refl, refl, refl, refl, refl, refl)
