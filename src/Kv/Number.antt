-- ===== src/Kv/Number.antt =====
-- What the store uses of Go's strconv: `ParseInt(s, 10, 64)` and `FormatInt(n, 10)`, and the
-- wrap-around of `int64` addition (internal/kvstore/string.go, store.go).
pub mod RoundTrip
use kver.Prelude.{
  ℕ, zero, suc, ◌+◌, ◌-◌, ◌*◌, ◌/◌, ◌%◌, ◌^◌, Bytes, Bool, true, false, ◌&&◌, Option, none, some,
  [], ◌∷◌, ◌++◌, ltb, leb, ◌==◌, if◌then◌else◌,
}
use kver.Prelude.Int.{ℤ, pos, negsuc, ◌+ℤ◌, sub_ℕ, pos_part, neg_part}

abbrev pub i64_half : ℕ
i64_half = 2 ^ 63

-- The digits that follow, read behind the number so far.
unfoldable pub read_digits : ℕ → Bytes → Option ℕ
read_digits n [] = some n
read_digits n (c ∷ rest) =
    let next = read_digits (n * 10 + (c - b'0')) rest in
    if leb b'0' c && leb c b'9' then next else none

unfoldable pub read_number : Bytes → Option ℕ
unfolding read_digits
read_number [] = none
read_number (c ∷ rest) = read_digits 0 (c ∷ rest)

positive : Option ℕ → Option ℤ
positive none = none
positive (some n) = if ltb n i64_half then some (pos n) else none

negative : Option ℕ → Option ℤ
negative none = none
negative (some zero) = some (pos 0)
negative (some (suc n)) = if ltb n i64_half then some (negsuc n) else none

unfoldable pub parse_int : Bytes → Option ℤ
unfolding positive negative
parse_int [] = none
parse_int (c ∷ rest) =
    if c == b'-'
    then negative (read_number rest)
    else if c == b'+'
    then positive (read_number rest)
    else positive (read_number (c ∷ rest))

-- The decimal digits, at most as many as the fuel.
unfoldable pub digits : ℕ → ℕ → Bytes
digits zero n = []
digits (suc fuel) n =
    let front = digits fuel (n / 10) in
    if ltb n 10 then (b'0' + n) ∷ [] else front ++ (b'0' + n % 10) ∷ []

-- A number below 2 ^ 64 has at most twenty digits.
unfoldable pub format_int : ℤ → Bytes
format_int (pos n) = digits 20 n
format_int (negsuc n) = b'-' ∷ digits 20 (suc n)

-- Two's complement: the representative between -2 ^ 63 and 2 ^ 63 - 1.
unfoldable pub wrap_int : ℤ → ℤ
wrap_int (pos n) = let m = n % 2 ^ 64 in if ltb m i64_half then pos m else negsuc (2 ^ 64 - 1 - m)
wrap_int (negsuc n) =
    let m = n % 2 ^ 64 in if ltb m i64_half then negsuc m else pos (2 ^ 64 - 1 - m)

unfoldable pub add_int : ℤ → ℤ → ℤ
unfolding wrap_int ◌+ℤ◌
add_int a b = wrap_int (a +ℤ b)
