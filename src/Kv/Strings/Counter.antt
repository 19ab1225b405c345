-- ===== src/Kv/Strings/Counter.antt =====
-- Counters: `addValue` of internal/kvstore/string.go.
use kver.Prelude.{ℕ, ◌≡◌, Bytes, false, some, arith}
use kver.Prelude.Dict
use kver.Prelude.Dict.{get-put, get-remove, get-put_self, get-remove_self, dict_laws}
use kver.Prelude.Int.{ℤ, pos, negsuc, ◌+ℤ◌}
use kver.Kv.Number.{parse_int, format_int, add_int, wrap_int}
use kver.Kv.Number.RoundTrip.{IsInt, parse_int-format_int}
use kver.Kv.Types.{ok, string}
use kver.Kv.Store.{KvStore, is_expired}
use kver.Kv.Strings.{get, add_value}

-- The sum of two integers that wraps around is an int64.
wrap_int-IsInt : (n : ℤ) → IsInt (wrap_int n)
unfolding wrap_int
wrap_int-IsInt (pos n) = ground arith
wrap_int-IsInt (negsuc n) = ground arith

pub add_int-IsInt : (a b : ℤ) → IsInt (add_int a b)
unfolding add_int
add_int-IsInt a b = wrap_int-IsInt (a +ℤ b)

wrap_int_exact : (n : ℤ) → IsInt n → wrap_int n ≡ n
unfolding wrap_int
wrap_int_exact (pos n) h = ground arith
wrap_int_exact (negsuc n) h = ground arith

-- Without an overflow the sum is exact.
pub add_int_exact : (a b : ℤ) → IsInt (a +ℤ b) → add_int a b ≡ a +ℤ b
unfolding add_int
add_int_exact a b h = wrap_int_exact (a +ℤ b) h

get_stored :
    {Z : Type 0} (now : ℕ) (key text : Bytes) (s : KvStore Z)
    → Dict.get s.strings key ≡ some text
    → Dict.get s.key_types key ≡ some string
    → is_expired now key s ≡ false
    → (get now key s).1 ≡ ok text
unfolding get
get_stored now key text s stored typed live = ground arith

add_stored :
    {Z : Type 0} (now : ℕ) (key : Bytes) (m more : ℤ) (text : Bytes) (s : KvStore Z)
    → Dict.get s.strings key ≡ some text
    → Dict.get s.key_types key ≡ some string
    → is_expired now key s ≡ false
    → parse_int text ≡ some m
    → (add_value now key more s).1 ≡ ok (add_int m more)
unfolding add_value
add_stored now key m more text s stored typed live read = ground arith

module _ {Z : Type 0} (now : ℕ) (key : Bytes) (delta : ℤ) (s : KvStore Z) where
  -- A counter step that succeeds leaves the decimal text of its result, as a string.
  add_value_stored :
      (m : ℤ)
      → (add_value now key delta s).1 ≡ ok m
      → (Dict.get (add_value now key delta s).0.strings key ≡ some (format_int m))
        × (Dict.get (add_value now key delta s).0.key_types key ≡ some string)
        × (is_expired now key (add_value now key delta s).0 ≡ false)
        × IsInt m
  unfolding add_value
  add_value_stored m h = (
    grind (arith, get-put_self),
    grind (arith, get-put_self),
    grind (arith, get-remove_self),
    grind (arith, add_int-IsInt),
  )

  -- After a counter step that succeeds with `m`, and until the key expires, GET returns the
  -- decimal text of `m`, and a further step succeeds with the wrapped sum.
  pub add_value-again :
      (m : ℤ)
      → (add_value now key delta s).1 ≡ ok m
      → (later : ℕ) (more : ℤ) → is_expired later key (add_value now key delta s).0 ≡ false
      → ((get later key (add_value now key delta s).0).1 ≡ ok (format_int m))
        × ((add_value later key more (add_value now key delta s).0).1 ≡ ok (add_int m more))
  add_value-again m h later more live =
      let (stored, typed, fresh, int) = add_value_stored m h in
      let read = parse_int-format_int m int in
      let t = (add_value now key delta s).0 in
      (
        get_stored later key (format_int m) t stored typed live,
        add_stored later key m more (format_int m) t stored typed live read,
      )
