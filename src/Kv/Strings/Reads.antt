-- ===== src/Kv/Strings/Reads.antt =====
-- What a read returns after a write of internal/kvstore/string.go.
use kver.Prelude.{ℕ, ◌≡◌, Bytes, false, none, some, arith}
use kver.Prelude.Dict
use kver.Prelude.Dict.{get-put, get-remove, get-put_self, get-remove_self, dict_laws}
use kver.Kv.Types.{ok, string}
use kver.Kv.Store.{KvStore, is_expired}
use kver.Kv.Strings.{set, get}

-- What is stored under a key, as far as strings go.
module _ {Z : Type 0} (now : ℕ) (key value : Bytes) (s : KvStore Z) where
  -- A write of a string that succeeds leaves the string, its type, and no other expiry time than
  -- one that has not passed.
  pub set_stored :
      (set now key value 0 s).1 ≡ none
      → (Dict.get (set now key value 0 s).0.strings key ≡ some value)
        × (Dict.get (set now key value 0 s).0.key_types key ≡ some string)
        × (is_expired now key (set now key value 0 s).0 ≡ false)
  unfolding set
  set_stored h =
      (grind (arith, get-put_self), grind (arith, get-put_self), grind (arith, get-remove_self))

  -- A GET at any time up to the expiry time that is left returns what a SET has stored.
  pub get-set :
      (set now key value 0 s).1 ≡ none
      → (later : ℕ) → is_expired later key (set now key value 0 s).0 ≡ false
      → get later key (set now key value 0 s).0 ≡ ((set now key value 0 s).0, ok value)
  unfolding get
  get-set h later live = let (stored, typed, fresh) = set_stored h in grind arith
