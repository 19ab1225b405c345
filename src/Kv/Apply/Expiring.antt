-- ===== src/Kv/Apply/Expiring.antt =====
-- Expiry times and the commands that carry or keep them (`Apply`, internal/kvstore/store.go).
use kver.Prelude.{
  ℕ, ◌*◌, ◌≡◌, ◌≢◌, refl, Bytes, Bool, true, false, Option, none, some, List, ◌∷◌, arith, ltb,
  if◌then◌else◌,
}
use kver.Prelude.Dict
use kver.Prelude.Dict.{get-put_self, get-remove_self, has_of_get}
use kver.Prelude.Int.{ℤ, pos, negsuc}
use kver.Kv.Types.{KvError, ok, err, key_not_found, string}
use kver.Kv.Number.{parse_int, format_int, add_int}
use kver.Kv.Store.{KvStore, is_expired, ttl_set_absolute}
use kver.Kv.Strings
use kver.Kv.Strings.Reads.{set_stored}
use kver.Kv.Apply.{apply_set, apply_add, parse_absolute_ms, set_expiry, dismiss}

-- The expiry time of a command, in milliseconds, has passed; one that is not positive never does.
abbrev pub passed : ℕ → ℤ → Bool
passed later (pos ms) = if ltb 0 ms then ltb (ms * 1_000_000) later else false
passed later (negsuc n) = false

module _ {Z : Type 0} (key : Bytes) where
  get-ttl_set_absolute :
      (later : ℕ) (ms : ℤ) (value : Bytes) (s : KvStore Z)
      → Dict.get s.strings key ≡ some value
      → Dict.get s.key_types key ≡ some string
      → (Strings.get later key (ttl_set_absolute key ms s)).1
        ≡ (if passed later ms then err key_not_found else ok value)
  unfolding Strings.get ttl_set_absolute
  get-ttl_set_absolute later (pos ms) value s stored typed =
      grind (arith, get-put_self, get-remove_self)
  get-ttl_set_absolute later (negsuc n) value s stored typed = grind (arith, get-remove_self)

  dismissed :
      (ms : ℤ) (r : KvStore Z × Option KvError)
      → r.1 ≢ some key_not_found
      → (dismiss (set_expiry key ms r)).1 ≡ none
      → (r.1 ≡ none) × ((dismiss (set_expiry key ms r)).0 ≡ ttl_set_absolute key ms r.0)
  unfolding dismiss set_expiry
  dismissed ms (s, none) ne h = (refl, refl)
  dismissed ms (s, some e) ne h = absurd (ground arith)

  set-ne-key_not_found :
      (now : ℕ) (value : Bytes) (s : KvStore Z)
      → (Strings.set now key value 0 s).1 ≢ some key_not_found
  unfolding Strings.set
  set-ne-key_not_found now value s = ground arith

  -- After a SET that succeeds, GET returns its value until its expiry time, and from then on
  -- nothing; without a positive expiry time it returns the value for good.
  pub apply_set-get :
      (now : ℕ) (value : Bytes) (rest : List Bytes) (s : KvStore Z)
      → (apply_set now (key ∷ value ∷ rest) s).1 ≡ none
      → (later : ℕ)
      → (Strings.get later key (apply_set now (key ∷ value ∷ rest) s).0).1
        ≡ (if passed later (parse_absolute_ms rest) then err key_not_found else ok value)
  unfolding apply_set
  apply_set-get now value rest s h later =
      let ms = parse_absolute_ms rest in
      let r = Strings.set now key value 0 s in
      let (ok_set, store) = dismissed ms r (set-ne-key_not_found now value s) h in
      let (stored, typed, fresh) = set_stored now key value s ok_set in
      rw store (get-ttl_set_absolute later ms value r.0 stored typed)

  -- A command on a key whose expiry time lies between the times of two replicas splits them: the
  -- one that sees the key as expired starts a new counter that never expires, and the other
  -- counts on and keeps the expiry time.
  incr_diverges :
      (t u e : ℕ) (n : ℤ) (text : Bytes) (rest : List Bytes) (s : KvStore Z)
      → Dict.get s.strings key ≡ some text
      → Dict.get s.key_types key ≡ some string
      → Dict.get s.expiry key ≡ some e
      → parse_int text ≡ some n
      → is_expired t key s ≡ false
      → is_expired u key s ≡ true
      → (Dict.get (apply_add (pos 1) t (key ∷ rest) s).0.strings key
          ≡ some (format_int (add_int n (pos 1))))
        × (Dict.get (apply_add (pos 1) t (key ∷ rest) s).0.expiry key ≡ some e)
        × (Dict.get (apply_add (pos 1) u (key ∷ rest) s).0.strings key
            ≡ some (format_int (add_int (pos 0) (pos 1))))
        × (Dict.get (apply_add (pos 1) u (key ∷ rest) s).0.expiry key ≡ none)
  unfolding apply_add
  incr_diverges t u e n text rest s stored typed expiry read at after = (
    grind (arith, get-put_self),
    grind (arith, get-put_self),
    ground (
      arith,
      has_of_get s.strings key stored,
      get-remove_self s.strings key,
      get-remove_self s.key_types key,
      get-put_self (Dict.remove s.strings key) key (format_int (add_int (pos 0) (pos 1))),
    ),
    grind (arith, get-remove_self),
  )
