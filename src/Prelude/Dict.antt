-- ===== src/Prelude/Dict.antt =====
-- Go's `map[string]V`: an association list without a repeated key. The order of the entries
-- stands for the order of iteration, which Go leaves open.
use kver.Prelude.Text.{Bytes, bytes_eq, bytes_eq_iff, bytes_eq_refl}
use kver.Prelude.Tests.{if◌then◌else◌}
use mathlib.Core.Path.{◌≡◌, refl}
use mathlib.Core.Bool.{Bool, true, false}
use mathlib.Core.Option.{Option, none, some}
use mathlib.Core.List.{List, [], ◌∷◌}
use native.Mathlib.Omega.{arith}

abbrev pub Dict {ℓ} : Type ℓ → Type ℓ
Dict V = List (Bytes × V)

module _ {ℓ} {V : Type ℓ} where
  -- v, ok := m[k]
  unfoldable pub get : Dict V → Bytes → Option V
  get [] k = none
  get ((j, v) ∷ m) k = if bytes_eq j k then some v else get m k

  -- m[k] = v
  unfoldable pub put : Dict V → Bytes → V → Dict V
  put [] k v = (k, v) ∷ []
  put ((j, w) ∷ m) k v = if bytes_eq j k then (k, v) ∷ m else (j, w) ∷ put m k v

  -- delete(m, k)
  unfoldable pub remove : Dict V → Bytes → Dict V
  remove [] k = []
  remove ((j, w) ∷ m) k = let rest = remove m k in if bytes_eq j k then rest else (j, w) ∷ rest

  -- _, ok := m[k]
  unfoldable pub has : Dict V → Bytes → Bool
  unfolding get
  has m k = elim (get m k) [ none ↦ false | some v ↦ true ]

  -- len(m) == 0
  unfoldable pub is_empty : Dict V → Bool
  is_empty [] = true
  is_empty (e ∷ m) = false

  pub get-nil : (k : Bytes) → get [] k ≡ none
  unfolding get
  get-nil k = refl

  pub get-put :
      (m : Dict V) (k j : Bytes) (v : V)
      → get (put m k v) j ≡ (if bytes_eq k j then some v else get m j)
  unfolding get put
  get-put [] k j v = refl
  get-put ((i, w) ∷ m) k j v =
      ground (arith, get-put m k j v, bytes_eq_iff i k, bytes_eq_iff k j, bytes_eq_iff i j)

  pub get-remove :
      (m : Dict V) (k j : Bytes) → get (remove m k) j ≡ (if bytes_eq k j then none else get m j)
  unfolding get remove
  get-remove [] k j = ground arith
  get-remove ((i, w) ∷ m) k j =
      ground (arith, get-remove m k j, bytes_eq_iff i k, bytes_eq_iff k j, bytes_eq_iff i j)

  pub get-put_self : (m : Dict V) (k : Bytes) (v : V) → get (put m k v) k ≡ some v
  get-put_self m k v = simp (get-put, bytes_eq_refl)

  pub get-remove_self : (m : Dict V) (k : Bytes) → get (remove m k) k ≡ none
  get-remove_self m k = simp (get-remove, bytes_eq_refl)

  pub has_of_get : (m : Dict V) (k : Bytes) {v : V} → get m k ≡ some v → has m k ≡ true
  unfolding has
  has_of_get m k h = ground arith

  pub get_of_not_has : (m : Dict V) (k : Bytes) → has m k ≡ false → get m k ≡ none
  unfolding has
  get_of_not_has m k h = ground arith

  -- A map without entries has no key.
  pub get-is_empty : (m : Dict V) (k : Bytes) → is_empty m ≡ true → get m k ≡ none
  unfolding get is_empty
  get-is_empty [] k h = refl
  get-is_empty (e ∷ m) k h = cc

pub ruleset dict_laws = (get-nil, get-put, get-remove)
