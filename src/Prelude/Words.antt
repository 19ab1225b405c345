-- ===== src/Prelude/Words.antt =====
-- encoding/binary: numbers as little-endian bytes, and the parts of a sequence of bytes.
use native.Mathlib.Nat.{pow-suc, suc-add}
use Prim.Native.Nat.{ℕ, zero, suc, ◌+◌, ◌*◌, ◌/◌, ◌%◌, ◌^◌, ◌≤◌, ◌<◌}
use mathlib.Core.Path.{◌≡◌, refl, sym, ap, ◌∙◌}
use mathlib.Core.List.{List, [], ◌∷◌, ◌++◌}
use native.Mathlib.Omega.{arith}
use kver.Prelude.Text.{Bytes}
use kver.Prelude.Lists.{length, take, drop}

-- PutUint32 and PutUint64 at four and eight bytes.
unfoldable pub le_bytes : ℕ → ℕ → Bytes
le_bytes zero n = []
le_bytes (suc k) n = (n % 256) ∷ le_bytes k (n / 256)

-- Uint32 and Uint64
unfoldable pub read_le : Bytes → ℕ
read_le [] = 0
read_le (b ∷ bs) = b + 256 * read_le bs

pub length-le_bytes : (k n : ℕ) → length (le_bytes k n) ≡ k
unfolding le_bytes
length-le_bytes zero n = refl
length-le_bytes (suc k) n = ap suc (length-le_bytes k (n / 256))

pub read_le-le_bytes : (k n : ℕ) → n < 256 ^ k → read_le (le_bytes k n) ≡ n
unfolding le_bytes read_le
read_le-le_bytes zero n h = omega arith
read_le-le_bytes (suc k) n h =
    let power : 256 ^ suc k ≡ 256 ^ k * 256 = pow-suc _ _ in
    omega (arith, read_le-le_bytes k (n / 256) (omega arith))

module _ {ℓ} {A : Type ℓ} where
  pub take-append : (xs ys : List A) → take (length xs) (xs ++ ys) ≡ xs
  take-append [] ys = refl
  take-append (x ∷ xs) ys = ap (◌∷◌ x) (take-append xs ys)

  pub drop-append : (xs ys : List A) → drop (length xs) (xs ++ ys) ≡ ys
  drop-append [] ys = refl
  drop-append (x ∷ xs) ys = drop-append xs ys

  pub take-append_eq : (n : ℕ) (xs ys : List A) → length xs ≡ n → take n (xs ++ ys) ≡ xs
  take-append_eq n xs ys h = ap (λ k. take k (xs ++ ys)) (sym h) ∙ take-append xs ys

  pub drop-append_eq : (n : ℕ) (xs ys : List A) → length xs ≡ n → drop n (xs ++ ys) ≡ ys
  drop-append_eq n xs ys h = ap (λ k. drop k (xs ++ ys)) (sym h) ∙ drop-append xs ys

  drop-append_add : (k : ℕ) (xs ys : List A) → drop (length xs + k) (xs ++ ys) ≡ drop k ys
  drop-append_add k [] ys = ap (λ j. drop j ys) (omega arith)
  drop-append_add k (x ∷ xs) ys =
      ap (λ j. drop j (x ∷ (xs ++ ys))) (suc-add (length xs) k) ∙ drop-append_add k xs ys

  -- A prefix of known length is stepped over.
  pub drop-append_skip :
      (j n k : ℕ) (xs ys : List A) → length xs ≡ n → j ≡ n + k → drop j (xs ++ ys) ≡ drop k ys
  drop-append_skip j n k xs ys h e =
      ap (λ i. drop i (xs ++ ys)) (e ∙ ap (λ i. i + k) (sym h)) ∙ drop-append_add k xs ys

  pub take-append_left : (n : ℕ) (xs ys : List A) → n ≤ length xs → take n (xs ++ ys) ≡ take n xs
  take-append_left zero xs ys h = refl
  take-append_left (suc n) [] ys h = absurd (omega arith)
  take-append_left (suc n) (x ∷ xs) ys h = ap (◌∷◌ x) (take-append_left n xs ys (omega arith))
