-- ===== src/Kv/Number/RoundTrip.antt =====
-- A number that the store writes (`strconv.FormatInt`) reads back as itself (`strconv.ParseInt`).
use mathlib.Core.List.{append_assoc, append-nil}
use native.Mathlib.Nat.{pow-suc}
use kver.Prelude.{
  ℕ, zero, suc, ◌+◌, ◌-◌, ◌*◌, ◌/◌, ◌%◌, ◌^◌, ◌≤◌, ◌<◌, ◌≡◌, refl, ap, sym, ◌∙◌, Bytes, some, [],
  ◌∷◌, ◌++◌, arith, ltb, Bool-cases, inl, inr,
}
use kver.Prelude.Int.{ℤ, pos, negsuc}
use kver.Kv.Number.{i64_half, read_digits, read_number, parse_int, digits, format_int}

tenth : (fuel n : ℕ) → n < 10 ^ suc (suc fuel) → n / 10 < 10 ^ suc fuel
tenth fuel n h = let power : 10 ^ suc (suc fuel) ≡ 10 ^ suc fuel * 10 = pow-suc _ _ in omega arith

digits_small : (fuel n : ℕ) → n < 10 → digits (suc fuel) n ≡ (b'0' + n) ∷ []
unfolding digits
digits_small fuel n h = ground arith

digits_large :
    (fuel n : ℕ) → 10 ≤ n → digits (suc fuel) n ≡ digits fuel (n / 10) ++ (b'0' + n % 10) ∷ []
unfolding digits
digits_large fuel n h = ground arith

read_digit :
    (a d : ℕ) (rest : Bytes)
    → d < 10
    → read_digits a ((b'0' + d) ∷ rest) ≡ read_digits (a * 10 + d) rest
unfolding read_digits
read_digit a d rest h = let digit : b'0' + d - b'0' ≡ d = omega arith in rw digit (ground arith)

read_digits-digits :
    (fuel n : ℕ) (rest : Bytes)
    → n < 10 ^ suc fuel
    → read_digits 0 (digits (suc fuel) n ++ rest) ≡ read_digits n rest
read_digits-digits zero n rest h =
    rw (digits_small zero n h) (read_digit 0 n rest h ∙ ap (λ k. read_digits k rest) (omega arith))
read_digits-digits (suc fuel) n rest h = elim (Bool-cases (ltb n 10)) [
  | inl small ↦
      rw (digits_small (suc fuel) n (ground arith))
        (read_digit 0 n rest (ground arith) ∙ ap (λ k. read_digits k rest) (omega arith))
  | inr large ↦
      rw (digits_large (suc fuel) n (ground arith), append_assoc)
        (read_digits-digits fuel (n / 10) ((b'0' + n % 10) ∷ rest) (tenth fuel n h)
          ∙ read_digit (n / 10) (n % 10) rest (omega arith)
          ∙ ap (λ k. read_digits k rest) (omega arith))
]

digits_head :
    (fuel n : ℕ)
    → (c : ℕ) × (rest : Bytes) × (digits (suc fuel) n ≡ c ∷ rest) × (b'0' ≤ c) × (c ≤ b'9')
digits_head zero n = elim (Bool-cases (ltb n 10)) [
  | inl small ↦ (b'0' + n, [], digits_small zero n (ground arith), omega arith, ground arith)
  | inr large ↦ (
    b'0' + n % 10,
    [],
    digits_large zero n (ground arith) ∙ (unfold digits in refl),
    omega arith,
    omega arith,
  )
]
digits_head (suc fuel) n = elim (Bool-cases (ltb n 10)) [
  | inl small ↦ (b'0' + n, [], digits_small (suc fuel) n (ground arith), omega arith, ground arith)
  | inr large ↦
      let (c, rest, front, lo, hi) = digits_head fuel (n / 10) in
      (
        c,
        rest ++ (b'0' + n % 10) ∷ [],
        digits_large (suc fuel) n (ground arith)
            ∙ ap (λ (xs : Bytes). xs ++ (b'0' + n % 10) ∷ []) front,
        lo,
        hi,
      )
]

-- The integers that fit int64.
abbrev pub IsInt : ℤ → Type 0
IsInt (pos n) = n < i64_half
IsInt (negsuc n) = n < i64_half

read_number-digits : (n : ℕ) → n < 2 ^ 64 → read_number (digits 20 n) ≡ some n
unfolding read_number
read_number-digits n h =
    let (c, rest, head, lo, hi) = digits_head 19 n in
    rw head (
      ap (read_digits 0) (sym head ∙ sym (append-nil (digits 20 n)))
      ∙ read_digits-digits 19 n [] (omega arith)
      ∙ (unfold read_digits in refl))

-- An int64 that the store writes reads back as itself.
pub parse_int-format_int : (n : ℤ) → IsInt n → parse_int (format_int n) ≡ some n
unfolding parse_int format_int
parse_int-format_int (pos n) h =
    let (c, rest, head, lo, hi) = digits_head 19 n in
    let read : read_number (c ∷ rest) ≡ some n =
      sym (ap read_number head) ∙ read_number-digits n (omega arith) in
    ap parse_int head ∙ ground arith
parse_int-format_int (negsuc n) h = ground (arith, read_number-digits (suc n))
