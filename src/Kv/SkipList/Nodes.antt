-- ===== src/Kv/SkipList/Nodes.antt =====
-- The list of the nodes of internal/kvstore/skiplist.go when one is put between others, or taken
-- from between them, and the links back.
use kver.Prelude.{
  ℕ, ◌≤◌, ◌≡◌, ◌≢◌, refl, sym, ap, ◌∙◌, arith, false, ◌||◌, List, [], ◌∷◌, ◌++◌, ltb, ◌==◌,
  if◌then◌else◌, All,
}
use kver.Kv.SkipList.Links.{has, Distinct, last_on}
use kver.Kv.SkipList.Relink.{All-apart}
use kver.Kv.SkipList.Shape.{Back}

pub All-insert : (P : ℕ → Type 0) (b c : List ℕ) (x : ℕ) → P x → All P (b ++ c) → All P (b ++ x ∷ c)
All-insert P [] c x p ps = (p, ps)
All-insert P (y ∷ b) c x p (q, ps) = (q, All-insert P b c x p ps)

pub All-delete : (P : ℕ → Type 0) (b c : List ℕ) (x : ℕ) → All P (b ++ x ∷ c) → All P (b ++ c)
All-delete P [] c x (p, ps) = ps
All-delete P (y ∷ b) c x (q, ps) = (q, All-delete P b c x ps)

pub All-at : (P : ℕ → Type 0) (b c : List ℕ) (x : ℕ) → All P (b ++ x ∷ c) → P x
All-at P [] c x (p, ps) = p
All-at P (y ∷ b) c x (q, ps) = All-at P b c x ps

pub All-left : (P : ℕ → Type 0) (b c : List ℕ) → All P (b ++ c) → All P b
All-left P [] c ps = tt
All-left P (y ∷ b) c (q, ps) = (q, All-left P b c ps)

pub All-right : (P : ℕ → Type 0) (b c : List ℕ) → All P (b ++ c) → All P c
All-right P [] c ps = ps
All-right P (y ∷ b) c (q, ps) = All-right P b c ps

pub Distinct-right : (b c : List ℕ) → Distinct (b ++ c) → Distinct c
Distinct-right [] c d = d
Distinct-right (y ∷ b) c (real, out, d) = Distinct-right b c d

pub All-map : (P Q : ℕ → Type 0) (b : List ℕ) → ((x : ℕ) → P x → Q x) → All P b → All Q b
All-map P Q [] f ps = tt
All-map P Q (y ∷ b) f (q, ps) = (f y q, All-map P Q b f ps)

has-insert : (a : ℕ) (b c : List ℕ) (x : ℕ) → has a (b ++ x ∷ c) ≡ ((a == x) || has a (b ++ c))
has-insert a [] c x = refl
has-insert a (y ∷ b) c x = let rest = has-insert a b c x in ground arith

All-away : (c : List ℕ) (x : ℕ) → All (λ y. y ≢ x) c → has x c ≡ false
All-away [] x away = refl
All-away (y ∷ c) x (far, away) =
    let rest = All-away c x away in let far' : y ≢ x = far in ground arith

pub Distinct-insert :
    (b c : List ℕ) (x : ℕ)
    → x ≢ 0
    → All (λ y. y ≢ x) (b ++ c)
    → Distinct (b ++ c)
    → Distinct (b ++ x ∷ c)
Distinct-insert [] c x real away d = (real, All-away c x away, d)
Distinct-insert (y ∷ b) c x real (far, away) (real', out, d) =
    let split = has-insert y b c x in (real', ground arith, Distinct-insert b c x real away d)

pub Distinct-delete : (b c : List ℕ) (x : ℕ) → Distinct (b ++ x ∷ c) → Distinct (b ++ c)
Distinct-delete [] c x (real, out, d) = d
Distinct-delete (y ∷ b) c x (real', out, d) =
    let split = has-insert y b c x in (real', ground arith, Distinct-delete b c x d)

-- The last of these nodes, or `q`.
abbrev pub end_of : ℕ → List ℕ → ℕ
end_of q [] = q
end_of q (x ∷ xs) = end_of x xs

pub last_on-end_of :
    (h : ℕ → ℕ) (p : ℕ) (xs : List ℕ) → All (λ x. 1 ≤ h x) xs → last_on h 0 p xs ≡ end_of p xs
unfolding last_on
last_on-end_of h p [] tall = refl
last_on-end_of h p (x ∷ xs) (t, tall) =
    let on : (if ltb 0 (h x) then x else p) ≡ x = ground arith in
    ap (λ q. last_on h 0 q xs) on ∙ last_on-end_of h x xs tall

pub end_of-apart : (p x : ℕ) (xs : List ℕ) → p ≢ x → has p xs ≡ false → end_of x xs ≢ p
end_of-apart p x [] far out = λ e. far (sym e)
end_of-apart p x (y ∷ xs) far out = end_of-apart p y xs (λ e. absurd (ground arith)) (ground arith)

-- The links back do not change on these nodes.
Back-same :
    (b b' : ℕ → ℕ) (q t t' : ℕ) (xs : List ℕ)
    → t' ≡ t
    → All (λ a. b' a ≡ b a) xs
    → Back b q xs t
    → Back b' q xs t'
Back-same b b' q t t' [] e same h = e ∙ h
Back-same b b' q t t' (x ∷ xs) e (s, same) (h, rest) = (s ∙ h, Back-same b b' x t t' xs e same rest)

-- What the links back are after the nodes before, for the nodes after them.
abbrev pub Backed : (ℕ → ℕ) → (ℕ → ℕ) → ℕ → ℕ → ℕ → List ℕ → Type 0
Backed b b' t t' new [] = t' ≡ new
Backed b b' t t' new (y ∷ ys) = (t' ≡ t) × (b' y ≡ new) × All (λ a. b' a ≡ b a) ys

pub Back-insert :
    (b b' : ℕ → ℕ) (q t t' new : ℕ) (xs ys : List ℕ)
    → b' new ≡ end_of q xs
    → All (λ a. b' a ≡ b a) xs
    → Backed b b' t t' new ys
    → Back b q (xs ++ ys) t
    → Back b' q (xs ++ new ∷ ys) t'
Back-insert b b' q t t' new [] [] e same done h = (e, done)
Back-insert b b' q t t' new [] (y ∷ ys) e same (tail, next, kept) (h, rest) =
    (e, (next, Back-same b b' y t t' ys tail kept rest))
Back-insert b b' q t t' new (x ∷ xs) ys e (s, same) done (h, rest) =
    (s ∙ h, Back-insert b b' x t t' new xs ys e same done rest)

pub Back-delete :
    (b b' : ℕ → ℕ) (q t t' gone : ℕ) (xs ys : List ℕ)
    → All (λ a. b' a ≡ b a) xs
    → Backed b b' t t' (b gone) ys
    → Back b q (xs ++ gone ∷ ys) t
    → Back b' q (xs ++ ys) t'
Back-delete b b' q t t' gone [] [] same done (h, rest) = done ∙ h
Back-delete b b' q t t' gone [] (y ∷ ys) same (tail, next, kept) (h, (h', rest)) =
    (next ∙ h, Back-same b b' y t t' ys tail kept rest)
Back-delete b b' q t t' gone (x ∷ xs) ys (s, same) done (h, rest) =
    (s ∙ h, Back-delete b b' x t t' gone xs ys same done rest)

-- A node is not nil, and none of the others.
pub Distinct-at : (b c : List ℕ) (x : ℕ) → Distinct (b ++ x ∷ c) → x ≢ 0
Distinct-at [] c x (real, out, d) = real
Distinct-at (y ∷ b) c x (real, out, d) = Distinct-at b c x d

pub Distinct-apart : (b c : List ℕ) (x : ℕ) → Distinct (b ++ x ∷ c) → All (λ y. y ≢ x) (b ++ c)
Distinct-apart [] c x (real, out, d) = All-apart x c out
Distinct-apart (y ∷ b) c x (real, out, d) =
    let split = has-insert y b c x in ((λ e. absurd (ground arith)), Distinct-apart b c x d)
