-- ===== src/Kv/Lists/Sequence.antt =====
-- The pushes and pops of internal/kvstore/list.go as operations on a sequence.
use mathlib.Core.List.{reverse, append-nil, append_assoc, reverse-append}
use kver.Prelude.{◌≡◌, refl, sym, ◌∙◌, Bytes, some, List, [], ◌∷◌, ◌++◌}
use kver.Kv.Lists.{push_front_all, push_back_all, pop_back}

-- LPush puts its values in front, the last one first.
pub push_front_all_lem : (values ll : List Bytes) → push_front_all values ll ≡ reverse values ++ ll
unfolding push_front_all
push_front_all_lem [] ll = refl
push_front_all_lem (v ∷ values) ll =
    push_front_all_lem values (v ∷ ll) ∙ (simp (reverse-append (v ∷ []) values, append_assoc))

-- RPush puts its values behind, in order.
pub push_back_all_lem : (values ll : List Bytes) → push_back_all values ll ≡ ll ++ values
unfolding push_back_all
push_back_all_lem [] ll = sym (append-nil ll)
push_back_all_lem (v ∷ values) ll =
    push_back_all_lem values (ll ++ v ∷ []) ∙ append_assoc ll (v ∷ []) values

-- Popping at the back undoes a push at the back.
pub pop_back-append : (ll : List Bytes) (v : Bytes) → pop_back (ll ++ v ∷ []) ≡ some (v, ll)
unfolding pop_back
pop_back-append [] v = refl
pop_back-append (x ∷ ll) v = rw (pop_back-append ll v)
