-- ===== src/Kv/SkipList/Write.antt =====
-- `randomLevel`, `insert` and `delete` of internal/kvstore/skiplist.go.
use kver.Prelude.{
  ℕ, zero, suc, ◌+◌, ◌-◌, Bytes, Bool, true, false, ◌&&◌, Option, none, some, ltb, leb, ◌==◌,
  if◌then◌else◌,
}
use kver.Prelude.Dict
use kver.Prelude.Dict.{Dict}
use kver.Kv.SkipList.{ScoreOps, SkipList, header, max_level, forward_at, search_levels, is_entry}

-- The levels above the first: one for each coin in a row that comes up.
unfoldable pub levels_up : ℕ → (ℕ → Bool) → ℕ
levels_up zero coins = 0
levels_up (suc n) coins =
    let rest = levels_up n (λ i. coins (suc i)) in if coins 0 then suc rest else 0

unfoldable pub random_level : (ℕ → Bool) → ℕ
unfolding levels_up
random_level coins = 1 + levels_up (max_level - 1) coins

module _ {S : Type 0} where
  unfoldable pub set_forward : ℕ → ℕ → ℕ → SkipList S → SkipList S
  set_forward p i q z = record z {
    forward = λ a j. if (a == p) && (j == i) then q else z.forward a j;
  }

  unfoldable pub set_backward : ℕ → ℕ → SkipList S → SkipList S
  set_backward p q z = record z { backward = λ a. if a == p then q else z.backward a }

  -- The links of a new node, on its levels below the given one.
  unfoldable pub link : ℕ → (ℕ → ℕ) → ℕ → SkipList S → Option (SkipList S)
  unfolding forward_at set_forward
  link zero update new z = some z
  link (suc i) update new z = elim (link i update new z) [
    | none ↦ none
    | some z' ↦ elim (forward_at z' (update i) i) [
      | none ↦ none
      | some q ↦ some (set_forward (update i) i new (set_forward new i q z'))
    ]
  ]

  -- The loop that takes a node out, for so many levels from level `i` on.
  unfoldable pub unlink : ℕ → ℕ → (ℕ → ℕ) → ℕ → SkipList S → Option (SkipList S)
  unfolding forward_at set_forward
  unlink zero i update x z = some z
  unlink (suc n) i update x z = elim (forward_at z (update i) i) [
    | none ↦ none
    | some q ↦ elim (q == x) [
      | false ↦ some z
      | true ↦ elim (forward_at z x i) [
        | none ↦ none
        | some r ↦ unlink n (suc i) update x (set_forward (update i) i r z)
      ]
    ]
  ]

  -- The loop that drops empty levels.
  unfoldable pub lower : ℕ → SkipList S → Option ℕ
  unfolding forward_at
  lower zero z = some 0
  lower (suc zero) z = some 1
  lower (suc (suc n)) z = elim (forward_at z header (suc n)) [
    | none ↦ none
    | some q ↦ elim (q == 0) [ true ↦ lower (suc n) z | false ↦ some (suc (suc n)) ]
  ]

module _ {S : Type 0} (sc : ScoreOps S) where
  -- &skipListNode{...}
  unfoldable pub new_node : S → Bytes → ℕ → SkipList S → SkipList S
  new_node score member lvl z = record z {
    node = λ a.
        if a == z.fresh then record { score = score; member = member; height = lvl } else z.node a;
    forward = λ a i. if a == z.fresh then 0 else z.forward a i;
    backward = λ a. if a == z.fresh then 0 else z.backward a;
    fresh = suc z.fresh;
  }

  -- The neighbours' links back.
  unfoldable pub link_back : ℕ → ℕ → SkipList S → Option (SkipList S)
  unfolding forward_at set_backward
  link_back before new z =
      let z' = set_backward new (if before == header then 0 else before) z in
      elim (forward_at z' new 0) [
        | none ↦ none
        | some q ↦ some (if q == 0 then record z' { tail = new } else set_backward q new z')
      ]

  unfoldable pub counted : S → Bytes → Option (SkipList S) → Option (SkipList S)
  counted score member none = none
  counted score member (some z) =
      some (record z { length = suc z.length; dict = Dict.put z.dict member score })

  unfoldable pub linked : S → Bytes → (ℕ → ℕ) → ℕ → Option (SkipList S) → Option (SkipList S)
  unfolding link_back counted
  linked score member update new none = none
  linked score member update new (some z) = counted score member (link_back (update 0) new z)

  -- The levels that are new start at the header.
  unfoldable pub raised : ℕ → ℕ → (ℕ → ℕ) → ℕ → ℕ
  raised level lvl update i = if leb level i && ltb i lvl then header else update i

  unfoldable pub place_at : S → Bytes → ℕ → (ℕ → ℕ) → SkipList S → Option (SkipList S)
  unfolding linked raised new_node link
  place_at score member lvl update z =
      let update' = raised z.level lvl update in
      let z' = record z { level = if ltb z.level lvl then lvl else z.level } in
      linked score member update' z.fresh (link lvl update' z.fresh (new_node score member lvl z'))

  unfoldable pub place : (ℕ → Bool) → S → Bytes → SkipList S → Option (SkipList S)
  unfolding search_levels random_level place_at
  place coins score member z = elim (search_levels sc z.level z (score, member) header (λ i. 0)) [
    | none ↦ none
    | some found ↦ place_at score member (random_level coins) found.1 z
  ]

  -- From the loop that drops empty levels on.
  unfoldable pub finish_delete : Bytes → SkipList S → Option (SkipList S × Bool)
  unfolding lower
  finish_delete member z = elim (lower z.level z) [
    | none ↦ none
    | some l ↦
        some (record z { level = l; length = z.length - 1; dict = Dict.remove z.dict member }, true)
  ]

  -- From the update of the link back on.
  unfoldable pub unlinked : Bytes → ℕ → Option (SkipList S) → Option (SkipList S × Bool)
  unfolding forward_at set_backward finish_delete
  unlinked member x none = none
  unlinked member x (some z) = elim (forward_at z x 0) [
    | none ↦ none
    | some q ↦
        finish_delete member
          (if q == 0 then record z { tail = z.backward x } else set_backward q (z.backward x) z)
  ]

  unfoldable pub delete_found :
      S → Bytes → SkipList S → Option (ℕ × (ℕ → ℕ)) → Option (SkipList S × Bool)
  unfolding forward_at is_entry unlink unlinked
  delete_found score member z none = none
  delete_found score member z (some (curr, update)) = elim (forward_at z curr 0) [
    | none ↦ none
    | some x ↦
        if is_entry sc z score member x
        then unlinked member x (unlink z.level 0 update x z)
        else some (z, false)
  ]

  unfoldable pub delete : Bytes → SkipList S → Option (SkipList S × Bool)
  unfolding search_levels delete_found
  delete member z = elim (Dict.get z.dict member) [
    | none ↦ some (z, false)
    | some score ↦
        delete_found score member z (search_levels sc z.level z (score, member) header (λ i. 0))
  ]

  unfoldable pub insert : (ℕ → Bool) → S → Bytes → SkipList S → Option (SkipList S)
  unfolding delete place
  insert coins score member z = elim (Dict.get z.dict member) [
    | none ↦ place coins score member z
    | some old ↦ if sc.eq old score then some z else elim (delete member z) [
      | none ↦ none
      | some deleted ↦ place coins score member deleted.0
    ]
  ]
