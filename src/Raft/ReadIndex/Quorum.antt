-- ===== src/Raft/ReadIndex/Quorum.antt =====
-- What a read from the leader is worth (`ReadIndex`, internal/raft/replication.go).
use kver.Prelude.{
  ℕ, Bytes, suc, ◌+◌, ◌≤◌, ◌<◌, ◌≡◌, ◌⊎◌, inl, inr, refl, sym, arith, Bool, true, false, not,
  Option, none, some, List, [], ◌∷◌, leb, ◌==◌, if◌then◌else◌, if_both, length, map, Bool-cases,
  subst, ap, ◌∙◌,
}
use kver.Prelude.Dict.{Dict}
use kver.Raft.Types.{AppendEntriesResponse, Result, ok, err}
use kver.Raft.Node.{RaftNode, is_leader}
use kver.Raft.Commit.{majority}
use kver.Raft.ReadIndex.{
  heard, confirms, Confirmed, confirmed, refused, cancelled, waiting, collect_confirmations,
  wait_for_apply, Read, read, read_confirmed, read_index,
}

-- How many of the other members have confirmed.
unfoldable pub confirmations : List (Option Bool) → ℕ
confirmations [] = 0
confirmations (none ∷ es) = confirmations es
confirmations (some answer ∷ es) = let rest = confirmations es in if answer then suc rest else rest

-- How many of the other members have answered the heartbeat without naming a later term.
unfoldable pub in_term : ℕ → List (Option (Result AppendEntriesResponse)) → ℕ
in_term term [] = 0
in_term term (none ∷ es) = in_term term es
in_term term (some (err e) ∷ es) = in_term term es
in_term term (some (ok resp) ∷ es) =
    let rest = in_term term es in if leb resp.term term then suc rest else rest

confirmations-heard :
    (term : ℕ) (es : List (Option (Result AppendEntriesResponse)))
    → confirmations (map (heard term) es) ≡ in_term term es
unfolding confirmations in_term heard confirms
confirmations-heard term [] = refl
confirmations-heard term (none ∷ es) = confirmations-heard term es
confirmations-heard term (some (err e) ∷ es) = confirmations-heard term es
confirmations-heard term (some (ok resp) ∷ es) =
    let rest = confirmations-heard term es in ground arith

collect_confirmations-confirmed :
    (quorum size : ℕ) (es : List (Option Bool)) (count total : ℕ)
    → collect_confirmations quorum size es count total ≡ confirmed
    → quorum ≤ count + confirmations es
unfolding collect_confirmations confirmations
collect_confirmations-confirmed quorum size [] count total h = ground arith
collect_confirmations-confirmed quorum size (none ∷ es) count total h = ground arith
collect_confirmations-confirmed quorum size (some true ∷ es) count total h =
    let later = collect_confirmations-confirmed quorum size es (suc count) (suc total) in
    ground arith
collect_confirmations-confirmed quorum size (some false ∷ es) count total h =
    let later = collect_confirmations-confirmed quorum size es count (suc total) in ground arith

-- The index was seen to be applied.
unfoldable pub Seen : List ℕ → ℕ → Type 0
Seen [] index = ⊥
Seen (applied ∷ seen) index = (index ≤ applied) ⊎ Seen seen index

wait_for_apply-Seen :
    (seen : List ℕ) (index i : ℕ) → wait_for_apply seen index ≡ ok i → (i ≡ index) × Seen seen index
unfolding wait_for_apply Seen
wait_for_apply-Seen [] index i h = ground arith
wait_for_apply-Seen (applied ∷ seen) index i h = elim (Bool-cases (leb index applied)) [
  | inl done ↦ (ground arith, inl (ground arith))
  | inr early ↦
      let (same, later) = wait_for_apply-Seen seen index i (ground arith) in (same, inr later)
]

read_confirmed-Seen :
    (seen : List ℕ) (index i : ℕ) (c : Confirmed)
    → read_confirmed seen index c ≡ read (ok i)
    → (c ≡ confirmed) × (i ≡ index) × Seen seen index
unfolding read_confirmed
read_confirmed-Seen seen index i confirmed h =
    let (same, found) = wait_for_apply-Seen seen index i (ground arith) in (refl, same, found)
read_confirmed-Seen seen index i refused h = ground arith
read_confirmed-Seen seen index i cancelled h = ground arith
read_confirmed-Seen seen index i waiting h = ground arith

alone_confirmed :
    (seen : List ℕ) (index i : ℕ)
    → read (wait_for_apply seen index) ≡ read (ok i)
    → (i ≡ index) × Seen seen i
alone_confirmed seen index i h =
    let (same, found) = wait_for_apply-Seen seen index i (ground arith) in
    (same, subst (Seen seen) (sym same) found)

confirmations_self :
    (es : List (Option Bool)) → confirmations (some true ∷ es) ≡ suc (confirmations es)
unfolding confirmations
confirmations_self es = refl

quorum_confirmed :
    (quorum size : ℕ) (events : List (Option Bool)) (seen : List ℕ) (index i : ℕ)
    → read_confirmed seen index (collect_confirmations quorum size (some true ∷ events) 0 0)
      ≡ read (ok i)
    → (i ≡ index) × (quorum ≤ suc (confirmations events)) × Seen seen i
quorum_confirmed quorum size events seen index i h =
    let (won, same, found) =
      read_confirmed-Seen seen index i (collect_confirmations quorum size (some true ∷ events) 0 0)
        h in
    let many = collect_confirmations-confirmed quorum size (some true ∷ events) 0 0 won in
    let one = confirmations_self events in (same, omega arith, subst (Seen seen) (sym same) found)

-- A read that succeeds is at the commit index that the node had when it began, as a leader that has
-- committed an entry of its own term; unless it is alone, it and the members that answered its
-- heartbeat without an error and without a later term than its own are a majority; and the index
-- was seen to be applied.
pub read_index_confirmed :
    (events : List (Option (Result AppendEntriesResponse))) (seen : List ℕ) (r : RaftNode) (i : ℕ)
    → read_index events seen r ≡ read (ok i)
    → (i ≡ r.commit_index)
      × (is_leader r.state ≡ true)
      × (r.noop_committed ≡ true)
      × ((length r.peers ≡ 1) ⊎ (majority r.peers ≤ suc (in_term r.current_term events)))
      × Seen seen i
unfolding read_index
read_index_confirmed events seen r i =
    let P = λ (x : Read).
      x ≡ read (ok i)
      → (i ≡ r.commit_index)
        × (is_leader r.state ≡ true)
        × (r.noop_committed ≡ true)
        × ((length r.peers ≡ 1) ⊎ (majority r.peers ≤ suc (in_term r.current_term events)))
        × Seen seen i in
    if_both P r.fatal _ _ (λ _ h. ground arith)
      λ _.
        if_both P (not (is_leader r.state)) _ _ (λ _ h. ground arith)
          λ leads.
            if_both P (not r.noop_committed) _ _ (λ _ h. ground arith)
              λ noop.
                if_both P (length r.peers == 1) _ _
                  (λ alone h.
                    let (same, found) = alone_confirmed seen r.commit_index i h in
                    (same, ground arith, ground arith, inl (ground arith), found))
                  (λ several h.
                    let (same, many, found) =
                      quorum_confirmed (majority r.peers) (length r.peers)
                        (map (heard r.current_term) events) seen r.commit_index i h in
                    let count = confirmations-heard r.current_term events in
                    (same, ground arith, ground arith, inr (omega arith), found))

confirmations-le : (answers : List Bool) → confirmations (map some answers) ≤ length answers
unfolding confirmations
confirmations-le [] = omega arith
confirmations-le (true ∷ answers) = let le = confirmations-le answers in omega arith
confirmations-le (false ∷ answers) = let le = confirmations-le answers in omega arith

collect_confirmations-reaches :
    (quorum size : ℕ) (answers : List Bool) (count total : ℕ)
    → total + length answers ≡ size
    → count ≤ total
    → count < quorum
    → quorum ≤ count + confirmations (map some answers)
    → collect_confirmations quorum size (map some answers) count total ≡ confirmed
unfolding collect_confirmations confirmations
collect_confirmations-reaches quorum size [] count total all le few many = absurd (omega arith)
collect_confirmations-reaches quorum size (true ∷ es) count total all le few many =
    let rest = collect_confirmations-reaches quorum size es (suc count) (suc total) in
    let bound = confirmations-le es in ground arith
collect_confirmations-reaches quorum size (false ∷ es) count total all le few many =
    let rest = collect_confirmations-reaches quorum size es count (suc total) in
    let bound = confirmations-le es in ground arith

majority-pos : (peers : Dict Bytes) → 0 < majority peers
unfolding majority
majority-pos peers = omega arith

heard-confirms :
    (term : ℕ) (answers : List (Result AppendEntriesResponse))
    → map (heard term) (map some answers) ≡ map some (map (confirms term) answers)
unfolding heard
heard-confirms term [] = refl
heard-confirms term (answer ∷ answers) =
    ap (◌∷◌ (some (confirms term answer))) (heard-confirms term answers)

length-confirms :
    (term : ℕ) (answers : List (Result AppendEntriesResponse))
    → length (map (confirms term) answers) ≡ length answers
length-confirms term [] = refl
length-confirms term (answer ∷ answers) = ap suc (length-confirms term answers)

-- A read from a healthy leader that has committed in its term goes on to wait for its index where
-- every other member answers and a majority confirms, in whatever order the answers arrive.
read_index_reaches :
    (answers : List (Result AppendEntriesResponse)) (seen : List ℕ) (r : RaftNode)
    → r.fatal ≡ false
    → is_leader r.state ≡ true
    → r.noop_committed ≡ true
    → suc (length answers) ≡ length r.peers
    → majority r.peers ≤ suc (in_term r.current_term (map some answers))
    → read_index (map some answers) seen r ≡ read (wait_for_apply seen r.commit_index)
unfolding read_index read_confirmed
read_index_reaches answers seen r well leads noop all many =
    elim (Bool-cases (length r.peers == 1)) [
      | inl alone ↦ simp (well, leads, noop, alone)
      | inr several ↦
          let bools = map (confirms r.current_term) answers in
          let same = heard-confirms r.current_term answers in
          let count =
            ap confirmations (sym same) ∙ confirmations-heard r.current_term (map some answers) in
          let size = length-confirms r.current_term answers in
          let one = confirmations_self (map some bools) in
          let won : collect_confirmations (majority r.peers) (length r.peers)
                (some true ∷ map some bools) 0 0
              ≡ confirmed =
            collect_confirmations-reaches (majority r.peers) (length r.peers) (true ∷ bools) 0 0
              (omega (arith, all)) (omega arith) (majority-pos r.peers) (omega arith) in
          simp (well, leads, noop, several, same, won)
    ]
