-- ===== src/Raft/Membership/Overlap.antt =====
-- The members before and after a change (internal/raft/membership.go): a change adds or removes one
-- server, so that the majorities of both share a member.
use kver.Prelude.{
  suc, ◌≤◌, ◌≡◌, refl, ap, ◌⊎◌, inl, inr, arith, Bytes, bytes_eq, bytes_eq_iff, Bool, false, [],
  ◌∷◌, length, Bool-cases,
}
use kver.Prelude.Dict
use kver.Prelude.Dict.{Dict}
use kver.Raft.Commit.{majority}
use kver.Raft.Commit.Quorum.{count_if, Member, both, count_both, counted-Member}
use kver.Raft.Membership.{
  MembershipChange, ChangeType, add_server, remove_server, other_change, changed_peers,
}

-- A map has each key once.
abbrev pub HasKeysOnce : Dict Bytes → Type 0
HasKeysOnce [] = Unit
HasKeysOnce ((peer, address) ∷ peers) = (Dict.has peers peer ≡ false) × HasKeysOnce peers

length-put :
    (peers : Dict Bytes) (peer address : Bytes)
    → length (Dict.put peers peer address) ≤ suc (length peers)
unfolding Dict.put
length-put [] peer address = omega arith
length-put ((p, a) ∷ peers) peer address = ground (arith, length-put peers peer address)

count_if-put :
    (test : Bytes → Bool) (peers : Dict Bytes) (peer address : Bytes)
    → count_if test peers ≤ count_if test (Dict.put peers peer address)
unfolding Dict.put count_if
count_if-put test [] peer address = omega arith
count_if-put test ((p, a) ∷ peers) peer address = elim (Bool-cases (bytes_eq p peer)) [
  | inl same ↦
      let key : p ≡ peer = (bytes_eq_iff p peer).0 same in
      let test_same = ap test key in ground arith
  | inr other ↦ let rest = count_if-put test peers peer address in ground arith
]

remove-absent :
    (peers : Dict Bytes) (peer : Bytes)
    → Dict.has peers peer ≡ false
    → Dict.remove peers peer ≡ peers
unfolding Dict.remove Dict.has Dict.get
remove-absent [] peer h = refl
remove-absent ((p, a) ∷ peers) peer h = ground (arith, remove-absent peers peer)

length-remove :
    (peers : Dict Bytes) (peer : Bytes)
    → HasKeysOnce peers
    → length peers ≤ suc (length (Dict.remove peers peer))
unfolding Dict.remove
length-remove [] peer once = omega arith
length-remove ((p, a) ∷ peers) peer (fresh, once) = elim (Bool-cases (bytes_eq p peer)) [
  | inl same ↦
      let key : p ≡ peer = (bytes_eq_iff p peer).0 same in
      let kept = ap length (remove-absent peers p fresh) in
      let moved = ap (λ k. length (Dict.remove peers k)) key in ground arith
  | inr other ↦ let rest = length-remove peers peer once in ground arith
]

count_if-remove :
    (test : Bytes → Bool) (peers : Dict Bytes) (peer : Bytes)
    → count_if test (Dict.remove peers peer) ≤ count_if test peers
unfolding Dict.remove count_if
count_if-remove test [] peer = omega arith
count_if-remove test ((p, a) ∷ peers) peer = ground (arith, count_if-remove test peers peer)

module _ (p q : Bytes → Bool) where
  -- The members after a change are at most one more.
  grown-Member :
      (old new : Dict Bytes)
      → length new ≤ suc (length old)
      → count_if p old ≤ count_if p new
      → majority old ≤ count_if p old
      → majority new ≤ count_if q new
      → Member (both p q) new
  unfolding majority
  grown-Member old new size more hp hq =
      counted-Member (both p q) new (omega (arith, count_both p q new))

  -- The members after a change are at most one fewer.
  shrunk-Member :
      (old new : Dict Bytes)
      → length old ≤ suc (length new)
      → count_if q new ≤ count_if q old
      → majority old ≤ count_if p old
      → majority new ≤ count_if q new
      → Member (both p q) old
  unfolding majority
  shrunk-Member old new size more hp hq =
      counted-Member (both p q) old (omega (arith, count_both p q old))

  change-majority :
      (type : ChangeType) (peer address : Bytes) (peers : Dict Bytes)
      → HasKeysOnce peers
      → majority peers ≤ count_if p peers
      → (let new =
            changed_peers (record { type = type; node_id = peer; address = address }) peers in
          majority new ≤ count_if q new → Member (both p q) peers ⊎ Member (both p q) new)
  unfolding changed_peers
  change-majority add_server peer address peers once hp hq = inr (
      grown-Member peers (Dict.put peers peer address) (length-put peers peer address)
        (count_if-put p peers peer address) hp hq)
  change-majority remove_server peer address peers once hp hq = inl (
      shrunk-Member peers (Dict.remove peers peer) (length-remove peers peer once)
        (count_if-remove q peers peer) hp hq)
  change-majority other_change peer address peers once hp hq =
      inl (grown-Member peers peers (omega arith) (omega arith) hp hq)

-- Any two majorities, one of the members before a change and one of the members after it, share a
-- member: a server that is counted in both is a member before or after the change. The members are
-- a map, with each key once; the change adds, readdresses or removes any one server, also the
-- leader itself.
pub changed_peers-majority :
    (p q : Bytes → Bool) (change : MembershipChange) (peers : Dict Bytes)
    → HasKeysOnce peers
    → majority peers ≤ count_if p peers
    → majority (changed_peers change peers) ≤ count_if q (changed_peers change peers)
    → Member (both p q) peers ⊎ Member (both p q) (changed_peers change peers)
changed_peers-majority p q change peers once hp hq =
    change-majority p q change.type change.node_id change.address peers once hp hq
