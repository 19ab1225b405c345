-- ===== src/Raft/Commit/Quorum.antt =====
-- Two majorities of a cluster share a member (`Majority`, internal/raft/membership.go).
use kver.Prelude.{
  ℕ, suc, ◌+◌, ◌≤◌, ◌<◌, ◌≡◌, arith, Bytes, bytes_eq, Bool, true, ◌&&◌, ◌||◌, [], ◌∷◌, leb,
  if◌then◌else◌, length, Bool-cases, inl, inr,
}
use kver.Prelude.Dict
use kver.Prelude.Dict.{Dict}
use kver.Raft.Commit.{majority, match_of, count_matches}

-- The peers that pass a test.
unfoldable pub count_if : (Bytes → Bool) → Dict Bytes → ℕ
count_if test [] = 0
count_if test ((peer, address) ∷ peers) =
    let count = count_if test peers in if test peer then suc count else count

unfoldable pub both : (p q : Bytes → Bool) → Bytes → Bool
both p q peer = p peer && q peer

pub count_both :
    (p q : Bytes → Bool) (peers : Dict Bytes)
    → count_if p peers + count_if q peers ≤ length peers + count_if (both p q) peers
unfolding count_if both
count_both p q [] = omega arith
count_both p q ((peer, address) ∷ peers) = ground (arith, count_both p q peers)

-- A peer that passes a test, with its place in the map of peers.
pub data Member (test : Bytes → Bool) : Dict Bytes → Type 0 where
  here :
      {peer address : Bytes} {peers : Dict Bytes}
      → test peer ≡ true
      → Member test ((peer, address) ∷ peers)
  there :
      {peer address : Bytes} {peers : Dict Bytes}
      → Member test peers
      → Member test ((peer, address) ∷ peers)

pub counted-Member : (p : Bytes → Bool) (peers : Dict Bytes) → 0 < count_if p peers → Member p peers
unfolding count_if
counted-Member p [] h = absurd (omega arith)
counted-Member p ((peer, address) ∷ peers) h = elim (Bool-cases (p peer)) [
  | inl passes ↦ here passes
  | inr fails ↦ there (counted-Member p peers (ground arith))
]

-- If as many peers as a majority pass one test, and as many pass another, then some peer passes
-- both.
pub majority-Member :
    (p q : Bytes → Bool) (peers : Dict Bytes)
    → majority peers ≤ count_if p peers
    → majority peers ≤ count_if q peers
    → Member (λ peer. p peer && q peer) peers
unfolding majority both
majority-Member p q peers hp hq =
    counted-Member (both p q) peers (omega (arith, count_both p q peers))

-- The leader itself, or a peer that has the entry at `n` as far as the leader knows.
unfoldable pub holds_entry : Bytes → Dict ℕ → ℕ → Bytes → Bool
holds_entry self match n peer = bytes_eq peer self || leb n (match_of match peer)

count_matches-le :
    (self : Bytes) (match : Dict ℕ) (n : ℕ) (peers : Dict Bytes)
    → count_matches self n match peers ≤ count_if (holds_entry self match n) peers
unfolding count_matches count_if holds_entry
count_matches-le self match n [] = omega arith
count_matches-le self match n ((peer, address) ∷ peers) =
    ground (arith, count_matches-le self match n peers)

-- A leader that is a peer of its cluster is counted once more.
pub count_matches-lt :
    (self : Bytes) (match : Dict ℕ) (n : ℕ) (peers : Dict Bytes)
    → Dict.has peers self ≡ true
    → count_matches self n match peers < count_if (holds_entry self match n) peers
unfolding count_matches count_if holds_entry Dict.has Dict.get
count_matches-lt self match n [] h = cc
count_matches-lt self match n ((peer, address) ∷ peers) h =
    ground (arith, count_matches-lt self match n peers, count_matches-le self match n peers)
