-- ===== src/Raft/Cluster/Votes.antt =====
-- Who votes for whom in an election: the votes that `startElection` of internal/raft/election.go
-- counts, and those that the nodes have given.
use kver.Prelude.{
  ℕ, suc, ◌≤◌, ◌≡◌, refl, ap, ◌∙◌, arith, Bytes, bytes_eq, Bool, true, false, ◌&&◌, ◌||◌, Option,
  none, some, List, [], ◌∷◌, if◌then◌else◌, ◌==◌,
}
use kver.Prelude.Dict
use kver.Prelude.Dict.{Dict}
use kver.Raft.Types.{RequestVoteResponse}
use kver.Raft.Election.{PeerReply}
use kver.Raft.Election.Tally.{grant, grants}
use kver.Raft.Commit.Quorum.{count_if}
use mathlib.Core.List.{Permᴰ}

-- A candidate asks each peer but itself once.
unfoldable pub asked : Bytes → (Bytes → PeerReply) → Dict Bytes → List PeerReply
asked self answers [] = []
asked self answers ((peer, address) ∷ peers) =
    let rest = asked self answers peers in if bytes_eq peer self then rest else answers peer ∷ rest

-- An answer grants the vote, in the term of the election.
unfoldable pub granting : ℕ → Option RequestVoteResponse → Bool
granting term none = false
granting term (some resp) = resp.vote_granted && (resp.term == term)

grant-granting :
    (term : ℕ) (resp : Option RequestVoteResponse)
    → grant term resp ≡ (if granting term resp then 1 else 0)
unfolding grant granting
grant-granting term none = refl
grant-granting term (some resp) = refl

-- The peer is the candidate, or grants its vote.
unfoldable pub backs : Bytes → ℕ → (Bytes → PeerReply) → Bytes → Bool
backs self term answers peer = bytes_eq peer self || granting term (answers peer).response

pub grants-Perm :
    (term : ℕ) (xs ys : List PeerReply) → Permᴰ xs ys → grants term xs ≡ grants term ys
unfolding grants
grants-Perm term _ _ Permᴰ.nil = refl
grants-Perm term _ _ (Permᴰ.cons {a = a} {b = b} {l₁ = xs} {l₂ = ys} e d) =
    let same = ap (λ (p : PeerReply). grant term p.response) e in
    let rest = grants-Perm term xs ys d in omega arith
grants-Perm term _ _ (Permᴰ.swap {l = l} e₁ e₂) =
    let f = ap (λ (p : PeerReply). grant term p.response) e₁ in
    let g = ap (λ (p : PeerReply). grant term p.response) e₂ in omega arith
grants-Perm term _ _ (Permᴰ.trans {l₁ = xs} {l₂ = ys} {l₃ = zs} d₁ d₂) =
    grants-Perm term xs ys d₁ ∙ grants-Perm term ys zs d₂

grants-le :
    (self : Bytes) (term : ℕ) (answers : Bytes → PeerReply) (peers : Dict Bytes)
    → grants term (asked self answers peers) ≤ count_if (backs self term answers) peers
unfolding grants asked backs count_if
grants-le self term answers [] = omega arith
grants-le self term answers ((peer, address) ∷ peers) =
    let rest = grants-le self term answers peers in
    let vote = grant-granting term (answers peer).response in ground arith

-- A candidate that is a peer of its cluster is one more that backs it.
pub grants-lt :
    (self : Bytes) (term : ℕ) (answers : Bytes → PeerReply) (peers : Dict Bytes)
    → Dict.has peers self ≡ true
    → suc (grants term (asked self answers peers)) ≤ count_if (backs self term answers) peers
unfolding grants asked backs count_if Dict.has Dict.get
grants-lt self term answers [] h = cc
grants-lt self term answers ((peer, address) ∷ peers) h =
    let rest = grants-lt self term answers peers in
    let some_back = grants-le self term answers peers in
    let vote = grant-granting term (answers peer).response in ground arith
