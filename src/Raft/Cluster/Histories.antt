-- ===== src/Raft/Cluster/Histories.antt =====
-- The history of a node: its states whenever its lock is taken or released, one after the other.
-- Every handler of internal/raft/election.go and internal/raft/replication.go advances a node.
use kver.Prelude.{
  ℕ, suc, zero, ◌+◌, ◌-◌, ◌≤◌, ◌≡◌, ◌≢◌, inl, inr, sym, ap, subst, ◌∙◌, arith, Bytes, [],
  Bool-cases, leb,
}
use kver.Raft.Node.{RaftNode}
use kver.Raft.Node.Advances.{Advances, Advances-refl, Advances-trans}

-- The states of one node.
abbrev pub History : Type 0
History = ℕ → RaftNode

abbrev pub IsHistory : History → Type 0
IsHistory h = (i : ℕ) → Advances (h i) (h (suc i))

later : (h : History) (i k : ℕ) → IsHistory h → Advances (h i) (h (k + i))
later h i zero w = subst (λ j. Advances (h i) (h j)) (omega arith) (Advances-refl (h i))
later h i (suc k) w =
    subst (λ j. Advances (h i) (h j)) (omega arith)
      (Advances-trans (h i) (h (k + i)) (h (suc (k + i))) (later h i k w) (w (k + i)))

-- At some time the node is in this term with this vote.
pub record VotesFor (h : History) (term : ℕ) (candidate : Bytes) : Type 0 where
  pub time : ℕ
  pub in_term : (h time).current_term ≡ term
  pub vote : (h time).voted_for ≡ candidate

ordered :
    (h : History) (term : ℕ) (a b : Bytes) (x : VotesFor h term a) (y : VotesFor h term b)
    → IsHistory h
    → a ≢ []
    → x.time ≤ y.time
    → a ≡ b
ordered h term a b x y w named le =
    let gap = y.time - x.time in
    let at : gap + x.time ≡ y.time = omega arith in
    let from = later h x.time gap w in
    let start = x.in_term in
    let end = y.in_term in
    let given = x.vote in
    let taken = y.vote in
    let kept =
      from.vote_kept (ap (λ j. (h j).current_term) at ∙ end ∙ sym start)
        (λ none. named (sym given ∙ none)) in
    sym given ∙ sym kept ∙ ap (λ j. (h j).voted_for) at ∙ taken

-- In one term a node votes for one candidate.
pub VotesFor-unique :
    (h : History) (term : ℕ) (a b : Bytes)
    → IsHistory h
    → a ≢ []
    → b ≢ []
    → VotesFor h term a
    → VotesFor h term b
    → a ≡ b
VotesFor-unique h term a b w named_a named_b x y = elim (Bool-cases (leb x.time y.time)) [
  | inl before ↦ ordered h term a b x y w named_a (ground arith)
  | inr after ↦ sym (ordered h term b a y x w named_b (ground arith))
]
