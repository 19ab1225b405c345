-- ===== src/Raft/Batch/Tracked.antt =====
-- No proposal of a batch is lost (`flush` of `batchLoop`, internal/raft/raft.go).
use kver.Prelude.{ℕ, suc, ◌≡◌, ◌⊎◌, Option, List, [], ◌∷◌}
use kver.Raft.Types.{LogEntry, RaftError}
use kver.Raft.Node.{RaftNode}
use kver.Raft.Batch.{ProposeRequest}

-- The request has been sent this answer.
unfoldable pub Answered : ℕ → List (ℕ × Option RaftError) → Type 0
Answered request [] = ⊥
Answered request ((n, e) ∷ replies) = (n ≡ request) ⊎ Answered request replies

-- The request waits at this index.
unfoldable pub WaitsAt : ℕ → ℕ → List (ℕ × ℕ) → Type 0
WaitsAt index request [] = ⊥
WaitsAt index request ((i, n) ∷ waiters) =
    ((i ≡ index) × (n ≡ request)) ⊎ WaitsAt index request waiters

-- From the given index on, the entries are those of the requests, in their order, and every request
-- is answered or waits at the index of its entry.
unfoldable pub AllTracked : ℕ → List LogEntry → List ProposeRequest → RaftNode → Type 0
unfolding Answered WaitsAt
AllTracked index [] [] r = Unit
AllTracked index (e ∷ es) (req ∷ reqs) r =
    (e.index ≡ index)
    × (e.command ≡ req.command)
    × (Answered req.request r.replies ⊎ WaitsAt index req.request r.waiters)
    × AllTracked (suc index) es reqs r
AllTracked index _ _ r = ⊥
