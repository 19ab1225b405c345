-- ===== src/Tests/Replicate.antt =====
-- A leader that replicates and reads, internal/raft/replication.go, at concrete inputs.
use kver.Prelude.{
  Option, List, ℕ, ◌<◌, ◌≤◌, ◌≡◌, ◌⊎◌, refl, arith, codes, bytes_eq, true, false, none, some, [],
  ◌∷◌, length, suc,
}
use kver.Prelude.Dict
use kver.Raft.Types.{not_leader, AppendEntriesRequest, AppendEntriesResponse, Result, ok}
use kver.Raft.Log.{
  RaftLog, rewritten, written, get_entry, get_entries_from, term_at, first_index, last_index,
  append, validate_entry_sequence,
}
use kver.Raft.Log.WellFormed.{IsWellFormed}
use kver.Raft.Node.{follower, RaftNode, leader, is_leader, is_follower, quiet, step_down}
use kver.Raft.Append.{
  heard_leader, process_append_entries, check_previous, check_indices, store_entries, find_conflict,
}
use kver.Raft.Commit.{majority, match_of, advance_commit_index}
use kver.Raft.Replicate.{
  Exchange, request, append_request, limit_entries, clamp_next, next_round, next_after,
  replicate_to,
}
use kver.Raft.Replicate.Progress.{replicate_to_backs_off}
use kver.Raft.Batch.{ProposeRequest, BatchWindow, flush}
use kver.Raft.ReadIndex.{read, collect_confirmations, wait_for_apply, read_index}
use kver.Raft.ReadIndex.Quorum.{Seen, in_term, read_index_confirmed}
use kver.Tests.Raft.{entry, node, log_of_three}
use kver.Tests.Storage.{artifact_codec}
use kver.Tests.Snapshot.{transfer}

abbrev leads : RaftNode
leads = record node { state = leader; noop_committed = true }

-- A follower that has the first entry alone.
abbrev short_log : RaftLog
short_log = record log_of_three {
  entries = entry 1 1 ∷ [];
  wal = record { header = some (0, 0); records = entry 1 1 ∷ [] };
}

abbrev short : RaftNode
short = record node { log = short_log }

short_log-IsWellFormed : IsWellFormed short_log
short_log-IsWellFormed = record {
  contiguous = (refl, tt);
  fits = omega arith;
  zero_boundary = λ _. (refl, refl);
  mirror = λ _ _. record { is_open = refl; same_records = refl; same_boundary = λ _. refl };
}

abbrev asked : AppendEntriesRequest
asked = record {
  term = 2;
  leader_id = codes "n1";
  prev_log_index = 3;
  prev_log_term = 2;
  entries = [];
  leader_commit = 1;
}

program : Unit {0}
unfolding heard_leader process_append_entries check_previous check_indices store_entries
    find_conflict step_down is_follower is_leader term_at get_entry get_entries_from first_index
    last_index append validate_entry_sequence bytes_eq Dict.get Dict.put next_round clamp_next
    next_after append_request limit_entries replicate_to advance_commit_index match_of majority
program = tt

abbrev exchange : Exchange
exchange = record {
  rpc = λ req.
      ok (some (process_append_entries (quiet true 9) rewritten written 9 (some req) short).1);
  others = λ r. r;
  window = quiet true 9;
  now = 9;
}

asked_first : next_round leads (clamp_next leads.log 9) ≡ request asked
unfolding program
asked_first = refl

refused :
    ((process_append_entries (quiet true 9) rewritten written 9 (some asked) short).1.success
      ≡ false)
    × ((process_append_entries
          (quiet true 9)
          rewritten
          written
          9
          (some asked)
          short).1.conflict_index
        ≡ 2)
    × ((process_append_entries (quiet true 9) rewritten written 9 (some asked) short).1.term ≡ 2)
    × ((process_append_entries (quiet true 9) rewritten written 9 (some asked) short).2 ≡ none)
    × ((heard_leader (quiet true 9) 9 asked short).log ≡ short_log)
unfolding program
refused = (refl, refl, refl, refl, refl)

leads_now : is_leader leads.state ≡ true
unfolding program
leads_now = refl

heard_log : IsWellFormed (heard_leader (quiet true 9) 9 asked short).log
unfolding program
heard_log = short_log-IsWellFormed

heard_base : (heard_leader (quiet true 9) 9 asked short).log.base_index ≡ 0
unfolding program
heard_base = refl

term_within :
    (process_append_entries (quiet true 9) rewritten written 9 (some asked) short).1.term ≤ 2
unfolding program
term_within = omega arith

replicate_to_backs_off_example :
    (lower : ℕ) × (0 < lower)
    × (lower < clamp_next leads.log 9)
    × (replicate_to artifact_codec transfer 10 (codes "n2") (exchange ∷ exchange ∷ []) 9 leads
        ≡ replicate_to artifact_codec transfer 10
            (codes "n2")
            (exchange ∷ [])
            lower
            (record leads { next_index = Dict.put leads.next_index (codes "n2") lower }))
replicate_to_backs_off_example =
    replicate_to_backs_off artifact_codec transfer 10 (codes "n2") exchange (exchange ∷ []) 9 asked
      leads (quiet true 9) rewritten written 9 short refl leads_now asked_first refl refused.3
      refused.0 term_within leads_now refl refl (omega arith) heard_log heard_base (omega arith)

-- The first of the two other members is in a later term, the second one is not.
abbrev heartbeats : List (Option (Result AppendEntriesResponse))
heartbeats =
    some (ok (record { term = 3; success = false; conflict_index = 0; conflict_term = 0 }))
    ∷ some (ok (record { term = 2; success = false; conflict_index = 0; conflict_term = 0 }))
    ∷ []

read_ok : read_index heartbeats (0 ∷ 1 ∷ []) leads ≡ read (ok 1)
unfolding program read_index collect_confirmations wait_for_apply
read_ok = refl

read_index_confirmed_example :
    (1 ≡ leads.commit_index)
    × (is_leader leads.state ≡ true)
    × (leads.noop_committed ≡ true)
    × ((length leads.peers ≡ 1)
        ⊎ (majority leads.peers ≤ suc (in_term leads.current_term heartbeats)))
    × Seen (0 ∷ 1 ∷ []) 1
read_index_confirmed_example = read_index_confirmed heartbeats (0 ∷ 1 ∷ []) leads 1 read_ok

-- Two proposals, whose entries are written while another node becomes the leader.
abbrev proposals : List ProposeRequest
proposals =
    record { request = 7; command = codes "a" } ∷ record { request = 8; command = codes "b" } ∷ []

abbrev deposed : BatchWindow
deposed = record { before = λ r. r; after = λ r. record r { state = follower }; io = written }

flush_runs :
    ((flush deposed proposals leads).replies ≡ (7, some not_leader) ∷ (8, some not_leader) ∷ [])
    × ((flush (record deposed { after = λ r. r }) proposals leads).waiters ≡ (5, 8) ∷ (4, 7) ∷ [])
    × ((flush deposed proposals leads).log.entries
        ≡ entry 1 1
          ∷ entry 2 1
          ∷ entry 3 2
          ∷ record (entry 4 2) { command = codes "a" }
          ∷ record (entry 5 2) { command = codes "b" }
          ∷ [])
unfolding program flush
flush_runs = (refl, refl, refl)
