-- ===== src/Lib.antt =====
-- KVer: a key-value store that is replicated by the Raft protocol.
--
-- A client's command goes to the leader of the cluster, which appends it to its log and copies it
-- to the other nodes; an entry that a majority has is committed, and every node applies the
-- committed entries in their order to its store. This development models the parts that carry
-- this, the consensus of internal/raft, the store of internal/kvstore and the key-value handlers of
-- internal/server, as state-passing functions.
--
-- The modules, and the code that they model:
--   Prelude             shared names, Boolean tests, numbers, lists, byte strings, Go's maps
--   Raft.Types          statemachine.go, errors.go and transport.go: entries, errors, messages
--   Raft.Log            log.go: `RaftLog` and its operations, with its write-ahead log (WAL)
--     .Load             `newRaftLogWithWAL`, `loadFromDisk`: the log that a file gives
--     .Codec            `writeWALRecord`, `readWALRecords`: its records as bytes; .RoundTrip proves
--     .WellFormed, .Keeps, .Reads, .Effects, .Writes, .Recovery: the proofs about it
--   Raft.Node           raft.go and persistent_state.go: `RaftNode`, `stepDown`, `SaveTermAndVote`
--     .Advances         how the term and the vote of a node may change
--   Raft.Vote           election.go: `handleRequestVote`; .Safety, .Counted and .Effects prove
--   Raft.Append         replication.go: `processAppendEntries`; .Advances, .Matching, .Success,
--                       .Commit and .Rejects prove
--   Raft.Replicate      replication.go: `replicateTo`; .Progress proves
--   Raft.ReadIndex      replication.go: `ReadIndex`, `waitForApply`, `LeaderAddr`; .Quorum proves
--   Raft.Commit         raft.go, replication.go and membership.go: `initLeaderState`,
--                       `advanceCommitIndex`, `Majority`; .Quorum, .Leader and .Start prove
--   Raft.Election       election.go: `startElection` and `sendRequestVote`; .Tally and .Votes prove
--   Raft.Heartbeat      replication.go: `sendHeartbeatOnce`; .Stray proves
--   Raft.Restart        raft.go and persistent_state.go: `NewRaftNode`; .Keeps proves
--   Raft.Transport      grpc_transport.go: `AddPeer`, `RemovePeer`; snapshot.go:
--                       `reconcileTransportPeers`; .Reconciled proves
--   Raft.Cluster        the nodes of a cluster together: .Histories, .Votes and .Elections
--   Raft.PreVote        election.go: `startPreVote`; .Tally proves
--   Raft.Batch          raft.go: `Propose` and the `flush` of `batchLoop`; .Tracked proves
--   Raft.Membership     membership.go: `ProposeMembershipChange`, `applyMembership`; .Overlap
--                       proves
--   Raft.Machine        raft.go: `applyEntriesLoop`; .Replay and .Races prove
--   Raft.Snapshot       snapshot.go: `takeSnapshot`, `loadSnapshotFromDisk`, `persistSnapshot`
--     .Artifact         `encodeSnapshotArtifact`, `decodeSnapshotArtifact`; .RoundTrip proves
--     .Chunks           `validateInstallSnapshotRequest`, `installSnapshotState`; .Prefix proves
--     .Install          `handleInstallSnapshot`, `finalizeInstalledSnapshot`; .Effects and .Verified
--                       prove
--     .Send             `sendSnapshot`; .Delivery proves
--   Kv.Types            errors.go, and what sortedset.go uses of skiplist.go
--   Kv.Number           the numbers as strconv reads and writes them; .RoundTrip proves
--   Kv.Store            store.go and ttl.go: the tables of types and of expiry times
--   Kv.Strings, Kv.Hashes, Kv.Lists, Kv.SortedSets
--                       string.go, hash.go, list.go, sortedset.go, each with its proofs below it
--   Kv.SkipList         skiplist.go: the nodes and the reads; .Write has `insert` and `delete`
--     .Order, .Entries  the order of the entries, and what the operations promise of them
--     .Links, .Relink, .Nodes, .Neighbours, .Shape
--                       the chains of the levels, and the shape that the operations keep
--     .Search, .Insert, .Delete, .Ranks, .Ranges, .RevRanges
--                       the proofs of the operations; .History has them in any sequence
--     .Ops, .Rebuild    a skip list as a store's sorted set, and built again from its entries
--   Kv.Expiry           `cleanup` of ttl.go and its callback `deleteKey` of store.go
--   Kv.Apply            store.go: `Apply`, one function per command; .Clock, .Expiring and
--                       .Leftovers prove
--   Kv.Backup           store.go: `Snapshot`, `Restore`, the store as a state machine; .RoundTrip
--                       proves
--   Kv.Reader           reader.go: what the handlers see of the store
--   Server.Types        kv_handler.go: `RaftProposer`, `KVHandler`, the requests and answers
--   Server.Forward      `getLeaderClient`, `forwardWrite`, `forwardRead`; .Connected and .Once prove
--   Server.Writes, Server.Reads, Server.Pops, Server.Members
--                       the handlers, one function for each; Server.Writes.EndToEnd proves
--   Server.Commands     the commands that handlers propose, against `Apply`
--   Server.Service      which handler answers a request; .Connected and .SetGet prove
--   Tests               runs and the theorems at concrete inputs
--
-- Names follow the code's (`TruncateAfter` is `truncate_after`); a function that is long is several
-- here, and each test in it stands in one of them. An operation takes the state and returns it with
-- the result or the error. What the code asks of its surroundings is an argument: the time (`now`,
-- in nanoseconds), and how far a call of the file system comes (`Rewrite`, `Written`). The store
-- locks each of its tables separately; an operation on it is one step here, so that a cleanup or a
-- read in the middle of a write is not modelled.
--
-- A node's lock is released while the term and the vote are saved. A `Window` says what other
-- goroutines do before and after the save, and whether it succeeds. A theorem assumes of them at
-- most that they do not lower the term or change a vote within a term (`IsSteady`), which is what
-- it proves of the handler itself.
--
-- The loop that applies entries, the loops of a leader and the installation of a snapshot release
-- the lock too: `Pause`, `Exchange`, `Transfer` and `Surroundings` say what others do meanwhile, as
-- functions of the node, and what the transport answers. Raft drives the store through the record
-- `StateMachine`, which `kv_machine` of Kv.Backup fills.
--
-- A cluster is a history of states for each node, in which each state advances the one before; an
-- election is a campaign, the answers of the other nodes from their histories, and the order in
-- which they are heard. The history of a node goes on over a restart where its last save succeeded.
--
-- A skip list is a store of nodes by their addresses, in which each operation sets the links that
-- the code sets; `none` is a panic, or the end of the fuel. `randomLevel` takes its coins as an
-- argument. `IsSkipList` says which nodes such a store links, on each level and back, and in which
-- order.
--
-- The handlers of the server are functions of `KvHandler`, over the interfaces `RaftProposer` and
-- `KvReader` of the code and over what they use of gRPC, protobuf and the clock (`Platform`). Each
-- call of these takes and returns the state of the world, so that what other requests do is part of
-- the call; the connection that is kept for the leader is the handler's own.
--
-- Numbers: log indices and terms are uint64, and a sum wraps around (`add64`). The invariant of the
-- log has its indices fit a word, which `HasRoom` keeps. A counter is an int64 and wraps around
-- (`add_int`). Loops are by structural recursion where they can be. `digits` has fuel for twenty
-- decimal digits, which is enough for every number below 2 ^ 64; the fuel of `apply_entries` is
-- enough where it exceeds the number of pending entries, that of `send_chunks` where it exceeds
-- the bytes of the snapshot, and that of `read_wal_records` where it exceeds the records. The loops
-- of a skip list have one round more than it has nodes, which the proofs show to be enough.
--
-- Not part of this source, and so arguments: the protobuf and JSON libraries and the checksums
-- (`WalCodec`, `ArtifactCodec`, `BackupCodec`), the file system and the network. Where a proof needs
-- them, it assumes that the library reads back the value that was written, or the size of a
-- checksum.
--
-- Not modelled: the WAL is held as the header and the records that a read of the file gives, and
-- the bytes of its records are a model of their own. The requests that a flush, a membership change
-- and an election send at their end, the timers and the connections to peers are
-- left out. The sorted sets are over an interface (`ZsetOps`), which `skip_list_ops` of
-- Kv.SkipList.Ops fills; scores that are NaN are outside the laws (`ScoreLaws`) that the proofs of
-- the skip list assume. Of a gRPC status the code is modelled and not the text. The HTTP gateway,
-- the gRPC transport between nodes, the client library and the programs are input and output around
-- these parts.

pub mod Prelude
pub mod Raft
pub mod Kv
pub mod Server
mod Tests
