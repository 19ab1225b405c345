-- ===== src/Raft/Transport.antt =====
-- The addresses that the transport keeps (`AddPeer` and `RemovePeer` of
-- internal/raft/grpc_transport.go, without the connections), and `reconcileTransportPeers` of
-- internal/raft/snapshot.go.
pub mod Reconciled
use kver.Prelude.{
  Bytes, bytes_eq, Bool, true, false, not, Option, none, some, [], ◌∷◌, if◌then◌else◌,
}
use kver.Prelude.Dict
use kver.Prelude.Dict.{Dict}

unfoldable pub add_peer : Bytes → Bytes → Dict Bytes → Dict Bytes
add_peer peer address t = Dict.put t peer address

unfoldable pub remove_peer : Bytes → Dict Bytes → Dict Bytes
remove_peer peer t = Dict.remove t peer

-- The loop over the old configuration.
unfoldable pub remove_gone : Bytes → Dict Bytes → Dict Bytes → Dict Bytes → Dict Bytes
unfolding remove_peer
remove_gone self [] new t = t
remove_gone self ((peer, address) ∷ old) new t =
    let t' =
      if bytes_eq peer self then t else if Dict.has new peer then t else remove_peer peer t in
    remove_gone self old new t'

-- The old address is another one, or there is none.
unfoldable pub moved : Option Bytes → Bytes → Bool
moved none address = true
moved (some old) address = not (bytes_eq old address)

-- The loop over the new configuration.
unfoldable pub add_moved : Bytes → Dict Bytes → Dict Bytes → Dict Bytes → Dict Bytes
unfolding add_peer moved
add_moved self old [] t = t
add_moved self old ((peer, address) ∷ new) t =
    let t' =
      if bytes_eq peer self
      then t
      else if moved (Dict.get old peer) address
      then add_peer peer address t
      else t in
    add_moved self old new t'

-- reconcileTransportPeers
unfoldable pub reconcile_transport_peers : Bytes → Dict Bytes → Dict Bytes → Dict Bytes → Dict Bytes
unfolding remove_gone add_moved
reconcile_transport_peers self old new t = add_moved self old new (remove_gone self old new t)
