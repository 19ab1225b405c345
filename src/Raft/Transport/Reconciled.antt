-- ===== src/Raft/Transport/Reconciled.antt =====
-- The transport after a change of the configuration (internal/raft/snapshot.go).
use kver.Prelude.{
  ◌≡◌, refl, sym, ap, ◌∙◌, arith, Bytes, bytes_eq, bytes_eq_iff, Bool, true, false, not, ◌&&◌,
  Option, none, some, [], ◌∷◌, if◌then◌else◌, Bool-cases, inl, inr,
}
use kver.Prelude.Dict
use kver.Prelude.Dict.{Dict, get-nil, get-put, get-remove, get_of_not_has}
use kver.Raft.Membership.Overlap.{HasKeysOnce}
use kver.Raft.Transport.{
  add_peer, remove_peer, remove_gone, moved, add_moved, reconcile_transport_peers,
}

remove_step :
    (self peer id : Bytes) (new t : Dict Bytes)
    → bytes_eq id self ≡ false
    → Dict.get
        (if bytes_eq peer self then t else if Dict.has new peer then t else remove_peer peer t)
        id
      ≡ (if bytes_eq peer id && not (Dict.has new id) then none else Dict.get t id)
unfolding remove_peer
remove_step self peer id new t other = elim (Bool-cases (bytes_eq peer id)) [
  | inl same ↦
      let key : peer ≡ id = (bytes_eq_iff peer id).0 same in
      let gone = get-remove t peer id in
      let mine : bytes_eq peer self ≡ false = ap (λ k. bytes_eq k self) key ∙ other in
      let known : Dict.has new peer ≡ Dict.has new id = ap (Dict.has new) key in ground arith
  | inr differs ↦ let kept = get-remove t peer id in ground arith
]

has-cons :
    (peer address id : Bytes) (m : Dict Bytes)
    → Dict.has ((peer, address) ∷ m) id ≡ (if bytes_eq peer id then true else Dict.has m id)
unfolding Dict.has Dict.get
has-cons peer address id m = ground arith

has-nil : (id : Bytes) → Dict.has {V = Bytes} [] id ≡ false
unfolding Dict.has Dict.get
has-nil id = refl

get-remove_gone :
    (self id : Bytes) (old new t : Dict Bytes)
    → bytes_eq id self ≡ false
    → Dict.get (remove_gone self old new t) id
      ≡ (if Dict.has old id && not (Dict.has new id) then none else Dict.get t id)
unfolding remove_gone
get-remove_gone self id [] new t other = let absent = has-nil id in ground arith
get-remove_gone self id ((peer, address) ∷ old) new t other =
    let step = remove_step self peer id new t other in
    let rest =
      get-remove_gone self id old new
        (if bytes_eq peer self then t else if Dict.has new peer then t else remove_peer peer t)
        other in
    let cons = has-cons peer address id old in ground arith

-- The address of an entry of the new configuration, where it is not the old one.
new_address : Option Bytes → Option Bytes → Option Bytes → Option Bytes
unfolding moved
new_address none before held = held
new_address (some address) before held = if moved before address then some address else held

add_step :
    (self peer address id : Bytes) (old t : Dict Bytes)
    → bytes_eq id self ≡ false
    → Dict.get
        (if bytes_eq peer self
          then t
          else if moved (Dict.get old peer) address
          then add_peer peer address t
          else t)
        id
      ≡ (if bytes_eq peer id
          then new_address (some address) (Dict.get old id) (Dict.get t id)
          else Dict.get t id)
unfolding add_peer new_address
add_step self peer address id old t other = elim (Bool-cases (bytes_eq peer id)) [
  | inl same ↦
      let key : peer ≡ id = (bytes_eq_iff peer id).0 same in
      let given = get-put t peer id address in
      let mine : bytes_eq peer self ≡ false = ap (λ k. bytes_eq k self) key ∙ other in
      let before : Dict.get old peer ≡ Dict.get old id = ap (Dict.get old) key in
      let shifts = ap (λ b. moved b address) before in ground arith
  | inr differs ↦ let kept = get-put t peer id address in ground arith
]

get-cons :
    (peer address id : Bytes) (m : Dict Bytes)
    → Dict.get ((peer, address) ∷ m) id ≡ (if bytes_eq peer id then some address else Dict.get m id)
unfolding Dict.get
get-cons peer address id m = refl

get-add_moved :
    (self id : Bytes) (old new t : Dict Bytes)
    → HasKeysOnce new
    → bytes_eq id self ≡ false
    → Dict.get (add_moved self old new t) id
      ≡ new_address (Dict.get new id) (Dict.get old id) (Dict.get t id)
unfolding add_moved new_address
get-add_moved self id old [] t once other = rw (get-nil {V = Bytes} id)
get-add_moved self id old ((peer, address) ∷ new) t (fresh, once) other =
    let t' =
      if bytes_eq peer self
      then t
      else if moved (Dict.get old peer) address
      then add_peer peer address t
      else t in
    let step = add_step self peer address id old t other in
    let rest = get-add_moved self id old new t' once other in
    let cons = get-cons peer address id new in
    elim (Bool-cases (bytes_eq peer id)) [
      | inl same ↦
          let key : peer ≡ id = (bytes_eq_iff peer id).0 same in
          let none_left = get_of_not_has new id (ap (Dict.has new) (sym key) ∙ fresh) in
          let here : Dict.get t' id ≡ new_address (some address) (Dict.get old id) (Dict.get t id) =
            step ∙ rw same in
          let found : Dict.get ((peer, address) ∷ new) id ≡ some address = cons ∙ rw same in
          rest
          ∙ ap (λ g. new_address g (Dict.get old id) (Dict.get t' id)) none_left
          ∙ here
          ∙ ap (λ g. new_address g (Dict.get old id) (Dict.get t id)) (sym found)
      | inr differs ↦
          let here : Dict.get t' id ≡ Dict.get t id = step ∙ rw differs in
          let found : Dict.get ((peer, address) ∷ new) id ≡ Dict.get new id = cons ∙ rw differs in
          rest
          ∙ ap (new_address (Dict.get new id) (Dict.get old id)) here
          ∙ ap (λ g. new_address g (Dict.get old id) (Dict.get t id)) (sym found)
    ]

is_some : Option Bytes → Bool
is_some none = false
is_some (some address) = true

has-is_some : (m : Dict Bytes) (id : Bytes) → Dict.has m id ≡ is_some (Dict.get m id)
unfolding Dict.has is_some
has-is_some m id = ground arith

settled :
    (new old : Option Bytes)
    → new_address new old (if is_some old && not (is_some new) then none else old) ≡ new
unfolding new_address is_some moved
settled none none = refl
settled none (some b) = refl
settled (some a) none = refl
settled (some a) (some b) = ground (arith, bytes_eq_iff b a)

-- After `reconcileTransportPeers` the transport knows the new configuration: if it had, for every
-- node but this one, the address of the old configuration, then it has the address of the new
-- one, and none for a node that is not in it. The configurations are maps, with each key once.
get-reconcile_transport_peers :
    (self id : Bytes) (old new t : Dict Bytes)
    → HasKeysOnce new
    → bytes_eq id self ≡ false
    → Dict.get t id ≡ Dict.get old id
    → Dict.get (reconcile_transport_peers self old new t) id ≡ Dict.get new id
unfolding reconcile_transport_peers
get-reconcile_transport_peers self id old new t once other agrees =
    let kept = get-remove_gone self id old new t other in
    let added = get-add_moved self id old new (remove_gone self old new t) once other in
    let here : Dict.get (remove_gone self old new t) id ≡ (
        if is_some (Dict.get old id) && not (is_some (Dict.get new id))
        then none
        else Dict.get old id) =
      kept ∙ rw (has-is_some old id, has-is_some new id, agrees) in
    added
    ∙ ap (new_address (Dict.get new id) (Dict.get old id)) here
    ∙ settled (Dict.get new id) (Dict.get old id)
