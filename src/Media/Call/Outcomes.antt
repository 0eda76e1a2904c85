-- ===== src/Media/Call/Outcomes.antt =====
-- The results of the call manager's operations, errors included.
use variance.Prelude.{
  Text, List, [], ◌∷◌, Option-cases, none, some, ◌≡◌, ◌≢◌, ◌⊎◌, true, false, refl, eq_self, eq_ne,
  arith, list_eq, nat_eq, Result, Result-cases, inl, inr, ok, err, ◌==◌,
}
use variance.Prelude.Int.{ℤ}
use variance.Prelude.Map
use variance.Media.Proto.{CallType, ringing, active, ended}
use variance.Media.WebRtc.{PeerState}
use variance.Media.Errors.{webrtc_error, invalid_state_error}
use variance.Media.Call.{
  Call, CallManager, accept_call, activate_call, reject_call, end_call, register_incoming_call,
  on_peer_connection_state_change, close_if_present, create_call, begin_finish, get_call,
  get_remote_peer, status_name, already_exists,
}

module _ {P : Type 0} where
  abbrev fresh_call : Text → List Text → CallType → ℤ → Call P
  fresh_call id participants kind now = record {
    id = id;
    participants = participants;
    call_type = kind;
    status = ringing;
    started_at = now;
    ended_at = none;
    peer_connection = none;
  }

  -- While end_call waits for the connection to close, accept_call, activate_call and reject_call
  -- refuse the call and change nothing.
  pub begin_finish-refuses :
      (m : CallManager P) (id : Text) (c : Call P) (now later : ℤ)
      → let waiting = begin_finish m id ended now c in
        (accept_call waiting id
          ≡ (waiting, err (invalid_state_error "Cannot accept call in state " (status_name ended))))
        × (activate_call waiting id ≡ (
          waiting,
          err (invalid_state_error "Cannot activate call in state " (status_name ended)),
        ))
        × (reject_call waiting id later ≡ (
          waiting,
          err (invalid_state_error "Cannot reject call in state " (status_name ended)),
        ))
  unfolding begin_finish accept_call activate_call reject_call
  begin_finish-refuses m id c now later =
      ground
        (arith, Map.get-insert_self id (record c { status = ended; ended_at = some now }) m.calls)

  -- What end_call returns and leaves: where the connection closes the ended call is returned and
  -- gone, where closing fails the error is returned and the call stays as ended; no other call
  -- changes.
  pub end_call_lem :
      (close : P → Result Text (Unit {0})) (m : CallManager P) (id j : Text) (now : ℤ) (c : Call P)
      → Map.get id m.calls ≡ some c
      → id ≢ j
      → let n = (end_call close m id now).0 in
        let gone = record c { status = ended; ended_at = some now } in
        (((close_if_present close c.peer_connection ≡ ok tt)
            × ((end_call close m id now).1 ≡ ok (record gone { peer_connection = none }))
            × (Map.get id n.calls ≡ none))
          ⊎ ((e : Text) × (close_if_present close c.peer_connection ≡ err e)
              × ((end_call close m id now).1
                  ≡ err (webrtc_error "Failed to close peer connection: " e))
              × (Map.get id n.calls ≡ some gone)))
        × (Map.get j n.calls ≡ Map.get j m.calls)
  unfolding end_call
  end_call_lem close m id j now c e ne =
      let gone = record c { status = ended; ended_at = some now } in
      elim (Result-cases (close_if_present close c.peer_connection)) [
        | inl (u, closed) ↦ ground (
          arith,
          Map.get-remove_self id (Map.insert id gone m.calls),
          Map.get-remove_ne id j (Map.insert id gone m.calls),
          Map.get-insert_ne id j gone m.calls,
        )
        | inr (x, broken) ↦ (
          inr (x, ground arith, ground arith, ground (arith, Map.get-insert_self id gone m.calls)),
          ground (arith, Map.get-insert_ne id j gone m.calls),
        )
      ]

  -- A call id that is in use cannot be taken over, and a free one becomes a ringing call from the
  -- caller.
  pub register_incoming_call_lem :
      (m : CallManager P) (id caller : Text) (kind : CallType) (now : ℤ)
      → let (n, result) = register_incoming_call m id caller kind now in
        ((c : Call P) × (Map.get id m.calls ≡ some c)
          × (n ≡ m)
          × (result ≡ err (already_exists id)))
        ⊎ ((c : Call P) × (Map.get id m.calls ≡ none)
            × (result ≡ ok c)
            × (get_call n id ≡ some c)
            × (c.status ≡ ringing)
            × (c.participants ≡ caller ∷ m.local_did ∷ []))
  unfolding register_incoming_call get_call Map.contains_key
  register_incoming_call_lem m id caller kind now = elim (Option-cases (Map.get id m.calls)) [
    | inl e ↦
        let c : Call P = fresh_call id (caller ∷ m.local_did ∷ []) kind now in
        inr (c, e, ground arith, ground (arith, Map.get-insert_self id c m.calls), refl, refl)
    | inr (c, e) ↦ inl (c, e, ground arith, ground arith)
  ]

  -- Whoever the other party of a call is, get_remote_peer names it, for a call that was created and
  -- for one that was registered, where that is not the local user and the id is free.
  pub get_remote_peer_lem :
      (m : CallManager P) (id did : Text) (kind : CallType) (now : ℤ)
      → did ≢ m.local_did
      → Map.get id m.calls ≡ none
      → (get_remote_peer (create_call m id did kind now).0 id ≡ some did)
        × (get_remote_peer (register_incoming_call m id did kind now).0 id ≡ some did)
  unfolding get_remote_peer create_call register_incoming_call Map.contains_key
  get_remote_peer_lem m id did kind now ne free =
      let local : (m.local_did == m.local_did) ≡ true = eq_self m.local_did in
      let remote : (did == m.local_did) ≡ false = eq_ne did m.local_did ne in
      (
        ground (
          arith,
          local,
          remote,
          Map.get-insert_self id (fresh_call id (m.local_did ∷ did ∷ []) kind now) m.calls,
        ),
        ground (
          arith,
          remote,
          Map.get-insert_self id (fresh_call id (did ∷ m.local_did ∷ []) kind now) m.calls,
        ),
      )

  -- A call that is in the map, in whatever state, is made active by a Connected event and keeps the
  -- end time that it had.
  pub connected_revives :
      (m : CallManager P) (id : Text) (c : Call P) (now : ℤ)
      → Map.get id m.calls ≡ some c
      → Map.get id (on_peer_connection_state_change m id PeerState.connected now).0.calls
        ≡ some (record c { status = active })
  unfolding on_peer_connection_state_change
  connected_revives m id c now e =
      ground (arith, Map.get-insert_self id (record c { status = active }) m.calls)
