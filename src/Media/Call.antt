-- ===== src/Media/Call.antt =====
-- crates/variance-media/src/call.rs: the call manager. The WebRTC stack, the clock and the call ids
-- (ULIDs) are not in the repository: they are the record `WebRtc` and arguments of the operations.
-- An operation returns the manager after it and its result.
pub mod Negotiation
pub mod Steps
pub mod Effect
pub mod WellFormed
pub mod Lifecycle
pub mod Outcomes
mod Tests
use variance.Prelude.{
  ℕ, Text, List, [], ◌∷◌, Option, none, some, Result, ok, err, ◌==◌, not, find_first, map,
  if◌then◌else◌, list_eq, nat_eq, codes, ◌++◌,
}
use variance.Prelude.Int.{ℤ}
use variance.Prelude.Map
use variance.Prelude.Map.{Map}
use variance.Media.Proto.{
  CallType, CallStatus, CallState, ringing, connecting, active, ended, failed, is_ringing,
  is_connecting, is_over, call_type_i32, call_status_i32,
}
use variance.Media.WebRtc.{PeerState, status_of_peer}
use variance.Media.Errors.{Error, call_not_found, invalid_state, webrtc_error, invalid_state_error}

pub data CallEvent : Type 0 where
  state_changed : Text → CallStatus → CallEvent
  ice_candidate_gathered : Text → Text → Option Text → Option ℕ → CallEvent

-- `P` is the type of peer connections.
pub record Call (P : Type 0) : Type 0 where
  pub id : Text
  pub participants : List Text
  pub call_type : CallType
  pub status : CallStatus
  pub started_at : ℤ
  pub ended_at : Option ℤ
  pub peer_connection : Option P

pub record CallManager (P : Type 0) : Type 0 where
  pub local_did : Text
  pub calls : Map Text (Call P)
  pub ice_servers : List Text

unfoldable pub new_manager : {P : Type 0} → Text → List Text → CallManager P
new_manager local_did ice_servers = record {
  local_did = local_did;
  calls = [];
  ice_servers = ice_servers;
}

-- `{:?}` of a status.
pub status_name : CallStatus → Text
status_name CallStatus.unspecified = codes "Unspecified"
status_name CallStatus.ringing = codes "Ringing"
status_name CallStatus.connecting = codes "Connecting"
status_name CallStatus.active = codes "Active"
status_name CallStatus.ended = codes "Ended"
status_name CallStatus.failed = codes "Failed"

-- `format!("Call {call_id} already exists")`.
pub already_exists : Text → Error
already_exists call_id = invalid_state (codes "Call " ++ call_id ++ codes " already exists")

module _ {P : Type 0} where
  -- `Clone for Call`: the copy holds no peer connection.
  unfoldable pub clone : Call P → Call P
  clone c = record c { peer_connection = none }

  unfoldable pub put : CallManager P → Text → Call P → CallManager P
  put m call_id c = record m { calls = Map.insert call_id c m.calls }

  unfoldable pub drop_call : CallManager P → Text → CallManager P
  drop_call m call_id = record m { calls = Map.remove call_id m.calls }

  unfoldable pub create_call : CallManager P → Text → Text → CallType → ℤ → CallManager P × Call P
  unfolding put clone
  create_call m call_id recipient_did call_type now =
      let call : Call P = record {
        id = call_id;
        participants = m.local_did ∷ recipient_did ∷ [];
        call_type = call_type;
        status = ringing;
        started_at = now;
        ended_at = none;
        peer_connection = none;
      } in
      (put m call_id (clone call), call)

  unfoldable pub accept_call : CallManager P → Text → CallManager P × Result Error (Call P)
  unfolding put clone
  accept_call m call_id = elim (Map.get call_id m.calls) [
    | none ↦ (m, err (call_not_found call_id))
    | some c ↦
        if is_ringing c.status
        then (let c' = record c { status = connecting } in (put m call_id c', ok (clone c')))
        else (m, err (invalid_state_error "Cannot accept call in state " (status_name c.status)))
  ]

  unfoldable pub activate_call : CallManager P → Text → CallManager P × Result Error (Call P)
  unfolding put clone
  activate_call m call_id = elim (Map.get call_id m.calls) [
    | none ↦ (m, err (call_not_found call_id))
    | some c ↦
        if is_connecting c.status
        then (let c' = record c { status = active } in (put m call_id c', ok (clone c')))
        else (m, err (invalid_state_error "Cannot activate call in state " (status_name c.status)))
  ]

  -- The part of `reject_call`, `end_call` and `fail_call` before they wait for the connection to
  -- close: the call is marked in place, and a copy and the connection are kept.
  unfoldable pub begin_finish : CallManager P → Text → CallStatus → ℤ → Call P → CallManager P
  unfolding put
  begin_finish m call_id status now c =
      put m call_id (record c { status = status; ended_at = some now })

  unfoldable pub finished_copy : CallStatus → ℤ → Call P → Call P
  unfolding clone
  finished_copy status now c = clone (record c { status = status; ended_at = some now })

  unfoldable pub reject_call : CallManager P → Text → ℤ → CallManager P × Result Error (Call P)
  unfolding begin_finish finished_copy drop_call
  reject_call m call_id now = elim (Map.get call_id m.calls) [
    | none ↦ (m, err (call_not_found call_id))
    | some c ↦
        if is_ringing c.status
        then (
          drop_call (begin_finish m call_id ended now c) call_id,
          ok (finished_copy ended now c),
        )
        else (m, err (invalid_state_error "Cannot reject call in state " (status_name c.status)))
  ]

  unfoldable pub fail_call : CallManager P → Text → ℤ → CallManager P × Result Error (Call P)
  unfolding begin_finish finished_copy drop_call
  fail_call m call_id now = elim (Map.get call_id m.calls) [
    | none ↦ (m, err (call_not_found call_id))
    | some c ↦
        (drop_call (begin_finish m call_id failed now c) call_id, ok (finished_copy failed now c))
  ]

  -- `end_call`'s `pc.close().await?`, for a connection that is there.
  unfoldable pub close_if_present : (P → Result Text (Unit {0})) → Option P → Result Text (Unit {0})
  close_if_present close none = ok tt
  close_if_present close (some pc) = close pc

  unfoldable pub end_call :
      (P → Result Text (Unit {0}))
      → CallManager P
      → Text
      → ℤ
      → CallManager P × Result Error (Call P)
  unfolding begin_finish finished_copy drop_call close_if_present
  end_call close m call_id now = elim (Map.get call_id m.calls) [
    | none ↦ (m, err (call_not_found call_id))
    | some c ↦
        let m' = begin_finish m call_id ended now c in
        elim (close_if_present close c.peer_connection) [
          | ok _ ↦ (drop_call m' call_id, ok (finished_copy ended now c))
          | err e ↦ (m', err (webrtc_error "Failed to close peer connection: " e))
        ]
  ]

  unfoldable pub get_call : CallManager P → Text → Option (Call P)
  unfolding clone
  get_call m call_id = elim (Map.get call_id m.calls) [ none ↦ none | some c ↦ some (clone c) ]

  unfoldable pub get_remote_peer : CallManager P → Text → Option Text
  get_remote_peer m call_id = elim (Map.get call_id m.calls) [
    | none ↦ none
    | some c ↦ find_first (λ p. not (p == m.local_did)) c.participants
  ]

  unfoldable pub list_active_calls : CallManager P → List (Call P)
  unfolding clone
  list_active_calls m = map (λ entry. clone entry.1) m.calls

  unfoldable pub register_incoming_call :
      CallManager P → Text → Text → CallType → ℤ → CallManager P × Result Error (Call P)
  unfolding put clone
  register_incoming_call m call_id caller_did call_type now =
      if Map.contains_key call_id m.calls
      then (m, err (already_exists call_id))
      else (let call : Call P = record {
        id = call_id;
        participants = caller_did ∷ m.local_did ∷ [];
        call_type = call_type;
        status = ringing;
        started_at = now;
        ended_at = none;
        peer_connection = none;
      } in
          (put m call_id (clone call), ok call))

  unfoldable pub call_to_proto : Call P → CallState
  call_to_proto c = record {
    call_id = c.id;
    participants = c.participants;
    call_type = call_type_i32 c.call_type;
    status = call_status_i32 c.status;
    started_at = c.started_at;
    ended_at = c.ended_at;
  }

  unfoldable pub mark_status : CallStatus → ℤ → Call P → Call P
  mark_status status now c =
      if is_over status
      then record c { status = status; ended_at = some now }
      else record c { status = status }

  -- The handler that `create_peer_connection` installs for state changes, with what it broadcasts.
  unfoldable pub on_peer_connection_state_change :
      CallManager P → Text → PeerState → ℤ → CallManager P × Option CallEvent
  unfolding put mark_status status_of_peer
  on_peer_connection_state_change m call_id state now = elim (status_of_peer state) [
    | none ↦ (m, none)
    | some status ↦ elim (Map.get call_id m.calls) [
      | none ↦ (m, some (state_changed call_id status))
      | some c ↦ (put m call_id (mark_status status now c), some (state_changed call_id status))
    ]
  ]
