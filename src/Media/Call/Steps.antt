-- ===== src/Media/Call/Steps.antt =====
-- The requests that reach the call manager, one constructor for each operation that changes it and
-- one for the handler of connection states, and runs of them.
use variance.Prelude.{ℕ, Text, List, [], ◌∷◌, Option}
use variance.Prelude.Int.{ℤ}
use variance.Media.Proto.{CallType}
use variance.Media.WebRtc.{WebRtc, PeerState}
use variance.Media.Call.{
  CallManager, create_call, accept_call, activate_call, reject_call, end_call, fail_call,
  register_incoming_call, on_peer_connection_state_change,
}
use variance.Media.Call.Negotiation.{
  create_offer_for, handle_offer, handle_answer, handle_ice_candidate,
}

pub data Request : Type 0 where
  creates : Text → Text → CallType → ℤ → Request
  registers : Text → Text → CallType → ℤ → Request
  accepts : Text → Request
  activates : Text → Request
  rejects : Text → ℤ → Request
  ends : Text → ℤ → Request
  fails : Text → ℤ → Request
  offers : Text → Request
  takes_offer : Text → Text → Request
  takes_answer : Text → Text → Request
  takes_candidate : Text → Text → Option Text → Option ℕ → Request
  peer_changes : Text → PeerState → ℤ → Request

module _ (w : WebRtc) where
  open w use {Connection, close}

  unfoldable pub step : CallManager Connection → Request → CallManager Connection
  step m (creates id did kind now) = (create_call m id did kind now).0
  step m (registers id did kind now) = (register_incoming_call m id did kind now).0
  step m (accepts id) = (accept_call m id).0
  step m (activates id) = (activate_call m id).0
  step m (rejects id now) = (reject_call m id now).0
  step m (ends id now) = (end_call close m id now).0
  step m (fails id now) = (fail_call m id now).0
  step m (offers id) = (create_offer_for w m id).0
  step m (takes_offer id sdp) = (handle_offer w m id sdp).0
  step m (takes_answer id sdp) = (handle_answer w m id sdp).0
  step m (takes_candidate id candidate mid index) =
      (handle_ice_candidate w m id candidate mid index).0
  step m (peer_changes id state now) = (on_peer_connection_state_change m id state now).0

  unfoldable pub run : CallManager Connection → List Request → CallManager Connection
  unfolding step
  run m [] = m
  run m (r ∷ rs) = run (step m r) rs
