-- ===== src/Media/WebRtc.antt =====
-- The `webrtc` crate as crates/variance-media/src/call.rs calls it. It is not in the repository, so
-- its connections and session descriptions are types of the record, and its calls are functions of
-- it; an error is its display.
use variance.Prelude.{ℕ, Text, List, Option, none, some, Result}
use variance.Media.Proto.{CallStatus}

-- `RTCPeerConnectionState`.
pub data PeerState : Type 0 where
  unspecified new connecting connected disconnected failed closed : PeerState

-- What a state of the peer connection means for the call.
unfoldable pub status_of_peer : PeerState → Option CallStatus
status_of_peer connected = some CallStatus.active
status_of_peer failed = some CallStatus.failed
status_of_peer disconnected = some CallStatus.failed
status_of_peer closed = some CallStatus.ended
status_of_peer _ = none

pub record WebRtc : Type 1 where
  pub Connection : Type 0
  pub Description : Type 0
  pub sdp : Description → Text
  pub new_peer_connection : List Text → Result Text Connection
  pub create_data_channel : Connection → Text → Result Text Connection
  pub create_offer : Connection → Result Text Description
  pub create_answer : Connection → Result Text Description
  pub offer : Text → Result Text Description
  pub answer : Text → Result Text Description
  pub set_local_description : Connection → Description → Result Text Connection
  pub set_remote_description : Connection → Description → Result Text Connection
  pub add_ice_candidate : Connection → Text → Option Text → Option ℕ → Result Text Connection
  pub close : Connection → Result Text (Unit {0})
