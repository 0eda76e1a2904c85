-- ===== src/Media/Proto.antt =====
-- The messages of crates/variance-proto/proto/media.proto that calls and signaling exchange.
use variance.Prelude.{ℕ, Option, Text, List, Bool, true, false}
use variance.Prelude.Int.{ℤ}

pub data CallType : Type 0 where
  unspecified audio video screen_share : CallType

pub data CallStatus : Type 0 where
  unspecified ringing connecting active ended failed : CallStatus

pub data CallControlType : Type 0 where
  unspecified ring accept reject hangup mute_audio unmute_audio : CallControlType
  enable_video disable_video : CallControlType

-- An enum travels as an `i32`: `call_type.into()`, `control_type.into()`.
unfoldable pub call_type_i32 : CallType → ℕ
call_type_i32 CallType.unspecified = 0
call_type_i32 CallType.audio = 1
call_type_i32 CallType.video = 2
call_type_i32 CallType.screen_share = 3

unfoldable pub control_type_i32 : CallControlType → ℕ
control_type_i32 CallControlType.unspecified = 0
control_type_i32 CallControlType.ring = 1
control_type_i32 CallControlType.accept = 2
control_type_i32 CallControlType.reject = 3
control_type_i32 CallControlType.hangup = 4
control_type_i32 CallControlType.mute_audio = 5
control_type_i32 CallControlType.unmute_audio = 6
control_type_i32 CallControlType.enable_video = 7
control_type_i32 CallControlType.disable_video = 8

unfoldable pub call_status_i32 : CallStatus → ℕ
call_status_i32 CallStatus.unspecified = 0
call_status_i32 CallStatus.ringing = 1
call_status_i32 CallStatus.connecting = 2
call_status_i32 CallStatus.active = 3
call_status_i32 CallStatus.ended = 4
call_status_i32 CallStatus.failed = 5

pub record CallState : Type 0 where
  pub call_id : Text
  pub participants : List Text
  pub call_type : ℕ
  pub status : ℕ
  pub started_at : ℤ
  pub ended_at : Option ℤ

pub record Offer : Type 0 where
  pub sdp : Text
  pub call_type : ℕ

pub record Answer : Type 0 where
  pub sdp : Text

pub record IceCandidate : Type 0 where
  pub candidate : Text
  pub sdp_mid : Text
  pub sdp_m_line_index : Option ℕ

pub record CallControl : Type 0 where
  pub type : ℕ
  pub reason : Option Text

-- The `oneof` of a signaling message.
pub data Message : Type 0 where
  offer : Offer → Message
  answer : Answer → Message
  ice_candidate : IceCandidate → Message
  control : CallControl → Message

pub record SignalingMessage : Type 0 where
  pub call_id : Text
  pub sender_did : Text
  pub recipient_did : Text
  pub message : Option Message
  pub timestamp : ℤ
  pub signature : List ℕ
  pub nonce : List ℕ

-- `CallStatus: PartialEq`.
abbrev pub is_ringing : CallStatus → Bool
is_ringing CallStatus.ringing = true
is_ringing _ = false

abbrev pub is_connecting : CallStatus → Bool
is_connecting CallStatus.connecting = true
is_connecting _ = false

-- `matches!(status, Failed | Ended)`.
abbrev pub is_over : CallStatus → Bool
is_over CallStatus.ended = true
is_over CallStatus.failed = true
is_over _ = false
