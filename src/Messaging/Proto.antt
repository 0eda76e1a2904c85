-- ===== src/Messaging/Proto.antt =====
-- crates/variance-proto/proto/messaging.proto: the messages that are stored and relayed.
use variance.Prelude.{ℕ, Text, List, Option, Bool}
use variance.Prelude.Int.{ℤ, pos}
use variance.Prelude.Map.{Map}

pub record DirectMessage : Type 0 where
  pub id : Text
  pub sender_did : Text
  pub recipient_did : Text
  pub ciphertext : List ℕ
  pub olm_message_type : ℕ
  pub signature : List ℕ
  pub timestamp : ℤ
  pub message_type : ℤ
  pub reply_to : Option Text
  pub sender_identity_key : Option (List ℕ)

pub record GroupMessage : Type 0 where
  pub id : Text
  pub sender_did : Text
  pub group_id : Text
  pub timestamp : ℤ
  pub message_type : ℤ
  pub reply_to : Option Text
  pub mls_ciphertext : List ℕ

pub data EnvelopeMessage : Type 0 where
  direct : DirectMessage → EnvelopeMessage
  group : GroupMessage → EnvelopeMessage

pub record OfflineMessageEnvelope : Type 0 where
  pub mailbox_token : List ℕ
  pub message : Option EnvelopeMessage
  pub stored_at : ℤ
  pub expires_at : ℤ

-- The fields that the handler of a request reads.
pub record OfflineMessageRequest : Type 0 where
  pub mailbox_token : List ℕ
  pub since_timestamp : Option ℤ
  pub limit : ℕ

pub record OfflineMessageResponse : Type 0 where
  pub messages : List OfflineMessageEnvelope
  pub has_more : Bool
  pub next_cursor : Option ℤ
  pub error_code : Option Text
  pub error_message : Option Text

pub record GroupMember : Type 0 where
  pub did : Text
  pub role : ℤ
  pub joined_at : ℤ
  pub nickname : Option Text

pub record Group : Type 0 where
  pub id : Text
  pub name : Text
  pub admin_did : Text
  pub members : List GroupMember
  pub created_at : ℤ
  pub avatar_cid : Option Text
  pub description : Option Text
  pub frozen : Bool

pub record GroupInvitation : Type 0 where
  pub group_id : Text
  pub group_name : Text
  pub inviter_did : Text
  pub invitee_did : Text
  pub timestamp : ℤ
  pub members : List GroupMember
  pub mls_welcome : List ℕ
  pub mls_commit : List ℕ

pub record Attachment : Type 0 where
  pub attachment_type : ℤ
  pub cid : Text
  pub name : Text
  pub size : ℕ
  pub mime_type : Text
  pub thumbnail_cid : Option Text

-- What a message says once it is decrypted.
pub record MessageContent : Type 0 where
  pub text : Text
  pub attachments : List Attachment
  pub mentions : List Text
  pub reply_to : Option Text
  pub metadata : Map Text Text

pub data MessageType : Type 0 where
  unspecified text image file audio video : MessageType

unfoldable pub message_type_i32 : MessageType → ℤ
message_type_i32 unspecified = pos 0
message_type_i32 text = pos 1
message_type_i32 image = pos 2
message_type_i32 file = pos 3
message_type_i32 audio = pos 4
message_type_i32 video = pos 5
