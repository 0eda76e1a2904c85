-- ===== src/Messaging/Errors.antt =====
-- crates/variance-messaging/src/error.rs, the variants that the modelled code raises.
use variance.Prelude.{Text}

pub data Error : Type 0 where
  invalid_signature : Text → Error
  message_not_found : Text → Error
  invalid_format : Text → Error
  message_expired : Text → Error
  relay_storage_full : Error
  protocol_error : Text → Error
  serialization_error : Text → Error
  storage_error : Text → Error
  double_ratchet : Text → Error
  stale_one_time_key : Text → Error
  crypto : Text → Error
  group_not_found : Text → Error
  unauthorized : Text → Error
  mls_group : Text → Error
  mls_welcome : Text → Error
  mls_key_package : Text → Error
  encryption : Text → Error
  decryption : Text → Error
  mls_commit : Text → Error
  mls_pending_commit : Error
  mls_no_pending_commit : Text → Error
