-- ===== src/Identity/Errors.antt =====
-- crates/variance-identity/src/error.rs, the variants that the modelled code raises.
use variance.Prelude.{Text}

pub data Error : Type 0 where
  invalid_did : Text → Error
  username_taken : Text → Error
  crypto : Text → Error
  signature_verification : Text → Text → Error
  missing_signature : Text → Error
  serialization_error : Text → Error
  storage_error : Text → Error
