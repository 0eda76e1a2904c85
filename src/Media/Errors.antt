-- ===== src/Media/Errors.antt =====
-- crates/variance-media/src/error.rs. The variants for decoding and I/O, which wrap foreign errors,
-- are not raised by the modelled code.
use Prim.Native.String.{String}
use variance.Prelude.{Text, codes, ◌++◌}

pub data Error : Type 0 where
  call_not_found : Text → Error
  invalid_state : Text → Error
  invalid_signature : Text → Error
  signaling : Text → Error
  web_rtc : Text → Error

-- `Error::WebRtc { message: format!("{context}: {e}") }`.
unfoldable pub webrtc_error : String → Text → Error
webrtc_error context e = web_rtc (codes context ++ e)

-- `Error::InvalidState { message }` with a literal and a shown value.
unfoldable pub invalid_state_error : String → Text → Error
invalid_state_error context shown = invalid_state (codes context ++ shown)
