-- ===== src/Media/Signaling.antt =====
-- crates/variance-media/src/signaling.rs: signed signaling messages with a nonce per call. The clock
-- and the random nonce are arguments of the operations.
pub mod Signed
pub mod Replay
mod Tests
use variance.Crypto.{Ed25519}
use variance.Prelude.{
  ℕ, Text, List, [], ◌∷◌, ◌++◌, Option, none, some, Bool, true, false, ◌||◌, Result, ok, err, codes,
  length, eqb, not, if◌then◌else◌, ◌==◌, list_eq, nat_eq,
}
use variance.Prelude.Int.{ℤ}
use variance.Prelude.Bytes.{i64_le_bytes, i32_le_bytes}
use variance.Prelude.Map
use variance.Prelude.Map.{Map}
use variance.Media.Proto.{
  CallType, CallControlType, Message, offer, answer, ice_candidate, control, SignalingMessage,
  call_type_i32, control_type_i32,
}
use variance.Media.Errors.{Error, signaling, invalid_signature}

-- The bytes that `sign_message` adds for the message's kind and content.
unfoldable pub payload_data : Option Message → List ℕ
payload_data none = []
payload_data (some (offer o)) = 1 ∷ (o.sdp ++ i32_le_bytes o.call_type)
payload_data (some (answer a)) = 2 ∷ a.sdp
payload_data (some (ice_candidate i)) = 3 ∷ (i.candidate ++ i.sdp_mid)
payload_data (some (control c)) = 4 ∷ i32_le_bytes c.type

-- The bytes that are signed. A text is its UTF-8 bytes.
unfoldable pub signing_data : SignalingMessage → List ℕ
unfolding payload_data
signing_data m =
    m.call_id
    ++ (m.sender_did
        ++ (m.recipient_did ++ (i64_le_bytes m.timestamp ++ (m.nonce ++ payload_data m.message))))

-- The bytes whose signature `verify_message` asks for, of which it has its own copy.
unfoldable pub verified_payload : Option Message → List ℕ
verified_payload none = []
verified_payload (some (offer o)) = 1 ∷ (o.sdp ++ i32_le_bytes o.call_type)
verified_payload (some (answer a)) = 2 ∷ a.sdp
verified_payload (some (ice_candidate i)) = 3 ∷ (i.candidate ++ i.sdp_mid)
verified_payload (some (control c)) = 4 ∷ i32_le_bytes c.type

unfoldable pub verified_data : SignalingMessage → List ℕ
unfolding verified_payload
verified_data m =
    m.call_id
    ++ (m.sender_did
        ++ (m.recipient_did
            ++ (i64_le_bytes m.timestamp ++ (m.nonce ++ verified_payload m.message))))

-- `HashSet::contains` on a set of nonces.
unfoldable pub seen : List ℕ → List (List ℕ) → Bool
seen n [] = false
seen n (x ∷ xs) = x == n || seen n xs

module _ (crypto : Ed25519) where
  open crypto use {SigningKey, VerifyingKey, sign, verify}

  pub record SignalingHandler : Type 0 where
    pub local_did : Text
    pub signing_key : SigningKey
    pub seen_nonces : Map Text (List (List ℕ))

  unfoldable pub new_handler : Text → SigningKey → SignalingHandler
  new_handler local_did key = record { local_did = local_did; signing_key = key; seen_nonces = [] }

  unfoldable pub purge_call_nonces : SignalingHandler → Text → SignalingHandler
  purge_call_nonces h call_id = record h { seen_nonces = Map.remove call_id h.seen_nonces }

  unfoldable pub sign_message : SignalingHandler → SignalingMessage → List ℕ
  unfolding signing_data
  sign_message h m = sign h.signing_key (signing_data m)

  unfoldable pub create_signaling_message :
      SignalingHandler → Text → Text → Message → ℤ → List ℕ → SignalingMessage
  unfolding sign_message
  create_signaling_message h call_id recipient_did message now nonce =
      let m : SignalingMessage = record {
        call_id = call_id;
        sender_did = h.local_did;
        recipient_did = recipient_did;
        message = some message;
        timestamp = now;
        signature = [];
        nonce = nonce;
      } in
      record m { signature = sign_message h m }

  unfoldable pub send_offer :
      SignalingHandler → Text → Text → Text → CallType → ℤ → List ℕ → SignalingMessage
  unfolding create_signaling_message
  send_offer h call_id recipient_did sdp call_type =
      create_signaling_message h call_id recipient_did
        (offer (record { sdp = sdp; call_type = call_type_i32 call_type }))

  unfoldable pub send_answer : SignalingHandler → Text → Text → Text → ℤ → List ℕ → SignalingMessage
  unfolding create_signaling_message
  send_answer h call_id recipient_did sdp =
      create_signaling_message h call_id recipient_did (answer (record { sdp = sdp }))

  unfoldable pub send_ice_candidate :
      SignalingHandler → Text → Text → Text → Text → Option ℕ → ℤ → List ℕ → SignalingMessage
  unfolding create_signaling_message
  send_ice_candidate h call_id recipient_did candidate sdp_mid sdp_m_line_index =
      create_signaling_message h call_id recipient_did (
        ice_candidate (record {
          candidate = candidate;
          sdp_mid = sdp_mid;
          sdp_m_line_index = sdp_m_line_index;
        }))

  unfoldable pub send_control :
      SignalingHandler → Text → Text → CallControlType → Option Text → ℤ → List ℕ → SignalingMessage
  unfolding create_signaling_message
  send_control h call_id recipient_did control_type reason =
      create_signaling_message h call_id recipient_did
        (control (record { type = control_type_i32 control_type; reason = reason }))

  -- The entry of a call's nonces, or the empty set (`entry(..).or_default()`).
  unfoldable pub nonces_of : SignalingHandler → Text → List (List ℕ)
  nonces_of h call_id = elim (Map.get call_id h.seen_nonces) [ none ↦ [] | some ns ↦ ns ]

  -- `nonce_set.insert(nonce)` and the test of its result.
  unfoldable pub note_nonce :
      SignalingHandler → SignalingMessage → SignalingHandler × Result Error (Unit {0})
  unfolding nonces_of seen
  note_nonce h m =
      let ns = nonces_of h m.call_id in
      if seen m.nonce ns
      then (h, err (signaling (codes "replayed nonce")))
      else (record h { seen_nonces = Map.insert m.call_id (m.nonce ∷ ns) h.seen_nonces }, ok tt)

  unfoldable pub verify_message :
      SignalingHandler
      → SignalingMessage
      → VerifyingKey
      → SignalingHandler × Result Error (Unit {0})
  unfolding note_nonce verified_data
  verify_message h m key =
      if not (eqb (length m.nonce) 16)
      then (h, err (signaling (codes "invalid nonce length")))
      else (if not (eqb (length m.signature) 64)
          then (h, err (invalid_signature m.call_id))
          else (if verify key (verified_data m) m.signature
              then note_nonce h m
              else (h, err (invalid_signature m.call_id))))
