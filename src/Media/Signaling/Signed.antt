-- ===== src/Media/Signaling/Signed.antt =====
-- What a signature on a signaling message vouches for, and what it does not.
use variance.Crypto.{Ed25519}
use variance.Prelude.{ℕ, Text, Option, some, ◌≡◌, ◌∙◌, length, refl, ap, sym, Result}
use variance.Prelude.Bytes.{
  IsI64, append-cancel, i64_le_bytes, i64_le_bytes-injective, length-i64_le_bytes,
}
use variance.Media.Proto.{ice_candidate, control, IceCandidate, CallControl, SignalingMessage}
use variance.Media.Errors.{Error}
use variance.Media.Signaling.{SignalingHandler, payload_data, signing_data, verify_message}

-- Between the same two users in the same call, equal signed bytes mean equal times, equal nonces
-- and equal payload bytes, for times that are i64 and nonces of one length.
pub signing_data-injective :
    (m n : SignalingMessage)
    → m.call_id ≡ n.call_id
    → m.sender_did ≡ n.sender_did
    → m.recipient_did ≡ n.recipient_did
    → length m.nonce ≡ length n.nonce
    → IsI64 m.timestamp
    → IsI64 n.timestamp
    → signing_data m ≡ signing_data n
    → (m.timestamp ≡ n.timestamp)
      × (m.nonce ≡ n.nonce)
      × (payload_data m.message ≡ payload_data n.message)
unfolding signing_data
signing_data-injective m n call sender recipient nonces hm hn e =
    let (_, e₁) = append-cancel m.call_id n.call_id _ _ (ap length call) e in
    let (_, e₂) = append-cancel m.sender_did n.sender_did _ _ (ap length sender) e₁ in
    let (_, e₃) = append-cancel m.recipient_did n.recipient_did _ _ (ap length recipient) e₂ in
    let (times, e₄) =
      append-cancel (i64_le_bytes m.timestamp) (i64_le_bytes n.timestamp) _ _
        (length-i64_le_bytes m.timestamp ∙ sym (length-i64_le_bytes n.timestamp)) e₃ in
    let (same_nonce, payloads) = append-cancel m.nonce n.nonce _ _ nonces e₄ in
    (i64_le_bytes-injective m.timestamp n.timestamp hm hn times, same_nonce, payloads)

module _ (crypto : Ed25519) where
  open crypto use {VerifyingKey}

  abbrev outcome :
      SignalingHandler crypto → SignalingMessage → VerifyingKey → Result Error (Unit {0})
  outcome h m key = (verify_message crypto h m key).1

  -- The line index of an ICE candidate and the reason of a control message are not signed: whatever
  -- they are replaced by, the receiver's verdict is the same.
  pub verify_message-unsigned :
      (h : SignalingHandler crypto) (m : SignalingMessage) (key : VerifyingKey) (ice : IceCandidate)
      (c : CallControl) (index : Option ℕ) (reason : Option Text)
      → (outcome h (record m { message = some (ice_candidate ice) }) key
          ≡ outcome h
              (record m {
                message = some (ice_candidate (record ice { sdp_m_line_index = index }));
              })
              key)
        × (outcome h (record m { message = some (control c) }) key
            ≡ outcome h (record m { message = some (control (record c { reason = reason })) }) key)
  unfolding verify_message
  verify_message-unsigned h m key ice c index reason = (refl, refl)
