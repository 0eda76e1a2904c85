-- ===== src/Messaging/Direct/Signed.antt =====
-- crates/variance-messaging/src/direct.rs: the signatures of messages.
use variance.Prelude.{
  ℕ, Text, List, Option, none, ok, ◌≡◌, sym, ap, ◌∙◌, arith, Option-cases, Bool-cases, inl, inr,
  ◌==◌, list_eq, nat_eq,
}
use variance.Prelude.Map
use variance.Messaging.Proto.{DirectMessage, MessageContent}
use variance.Messaging.Direct.{Platform, DirectMessageHandler, put_session}
use variance.Messaging.Direct.Exchange.{
  Fresh, keep, signed_message, sign_message, signable_bytes, attached_key, send_self_message,
  send_message, verify_message_with_key, olm_message_type_self,
}
use variance.Messaging.Direct.Contents.{after_return}
use variance.Messaging.Direct.Delivery.{send_encrypted-sent}

module _ (p : Platform) where
  verify-signed_message :
      (fresh : Fresh p) (did : Text) (content : MessageContent) (parts : ℕ × List ℕ)
      (key : Option (List ℕ)) (h : DirectMessageHandler p)
      → verify_message_with_key p
          (signed_message p fresh did content parts key h)
          (p.signer.verifying_key h.signing_key)
        ≡ ok tt
  unfolding signed_message verify_message_with_key sign_message signable_bytes
  verify-signed_message fresh did content parts key h =
      let bytes = signable_bytes (signed_message p fresh did content parts key h) in
      ground
        (arith, p.signer.length-sign h.signing_key bytes, p.signer.verify-sign h.signing_key bytes)

  -- Every message that is sent, to another user or to oneself, has a signature that the verifying
  -- key of its sender accepts.
  pub verify_message_with_key-send_message :
      (fresh : Fresh p) (did : Text) (content : MessageContent) (h h' : DirectMessageHandler p)
      (m : DirectMessage)
      → send_message p fresh did content h ≡ (h', ok m)
      → verify_message_with_key p m (p.signer.verifying_key h.signing_key) ≡ ok tt
  unfolding send_message send_self_message
  verify_message_with_key-send_message fresh did content h h' m e =
      let accepts =
        λ (m : DirectMessage). verify_message_with_key p m (p.signer.verifying_key h.signing_key) in
      elim (Bool-cases (did == h.local_did)) [
        | inl own ↦
            let parts : ℕ × List ℕ = (olm_message_type_self, p.codec.encode content) in
            let sent = signed_message p fresh h.local_did content parts none h in
            let (u, kept, same) =
              after_return p (keep p fresh.nonce sent content) sent h h' m (rw own at e) in
            ap accepts (sym same) ∙ verify-signed_message fresh h.local_did content parts none h
        | inr other ↦ elim (Option-cases (Map.get did h.sessions)) [
          | inl absent ↦ absurd (ground (arith, ap (λ q. q.1) (rw (other, absent) at e)))
          | inr (s, present) ↦
              let (s', om) = p.olm.encrypt s (p.codec.encode content) fresh.entropy in
              let g = put_session p did s' h in
              ap accepts
                (sym (send_encrypted-sent p fresh did content s h h' m (rw (other, present) at e)))
              ∙ verify-signed_message fresh did content (p.olm.to_parts om) (attached_key p om g) g
        ]
      ]
