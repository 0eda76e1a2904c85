-- ===== src/Messaging/Direct/Decryption.antt =====
-- crates/variance-messaging/src/direct.rs: how a message that its recipient can decrypt is received.
use mathlib.Core.Path.{subst}
use variance.Prelude.{
  ℕ, List, none, some, false, ok, ◌≡◌, refl, sym, ap, ap₂, ◌∙◌, map_err, eqb, list_eq, nat_eq,
}
use variance.Prelude.Map
use variance.Messaging.Errors.{protocol_error}
use variance.Messaging.Proto.{DirectMessage, MessageContent}
use variance.Messaging.Olm.{OlmMessage, pre_key, normal}
use variance.Messaging.Storage.Io.{after, ◌>>◌, return}
use variance.Messaging.Direct.{Platform, DirectMessageHandler, put_session, persist_session}
use variance.Messaging.Direct.Exchange.{
  keep, decrypt_pre_key, decrypt_normal, accept_session, sender_key, decrypt_message,
  keep_plaintext, receive_message, olm_message_type_self,
}
use variance.Messaging.Direct.Frames.{ChangesStore, keep-ChangesStore, after-ChangesStore}

module _ (p : Platform) where
  open p.olm use {Account, Session, PublicKey, PreKey, Normal}

  -- A message that its session can decrypt.
  pub decrypt_message-ok :
      (m : DirectMessage) (om : OlmMessage PreKey Normal) (s : Session) (plaintext : List ℕ)
      (h : DirectMessageHandler p)
      → Map.get m.sender_did h.sessions ≡ some s
      → (p.olm.decrypt s om).1 ≡ ok plaintext
      → decrypt_message p m om h ≡ (
        (persist_session p m.sender_did (put_session p m.sender_did (p.olm.decrypt s om).0 h)).0,
        ok plaintext,
      )
  unfolding decrypt_message decrypt_pre_key decrypt_normal
  decrypt_message-ok m (pre_key first) s plaintext h present e =
      rw (decrypt_message, present, decrypt_pre_key, e) refl
  decrypt_message-ok m (normal next) s plaintext h present e =
      rw (decrypt_message, present, decrypt_normal, e) refl

  -- The type of an encrypted message is not that of a message to oneself.
  sealed_type : (om : OlmMessage PreKey Normal) → eqb (p.olm.to_parts om).0 999 ≡ false
  sealed_type (pre_key first) = rw (p.olm.to_parts-type (pre_key first)) refl
  sealed_type (normal next) = rw (p.olm.to_parts-type (normal next)) refl

  pub keep_plaintext-encode :
      (nonce : List ℕ) (m : DirectMessage) (content : MessageContent) (h : DirectMessageHandler p)
      → keep_plaintext p nonce m (p.codec.encode content) h
        ≡ (keep p nonce m content >> return content) h
  unfolding keep_plaintext
  keep_plaintext-encode nonce m content h =
      ap (λ r. after (λ (c : MessageContent). keep p nonce m c >> return c) (h, r))
        (ap (map_err protocol_error) (p.codec.decode_encode content))

  -- A message with the parts of one that can be decrypted is kept with its content.
  pub receive_message-decrypted :
      (nonce : List ℕ) (m : DirectMessage) (om : OlmMessage PreKey Normal)
      (content : MessageContent) (h h₁ : DirectMessageHandler p)
      → m.olm_message_type ≡ (p.olm.to_parts om).0
      → m.ciphertext ≡ (p.olm.to_parts om).1
      → decrypt_message p m om h ≡ (h₁, ok (p.codec.encode content))
      → (receive_message p nonce m h ≡ (keep p nonce m content >> return content) h₁)
        × ChangesStore p h₁ (receive_message p nonce m h).0
  unfolding receive_message
  receive_message-decrypted nonce m om content h h₁ typed body decrypted =
      let sealed : eqb m.olm_message_type olm_message_type_self ≡ false =
        ap (λ t. eqb t 999) typed ∙ sealed_type om in
      let parts : p.olm.from_parts m.olm_message_type m.ciphertext ≡ ok om =
        ap₂ p.olm.from_parts typed body ∙ p.olm.from_parts-to_parts om in
      let received : receive_message p nonce m h ≡ (keep p nonce m content >> return content) h₁ =
        rw (receive_message, sealed, parts)
          (ap (after (keep_plaintext p nonce m)) decrypted
            ∙ keep_plaintext-encode nonce m content h₁) in
      let kept =
        after-ChangesStore p (λ (_ : Unit {0}). return content) h₁ (keep p nonce m content h₁)
          (keep-ChangesStore p nonce m content h₁) (λ _ g. refl) in
      (received, subst (ChangesStore p h₁) (ap (λ q. q.0) (sym received)) kept)

  pub sender_key-to_vec :
      (m : DirectMessage) (key : PublicKey)
      → m.sender_identity_key ≡ some (p.olm.to_vec key)
      → sender_key p m ≡ ok key
  unfolding sender_key
  sender_key-to_vec m key e =
      rw (sender_key, e, p.olm.length-to_vec key, p.olm.from_bytes-to_vec key) refl

  -- A first message from which a session can be made.
  pub decrypt_message-first :
      (m : DirectMessage) (first : PreKey) (key : PublicKey) (account : Account) (t : Session)
      (plaintext : List ℕ) (h : DirectMessageHandler p)
      → Map.get m.sender_did h.sessions ≡ none
      → m.sender_identity_key ≡ some (p.olm.to_vec key)
      → p.olm.create_inbound_session h.account key first ≡ (account, ok (t, plaintext))
      → decrypt_message p m (pre_key first) h ≡ (
        (persist_session p m.sender_did
            (put_session p m.sender_did t (record h { account = account }))).0,
        ok plaintext,
      )
  unfolding decrypt_message accept_session
  decrypt_message-first m first key account t plaintext h absent sent made =
      let result = ap (λ r. r.1) made in
      rw (decrypt_message, absent, sender_key-to_vec m key sent, accept_session, result)
        (ap
          (λ (account : Account). (
            (persist_session p m.sender_did
                (put_session p m.sender_did t (record h { account = account }))).0,
            ok plaintext,
          ))
          (ap (λ r. r.0) made))
