-- ===== src/Messaging/Direct/Receiving.antt =====
-- crates/variance-messaging/src/direct.rs: what the receipt of a message does to the handler.
use variance.Prelude.{
  ℕ, Text, List, none, some, Result, ok, err, ◌≡◌, refl, ap, Result-cases, Option-cases, Bool-cases,
  inl, inr, eqb, map_err, list_eq, nat_eq,
}
use variance.Prelude.Map
use variance.Messaging.Errors.{Error}
use variance.Messaging.Proto.{DirectMessage}
use variance.Messaging.Olm.{OlmMessage, pre_key, normal, SessionCreationError}
use variance.Messaging.Storage.Io.{after, ◌>>◌, return}
use variance.Messaging.Direct.{Platform, DirectMessageHandler, logged, put_session, persist_session}
use variance.Messaging.Direct.Exchange.{
  decrypt_pre_key, decrypt_normal, decryption_failure, accept_session, sender_key, decrypt_message,
  keep_plaintext, receive_message, olm_message_type_self,
}
use variance.Messaging.Direct.Frames.{
  ChangesStore, ChangesStore-trans, persist_session-ChangesStore, keep_plaintext-ChangesStore,
  after-ChangesStore,
}

module _ (p : Platform) where
  open p.olm use {Account, Session, PublicKey, PreKey, Normal}

  -- What a message from `did` may do to a handler, but for its storage: nothing; advance the session
  -- with the sender by a decryption; without such a session, make one with a key of the account, or
  -- fail to.
  pub data Received (m : DirectMessage) (h h' : DirectMessageHandler p) : Type 0 where
    untouched : ChangesStore p h h' → Received m h h'
    advanced :
        (s : Session) (om : OlmMessage PreKey Normal)
        → Map.get m.sender_did h.sessions ≡ some s
        → ChangesStore p (put_session p m.sender_did (p.olm.decrypt s om).0 h) h'
        → Received m h h'
    accepted :
        (key : PublicKey) (first : PreKey) (account : Account) (s : Session) (plaintext : List ℕ)
        → Map.get m.sender_did h.sessions ≡ none
        → sender_key p m ≡ ok key
        → p.olm.create_inbound_session h.account key first ≡ (account, ok (s, plaintext))
        → ChangesStore p (put_session p m.sender_did s (record h { account = account })) h'
        → Received m h h'
    rejected :
        (key : PublicKey) (first : PreKey) (account : Account) (e : SessionCreationError)
        → Map.get m.sender_did h.sessions ≡ none
        → p.olm.create_inbound_session h.account key first ≡ (account, err e)
        → ChangesStore p (record h { account = account }) h'
        → Received m h h'

  -- A further change of the storage.
  Received-ChangesStore :
      (m : DirectMessage) (h h₁ h₂ : DirectMessageHandler p)
      → Received m h h₁
      → ChangesStore p h₁ h₂
      → Received m h h₂
  Received-ChangesStore m h h₁ h₂ (untouched c) d = untouched (ChangesStore-trans p h h₁ h₂ c d)
  Received-ChangesStore m h h₁ h₂ (advanced s om present c) d =
      advanced s om present
        (ChangesStore-trans p (put_session p m.sender_did (p.olm.decrypt s om).0 h) h₁ h₂ c d)
  Received-ChangesStore m h h₁ h₂ (accepted key first account s plaintext absent sent made c) d =
      accepted key first account s plaintext absent sent made (
        ChangesStore-trans p (put_session p m.sender_did s (record h { account = account })) h₁ h₂ c
          d)
  Received-ChangesStore m h h₁ h₂ (rejected key first account e absent failed c) d =
      rejected key first account e absent failed
        (ChangesStore-trans p (record h { account = account }) h₁ h₂ c d)

  decrypt_pre_key-ChangesStore :
      (did : Text) (s : Session) (om : OlmMessage PreKey Normal) (h : DirectMessageHandler p)
      → ChangesStore p (put_session p did (p.olm.decrypt s om).0 h) (decrypt_pre_key p did s om h).0
  unfolding decrypt_pre_key
  decrypt_pre_key-ChangesStore did s om h =
      persist_session-ChangesStore p did (put_session p did (p.olm.decrypt s om).0 h)

  decrypt_normal-ChangesStore :
      (did : Text) (s : Session) (om : OlmMessage PreKey Normal) (h : DirectMessageHandler p)
      → ChangesStore p (put_session p did (p.olm.decrypt s om).0 h) (decrypt_normal p did s om h).0
  unfolding decrypt_normal
  decrypt_normal-ChangesStore did s om h =
      let h₁ = put_session p did (p.olm.decrypt s om).0 h in
      after-ChangesStore p
        (λ (plaintext : List ℕ). logged p (persist_session p did) >> return plaintext) h₁
        (h₁, map_err (decryption_failure p) (p.olm.decrypt s om).1) refl
        (λ plaintext g. persist_session-ChangesStore p did g)

  accept_session-Received :
      (m : DirectMessage) (key : PublicKey) (first : PreKey) (h : DirectMessageHandler p)
      → Map.get m.sender_did h.sessions ≡ none
      → sender_key p m ≡ ok key
      → Received m h (accept_session p m.sender_did key first h).0
  unfolding accept_session
  accept_session-Received m key first h absent sent =
      let made = p.olm.create_inbound_session h.account key first in
      let h₁ : DirectMessageHandler p = record h { account = made.0 } in
      elim (Result-cases made.1) [
        | inl ((s, plaintext), e) ↦
            accepted key first made.0 s plaintext absent sent (ap (λ r. (made.0, r)) e) (
              rw (accept_session, e)
                (persist_session-ChangesStore p m.sender_did (put_session p m.sender_did s h₁)))
        | inr (x, e) ↦
            rejected key first made.0 x absent (ap (λ r. (made.0, r)) e)
              (rw (accept_session, e) refl)
      ]

  decrypt_message-Received :
      (m : DirectMessage) (om : OlmMessage PreKey Normal) (h : DirectMessageHandler p)
      → Received m h (decrypt_message p m om h).0
  unfolding decrypt_message
  decrypt_message-Received m (pre_key first) h =
      elim (Option-cases (Map.get m.sender_did h.sessions)) [
        | inl absent ↦ elim (Result-cases (sender_key p m)) [
          | inl (key, sent) ↦
              rw (decrypt_message, absent, sent) (accept_session-Received m key first h absent sent)
          | inr (x, failed) ↦ rw (decrypt_message, absent, failed) (untouched refl)
        ]
        | inr (s, present) ↦
            rw (decrypt_message, present)
              (advanced s (pre_key first) present
                (decrypt_pre_key-ChangesStore m.sender_did s (pre_key first) h))
      ]
  decrypt_message-Received m (normal next) h =
      elim (Option-cases (Map.get m.sender_did h.sessions)) [
        | inl absent ↦ rw (decrypt_message, absent) (untouched refl)
        | inr (s, present) ↦
            rw (decrypt_message, present)
              (advanced s (normal next) present
                (decrypt_normal-ChangesStore m.sender_did s (normal next) h))
      ]

  keep_after :
      (nonce : List ℕ) (m : DirectMessage) (h : DirectMessageHandler p)
      (r : DirectMessageHandler p × Result Error Text)
      → Received m h r.0
      → Received m h (after (keep_plaintext p nonce m) r).0
  keep_after nonce m h (g, ok plaintext) received =
      Received-ChangesStore m h g (keep_plaintext p nonce m plaintext g).0 received
        (keep_plaintext-ChangesStore p nonce m plaintext g)
  keep_after nonce m h (g, err e) received = received

  -- The receipt of a message, with or without success, does one of four things to the handler but
  -- for its storage: nothing; a decryption in the session with its sender; a new session where
  -- there is none and the message brings the sender's key; or a failed attempt at one, which
  -- changes the account only. In particular a first message never replaces a session nor uses up a
  -- one-time key where there is a session.
  pub receive_message-Received :
      (nonce : List ℕ) (m : DirectMessage) (h : DirectMessageHandler p)
      → Received m h (receive_message p nonce m h).0
  unfolding receive_message
  receive_message-Received nonce m h =
      elim (Bool-cases (eqb m.olm_message_type olm_message_type_self)) [
        | inl own ↦
            rw (receive_message, own)
              (untouched (keep_plaintext-ChangesStore p nonce m m.ciphertext h))
        | inr other ↦ elim (Result-cases (p.olm.from_parts m.olm_message_type m.ciphertext)) [
          | inl (om, parts) ↦
              rw (receive_message, other, parts)
                (keep_after nonce m h (decrypt_message p m om h) (decrypt_message-Received m om h))
          | inr (x, failed) ↦ rw (receive_message, other, failed) (untouched refl)
        ]
      ]
