-- ===== src/Messaging/Direct/Contents.antt =====
-- crates/variance-messaging/src/direct.rs: the content of a message that was sent or received is read
-- from the storage afterwards.
use variance.Prelude.{
  ℕ, Text, List, Option, none, Result, ok, ◌≡◌, refl, ap, ◌∙◌, arith, length, Result-cases,
  Option-cases, Bool-cases, inl, inr, eqb, ◌==◌, list_eq, nat_eq,
}
use variance.Prelude.Map
use variance.Messaging.Errors.{Error}
use variance.Messaging.Proto.{DirectMessage, MessageContent}
use variance.Messaging.Storage.Io.{after-eq-ok, ◌>>=◌, ◌>>◌, return, lift}
use variance.Messaging.Storage.Sled.{decode_value}
use variance.Messaging.Direct.{
  Platform, DirectMessageHandler, Handling, stored, logged, put_session, persist_plaintext,
  persist_session,
}
use variance.Messaging.Direct.Exchange.{
  Fresh, olm_message_type_self, keep, signed_message, attached_key, send_self_message,
  send_encrypted, send_message, keep_plaintext, decrypt_message, receive_message,
  get_message_content,
}
use variance.Messaging.Direct.Plaintexts.{
  IsKept, load_plaintext-IsKept, persist_plaintext-IsKept, persist_session-IsKept,
}

module _ (p : Platform) where
  open p.olm use {Session}

  keep-IsKept :
      (h h' : DirectMessageHandler p) (nonce : List ℕ) (m : DirectMessage)
      (content : MessageContent)
      → length nonce ≡ 12
      → keep p nonce m content h ≡ (h', ok tt)
      → IsKept p h' m.id content
  unfolding keep
  keep-IsKept h h' nonce m content of_twelve e =
      let (h₁, u, first, rest) =
        after-eq-ok (λ _. persist_plaintext p nonce m.id content)
          (stored p (p.storage.store_direct m) h) h' tt e in
      persist_plaintext-IsKept p h₁ h' nonce m.id content of_twelve rest

  -- What is returned after a step that succeeds.
  pub after_return :
      {A B : Type 0} (m : Handling p A) (b : B) (h h' : DirectMessageHandler p) (c : B)
      → (m >>= λ _. return b) h ≡ (h', ok c)
      → (a : A) × (m h ≡ (h', ok a)) × (b ≡ c)
  after_return {A} {B} m b h h' c e =
      let (h₁, a, first, rest) = after-eq-ok (λ (_ : A). return b) (m h) h' c e in
      (a, first ∙ ap (λ q. (q.0, ok a)) rest, returned (ap (λ q. q.1) rest))
    where
      returned : {x y : B} → ◌≡◌ {A = Result Error B} (ok x) (ok y) → x ≡ y
      returned eq = cc

  send_self_message-IsKept :
      (fresh : Fresh p) (content : MessageContent) (h h' : DirectMessageHandler p)
      (m : DirectMessage)
      → length fresh.nonce ≡ 12
      → send_self_message p fresh content h ≡ (h', ok m)
      → IsKept p h' m.id content
  unfolding send_self_message signed_message
  send_self_message-IsKept fresh content h h' m of_twelve e =
      let sent =
        signed_message p fresh h.local_did content (olm_message_type_self, p.codec.encode content)
          none h in
      let (u, kept, same) = after_return (keep p fresh.nonce sent content) sent h h' m e in
      let held = keep-IsKept h h' fresh.nonce sent content of_twelve kept in
      rw (ap (λ (m : DirectMessage). m.id) same) at held

  send_encrypted-IsKept :
      (fresh : Fresh p) (did : Text) (content : MessageContent) (session : Session)
      (h h' : DirectMessageHandler p) (m : DirectMessage)
      → length fresh.nonce ≡ 12
      → send_encrypted p fresh did content session h ≡ (h', ok m)
      → IsKept p h' m.id content
  unfolding send_encrypted signed_message
  send_encrypted-IsKept fresh did content session h h' m of_twelve e =
      let (session', olm_message) = p.olm.encrypt session (p.codec.encode content) fresh.entropy in
      let h₀ = put_session p did session' h in
      let sent =
        signed_message p fresh did content (p.olm.to_parts olm_message)
          (attached_key p olm_message h₀) h₀ in
      let (u, logs, same) =
        after_return (keep p fresh.nonce sent content >> logged p (persist_session p did)) sent h₀
          h' m e in
      let (h₁, u₁, kept, rest) =
        after-eq-ok (λ _. logged p (persist_session p did)) (keep p fresh.nonce sent content h₀) h'
          u logs in
      let held =
        persist_session-IsKept p h₁ did sent.id content
          (keep-IsKept h₀ h₁ fresh.nonce sent content of_twelve kept) in
      let there : IsKept p h' sent.id content = rw (ap (λ q. q.0) rest) at held in
      rw (ap (λ (m : DirectMessage). m.id) same) at there

  send_message-IsKept :
      (fresh : Fresh p) (did : Text) (content : MessageContent) (h h' : DirectMessageHandler p)
      (m : DirectMessage)
      → length fresh.nonce ≡ 12
      → send_message p fresh did content h ≡ (h', ok m)
      → IsKept p h' m.id content
  unfolding send_message
  send_message-IsKept fresh did content h h' m of_twelve e =
      elim (Bool-cases (did == h.local_did)) [
        | inl own ↦ send_self_message-IsKept fresh content h h' m of_twelve (rw own at e)
        | inr other ↦ elim (Option-cases (Map.get did h.sessions)) [
          | inl absent ↦ absurd (ground (arith, ap (λ q. q.1) (rw (other, absent) at e)))
          | inr (session, present) ↦
              send_encrypted-IsKept fresh did content session h h' m of_twelve
                (rw (other, present) at e)
        ]
      ]

  keep_plaintext-IsKept :
      (nonce : List ℕ) (m : DirectMessage) (plaintext : Text) (content : MessageContent)
      (h h' : DirectMessageHandler p)
      → length nonce ≡ 12
      → keep_plaintext p nonce m plaintext h ≡ (h', ok content)
      → IsKept p h' m.id content
  unfolding keep_plaintext
  keep_plaintext-IsKept nonce m plaintext content h h' of_twelve e =
      let (h₁, found, decoded, rest) =
        after-eq-ok (λ (c : MessageContent). keep p nonce m c >> return c)
          (lift (decode_value p.codec plaintext) h) h' content e in
      let (u, kept, same) = after_return (keep p nonce m found) found h₁ h' content rest in
      let held = keep-IsKept h₁ h' nonce m found of_twelve kept in rw same at held

  receive_message-IsKept :
      (nonce : List ℕ) (m : DirectMessage) (content : MessageContent)
      (h h' : DirectMessageHandler p)
      → length nonce ≡ 12
      → receive_message p nonce m h ≡ (h', ok content)
      → IsKept p h' m.id content
  unfolding receive_message
  receive_message-IsKept nonce m content h h' of_twelve e =
      elim (Bool-cases (eqb m.olm_message_type olm_message_type_self)) [
        | inl own ↦ keep_plaintext-IsKept nonce m m.ciphertext content h h' of_twelve (rw own at e)
        | inr other ↦ elim (Result-cases (p.olm.from_parts m.olm_message_type m.ciphertext)) [
          | inl (olm_message, parts) ↦
              let (h₁, plaintext, decrypted, rest) =
                after-eq-ok (keep_plaintext p nonce m) (decrypt_message p m olm_message h) h'
                  content (rw (other, parts) at e) in
              keep_plaintext-IsKept nonce m plaintext content h₁ h' of_twelve rest
          | inr (x, failed) ↦ absurd (ground (arith, ap (λ q. q.1) (rw (other, failed) at e)))
        ]
      ]

  get_message_content-IsKept :
      (nonce : List ℕ) (m : DirectMessage) (content : MessageContent) (h : DirectMessageHandler p)
      (v : Option Text)
      → IsKept p h m.id content
      → p.storage.fetch_plaintext h.store m.id ≡ ok v
      → get_message_content p nonce m h ≡ (h, ok content)
  unfolding get_message_content
  get_message_content-IsKept nonce m content h v k fetch =
      rw (load_plaintext-IsKept p h m.id content v k fetch) refl

  -- The content of a message that was sent with a nonce of 12 bytes, to another user or to oneself,
  -- is what was sent, where the storage answers; it is read without a change of the handler, and so
  -- without the session.
  pub get_message_content-send_message :
      (fresh : Fresh p) (nonce : List ℕ) (did : Text) (content : MessageContent)
      (h h' : DirectMessageHandler p) (m : DirectMessage) (v : Option Text)
      → length fresh.nonce ≡ 12
      → send_message p fresh did content h ≡ (h', ok m)
      → p.storage.fetch_plaintext h'.store m.id ≡ ok v
      → get_message_content p nonce m h' ≡ (h', ok content)
  get_message_content-send_message fresh nonce did content h h' m v of_twelve sent =
      get_message_content-IsKept nonce m content h' v
        (send_message-IsKept fresh did content h h' m of_twelve sent)

  -- The content of a message that was received with a nonce of 12 bytes is what its receipt
  -- returned, where the storage answers; it is read without a change of the handler, and so never
  -- decrypted twice.
  pub get_message_content-receive_message :
      (nonce nonce' : List ℕ) (content : MessageContent) (h h' : DirectMessageHandler p)
      (m : DirectMessage) (v : Option Text)
      → length nonce ≡ 12
      → receive_message p nonce m h ≡ (h', ok content)
      → p.storage.fetch_plaintext h'.store m.id ≡ ok v
      → get_message_content p nonce' m h' ≡ (h', ok content)
  get_message_content-receive_message nonce nonce' content h h' m v of_twelve received =
      get_message_content-IsKept nonce' m content h' v
        (receive_message-IsKept nonce m content h h' of_twelve received)
