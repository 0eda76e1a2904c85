-- ===== src/Messaging/Direct/Conversation.antt =====
-- crates/variance-messaging/src/direct.rs: messages that are sent and received one after the other,
-- and the first message to a user, from which the recipient makes its session.
use variance.Prelude.{
  ℕ, Text, List, [], ◌∷◌, Result, ok, err, ◌≡◌, refl, ap, ap₂, ◌∙◌, map, list_eq, nat_eq,
}
use variance.Messaging.Errors.{Error}
use variance.Messaging.Proto.{DirectMessage, MessageContent}
use variance.Messaging.Storage.Io.{after, ◌>>◌, return}
use variance.Messaging.Direct.{
  Platform, DirectMessageHandler, Handling, stored, logged, put_session, persist_plaintext,
  persist_session,
}
use variance.Messaging.Direct.Exchange.{
  Fresh, keep, signed_message, attached_key, send_encrypted, send_message, receive_message,
}
use variance.Messaging.Direct.Delivery.{
  IsConnected, send_message-other, receive_message-send_message,
}

module _ (p : Platform) where
  open p.storage use {Store}

  -- The storage takes what it is given, and the encryption at rest does not fail.
  pub record IsReliable : Type 0 where
    pub stores_direct : (m : DirectMessage) (s : Store) → (p.storage.store_direct m s).1 ≡ ok tt
    pub stores_plaintext :
        (id blob : Text) (s : Store) → (p.storage.store_plaintext id blob s).1 ≡ ok tt
    pub encrypts :
        (key : p.aead.Key) (nonce plaintext : List ℕ)
        → (ciphertext : List ℕ) × (p.aead.aes_encrypt key nonce plaintext ≡ ok ciphertext)

  -- A message, with what the recipient draws for its plaintext.
  pub record Sending : Type 0 where
    pub fresh : Fresh p
    pub nonce : List ℕ
    pub content : MessageContent

  -- What the recipient makes of messages that are sent in turn.
  unfoldable pub exchange :
      List Sending
      → DirectMessageHandler p
      → DirectMessageHandler p
      → List (Result Error MessageContent)
  exchange [] a b = []
  exchange (x ∷ xs) a b =
      let (a', sent) = send_message p x.fresh b.local_did x.content a in
      elim sent [
        | err e ↦ err e ∷ exchange xs a' b
        | ok m ↦ let (b', received) = receive_message p x.nonce m b in received ∷ exchange xs a' b'
      ]

  persist_plaintext-ok :
      IsReliable
      → (nonce : List ℕ) (id : Text) (content : MessageContent) (h : DirectMessageHandler p)
      → (persist_plaintext p nonce id content h).1 ≡ ok tt
  unfolding persist_plaintext
  persist_plaintext-ok reliable nonce id content h =
      let (ciphertext, encrypted) =
        reliable.encrypts h.storage_key nonce (p.codec.encode content) in
      rw (persist_plaintext, encrypted) (reliable.stores_plaintext id _ h.store)

  ok_equal : {A : Type 0} {a b : A} → ◌≡◌ {A = Result Error A} (ok a) (ok b) → a ≡ b
  ok_equal e = cc

  refuted : {A : Type 0} {a : A} {x : Error} → ◌≡◌ {A = Result Error A} (err x) (ok a) → ⊥
  refuted e = cc

  -- What follows a step that succeeds.
  after_ok :
      {A B : Type 0} (f : A → Handling p B) (r : DirectMessageHandler p × Result Error A) (a : A)
      → ◌≡◌ {A = Result Error A} r.1 (ok a)
      → after f r ≡ f a r.0
  after_ok f (h, ok x) a e = ap (λ y. f y h) (ok_equal e)
  after_ok f (h, err x) a e = absurd (refuted e)

  keep-ok :
      IsReliable
      → (nonce : List ℕ) (m : DirectMessage) (content : MessageContent) (h : DirectMessageHandler p)
      → (keep p nonce m content h).1 ≡ ok tt
  unfolding keep
  keep-ok reliable nonce m content h =
      let first = stored p (p.storage.store_direct m) h in
      ap (λ r. r.1)
        (after_ok (λ _. persist_plaintext p nonce m.id content) first tt
          (reliable.stores_direct m h.store))
      ∙ persist_plaintext-ok reliable nonce m.id content first.0

  keep-return :
      {B : Type 0}
      → IsReliable
      → (nonce : List ℕ) (m : DirectMessage) (content : MessageContent) (b : B)
        (h : DirectMessageHandler p)
      → ◌≡◌ {A = Result Error B} ((keep p nonce m content >> return b) h).1 (ok b)
  keep-return {B} reliable nonce m content b h =
      ap (λ r. r.1)
        (after_ok (λ (_ : Unit {0}). return b) (keep p nonce m content h) tt
          (keep-ok reliable nonce m content h))

  send_encrypted-ok :
      IsReliable
      → (fresh : Fresh p) (did : Text) (content : MessageContent) (s : p.olm.Session)
        (h : DirectMessageHandler p)
      → (m : DirectMessage) × ((send_encrypted p fresh did content s h).1 ≡ ok m)
  unfolding send_encrypted
  send_encrypted-ok reliable fresh did content s h =
      let (s', om) = p.olm.encrypt s (p.codec.encode content) fresh.entropy in
      let h₁ = put_session p did s' h in
      let m = signed_message p fresh did content (p.olm.to_parts om) (attached_key p om h₁) h₁ in
      let kept = keep p fresh.nonce m content h₁ in
      let logs : (after (λ (_ : Unit {0}). logged p (persist_session p did)) kept).1 ≡ ok tt =
        ap (λ r. r.1)
          (after_ok (λ (_ : Unit {0}). logged p (persist_session p did)) kept tt
            (keep-ok reliable fresh.nonce m content h₁)) in
      (
        m,
        ap (λ r. r.1)
            (after_ok (λ (_ : Unit {0}). return m)
              (after (λ (_ : Unit {0}). logged p (persist_session p did)) kept) tt logs),
      )

  -- Every message that a user sends to a user with whom it is connected arrives with its content,
  -- in the order in which they were sent, where the storage of both takes what it is given and the
  -- encryption at rest does not fail. No message is refused by the sender or by the recipient.
  pub exchange_lem :
      (reliable : IsReliable) (xs : List Sending) (a b : DirectMessageHandler p)
      → IsConnected p a b
      → exchange xs a b ≡ map (λ x. ok x.content) xs
  unfolding exchange
  exchange_lem reliable [] a b k = refl
  exchange_lem reliable (x ∷ xs) a b k =
      let other = send_message-other p x.fresh b.local_did x.content k.from a k.others k.sends in
      let (m, sealed) = send_encrypted-ok reliable x.fresh b.local_did x.content k.from a in
      let sent = ap (λ r. r.1) other ∙ sealed in
      let a' = (send_message p x.fresh b.local_did x.content a).0 in
      let (c, received, next) =
        receive_message-send_message p x.fresh x.nonce x.content a a' b m k
          (ap (λ r. (a', r)) sent) in
      let arrives = ap (λ r. r.1) received ∙ keep-return reliable x.nonce m x.content x.content c in
      rw (exchange, sent)
        (ap₂ (λ (r : Result Error MessageContent) rs. r ∷ rs) arrives
          (exchange_lem reliable xs a' (receive_message p x.nonce m b).0 next))
