-- ===== src/Messaging/Direct/Runs.antt =====
-- crates/variance-messaging/src/direct.rs: what any sequence of calls keeps of the handler.
use variance.Prelude.{
  ℕ, Text, List, [], ◌∷◌, none, some, ◌≡◌, refl, ap, ◌∙◌, Option-cases, Bool-cases, inl, inr, ◌==◌,
  list_eq, nat_eq,
}
use variance.Prelude.Map
use variance.Messaging.Proto.{DirectMessage, MessageContent}
use variance.Messaging.Storage.Io.{◌>>◌, return}
use variance.Messaging.Direct.{
  Platform, DirectMessageHandler, logged, put_session, persist_session, init_session_if_needed,
  init_session_as_initiator,
}
use variance.Messaging.Direct.Exchange.{
  Fresh, keep, signed_message, attached_key, send_self_message, send_encrypted, send_message,
  receive_message, olm_message_type_self,
}
use variance.Messaging.Direct.Frames.{
  ChangesStore, persist_session-ChangesStore, keep-ChangesStore, after-ChangesStore,
}
use variance.Messaging.Direct.Receiving.{
  Received, untouched, advanced, accepted, rejected, receive_message-Received,
}
use variance.Messaging.Direct.Sessions.{
  session_exists, session_missing, init_session_as_initiator-ChangesStore,
}

module _ (p : Platform) where
  open p.olm use {Account, Session, PublicKey, Entropy}

  -- The calls of a user and of the network.
  pub data Request : Type 0 where
    init : Text → PublicKey → PublicKey → Entropy → Request
    send : Fresh p → Text → MessageContent → Request
    receive : List ℕ → DirectMessage → Request

  unfoldable pub step : Request → DirectMessageHandler p → DirectMessageHandler p
  step (init did key otk entropy) h = (init_session_if_needed p did key otk entropy h).0
  step (send fresh did content) h = (send_message p fresh did content h).0
  step (receive nonce m) h = (receive_message p nonce m h).0

  unfoldable pub run : List Request → DirectMessageHandler p → DirectMessageHandler p
  unfolding step
  run [] h = h
  run (r ∷ rs) h = run rs (step r h)

  -- The identity of the handler is the same, and whoever had a session has one.
  pub record Keeps (h h' : DirectMessageHandler p) : Type 0 where
    pub same_did : h'.local_did ≡ h.local_did
    pub same_signing_key : h'.signing_key ≡ h.signing_key
    pub same_identity_key : h'.identity_key ≡ h.identity_key
    pub same_storage_key : h'.storage_key ≡ h.storage_key
    pub sessions_stay :
        (did : Text) (s : Session)
        → Map.get did h.sessions ≡ some s
        → (t : Session) × (Map.get did h'.sessions ≡ some t)

  Keeps-refl : (h : DirectMessageHandler p) → Keeps h h
  Keeps-refl h = record {
    same_did = refl;
    same_signing_key = refl;
    same_identity_key = refl;
    same_storage_key = refl;
    sessions_stay = λ did s present. (s, present);
  }

  Keeps-trans : (h h₁ h₂ : DirectMessageHandler p) → Keeps h h₁ → Keeps h₁ h₂ → Keeps h h₂
  Keeps-trans h h₁ h₂ k l = record {
    same_did = l.same_did ∙ k.same_did;
    same_signing_key = l.same_signing_key ∙ k.same_signing_key;
    same_identity_key = l.same_identity_key ∙ k.same_identity_key;
    same_storage_key = l.same_storage_key ∙ k.same_storage_key;
    sessions_stay = λ did s present.
        let (t, there) = k.sessions_stay did s present in l.sessions_stay did t there;
  }

  ChangesStore-Keeps : (h h' : DirectMessageHandler p) → ChangesStore p h h' → Keeps h h'
  ChangesStore-Keeps h h' c = record {
    same_did = ap (λ g. g.local_did) c;
    same_signing_key = ap (λ g. g.signing_key) c;
    same_identity_key = ap (λ g. g.identity_key) c;
    same_storage_key = ap (λ g. g.storage_key) c;
    sessions_stay = λ did s present. (s, ap (λ g. Map.get did g.sessions) c ∙ present);
  }

  account-Keeps :
      (h : DirectMessageHandler p) (account : Account) → Keeps h (record h { account = account })
  account-Keeps h account = record {
    same_did = refl;
    same_signing_key = refl;
    same_identity_key = refl;
    same_storage_key = refl;
    sessions_stay = λ did s present. (s, present);
  }

  put_session-Keeps :
      (h : DirectMessageHandler p) (account : Account) (did : Text) (s : Session)
      → Keeps h (put_session p did s (record h { account = account }))
  put_session-Keeps h account did s = record {
    same_did = refl;
    same_signing_key = refl;
    same_identity_key = refl;
    same_storage_key = refl;
    sessions_stay = λ other t present. elim (Bool-cases (did == other)) [
      | inl same ↦ (s, rw (Map.get-insert did other s h.sessions, same) refl)
      | inr ne ↦ (t, rw (Map.get-insert did other s h.sessions, ne) present)
    ];
  }

  Received-Keeps :
      (m : DirectMessage) (h h' : DirectMessageHandler p) → Received p m h h' → Keeps h h'
  Received-Keeps m h h' (untouched c) = ChangesStore-Keeps h h' c
  Received-Keeps m h h' (advanced s om present c) =
      let h₁ = put_session p m.sender_did (p.olm.decrypt s om).0 h in
      Keeps-trans h h₁ h' (put_session-Keeps h h.account m.sender_did (p.olm.decrypt s om).0)
        (ChangesStore-Keeps h₁ h' c)
  Received-Keeps m h h' (accepted key first account s plaintext absent sent made c) =
      let h₁ = put_session p m.sender_did s (record h { account = account }) in
      Keeps-trans h h₁ h' (put_session-Keeps h account m.sender_did s) (ChangesStore-Keeps h₁ h' c)
  Received-Keeps m h h' (rejected key first account e absent failed c) =
      let h₁ : DirectMessageHandler p = record h { account = account } in
      Keeps-trans h h₁ h' (account-Keeps h account) (ChangesStore-Keeps h₁ h' c)

  send_self_message-ChangesStore :
      (fresh : Fresh p) (content : MessageContent) (h : DirectMessageHandler p)
      → ChangesStore p h (send_self_message p fresh content h).0
  unfolding send_self_message
  send_self_message-ChangesStore fresh content h =
      let m =
        signed_message p fresh h.local_did content (olm_message_type_self, p.codec.encode content)
          none h in
      after-ChangesStore p (λ (_ : Unit {0}). return m) h (keep p fresh.nonce m content h)
        (keep-ChangesStore p fresh.nonce m content h) (λ _ g. refl)

  -- Sending in a session advances it by one encryption.
  pub send_encrypted-ChangesStore :
      (fresh : Fresh p) (did : Text) (content : MessageContent) (s : Session)
      (h : DirectMessageHandler p)
      → ChangesStore p
          (put_session p did (p.olm.encrypt s (p.codec.encode content) fresh.entropy).0 h)
          (send_encrypted p fresh did content s h).0
  unfolding send_encrypted
  send_encrypted-ChangesStore fresh did content s h =
      let (s', om) = p.olm.encrypt s (p.codec.encode content) fresh.entropy in
      let h₁ = put_session p did s' h in
      let m = signed_message p fresh did content (p.olm.to_parts om) (attached_key p om h₁) h₁ in
      after-ChangesStore p (λ (_ : Unit {0}). return m) h₁
        ((keep p fresh.nonce m content >> logged p (persist_session p did)) h₁)
        (after-ChangesStore p (λ (_ : Unit {0}). logged p (persist_session p did)) h₁
          (keep p fresh.nonce m content h₁) (keep-ChangesStore p fresh.nonce m content h₁)
          (λ _ g. persist_session-ChangesStore p did g))
        (λ _ g. refl)

  send_message-Keeps :
      (fresh : Fresh p) (did : Text) (content : MessageContent) (h : DirectMessageHandler p)
      → Keeps h (send_message p fresh did content h).0
  unfolding send_message
  send_message-Keeps fresh did content h = elim (Bool-cases (did == h.local_did)) [
    | inl own ↦
        rw (send_message, own)
          (ChangesStore-Keeps h (send_self_message p fresh content h).0
            (send_self_message-ChangesStore fresh content h))
    | inr other ↦ elim (Option-cases (Map.get did h.sessions)) [
      | inl absent ↦ rw (send_message, other, absent) (Keeps-refl h)
      | inr (s, present) ↦
          let s' = (p.olm.encrypt s (p.codec.encode content) fresh.entropy).0 in
          rw (send_message, other, present)
            (Keeps-trans h (put_session p did s' h) (send_encrypted p fresh did content s h).0
              (put_session-Keeps h h.account did s')
              (ChangesStore-Keeps (put_session p did s' h)
                (send_encrypted p fresh did content s h).0
                (send_encrypted-ChangesStore fresh did content s h)))
    ]
  ]

  init_session_if_needed-Keeps :
      (did : Text) (key otk : PublicKey) (entropy : Entropy) (h : DirectMessageHandler p)
      → Keeps h (init_session_if_needed p did key otk entropy h).0
  init_session_if_needed-Keeps did key otk entropy h =
      elim (Option-cases (Map.get did h.sessions)) [
        | inl absent ↦
            let s = p.olm.create_outbound_session h.account key otk entropy in
            let h₁ = put_session p did s h in
            rw (session_missing p did key otk entropy h absent) (
              Keeps-trans h h₁ (init_session_as_initiator p did key otk entropy h).0
                (put_session-Keeps h h.account did s)
                (ChangesStore-Keeps h₁ (init_session_as_initiator p did key otk entropy h).0
                  (init_session_as_initiator-ChangesStore p did key otk entropy h)))
        | inr (s, present) ↦ rw (session_exists p did key otk entropy h s present) (Keeps-refl h)
      ]

  step-Keeps : (r : Request) (h : DirectMessageHandler p) → Keeps h (step r h)
  unfolding step
  step-Keeps (init did key otk entropy) h = init_session_if_needed-Keeps did key otk entropy h
  step-Keeps (send fresh did content) h = send_message-Keeps fresh did content h
  step-Keeps (receive nonce m) h =
      Received-Keeps m h (receive_message p nonce m h).0 (receive_message-Received p nonce m h)

  -- Any sequence of sessions made where they are missing, messages sent and messages received, with
  -- or without success, keeps the handler's DID and keys, and no session is ever lost: whoever had
  -- one has one.
  pub run-Keeps : (rs : List Request) (h : DirectMessageHandler p) → Keeps h (run rs h)
  unfolding run
  run-Keeps [] h = Keeps-refl h
  run-Keeps (r ∷ rs) h =
      Keeps-trans h (step r h) (run rs (step r h)) (step-Keeps r h) (run-Keeps rs (step r h))
