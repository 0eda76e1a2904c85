-- ===== src/Messaging/Direct/First.antt =====
-- crates/variance-messaging/src/direct.rs: the first message to a user, from which the recipient makes
-- its session.
use mathlib.Core.Path.{subst}
use variance.Prelude.{
  ℕ, Text, List, none, some, false, Result, ok, ◌≡◌, refl, sym, ap, ◌∙◌, ◌==◌, list_eq, nat_eq,
}
use variance.Prelude.Map
use variance.Messaging.Errors.{Error}
use variance.Messaging.Proto.{DirectMessage, MessageContent}
use variance.Messaging.Olm.{pre_key}
use variance.Messaging.Storage.Io.{◌>>◌, return}
use variance.Messaging.Direct.{
  Platform, DirectMessageHandler, put_session, persist_session, init_session_as_initiator,
  one_time_keys, mark_one_time_keys_as_published,
}
use variance.Messaging.Direct.Exchange.{
  Fresh, keep, signed_message, attached_key, send_message, receive_message,
}
use variance.Messaging.Direct.Frames.{
  ChangesStore, ChangesStore-trans, persist_session-ChangesStore,
}
use variance.Messaging.Direct.Sessions.{init_session_as_initiator-ChangesStore}
use variance.Messaging.Direct.Decryption.{decrypt_message-first, receive_message-decrypted}
use variance.Messaging.Direct.Runs.{send_encrypted-ChangesStore}
use variance.Messaging.Direct.Delivery.{
  IsConnected, sessions_of, advance-IsConnected, send_encrypted-sent, send_message-other,
}

module _ (p : Platform) where
  open p.olm use {Account, Session, PublicKey, PreKey, Entropy, IsPaired}

  -- What a user without a session does with a first message: it makes a session, which is the
  -- sender's counterpart.
  receive_message-first :
      (fresh : Fresh p) (nonce : List ℕ) (content : MessageContent) (h b : DirectMessageHandler p)
      (first : PreKey) (account : Account) (t : Session)
      → Map.get h.local_did b.sessions ≡ none
      → p.olm.create_inbound_session b.account h.identity_key first
        ≡ (account, ok (t, p.codec.encode content))
      → let om = pre_key first in
        let m =
          signed_message p fresh b.local_did content (p.olm.to_parts om) (attached_key p om h) h in
        (c : DirectMessageHandler p) × (receive_message p nonce m b
          ≡ (keep p nonce m content >> return content) c)
        × ChangesStore p
            (put_session p h.local_did t (record b { account = account }))
            (receive_message p nonce m b).0
  unfolding signed_message attached_key
  receive_message-first fresh nonce content h b first account t absent made =
      let om = pre_key first in
      let m =
        signed_message p fresh b.local_did content (p.olm.to_parts om) (attached_key p om h) h in
      let b₁ = put_session p h.local_did t (record b { account = account }) in
      let c = (persist_session p h.local_did b₁).0 in
      let (received, kept) = receive_message-decrypted p nonce m om content b c refl refl (
        decrypt_message-first p m first h.identity_key account t (p.codec.encode content) b absent
          refl made) in
      (
        c,
        received,
        ChangesStore-trans p b₁ c (receive_message p nonce m b).0
            (persist_session-ChangesStore p h.local_did b₁) kept,
      )

  -- Each key that one_time_keys returns is ready for the first message of a session as soon as
  -- mark_one_time_keys_as_published has been called.
  pub one_time_keys-HasPublished :
      (id : ℕ) (otk : PublicKey) (h : DirectMessageHandler p)
      → Map.get id (one_time_keys p h) ≡ some otk
      → p.olm.HasPublished (mark_one_time_keys_as_published p h).account otk
  unfolding one_time_keys mark_one_time_keys_as_published
  one_time_keys-HasPublished id otk h ready =
      p.olm.mark_keys_as_published-HasPublished h.account id otk ready

  -- A user who makes a session from the keys that another user has published, a one-time key among
  -- them that has not been used, and sends it a first message, which the session seals as a pre-key
  -- message, connects the two, which are not the same user: the recipient, who has no session with
  -- the sender, makes one from the message and decrypts the content that was sent, and whether or
  -- not it can be kept, what the sender sends next is decrypted too. The session need not have been
  -- stored. The sender's identity key is that of its account.
  pub receive_message-init_session :
      (e : Entropy) (fresh : Fresh p) (nonce : List ℕ) (content : MessageContent) (otk : PublicKey)
      (a a₁ a' b : DirectMessageHandler p) (m : DirectMessage) (s : Session) (first : PreKey)
      (r : Result Error (Unit {0}))
      → a.identity_key ≡ p.olm.curve25519_key a.account
      → p.olm.HasPublished b.account otk
      → Map.get a.local_did b.sessions ≡ none
      → (b.local_did == a.local_did) ≡ false
      → init_session_as_initiator p b.local_did (p.olm.curve25519_key b.account) otk e a ≡ (a₁, r)
      → p.olm.encrypt
          (p.olm.create_outbound_session a.account (p.olm.curve25519_key b.account) otk e)
          (p.codec.encode content)
          fresh.entropy
        ≡ (s, pre_key first)
      → send_message p fresh b.local_did content a₁ ≡ (a', ok m)
      → (c : DirectMessageHandler p) × (receive_message p nonce m b
          ≡ (keep p nonce m content >> return content) c)
        × IsConnected p a' (receive_message p nonce m b).0
  receive_message-init_session e fresh nonce content otk a a₁ a' b m s first r own published absent
        others made encrypted sent =
      let s₀ = p.olm.create_outbound_session a.account (p.olm.curve25519_key b.account) otk e in
      let initiated = subst (ChangesStore p (put_session p b.local_did s₀ a)) (ap (λ q. q.0) made) (
        init_session_as_initiator-ChangesStore p b.local_did (p.olm.curve25519_key b.account) otk e
          a) in
      let (sends, did) = sessions_of p b.local_did s₀ a a₁ initiated in
      let apart = ap (λ (x : Text). b.local_did == x) did ∙ others in
      let sealed = sym (send_message-other p fresh b.local_did content s₀ a₁ apart sends) ∙ sent in
      let h = put_session p b.local_did s a₁ in
      let same : signed_message p fresh b.local_did content (p.olm.to_parts (pre_key first))
            (attached_key p (pre_key first) h) h
          ≡ m =
        ap
          (λ q.
            let g = put_session p b.local_did q.0 a₁ in
            signed_message p fresh b.local_did content (p.olm.to_parts q.1) (attached_key p q.1 g)
              g)
          (sym encrypted)
        ∙ send_encrypted-sent p fresh b.local_did content s₀ a₁ a' m sealed in
      let advanced =
        subst (λ q. ChangesStore p (put_session p b.local_did q.0 a₁) a') encrypted
          (subst
            (ChangesStore p (
              put_session p b.local_did (p.olm.encrypt s₀ (p.codec.encode content) fresh.entropy).0
                a₁))
            (ap (λ q. q.0) sealed)
            (send_encrypted-ChangesStore p fresh b.local_did content s₀ a₁)) in
      let (account, t, accepted, paired) =
        p.olm.create_inbound_session-encrypt a.account b.account otk e fresh.entropy
          (p.codec.encode content) s first published encrypted in
      let key : a₁.identity_key ≡ p.olm.curve25519_key a.account =
        ap (λ g. g.identity_key) initiated ∙ own in
      let (c, received, changed) =
        receive_message-first fresh nonce content h b first account t
          (ap (λ x. Map.get x b.sessions) did ∙ absent)
          (ap (λ k. p.olm.create_inbound_session b.account k first) key ∙ accepted) in
      subst
        (λ (m : DirectMessage).
          (c : DirectMessageHandler p) × (receive_message p nonce m b
            ≡ (keep p nonce m content >> return content) c)
          × IsConnected p a' (receive_message p nonce m b).0)
        same
        (
          c,
          received,
          advance-IsConnected p a₁ (record b { account = account }) a'
              (receive_message p nonce _ b).0 s t apart paired advanced changed,
        )
