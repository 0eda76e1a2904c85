-- ===== src/Messaging/Direct/Delivery.antt =====
-- crates/variance-messaging/src/direct.rs: what one user sends the other receives.
use mathlib.Core.Path.{subst}
use variance.Prelude.{
  ℕ, Text, List, some, false, ok, ◌≡◌, refl, sym, ap, ap₂, ◌∙◌, ◌==◌, list_eq, nat_eq,
}
use variance.Prelude.Map
use variance.Messaging.Proto.{DirectMessage, MessageContent}
use variance.Messaging.Storage.Io.{◌>>◌, return}
use variance.Messaging.Direct.{Platform, DirectMessageHandler, logged, put_session, persist_session}
use variance.Messaging.Direct.Exchange.{
  Fresh, keep, signed_message, attached_key, send_encrypted, send_message, receive_message,
}
use variance.Messaging.Direct.Contents.{after_return}
use variance.Messaging.Direct.Frames.{
  ChangesStore, ChangesStore-trans, persist_session-ChangesStore,
}
use variance.Messaging.Direct.Decryption.{decrypt_message-ok, receive_message-decrypted}
use variance.Messaging.Direct.Runs.{send_encrypted-ChangesStore}

module _ (p : Platform) where
  open p.olm use {Session, PublicKey, PreKey, Normal, IsPaired}

  -- What the first of two users sends, the second can decrypt.
  pub record IsConnected (a b : DirectMessageHandler p) : Type 0 where
    pub from : Session
    pub to : Session
    pub others : (b.local_did == a.local_did) ≡ false
    pub sends : Map.get b.local_did a.sessions ≡ some from
    pub receives : Map.get a.local_did b.sessions ≡ some to
    pub paired : IsPaired from to

  -- A handler to which a session was put, and whose storage then changed.
  pub sessions_of :
      (did : Text) (s : Session) (h h' : DirectMessageHandler p)
      → ChangesStore p (put_session p did s h) h'
      → (Map.get did h'.sessions ≡ some s) × (h'.local_did ≡ h.local_did)
  sessions_of did s h h' c = (
    ap (λ g. Map.get did g.sessions) c ∙ Map.get-insert_self did s h.sessions,
    ap (λ g. g.local_did) c,
  )

  pub advance-IsConnected :
      (a b a' b' : DirectMessageHandler p) (s t : Session)
      → (b.local_did == a.local_did) ≡ false
      → IsPaired s t
      → ChangesStore p (put_session p b.local_did s a) a'
      → ChangesStore p (put_session p a.local_did t b) b'
      → IsConnected a' b'
  advance-IsConnected a b a' b' s t others paired c d =
      let (sends, did_a) = sessions_of b.local_did s a a' c in
      let (receives, did_b) = sessions_of a.local_did t b b' d in
      record {
        from = s;
        to = t;
        others = ap₂ (λ (x y : Text). x == y) did_b did_a ∙ others;
        sends = ap (λ did. Map.get did a'.sessions) did_b ∙ sends;
        receives = ap (λ did. Map.get did b'.sessions) did_a ∙ receives;
        paired = paired;
      }

  -- What the recipient does with the message that a session made: it is decrypted, and then kept.
  receive_message-sealed :
      (fresh : Fresh p) (nonce : List ℕ) (content : MessageContent) (s t : Session)
      (h b : DirectMessageHandler p)
      → Map.get h.local_did b.sessions ≡ some t
      → IsPaired s t
      → let (s', om) = p.olm.encrypt s (p.codec.encode content) fresh.entropy in
        let m =
          signed_message p fresh b.local_did content (p.olm.to_parts om) (attached_key p om h) h in
        (c : DirectMessageHandler p) × (receive_message p nonce m b
          ≡ (keep p nonce m content >> return content) c)
        × ChangesStore p
            (put_session p h.local_did (p.olm.decrypt t om).0 b)
            (receive_message p nonce m b).0
        × IsPaired s' (p.olm.decrypt t om).0
  unfolding signed_message
  receive_message-sealed fresh nonce content s t h b receives paired =
      let (s', om) = p.olm.encrypt s (p.codec.encode content) fresh.entropy in
      let m =
        signed_message p fresh b.local_did content (p.olm.to_parts om) (attached_key p om h) h in
      let (decrypted, still) =
        p.olm.decrypt-encrypt s t (p.codec.encode content) fresh.entropy paired in
      let b₁ = put_session p h.local_did (p.olm.decrypt t om).0 b in
      let c = (persist_session p h.local_did b₁).0 in
      let (received, kept) =
        receive_message-decrypted p nonce m om content b c refl refl
          (decrypt_message-ok p m om t (p.codec.encode content) b receives decrypted) in
      (
        c,
        received,
        ChangesStore-trans p b₁ c (receive_message p nonce m b).0
            (persist_session-ChangesStore p h.local_did b₁) kept,
        still,
      )

  -- What a message that was sent to another user is.
  pub send_encrypted-sent :
      (fresh : Fresh p) (did : Text) (content : MessageContent) (s : Session)
      (a a' : DirectMessageHandler p) (m : DirectMessage)
      → send_encrypted p fresh did content s a ≡ (a', ok m)
      → let (s', om) = p.olm.encrypt s (p.codec.encode content) fresh.entropy in
        let h = put_session p did s' a in
        signed_message p fresh did content (p.olm.to_parts om) (attached_key p om h) h ≡ m
  unfolding send_encrypted
  send_encrypted-sent fresh did content s a a' m e =
      let (s', om) = p.olm.encrypt s (p.codec.encode content) fresh.entropy in
      let h = put_session p did s' a in
      let sent = signed_message p fresh did content (p.olm.to_parts om) (attached_key p om h) h in
      (after_return p (keep p fresh.nonce sent content >> logged p (persist_session p did)) sent h
        a' m e).2

  pub send_message-other :
      (fresh : Fresh p) (did : Text) (content : MessageContent) (s : Session)
      (a : DirectMessageHandler p)
      → (did == a.local_did) ≡ false
      → Map.get did a.sessions ≡ some s
      → send_message p fresh did content a ≡ send_encrypted p fresh did content s a
  unfolding send_message
  send_message-other fresh did content s a others sends = rw (send_message, others, sends) refl

  -- What a user sends to a user with whom it is connected, which means that their two sessions
  -- belong together and that they are not the same user, is received: the recipient decrypts the
  -- very content that was sent, so that it is returned unless keeping it fails, and the two are
  -- connected again, whether or not that failed.
  pub receive_message-send_message :
      (fresh : Fresh p) (nonce : List ℕ) (content : MessageContent)
      (a a' b : DirectMessageHandler p) (m : DirectMessage)
      → IsConnected a b
      → send_message p fresh b.local_did content a ≡ (a', ok m)
      → (c : DirectMessageHandler p) × (receive_message p nonce m b
          ≡ (keep p nonce m content >> return content) c)
        × IsConnected a' (receive_message p nonce m b).0
  receive_message-send_message fresh nonce content a a' b m k e =
      let sent = sym (send_message-other fresh b.local_did content k.from a k.others k.sends) ∙ e in
      let (s', om) = p.olm.encrypt k.from (p.codec.encode content) fresh.entropy in
      let same = send_encrypted-sent fresh b.local_did content k.from a a' m sent in
      let advanced =
        subst (ChangesStore p (put_session p b.local_did s' a)) (ap (λ q. q.0) sent)
          (send_encrypted-ChangesStore p fresh b.local_did content k.from a) in
      let (c, received, changed, still) =
        receive_message-sealed fresh nonce content k.from k.to (put_session p b.local_did s' a) b
          k.receives k.paired in
      subst
        (λ (m : DirectMessage).
          (c : DirectMessageHandler p) × (receive_message p nonce m b
            ≡ (keep p nonce m content >> return content) c)
          × IsConnected a' (receive_message p nonce m b).0)
        same
        (
          c,
          received,
          advance-IsConnected a b a' (receive_message p nonce _ b).0 s' (p.olm.decrypt k.to om).0
              k.others still advanced changed,
        )
