-- ===== src/Messaging/Direct/Plaintexts.antt =====
-- crates/variance-messaging/src/direct.rs: the plaintexts that are kept can be read.
use variance.Prelude.{
  ℕ, Text, List, ◌++◌, Option, some, false, ok, ◌≡◌, refl, sym, ap, ◌∙◌, arith, length,
  length-append, take, drop, take-append, drop-append, ltb, Result-cases, Option-cases, inl, inr,
  eq_self, list_eq, nat_eq,
}
use variance.Prelude.Map
use variance.Messaging.Proto.{MessageContent}
use variance.Messaging.Storage.Io.{Io}
use variance.Messaging.Direct.{
  Platform, DirectMessageHandler, stored, logged, persist_plaintext, decrypt_blob, load_plaintext,
  persist_session,
}

module _ (p : Platform) where
  open p.storage use {Store, plaintext, store_plaintext_ok, fetch_plaintext_ok}

  -- What is stored for a message is its content, under the key of the handler.
  pub record IsKept (h : DirectMessageHandler p) (id : Text) (content : MessageContent)
      : Type 0 where
    pub nonce : List ℕ
    pub ciphertext : List ℕ
    pub of_twelve : length nonce ≡ 12
    pub encrypted : p.aead.aes_encrypt h.storage_key nonce (p.codec.encode content) ≡ ok ciphertext
    pub found : plaintext h.store id ≡ some (nonce ++ ciphertext)

  decrypt_blob-IsKept :
      (h : DirectMessageHandler p) (nonce ciphertext : List ℕ) (content : MessageContent)
      → length nonce ≡ 12
      → p.aead.aes_encrypt h.storage_key nonce (p.codec.encode content) ≡ ok ciphertext
      → decrypt_blob p (nonce ++ ciphertext) h ≡ ok (some content)
  unfolding decrypt_blob
  decrypt_blob-IsKept h nonce ciphertext content of_twelve encrypted =
      let long : ltb (length (nonce ++ ciphertext)) 12 ≡ false =
        ground (arith, length-append nonce ciphertext) in
      let front : take 12 (nonce ++ ciphertext) ≡ nonce =
        ap (λ n. take n (nonce ++ ciphertext)) (sym of_twelve) ∙ take-append nonce ciphertext in
      let back : drop 12 (nonce ++ ciphertext) ≡ ciphertext =
        ap (λ n. drop n (nonce ++ ciphertext)) (sym of_twelve) ∙ drop-append nonce ciphertext in
      rw
        (
          long,
          front,
          back,
          p.aead.aes_decrypt-aes_encrypt h.storage_key nonce (p.codec.encode content) ciphertext
              encrypted,
          p.codec.decode_encode content,
        )
        refl

  -- Where the storage answers, the content is loaded.
  pub load_plaintext-IsKept :
      (h : DirectMessageHandler p) (id : Text) (content : MessageContent) (v : Option Text)
      → IsKept h id content
      → p.storage.fetch_plaintext h.store id ≡ ok v
      → load_plaintext p id h ≡ (h, ok (some content))
  unfolding load_plaintext
  load_plaintext-IsKept h id content v k fetch =
      rw
        (
          fetch,
          fetch_plaintext_ok h.store id v fetch,
          k.found,
          decrypt_blob-IsKept h k.nonce k.ciphertext content k.of_twelve k.encrypted,
        )
        refl

  -- A call of the storage that succeeds, and what it changes.
  pub stored-eq-ok :
      {A : Type 0} (call : Io Store A) (h h' : DirectMessageHandler p) (a : A)
      → stored p call h ≡ (h', ok a)
      → (call h.store ≡ (h'.store, ok a)) × (h' ≡ record h { store = h'.store })
  stored-eq-ok call h h' a e =
      let left : record h { store = (call h.store).0 } ≡ h' = ap (λ q. q.0) e in
      (
        ap (λ q. (q.0.store, q.1)) e,
        sym left ∙ ap (λ s. record h { store = s }) (ap (λ g. g.store) left),
      )

  pub persist_plaintext-IsKept :
      (h h' : DirectMessageHandler p) (nonce : List ℕ) (id : Text) (content : MessageContent)
      → length nonce ≡ 12
      → persist_plaintext p nonce id content h ≡ (h', ok tt)
      → IsKept h' id content
  unfolding persist_plaintext
  persist_plaintext-IsKept h h' nonce id content of_twelve e =
      elim (Result-cases (p.aead.aes_encrypt h.storage_key nonce (p.codec.encode content))) [
        | inl (ciphertext, encrypted) ↦
            let (called, left) =
              stored-eq-ok (p.storage.store_plaintext id (nonce ++ ciphertext)) h h' tt
                (rw encrypted at e) in
            let held = store_plaintext_ok h.store h'.store id (nonce ++ ciphertext) called id in
            record {
              nonce = nonce;
              ciphertext = ciphertext;
              of_twelve = of_twelve;
              encrypted = rw (ap (λ g. g.storage_key) left) encrypted;
              found = rw (eq_self id) at held;
            }
        | inr (x, failed) ↦ absurd (ground (arith, ap (λ q. q.1) (rw failed at e)))
      ]

  -- Storing a session, with or without success, leaves the plaintexts.
  pub persist_session-plaintext :
      (h : DirectMessageHandler p) (did j : Text)
      → (plaintext (persist_session p did h).0.store j ≡ plaintext h.store j)
        × ((persist_session p did h).0.storage_key ≡ h.storage_key)
  unfolding persist_session
  persist_session-plaintext h did j = elim (Option-cases (Map.get did h.sessions)) [
    | inl absent ↦ rw (persist_session, absent) (refl, refl)
    | inr (session, present) ↦ elim (Result-cases (p.olm.session_json session)) [
      | inl (json, pickled) ↦
          rw (persist_session, present, pickled)
            (p.storage.store_session_pickle_plaintext h.store did json j, refl)
      | inr (x, failed) ↦ rw (persist_session, present, failed) (refl, refl)
    ]
  ]

  pub persist_session-IsKept :
      (h : DirectMessageHandler p) (did id : Text) (content : MessageContent)
      → IsKept h id content
      → IsKept (logged p (persist_session p did) h).0 id content
  persist_session-IsKept h did id content k =
      let (same, key) = persist_session-plaintext h did id in
      record {
        nonce = k.nonce;
        ciphertext = k.ciphertext;
        of_twelve = k.of_twelve;
        encrypted = rw key k.encrypted;
        found = same ∙ k.found;
      }
