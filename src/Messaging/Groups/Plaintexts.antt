-- ===== src/Messaging/Groups/Plaintexts.antt =====
-- crates/variance-messaging/src/mls.rs: the plaintexts of a group that are kept can be read.
use variance.Prelude.{
  ℕ, Text, List, Option, none, some, false, Result, ok, ◌≡◌, refl, sym, ap, ◌∙◌, arith, length,
  length-append, take, drop, take-append, drop-append, ltb, ◌++◌, Result-cases, inl, inr, eq_self,
  list_eq, nat_eq,
}
use variance.Prelude.Map
use variance.Messaging.Errors.{Error}
use variance.Messaging.Proto.{MessageContent}
use variance.Messaging.Storage.Io.{Io, after-eq-ok, return, lift}
use variance.Messaging.Storage.Sled.{Sled, Codec, tree_insert, tree_get}
use variance.Messaging.Storage.Contents.{after_open, tree_insert-own, tree_get-contents, get-put}
use variance.Messaging.Storage.Group.{group_plaintext_tree}
use variance.Messaging.Storage.GroupState.{store_group_plaintext, fetch_group_plaintext}
use variance.Messaging.Groups.{Crate, MlsGroupHandler}
use variance.Messaging.Groups.Recovery.{
  Sealing, persist_group_plaintext, decrypt_group_blob, load_group_plaintext,
}

module _ {SigningKey : Type 0} (c : Crate SigningKey) (sealing : Sealing c.Key) (sled : Sled)
    (codec : Codec MessageContent) where
  open sled use {Db, contents}

  decrypt_group_blob-append :
      (h : MlsGroupHandler c) (nonce ciphertext : List ℕ) (content : MessageContent)
      → length nonce ≡ 12
      → sealing.aes_encrypt h.storage_key nonce (codec.encode content) ≡ ok ciphertext
      → decrypt_group_blob c sealing sled codec h (nonce ++ ciphertext) ≡ ok (some content)
  unfolding decrypt_group_blob
  decrypt_group_blob-append h nonce ciphertext content of_twelve encrypted =
      let long : ltb (length (nonce ++ ciphertext)) 12 ≡ false =
        ground (arith, length-append nonce ciphertext) in
      let front : take 12 (nonce ++ ciphertext) ≡ nonce =
        ap (λ n. take n (nonce ++ ciphertext)) (sym of_twelve) ∙ take-append nonce ciphertext in
      let back : drop 12 (nonce ++ ciphertext) ≡ ciphertext =
        ap (λ n. drop n (nonce ++ ciphertext)) (sym of_twelve) ∙ drop-append nonce ciphertext in
      let opened =
        sealing.aes_decrypt-aes_encrypt h.storage_key nonce (codec.encode content) ciphertext
          encrypted in
      rw (long, front, back, opened, codec.decode_encode content) refl

  -- What was stored for a message is found, where both calls succeed.
  fetch_group_plaintext-store :
      (db db' db'' : Db) (id blob : Text) (v : Option Text)
      → store_group_plaintext sled id blob db ≡ (db', ok tt)
      → fetch_group_plaintext sled id db' ≡ (db'', ok v)
      → v ≡ some blob
  unfolding store_group_plaintext fetch_group_plaintext
  fetch_group_plaintext-store db db' db'' id blob v stored fetched =
      let inserted =
        after_open sled group_plaintext_tree (tree_insert sled group_plaintext_tree id blob) db db'
          tt stored in
      let got =
        after_open sled group_plaintext_tree (tree_get sled group_plaintext_tree id) db' db'' v
          fetched in
      let held =
        ap (Map.get id) (tree_insert-own sled db db' group_plaintext_tree id blob inserted)
        ∙ get-put id id blob (contents db group_plaintext_tree) in
      (tree_get-contents sled db' db'' group_plaintext_tree id v got).1 ∙ (rw (eq_self id) at held)

  ok_equal :
      {a b : Option MessageContent}
      → ◌≡◌ {A = Result Error (Option MessageContent)} (ok a) (ok b)
      → a ≡ b
  ok_equal e = cc

  -- The content of a group message that was kept with a nonce of 12 bytes is read as it was, where
  -- both calls succeed, by a handler with the same storage key.
  pub load_group_plaintext-persist_group_plaintext :
      (h : MlsGroupHandler c) (nonce : List ℕ) (id : Text) (content : MessageContent)
      (db db' db'' : Db) (v : Option MessageContent)
      → length nonce ≡ 12
      → persist_group_plaintext c sealing sled codec nonce id content h db ≡ (db', ok tt)
      → load_group_plaintext c sealing sled codec id h db' ≡ (db'', ok v)
      → v ≡ some content
  unfolding persist_group_plaintext load_group_plaintext
  load_group_plaintext-persist_group_plaintext h nonce id content db db' db'' v of_twelve kept
        loaded =
      elim (Result-cases (sealing.aes_encrypt h.storage_key nonce (codec.encode content))) [
        | inr (x, failed) ↦ absurd (ground (arith, ap (λ q. q.1) (rw failed at kept)))
        | inl (ciphertext, encrypted) ↦
            let opening : Option Text → Io Db (Option MessageContent) = λ found. elim found [
              | none ↦ return none
              | some blob ↦ lift (decrypt_group_blob c sealing sled codec h blob)
            ] in
            let (db₁, found, fetched, rest) =
              after-eq-ok opening (fetch_group_plaintext sled id db') db'' v loaded in
            let blob =
              fetch_group_plaintext-store db db' db₁ id (nonce ++ ciphertext) found
                (rw encrypted at kept) fetched in
            let opened = decrypt_group_blob-append h nonce ciphertext content of_twelve encrypted in
            ok_equal (sym (ap (λ q. q.1) (ap (λ f. opening f db₁) (sym blob) ∙ rest)) ∙ opened)
      ]
