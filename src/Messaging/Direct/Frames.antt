-- ===== src/Messaging/Direct/Frames.antt =====
-- crates/variance-messaging/src/direct.rs: the steps that change nothing but the storage.
use variance.Prelude.{
  ℕ, Text, List, Result, ok, err, ◌≡◌, refl, ap, ◌∙◌, Result-cases, Option-cases, inl, inr, list_eq,
  nat_eq,
}
use variance.Prelude.Map
use variance.Messaging.Errors.{Error}
use variance.Messaging.Proto.{DirectMessage, MessageContent}
use variance.Messaging.Storage.Io.{after, ◌>>◌, return}
use variance.Messaging.Storage.Sled.{decode_value}
use variance.Messaging.Direct.{
  Platform, DirectMessageHandler, Handling, stored, persist_plaintext, persist_session,
}
use variance.Messaging.Direct.Exchange.{keep, keep_plaintext}

module _ (p : Platform) where
  open p.storage use {Store}

  -- The second handler is the first with another storage.
  abbrev pub ChangesStore : DirectMessageHandler p → DirectMessageHandler p → Type 0
  ChangesStore h h' = h' ≡ record h { store = h'.store }

  pub ChangesStore-trans :
      (h h₁ h₂ : DirectMessageHandler p)
      → ChangesStore h h₁
      → ChangesStore h₁ h₂
      → ChangesStore h h₂
  ChangesStore-trans h h₁ h₂ e f =
      f ∙ ap (λ (g : DirectMessageHandler p). record g { store = h₂.store }) e

  pub after-ChangesStore :
      {A B : Type 0} (f : A → Handling p B) (h : DirectMessageHandler p)
      (r : DirectMessageHandler p × Result Error A)
      → ChangesStore h r.0
      → ((a : A) (g : DirectMessageHandler p) → ChangesStore g (f a g).0)
      → ChangesStore h (after f r).0
  after-ChangesStore f h (g, ok a) first rest = ChangesStore-trans h g (f a g).0 first (rest a g)
  after-ChangesStore f h (g, err e) first rest = first

  pub persist_plaintext-ChangesStore :
      (nonce : List ℕ) (id : Text) (content : MessageContent) (h : DirectMessageHandler p)
      → ChangesStore h (persist_plaintext p nonce id content h).0
  unfolding persist_plaintext
  persist_plaintext-ChangesStore nonce id content h =
      elim (Result-cases (p.aead.aes_encrypt h.storage_key nonce (p.codec.encode content))) [
        | inl (ciphertext, encrypted) ↦ rw (persist_plaintext, encrypted) refl
        | inr (x, failed) ↦ rw (persist_plaintext, failed) refl
      ]

  pub persist_session-ChangesStore :
      (did : Text) (h : DirectMessageHandler p) → ChangesStore h (persist_session p did h).0
  unfolding persist_session
  persist_session-ChangesStore did h = elim (Option-cases (Map.get did h.sessions)) [
    | inl absent ↦ rw (persist_session, absent) refl
    | inr (session, present) ↦ elim (Result-cases (p.olm.session_json session)) [
      | inl (json, pickled) ↦ rw (persist_session, present, pickled) refl
      | inr (x, failed) ↦ rw (persist_session, present, failed) refl
    ]
  ]

  pub keep-ChangesStore :
      (nonce : List ℕ) (m : DirectMessage) (content : MessageContent) (h : DirectMessageHandler p)
      → ChangesStore h (keep p nonce m content h).0
  unfolding keep
  keep-ChangesStore nonce m content h =
      after-ChangesStore (λ (_ : Unit {0}). persist_plaintext p nonce m.id content) h
        (stored p (p.storage.store_direct m) h) refl
        (λ _ g. persist_plaintext-ChangesStore nonce m.id content g)

  pub keep_plaintext-ChangesStore :
      (nonce : List ℕ) (m : DirectMessage) (plaintext : Text) (h : DirectMessageHandler p)
      → ChangesStore h (keep_plaintext p nonce m plaintext h).0
  unfolding keep_plaintext
  keep_plaintext-ChangesStore nonce m plaintext h =
      after-ChangesStore (λ (content : MessageContent). keep p nonce m content >> return content) h
        (h, decode_value p.codec plaintext) refl
        (λ content g.
          after-ChangesStore (λ (_ : Unit {0}). return content) g (keep p nonce m content g)
            (keep-ChangesStore nonce m content g) (λ _ k. refl))
