-- ===== src/Messaging/Direct.antt =====
-- crates/variance-messaging/src/direct.rs: DirectMessageHandler, its keys, its sessions, the plaintexts
-- that it keeps and the messages that wait. The storage is the trait of storage/trait_def.rs; here it
-- is a state that the operations pass on. What a method draws from its surroundings is an argument.
pub mod Exchange
pub mod Local
pub mod Plaintexts
pub mod Contents
pub mod Sessions
mod Tests
pub mod Sample
pub mod Signed
pub mod First
pub mod Decryption
pub mod Conversation
pub mod Delivery
pub mod Runs
pub mod Receiving
pub mod Frames
use variance.Crypto.{Ed25519}
use variance.Prelude.{
  ℕ, Text, List, [], ◌∷◌, ◌++◌, Option, none, some, Bool, true, false, Result, ok, err, ◌≡◌, codes,
  length, take, drop, ltb, map_err, ◌==◌, list_eq, nat_eq, if◌then◌else◌,
}
use variance.Prelude.Int.{ℤ}
use variance.Prelude.Map
use variance.Prelude.Map.{Map}
use variance.Messaging.Errors.{Error, crypto, protocol_error}
use variance.Messaging.Proto.{DirectMessage, MessageContent}
use variance.Messaging.Olm.{Olm, Aead}
use variance.Messaging.Storage.Io.{Io, ◌>>=◌, ◌>>◌, return, fail, read, lift}
use variance.Messaging.Storage.Sled.{Codec, decode_value}

-- What the handler asks of `MessageStorage`; each call may fail. `plaintext` is what is kept for a
-- message, which the program cannot ask for.
pub record DirectStorage : Type 1 where
  pub Store : Type 0
  pub store_direct : DirectMessage → Io Store (Unit {0})
  pub fetch_direct : Store → Text → Text → ℕ → Option ℤ → Result Error (List DirectMessage)
  pub store_plaintext : Text → Text → Io Store (Unit {0})
  pub fetch_plaintext : Store → Text → Result Error (Option Text)
  pub store_session_pickle : Text → Text → Io Store (Unit {0})
  pub load_all_session_pickles : Store → Result Error (List (Text × Text))
  pub store_pending_message : Text → DirectMessage → Io Store (Unit {0})
  pub fetch_pending_messages : Store → Text → Result Error (List DirectMessage)
  pub delete_pending_message : Text → Io Store (Unit {0})
  pub list_peers_with_pending_messages : Store → Result Error (List Text)
  pub is_message_pending : Store → Text → Result Error Bool
  pub plaintext : Store → Text → Option Text
  pub store_plaintext_ok :
      (s t : Store) (id blob : Text)
      → store_plaintext id blob s ≡ (t, ok tt)
      → (j : Text) → plaintext t j ≡ (if id == j then some blob else plaintext s j)
  pub fetch_plaintext_ok :
      (s : Store) (id : Text) (v : Option Text) → fetch_plaintext s id ≡ ok v → v ≡ plaintext s id
  pub store_session_pickle_plaintext :
      (s : Store) (did json j : Text)
      → plaintext (store_session_pickle did json s).0 j ≡ plaintext s j

-- The code that the handler calls.
pub record Platform : Type 1 where
  pub signer : Ed25519
  pub olm : Olm
  pub aead : Aead signer.SigningKey
  pub storage : DirectStorage
  pub codec : Codec MessageContent

module _ (p : Platform) where
  open p.signer use {SigningKey}
  open p.olm use {Account, Session, PublicKey, Entropy}
  open p.storage use {Store}

  -- The locks of the account and of the sessions are held for a step each, and nothing of them is kept.
  pub record DirectMessageHandler : Type 0 where
    pub local_did : Text
    pub signing_key : SigningKey
    pub account : Account
    pub identity_key : PublicKey
    pub sessions : Map Text Session
    pub store : Store
    pub storage_key : p.aead.Key

  abbrev pub Handling : Type 0 → Type 0
  Handling A = Io DirectMessageHandler A

  -- A call of the storage.
  abbrev pub stored : {A : Type 0} → Io Store A → Handling A
  stored call h = let (store, result) = call h.store in (record h { store = store }, result)

  abbrev pub fetched : {A : Type 0} → (Store → Result Error A) → Handling A
  fetched call = read (λ h. call h.store)

  -- The call's failure is logged only.
  abbrev pub logged : Handling (Unit {0}) → Handling (Unit {0})
  logged call h = let (h', result) = call h in (h', ok tt)

  unfoldable pub new_handler : Text → SigningKey → Account → Store → DirectMessageHandler
  new_handler local_did signing_key account store = record {
    local_did = local_did;
    signing_key = signing_key;
    account = account;
    identity_key = p.olm.curve25519_key account;
    sessions = [];
    store = store;
    storage_key = p.aead.hkdf signing_key (codes "variance-plaintext-storage-v1");
  }

  unfoldable pub generate_one_time_keys : ℕ → Entropy → DirectMessageHandler → DirectMessageHandler
  generate_one_time_keys count entropy h = record h {
    account = p.olm.generate_one_time_keys h.account count entropy;
  }

  unfoldable pub one_time_keys : DirectMessageHandler → Map ℕ PublicKey
  one_time_keys h = p.olm.one_time_keys h.account

  unfoldable pub mark_one_time_keys_as_published : DirectMessageHandler → DirectMessageHandler
  mark_one_time_keys_as_published h = record h { account = p.olm.mark_keys_as_published h.account }

  unfoldable pub generate_fallback_key :
      Entropy → DirectMessageHandler → DirectMessageHandler × Option PublicKey
  generate_fallback_key entropy h =
      let (account, old) = p.olm.generate_fallback_key h.account entropy in
      (record h { account = account }, old)

  unfoldable pub forget_previous_fallback_key : DirectMessageHandler → DirectMessageHandler
  forget_previous_fallback_key h = record h { account = p.olm.forget_fallback_key h.account }

  unfoldable pub account_pickle : DirectMessageHandler → Result Error Text
  account_pickle h =
      map_err (λ e. crypto (codes "Failed to serialize account pickle: " ++ e))
        (p.olm.account_json h.account)

  -- The blob is the nonce and the ciphertext behind it.
  unfoldable pub persist_plaintext : List ℕ → Text → MessageContent → Handling (Unit {0})
  persist_plaintext nonce message_id content = do
    ciphertext ← read (λ h.
        map_err (λ e. crypto (codes "At-rest encryption failed"))
          (p.aead.aes_encrypt h.storage_key nonce (p.codec.encode content)))
    stored (p.storage.store_plaintext message_id (nonce ++ ciphertext))

  unfoldable pub decrypt_blob : Text → DirectMessageHandler → Result Error (Option MessageContent)
  decrypt_blob blob h =
      if ltb (length blob) 12
      then err (crypto (codes "Stored plaintext blob is too short"))
      else elim (p.aead.aes_decrypt h.storage_key (take 12 blob) (drop 12 blob)) [
        | err e ↦ err (crypto (codes "At-rest decryption failed (wrong key or corrupted data)"))
        | ok plaintext ↦ elim (decode_value p.codec plaintext) [
          | err e ↦ err e
          | ok content ↦ ok (some content)
        ]
      ]

  unfoldable pub load_plaintext : Text → Handling (Option MessageContent)
  unfolding decrypt_blob
  load_plaintext message_id = fetched (λ s. p.storage.fetch_plaintext s message_id) >>= λ found.
      elim found [ none ↦ return none | some blob ↦ read (decrypt_blob blob) ]

  -- Nothing is stored for a peer without a session.
  unfoldable pub persist_session : Text → Handling (Unit {0})
  persist_session peer_did h = elim (Map.get peer_did h.sessions) [
    | none ↦ (h, ok tt)
    | some session ↦ elim (p.olm.session_json session) [
      | err e ↦ (h, err (crypto (codes "Failed to serialize session pickle: " ++ e)))
      | ok pickle_json ↦ stored (p.storage.store_session_pickle peer_did pickle_json) h
    ]
  ]

  abbrev pub put_session : Text → Session → DirectMessageHandler → DirectMessageHandler
  put_session did session h = record h { sessions = Map.insert did session h.sessions }

  unfoldable pub init_session_as_initiator :
      Text → PublicKey → PublicKey → Entropy → Handling (Unit {0})
  init_session_as_initiator did identity_key one_time_key entropy h =
      let session = p.olm.create_outbound_session h.account identity_key one_time_key entropy in
      persist_session did (put_session did session h)

  unfoldable pub has_session : Text → DirectMessageHandler → Bool
  has_session peer_did h = Map.contains_key peer_did h.sessions

  unfoldable pub init_session_if_needed :
      Text → PublicKey → PublicKey → Entropy → Handling (Unit {0})
  init_session_if_needed did identity_key one_time_key entropy h =
      if Map.contains_key did h.sessions
      then (h, ok tt)
      else init_session_as_initiator did identity_key one_time_key entropy h

  -- A pickle that cannot be read is logged and left out.
  unfoldable pub restore_loop : List (Text × Text) → Map Text Session → Map Text Session
  restore_loop [] sessions = sessions
  restore_loop ((peer_did, pickle_json) ∷ es) sessions = elim (p.olm.session_of_json pickle_json) [
    | err e ↦ restore_loop es sessions
    | ok session ↦ restore_loop es (Map.insert peer_did session sessions)
  ]

  unfoldable pub restore_sessions : Handling (Unit {0})
  unfolding restore_loop
  restore_sessions = fetched p.storage.load_all_session_pickles >>= λ pickles h.
      (record h { sessions = restore_loop pickles h.sessions }, ok tt)

  unfoldable pub queue_pending_message : Text → DirectMessage → Handling (Unit {0})
  queue_pending_message did message = stored (p.storage.store_pending_message did message)

  unfoldable pub get_pending_messages : Text → Handling (List DirectMessage)
  get_pending_messages peer_did = fetched (λ s. p.storage.fetch_pending_messages s peer_did)

  unfoldable pub mark_pending_sent : Text → Handling (Unit {0})
  mark_pending_sent message_id = stored (p.storage.delete_pending_message message_id)

  unfoldable pub peers_with_pending_messages : Handling (List Text)
  peers_with_pending_messages = fetched p.storage.list_peers_with_pending_messages

  unfoldable pub is_message_pending : Text → Handling Bool
  is_message_pending message_id = fetched (λ s. p.storage.is_message_pending s message_id)

  unfoldable pub get_conversation : Text → ℕ → Option ℤ → Handling (List DirectMessage)
  get_conversation peer_did limit before =
      read (λ h. p.storage.fetch_direct h.store h.local_did peer_did limit before)
