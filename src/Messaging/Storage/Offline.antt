-- ===== src/Messaging/Storage/Offline.antt =====
-- crates/variance-messaging/src/storage/offline.rs: the envelopes that are kept for users who are
-- offline. `hex::encode` is a parameter. Keys are valid UTF-8, so a lossy reading of one is the key.
pub mod Scan
pub mod Stored
use variance.Prelude.{
  ℕ, suc, Text, List, [], ◌∷◌, ◌++◌, Option, none, some, Bool, true, false, not, Result, ok, err,
  codes, length, leb, ◌==◌, list_eq, nat_eq, if◌then◌else◌,
}
use variance.Prelude.Int.{ℤ, leb_ℤ}
use variance.Messaging.Errors.{Error, invalid_format, storage_error, message_not_found}
use variance.Messaging.Proto.{EnvelopeMessage, direct, group, OfflineMessageEnvelope}
use variance.Messaging.Storage.Io.{Io, ◌>>=◌, ◌>>◌, return, fail, lift, read}
use variance.Messaging.Storage.Sled.{
  Sled, Codec, open_tree, tree_insert, tree_remove, tree_get, decode_value, starts_with,
}
use variance.Messaging.Storage.Keys.{joined, message_key, rsplit_colon, parse_i64, strip_prefix}

abbrev pub offline_tree : Text
offline_tree = codes "offline_messages"

abbrev pub message_index_tree : Text
message_index_tree = codes "message_index"

unfoldable pub id_of : EnvelopeMessage → Text
id_of (direct m) = m.id
id_of (group m) = m.id

unfoldable pub timestamp_of : EnvelopeMessage → ℤ
timestamp_of (direct m) = m.timestamp
timestamp_of (group m) = m.timestamp

abbrev pub idx_key : Text → Text
idx_key id = codes "idx:" ++ id

-- The part of a key before its last colon.
unfoldable pub before_id : Text → Text
before_id key = elim (rsplit_colon key) [ none ↦ [] | some (before, id) ↦ before ]

-- A key is left out where it has a time that is not after `since`.
unfoldable pub is_newer : Option ℤ → Text → Bool
unfolding before_id
is_newer none key = true
is_newer (some since) key = elim (rsplit_colon (before_id key)) [
  | none ↦ true
  | some (mailbox, digits) ↦ elim (parse_i64 digits) [
    | none ↦ true
    | some timestamp ↦ not (leb_ℤ timestamp since)
  ]
]

module _ (sled : Sled) (hex : Text → Text) (codec : Codec OfflineMessageEnvelope) where
  open sled use {Db, iter, scan_prefix}
  open codec use {encode}

  unfoldable pub offline_key : List ℕ → ℤ → Text → Text
  offline_key mailbox_token timestamp id = message_key (hex mailbox_token) timestamp id

  abbrev pub mailbox_prefix : List ℕ → Text
  mailbox_prefix mailbox_token = joined (hex mailbox_token) []

  unfoldable pub store_envelope : OfflineMessageEnvelope → EnvelopeMessage → Io Db (Unit {0})
  store_envelope e m =
      let key = offline_key e.mailbox_token (timestamp_of m) (id_of m) in
      tree_insert sled offline_tree key (encode e)
      >> tree_insert sled message_index_tree (idx_key (id_of m)) (codes "offline:" ++ key)

  unfoldable pub store_offline : OfflineMessageEnvelope → Io Db (Unit {0})
  store_offline e =
      open_tree sled offline_tree
      >> (open_tree sled message_index_tree >> elim e.message [
        | none ↦ fail (invalid_format (codes "Offline envelope has no message"))
        | some m ↦ store_envelope e m
      ])

  -- The loop of `impl_fetch_offline`, with the messages that it has pushed.
  unfoldable pub fetch_loop :
      Option ℤ
      → ℕ
      → List OfflineMessageEnvelope
      → List (Result Text (Text × Text))
      → Result Error (List OfflineMessageEnvelope)
  fetch_loop since limit messages [] = ok messages
  fetch_loop since limit messages (err e ∷ es) = err (storage_error e)
  fetch_loop since limit messages (ok (key, value) ∷ es) = elim (is_newer since key) [
    | false ↦ fetch_loop since limit messages es
    | true ↦ elim (decode_value codec value) [
      | err e ↦ err e
      | ok envelope ↦ elim (leb limit (length (messages ++ envelope ∷ []))) [
        | true ↦ ok (messages ++ envelope ∷ [])
        | false ↦ fetch_loop since limit (messages ++ envelope ∷ []) es
      ]
    ]
  ]

  unfoldable pub fetch_offline : List ℕ → Option ℤ → ℕ → Io Db (List OfflineMessageEnvelope)
  fetch_offline mailbox_token since limit =
      open_tree sled offline_tree
      >> read (λ db.
        fetch_loop since limit [] (scan_prefix db offline_tree (mailbox_prefix mailbox_token)))

  unfoldable pub count_offline_for_mailbox : List ℕ → Io Db ℕ
  count_offline_for_mailbox mailbox_token =
      open_tree sled offline_tree
      >> read (λ db. ok (length (scan_prefix db offline_tree (mailbox_prefix mailbox_token))))

  -- The scan that finds a message with no entry in the index.
  unfoldable pub delete_loop : Text → List (Result Text (Text × Text)) → Io Db (Unit {0})
  delete_loop message_id [] = fail (message_not_found message_id)
  delete_loop message_id (err e ∷ es) = fail (storage_error e)
  delete_loop message_id (ok (key, value) ∷ es) = elim (decode_value codec value) [
    | err e ↦ fail e
    | ok envelope ↦ elim envelope.message [
      | none ↦ delete_loop message_id es
      | some m ↦ elim (id_of m == message_id) [
        | true ↦ tree_remove sled offline_tree key
        | false ↦ delete_loop message_id es
      ]
    ]
  ]

  -- The key that the index gives for a message in the tree of offline messages.
  unfoldable pub indexed_key : Option Text → Option Text
  indexed_key none = none
  indexed_key (some value) = strip_prefix (codes "offline:") value

  unfoldable pub delete_indexed : Text → Option Text → Io Db (Unit {0})
  unfolding indexed_key
  delete_indexed message_id value = elim (indexed_key value) [
    | some key ↦
        tree_remove sled offline_tree key
        >> tree_remove sled message_index_tree (idx_key message_id)
    | none ↦ λ db. delete_loop message_id (iter db offline_tree) db
  ]

  unfoldable pub delete_offline : Text → Io Db (Unit {0})
  delete_offline message_id =
      open_tree sled offline_tree
      >> (open_tree sled message_index_tree
          >> (tree_get sled message_index_tree (idx_key message_id) >>= delete_indexed message_id))

  -- The keys of the envelopes whose time is over.
  unfoldable pub expired_keys : ℤ → List (Result Text (Text × Text)) → Result Error (List Text)
  expired_keys now [] = ok []
  expired_keys now (err e ∷ es) = err (storage_error e)
  expired_keys now (ok (key, value) ∷ es) = elim (decode_value codec value) [
    | err e ↦ err e
    | ok envelope ↦ elim (expired_keys now es) [
      | err e ↦ err e
      | ok keys ↦ ok (if leb_ℤ envelope.expires_at now then key ∷ keys else keys)
    ]
  ]

  -- The loop that removes keys and counts them.
  unfoldable pub remove_keys : Text → List Text → Io Db ℕ
  remove_keys tree [] = return 0
  remove_keys tree (key ∷ keys) = do
    tree_remove sled tree key
    deleted ← remove_keys tree keys
    return (suc deleted)

  unfoldable pub cleanup_expired : ℤ → Io Db ℕ
  unfolding expired_keys remove_keys
  cleanup_expired now = do
    open_tree sled offline_tree
    keys ← read (λ db. expired_keys now (iter db offline_tree))
    remove_keys offline_tree keys
