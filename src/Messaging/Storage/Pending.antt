-- ===== src/Messaging/Storage/Pending.antt =====
-- crates/variance-messaging/src/storage/direct.rs: the messages that wait for a peer.
use variance.Prelude.{
  Text, List, [], ◌∷◌, ◌++◌, Option, none, some, Bool, true, false, Result, ok, err, codes,
  contains, list_eq, nat_eq, if◌then◌else◌,
}
use variance.Messaging.Errors.{Error, storage_error}
use variance.Messaging.Proto.{DirectMessage}
use variance.Messaging.Storage.Io.{Io, ◌>>=◌, ◌>>◌, return, read}
use variance.Messaging.Storage.Sled.{Sled, Codec, open_tree, tree_insert, tree_remove, tree_get}
use variance.Messaging.Storage.Keys.{joined, rsplit_colon, strip_prefix, ends_with}
use variance.Messaging.Storage.Entries.{entries, decode_all}

abbrev pub pending_messages_tree : Text
pending_messages_tree = codes "pending_messages"

abbrev pub message_index_tree : Text
message_index_tree = codes "message_index"

unfoldable pub pending_key : Text → Text → Text
pending_key peer_did message_id = joined peer_did message_id

abbrev pub pending_idx_key : Text → Text
pending_idx_key id = codes "idx:" ++ id

-- The key that the index gives for a message in the tree of pending messages.
unfoldable pub pending_indexed : Option Text → Option Text
pending_indexed none = none
pending_indexed (some value) = strip_prefix (codes "pending:") value

-- The first key of a message with an id.
unfoldable pub key_of_id : Text → List (Result Text (Text × Text)) → Result Error (Option Text)
key_of_id message_id [] = ok none
key_of_id message_id (err e ∷ es) = err (storage_error e)
key_of_id message_id (ok (key, value) ∷ es) =
    let rest = key_of_id message_id es in
    if ends_with (58 ∷ message_id) key then ok (some key) else rest

-- The set of peers that keys name, without its order.
unfoldable pub peers_of : List (Text × Text) → List Text
peers_of [] = []
peers_of ((key, value) ∷ es) = elim (rsplit_colon key) [
  | none ↦ peers_of es
  | some (peer_did, id) ↦
      if contains peer_did (peers_of es) then peers_of es else peer_did ∷ peers_of es
]

module _ (sled : Sled) (codec : Codec DirectMessage) where
  open sled use {Db, iter, scan_prefix}
  open codec use {encode}

  unfoldable pub store_pending_message : Text → DirectMessage → Io Db (Unit {0})
  unfolding pending_key
  store_pending_message peer_did message = do
    open_tree sled pending_messages_tree
    open_tree sled message_index_tree
    tree_insert sled pending_messages_tree (pending_key peer_did message.id) (encode message)
    tree_insert sled message_index_tree (pending_idx_key message.id)
        (codes "pending:" ++ pending_key peer_did message.id)

  unfoldable pub fetch_pending_messages : Text → Io Db (List DirectMessage)
  fetch_pending_messages peer_did =
      open_tree sled pending_messages_tree
      >> read (λ db. decode_all codec (scan_prefix db pending_messages_tree (joined peer_did [])))

  -- The scan that finds a pending message with no entry in the index.
  unfoldable pub delete_pending_loop : Text → List (Result Text (Text × Text)) → Io Db (Unit {0})
  delete_pending_loop message_id es = elim (key_of_id message_id es) [
    | err e ↦ λ db. (db, err e)
    | ok none ↦ return tt
    | ok (some key) ↦ tree_remove sled pending_messages_tree key
  ]

  unfoldable pub delete_pending_indexed : Text → Option Text → Io Db (Unit {0})
  unfolding pending_indexed delete_pending_loop
  delete_pending_indexed message_id value = elim (pending_indexed value) [
    | some key ↦
        tree_remove sled pending_messages_tree key
        >> tree_remove sled message_index_tree (pending_idx_key message_id)
    | none ↦ λ db. delete_pending_loop message_id (iter db pending_messages_tree) db
  ]

  unfoldable pub delete_pending_message : Text → Io Db (Unit {0})
  delete_pending_message message_id =
      open_tree sled pending_messages_tree
      >> (open_tree sled message_index_tree
          >> (tree_get sled message_index_tree (pending_idx_key message_id)
              >>= delete_pending_indexed message_id))

  -- The index's answer, and the scan of the pending messages where it has none.
  unfoldable pub is_pending_indexed : Text → Option Text → Io Db Bool
  unfolding pending_indexed
  is_pending_indexed message_id value = elim (pending_indexed value) [
    | some key ↦ return true
    | none ↦
        open_tree sled pending_messages_tree
        >> (read (λ db. key_of_id message_id (iter db pending_messages_tree)) >>= λ found.
            return (elim found [ none ↦ false | some key ↦ true ]))
  ]

  unfoldable pub is_message_pending : Text → Io Db Bool
  is_message_pending message_id =
      open_tree sled message_index_tree
      >> (tree_get sled message_index_tree (pending_idx_key message_id)
          >>= is_pending_indexed message_id)

  unfoldable pub list_peers_with_pending_messages : Io Db (List Text)
  unfolding peers_of
  list_peers_with_pending_messages =
      open_tree sled pending_messages_tree
      >> (read (λ db. entries (iter db pending_messages_tree)) >>= λ found. return (peers_of found))
