-- ===== src/Messaging/Storage/Direct.antt =====
-- crates/variance-messaging/src/storage/direct.rs: the messages between two users, their plaintexts
-- and the sessions with peers. The clock is an argument.
pub mod Fetch
use variance.Prelude.{
  ℕ, Text, List, [], ◌∷◌, ◌++◌, Option, none, some, Bool, true, false, not, Result, ok, err, codes,
  length, take, retain, map, contains, ◌==◌, list_eq, nat_eq, if◌then◌else◌,
}
use mathlib.Core.List.{reverse}
use variance.Prelude.Int.{ℤ, pos, ltb_ℤ, sub_i64, wrap_i64, i64_min}
use variance.Prelude.Map
use variance.Prelude.Map.{Map}
use variance.Messaging.Errors.{Error}
use variance.Messaging.Proto.{DirectMessage}
use variance.Messaging.Storage.Io.{Io, ◌>>=◌, ◌>>◌, return, read}
use variance.Messaging.Storage.Sled.{
  Sled, Codec, open_tree, tree_insert, tree_remove, tree_get, starts_with,
}
use variance.Messaging.Storage.Keys.{
  joined, conversation_id, direct_key, parse_direct_key, peer_did_from_conv_id, rsplit_colon,
  strip_prefix, ends_with,
}
use variance.Messaging.Storage.Entries.{
  Scanned, entries, message_ids, decode_all, decode_some, remove_each, logged, remove_cached,
}

abbrev pub direct_tree : Text
direct_tree = codes "direct_messages"

abbrev pub plaintext_tree : Text
plaintext_tree = codes "plaintext_cache"

abbrev pub session_pickles_tree : Text
session_pickles_tree = codes "session_pickles"

-- `before.is_none_or(|ts| msg.timestamp < ts)`.
unfoldable pub is_before : Option ℤ → ℤ → Bool
is_before none timestamp = true
is_before (some ts) timestamp = ltb_ℤ timestamp ts

-- The time of the latest message of a conversation, and of the peer's latest.
abbrev pub Latest : Type 0
Latest = ℤ × Option ℤ

unfoldable pub later : ℤ → ℤ → ℤ
later latest timestamp = if ltb_ℤ latest timestamp then timestamp else latest

unfoldable pub later_peer : Option ℤ → ℤ → ℤ
unfolding later
later_peer latest timestamp = elim latest [
  | none ↦ later i64_min timestamp
  | some l ↦ later l timestamp
]

-- A conversation's place in the answer: before those with an earlier latest message.
unfoldable pub insert_latest : Text × Latest → Map Text Latest → Map Text Latest
insert_latest c [] = c ∷ []
insert_latest c (d ∷ ds) = if ltb_ℤ c.1.0 d.1.0 then d ∷ insert_latest c ds else c ∷ d ∷ ds

unfoldable pub sort_latest : Map Text Latest → Map Text Latest
unfolding insert_latest
sort_latest [] = []
sort_latest (c ∷ cs) = insert_latest c (sort_latest cs)

-- The keys of direct messages that are older than a time.
unfoldable pub old_direct_keys : ℤ → List (Text × Text) → List Text
old_direct_keys cutoff_ms [] = []
old_direct_keys cutoff_ms ((key, value) ∷ es) =
    let rest = old_direct_keys cutoff_ms es in
    elim (parse_direct_key key) [
      | none ↦ rest
      | some (conv_id, ts) ↦ if ltb_ℤ ts cutoff_ms then key ∷ rest else rest
    ]

module _ (sled : Sled) (codec : Codec DirectMessage) where
  open sled use {Db, iter, scan_prefix}
  open codec use {encode, decode}

  unfoldable pub store_direct : DirectMessage → Io Db (Unit {0})
  store_direct message =
      open_tree sled direct_tree
      >> tree_insert sled direct_tree
          (direct_key message.sender_did message.recipient_did message.timestamp message.id)
          (encode message)

  unfoldable pub fetch_direct : Text → Text → ℕ → Option ℤ → Io Db (List DirectMessage)
  unfolding is_before
  fetch_direct sender_did recipient_did limit before =
      open_tree sled direct_tree
      >> read (λ db. ok (
          reverse (
            take limit (
              retain (λ m. is_before before m.timestamp)
                (decode_some codec (
                  reverse (
                    scan_prefix db direct_tree
                      (joined (conversation_id sender_did recipient_did) []))))))))

  -- What one entry does to a conversation.
  unfoldable pub note_message : Text → Text → ℤ → Latest → Latest
  unfolding later later_peer
  note_message local_did value timestamp (latest, peer_latest) = (
    later latest timestamp,
    elim (decode value) [
      | err e ↦ peer_latest
      | ok m ↦
          if m.sender_did == local_did then peer_latest else some (later_peer peer_latest timestamp)
    ],
  )

  -- The loop over the entries. The order of the map is not the program's, which has none.
  unfoldable pub conversations : Text → Map Text Latest → List (Text × Text) → Map Text Latest
  unfolding note_message
  conversations local_did found [] = found
  conversations local_did found ((key, value) ∷ es) = elim (parse_direct_key key) [
    | none ↦ conversations local_did found es
    | some (conv_id, timestamp) ↦ elim (peer_did_from_conv_id conv_id local_did) [
      | none ↦ conversations local_did found es
      | some peer_did ↦
          let entry : Latest = elim (Map.get peer_did found) [
            | none ↦ (i64_min, none)
            | some l ↦ l
          ] in
          conversations local_did
            (Map.insert peer_did (note_message local_did value timestamp entry) found) es
    ]
  ]

  unfoldable pub list_direct_conversations : Text → Io Db (Map Text Latest)
  unfolding conversations sort_latest
  list_direct_conversations local_did = do
    open_tree sled direct_tree
    found ← read (λ db. entries (iter db direct_tree))
    return (sort_latest (conversations local_did [] found))

  unfoldable pub delete_direct_conversation : Text → Text → Io Db (Unit {0})
  delete_direct_conversation did1 did2 = do
    open_tree sled direct_tree
    found ←
        read (λ db. entries (scan_prefix db direct_tree (joined (conversation_id did1 did2) [])))
    remove_each sled direct_tree (map (λ e. e.0) found)
    remove_cached sled plaintext_tree (message_ids found)

  unfoldable pub delete_direct_by_id : Text → Text → ℤ → Text → Io Db (Unit {0})
  delete_direct_by_id sender_did recipient_did timestamp message_id =
      open_tree sled direct_tree
      >> (tree_remove sled direct_tree (direct_key sender_did recipient_did timestamp message_id)
          >> logged sled
              (open_tree sled plaintext_tree >> tree_remove sled plaintext_tree message_id))

  unfoldable pub store_plaintext : Text → Text → Io Db (Unit {0})
  store_plaintext message_id encrypted =
      open_tree sled plaintext_tree >> tree_insert sled plaintext_tree message_id encrypted

  unfoldable pub fetch_plaintext : Text → Io Db (Option Text)
  fetch_plaintext message_id =
      open_tree sled plaintext_tree >> tree_get sled plaintext_tree message_id

  unfoldable pub store_session_pickle : Text → Text → Io Db (Unit {0})
  store_session_pickle peer_did pickle_json =
      open_tree sled session_pickles_tree
      >> tree_insert sled session_pickles_tree peer_did pickle_json

  unfoldable pub fetch_session_pickle : Text → Io Db (Option Text)
  fetch_session_pickle peer_did =
      open_tree sled session_pickles_tree >> tree_get sled session_pickles_tree peer_did

  unfoldable pub load_all_session_pickles : Io Db (List (Text × Text))
  load_all_session_pickles =
      open_tree sled session_pickles_tree >> read (λ db. entries (iter db session_pickles_tree))

  -- `max_age.as_millis() as i64` wraps.
  unfoldable pub cleanup_old_direct_messages : ℕ → ℤ → Io Db ℕ
  unfolding old_direct_keys
  cleanup_old_direct_messages max_age_ms now = do
    open_tree sled direct_tree
    found ← read (λ db. entries (iter db direct_tree))
    remove_each sled direct_tree (old_direct_keys (sub_i64 now (wrap_i64 (pos max_age_ms))) found)
    return (length (old_direct_keys (sub_i64 now (wrap_i64 (pos max_age_ms))) found))
