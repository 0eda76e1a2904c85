-- ===== src/Messaging/Storage/Group.antt =====
-- crates/variance-messaging/src/storage/group.rs: the messages of groups. The clock is an
-- argument.
pub mod Since
pub mod Removal
use variance.Prelude.{
  ℕ, ◌+◌, ◌^◌, Text, List, [], ◌∷◌, ◌++◌, Option, none, some, Bool, true, false, not, Result, ok,
  err, codes, length, take, retain, map, last?, leb, ◌==◌, list_eq, nat_eq, if◌then◌else◌,
}
use mathlib.Core.List.{reverse}
use variance.Prelude.Int.{ℤ, pos, ltb_ℤ, ◌+ℤ◌, sub_i64, wrap_i64, i64_max}
use variance.Messaging.Errors.{Error, storage_error}
use variance.Messaging.Proto.{GroupMessage, Group, GroupMember}
use variance.Messaging.Storage.Io.{Io, ◌>>=◌, ◌>>◌, return, fail, read}
use variance.Messaging.Storage.Sled.{
  Sled, Codec, decode_value, open_tree, tree_insert, tree_remove, tree_get, starts_with,
}
use variance.Messaging.Storage.Keys.{
  joined, timestamp_020, group_key, parse_group_key_timestamp, ends_with,
}
use variance.Messaging.Storage.Entries.{
  Scanned, entries, ok_entries, message_ids, decode_all, decode_some, remove_each, remove_cached,
}
use variance.Messaging.Storage.Direct.{is_before}

abbrev pub group_tree : Text
group_tree = codes "group_messages"

abbrev pub group_plaintext_tree : Text
group_plaintext_tree = codes "group_plaintext_cache"

-- The range of a group's keys: `;` is one byte after `:`.
abbrev pub prefix : Text → Text
prefix group_id = joined group_id []

abbrev pub prefix_end : Text → Text
prefix_end group_id = group_id ++ 59 ∷ []

unfoldable pub saturating_suc : ℤ → ℤ
unfolding ◌+ℤ◌
saturating_suc t = if ltb_ℤ t i64_max then t +ℤ pos 1 else t

-- The keys of group messages that are older than a time.
unfoldable pub old_group_keys : ℤ → List (Text × Text) → List Text
old_group_keys cutoff_ms [] = []
old_group_keys cutoff_ms ((key, value) ∷ es) =
    let rest = old_group_keys cutoff_ms es in
    elim (parse_group_key_timestamp key) [
      | none ↦ rest
      | some ts ↦ if ltb_ℤ ts cutoff_ms then key ∷ rest else rest
    ]

-- A key ends with the id of a message.
unfoldable pub has_id : Text → List (Text × Text) → Bool
has_id message_id [] = false
has_id message_id ((key, value) ∷ es) =
    let rest = has_id message_id es in if ends_with (58 ∷ message_id) key then true else rest

module _ (sled : Sled) (codec : Codec GroupMessage) where
  open sled use {Db, iter, scan_prefix, range, range_from}
  open codec use {encode, decode}

  unfoldable pub store_group : GroupMessage → Io Db (Unit {0})
  store_group message =
      open_tree sled group_tree
      >> tree_insert sled group_tree (group_key message.group_id message.timestamp message.id)
          (encode message)

  unfoldable pub fetch_group : Text → ℕ → Option ℤ → Io Db (List GroupMessage)
  unfolding is_before
  fetch_group group_id limit before =
      open_tree sled group_tree
      >> read (λ db. ok (
          reverse (
            take limit (
              retain (λ m. is_before before m.timestamp)
                (decode_some codec
                  (reverse (range db group_tree (prefix group_id) (prefix_end group_id))))))))

  -- The last entry of a range, decoded; what cannot be decoded is left out.
  unfoldable pub latest_some :
      Option (Result Text (Text × Text)) → Result Error (Option GroupMessage)
  latest_some none = ok none
  latest_some (some (err e)) = err (storage_error e)
  latest_some (some (ok (key, value))) = elim (decode value) [
    | err e ↦ ok none
    | ok m ↦ ok (some m)
  ]

  unfoldable pub fetch_group_latest : Text → Io Db (Option GroupMessage)
  unfolding latest_some
  fetch_group_latest group_id =
      open_tree sled group_tree
      >> read
          (λ db. latest_some (last? (range db group_tree (prefix group_id) (prefix_end group_id))))

  -- The loop of `impl_fetch_group_since`, with the messages that it has pushed.
  unfoldable pub since_loop :
      Text → ℕ → List GroupMessage → Scanned → Result Error (List GroupMessage)
  since_loop group_id limit messages [] = ok messages
  since_loop group_id limit messages (err e ∷ es) = err (storage_error e)
  since_loop group_id limit messages (ok (key, value) ∷ es) =
      elim (starts_with (prefix group_id) key) [
        | false ↦ ok messages
        | true ↦ elim (decode_value codec value) [
          | err e ↦ err e
          | ok m ↦ elim (leb limit (length (messages ++ m ∷ []))) [
            | true ↦ ok (messages ++ m ∷ [])
            | false ↦ since_loop group_id limit (messages ++ m ∷ []) es
          ]
        ]
      ]

  unfoldable pub fetch_group_since : Text → ℤ → ℕ → Io Db (List GroupMessage)
  unfolding since_loop saturating_suc
  fetch_group_since group_id since_timestamp limit =
      open_tree sled group_tree
      >> read (λ db. since_loop group_id limit [] (
          range_from db group_tree
            (joined group_id (joined (timestamp_020 (saturating_suc since_timestamp)) []))))

  -- The last entry of a range, which must be a message.
  unfoldable pub latest_time : Option (Result Text (Text × Text)) → Result Error (Option ℤ)
  latest_time none = ok none
  latest_time (some (err e)) = err (storage_error e)
  latest_time (some (ok (key, value))) = elim (decode_value codec value) [
    | err e ↦ err e
    | ok m ↦ ok (some m.timestamp)
  ]

  unfoldable pub latest_group_timestamp : Text → Io Db (Option ℤ)
  unfolding latest_time
  latest_group_timestamp group_id =
      open_tree sled group_tree
      >> read
          (λ db. latest_time (last? (range db group_tree (prefix group_id) (prefix_end group_id))))

  unfoldable pub has_group_message : Text → Text → Db → Bool
  unfolding has_id
  has_group_message group_id message_id db = elim (sled.open_tree db group_tree) [
    | err e ↦ false
    | ok t ↦
        has_id message_id (ok_entries (range db group_tree (prefix group_id) (prefix_end group_id)))
  ]

  unfoldable pub delete_group_messages : Text → Io Db (Unit {0})
  delete_group_messages group_id = do
    open_tree sled group_tree
    found ← read (λ db. ok (ok_entries (scan_prefix db group_tree (prefix group_id))))
    remove_each sled group_tree (map (λ e. e.0) found)
    remove_cached sled group_plaintext_tree (message_ids found)

  unfoldable pub cleanup_old_group_messages : ℕ → ℤ → Io Db ℕ
  unfolding old_group_keys
  cleanup_old_group_messages max_age_ms now = do
    open_tree sled group_tree
    found ← read (λ db. entries (iter db group_tree))
    remove_each sled group_tree (old_group_keys (sub_i64 now (wrap_i64 (pos max_age_ms))) found)
    return (length (old_group_keys (sub_i64 now (wrap_i64 (pos max_age_ms))) found))
