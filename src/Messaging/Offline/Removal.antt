-- ===== src/Messaging/Offline/Removal.antt =====
-- What deleting a message and cleaning up leave.
use variance.Prelude.{
  ◌≡◌, refl, ap, ◌∙◌, Text, [], ◌∷◌, ◌++◌, none, some, ok, arith, if◌then◌else◌, codes, ◌==◌,
  list_eq, nat_eq, eq_self,
}
use variance.Prelude.Int.{ℤ}
use variance.Prelude.Map
use variance.Prelude.Map.{Map}
use variance.Messaging.Proto.{OfflineMessageEnvelope, EnvelopeMessage}
use variance.Messaging.Storage.Io.{◌>>=◌, ◌>>◌, after-eq-ok}
use variance.Messaging.Storage.Sled.{Sled, Codec, put, open_tree, tree_remove, tree_get}
use variance.Messaging.Storage.Contents.{
  after_open, tree_remove-own, tree_remove-other, tree_get-contents, get-put,
}
use variance.Messaging.Storage.Keys.{strip_prefix}
use variance.Messaging.Storage.Offline
use variance.Messaging.Storage.Offline.{
  offline_tree, message_index_tree, offline_key, id_of, timestamp_of, idx_key, indexed_key,
  delete_indexed, expired_keys, remove_keys,
}
use variance.Messaging.Storage.Offline.Stored.{other_tree, other_index, store_envelope-contents}
use variance.Messaging.Offline.{store_message, delete_message}
use variance.Messaging.Offline.Pages.{local_storage}
use variance.Messaging.Offline.Quota.{store_message-stored}

strip_prefix-append : (p s : Text) → strip_prefix p (p ++ s) ≡ some s
unfolding strip_prefix
strip_prefix-append [] s = refl
strip_prefix-append (c ∷ p) s = rw (eq_self c) (strip_prefix-append p s)

get-remove-put :
    (k j v : Text) (m : Map Text Text)
    → Map.get j (Map.remove k (put k v m)) ≡ (if k == j then none else Map.get j m)
get-remove-put k j v m = ground (arith, Map.get-remove k j (put k v m), get-put k j v m)

module _ (sled : Sled) (hex : Text → Text) (codec : Codec OfflineMessageEnvelope) where
  open sled use {Db, contents, iter}

  -- A deletion that finds its message in the index removes both entries.
  delete_offline-indexed :
      (db db' : Db) (id key : Text)
      → Map.get (idx_key id) (contents db message_index_tree) ≡ some (codes "offline:" ++ key)
      → Offline.delete_offline sled hex codec id db ≡ (db', ok tt)
      → (contents db' offline_tree ≡ Map.remove key (contents db offline_tree))
        × (contents db' message_index_tree
            ≡ Map.remove (idx_key id) (contents db message_index_tree))
  unfolding Offline.delete_offline indexed_key delete_indexed
  delete_offline-indexed db db' id key indexed deleted =
      let look =
        tree_get sled message_index_tree (idx_key id) >>= delete_indexed sled hex codec id in
      let opened = after_open sled message_index_tree look db db' tt (
        after_open sled offline_tree (open_tree sled message_index_tree >> look) db db' tt
          deleted) in
      let (t, value, got, rest) =
        after-eq-ok (delete_indexed sled hex codec id)
          (tree_get sled message_index_tree (idx_key id) db) db' tt opened in
      let (same, found) = tree_get-contents sled db t message_index_tree (idx_key id) value got in
      let at : indexed_key sled hex codec value ≡ some key =
        rw (found ∙ indexed, indexed_key) (strip_prefix-append (codes "offline:") key) in
      let both : (tree_remove sled offline_tree key
              >> tree_remove sled message_index_tree (idx_key id))
            db
          ≡ (db', ok tt) =
        rw (← same, delete_indexed, at) at rest in
      let (db₁, u, first, second) =
        after-eq-ok (λ _. tree_remove sled message_index_tree (idx_key id))
          (tree_remove sled offline_tree key db) db' tt both in
      (
        tree_remove-other sled db₁ db' message_index_tree (idx_key id) offline_tree second
              other_tree
            ∙ tree_remove-own sled db db₁ offline_tree key first,
        tree_remove-own sled db₁ db' message_index_tree (idx_key id) second
            ∙ ap (Map.remove (idx_key id)) (
                tree_remove-other sled db db₁ offline_tree key message_index_tree first
                  other_index),
      )

  -- After a message was stored and deleted by its id, with both calls accepted, every key of the
  -- two trees has what it had before, but the keys of the message itself, which have nothing.
  pub delete_message-store_message :
      (db db₁ db₂ : Db) (e : OfflineMessageEnvelope) (m : EnvelopeMessage) (now : ℤ) (k : Text)
      → e.message ≡ some m
      → store_message (local_storage sled hex codec) e now db ≡ (db₁, ok tt)
      → delete_message (local_storage sled hex codec) (id_of m) db₁ ≡ (db₂, ok tt)
      → (Map.get k (contents db₂ offline_tree) ≡ (
          if offline_key sled hex codec e.mailbox_token (timestamp_of m) (id_of m) == k
          then none
          else Map.get k (contents db offline_tree)))
        × (Map.get k (contents db₂ message_index_tree)
            ≡ (if idx_key (id_of m) == k then none else Map.get k (contents db message_index_tree)))
  unfolding delete_message
  delete_message-store_message db db₁ db₂ e m now k has stored deleted =
      let (m', has', room, new) = store_message-stored sled hex codec db db₁ e now stored in
      let same : m' ≡ m = cc in
      let (grown, indexed) = store_envelope-contents sled hex codec db db₁ e m (rw same at new) in
      let key = offline_key sled hex codec e.mailbox_token (timestamp_of m) (id_of m) in
      let entry = codes "offline:" ++ key in
      let found : Map.get (idx_key (id_of m)) (contents db₁ message_index_tree) ≡ some entry =
        rw
          (
            indexed,
            get-put (idx_key (id_of m)) (idx_key (id_of m)) entry (contents db message_index_tree),
            eq_self (idx_key (id_of m)),
          )
          refl in
      let (left, unindexed) = delete_offline-indexed db₁ db₂ (id_of m) key found deleted in
      (
        rw (left, grown) (get-remove-put key k (codec.encode e) (contents db offline_tree)),
        rw (unindexed, indexed)
            (get-remove-put (idx_key (id_of m)) k entry (contents db message_index_tree)),
      )
