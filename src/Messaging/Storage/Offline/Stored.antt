-- ===== src/Messaging/Storage/Offline/Stored.antt =====
-- What storing an envelope changes.
use variance.Prelude.{
  ◌≡◌, refl, ap, ◌∙◌, Text, ◌++◌, some, false, ok, list_beq, ◌==◌, list_eq, nat_eq, codes,
}
use variance.Messaging.Proto.{OfflineMessageEnvelope, EnvelopeMessage}
use variance.Messaging.Storage.Io.{◌>>◌, after-eq-ok}
use variance.Messaging.Storage.Sled.{Sled, Codec, put, open_tree, tree_insert}
use variance.Messaging.Storage.Contents.{tree_insert-own, tree_insert-other, after_open}
use variance.Messaging.Storage.Offline.{
  offline_tree, message_index_tree, offline_key, id_of, timestamp_of, idx_key, store_envelope,
  store_offline,
}

pub other_tree : (message_index_tree == offline_tree) ≡ false
unfolding list_beq
other_tree = refl

pub other_index : (offline_tree == message_index_tree) ≡ false
unfolding list_beq
other_index = refl

module _ (sled : Sled) (hex : Text → Text) (codec : Codec OfflineMessageEnvelope) where
  open sled use {Db, contents}

  pub store_envelope-contents :
      (db db' : Db) (e : OfflineMessageEnvelope) (m : EnvelopeMessage)
      → store_envelope sled hex codec e m db ≡ (db', ok tt)
      → (contents db' offline_tree
          ≡ put
              (offline_key sled hex codec e.mailbox_token (timestamp_of m) (id_of m))
              (codec.encode e)
              (contents db offline_tree))
        × (contents db' message_index_tree
            ≡ put
                (idx_key (id_of m))
                (codes "offline:"
                  ++ offline_key sled hex codec e.mailbox_token (timestamp_of m) (id_of m))
                (contents db message_index_tree))
  unfolding store_envelope
  store_envelope-contents db db' e m stored =
      let key = offline_key sled hex codec e.mailbox_token (timestamp_of m) (id_of m) in
      let (db₁, u, first, second) =
        after-eq-ok
          (λ _. tree_insert sled message_index_tree (idx_key (id_of m)) (codes "offline:" ++ key))
          (tree_insert sled offline_tree key (codec.encode e) db) db' tt stored in
      let entry = codes "offline:" ++ key in
      let kept =
        tree_insert-other sled db₁ db' message_index_tree (idx_key (id_of m)) entry offline_tree
          second other_tree in
      let new = tree_insert-own sled db db₁ offline_tree key (codec.encode e) first in
      let indexed =
        tree_insert-own sled db₁ db' message_index_tree (idx_key (id_of m)) entry second in
      let before =
        tree_insert-other sled db db₁ offline_tree key (codec.encode e) message_index_tree first
          other_index in
      (kept ∙ new, indexed ∙ ap (put (idx_key (id_of m)) entry) before)

  pub stored_lem :
      (db db' : Db) (e : OfflineMessageEnvelope) (m : EnvelopeMessage)
      → e.message ≡ some m
      → store_offline sled hex codec e db ≡ (db', ok tt)
      → store_envelope sled hex codec e m db ≡ (db', ok tt)
  unfolding store_offline
  stored_lem db db' e m has stored =
      after_open sled message_index_tree (store_envelope sled hex codec e m) db db' tt (
        after_open sled offline_tree
          (open_tree sled message_index_tree >> store_envelope sled hex codec e m) db db' tt
          (rw has at stored))
