-- ===== src/Messaging/Direct/Local.antt =====
-- crates/variance-messaging/src/storage/mod.rs: the local storage as the storage of the handler of
-- direct messages.
use variance.Prelude.{
  ◌≡◌, refl, ap, Text, Option, some, Result, ok, Result-cases, inl, inr, ◌==◌, list_eq, nat_eq,
  list_beq, if◌then◌else◌,
}
use variance.Prelude.Map
use variance.Messaging.Errors.{Error}
use variance.Messaging.Proto.{DirectMessage}
use variance.Messaging.Storage.Sled.{Sled, Codec, tree_insert, tree_get}
use variance.Messaging.Storage.Contents.{after_open, tree_insert-own, tree_get-contents, get-put}
use variance.Messaging.Storage.Direct.{
  plaintext_tree, session_pickles_tree, store_direct, fetch_direct, store_plaintext,
  fetch_plaintext, store_session_pickle, load_all_session_pickles,
}
use variance.Messaging.Storage.Pending.{
  store_pending_message, fetch_pending_messages, delete_pending_message,
  list_peers_with_pending_messages, is_message_pending,
}
use variance.Messaging.Direct.{DirectStorage}

-- A read that succeeds, with the database that it leaves.
answered :
    {S A : Type 0} (p : S × Result Error A) (a : A)
    → ◌≡◌ {A = Result Error A} p.1 (ok a)
    → p ≡ (p.0, ok a)
answered p a e = ap (λ r. (p.0, r)) e

module _ (sled : Sled) (codec : Codec DirectMessage) where
  open sled use {Db, contents, insert_other}

  pub kept_plaintext :
      (db db' : Db) (id blob : Text)
      → store_plaintext sled codec id blob db ≡ (db', ok tt)
      → (j : Text)
      → Map.get j (contents db' plaintext_tree)
        ≡ (if id == j then some blob else Map.get j (contents db plaintext_tree))
  unfolding store_plaintext
  kept_plaintext db db' id blob e j =
      let inserted =
        after_open sled plaintext_tree (tree_insert sled plaintext_tree id blob) db db' tt e in
      rw (tree_insert-own sled db db' plaintext_tree id blob inserted)
        (get-put id j blob (contents db plaintext_tree))

  pub found_plaintext :
      (db : Db) (id : Text) (v : Option Text)
      → (fetch_plaintext sled codec id db).1 ≡ ok v
      → v ≡ Map.get id (contents db plaintext_tree)
  unfolding fetch_plaintext
  found_plaintext db id v e =
      let db' = (fetch_plaintext sled codec id db).0 in
      let got =
        after_open sled plaintext_tree (tree_get sled plaintext_tree id) db db' v
          (answered (fetch_plaintext sled codec id db) v e) in
      (tree_get-contents sled db db' plaintext_tree id v got).1

  pub pickles_apart :
      (db : Db) (did json j : Text)
      → Map.get j (contents (store_session_pickle sled codec did json db).0 plaintext_tree)
        ≡ Map.get j (contents db plaintext_tree)
  unfolding store_session_pickle list_beq
  pickles_apart db did json j = elim (Result-cases (sled.open_tree db session_pickles_tree)) [
    | inl (u, opened) ↦
        rw opened
          (ap (Map.get j) (insert_other db session_pickles_tree did json plaintext_tree refl))
    | inr (x, failed) ↦ rw failed refl
  ]

-- The fetches leave the database as it is, so that only their results are passed on.
abbrev pub local_direct : Sled → Codec DirectMessage → DirectStorage
local_direct sled codec = record {
  Store = sled.Db;
  store_direct = store_direct sled codec;
  fetch_direct = λ db sender recipient limit before.
      (fetch_direct sled codec sender recipient limit before db).1;
  store_plaintext = store_plaintext sled codec;
  fetch_plaintext = λ db id. (fetch_plaintext sled codec id db).1;
  store_session_pickle = store_session_pickle sled codec;
  load_all_session_pickles = λ db. (load_all_session_pickles sled codec db).1;
  store_pending_message = store_pending_message sled codec;
  fetch_pending_messages = λ db did. (fetch_pending_messages sled codec did db).1;
  delete_pending_message = delete_pending_message sled codec;
  list_peers_with_pending_messages = λ db. (list_peers_with_pending_messages sled codec db).1;
  is_message_pending = λ db id. (is_message_pending sled codec id db).1;
  plaintext = λ db id. Map.get id (sled.contents db plaintext_tree);
  store_plaintext_ok = kept_plaintext sled codec;
  fetch_plaintext_ok = found_plaintext sled codec;
  store_session_pickle_plaintext = pickles_apart sled codec;
}
