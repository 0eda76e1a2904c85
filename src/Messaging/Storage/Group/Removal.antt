-- ===== src/Messaging/Storage/Group/Removal.antt =====
-- What is left of a group's messages after they were deleted.
use variance.Prelude.{
  ℕ, zero, suc, ◌≡◌, refl, ap, sym, ◌∙◌, Text, [], ◌∷◌, Option, false, ok, map, retain, take, ◌==◌,
  list_eq, nat_eq, list_beq, if◌then◌else◌,
}
use mathlib.Core.List.{reverse}
use variance.Prelude.Int.{ℤ}
use variance.Prelude.Map.{Map}
use variance.Messaging.Proto.{GroupMessage}
use variance.Messaging.Storage.Io.{◌>>=◌, ◌>>◌, after-eq-ok, read}
use variance.Messaging.Storage.Sled.{Sled, Codec, in_range, has_prefix, starts_with}
use variance.Messaging.Storage.Keys.Order.{range_prefix}
use variance.Messaging.Storage.Contents.{after_open}
use variance.Messaging.Storage.Entries.{
  ok_entries, decode_some, message_ids, remove_each, remove_cached,
}
use variance.Messaging.Storage.RemoveAll.{
  ok_entries-map, remove_all, retain-remove_all, remove_all_self, remove_each-contents,
  remove_cached-other,
}
use variance.Messaging.Storage.Group.{
  group_tree, group_plaintext_tree, prefix, prefix_end, fetch_group, delete_group_messages,
}

-- The range of a group's keys has what the scan of its prefix has.
in_range-has_prefix :
    (group_id : Text) (m : Map Text Text)
    → retain (in_range (prefix group_id) (prefix_end group_id)) m
      ≡ retain (has_prefix (prefix group_id)) m
in_range-has_prefix group_id [] = refl
in_range-has_prefix group_id ((k, v) ∷ m) = rw (range_prefix group_id k) (
    ap (λ r. if starts_with (prefix group_id) k then (k, v) ∷ r else r)
      (in_range-has_prefix group_id m))

take_none : (n : ℕ) → take {A = GroupMessage} n [] ≡ []
take_none zero = refl
take_none (suc n) = refl

other_tree : (group_plaintext_tree == group_tree) ≡ false
unfolding list_beq
other_tree = refl

module _ (sled : Sled) (codec : Codec GroupMessage) where
  open sled use {Db, contents, scan_prefix, range}

  -- What a deletion leaves in the tree of messages.
  delete_group_messages-contents :
      (db db' : Db) (group_id : Text) (es : Map Text Text)
      → scan_prefix db group_tree (prefix group_id) ≡ map ok es
      → delete_group_messages sled codec group_id db ≡ (db', ok tt)
      → contents db' group_tree ≡ remove_all es (contents db group_tree)
  unfolding delete_group_messages
  delete_group_messages-contents db db' group_id es scanned deleted =
      let sweep = λ (found : Map Text Text).
        remove_each sled group_tree (map (λ e. e.0) found)
        >> remove_cached sled group_plaintext_tree (message_ids found) in
      let opened =
        after_open sled group_tree
          (read (λ db. ok (ok_entries (scan_prefix db group_tree (prefix group_id)))) >>= sweep) db
          db' tt deleted in
      let rest : sweep es db ≡ (db', ok tt) = rw (scanned, ok_entries-map es) at opened in
      let (db₁, u, removed, cached) =
        after-eq-ok (λ _. remove_cached sled group_plaintext_tree (message_ids es))
          (remove_each sled group_tree (map (λ e. e.0) es) db) db' tt rest in
      ap (λ p. contents p.0 group_tree) (sym cached)
      ∙ remove_cached-other sled group_plaintext_tree group_tree (message_ids es) db₁ other_tree
      ∙ remove_each-contents sled group_tree es db db₁ removed

  -- After delete_group_messages has succeeded, fetch_group finds no message of the group, whatever
  -- limit and time it is given, where neither scan fails: the deletion goes by the prefix of the
  -- keys and the fetch by their range, and these have the same entries.
  pub fetch_group-delete_group_messages :
      (db db' : Db) (group_id : Text) (es left : Map Text Text) (limit : ℕ) (before : Option ℤ)
      → scan_prefix db group_tree (prefix group_id) ≡ map ok es
      → delete_group_messages sled codec group_id db ≡ (db', ok tt)
      → sled.open_tree db' group_tree ≡ ok tt
      → range db' group_tree (prefix group_id) (prefix_end group_id) ≡ map ok left
      → fetch_group sled codec group_id limit before db' ≡ (db', ok [])
  unfolding fetch_group decode_some
  fetch_group-delete_group_messages db db' group_id es left limit before scanned deleted opened
        ranged =
      let none_left : left ≡ [] =
        sled.range_ok db' group_tree (prefix group_id) (prefix_end group_id) left ranged
        ∙ in_range-has_prefix group_id (contents db' group_tree)
        ∙ ap (retain (has_prefix (prefix group_id)))
            (delete_group_messages-contents db db' group_id es scanned deleted)
        ∙ retain-remove_all (prefix group_id) es (contents db group_tree)
        ∙ ap (remove_all es) (sym (sled.scan_prefix_ok db group_tree (prefix group_id) es scanned))
        ∙ remove_all_self es in
      rw (opened, ranged, none_left) (ap (λ ms. (db', ok (reverse ms))) (take_none limit))
