-- ===== src/Messaging/Storage/Receipts/Drain.antt =====
-- What draining the receipts that wait for a peer returns and leaves.
use variance.Prelude.{
  ◌≡◌, refl, ap, sym, ◌∙◌, Text, List, [], ◌∷◌, Result, ok, err, map, retain, list_eq, nat_eq,
}
use variance.Prelude.Map.{Map}
use variance.Messaging.Errors.{Error}
use variance.Messaging.Receipts.{ReadReceipt}
use variance.Messaging.Storage.Io.{◌>>=◌, after-eq-ok, return}
use variance.Messaging.Storage.Sled.{Sled, Codec, has_prefix, tree_remove}
use variance.Messaging.Storage.Contents.{after_open, tree_remove-own}
use variance.Messaging.Storage.RemoveAll.{
  ok_entries-map, remove_all, retain-remove_all, remove_all_self,
}
use variance.Messaging.Storage.Keys.{joined}
use variance.Messaging.Storage.Entries.{readable, ok_entries}
use variance.Messaging.Storage.Receipts.{pending_receipts_tree, drain_loop, drain_pending_receipts}

module _ (sled : Sled) (codec : Codec ReadReceipt) where
  open sled use {Db, contents, scan_prefix}

  abbrev pub encoded : List (Text × ReadReceipt) → Map Text Text
  encoded es = map (λ e. (e.0, codec.encode e.1)) es

  readable-encoded : (es : List (Text × ReadReceipt)) → readable codec es ≡ map ok (encoded es)
  readable-encoded [] = refl
  readable-encoded (e ∷ es) = ap (◌∷◌ (ok (e.0, codec.encode e.1))) (readable-encoded es)

  receipts_eq :
      {a b : List ReadReceipt} → ◌≡◌ {A = Result Error (List ReadReceipt)} (ok a) (ok b) → a ≡ b
  receipts_eq e = cc

  drain_loop_lem :
      (es : List (Text × ReadReceipt)) (db db' : Db) (rs : List ReadReceipt)
      → drain_loop sled codec (encoded es) db ≡ (db', ok rs)
      → (rs ≡ map (λ e. e.1) es)
        × (contents db' pending_receipts_tree
            ≡ remove_all (encoded es) (contents db pending_receipts_tree))
  unfolding drain_loop remove_all
  drain_loop_lem [] db db' rs e =
      (receipts_eq (sym (ap (λ p. p.1) e)), ap (λ p. contents p.0 pending_receipts_tree) (sym e))
  drain_loop_lem ((k, r) ∷ es) db db' rs e =
      let give = λ (receipts : List ReadReceipt).
        elim (codec.decode (codec.encode r)) as (λ x. List ReadReceipt) [
          | err x ↦ receipts
          | ok receipt ↦ receipt ∷ receipts
        ] in
      let (db₁, u, first, rest) =
        after-eq-ok (λ _. drain_loop sled codec (encoded es) >>= λ receipts. return (give receipts))
          (tree_remove sled pending_receipts_tree k db) db' rs e in
      let (db₂, receipts, more, last) =
        after-eq-ok (λ receipts. return (give receipts)) (drain_loop sled codec (encoded es) db₁)
          db' rs rest in
      let (found, left) = drain_loop_lem es db₁ db₂ receipts more in
      (
        receipts_eq (sym (ap (λ p. p.1) last)) ∙ (rw (codec.decode_encode r) (ap (◌∷◌ r) found)),
        ap (λ p. contents p.0 pending_receipts_tree) (sym last)
            ∙ left
            ∙ ap (remove_all (encoded es))
                (tree_remove-own sled db db₁ pending_receipts_tree k first),
      )

  -- A drain that succeeds returns the receipts that wait for a peer, where they can be read, each
  -- once and in the order of their keys, and leaves none under the peer's prefix.
  pub drain_pending_receipts_lem :
      (db db' : Db) (target : Text) (es : List (Text × ReadReceipt)) (rs : List ReadReceipt)
      → scan_prefix db pending_receipts_tree (joined target []) ≡ readable codec es
      → drain_pending_receipts sled codec target db ≡ (db', ok rs)
      → (rs ≡ map (λ e. e.1) es)
        × (retain (has_prefix (joined target [])) (contents db' pending_receipts_tree) ≡ [])
  unfolding drain_pending_receipts
  drain_pending_receipts_lem db db' target es rs scanned drained =
      let loop = λ (db : Db).
        drain_loop sled codec (ok_entries (scan_prefix db pending_receipts_tree (joined target [])))
          db in
      let opened = after_open sled pending_receipts_tree loop db db' rs drained in
      let plain = scanned ∙ readable-encoded es in
      let (found, left) =
        drain_loop_lem es db db' rs (rw (plain, ok_entries-map (encoded es)) at opened) in
      let held =
        sled.scan_prefix_ok db pending_receipts_tree (joined target []) (encoded es) plain in
      (
        found,
        ap (retain (has_prefix (joined target []))) left
            ∙ retain-remove_all (joined target []) (encoded es) (contents db pending_receipts_tree)
            ∙ ap (remove_all (encoded es)) (sym held)
            ∙ remove_all_self (encoded es),
      )
