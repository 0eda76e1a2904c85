-- ===== src/Messaging/Storage/Receipts.antt =====
-- crates/variance-messaging/src/storage/receipts.rs: the receipts that were received, when a
-- conversation was last read, and the receipts that wait for a peer.
pub mod Drain
pub mod Trait
use variance.Prelude.{
  ℕ, Text, List, [], ◌∷◌, ◌++◌, Option, none, some, Bool, true, false, Result, ok, err, codes,
  length, eqb, if◌then◌else◌,
}
use variance.Prelude.Int.{ℤ, pos, ltb_ℤ}
use variance.Prelude.Bytes.{i64_le_bytes}
use variance.Messaging.Errors.{Error, storage_error}
use variance.Messaging.Receipts.{ReadReceipt, GroupReadReceipt, ReceiptStorage}
use variance.Messaging.Storage.Io.{Io, ◌>>=◌, ◌>>◌, return, fail, read}
use variance.Messaging.Storage.Sled.{
  Sled, Codec, decode_value, open_tree, tree_insert, tree_remove, tree_get,
}
use variance.Messaging.Storage.Keys.{joined, timestamp_020}
use variance.Messaging.Storage.Entries.{Scanned, ok_entries, decode_all}

abbrev pub receipts_tree : Text
receipts_tree = codes "read_receipts"

abbrev pub group_receipts_tree : Text
group_receipts_tree = codes "group_receipts"

abbrev pub last_read_at_tree : Text
last_read_at_tree = codes "last_read_at"

abbrev pub pending_receipts_tree : Text
pending_receipts_tree = codes "pending_receipts"

unfoldable pub receipt_key : ReadReceipt → Text
receipt_key r = joined r.message_id (joined r.reader_did (timestamp_020 r.timestamp))

unfoldable pub group_receipt_key : GroupReadReceipt → Text
group_receipt_key r =
    joined r.group_id (joined r.message_id (joined r.reader_did (timestamp_020 r.timestamp)))

-- The loop that keeps the first of the receipts with the highest time.
module _ {M : Type 0} (codec : Codec M) (time : M → ℤ) where
  unfoldable pub newer : Option M → M → Option M
  newer none receipt = some receipt
  newer (some current) receipt =
      if ltb_ℤ (time current) (time receipt) then some receipt else some current

  unfoldable pub latest_loop : Option M → Scanned → Result Error (Option M)
  unfolding newer
  latest_loop latest [] = ok latest
  latest_loop latest (err e ∷ es) = err (storage_error e)
  latest_loop latest (ok (key, value) ∷ es) = elim (decode_value codec value) [
    | err e ↦ err e
    | ok receipt ↦ latest_loop (newer latest receipt) es
  ]

module _ (sled : Sled) (codec : Codec ReadReceipt) where
  open sled use {Db, scan_prefix}
  open codec use {encode, decode}

  unfoldable pub store_receipt : ReadReceipt → Io Db (Unit {0})
  unfolding receipt_key
  store_receipt receipt =
      open_tree sled receipts_tree
      >> tree_insert sled receipts_tree (receipt_key receipt) (encode receipt)

  unfoldable pub fetch_receipts : Text → Io Db (List ReadReceipt)
  fetch_receipts message_id =
      open_tree sled receipts_tree
      >> read (λ db. decode_all codec (scan_prefix db receipts_tree (joined message_id [])))

  unfoldable pub fetch_receipt_status : Text → Text → Io Db (Option ReadReceipt)
  unfolding latest_loop
  fetch_receipt_status message_id reader_did =
      open_tree sled receipts_tree
      >> read (λ db.
        latest_loop codec (λ r. r.timestamp) none
          (scan_prefix db receipts_tree (joined message_id (joined reader_did []))))

  unfoldable pub store_pending_receipt : Text → ReadReceipt → Io Db (Unit {0})
  store_pending_receipt target_did receipt =
      open_tree sled pending_receipts_tree
      >> tree_insert sled pending_receipts_tree (joined target_did receipt.message_id)
          (encode receipt)

  -- The loop over the entries: what cannot be decoded is logged and removed too.
  unfoldable pub drain_loop : List (Text × Text) → Io Db (List ReadReceipt)
  drain_loop [] = return []
  drain_loop ((key, value) ∷ es) =
      tree_remove sled pending_receipts_tree key
      >> (drain_loop es >>= λ receipts.
          return (elim (decode value) [ err e ↦ receipts | ok receipt ↦ receipt ∷ receipts ]))

  unfoldable pub drain_pending_receipts : Text → Io Db (List ReadReceipt)
  unfolding drain_loop
  drain_pending_receipts target_did = open_tree sled pending_receipts_tree >> λ db.
      drain_loop (ok_entries (scan_prefix db pending_receipts_tree (joined target_did []))) db

module _ (sled : Sled) (codec : Codec GroupReadReceipt) where
  open sled use {Db, scan_prefix}
  open codec use {encode, decode}

  unfoldable pub store_group_receipt : GroupReadReceipt → Io Db (Unit {0})
  unfolding group_receipt_key
  store_group_receipt receipt =
      open_tree sled group_receipts_tree
      >> tree_insert sled group_receipts_tree (group_receipt_key receipt) (encode receipt)

  unfoldable pub fetch_group_receipts : Text → Text → Io Db (List GroupReadReceipt)
  fetch_group_receipts group_id message_id =
      open_tree sled group_receipts_tree
      >> read (λ db.
        decode_all codec
          (scan_prefix db group_receipts_tree (joined group_id (joined message_id []))))

  unfoldable pub fetch_group_receipt_status : Text → Text → Text → Io Db (Option GroupReadReceipt)
  unfolding latest_loop
  fetch_group_receipt_status group_id message_id reader_did =
      open_tree sled group_receipts_tree
      >> read (λ db.
        latest_loop codec (λ r. r.timestamp) none
          (scan_prefix db group_receipts_tree
            (joined group_id (joined message_id (joined reader_did [])))))

-- When a conversation was last read. `i64::from_le_bytes` is a parameter.
module _ (sled : Sled) (from_le_bytes : Text → ℤ) where
  open sled use {Db}

  abbrev pub last_read_key : Text → Text → Text
  last_read_key our_did peer_did = joined our_did (58 ∷ peer_did)

  abbrev pub group_last_read_key : Text → Text → Text
  group_last_read_key our_did group_id = our_did ++ (codes "::group::" ++ group_id)

  -- Bytes of another number than eight are those of zero.
  unfoldable pub read_time : Option Text → Option ℤ
  read_time none = none
  read_time (some bytes) = some (if eqb (length bytes) 8 then from_le_bytes bytes else pos 0)

  unfoldable pub store_last_read_at : Text → Text → ℤ → Io Db (Unit {0})
  store_last_read_at our_did peer_did timestamp =
      open_tree sled last_read_at_tree
      >> tree_insert sled last_read_at_tree (last_read_key our_did peer_did)
          (i64_le_bytes timestamp)

  unfoldable pub fetch_last_read_at : Text → Text → Io Db (Option ℤ)
  unfolding read_time
  fetch_last_read_at our_did peer_did =
      open_tree sled last_read_at_tree
      >> (tree_get sled last_read_at_tree (last_read_key our_did peer_did) >>= λ value.
          return (read_time value))

  unfoldable pub store_group_last_read_at : Text → Text → ℤ → Io Db (Unit {0})
  store_group_last_read_at our_did group_id timestamp =
      open_tree sled last_read_at_tree
      >> tree_insert sled last_read_at_tree (group_last_read_key our_did group_id)
          (i64_le_bytes timestamp)

  unfoldable pub fetch_group_last_read_at : Text → Text → Io Db (Option ℤ)
  unfolding read_time
  fetch_group_last_read_at our_did group_id =
      open_tree sled last_read_at_tree
      >> (tree_get sled last_read_at_tree (group_last_read_key our_did group_id) >>= λ value.
          return (read_time value))

  unfoldable pub delete_last_read_at : Text → Text → Io Db (Unit {0})
  delete_last_read_at our_did peer_did =
      open_tree sled last_read_at_tree
      >> tree_remove sled last_read_at_tree (last_read_key our_did peer_did)

  unfoldable pub delete_group_last_read_at : Text → Text → Io Db (Unit {0})
  delete_group_last_read_at our_did group_id =
      open_tree sled last_read_at_tree
      >> tree_remove sled last_read_at_tree (group_last_read_key our_did group_id)
