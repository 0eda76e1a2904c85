-- ===== src/Messaging/Storage/Receipts/Trait.antt =====
-- crates/variance-messaging/src/storage/mod.rs: the local storage as the storage of the receipt handler.
use variance.Messaging.Receipts.{ReadReceipt, GroupReadReceipt, ReceiptStorage}
use variance.Messaging.Storage.Sled.{Sled, Codec}
use variance.Messaging.Storage.Receipts.{
  store_receipt, fetch_receipts, fetch_receipt_status, store_group_receipt, fetch_group_receipts,
}

-- The fetches leave the database as it is, so that only their results are passed on.
abbrev pub local_receipts : Sled → Codec ReadReceipt → Codec GroupReadReceipt → ReceiptStorage
local_receipts sled codec group_codec = record {
  Store = sled.Db;
  store_receipt = λ db r. store_receipt sled codec r db;
  fetch_receipts = λ db id. (fetch_receipts sled codec id db).1;
  fetch_receipt_status = λ db id did. (fetch_receipt_status sled codec id did db).1;
  store_group_receipt = λ db r. store_group_receipt sled group_codec r db;
  fetch_group_receipts = λ db group id. (fetch_group_receipts sled group_codec group id db).1;
}
