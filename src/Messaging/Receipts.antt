-- ===== src/Messaging/Receipts.antt =====
-- crates/variance-messaging/src/receipts.rs: signed delivery and read confirmations. The storage is
-- the trait of storage/trait_def.rs, which the handler holds behind a pointer; here it is a state
-- that the operations pass on. The clock is an argument.
pub mod Aggregate
pub mod Signed
mod Tests
use variance.Crypto.{Ed25519}
use variance.Prelude.{
  ℕ, Text, List, [], ◌∷◌, ◌++◌, Option, none, some, Bool, true, false, Result, ok, err, ◌>>=◌, ◌>>◌,
  length, eqb, not, map, codes, if◌then◌else◌, list_eq, nat_eq,
}
use variance.Prelude.Int.{ℤ, pos, ltb_ℤ, leb_ℤ}
use variance.Prelude.Bytes.{i64_le_bytes, signed_i32_le_bytes}
use variance.Prelude.Map
use variance.Prelude.Map.{Map}
use variance.Messaging.Errors.{Error, invalid_signature}

pub data ReceiptStatus : Type 0 where
  unspecified delivered read : ReceiptStatus

unfoldable pub receipt_status_i32 : ReceiptStatus → ℤ
receipt_status_i32 unspecified = pos 0
receipt_status_i32 delivered = pos 1
receipt_status_i32 read = pos 2

pub record ReadReceipt : Type 0 where
  pub message_id : Text
  pub reader_did : Text
  pub status : ℤ
  pub timestamp : ℤ
  pub signature : List ℕ

pub record GroupReadReceipt : Type 0 where
  pub message_id : Text
  pub group_id : Text
  pub reader_did : Text
  pub status : ℤ
  pub timestamp : ℤ
  pub signature : List ℕ

-- What the handler asks of `MessageStorage`; each call may fail.
pub record ReceiptStorage : Type 1 where
  pub Store : Type 0
  pub store_receipt : Store → ReadReceipt → Store × Result Error (Unit {0})
  pub fetch_receipts : Store → Text → Result Error (List ReadReceipt)
  pub fetch_receipt_status : Store → Text → Text → Result Error (Option ReadReceipt)
  pub store_group_receipt : Store → GroupReadReceipt → Store × Result Error (Unit {0})
  pub fetch_group_receipts : Store → Text → Text → Result Error (List GroupReadReceipt)

unfoldable pub receipt_data : ReadReceipt → List ℕ
receipt_data r =
    r.message_id ++ (r.reader_did ++ (signed_i32_le_bytes r.status ++ i64_le_bytes r.timestamp))

unfoldable pub group_receipt_data : GroupReadReceipt → List ℕ
group_receipt_data r =
    r.message_id
    ++ (r.group_id ++ (r.reader_did ++ (signed_i32_le_bytes r.status ++ i64_le_bytes r.timestamp)))

-- `status_map.get(did).copied().unwrap_or(0)`, and the entry that `or_insert(0)` gives.
unfoldable pub status_of : Map Text ℤ → Text → ℤ
status_of m did = elim (Map.get did m) [ none ↦ pos 0 | some s ↦ s ]

unfoldable pub raise : ℤ → ℤ → ℤ
raise entry status = if ltb_ℤ entry status then status else entry

-- The loop of `get_group_aggregate_status` over the receipts, for one of them.
unfoldable pub raise_status : Map Text ℤ → GroupReadReceipt → Map Text ℤ
unfolding raise
raise_status m r = Map.insert r.reader_did (raise (status_of m r.reader_did) r.status) m

unfoldable pub status_map : Map Text ℤ → List GroupReadReceipt → Map Text ℤ
status_map m [] = m
status_map m (r ∷ rs) = status_map (raise_status m r) rs

-- `iter().min().unwrap_or(0)`.
unfoldable pub min_status : List ℤ → ℤ
min_status [] = pos 0
min_status (x ∷ []) = x
min_status (x ∷ y ∷ xs) = let rest = min_status (y ∷ xs) in if ltb_ℤ rest x then rest else x

pub data AggregateStatus : Type 0 where
  sent delivered read : AggregateStatus

-- `status_str`, of which the text is the constructor's name.
unfoldable pub status_str : ℤ → AggregateStatus
unfolding receipt_status_i32
status_str s =
    if leb_ℤ (receipt_status_i32 ReceiptStatus.read) s
    then AggregateStatus.read
    else (if leb_ℤ (receipt_status_i32 ReceiptStatus.delivered) s
        then AggregateStatus.delivered
        else AggregateStatus.sent)

module _ (crypto : Ed25519) (storage : ReceiptStorage) where
  open crypto use {SigningKey, VerifyingKey, sign, verify}
  open storage use {
    Store, store_receipt, fetch_receipts, fetch_receipt_status, store_group_receipt,
    fetch_group_receipts,
  }

  pub record ReceiptHandler : Type 0 where
    pub local_did : Text
    pub signing_key : SigningKey
    pub store : Store

  unfoldable pub sign_receipt : ReceiptHandler → ReadReceipt → List ℕ
  unfolding receipt_data
  sign_receipt h r = sign h.signing_key (receipt_data r)

  -- The receipt that is sent.
  unfoldable pub signed_receipt : ReceiptHandler → Text → ReceiptStatus → ℤ → ReadReceipt
  unfolding sign_receipt
  signed_receipt h message_id status now =
      let unsigned : ReadReceipt = record {
        message_id = message_id;
        reader_did = h.local_did;
        status = receipt_status_i32 status;
        timestamp = now;
        signature = [];
      } in
      record unsigned { signature = sign_receipt h unsigned }

  unfoldable pub send_receipt :
      ReceiptHandler → Text → ReceiptStatus → ℤ → ReceiptHandler × Result Error ReadReceipt
  unfolding signed_receipt
  send_receipt h message_id status now =
      let receipt = signed_receipt h message_id status now in
      let (store, stored) = store_receipt h.store receipt in
      (record h { store = store }, (stored >> ok receipt))

  unfoldable pub send_delivered :
      ReceiptHandler → Text → ℤ → ReceiptHandler × Result Error ReadReceipt
  unfolding send_receipt
  send_delivered h message_id now = send_receipt h message_id ReceiptStatus.delivered now

  unfoldable pub send_read : ReceiptHandler → Text → ℤ → ReceiptHandler × Result Error ReadReceipt
  unfolding send_receipt
  send_read h message_id now = send_receipt h message_id ReceiptStatus.read now

  unfoldable pub receive_receipt :
      ReceiptHandler → ReadReceipt → ReceiptHandler × Result Error (Unit {0})
  receive_receipt h receipt =
      let (store, stored) = store_receipt h.store receipt in (record h { store = store }, stored)

  unfoldable pub get_receipts : ReceiptHandler → Text → Result Error (List ReadReceipt)
  get_receipts h message_id = fetch_receipts h.store message_id

  unfoldable pub get_receipt_status :
      ReceiptHandler → Text → Text → Result Error (Option ReadReceipt)
  get_receipt_status h message_id reader_did = fetch_receipt_status h.store message_id reader_did

  unfoldable pub verify_receipt_with_key : ReadReceipt → VerifyingKey → Result Error (Unit {0})
  unfolding receipt_data
  verify_receipt_with_key r key =
      if not (eqb (length r.signature) 64)
      then err (invalid_signature r.message_id)
      else (if verify key (receipt_data r) r.signature
          then ok tt
          else err (invalid_signature r.message_id))

  unfoldable pub sign_group_receipt : ReceiptHandler → GroupReadReceipt → List ℕ
  unfolding group_receipt_data
  sign_group_receipt h r = sign h.signing_key (group_receipt_data r)

  -- The receipt that is sent.
  unfoldable pub signed_group_receipt :
      ReceiptHandler → Text → Text → ReceiptStatus → ℤ → GroupReadReceipt
  unfolding sign_group_receipt
  signed_group_receipt h group_id message_id status now =
      let unsigned : GroupReadReceipt = record {
        message_id = message_id;
        group_id = group_id;
        reader_did = h.local_did;
        status = receipt_status_i32 status;
        timestamp = now;
        signature = [];
      } in
      record unsigned { signature = sign_group_receipt h unsigned }

  unfoldable pub send_group_receipt :
      ReceiptHandler
      → Text
      → Text
      → ReceiptStatus
      → ℤ
      → ReceiptHandler × Result Error GroupReadReceipt
  unfolding signed_group_receipt
  send_group_receipt h group_id message_id status now =
      let receipt = signed_group_receipt h group_id message_id status now in
      let (store, stored) = store_group_receipt h.store receipt in
      (record h { store = store }, (stored >> ok receipt))

  unfoldable pub send_group_delivered :
      ReceiptHandler → Text → Text → ℤ → ReceiptHandler × Result Error GroupReadReceipt
  unfolding send_group_receipt
  send_group_delivered h group_id message_id now =
      send_group_receipt h group_id message_id ReceiptStatus.delivered now

  unfoldable pub send_group_read :
      ReceiptHandler → Text → Text → ℤ → ReceiptHandler × Result Error GroupReadReceipt
  unfolding send_group_receipt
  send_group_read h group_id message_id now =
      send_group_receipt h group_id message_id ReceiptStatus.read now

  unfoldable pub receive_group_receipt :
      ReceiptHandler → GroupReadReceipt → ReceiptHandler × Result Error (Unit {0})
  receive_group_receipt h receipt =
      let (store, stored) = store_group_receipt h.store receipt in
      (record h { store = store }, stored)

  unfoldable pub get_group_receipts :
      ReceiptHandler → Text → Text → Result Error (List GroupReadReceipt)
  get_group_receipts h group_id message_id = fetch_group_receipts h.store group_id message_id

  unfoldable pub verify_group_receipt_with_key :
      GroupReadReceipt → VerifyingKey → Result Error (Unit {0})
  unfolding group_receipt_data
  verify_group_receipt_with_key r key =
      if not (eqb (length r.signature) 64)
      then err (invalid_signature r.message_id)
      else (if verify key (group_receipt_data r) r.signature
          then ok tt
          else err (invalid_signature r.message_id))

  unfoldable pub get_group_aggregate_status :
      ReceiptHandler → Text → Text → List Text → Result Error AggregateStatus
  unfolding status_str min_status status_of status_map
  get_group_aggregate_status h group_id message_id [] = ok AggregateStatus.sent
  get_group_aggregate_status h group_id message_id (did ∷ dids) = do
    receipts ← fetch_group_receipts h.store group_id message_id
    ok (status_str (min_status (map (status_of (status_map [] receipts)) (did ∷ dids))))
