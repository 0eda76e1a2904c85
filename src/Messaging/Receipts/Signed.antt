-- ===== src/Messaging/Receipts/Signed.antt =====
-- Signatures on receipts.
use variance.Crypto.{Ed25519}
use variance.Prelude.{◌≡◌, refl, ap, sym, ◌∙◌, Text, length, arith, Result, ok, err, ◌>>◌}
use variance.Prelude.Int.{ℤ}
use variance.Prelude.Bytes.{
  IsI64, IsI32, append-cancel, signed_i32_le_bytes, signed_i32_le_bytes-injective,
  length-signed_i32_le_bytes, i64_le_bytes-injective,
}
use variance.Messaging.Errors.{Error}
use variance.Messaging.Receipts.{
  signed_receipt, signed_group_receipt, sign_receipt, sign_group_receipt, GroupReadReceipt,
  ReadReceipt, ReceiptStatus, ReceiptStorage, ReceiptHandler, receipt_data, group_receipt_data,
  send_receipt, send_group_receipt, verify_receipt_with_key, verify_group_receipt_with_key,
}

-- For one message and one reader, equal signed bytes mean equal statuses and equal times, for
-- statuses that are i32 and times that are i64.
pub receipt_data-injective :
    (r s : ReadReceipt)
    → r.message_id ≡ s.message_id
    → r.reader_did ≡ s.reader_did
    → IsI32 r.status × IsI32 s.status
    → IsI64 r.timestamp × IsI64 s.timestamp
    → receipt_data r ≡ receipt_data s
    → (r.status ≡ s.status) × (r.timestamp ≡ s.timestamp)
unfolding receipt_data
receipt_data-injective r s message reader (hr, hs) (tr, ts) e =
    let (_, e₁) = append-cancel r.message_id s.message_id _ _ (ap length message) e in
    let (_, e₂) = append-cancel r.reader_did s.reader_did _ _ (ap length reader) e₁ in
    let (statuses, times) =
      append-cancel (signed_i32_le_bytes r.status) (signed_i32_le_bytes s.status) _ _
        (length-signed_i32_le_bytes r.status ∙ sym (length-signed_i32_le_bytes s.status)) e₂ in
    (
      signed_i32_le_bytes-injective r.status s.status hr hs statuses,
      i64_le_bytes-injective r.timestamp s.timestamp tr ts times,
    )

stored-ok : {A : Type 0} (r : Result Error (Unit {0})) (a b : A) → (r >> ok a) ≡ ok b → a ≡ b
stored-ok (ok u) a b e = ground arith
stored-ok (err x) a b e = ground arith

module _ (crypto : Ed25519) (storage : ReceiptStorage) where
  open crypto use {VerifyingKey, verifying_key, length-sign, verify-sign}
  open storage use {store_receipt, store_group_receipt}

  verify-signed_receipt :
      (h : ReceiptHandler crypto storage) (message_id : Text) (status : ReceiptStatus) (now : ℤ)
      → verify_receipt_with_key crypto storage
          (signed_receipt crypto storage h message_id status now)
          (verifying_key h.signing_key)
        ≡ ok tt
  unfolding signed_receipt verify_receipt_with_key sign_receipt receipt_data
  verify-signed_receipt h message_id status now =
      let bytes = receipt_data (signed_receipt crypto storage h message_id status now) in
      ground (arith, length-sign h.signing_key bytes, verify-sign h.signing_key bytes)

  verify-signed_group_receipt :
      (h : ReceiptHandler crypto storage) (group_id message_id : Text) (status : ReceiptStatus)
      (now : ℤ)
      → verify_group_receipt_with_key crypto storage
          (signed_group_receipt crypto storage h group_id message_id status now)
          (verifying_key h.signing_key)
        ≡ ok tt
  unfolding signed_group_receipt verify_group_receipt_with_key sign_group_receipt group_receipt_data
  verify-signed_group_receipt h group_id message_id status now =
      let bytes =
        group_receipt_data (signed_group_receipt crypto storage h group_id message_id status now) in
      ground (arith, length-sign h.signing_key bytes, verify-sign h.signing_key bytes)

  -- The receipts that a handler sends, where the storage takes them, for a direct message and for a
  -- group message, name it as their reader and pass the check under its key.
  pub verify-send_receipt :
      (h : ReceiptHandler crypto storage) (message_id group_id : Text) (status : ReceiptStatus)
      (now : ℤ) (direct : ReadReceipt) (grouped : GroupReadReceipt)
      → (send_receipt crypto storage h message_id status now).1 ≡ ok direct
      → (send_group_receipt crypto storage h group_id message_id status now).1 ≡ ok grouped
      → (direct.reader_did ≡ h.local_did)
        × (grouped.reader_did ≡ h.local_did)
        × (verify_receipt_with_key crypto storage direct (verifying_key h.signing_key) ≡ ok tt)
        × (verify_group_receipt_with_key crypto storage grouped (verifying_key h.signing_key)
            ≡ ok tt)
  unfolding send_receipt send_group_receipt signed_receipt signed_group_receipt
  verify-send_receipt h message_id group_id status now direct grouped sent sent_to_group =
      let receipt = signed_receipt crypto storage h message_id status now in
      let group_receipt = signed_group_receipt crypto storage h group_id message_id status now in
      let e = stored-ok (store_receipt h.store receipt).1 receipt direct sent in
      let f =
        stored-ok (store_group_receipt h.store group_receipt).1 group_receipt grouped
          sent_to_group in
      (
        rw (← e) refl,
        rw (← f) refl,
        rw (← e) (verify-signed_receipt h message_id status now),
        rw (← f) (verify-signed_group_receipt h group_id message_id status now),
      )
