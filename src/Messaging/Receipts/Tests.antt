-- ===== src/Messaging/Receipts/Tests.antt =====
-- Receipts of two members of a group, in a store that is a list.
use variance.Crypto.{toy}
use variance.Prelude.{◌≡◌, refl, Text, List, [], ◌∷◌, none, ok, list_beq}
use variance.Prelude.Int.{pos}
use variance.Prelude.Map
use variance.Messaging.Receipts.{
  ReadReceipt, GroupReadReceipt, ReceiptStatus, ReceiptStorage, ReceiptHandler, AggregateStatus,
  signed_receipt, signed_group_receipt, get_group_aggregate_status, raise_status,
  receipt_status_i32,
}
use variance.Messaging.Receipts.Aggregate.{has_receipt, get_group_aggregate_status_lem}

abbrev listed : ReceiptStorage
listed = record {
  Store = List GroupReadReceipt;
  store_receipt = λ s r. (s, ok tt);
  fetch_receipts = λ s id. ok [];
  fetch_receipt_status = λ s id did. ok none;
  store_group_receipt = λ s r. (r ∷ s, ok tt);
  fetch_group_receipts = λ s group id. ok s;
}

abbrev member : Text → ReceiptHandler toy listed
member did = record { local_did = did; signing_key = 4; store = [] }

abbrev receipt : Text → ReceiptStatus → GroupReadReceipt
receipt did status = signed_group_receipt toy listed (member did) (1 ∷ []) (2 ∷ []) status (pos 3)

abbrev handler : ReceiptHandler toy listed
handler = record {
  local_did = 9 ∷ [];
  signing_key = 4;
  store =
      receipt (5 ∷ []) ReceiptStatus.read
      ∷ receipt (6 ∷ []) ReceiptStatus.delivered
      ∷ receipt (6 ∷ []) ReceiptStatus.read
      ∷ receipt (7 ∷ []) ReceiptStatus.delivered
      ∷ [];
}

two_have_read :
    get_group_aggregate_status toy listed handler (1 ∷ []) (2 ∷ []) ((5 ∷ []) ∷ (6 ∷ []) ∷ [])
    ≡ ok AggregateStatus.read
unfolding get_group_aggregate_status raise_status Map.get Map.insert list_beq signed_group_receipt
two_have_read = refl

get_group_aggregate_status_lem_example :
    get_group_aggregate_status toy listed handler (1 ∷ []) (2 ∷ []) ((7 ∷ []) ∷ (6 ∷ []) ∷ [])
    ≡ ok AggregateStatus.delivered
unfolding has_receipt list_beq signed_group_receipt receipt_status_i32
get_group_aggregate_status_lem_example =
    (get_group_aggregate_status_lem toy listed handler (1 ∷ []) (2 ∷ []) (7 ∷ []) ((6 ∷ []) ∷ [])).0
      handler.store refl

abbrev direct : ReadReceipt
direct = signed_receipt toy listed handler (2 ∷ []) ReceiptStatus.read (pos 8)

abbrev grouped : GroupReadReceipt
grouped = signed_group_receipt toy listed handler (1 ∷ []) (2 ∷ []) ReceiptStatus.read (pos 8)
