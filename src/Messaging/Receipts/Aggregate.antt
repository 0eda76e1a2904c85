-- ===== src/Messaging/Receipts/Aggregate.antt =====
-- The aggregate status of a group message, against what it promises about the members' receipts.
use variance.Crypto.{Ed25519}
use variance.Prelude.{
  ℕ, suc, ◌≡◌, inl, inr, refl, Text, List, [], ◌∷◌, Bool, Bool-cases, false, ◌&&◌, ◌||◌, arith, map,
  all_of, if◌then◌else◌, ok, err, ◌==◌, eq→≡, ap, ap₂, ◌∙◌, list_eq, nat_eq,
}
use variance.Prelude.Int.{ℤ, pos, ltb_ℤ, leb_ℤ}
use variance.Prelude.Map
use variance.Prelude.Map.{Map}
use variance.Messaging.Errors.{Error}
use variance.Messaging.Receipts.{
  GroupReadReceipt, ReceiptStorage, ReceiptHandler, AggregateStatus, raise, raise_status,
  status_map, status_of, min_status, get_group_aggregate_status,
}

-- Some receipt of the reader has at least the status.
unfoldable pub has_receipt : ℤ → Text → List GroupReadReceipt → Bool
has_receipt k did [] = false
has_receipt k did (r ∷ rs) = (r.reader_did == did && leb_ℤ k r.status) || has_receipt k did rs

-- Every member has one.
abbrev pub all_have : ℤ → List Text → List GroupReadReceipt → Bool
all_have k dids rs = all_of (λ did. has_receipt k did rs) dids

raise-leb : (k e s : ℤ) → leb_ℤ k (raise e s) ≡ leb_ℤ k e || leb_ℤ k s
unfolding raise
raise-leb k e s = ground arith

status_of-insert :
    (did other : Text) (v : ℤ) (m : Map Text ℤ)
    → status_of (Map.insert did v m) other ≡ (if did == other then v else status_of m other)
unfolding status_of
status_of-insert did other v m = ground (arith, Map.get-insert did other v m)

status_of-raise_status :
    (m : Map Text ℤ) (r : GroupReadReceipt) (did : Text)
    → status_of (raise_status m r) did
      ≡ (if r.reader_did == did then raise (status_of m did) r.status else status_of m did)
unfolding raise_status
status_of-raise_status m r did =
    let e = raise (status_of m r.reader_did) r.status in
    elim (Bool-cases (r.reader_did == did)) [
      | inl same ↦
          rw (status_of-insert r.reader_did did e m, same)
            (ap (λ d. raise (status_of m d) r.status) (eq→≡ r.reader_did did same))
      | inr other ↦ rw (status_of-insert r.reader_did did e m, other)
    ]

raise_status-leb :
    (k : ℕ) (m : Map Text ℤ) (r : GroupReadReceipt) (did : Text)
    → leb_ℤ (pos (suc k)) (status_of (raise_status m r) did)
      ≡ leb_ℤ (pos (suc k)) (status_of m did)
        || (r.reader_did == did && leb_ℤ (pos (suc k)) r.status)
raise_status-leb k m r did =
    rw (status_of-raise_status m r did)
      (ground (arith, raise-leb (pos (suc k)) (status_of m did) r.status))

status_map-leb :
    (k : ℕ) (m : Map Text ℤ) (rs : List GroupReadReceipt) (did : Text)
    → leb_ℤ (pos (suc k)) (status_of (status_map m rs) did)
      ≡ leb_ℤ (pos (suc k)) (status_of m did) || has_receipt (pos (suc k)) did rs
unfolding status_map has_receipt
status_map-leb k m [] did = ground arith
status_map-leb k m (r ∷ rs) did =
    ground (arith, status_map-leb k (raise_status m r) rs did, raise_status-leb k m r did)

smaller-leb : (k x y : ℤ) → leb_ℤ k (if ltb_ℤ y x then y else x) ≡ leb_ℤ k x && leb_ℤ k y
smaller-leb k x y = ground arith

min_status-leb : (k x : ℤ) (xs : List ℤ) → leb_ℤ k (min_status (x ∷ xs)) ≡ all_of (leb_ℤ k) (x ∷ xs)
unfolding min_status
min_status-leb k x [] = ground arith
min_status-leb k x (y ∷ ys) =
    smaller-leb k x (min_status (y ∷ ys)) ∙ ap (λ b. leb_ℤ k x && b) (min_status-leb k y ys)

none_before : (k : ℕ) (did : Text) (b : Bool) → leb_ℤ (pos (suc k)) (status_of [] did) || b ≡ b
unfolding status_of Map.get
none_before k did b = ground arith

all_of-status_map :
    (k : ℕ) (dids : List Text) (rs : List GroupReadReceipt)
    → all_of (leb_ℤ (pos (suc k))) (map (status_of (status_map [] rs)) dids)
      ≡ all_have (pos (suc k)) dids rs
all_of-status_map k [] rs = refl
all_of-status_map k (did ∷ dids) rs =
    ap₂ ◌&&◌ (status_map-leb k [] rs did ∙ none_before k did (has_receipt (pos (suc k)) did rs))
      (all_of-status_map k dids rs)

module _ (crypto : Ed25519) (storage : ReceiptStorage) where
  open storage use {fetch_group_receipts}

  -- What is shown for a group message: "read" if every member has a stored receipt that says read,
  -- otherwise "delivered" if every member has one that says delivered or more, otherwise "sent",
  -- and "sent" for a group with no other member. Where the stored receipts cannot be read, that is
  -- the error.
  pub get_group_aggregate_status_lem :
      (h : ReceiptHandler crypto storage) (group_id message_id did : Text) (dids : List Text)
      → ((rs : List GroupReadReceipt)
          → fetch_group_receipts h.store group_id message_id ≡ ok rs
          → get_group_aggregate_status crypto storage h group_id message_id (did ∷ dids)
            ≡ ok (
                if all_have (pos 2) (did ∷ dids) rs
                then AggregateStatus.read
                else (if all_have (pos 1) (did ∷ dids) rs
                    then AggregateStatus.delivered
                    else AggregateStatus.sent)))
        × ((e : Error)
            → fetch_group_receipts h.store group_id message_id ≡ err e
            → get_group_aggregate_status crypto storage h group_id message_id (did ∷ dids) ≡ err e)
        × (get_group_aggregate_status crypto storage h group_id message_id []
            ≡ ok AggregateStatus.sent)
  unfolding get_group_aggregate_status
  get_group_aggregate_status_lem h group_id message_id did dids = (
    λ rs fetched.
        let statuses = status_map [] rs in
        rw (
          fetched,
          get_group_aggregate_status,
          ← all_of-status_map 1 (did ∷ dids) rs,
          ← all_of-status_map 0 (did ∷ dids) rs,
          ← min_status-leb (pos 2) (status_of statuses did) (map (status_of statuses) dids),
          ← min_status-leb (pos 1) (status_of statuses did) (map (status_of statuses) dids),
        ),
    λ e failed. rw (failed, get_group_aggregate_status),
    refl,
  )
