-- ===== src/Messaging/Offline/Pages.antt =====
-- The pages of a mailbox, over the storage of storage/offline.rs.
use variance.Prelude.{
  ℕ, zero, suc, ◌+◌, ◌%◌, ◌^◌, ◌≡◌, ◌<◌, refl, ap, Text, List, [], ◌∷◌, Option, none, some, false,
  ok, map, retain, take, last?, length, ltb, eqb, arith, Bool-cases, inl, inr, All, list_eq, nat_eq,
}
use variance.Prelude.Int.{ℤ}
use variance.Messaging.Proto.{OfflineMessageEnvelope, OfflineMessageRequest}
use variance.Messaging.Storage.Sled.{Sled, Codec}
use variance.Messaging.Storage.Offline
use variance.Messaging.Storage.Offline.{offline_tree, mailbox_prefix, fetch_loop}
use variance.Messaging.Storage.Offline.Scan.{is_wanted, IsStored, entries_of, fetch_loop_lem}
use variance.Messaging.Offline.{OfflineStorage, page, fetch_messages}

-- The relay's storage in the local database.
abbrev pub local_storage : Sled → (Text → Text) → Codec OfflineMessageEnvelope → OfflineStorage
local_storage sled hex codec = record {
  Store = sled.Db;
  store_offline = Offline.store_offline sled hex codec;
  fetch_offline = Offline.fetch_offline sled hex codec;
  count_offline_for_mailbox = Offline.count_offline_for_mailbox sled hex codec;
  delete_offline = Offline.delete_offline sled hex codec;
  cleanup_expired = Offline.cleanup_expired sled hex codec;
}

-- The messages that a request asks for.
abbrev pub wanted : Option ℤ → List (Text × OfflineMessageEnvelope) → List OfflineMessageEnvelope
wanted since es = retain (is_wanted since) (map (λ e. e.1) es)

take-take : (n : ℕ) (es : List OfflineMessageEnvelope) → take n (take (suc n) es) ≡ take n es
take-take zero es = refl
take-take (suc n) [] = refl
take-take (suc n) (e ∷ es) = ap (◌∷◌ e) (take-take n es)

more-take :
    (n : ℕ) (es : List OfflineMessageEnvelope)
    → ltb n (length (take (suc n) es)) ≡ ltb n (length es)
more-take zero [] = refl
more-take zero (e ∷ es) = ground arith
more-take (suc n) [] = refl
more-take (suc n) (e ∷ es) = ground (arith, more-take n es)

take_all :
    (n : ℕ) (es : List OfflineMessageEnvelope)
    → ltb n (length es) ≡ false
    → take (suc n) es ≡ take n es
take_all zero [] h = refl
take_all (suc n) [] h = refl
take_all zero (e ∷ es) h = absurd (ground arith)
take_all (suc n) (e ∷ es) h = ap (◌∷◌ e) (take_all n es (ground arith))

page-take :
    (n : ℕ) (es : List OfflineMessageEnvelope)
    → page n (take (suc n) es) ≡ record {
      messages = take n es;
      has_more = ltb n (length es);
      next_cursor = elim (last? (take n es)) [ none ↦ none | some e ↦ some e.stored_at ];
      error_code = none;
      error_message = none;
    }
unfolding page
page-take n es = elim (Bool-cases (ltb n (length es))) [
  | inl more ↦ rw (more-take n es, more, take-take n es) refl
  | inr all ↦ rw (more-take n es, all, take_all n es all) refl
]

module _ (sled : Sled) (hex : Text → Text) (codec : Codec OfflineMessageEnvelope) where
  open sled use {Db, scan_prefix}

  fetch_offline_lem :
      (db : Db) (token : List ℕ) (since : Option ℤ) (n : ℕ)
      (es : List (Text × OfflineMessageEnvelope))
      → sled.open_tree db offline_tree ≡ ok tt
      → scan_prefix db offline_tree (mailbox_prefix sled hex codec token) ≡ entries_of codec es
      → All (IsStored (hex token)) es
      → Offline.fetch_offline sled hex codec token since (suc n) db
        ≡ (db, ok (take (suc n) (wanted since es)))
  unfolding Offline.fetch_offline
  fetch_offline_lem db token since n es opened scanned stored =
      rw (opened, scanned)
        (ap (λ r. (db, r))
          (fetch_loop_lem sled hex codec (hex token) since (suc n) n [] es (omega arith) stored))

  -- A mailbox that can be read, of messages under their own keys whose times are not before 1970
  -- and whose ids hold no colon, is answered with the messages after the time that is asked for, in
  -- the order of their keys and up to the limit, with whether there are more, and with the storage
  -- time of the last one as the cursor, for a limit above 0 that is not the greatest u32.
  pub fetch_messages-page :
      (db : Db) (request : OfflineMessageRequest) (es : List (Text × OfflineMessageEnvelope))
      → 0 < request.limit
      → request.limit + 1 < 2 ^ 32
      → sled.open_tree db offline_tree ≡ ok tt
      → scan_prefix db offline_tree (mailbox_prefix sled hex codec request.mailbox_token)
        ≡ entries_of codec es
      → All (IsStored (hex request.mailbox_token)) es
      → fetch_messages (local_storage sled hex codec) request db ≡ (
        db,
        ok (record {
          messages = take request.limit (wanted request.since_timestamp es);
          has_more = ltb request.limit (length (wanted request.since_timestamp es));
          next_cursor = elim (last? (take request.limit (wanted request.since_timestamp es))) [
            | none ↦ none
            | some e ↦ some e.stored_at
          ];
          error_code = none;
          error_message = none;
        }),
      )
  unfolding fetch_messages
  fetch_messages-page db request es some_limit small opened scanned stored =
      let asked : eqb request.limit 0 ≡ false = ground arith in
      let limit : (request.limit + 1) % 2 ^ 32 ≡ suc request.limit = omega arith in
      let fetched =
        fetch_offline_lem db request.mailbox_token request.since_timestamp request.limit es opened
          scanned stored in
      rw (asked, limit, fetched)
        (ap (λ r. (db, ok r)) (page-take request.limit (wanted request.since_timestamp es)))
