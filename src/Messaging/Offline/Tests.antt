-- ===== src/Messaging/Offline/Tests.antt =====
-- Three messages of one mailbox, stored and fetched in pages.
use variance.Prelude.{
  ℕ, ◌≡◌, ◌≤◌, ◌<◌, ◌^◌, ◌++◌, ap, refl, Text, List, [], ◌∷◌, Option, none, some, Bool, true, false,
  Result, retain, ok, err, arith, map, ◌==◌, if◌then◌else◌, list_eq, nat_eq, All, length, list_beq,
  contains,
}
use variance.Prelude.Int.{ℤ, pos}
use variance.Messaging.Proto.{
  OfflineMessageEnvelope, OfflineMessageRequest, OfflineMessageResponse, DirectMessage, direct,
}
use variance.Messaging.Storage.Io.{◌>>◌}
use variance.Messaging.Storage.Sled.{in_memory, lex_ltb, starts_with, has_prefix, put}
use variance.Messaging.Storage.Sample.{sample_codec, sample_hex}
use variance.Messaging.Storage.Keys.{
  strip_prefix, timestamp_020, message_key, fixed, rsplit_colon, parse_i64, read_i64, read_digits,
  in_i64,
}
use variance.Messaging.Storage.Offline
use variance.Messaging.Storage.Offline.{
  offline_tree, message_index_tree, idx_key, expired_keys, remove_keys, mailbox_prefix, is_newer,
  before_id, id_of, timestamp_of, store_envelope, offline_key, fetch_loop,
}
use variance.Messaging.Errors.{Error}
use variance.Messaging.Storage.Offline.Scan.{time_of, IsStored, is_wanted, entries_of}
use variance.Messaging.Offline.{
  OfflineStorage, store_message, fetch_messages, delete_message, cleanup_expired, page,
}
use variance.Prelude.Map
use variance.Messaging.Offline.Removal.{delete_message-store_message}
use variance.Messaging.Offline.Cleanup.{cleanup_expired_lem}
use variance.Messaging.Offline.Quota.{queued, store_message-quota}
use variance.Messaging.Offline.Cursor.{fetch_messages-cursor}
use variance.Messaging.Offline.Pages.{local_storage, wanted, fetch_messages-page}

abbrev message : ℕ → ℤ → DirectMessage
message id time = record {
  id = id ∷ [];
  sender_did = 1 ∷ [];
  recipient_did = 2 ∷ [];
  ciphertext = 3 ∷ [];
  olm_message_type = 0;
  signature = [];
  timestamp = time;
  message_type = pos 1;
  reply_to = none;
  sender_identity_key = none;
}

abbrev envelope : ℕ → ℕ → ℕ → OfflineMessageEnvelope
envelope id time stored = record {
  mailbox_token = 5 ∷ [];
  message = some (direct (message id (pos time)));
  stored_at = pos stored;
  expires_at = pos 1000;
}

abbrev Db : Type 0
Db = Text → List (Text × Text)

abbrev empty : Db
empty _ = []

abbrev storage : OfflineStorage
storage = local_storage in_memory sample_hex sample_codec

abbrev keyed : OfflineMessageEnvelope → ℕ → ℕ → Text × OfflineMessageEnvelope
keyed e id time = (message_key (sample_hex (5 ∷ [])) (pos time) (id ∷ []), e)

-- Two of the three were stored at other times than their own.
abbrev entries : ℕ → List (Text × OfflineMessageEnvelope)
entries late =
    keyed (envelope 98 10 10) 98 10
    ∷ keyed (envelope 97 20 late) 97 20
    ∷ keyed (envelope 99 30 30) 99 30
    ∷ []

abbrev filled : ℕ → Db
filled late t =
    if t == offline_tree then map (λ e. (e.0, sample_codec.encode e.1)) (entries late) else []

abbrev request : Option ℤ → OfflineMessageRequest
request since = record { mailbox_token = 5 ∷ []; since_timestamp = since; limit = 2 }

abbrev seen : Result Error OfflineMessageResponse → List ℤ × Option ℤ
seen (ok r) = (map time_of r.messages, r.next_cursor)
seen (err e) = ([], none)

as-IsStored :
    (id time stored : ℕ)
    → time < 2 ^ 63
    → contains 58 (id ∷ []) ≡ false
    → IsStored (sample_hex (5 ∷ [])) (keyed (envelope id time stored) id time)
unfolding timestamp_of id_of
as-IsStored id time stored small plain = (direct (message id (pos time)), refl, refl, small, plain)

entries-IsStored : (late : ℕ) → All (IsStored (sample_hex (5 ∷ []))) (entries late)
unfolding contains
entries-IsStored late = (
  as-IsStored 98 10 10 (omega arith) refl,
  (as-IsStored 97 20 late (omega arith) refl, (as-IsStored 99 30 30 (omega arith) refl, tt)),
)

same_tree : (offline_tree == offline_tree) ≡ true
unfolding list_beq
same_tree = refl

scanned :
    (late : ℕ)
    → in_memory.scan_prefix
        (filled late)
        offline_tree
        (mailbox_prefix in_memory sample_hex sample_codec (5 ∷ []))
      ≡ entries_of sample_codec (entries late)
unfolding starts_with message_key
scanned late = rw same_tree refl

first_page : OfflineMessageResponse
first_page = record {
  messages = envelope 98 10 10 ∷ envelope 97 20 20 ∷ [];
  has_more = true;
  next_cursor = some (pos 20);
  error_code = none;
  error_message = none;
}

fetch_messages-page_example :
    fetch_messages storage (request none) (filled 20) ≡ (filled 20, ok first_page)
unfolding first_page is_wanted
fetch_messages-page_example =
    fetch_messages-page in_memory sample_hex sample_codec (filled 20) (request none) (entries 20)
      (omega arith) (omega arith) refl (scanned 20) (entries-IsStored 20)

fetch_messages-cursor_example :
    (envelope 98 10 10 ∷ envelope 97 20 20 ∷ []) ++ wanted (some (pos 20)) (entries 20)
    ≡ wanted none (entries 20)
unfolding time_of timestamp_of first_page
fetch_messages-cursor_example =
    fetch_messages-cursor in_memory sample_hex sample_codec (filled 20) (request none) (entries 20)
      first_page (pos 20) (omega arith, omega arith) refl (scanned 20) (entries-IsStored 20)
      ((refl, (refl, tt)), ((refl, tt), (tt, tt))) (refl, (refl, (refl, tt)))
      (ap (λ p. p.1) fetch_messages-page_example) refl

-- A message that the relay got after its time is the cursor's: the next page leaves out what was sent
-- in between.
lost :
    (seen (fetch_messages storage (request none) (filled 35)).1
      ≡ (pos 10 ∷ pos 20 ∷ [], some (pos 35)))
    × (seen (fetch_messages storage (request (some (pos 35))) (filled 35)).1 ≡ ([], none))
unfolding fetch_messages page Offline.fetch_offline fetch_loop is_newer before_id rsplit_colon
    parse_i64 read_i64 read_digits in_i64 message_key time_of timestamp_of list_beq starts_with
    fixed timestamp_020
lost = (refl, refl)

plain : (x : List ℕ) → contains 58 (sample_hex x) ≡ false
unfolding contains
plain [] = refl
plain (c ∷ cs) = ground (arith, plain cs)

length-retain : {A : Type 0} (p : A → Bool) (xs : List A) → length (retain p xs) ≤ length xs
length-retain p [] = omega arith
length-retain p (x ∷ xs) = ground (arith, length-retain p xs)

few : (x : List ℕ) → queued in_memory sample_hex sample_codec (filled 20) x ≤ 512
few x = rw same_tree (
    omega (
      arith,
      length-retain {A = Text × Text}
          (has_prefix (mailbox_prefix in_memory sample_hex sample_codec x))
          (map (λ e. (e.0, sample_codec.encode e.1)) (entries 20)),
    ))

with_fourth : Db
unfolding store_message
with_fourth = (store_message storage (envelope 100 40 40) (pos 50) (filled 20)).0

accepted : store_message storage (envelope 100 40 40) (pos 50) (filled 20) ≡ (with_fourth, ok tt)
unfolding with_fourth store_message Offline.store_offline Offline.count_offline_for_mailbox
    store_envelope list_beq starts_with message_key fixed timestamp_020
accepted = refl

store_message-quota_example : queued in_memory sample_hex sample_codec with_fourth (5 ∷ []) ≤ 512
unfolding starts_with message_key
store_message-quota_example =
    store_message-quota in_memory sample_hex sample_codec (filled 20) with_fourth
      (envelope 100 40 40) (pos 50) (map (λ e. (e.0, sample_codec.encode e.1)) (entries 20))
      (5 ∷ []) plain (scanned 20) few accepted

abbrev sent : Result Error (List OfflineMessageEnvelope) → List ℤ
sent (ok es) = map time_of es
sent (err e) = []

-- In any order of arrival, messages are kept in the order of their times.
kept_in_order :
    sent
      ((store_message storage (envelope 98 10 10) (pos 0)
          >> (store_message storage (envelope 99 30 30) (pos 0)
              >> (store_message storage (envelope 97 20 20) (pos 0)
                  >> Offline.fetch_offline in_memory sample_hex sample_codec
                      (5 ∷ [])
                      (some (pos 10))
                      8)))
        empty).1
    ≡ pos 20 ∷ pos 30 ∷ []
unfolding store_message Offline.store_offline Offline.count_offline_for_mailbox store_envelope
    Offline.fetch_offline list_beq put starts_with lex_ltb fixed timestamp_020 message_key time_of
    timestamp_of fetch_loop is_newer before_id rsplit_colon parse_i64 read_i64 read_digits in_i64
    id_of offline_key
kept_in_order = refl

deleted : Db
unfolding store_message delete_message
deleted = (delete_message storage (100 ∷ []) with_fourth).0

deleted_ok : delete_message storage (100 ∷ []) with_fourth ≡ (deleted, ok tt)
unfolding deleted with_fourth delete_message Offline.delete_offline Offline.delete_indexed
    Offline.indexed_key strip_prefix store_message Offline.store_offline
    Offline.count_offline_for_mailbox store_envelope list_beq put lex_ltb starts_with message_key
    offline_key fixed timestamp_020 timestamp_of id_of Map.get
deleted_ok = refl

delete_message-store_message_example :
    (Map.get (idx_key (100 ∷ [])) (deleted offline_tree)
      ≡ Map.get (idx_key (100 ∷ [])) (filled 20 offline_tree))
    × (Map.get (idx_key (100 ∷ [])) (deleted message_index_tree) ≡ none)
unfolding list_beq message_key offline_key timestamp_of id_of
delete_message-store_message_example =
    delete_message-store_message in_memory sample_hex sample_codec (filled 20) with_fourth deleted
      (envelope 100 40 40) (direct (message 100 (pos 40))) (pos 50) (idx_key (100 ∷ [])) refl
      accepted deleted_ok

cleaned : Db
unfolding cleanup_expired
cleaned = (cleanup_expired storage (pos 1000) (filled 20)).0

cleaned_ok : cleanup_expired storage (pos 1000) (filled 20) ≡ (cleaned, ok 3)
unfolding cleaned cleanup_expired Offline.cleanup_expired expired_keys remove_keys list_beq
cleaned_ok = refl

cleanup_expired_lem_example : (cleaned offline_tree ≡ []) × (3 ≡ length (entries 20))
unfolding list_beq message_key fixed timestamp_020
cleanup_expired_lem_example =
    cleanup_expired_lem in_memory sample_hex sample_codec (filled 20) cleaned (pos 1000)
      (entries 20) 3 refl ((refl, (refl, tt)), ((refl, tt), (tt, tt))) cleaned_ok
