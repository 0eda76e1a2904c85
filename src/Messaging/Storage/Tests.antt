-- ===== src/Messaging/Storage/Tests.antt =====
-- Messages of users and groups, and receipts, in a database in memory.
use variance.Prelude.{
  ℕ, ◌≡◌, refl, Text, List, [], ◌∷◌, ◌++◌, none, some, ok, arith, map, ◌==◌, if◌then◌else◌, list_eq,
  nat_eq, list_beq, retain, codes,
}
use variance.Prelude.Int.{pos, ◌+ℤ◌}
use variance.Messaging.Proto.{DirectMessage, GroupMessage}
use variance.Messaging.Receipts.{ReadReceipt}
use variance.Messaging.Storage.Sled.{in_memory, lex_ltb, starts_with, has_prefix, in_range}
use variance.Messaging.Storage.Sample.{sample_direct, sample_group, sample_receipt}
use variance.Messaging.Storage.Keys.{
  joined, rsplit_colon, fixed, timestamp_020, conversation_id, message_key, direct_key, group_key,
  parse_direct_key, parse_group_key_timestamp, parse_i64, read_i64, read_digits, in_i64,
}
use variance.Messaging.Storage.Entries.Last.{take_last}
use variance.Messaging.Storage.Entries.{ok_entries, remove_each, remove_cached, message_ids}
use variance.Messaging.Storage.Direct.{direct_tree, is_before, fetch_direct}
use variance.Messaging.Storage.Direct.Fetch.{fetch_direct-latest}
use variance.Messaging.Storage.Group.Removal.{fetch_group-delete_group_messages}
use variance.Messaging.Storage.Group.{
  prefix, prefix_end, fetch_group, delete_group_messages, group_tree, saturating_suc,
  fetch_group_since,
}
use variance.Messaging.Storage.Group.Since.{fetch_group_since_lem}
use variance.Messaging.Storage.Receipts.{pending_receipts_tree, drain_loop, drain_pending_receipts}
use variance.Messaging.Storage.Receipts.Drain.{drain_pending_receipts_lem}

abbrev alice : Text
alice = codes "did:a"

abbrev bob : Text
bob = codes "did:b"

-- What is read back of keys.
read_back :
    (parse_direct_key (direct_key bob alice (pos 1234) (codes "id"))
      ≡ some (joined alice bob, pos 1234))
    × (parse_group_key_timestamp (group_key (codes "g") (pos 1234) (codes "id")) ≡ some (pos 1234))
unfolding parse_direct_key parse_group_key_timestamp direct_key group_key message_key
    conversation_id lex_ltb rsplit_colon timestamp_020 fixed parse_i64 read_i64 read_digits in_i64
read_back = (refl, refl)

abbrev sent : ℕ → DirectMessage
sent time = record {
  id = codes "id";
  sender_did = alice;
  recipient_did = bob;
  ciphertext = 3 ∷ [];
  olm_message_type = 0;
  signature = [];
  timestamp = pos time;
  message_type = pos 1;
  reply_to = none;
  sender_identity_key = none;
}

abbrev sent_key : ℕ → Text
sent_key time = direct_key alice bob (pos time) (codes "id")

abbrev conversation : List (Text × DirectMessage)
conversation =
    (sent_key 10, sent 10)
    ∷ (sent_key 20, sent 20)
    ∷ (sent_key 30, sent 30)
    ∷ (sent_key 40, sent 40)
    ∷ []

abbrev talk : Text → List (Text × Text)
talk t = if t == direct_tree then map (λ e. (e.0, sample_direct.encode e.1)) conversation else []

fetch_direct-latest_example :
    (fetch_direct in_memory sample_direct alice bob 2 (some (pos 40)) talk
      ≡ (talk, ok (sent 20 ∷ sent 30 ∷ [])))
    × (fetch_direct in_memory sample_direct bob alice 2 (some (pos 40)) talk
        ≡ fetch_direct in_memory sample_direct alice bob 2 (some (pos 40)) talk)
unfolding take_last is_before list_beq starts_with direct_key message_key conversation_id lex_ltb
fetch_direct-latest_example =
    fetch_direct-latest in_memory sample_direct talk alice bob 2 (some (pos 40)) conversation refl
      refl

abbrev posted : Text → ℕ → GroupMessage
posted group time = record {
  id = codes "id";
  sender_did = alice;
  group_id = group;
  timestamp = pos time;
  message_type = pos 1;
  reply_to = none;
  mls_ciphertext = [];
}

abbrev post : Text → ℕ → Text × GroupMessage
post group time = (group_key group (pos time) (codes "id"), posted group time)

abbrev posts : List (Text × GroupMessage)
posts = post (codes "h") 5 ∷ post (codes "h") 10 ∷ post (codes "h") 15 ∷ post (codes "h") 20 ∷ []

abbrev groups : Text → List (Text × Text)
groups t =
    if t == group_tree
    then map (λ e. (e.0, sample_group.encode e.1))
        (post (codes "g") 90 ∷ (posts ++ post (codes "i") 1 ∷ []))
    else []

fetch_group_since_lem_example :
    fetch_group_since in_memory sample_group (codes "h") (pos 5) 2 groups
    ≡ (groups, ok (posted (codes "h") 10 ∷ posted (codes "h") 15 ∷ []))
unfolding list_beq lex_ltb starts_with group_key message_key saturating_suc ◌+ℤ◌ timestamp_020 fixed
fetch_group_since_lem_example =
    fetch_group_since_lem in_memory sample_group groups (codes "h") 5 1 (post (codes "g") 90 ∷ [])
      posts (post (codes "i") 1 ∷ []) (omega arith) refl refl refl (refl, tt)
      (
        (5, refl, omega arith, refl),
        (
          (10, refl, omega arith, refl),
          ((15, refl, omega arith, refl), ((20, refl, omega arith, refl), tt)),
        ),
      )
      (refl, tt) (refl, tt)

abbrev in_group : List (Text × Text)
in_group = map (λ e. (e.0, sample_group.encode e.1)) posts

ungrouped : Text → List (Text × Text)
unfolding delete_group_messages
ungrouped = (delete_group_messages in_memory sample_group (codes "h") groups).0

ungrouped_ok : delete_group_messages in_memory sample_group (codes "h") groups ≡ (ungrouped, ok tt)
unfolding ungrouped delete_group_messages remove_each ok_entries list_beq starts_with group_key
    remove_cached message_ids rsplit_colon timestamp_020 fixed
ungrouped_ok = refl

fetch_group-delete_group_messages_example :
    fetch_group in_memory sample_group (codes "h") 9 none ungrouped ≡ (ungrouped, ok [])
unfolding list_beq starts_with group_key message_key
fetch_group-delete_group_messages_example =
    fetch_group-delete_group_messages in_memory sample_group groups ungrouped (codes "h") in_group
      (retain (in_range (prefix (codes "h")) (prefix_end (codes "h"))) (ungrouped group_tree)) 9
      none refl ungrouped_ok refl refl

abbrev receipt : ReadReceipt
receipt = record {
  message_id = codes "m";
  reader_did = alice;
  status = pos 2;
  timestamp = pos 7;
  signature = [];
}

abbrev waiting : Text → List (Text × Text)
waiting t =
    if t == pending_receipts_tree
    then (joined bob (codes "m"), sample_receipt.encode receipt) ∷ []
    else []

drained : Text → List (Text × Text)
unfolding drain_pending_receipts
drained = (drain_pending_receipts in_memory sample_receipt bob waiting).0

drained_ok :
    drain_pending_receipts in_memory sample_receipt bob waiting ≡ (drained, ok (receipt ∷ []))
unfolding drained drain_pending_receipts drain_loop ok_entries list_beq starts_with
drained_ok = refl

drain_pending_receipts_lem_example :
    (receipt ∷ [] ≡ receipt ∷ [])
    × (retain (has_prefix (joined bob [])) (drained pending_receipts_tree) ≡ [])
unfolding list_beq starts_with
drain_pending_receipts_lem_example =
    drain_pending_receipts_lem in_memory sample_receipt waiting drained bob
      ((joined bob (codes "m"), receipt) ∷ []) (receipt ∷ []) refl drained_ok
