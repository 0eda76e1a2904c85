-- ===== src/Messaging/Offline.antt =====
-- crates/variance-messaging/src/offline.rs: the relay of messages for users who are offline. The
-- storage is the trait of storage/trait_def.rs, as far as the relay calls it; the clock is an argument.
pub mod Pages
pub mod Cursor
pub mod Quota
pub mod Removal
pub mod Cleanup
mod Tests
use variance.Prelude.{
  ℕ, ◌+◌, ◌*◌, ◌%◌, ◌^◌, Text, List, [], ◌∷◌, ◌++◌, Option, none, some, Bool, true, false, Result,
  ok, err, codes, length, leb, ltb, eqb, map, last?, take, if◌then◌else◌,
}
use variance.Prelude.Int.{ℤ, pos, ltb_ℤ, add_i64}
use variance.Messaging.Errors.{Error, invalid_format, message_expired, relay_storage_full}
use variance.Messaging.Proto.{
  EnvelopeMessage, OfflineMessageEnvelope, OfflineMessageRequest, OfflineMessageResponse,
}
use variance.Messaging.Storage.Io.{Io, ◌>>=◌, ◌>>◌, return, fail}

abbrev pub max_queued_per_mailbox : ℕ
max_queued_per_mailbox = 512

pub record OfflineStorage : Type 1 where
  pub Store : Type 0
  pub store_offline : OfflineMessageEnvelope → Io Store (Unit {0})
  pub fetch_offline : List ℕ → Option ℤ → ℕ → Io Store (List OfflineMessageEnvelope)
  pub count_offline_for_mailbox : List ℕ → Io Store ℕ
  pub delete_offline : Text → Io Store (Unit {0})
  pub cleanup_expired : ℤ → Io Store ℕ

pub record OfflineRelayHandler : Type 0 where
  pub ttl_ms : ℤ

unfoldable pub with_ttl : ℤ → OfflineRelayHandler
with_ttl ttl_ms = record { ttl_ms = ttl_ms }

-- 14 days.
unfoldable pub new_handler : OfflineRelayHandler
unfolding with_ttl
new_handler = with_ttl (pos (14 * 24 * 60 * 60 * 1000))

-- `now + self.ttl_ms`, which wraps in a release build.
unfoldable pub create_envelope :
    OfflineRelayHandler → List ℕ → EnvelopeMessage → ℤ → OfflineMessageEnvelope
create_envelope h mailbox_token message now = record {
  mailbox_token = mailbox_token;
  message = some message;
  stored_at = now;
  expires_at = add_i64 now h.ttl_ms;
}

unfoldable pub create_error_response : Text → Text → OfflineMessageResponse
create_error_response error_code error_message = record {
  messages = [];
  has_more = false;
  next_cursor = none;
  error_code = some error_code;
  error_message = some error_message;
}

-- The answer to a request, from what the storage returned.
unfoldable pub page : ℕ → List OfflineMessageEnvelope → OfflineMessageResponse
page limit messages =
    let has_more = ltb limit (length messages) in
    let actual_messages = if has_more then take limit messages else messages in
    record {
      messages = actual_messages;
      has_more = has_more;
      next_cursor = elim (last? actual_messages) [ none ↦ none | some e ↦ some e.stored_at ];
      error_code = none;
      error_message = none;
    }

module _ (storage : OfflineStorage) where
  open storage use {Store, store_offline, fetch_offline, count_offline_for_mailbox}

  unfoldable pub store_message : OfflineMessageEnvelope → ℤ → Io Store (Unit {0})
  store_message envelope now = elim envelope.message [
    | none ↦ fail (invalid_format (codes "Envelope must contain a message"))
    | some m ↦
        if ltb_ℤ envelope.expires_at now
        then fail (message_expired (codes "envelope"))
        else (count_offline_for_mailbox envelope.mailbox_token >>= λ queued.
            if leb max_queued_per_mailbox queued
            then fail relay_storage_full
            else store_offline envelope)
  ]

  -- `request.limit + 1` is a `u32`, which wraps in a release build.
  unfoldable pub fetch_messages : OfflineMessageRequest → Io Store OfflineMessageResponse
  unfolding page
  fetch_messages request =
      if eqb request.limit 0
      then fail (invalid_format (codes "Limit must be greater than 0"))
      else (fetch_offline request.mailbox_token request.since_timestamp
            ((request.limit + 1) % 2 ^ 32)
          >>= λ messages. return (page request.limit messages))

  unfoldable pub delete_message : Text → Io Store (Unit {0})
  delete_message message_id = storage.delete_offline message_id

  unfoldable pub cleanup_expired : ℤ → Io Store ℕ
  cleanup_expired now = storage.cleanup_expired now

-- `handle_request` of crates/variance-p2p/src/handlers/offline.rs: an error is sent as a response.
-- The display of an error is a parameter.
module _ (storage : OfflineStorage) (display : Error → Text) where
  open storage use {Store}

  unfoldable pub handle_request : OfflineMessageRequest → Io Store OfflineMessageResponse
  unfolding create_error_response
  handle_request request store =
      let (store', fetched) = fetch_messages storage request store in
      (
        store',
        elim fetched [
          | ok response ↦ ok response
          | err e ↦ ok (
              create_error_response (codes "storage_error")
                (codes "Failed to fetch messages: " ++ display e))
        ],
      )
