-- ===== src/Messaging/Storage/Direct/Fetch.antt =====
-- What a conversation's page holds.
use variance.Prelude.{ℕ, ◌≡◌, refl, ap, Text, List, [], Option, ok, map, retain}
use variance.Prelude.Int.{ℤ}
use variance.Messaging.Proto.{DirectMessage}
use variance.Messaging.Storage.Sled.{Sled, Codec}
use variance.Messaging.Storage.Keys.{joined, conversation_id}
use variance.Messaging.Storage.Keys.Order.{conversation_id_comm}
use variance.Messaging.Storage.Entries.{readable}
use variance.Messaging.Storage.Entries.Last.{take_last, latest_lem}
use variance.Messaging.Storage.Direct.{direct_tree, is_before, fetch_direct}

module _ (sled : Sled) (codec : Codec DirectMessage) where
  open sled use {Db, scan_prefix}

  -- A conversation that can be read is answered, whichever of its two users is named first, with
  -- the last messages, as many as the limit allows, of those before the time that is asked for, in
  -- their order, and the database stays as it is.
  pub fetch_direct-latest :
      (db : Db) (sender recipient : Text) (limit : ℕ) (before : Option ℤ)
      (es : List (Text × DirectMessage))
      → sled.open_tree db direct_tree ≡ ok tt
      → scan_prefix db direct_tree (joined (conversation_id sender recipient) [])
        ≡ readable codec es
      → (fetch_direct sled codec sender recipient limit before db ≡ (
        db,
        ok (take_last limit (retain (λ m. is_before before m.timestamp) (map (λ e. e.1) es))),
      ))
        × (fetch_direct sled codec recipient sender limit before db
            ≡ fetch_direct sled codec sender recipient limit before db)
  unfolding fetch_direct
  fetch_direct-latest db sender recipient limit before es opened scanned = (
    rw (opened, scanned)
        (ap (λ ms. (db, ok ms)) (latest_lem codec limit (λ m. is_before before m.timestamp) es)),
    rw (conversation_id_comm recipient sender) refl,
  )
