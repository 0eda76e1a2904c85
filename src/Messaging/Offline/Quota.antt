-- ===== src/Messaging/Offline/Quota.antt =====
-- How many messages a mailbox holds.
use variance.Prelude.{
  ℕ, ◌≡◌, ◌≤◌, ◌<◌, refl, ap, sym, Text, List, [], ◌∷◌, some, true, false, Result, ok, map, retain,
  length, leb, arith, Bool-cases, Option-cases, inl, inr, if◌then◌else◌, contains, list_eq, nat_eq,
}
use variance.Prelude.Int.{ℤ, ltb_ℤ}
use variance.Prelude.Map.{Map}
use variance.Messaging.Errors.{Error, relay_storage_full}
use variance.Messaging.Proto.{OfflineMessageEnvelope, EnvelopeMessage}
use variance.Messaging.Storage.Io.{read, fail, after-eq-ok}
use variance.Messaging.Storage.Sled.{Sled, Codec, starts_with, has_prefix}
use variance.Messaging.Storage.Contents.{after_open, count-put, length-map_ok}
use variance.Messaging.Storage.Keys.{joined, message_key, timestamp_020}
use variance.Messaging.Storage.Offline
use variance.Messaging.Storage.Offline.{
  offline_tree, message_index_tree, mailbox_prefix, offline_key, id_of, timestamp_of, idx_key,
  store_envelope,
}
use variance.Messaging.Storage.Offline.Stored.{store_envelope-contents, stored_lem}
use variance.Messaging.Offline.{OfflineStorage, max_queued_per_mailbox, store_message}
use variance.Messaging.Offline.Pages.{local_storage}

-- Of two texts without a colon, one begins the other's key only if they are the same.
starts_with-joined :
    (a b r : Text)
    → contains 58 a ≡ false
    → contains 58 b ≡ false
    → starts_with (joined a []) (joined b r) ≡ true
    → a ≡ b
unfolding starts_with contains
starts_with-joined [] [] r ha hb h = refl
starts_with-joined [] (y ∷ b) r ha hb h = absurd (ground arith)
starts_with-joined (x ∷ a) [] r ha hb h = absurd (ground arith)
starts_with-joined (x ∷ a) (y ∷ b) r ha hb h = ground (arith, starts_with-joined a b r)

-- What a message that is accepted has passed.
store_message-accepted :
    (storage : OfflineStorage) (s s' : storage.Store) (e : OfflineMessageEnvelope) (now : ℤ)
    → store_message storage e now s ≡ (s', ok tt)
    → (m : EnvelopeMessage) × (n : ℕ) × (t : storage.Store) × (e.message ≡ some m)
      × (storage.count_offline_for_mailbox e.mailbox_token s ≡ (t, ok n))
      × (n < max_queued_per_mailbox)
      × (storage.store_offline e t ≡ (s', ok tt))
unfolding store_message
store_message-accepted storage s s' e now stored = elim (Option-cases e.message) [
  | inl empty ↦ absurd (ground (arith, ap (λ p. p.1) (rw (empty, store_message) at stored)))
  | inr (m, has) ↦ elim (Bool-cases (ltb_ℤ e.expires_at now)) [
    | inl late ↦ absurd (ground (arith, ap (λ p. p.1) (rw (has, store_message, late) at stored)))
    | inr early ↦
        let (t, n, counted, rest) =
          after-eq-ok
            (λ n.
              if leb max_queued_per_mailbox n
              then fail relay_storage_full
              else storage.store_offline e)
            (storage.count_offline_for_mailbox e.mailbox_token s) s' tt
            (rw (has, store_message, early) at stored) in
        elim (Bool-cases (leb max_queued_per_mailbox n)) [
          | inl full ↦ absurd (ground (arith, ap (λ p. p.1) (rw full at rest)))
          | inr room ↦ (m, n, t, has, counted, ground arith, rw room at rest)
        ]
  ]
]

module _ (sled : Sled) (hex : Text → Text) (codec : Codec OfflineMessageEnvelope) where
  open sled use {Db, scan_prefix, contents, scan_prefix_ok}

  -- The messages that are queued for a mailbox.
  abbrev pub queued : Db → List ℕ → ℕ
  queued db token =
      length (retain (has_prefix (mailbox_prefix sled hex codec token)) (contents db offline_tree))

  -- A new message's key begins like those of its own mailbox, and of no other.
  other_mailbox :
      (token other : List ℕ) (t : ℤ) (id : Text)
      → ((x : List ℕ) → contains 58 (hex x) ≡ false)
      → starts_with (mailbox_prefix sled hex codec other) (offline_key sled hex codec token t id)
        ≡ true
      → hex other ≡ hex token
  unfolding offline_key message_key
  other_mailbox token other t id plain h =
      starts_with-joined (hex other) (hex token) (joined (timestamp_020 t) id) (plain other)
        (plain token) h

  number : {a b : ℕ} → ◌≡◌ {A = Result Error ℕ} (ok a) (ok b) → a ≡ b
  number e = cc

  counted_lem :
      (db db' : Db) (token : List ℕ) (n : ℕ)
      → Offline.count_offline_for_mailbox sled hex codec token db ≡ (db', ok n)
      → (db ≡ db')
        × (length (scan_prefix db offline_tree (mailbox_prefix sled hex codec token)) ≡ n)
  unfolding Offline.count_offline_for_mailbox
  counted_lem db db' token n e =
      let found =
        after_open sled offline_tree
          (read
            (λ db. ok (length (scan_prefix db offline_tree (mailbox_prefix sled hex codec token)))))
          db db' n e in
      (ap (λ p. p.0) found, number (ap (λ p. p.1) found))

  -- What `store_message` writes, and the count that it has seen.
  pub store_message-stored :
      (db db' : Db) (e : OfflineMessageEnvelope) (now : ℤ)
      → store_message (local_storage sled hex codec) e now db ≡ (db', ok tt)
      → (m : EnvelopeMessage) × (e.message ≡ some m)
        × (length (scan_prefix db offline_tree (mailbox_prefix sled hex codec e.mailbox_token))
            < max_queued_per_mailbox)
        × (store_envelope sled hex codec e m db ≡ (db', ok tt))
  store_message-stored db db' e now stored =
      let (m, n, t, has, counts, room, rest) =
        store_message-accepted (local_storage sled hex codec) db db' e now stored in
      let (same, many) = counted_lem db t e.mailbox_token n counts in
      (
        m,
        has,
        omega (arith, many, room),
        stored_lem sled hex codec db db' e m has (rw (← same) at rest),
      )

  -- A message that store_message accepts leaves no mailbox with more than 512 messages, if none had
  -- more before, for one call at a time, where the database counts the mailbox without a failure
  -- and the hex digits of a mailbox hold no colon.
  pub store_message-quota :
      (db db' : Db) (e : OfflineMessageEnvelope) (now : ℤ) (es : Map Text Text) (token : List ℕ)
      → ((x : List ℕ) → contains 58 (hex x) ≡ false)
      → scan_prefix db offline_tree (mailbox_prefix sled hex codec e.mailbox_token) ≡ map ok es
      → ((x : List ℕ) → queued db x ≤ max_queued_per_mailbox)
      → store_message (local_storage sled hex codec) e now db ≡ (db', ok tt)
      → queued db' token ≤ max_queued_per_mailbox
  store_message-quota db db' e now es token plain counted within stored =
      let (m, has, room, new) = store_message-stored db db' e now stored in
      let (grown, indexed) = store_envelope-contents sled hex codec db db' e m new in
      let many : length es
          ≡ length (scan_prefix db offline_tree (mailbox_prefix sled hex codec e.mailbox_token)) =
        rw counted (sym (length-map_ok es)) in
      let found : length es ≡ queued db e.mailbox_token = ap length (
        scan_prefix_ok db offline_tree (mailbox_prefix sled hex codec e.mailbox_token) es
          counted) in
      let key = offline_key sled hex codec e.mailbox_token (timestamp_of m) (id_of m) in
      let more =
        count-put (mailbox_prefix sled hex codec token) key (codec.encode e)
          (contents db offline_tree) in
      elim (Bool-cases (starts_with (mailbox_prefix sled hex codec token) key)) [
        | inl own ↦
            let ours = other_mailbox e.mailbox_token token (timestamp_of m) (id_of m) plain own in
            let before : queued db token ≡ queued db e.mailbox_token =
              ap (λ h. length (retain (has_prefix (joined h [])) (contents db offline_tree)))
                ours in
            rw grown (omega (arith, rw own at more, before, many, found, room))
        | inr others ↦ rw grown (omega (arith, rw others at more, within token))
      ]
