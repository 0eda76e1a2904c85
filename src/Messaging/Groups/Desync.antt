-- ===== src/Messaging/Groups/Desync.antt =====
-- crates/variance-messaging/src/mls.rs: which groups have failed too often in a row. The counters are
-- u32, which wrap: `fetch_add` always does, and `prev + 1` in a release build.
use variance.Prelude.{
  ℕ, ◌+◌, ◌%◌, ◌^◌, Text, Option, none, some, Bool, false, ok, err, leb, eqb, ◌&&◌, list_eq, nat_eq,
  if◌then◌else◌,
}
use variance.Prelude.Map
use variance.Messaging.Groups.{Crate, MlsGroupHandler, DesyncCounter}
use variance.Messaging.Groups.Membership.{epoch}

abbrev pub desync_threshold : ℕ
desync_threshold = 3

pub record DesyncInfo : Type 0 where
  pub group_id : Text
  pub failed_count : ℕ
  pub local_epoch : ℕ

abbrev pub new_counter : DesyncCounter
new_counter = record { consecutive_failures = 0; flagged = 0 }

-- A failure of a group with a counter, and the count that is reported where it is the first at the
-- threshold.
unfoldable pub count_failure : DesyncCounter → DesyncCounter × Option ℕ
count_failure d =
    let new_count = (d.consecutive_failures + 1) % 2 ^ 32 in
    let d' : DesyncCounter = record d { consecutive_failures = new_count } in
    if leb desync_threshold new_count && eqb d.flagged 0
    then (record d' { flagged = 1 }, some new_count)
    else (d', none)

module _ {SigningKey : Type 0} (c : Crate SigningKey) where
  abbrev pub put_counter : Text → DesyncCounter → MlsGroupHandler c → MlsGroupHandler c
  put_counter id d h = record h { desync_counters = Map.insert id d h.desync_counters }

  abbrev pub counter_of : Text → MlsGroupHandler c → DesyncCounter
  counter_of id h = elim (Map.get id h.desync_counters) [ none ↦ new_counter | some d ↦ d ]

  unfoldable pub record_processing_success : Text → MlsGroupHandler c → MlsGroupHandler c
  record_processing_success id h = elim (Map.get id h.desync_counters) [
    | none ↦ h
    | some d ↦ put_counter id (record d { consecutive_failures = 0 }) h
  ]

  -- `self.epoch(group_id).unwrap_or(0)`.
  unfoldable pub epoch_or_zero : Text → MlsGroupHandler c → ℕ
  epoch_or_zero id h = elim (epoch c id h) [ err e ↦ 0 | ok n ↦ n ]

  unfoldable pub record_processing_failure :
      Text → MlsGroupHandler c → MlsGroupHandler c × Option DesyncInfo
  unfolding count_failure epoch_or_zero
  record_processing_failure id h =
      let (d, reported) = count_failure (counter_of id h) in
      (
        put_counter id d h,
        elim reported [
          | none ↦ none
          | some n ↦
              some (record { group_id = id; failed_count = n; local_epoch = epoch_or_zero id h })
        ],
      )

  unfoldable pub is_desynced : Text → MlsGroupHandler c → Bool
  is_desynced id h = elim (Map.get id h.desync_counters) [ none ↦ false | some d ↦ eqb d.flagged 1 ]

  unfoldable pub clear_desync : Text → MlsGroupHandler c → MlsGroupHandler c
  clear_desync id h = elim (Map.get id h.desync_counters) [
    | none ↦ h
    | some d ↦ put_counter id new_counter h
  ]

  unfoldable pub failure_count : Text → MlsGroupHandler c → ℕ
  failure_count id h = elim (Map.get id h.desync_counters) [
    | none ↦ 0
    | some d ↦ d.consecutive_failures
  ]
