-- ===== src/Messaging/Groups/DesyncRuns.antt =====
-- crates/variance-messaging/src/mls.rs: when a group is found out of step.
use variance.Prelude.{
  ℕ, zero, suc, ◌+◌, ◌<◌, ◌^◌, ◌%◌, map, Text, List, [], ◌∷◌, ◌++◌, none, some, Bool, true, false,
  ◌≡◌, refl, ap, ap₂, ◌∙◌, arith, replicate, leb, eqb, Option-cases, Bool-cases, inl, inr, list_eq,
  nat_eq, if◌then◌else◌,
}
use mathlib.Core.Path.{subst}
use variance.Messaging.Groups.{of_group}
use variance.Messaging.Groups.Membership.{epoch}
use variance.Prelude.Map
use variance.Messaging.Groups.{Crate, MlsGroupHandler, DesyncCounter}
use variance.Messaging.Groups.Desync.{
  DesyncInfo, desync_threshold, new_counter, count_failure, put_counter, counter_of,
  record_processing_success, epoch_or_zero, record_processing_failure, is_desynced, clear_desync,
}

-- Whether three failures follow each other without a success between them, where `true` is a success.
unfoldable pub has_three : List Bool → Bool
has_three (false ∷ false ∷ false ∷ xs) = true
has_three (x ∷ xs) = has_three xs
has_three [] = false

-- The counter after the messages, and the counts that were reported.
unfoldable pub count_outcomes : List Bool → DesyncCounter → DesyncCounter × List ℕ
unfolding count_failure
count_outcomes [] d = (d, [])
count_outcomes (true ∷ xs) d = count_outcomes xs (record d { consecutive_failures = 0 })
count_outcomes (false ∷ xs) d =
    let (d', reported) = count_failure d in
    let (d'', others) = count_outcomes xs d' in
    (d'', elim reported [ none ↦ others | some n ↦ n ∷ others ])

abbrev counter : ℕ → ℕ → DesyncCounter
counter n flagged = record { consecutive_failures = n; flagged = flagged }

count_failure-flagged : (n : ℕ) → count_failure (counter n 1) ≡ (counter ((n + 1) % 2 ^ 32) 1, none)
unfolding count_failure
count_failure-flagged n = elim (Bool-cases (leb desync_threshold ((n + 1) % 2 ^ 32))) [
  | inl many ↦ rw (count_failure, many) refl
  | inr few ↦ rw (count_failure, few) refl
]

-- A flagged counter stays so and reports nothing.
count_outcomes-flagged :
    (xs : List Bool) (n : ℕ)
    → ((count_outcomes xs (counter n 1)).0.flagged ≡ 1) × ((count_outcomes xs (counter n 1)).1 ≡ [])
unfolding count_outcomes
count_outcomes-flagged [] n = (refl, refl)
count_outcomes-flagged (true ∷ xs) n = count_outcomes-flagged xs 0
count_outcomes-flagged (false ∷ xs) n =
    let left = ap (λ r. r.0) (count_failure-flagged n) in
    let silent = ap (λ r. r.1) (count_failure-flagged n) in
    rw (count_outcomes, silent, left) (count_outcomes-flagged xs ((n + 1) % 2 ^ 32))

-- What is expected of a counter that is not flagged.
abbrev Expected : DesyncCounter × List ℕ → Bool → Type 0
Expected r three = (r.0.flagged ≡ (if three then 1 else 0)) × (r.1 ≡ (if three then 3 ∷ [] else []))

-- From n failures, less than three: the third in a row is reported, once.
count_outcomes-unflagged :
    (xs : List Bool) (n : ℕ)
    → n < 3
    → Expected (count_outcomes xs (counter n 0)) (has_three (replicate n false ++ xs))
unfolding count_outcomes count_failure has_three
count_outcomes-unflagged xs (suc (suc (suc n))) small = absurd (omega arith)
count_outcomes-unflagged [] zero small = (refl, refl)
count_outcomes-unflagged [] (suc zero) small = (refl, refl)
count_outcomes-unflagged [] (suc (suc zero)) small = (refl, refl)
count_outcomes-unflagged (true ∷ xs) zero small = count_outcomes-unflagged xs 0 (omega arith)
count_outcomes-unflagged (true ∷ xs) (suc zero) small = count_outcomes-unflagged xs 0 (omega arith)
count_outcomes-unflagged (true ∷ xs) (suc (suc zero)) small =
    count_outcomes-unflagged xs 0 (omega arith)
count_outcomes-unflagged (false ∷ xs) zero small = count_outcomes-unflagged xs 1 (omega arith)
count_outcomes-unflagged (false ∷ xs) (suc zero) small = count_outcomes-unflagged xs 2 (omega arith)
count_outcomes-unflagged (false ∷ xs) (suc (suc zero)) small =
    let (flagged, silent) = count_outcomes-flagged xs 3 in (flagged, ap (◌∷◌ 3) silent)

module _ {SigningKey : Type 0} (c : Crate SigningKey) where
  -- The messages of a group, processed with success or without, and what is reported.
  unfoldable pub process_outcomes :
      Text → List Bool → MlsGroupHandler c → MlsGroupHandler c × List DesyncInfo
  process_outcomes id [] h = (h, [])
  process_outcomes id (true ∷ xs) h = process_outcomes id xs (record_processing_success c id h)
  process_outcomes id (false ∷ xs) h =
      let (h', reported) = record_processing_failure c id h in
      let (h'', others) = process_outcomes id xs h' in
      (h'', elim reported [ none ↦ others | some info ↦ info ∷ others ])

  abbrev pub info : Text → MlsGroupHandler c → ℕ → DesyncInfo
  info id h n = record { group_id = id; failed_count = n; local_epoch = epoch_or_zero c id h }

  success_counter :
      (id : Text) (h : MlsGroupHandler c)
      → counter_of c id (record_processing_success c id h)
        ≡ record (counter_of c id h) { consecutive_failures = 0 }
  unfolding record_processing_success
  success_counter id h = elim (Option-cases (Map.get id h.desync_counters)) [
    | inl absent ↦ rw (record_processing_success, absent, counter_of, absent) refl
    | inr (d, found) ↦
        let reset : DesyncCounter = record d { consecutive_failures = 0 } in
        rw
          (
            record_processing_success,
            found,
            counter_of,
            Map.get-insert_self id reset h.desync_counters,
          )
          refl
  ]

  success_epoch :
      (id : Text) (h : MlsGroupHandler c)
      → epoch_or_zero c id (record_processing_success c id h) ≡ epoch_or_zero c id h
  unfolding epoch_or_zero epoch of_group record_processing_success
  success_epoch id h = elim (Option-cases (Map.get id h.desync_counters)) [
    | inl absent ↦ rw (record_processing_success, absent) refl
    | inr (d, found) ↦ rw (record_processing_success, found) refl
  ]

  put_counter_epoch :
      (id : Text) (d : DesyncCounter) (h : MlsGroupHandler c)
      → epoch_or_zero c id (put_counter c id d h) ≡ epoch_or_zero c id h
  unfolding epoch_or_zero epoch of_group
  put_counter_epoch id d h = refl

  put_counter_self :
      (id : Text) (d : DesyncCounter) (h : MlsGroupHandler c)
      → counter_of c id (put_counter c id d h) ≡ d
  put_counter_self id d h = rw (counter_of, Map.get-insert_self id d h.desync_counters) refl

  -- The counter and the reports of a run, from a counter and an epoch.
  abbrev Follows : Text → List Bool → MlsGroupHandler c → DesyncCounter → ℕ → Type 0
  Follows id xs h d n =
      (counter_of c id (process_outcomes id xs h).0 ≡ (count_outcomes xs d).0)
      × ((process_outcomes id xs h).1
          ≡ map (λ k. record { group_id = id; failed_count = k; local_epoch = n })
              (count_outcomes xs d).1)

  process_outcomes-count_outcomes :
      (id : Text) (xs : List Bool) (h : MlsGroupHandler c)
      → Follows id xs h (counter_of c id h) (epoch_or_zero c id h)
  unfolding process_outcomes count_outcomes record_processing_failure
  process_outcomes-count_outcomes id [] h = (refl, refl)
  process_outcomes-count_outcomes id (true ∷ xs) h =
      subst (λ (q : DesyncCounter × ℕ). Follows id xs (record_processing_success c id h) q.0 q.1)
        (ap₂ (λ d n. (d, n)) (success_counter id h) (success_epoch id h))
        (process_outcomes-count_outcomes id xs (record_processing_success c id h))
  process_outcomes-count_outcomes id (false ∷ xs) h =
      let (d, reported) = count_failure (counter_of c id h) in
      let h' = put_counter c id d h in
      let (count, reports) =
        subst (λ (q : DesyncCounter × ℕ). Follows id xs h' q.0 q.1)
          (ap₂ (λ d n. (d, n)) (put_counter_self id d h) (put_counter_epoch id d h))
          (process_outcomes-count_outcomes id xs h') in
      elim (Option-cases reported) [
        | inl silent ↦
            rw (process_outcomes, count_outcomes, record_processing_failure, silent)
              (count, reports)
        | inr (n, loud) ↦
            rw (process_outcomes, count_outcomes, record_processing_failure, loud)
              (count, ap (◌∷◌ (info id h n)) reports)
      ]

  is_desynced-counter_of :
      (id : Text) (h : MlsGroupHandler c) → is_desynced c id h ≡ eqb (counter_of c id h).flagged 1
  unfolding is_desynced
  is_desynced-counter_of id h = elim (Option-cases (Map.get id h.desync_counters)) [
    | inl absent ↦ rw (is_desynced, counter_of, absent) refl
    | inr (d, found) ↦ rw (is_desynced, counter_of, found) refl
  ]

  cleared_counter :
      (id : Text) (h : MlsGroupHandler c) → counter_of c id (clear_desync c id h) ≡ new_counter
  unfolding clear_desync
  cleared_counter id h = elim (Option-cases (Map.get id h.desync_counters)) [
    | inl absent ↦ rw (clear_desync, absent, counter_of, absent) refl
    | inr (d, found) ↦
        rw (clear_desync, found, counter_of, Map.get-insert_self id new_counter h.desync_counters)
          refl
  ]

  flag_of : (three : Bool) (n : ℕ) → n ≡ (if three then 1 else 0) → eqb n 1 ≡ three
  flag_of three n e = ground arith

  reports_of :
      (three : Bool) (counts : List ℕ) (id : Text) (h : MlsGroupHandler c)
      → counts ≡ (if three then 3 ∷ [] else [])
      → map (info id h) counts ≡ (if three then info id h 3 ∷ [] else [])
  reports_of true counts id h e = ap (map (info id h)) e
  reports_of false counts id h e = ap (map (info id h)) e

  -- After the desync flag of a group was cleared, or where nothing of the group has failed, and
  -- whatever successes and failures of its messages are recorded then: the group is found out of
  -- step exactly when there were three failures in a row, record_processing_failure returns this
  -- once, at the third failure, and whatever succeeds afterwards the group stays flagged.
  pub process_outcomes_lem :
      (id : Text) (xs : List Bool) (h : MlsGroupHandler c)
      → let start = clear_desync c id h in
        let (h', reports) = process_outcomes id xs start in
        (is_desynced c id h' ≡ has_three xs)
        × (reports ≡ (if has_three xs then info id start 3 ∷ [] else []))
  process_outcomes_lem id xs h =
      let start = clear_desync c id h in
      let (count, reports) =
        subst (λ (d : DesyncCounter). Follows id xs start d (epoch_or_zero c id start))
          (cleared_counter id h) (process_outcomes-count_outcomes id xs start) in
      let (flagged, counts) = count_outcomes-unflagged xs 0 (omega arith) in
      (
        is_desynced-counter_of id (process_outcomes id xs start).0
            ∙ ap (λ d. eqb d.flagged 1) count
            ∙ flag_of (has_three xs) (count_outcomes xs new_counter).0.flagged flagged,
        reports ∙ reports_of (has_three xs) (count_outcomes xs new_counter).1 id start counts,
      )
