-- ===== src/Messaging/Offline/Cursor.antt =====
-- What the next page begins with.
use variance.Prelude.{
  ℕ, zero, suc, ◌≡◌, ◌<◌, refl, ap, sym, ◌∙◌, Text, List, [], ◌∷◌, ◌++◌, Option, none, some, Bool,
  true, false, ok, err, Result, ◌+◌, ◌^◌, Option-cases, map, retain, take, last?, arith, Bool-cases,
  inl, inr, All,
}
use mathlib.Core.Path.{subst}
use variance.Prelude.Int.{ℤ, ltb_ℤ}
use variance.Messaging.Errors.{Error}
use variance.Messaging.Proto.{OfflineMessageEnvelope, OfflineMessageRequest, OfflineMessageResponse}
use variance.Messaging.Storage.Offline.Scan.{is_wanted, time_of}
use variance.Messaging.Offline.{fetch_messages}
use variance.Messaging.Storage.Sled.{Sled, Codec}
use variance.Messaging.Storage.Offline.{offline_tree, mailbox_prefix}
use variance.Messaging.Storage.Offline.Scan.{IsStored, entries_of}
use variance.Messaging.Offline.Pages.{wanted, local_storage, fetch_messages-page}

-- Each envelope's message is older than those that follow.
abbrev pub Ascends : List OfflineMessageEnvelope → Type 0
Ascends [] = Unit
Ascends (e ∷ es) = All (λ f. ltb_ℤ (time_of e) (time_of f) ≡ true) es × Ascends es

later-All :
    (e : OfflineMessageEnvelope) (es : List OfflineMessageEnvelope)
    → All (λ f. ltb_ℤ (time_of e) (time_of f) ≡ true) es
    → retain (is_wanted (some (time_of e))) es ≡ es
unfolding is_wanted
later-All e [] h = refl
later-All e (f ∷ es) h = ground (arith, later-All e es h.1)

earlier_none :
    (e l : OfflineMessageEnvelope)
    → ltb_ℤ (time_of e) (time_of l) ≡ true
    → is_wanted (some (time_of l)) e ≡ false
unfolding is_wanted
earlier_none e l h = ground arith

last?-All :
    (P : OfflineMessageEnvelope → Type 0) (es : List OfflineMessageEnvelope)
    (l : OfflineMessageEnvelope)
    → All P es
    → last? es ≡ some l
    → P l
last?-All P [] l h e = cc
last?-All P (x ∷ []) l h e = subst P (cc) h.0
last?-All P (x ∷ y ∷ es) l h e = last?-All P (y ∷ es) l h.1 e

All-take :
    (P : OfflineMessageEnvelope → Type 0) (n : ℕ) (es : List OfflineMessageEnvelope)
    → All P es
    → All P (take n es)
All-take P zero es h = tt
All-take P (suc n) [] h = tt
All-take P (suc n) (e ∷ es) h = (h.0, All-take P n es h.1)

not_own : (e : OfflineMessageEnvelope) → is_wanted (some (time_of e)) e ≡ false
unfolding is_wanted
not_own e = ground arith

-- What comes after the last of the first messages is the rest.
rest_lem :
    (n : ℕ) (es : List OfflineMessageEnvelope) (l : OfflineMessageEnvelope)
    → Ascends es
    → last? (take n es) ≡ some l
    → take n es ++ retain (is_wanted (some (time_of l))) es ≡ es
rest_lem zero es l h e = cc
rest_lem (suc n) [] l h e = cc
rest_lem (suc zero) (x ∷ es) l h e =
    let same : x ≡ l = cc in
    let own : is_wanted (some (time_of l)) x ≡ false = rw (← same) (not_own x) in
    let rest : retain (is_wanted (some (time_of l))) es ≡ es = rw (← same) (later-All x es h.0) in
    rw (own, rest) refl
rest_lem (suc (suc n)) (x ∷ []) l h e =
    let same : x ≡ l = cc in
    let own : is_wanted (some (time_of l)) x ≡ false = rw (← same) (not_own x) in rw own refl
rest_lem (suc (suc n)) (x ∷ y ∷ es) l h e =
    let before : ltb_ℤ (time_of x) (time_of l) ≡ true =
      last?-All (λ f. ltb_ℤ (time_of x) (time_of f) ≡ true) (take (suc n) (y ∷ es)) l
        (All-take (λ f. ltb_ℤ (time_of x) (time_of f) ≡ true) (suc n) (y ∷ es) h.0) e in
    rw (earlier_none x l before) (ap (◌∷◌ x) (rest_lem (suc n) (y ∷ es) l h.1 e))

retain-All :
    (P : OfflineMessageEnvelope → Type 0) (p : OfflineMessageEnvelope → Bool)
    (es : List OfflineMessageEnvelope)
    → All P es
    → All P (retain p es)
retain-All P p [] h = tt
retain-All P p (e ∷ es) h = elim (Bool-cases (p e)) [
  | inl keep ↦ rw keep (h.0, retain-All P p es h.1)
  | inr drop ↦ rw drop (retain-All P p es h.1)
]

retain-Ascends :
    (p : OfflineMessageEnvelope → Bool) (es : List OfflineMessageEnvelope)
    → Ascends es
    → Ascends (retain p es)
retain-Ascends p [] h = tt
retain-Ascends p (e ∷ es) h = elim (Bool-cases (p e)) [
  | inl keep ↦
      rw keep
        (retain-All (λ f. ltb_ℤ (time_of e) (time_of f) ≡ true) p es h.0, retain-Ascends p es h.1)
  | inr drop ↦ rw drop (retain-Ascends p es h.1)
]

-- The messages that a later request asks for are among those that an earlier one did.
retain_later :
    (since : Option ℤ) (l : OfflineMessageEnvelope) (es : List OfflineMessageEnvelope)
    → is_wanted since l ≡ true
    → retain (is_wanted (some (time_of l))) (retain (is_wanted since) es)
      ≡ retain (is_wanted (some (time_of l))) es
unfolding is_wanted
retain_later since l [] h = refl
retain_later none l (e ∷ es) h = ground (arith, retain_later none l es h)
retain_later (some s) l (e ∷ es) h = ground (arith, retain_later (some s) l es h)

All-wanted :
    (since : Option ℤ) (es : List OfflineMessageEnvelope)
    → All (λ e. is_wanted since e ≡ true) (retain (is_wanted since) es)
All-wanted since [] = tt
All-wanted since (e ∷ es) = elim (Bool-cases (is_wanted since e)) [
  | inl keep ↦ rw keep (keep, All-wanted since es)
  | inr drop ↦ rw drop (All-wanted since es)
]

cursor_lem :
    (n : ℕ) (since : Option ℤ) (c : ℤ) (es : List OfflineMessageEnvelope)
    → Ascends es
    → All (λ e. e.stored_at ≡ time_of e) es
    → (elim (last? (take n (retain (is_wanted since) es))) [
      | none ↦ none
      | some e ↦ some e.stored_at
    ])
      ≡ some c
    → take n (retain (is_wanted since) es) ++ retain (is_wanted (some c)) es
      ≡ retain (is_wanted since) es
cursor_lem n since c es h timely e =
    elim (Option-cases (last? (take n (retain (is_wanted since) es)))) [
      | inl empty ↦ absurd (ground arith)
      | inr (l, last) ↦
          let ws = retain (is_wanted since) es in
          let good : is_wanted since l ≡ true =
            last?-All (λ f. is_wanted since f ≡ true) (take n ws) l
              (All-take (λ f. is_wanted since f ≡ true) n ws (All-wanted since es)) last in
          let stamped : l.stored_at ≡ time_of l =
            last?-All (λ f. f.stored_at ≡ time_of f) (take n ws) l
              (All-take (λ f. f.stored_at ≡ time_of f) n ws
                (retain-All (λ f. f.stored_at ≡ time_of f) (is_wanted since) es timely))
              last in
          let at : c ≡ time_of l = ground arith in
          rw (at, ← retain_later since l es good)
            (rest_lem n ws l (retain-Ascends (is_wanted since) es h) last)
    ]

abbrev messages_of : Result Error OfflineMessageResponse → List OfflineMessageEnvelope
messages_of (ok r) = r.messages
messages_of (err e) = []

abbrev cursor_of : Result Error OfflineMessageResponse → Option ℤ
cursor_of (ok r) = r.next_cursor
cursor_of (err e) = none

module _ (sled : Sled) (hex : Text → Text) (codec : Codec OfflineMessageEnvelope) where
  open sled use {Db, scan_prefix}

  -- The messages of a page and those that its cursor asks for are, in this order, those that the
  -- request asked for, each once, where the mailbox can be read, each message was stored at its own
  -- time, and the times ascend strictly.
  pub fetch_messages-cursor :
      (db : Db) (request : OfflineMessageRequest) (es : List (Text × OfflineMessageEnvelope))
      (response : OfflineMessageResponse) (cursor : ℤ)
      → 0 < request.limit × request.limit + 1 < 2 ^ 32
      → sled.open_tree db offline_tree ≡ ok tt
      → scan_prefix db offline_tree (mailbox_prefix sled hex codec request.mailbox_token)
        ≡ entries_of codec es
      → All (IsStored (hex request.mailbox_token)) es
      → Ascends (map (λ e. e.1) es)
      → All (λ e. e.stored_at ≡ time_of e) (map (λ e. e.1) es)
      → (fetch_messages (local_storage sled hex codec) request db).1 ≡ ok response
      → response.next_cursor ≡ some cursor
      → response.messages ++ wanted (some cursor) es ≡ wanted request.since_timestamp es
  fetch_messages-cursor db request es response cursor (some_limit, small) opened scanned stored
        ascends timely answered more =
      let e =
        fetch_messages-page sled hex codec db request es some_limit small opened scanned stored in
      let ws = wanted request.since_timestamp es in
      let same = sym (ap (λ p. p.1) e) ∙ answered in
      let messages : take request.limit ws ≡ response.messages = ap messages_of same in
      let cursors = ap cursor_of same ∙ more in
      rw (← messages) (
        cursor_lem request.limit request.since_timestamp cursor (map (λ e. e.1) es) ascends timely
          cursors)
