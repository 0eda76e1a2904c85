-- ===== src/Messaging/Typing/Inbound.antt =====
-- Who is shown as typing.
use variance.Prelude.{
  ap, ◌≡◌, refl, Text, List, [], ◌∷◌, ◌++◌, none, some, Bool, true, false, ◌&&◌, arith,
  list_beq_iff, list_eq, nat_eq, ◌==◌, map, retain, is_empty, contains, if◌then◌else◌, Option-cases,
  Bool-cases, inl, inr,
}
use variance.Prelude.Int.{ℤ}
use variance.Prelude.Map
use variance.Prelude.Map.{Map}
use variance.Messaging.Typing.{
  TypingHandler, TypingIndicator, Recipient, is_fresh, is_other, shrink, users_of, key_of,
  note_sender, cleanup_expired, receive_indicator, get_typing_users, cleanup_keys,
  cleanup_all_expired,
}

users_of-stored :
    (key other : Text) (ys : List (Text × ℤ)) (m : Map Text (List (Text × ℤ)))
    → users_of
        (if is_empty ys then Map.remove key (Map.insert key ys m) else Map.insert key ys m)
        other
      ≡ (if key == other then ys else users_of m other)
unfolding users_of
users_of-stored key other [] m =
    ground (arith, Map.get-remove key other (Map.insert key [] m), Map.get-insert key other [] m)
users_of-stored key other (y ∷ ys) m = ground (arith, Map.get-insert key other (y ∷ ys) m)

users_of_lem :
    (key : Text) (m : Map Text (List (Text × ℤ)))
    → ((Map.get key m ≡ none) → users_of m key ≡ [])
      × ((ys : List (Text × ℤ)) → Map.get key m ≡ some ys → users_of m key ≡ ys)
unfolding users_of
users_of_lem key m = (λ e. rw (e, users_of), λ ys e. rw (e, users_of))

retain-users_of :
    (keep : Text × ℤ → Bool) (key : Text) (m : Map Text (List (Text × ℤ)))
    → ((Map.get key m ≡ none) → retain keep (users_of m key) ≡ [])
      × ((ys : List (Text × ℤ))
          → Map.get key m ≡ some ys
          → retain keep (users_of m key) ≡ retain keep ys)
retain-users_of keep key m =
    (λ e. rw ((users_of_lem key m).0 e), λ ys e. rw ((users_of_lem key m).1 ys e))

users_of-shrink :
    (keep : Text × ℤ → Bool) (key other : Text) (m : Map Text (List (Text × ℤ)))
    → users_of (shrink keep key m) other
      ≡ (if key == other then retain keep (users_of m other) else users_of m other)
unfolding shrink
users_of-shrink keep key other m = elim (Option-cases (Map.get key m)) [
  | inl e ↦
      rw (e, shrink)
        (ground (
          arith,
          list_beq_iff key other,
          (users_of_lem key m).0 e,
          (retain-users_of keep key m).0 e,
        ))
  | inr (ys, e) ↦
      rw (e, shrink)
        (ground (
          arith,
          users_of-stored key other (retain keep ys) m,
          list_beq_iff key other,
          (retain-users_of keep key m).1 ys e,
        ))
]

users_of-insert :
    (key other : Text) (ys : List (Text × ℤ)) (m : Map Text (List (Text × ℤ)))
    → users_of (Map.insert key ys m) other ≡ (if key == other then ys else users_of m other)
unfolding users_of
users_of-insert key other ys m = ground (arith, Map.get-insert key other ys m)

append_nil : (ys : List (Text × ℤ)) → ys ++ [] ≡ ys
append_nil [] = refl
append_nil (y ∷ ys) = rw (append_nil ys)

users_of-note_sender :
    (key other : Text) (i : TypingIndicator) (m : Map Text (List (Text × ℤ)))
    → users_of (note_sender key i m) other ≡ (
        if key == other
        then retain (is_other i.sender_did) (users_of m other)
          ++ (if i.is_typing then (i.sender_did, i.timestamp) ∷ [] else [])
        else users_of m other)
unfolding note_sender
users_of-note_sender key other i m = elim (Bool-cases i.is_typing) [
  | inl e ↦ rw (e) (
      ground (
        arith,
        list_beq_iff key other,
        users_of-insert key other
            (retain (is_other i.sender_did) (users_of m key) ++ (i.sender_did, i.timestamp) ∷ []) m,
      ))
  | inr e ↦ rw (e) (
      ground (
        arith,
        list_beq_iff key other,
        append_nil (retain (is_other i.sender_did) (users_of m other)),
        users_of-shrink (is_other i.sender_did) key other m,
      ))
]

-- `iter().map(|(did, _)| did.clone())`.
abbrev names : List (Text × ℤ) → List Text
names us = map (λ u. u.0) us

contains-retain :
    (a : Text) (p : Text × ℤ → Bool) (xs : List (Text × ℤ))
    → contains a (names xs) ≡ false
    → contains a (names (retain p xs)) ≡ false
unfolding contains
contains-retain a p [] h = refl
contains-retain a p ((did, t) ∷ xs) h =
    ground (arith, list_beq_iff did a, list_beq_iff a did, contains-retain a p xs)

contains-retain-is_other :
    (a : Text) (xs : List (Text × ℤ)) → contains a (names (retain (is_other a) xs)) ≡ false
unfolding contains is_other
contains-retain-is_other a [] = refl
contains-retain-is_other a ((did, t) ∷ xs) =
    ground (arith, list_beq_iff did a, list_beq_iff a did, contains-retain-is_other a xs)

contains-retain_append :
    (a : Text) (p : Text × ℤ → Bool) (t : ℤ) (xs : List (Text × ℤ))
    → contains a (names xs) ≡ false
    → contains a (names (retain p (xs ++ (a, t) ∷ []))) ≡ p (a, t)
unfolding contains
contains-retain_append a p t [] h = elim (Bool-cases (p (a, t))) [
  | inl e ↦ rw (e) (ground (arith, list_beq_iff a a))
  | inr e ↦ rw (e) refl
]
contains-retain_append a p t ((did, s) ∷ xs) h =
    ground (arith, list_beq_iff did a, list_beq_iff a did, contains-retain_append a p t xs)

retain-retain :
    (p q : Text × ℤ → Bool) (xs : List (Text × ℤ))
    → retain p (retain q xs) ≡ retain (λ x. p x && q x) xs
retain-retain p q [] = refl
retain-retain p q (x ∷ xs) = ground (arith, retain-retain p q xs)

retain-twice : (p : Text × ℤ → Bool) (xs : List (Text × ℤ)) → retain p (retain p xs) ≡ retain p xs
retain-twice p [] = refl
retain-twice p (x ∷ xs) = ground (arith, retain-twice p xs)

-- What an indicator for a conversation makes of the users that are listed in any conversation:
-- there, the sender's entry is taken out, a new one is put at the end if the sender types, and what
-- has expired is dropped; elsewhere nothing changes. An indicator without a recipient is ignored.
pub receive_indicator_lem :
    (h : TypingHandler) (i : TypingIndicator) (r : Recipient) (now : ℤ) (other : Text)
    → (i.recipient ≡ none → receive_indicator h i now ≡ h)
      × (i.recipient ≡ some r
          → users_of (receive_indicator h i now).typing_states other ≡ (
              if key_of r == other
              then retain (is_fresh h.timeout_ms now) (
                  retain (is_other i.sender_did) (users_of h.typing_states other)
                  ++ (if i.is_typing then (i.sender_did, i.timestamp) ∷ [] else []))
              else users_of h.typing_states other))
unfolding receive_indicator cleanup_expired
receive_indicator_lem h i r now other = (
  λ e. rw (e, receive_indicator) refl,
  λ e.
      rw (e, receive_indicator)
        (ground (
          arith,
          users_of-shrink (is_fresh h.timeout_ms now) (key_of r) other
              (note_sender (key_of r) i h.typing_states),
          users_of-note_sender (key_of r) other i h.typing_states,
          list_beq_iff (key_of r) other,
        )),
)

get_typing_users_lem :
    (h : TypingHandler) (key : Text) (now : ℤ)
    → (get_typing_users h key now).1
      ≡ names (retain (is_fresh h.timeout_ms now) (users_of h.typing_states key))
unfolding get_typing_users cleanup_expired
get_typing_users_lem h key now = ap names (
    ground (
      arith,
      users_of-shrink (is_fresh h.timeout_ms now) key key h.typing_states,
      list_beq_iff key key,
    ))

receive_indicator-timeout :
    (h : TypingHandler) (i : TypingIndicator) (now : ℤ)
    → (receive_indicator h i now).timeout_ms ≡ h.timeout_ms
unfolding receive_indicator cleanup_expired
receive_indicator-timeout h i now = ground arith

contains-received :
    (a : Text) (t : ℤ) (typing : Bool) (p q : Text × ℤ → Bool) (us : List (Text × ℤ))
    → contains a (
        names
          (retain p (retain q (retain (is_other a) us ++ (if typing then (a, t) ∷ [] else [])))))
      ≡ (typing && (p (a, t) && q (a, t)))
contains-received a t true p q us = rw (retain-retain p q (retain (is_other a) us ++ (a, t) ∷ [])) (
    contains-retain_append a (λ x. p x && q x) t (retain (is_other a) us)
      (contains-retain-is_other a us))
contains-received a t false p q us = rw (append_nil (retain (is_other a) us)) (
    contains-retain a p (retain q (retain (is_other a) us))
      (contains-retain a q (retain (is_other a) us) (contains-retain-is_other a us)))

-- After an indicator for a conversation has come in, its sender is listed as typing there exactly
-- when the indicator says so and its time is fresh at its arrival and when the list is read.
pub receive-get_typing_users :
    (h : TypingHandler) (i : TypingIndicator) (r : Recipient) (now later : ℤ)
    → i.recipient ≡ some r
    → contains i.sender_did (get_typing_users (receive_indicator h i now) (key_of r) later).1 ≡ (
        i.is_typing
        && (is_fresh h.timeout_ms later (i.sender_did, i.timestamp)
            && is_fresh h.timeout_ms now (i.sender_did, i.timestamp)))
receive-get_typing_users h i r now later e =
    rw
      (
        get_typing_users_lem (receive_indicator h i now) (key_of r) later,
        receive_indicator-timeout h i now,
        (receive_indicator_lem h i r now (key_of r)).1 e,
        (list_beq_iff (key_of r) (key_of r)).1 refl,
      )
      (contains-received i.sender_did i.timestamp i.is_typing (is_fresh h.timeout_ms later)
        (is_fresh h.timeout_ms now) (users_of h.typing_states (key_of r)))

cleanup_keys_lem :
    (h : TypingHandler) (keys : List Text) (key : Text) (now : ℤ)
    → users_of (cleanup_keys h keys now).typing_states key ≡ (
        if contains key keys
        then retain (is_fresh h.timeout_ms now) (users_of h.typing_states key)
        else users_of h.typing_states key)
unfolding cleanup_keys contains cleanup_expired
cleanup_keys_lem h [] key now = refl
cleanup_keys_lem h (k ∷ keys) key now = ground (
  arith,
  cleanup_keys_lem (cleanup_expired h k now) keys key now,
  users_of-shrink (is_fresh h.timeout_ms now) k key h.typing_states,
  retain-twice (is_fresh h.timeout_ms now) (users_of h.typing_states key),
)

unlisted :
    (key : Text) (m : Map Text (List (Text × ℤ)))
    → contains key (map (λ e. e.0) m) ≡ false
    → users_of m key ≡ []
unfolding users_of contains Map.get
unlisted key [] h = refl
unlisted key ((k, us) ∷ m) h = ground (arith, unlisted key m)

-- The periodic cleanup leaves in every conversation exactly the users whose entry is fresh.
pub cleanup_all_expired_lem :
    (h : TypingHandler) (key : Text) (now : ℤ)
    → users_of (cleanup_all_expired h now).typing_states key
      ≡ retain (is_fresh h.timeout_ms now) (users_of h.typing_states key)
unfolding cleanup_all_expired
cleanup_all_expired_lem h key now =
    elim (Bool-cases (contains key (map (λ e. e.0) h.typing_states))) [
      | inl e ↦ rw (cleanup_keys_lem h (map (λ e. e.0) h.typing_states) key now, e) refl
      | inr e ↦
          rw
            (
              cleanup_keys_lem h (map (λ e. e.0) h.typing_states) key now,
              e,
              unlisted key h.typing_states e,
            )
            refl
    ]
