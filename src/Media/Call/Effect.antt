-- ===== src/Media/Call/Effect.antt =====
-- What a request may do to the call manager: nothing, file a ringing call, change one call in
-- place, or take one call out.
use variance.Prelude.{
  Text, [], ◌∷◌, none, some, Option-cases, Bool, Bool-cases, ◌≡◌, ◌⊎◌, inl, inr, refl, true, false,
  arith, Result, Result-cases, ok, err, list_eq, nat_eq,
}
use variance.Prelude.Int.{ℤ}
use variance.Prelude.Map
use variance.Media.Proto.{
  CallType, CallStatus, ringing, connecting, active, ended, failed, is_ringing, is_connecting,
  is_over,
}
use variance.Media.WebRtc.{WebRtc, PeerState, status_of_peer}
use variance.Media.Errors.{Error}
use variance.Media.Call.{
  Call, CallManager, put, drop_call, accept_call, activate_call, reject_call, end_call, fail_call,
  register_incoming_call, on_peer_connection_state_change, close_if_present, mark_status,
  create_call,
}
use variance.Media.Call.Negotiation.{
  settle, create_offer_for, handle_offer, handle_answer, handle_ice_candidate, negotiate_offer,
  negotiate_answer, accept_answer, add_candidate,
}
use variance.Media.Call.Steps.{
  Request, creates, registers, accepts, activates, rejects, ends, fails, offers, takes_offer,
  takes_answer, takes_candidate, peer_changes, step,
}

-- The requests that come from the peer connection and not from the program.
abbrev pub is_peer_event : Request → Bool
is_peer_event (peer_changes id state now) = true
is_peer_event _ = false

is_ringing_iff : (s : CallStatus) → is_ringing s ≡ true → s ≡ ringing
is_ringing_iff s h = ground arith

is_connecting_iff : (s : CallStatus) → is_connecting s ≡ true → s ≡ connecting
is_connecting_iff s h = ground arith

status_of_peer_cases :
    (state : PeerState) (s : CallStatus)
    → status_of_peer state ≡ some s
    → (s ≡ active) ⊎ ((s ≡ ended) ⊎ (s ≡ failed))
unfolding status_of_peer
status_of_peer_cases state s h = ground arith

module _ {P : Type 0} where
  -- The change of one call's status and end time.
  pub data Progress (r : Request) (c d : Call P) : Type 0 where
    stays : d.status ≡ c.status → d.ended_at ≡ c.ended_at → Progress r c d
    connects : c.status ≡ ringing → d.status ≡ connecting → Progress r c d
    answers : c.status ≡ connecting → d.status ≡ active → Progress r c d
    finishes : (now : ℤ) → is_over d.status ≡ true → d.ended_at ≡ some now → Progress r c d
    revives : is_peer_event r ≡ true → d.status ≡ active → Progress r c d

  abbrev pub IsPair : Text → Call P → Type 0
  IsPair did c =
      (other : Text) × ((c.participants ≡ did ∷ other ∷ []) ⊎ (c.participants ≡ other ∷ did ∷ []))

  abbrev pub IsFresh : CallManager P → Request → Type 0
  IsFresh m (creates id did kind now) = Map.get id m.calls ≡ none
  IsFresh m _ = Unit {0}

  pub data Effect (m : CallManager P) (r : Request) (n : CallManager P) : Type 0 where
    idle : n ≡ m → Effect m r n
    files :
        (id : Text) (c : Call P)
        → (IsFresh m r → Map.get id m.calls ≡ none)
        → c.id ≡ id
        → IsPair m.local_did c
        → c.status ≡ ringing
        → n ≡ put m id c
        → Effect m r n
    changes :
        (id : Text) (c d : Call P)
        → Map.get id m.calls ≡ some c
        → d.id ≡ c.id
        → d.participants ≡ c.participants
        → Progress r c d
        → n ≡ put m id d
        → Effect m r n
    leaves :
        (id : Text) (c d : Call P)
        → Map.get id m.calls ≡ some c
        → n ≡ drop_call (put m id d) id
        → Effect m r n

  create_call-Effect :
      (m : CallManager P) (id did : Text) (kind : CallType) (now : ℤ)
      → Effect m (creates id did kind now) (create_call m id did kind now).0
  unfolding create_call
  create_call-Effect m id did kind now = files id _ (λ fresh. fresh) refl (did, inl refl) refl refl

  register-Effect :
      (m : CallManager P) (id did : Text) (kind : CallType) (now : ℤ)
      → Effect m (registers id did kind now) (register_incoming_call m id did kind now).0
  unfolding register_incoming_call Map.contains_key
  register-Effect m id did kind now = elim (Option-cases (Map.get id m.calls)) [
    | inl e ↦
        rw (e, register_incoming_call, Map.contains_key)
          (files id _ (λ _. e) refl (did, inr refl) refl refl)
    | inr (c, e) ↦ rw (e, register_incoming_call, Map.contains_key) (idle refl)
  ]

  accept_call-Effect : (m : CallManager P) (id : Text) → Effect m (accepts id) (accept_call m id).0
  unfolding accept_call
  accept_call-Effect m id = elim (Option-cases (Map.get id m.calls)) [
    | inl e ↦ rw (e, accept_call) (idle refl)
    | inr (c, e) ↦ elim (Bool-cases (is_ringing c.status)) [
      | inl rings ↦
          rw (e, accept_call)
            (rw (rings)
              (changes id c _ e refl refl (connects (is_ringing_iff c.status rings) refl) refl))
      | inr other ↦ rw (e, accept_call) (rw other (idle refl))
    ]
  ]

  activate_call-Effect :
      (m : CallManager P) (id : Text) → Effect m (activates id) (activate_call m id).0
  unfolding activate_call
  activate_call-Effect m id = elim (Option-cases (Map.get id m.calls)) [
    | inl e ↦ rw (e, activate_call) (idle refl)
    | inr (c, e) ↦ elim (Bool-cases (is_connecting c.status)) [
      | inl joins ↦
          rw (e, activate_call)
            (rw joins
              (changes id c _ e refl refl (answers (is_connecting_iff c.status joins) refl) refl))
      | inr other ↦ rw (e, activate_call) (rw other (idle refl))
    ]
  ]

  reject_call-Effect :
      (m : CallManager P) (id : Text) (now : ℤ) → Effect m (rejects id now) (reject_call m id now).0
  unfolding reject_call
  reject_call-Effect m id now = elim (Option-cases (Map.get id m.calls)) [
    | inl e ↦ rw (e, reject_call) (idle refl)
    | inr (c, e) ↦ elim (Bool-cases (is_ringing c.status)) [
      | inl rings ↦ rw (e, reject_call) (rw rings (leaves id c _ e refl))
      | inr other ↦ rw (e, reject_call) (rw other (idle refl))
    ]
  ]

  fail_call-Effect :
      (m : CallManager P) (id : Text) (now : ℤ) → Effect m (fails id now) (fail_call m id now).0
  unfolding fail_call
  fail_call-Effect m id now = elim (Option-cases (Map.get id m.calls)) [
    | inl e ↦ rw (e, fail_call) (idle refl)
    | inr (c, e) ↦ rw (e, fail_call) (leaves id c _ e refl)
  ]

  end_call-Effect :
      (close : P → Result Text (Unit {0})) (m : CallManager P) (id : Text) (now : ℤ)
      → Effect m (ends id now) (end_call close m id now).0
  unfolding end_call
  end_call-Effect close m id now = elim (Option-cases (Map.get id m.calls)) [
    | inl e ↦ rw (e, end_call) (idle refl)
    | inr (c, e) ↦ elim (Result-cases (close_if_present close c.peer_connection)) [
      | inl (u, closed) ↦ rw (e, end_call) (rw (closed, end_call) (leaves id c _ e refl))
      | inr (x, broken) ↦
          rw (e, end_call)
            (rw (broken, end_call) (changes id c _ e refl refl (finishes now refl refl) refl))
    ]
  ]

  mark_status-Effect :
      (m : CallManager P) (id : Text) (state : PeerState) (s : CallStatus) (c : Call P) (now : ℤ)
      → status_of_peer state ≡ some s
      → Map.get id m.calls ≡ some c
      → Effect m (peer_changes id state now) (put m id (mark_status s now c))
  unfolding mark_status
  mark_status-Effect m id state s c now e f = elim (status_of_peer_cases state s e) [
    | inl live ↦ rw live (changes id c _ f refl refl (revives refl refl) refl)
    | inr (inl done) ↦ rw done (changes id c _ f refl refl (finishes now refl refl) refl)
    | inr (inr lost) ↦ rw lost (changes id c _ f refl refl (finishes now refl refl) refl)
  ]

  peer_changes-Effect :
      (m : CallManager P) (id : Text) (state : PeerState) (now : ℤ)
      → Effect m (peer_changes id state now) (on_peer_connection_state_change m id state now).0
  unfolding on_peer_connection_state_change
  peer_changes-Effect m id state now = elim (Option-cases (status_of_peer state)) [
    | inl e ↦ rw (e, on_peer_connection_state_change) (idle refl)
    | inr (s, e) ↦ elim (Option-cases (Map.get id m.calls)) [
      | inl f ↦
          rw (e, on_peer_connection_state_change)
            (rw (f, on_peer_connection_state_change) (idle refl))
      | inr (c, f) ↦
          rw (e, on_peer_connection_state_change)
            (rw (f, on_peer_connection_state_change) (mark_status-Effect m id state s c now e f))
    ]
  ]

-- A negotiation keeps the call's status, whatever its outcome.
settle-Effect :
    (w : WebRtc) {A : Type 0} (m : CallManager w.Connection) (r : Request) (id : Text)
    (c : Call w.Connection) (outcome : Result Error (w.Connection × A))
    → Map.get id m.calls ≡ some c
    → Effect m r (settle w m id c outcome).0
unfolding settle
settle-Effect w m r id c (ok (pc, a)) e = changes id c _ e refl refl (stays refl refl) refl
settle-Effect w m r id c (err x) e = idle refl

module _ (w : WebRtc) where
  open w use {Connection, close}

  negotiation-Effect :
      (m : CallManager Connection) (r : Request) (id : Text)
      → ((c : Call Connection) → Map.get id m.calls ≡ some c → Effect m r (step w m r))
      → (Map.get id m.calls ≡ none → step w m r ≡ m)
      → Effect m r (step w m r)
  negotiation-Effect m r id found missing = elim (Option-cases (Map.get id m.calls)) [
    | inl e ↦ idle (missing e)
    | inr (c, e) ↦ found c e
  ]

  -- Every request has one of the four effects.
  pub step-Effect : (m : CallManager Connection) (r : Request) → Effect m r (step w m r)
  unfolding step create_offer_for handle_offer handle_answer handle_ice_candidate
  step-Effect m (creates id did kind now) = create_call-Effect m id did kind now
  step-Effect m (registers id did kind now) = register-Effect m id did kind now
  step-Effect m (accepts id) = accept_call-Effect m id
  step-Effect m (activates id) = activate_call-Effect m id
  step-Effect m (rejects id now) = reject_call-Effect m id now
  step-Effect m (ends id now) = end_call-Effect close m id now
  step-Effect m (fails id now) = fail_call-Effect m id now
  step-Effect m (offers id) =
      negotiation-Effect m (offers id) id
        (λ c e. rw (e, step, create_offer_for) (settle-Effect w m _ id c (negotiate_offer w m) e))
        (λ e. rw (e, step, create_offer_for))
  step-Effect m (takes_offer id sdp) =
      negotiation-Effect m (takes_offer id sdp) id
        (λ c e. rw (e, step, handle_offer) (settle-Effect w m _ id c (negotiate_answer w m sdp) e))
        (λ e. rw (e, step, handle_offer))
  step-Effect m (takes_answer id sdp) =
      negotiation-Effect m (takes_answer id sdp) id
        (λ c e. rw (e, step, handle_answer) (settle-Effect w m _ id c (accept_answer w c sdp) e))
        (λ e. rw (e, step, handle_answer))
  step-Effect m (takes_candidate id candidate mid index) =
      negotiation-Effect m (takes_candidate id candidate mid index) id
        (λ c e.
          rw (e, step, handle_ice_candidate)
            (settle-Effect w m _ id c (add_candidate w c candidate mid index) e))
        (λ e. rw (e, step, handle_ice_candidate))
  step-Effect m (peer_changes id state now) = peer_changes-Effect m id state now
