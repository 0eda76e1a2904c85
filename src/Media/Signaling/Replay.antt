-- ===== src/Media/Signaling/Replay.antt =====
-- Acceptance, refusal and replay of signaling messages.
use variance.Crypto.{Ed25519}
use variance.Prelude.{
  ℕ, Text, List, [], ◌∷◌, Option, none, some, true, false, ◌≡◌, refl, ◌≢◌, ◌⊎◌, inl, inr, arith,
  length, eq_self, list_eq, nat_eq, ok, All, list_beq_iff,
}
use variance.Prelude.Int.{ℤ}
use variance.Prelude.Map
use variance.Media.Proto.{Message, offer, answer, ice_candidate, control, SignalingMessage}
use variance.Media.Signaling.{
  SignalingHandler, payload_data, verified_payload, signing_data, verified_data, seen, nonces_of,
  note_nonce, verify_message, purge_call_nonces, create_signaling_message,
}

-- What is verified are the bytes that are signed.
same_payload : (m : Option Message) → verified_payload m ≡ payload_data m
unfolding verified_payload payload_data
same_payload none = refl
same_payload (some (offer o)) = refl
same_payload (some (answer a)) = refl
same_payload (some (ice_candidate i)) = refl
same_payload (some (control c)) = refl

pub verified_data-signing_data : (m : SignalingMessage) → verified_data m ≡ signing_data m
unfolding verified_data signing_data
verified_data-signing_data m = rw (verified_data, same_payload m.message) refl

module _ (crypto : Ed25519) where
  open crypto use {VerifyingKey, verify, verifying_key, length-sign, verify-sign, SigningKey}

  -- A message is accepted exactly when its nonce has 16 bytes, its signature has 64 bytes and is
  -- the key's over the signed bytes, and its nonce is new to the call; the nonce is then noted, and
  -- every other message leaves the handler as it was.
  pub verify_message_lem :
      (h : SignalingHandler crypto) (m : SignalingMessage) (key : VerifyingKey)
      → let (h', result) = verify_message crypto h m key in
        let good =
          (length m.nonce ≡ 16)
          × (length m.signature ≡ 64)
          × (verify key (signing_data m) m.signature ≡ true)
          × (seen m.nonce (nonces_of crypto h m.call_id) ≡ false) in
        ((result ≡ ok tt)
          × good
          × (nonces_of crypto h' m.call_id ≡ m.nonce ∷ nonces_of crypto h m.call_id))
        ⊎ ((result ≢ ok tt) × (¬ good) × (h' ≡ h))
  unfolding verify_message
  verify_message_lem h m key = ground (
    arith,
    verified_data-signing_data m,
    Map.get-insert_self m.call_id (m.nonce ∷ nonces_of crypto h m.call_id) h.seen_nonces,
  )

  pub data Event : Type 0 where
    verifies : SignalingMessage → VerifyingKey → Event
    purges : Text → Event

  unfoldable pub after : SignalingHandler crypto → Event → SignalingHandler crypto
  after h (verifies m key) = (verify_message crypto h m key).0
  after h (purges call_id) = purge_call_nonces crypto h call_id

  unfoldable pub run : SignalingHandler crypto → List Event → SignalingHandler crypto
  run h [] = h
  run h (e ∷ es) = run (after h e) es

  -- The event does not forget the nonces of the call.
  abbrev pub Keeps : Text → Event → Type 0
  Keeps call_id (verifies m key) = Unit {0}
  Keeps call_id (purges other) = other ≢ call_id

  abbrev Noted : SignalingHandler crypto → Text → List ℕ → Type 0
  Noted h call_id nonce = seen nonce (nonces_of crypto h call_id) ≡ true

  note_nonce-Noted :
      (h : SignalingHandler crypto) (m : SignalingMessage) (call_id : Text) (nonce : List ℕ)
      → Noted h call_id nonce
      → Noted (note_nonce crypto h m).0 call_id nonce
  unfolding note_nonce
  note_nonce-Noted h m call_id nonce noted = ground (
    arith,
    list_beq_iff m.call_id call_id,
    Map.get-insert m.call_id call_id (m.nonce ∷ nonces_of crypto h m.call_id) h.seen_nonces,
  )

  verify_message-Noted :
      (h : SignalingHandler crypto) (m : SignalingMessage) (key : VerifyingKey) (call_id : Text)
      (nonce : List ℕ)
      → Noted h call_id nonce
      → Noted (verify_message crypto h m key).0 call_id nonce
  unfolding verify_message
  verify_message-Noted h m key call_id nonce noted =
      ground (arith, note_nonce-Noted h m call_id nonce noted)

  after-Noted :
      (h : SignalingHandler crypto) (e : Event) (call_id : Text) (nonce : List ℕ)
      → Keeps call_id e
      → Noted h call_id nonce
      → Noted (after h e) call_id nonce
  unfolding after purge_call_nonces nonces_of
  after-Noted h (verifies m key) call_id nonce k noted =
      verify_message-Noted h m key call_id nonce noted
  after-Noted h (purges other) call_id nonce k noted =
      rw (after, purge_call_nonces, nonces_of, Map.get-remove_ne other call_id h.seen_nonces k)
        noted

  run-Noted :
      (h : SignalingHandler crypto) (es : List Event) (call_id : Text) (nonce : List ℕ)
      → All (Keeps call_id) es
      → Noted h call_id nonce
      → Noted (run h es) call_id nonce
  unfolding run
  run-Noted h [] call_id nonce k noted = noted
  run-Noted h (e ∷ es) call_id nonce k noted =
      run-Noted (after h e) es call_id nonce k.1 (after-Noted h e call_id nonce k.0 noted)

  verify_message-notes_nonce :
      (h : SignalingHandler crypto) (m : SignalingMessage) (key : VerifyingKey)
      → (verify_message crypto h m key).1 ≡ ok tt
      → Noted (verify_message crypto h m key).0 m.call_id m.nonce
  unfolding seen
  verify_message-notes_nonce h m key accepted = elim (verify_message_lem h m key) [
    | inl (_, _, e) ↦ rw e (ground (arith, eq_self m.nonce))
    | inr (refused, _, _) ↦ absurd (refused accepted)
  ]

  Noted-not_new :
      (h : SignalingHandler crypto) (m n : SignalingMessage)
      → n.call_id ≡ m.call_id
      → n.nonce ≡ m.nonce
      → Noted h m.call_id m.nonce
      → seen n.nonce (nonces_of crypto h n.call_id) ≢ false
  Noted-not_new h m n call nonce noted new = cc (rw (call, nonce) at new)

  -- Once a message has been accepted, and whatever is verified afterwards and whichever other calls
  -- are purged, no message with the same call and nonce is accepted, and the attempt changes
  -- nothing.
  pub run-no_replay :
      (h : SignalingHandler crypto) (m n : SignalingMessage) (key other : VerifyingKey)
      (es : List Event)
      → (verify_message crypto h m key).1 ≡ ok tt
      → All (Keeps m.call_id) es
      → n.call_id ≡ m.call_id
      → n.nonce ≡ m.nonce
      → let later = run (verify_message crypto h m key).0 es in
        ((verify_message crypto later n other).1 ≢ ok tt)
        × ((verify_message crypto later n other).0 ≡ later)
  run-no_replay h m n key other es accepted keeps call nonce =
      let later = run (verify_message crypto h m key).0 es in
      let noted : Noted later m.call_id m.nonce =
        run-Noted _ es m.call_id m.nonce keeps (verify_message-notes_nonce h m key accepted) in
      elim (verify_message_lem later n other) [
        | inl (_, good, _) ↦ absurd (Noted-not_new later m n call nonce noted good.3)
        | inr (refused, _, same) ↦ (refused, same)
      ]

  -- What one handler creates with a fresh nonce of 16 bytes, another accepts under the creator's
  -- key.
  pub verify_message-create :
      (sender receiver : SignalingHandler crypto) (call_id recipient : Text) (body : Message)
      (now : ℤ) (nonce : List ℕ)
      → length nonce ≡ 16
      → seen nonce (nonces_of crypto receiver call_id) ≡ false
      → let m = create_signaling_message crypto sender call_id recipient body now nonce in
        (verify_message crypto receiver m (verifying_key sender.signing_key)).1 ≡ ok tt
  unfolding create_signaling_message verify_message
  verify_message-create sender receiver call_id recipient body now nonce size fresh =
      let m = create_signaling_message crypto sender call_id recipient body now nonce in
      ground (
        arith,
        verified_data-signing_data m,
        length-sign sender.signing_key (signing_data m),
        verify-sign sender.signing_key (signing_data m),
      )
