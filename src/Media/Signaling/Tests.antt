-- ===== src/Media/Signaling/Tests.antt =====
-- Signaling between two concrete users, over the scheme `toy`.
use variance.Crypto.{toy}
use variance.Prelude.{
  ℕ, List, [], ◌∷◌, none, some, ◌≡◌, ◌≢◌, ◌⊎◌, refl, arith, length, replicate, ok, list_beq,
  list_eq, nat_eq, true, false,
}
use variance.Prelude.Int.{pos}
use variance.Prelude.Map
use variance.Media.Proto.{Message, answer, IceCandidate, CallControl, SignalingMessage}
use variance.Media.Signaling.{
  SignalingHandler, create_signaling_message, verify_message, seen, nonces_of,
}
use variance.Media.Signaling.Replay.{
  verify_message_lem, run-no_replay, verify_message-create, run, Event, verifies, purges,
}

abbrev alice : SignalingHandler toy
alice = record { local_did = 1 ∷ []; signing_key = 5; seen_nonces = [] }

abbrev bob : SignalingHandler toy
bob = record { local_did = 2 ∷ []; signing_key = 6; seen_nonces = [] }

abbrev nonce : List ℕ
nonce = replicate 16 9

abbrev reply : Message
reply = answer (record { sdp = 3 ∷ [] })

-- What Alice sends to Bob.
abbrev sent : SignalingMessage
sent = record {
  call_id = 7 ∷ [];
  sender_did = 1 ∷ [];
  recipient_did = 2 ∷ [];
  message = some reply;
  timestamp = pos 100;
  signature = replicate 64 5;
  nonce = nonce;
}

sent_is_created : create_signaling_message toy alice (7 ∷ []) (2 ∷ []) reply (pos 100) nonce ≡ sent
unfolding create_signaling_message
sent_is_created = refl

accepted : (verify_message toy bob sent 5).1 ≡ ok tt
unfolding verify_message list_beq Map.get
accepted = refl

abbrev ice : IceCandidate
ice = record { candidate = 4 ∷ []; sdp_mid = 0 ∷ []; sdp_m_line_index = some 0 }

abbrev hangup : CallControl
hangup = record { type = 4; reason = none }

verify_message_lem_example :
    let (h', result) = verify_message toy bob sent 5 in
    let good =
      (length sent.nonce ≡ 16)
      × (length sent.signature ≡ 64)
      × (list_beq sent.signature (replicate 64 5) ≡ true)
      × (seen sent.nonce (nonces_of toy bob sent.call_id) ≡ false) in
    ((result ≡ ok tt)
      × good
      × (nonces_of toy h' sent.call_id ≡ sent.nonce ∷ nonces_of toy bob sent.call_id))
    ⊎ ((result ≢ ok tt) × (¬ good) × (h' ≡ bob))
verify_message_lem_example = verify_message_lem toy bob sent 5

abbrev events : List (Event toy)
events = verifies sent 6 ∷ purges (8 ∷ []) ∷ []

-- Bob has accepted the message, has seen it under a wrong key, and has purged another call.
run-no_replay_example :
    ((verify_message toy (run toy (verify_message toy bob sent 5).0 events) sent 5).1 ≢ ok tt)
    × ((verify_message toy (run toy (verify_message toy bob sent 5).0 events) sent 5).0
        ≡ run toy (verify_message toy bob sent 5).0 events)
run-no_replay_example =
    run-no_replay toy bob sent sent 5 5 events accepted (tt, (ground arith, tt)) refl refl

verify_message-create_example :
    (verify_message toy bob
      (create_signaling_message toy alice (7 ∷ []) (2 ∷ []) reply (pos 100) nonce)
      5).1
    ≡ ok tt
unfolding seen nonces_of Map.get
verify_message-create_example =
    verify_message-create toy alice bob (7 ∷ []) (2 ∷ []) reply (pos 100) nonce refl refl
