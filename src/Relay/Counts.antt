-- ===== src/Relay/Counts.antt =====
-- The counters agree with the reservations that the peers hold.
use variance.Prelude.{
  ℕ, ◌+◌, ◌^◌, ◌≡◌, ◌≢◌, ◌≤◌, ◌<◌, refl, Text, List, [], ◌∷◌, arith, length, Option-cases, inl, inr,
  list_eq, nat_eq,
}
use variance.Prelude.Map
use variance.Prelude.Map.{Map}
use variance.Relay.{
  RelayStats, SwarmEvent, relay, reservation_timed_out_of, connection_closed,
  reservation_req_accepted, reservation_req_denied, circuit_req_accepted, circuit_req_denied,
  circuit_closed, other_event, increment, reservations_of, reservation_accepted,
  reservation_timed_out, peer_disconnected, handle_relay_event, handle_swarm_event, run_events,
  new_stats,
}
use variance.Relay.Held.{
  held, AreUnique, insert-AreUnique, remove-AreUnique, release-AreUnique, held-insert, held-remove,
  held-release, reservations_of-le_held, reservations_of_lem,
}

increment_exact : (n : ℕ) → n + 1 < 2 ^ 64 → increment n ≡ n + 1
unfolding increment
increment_exact n h = ground arith

-- What holds after n events.
abbrev pub AreBounded : ℕ → RelayStats → Type 0
AreBounded n s =
    AreUnique s.peer_reservations
    × (s.active_reservations ≤ held s.peer_reservations)
    × (held s.peer_reservations ≤ s.total_reservations)
    × (s.total_reservations ≤ n)
    × (s.active_circuits ≤ s.total_circuits)
    × (s.total_circuits ≤ n)

accepted-AreBounded :
    (n : ℕ) (s : RelayStats) (peer : Text)
    → n + 1 < 2 ^ 64
    → AreBounded n s
    → AreBounded (n + 1) (reservation_accepted s peer)
unfolding reservation_accepted
accepted-AreBounded n s peer small h =
    let count = reservations_of peer s.peer_reservations in
    ground (
      arith,
      insert-AreUnique peer (increment count) s.peer_reservations h.0,
      increment_exact s.active_reservations,
      increment_exact s.total_reservations,
      increment_exact count,
      held-insert peer (increment count) s.peer_reservations,
      reservations_of-le_held peer s.peer_reservations,
    )

timed_out-AreBounded :
    (n : ℕ) (s : RelayStats) (peer : Text)
    → AreBounded n s
    → AreBounded (n + 1) (reservation_timed_out s peer)
unfolding reservation_timed_out
timed_out-AreBounded n s peer h = ground (
  arith,
  release-AreUnique peer s.peer_reservations h.0,
  held-release peer s.peer_reservations h.0,
)

disconnected-AreBounded :
    (n : ℕ) (s : RelayStats) (peer : Text)
    → AreBounded n s
    → AreBounded (n + 1) (peer_disconnected s peer)
unfolding peer_disconnected
disconnected-AreBounded n s peer h = elim (Option-cases (Map.get peer s.peer_reservations)) [
  | inl e ↦ rw (e, peer_disconnected) (ground arith)
  | inr (c, e) ↦
      rw (e, peer_disconnected)
        (ground (
          arith,
          remove-AreUnique peer s.peer_reservations h.0,
          held-remove peer s.peer_reservations h.0,
          (reservations_of_lem peer s.peer_reservations).1 c e,
        ))
]

event-AreBounded :
    (n : ℕ) (s : RelayStats) (e : SwarmEvent)
    → n + 1 < 2 ^ 64
    → AreBounded n s
    → AreBounded (n + 1) (handle_swarm_event e s)
unfolding handle_swarm_event handle_relay_event
event-AreBounded n s (relay (reservation_req_accepted peer)) small h =
    accepted-AreBounded n s peer small h
event-AreBounded n s (relay (reservation_req_denied peer)) small h = ground arith
event-AreBounded n s (relay (reservation_timed_out_of peer)) small h =
    timed_out-AreBounded n s peer h
event-AreBounded n s (relay (circuit_req_accepted src dst)) small h =
    ground (arith, increment_exact s.active_circuits, increment_exact s.total_circuits)
event-AreBounded n s (relay (circuit_req_denied src dst)) small h = ground arith
event-AreBounded n s (relay (circuit_closed src dst)) small h = ground arith
event-AreBounded n s (relay other_event) small h = ground arith
event-AreBounded n s (connection_closed peer num_established) small h =
    ground (arith, disconnected-AreBounded n s peer h)

run-AreBounded :
    (n : ℕ) (s : RelayStats) (es : List SwarmEvent)
    → n + length es < 2 ^ 64
    → AreBounded n s
    → AreBounded (n + length es) (run_events s es)
unfolding run_events
run-AreBounded n s [] small h = ground arith
run-AreBounded n s (e ∷ es) small h =
    ground (arith, run-AreBounded (n + 1) (handle_swarm_event e s) es, event-AreBounded n s e)

-- From the start, and for fewer than 2 ^ 64 events, the active reservations are no more than those
-- that the peers hold, which are no more than were ever accepted, and the active circuits are no
-- more than were ever accepted.
pub run_events-bounds :
    (es : List SwarmEvent)
    → length es < 2 ^ 64
    → ((run_events new_stats es).active_reservations
        ≤ held (run_events new_stats es).peer_reservations)
      × (held (run_events new_stats es).peer_reservations
          ≤ (run_events new_stats es).total_reservations)
      × ((run_events new_stats es).active_circuits ≤ (run_events new_stats es).total_circuits)
unfolding new_stats held
run_events-bounds es small = ground (arith, run-AreBounded 0 new_stats es (omega arith))

disconnected-held :
    (s : RelayStats) (peer : Text)
    → AreUnique s.peer_reservations
    → s.active_reservations ≡ held s.peer_reservations
    → (peer_disconnected s peer).active_reservations
      ≡ held (peer_disconnected s peer).peer_reservations
unfolding peer_disconnected
disconnected-held s peer h same = elim (Option-cases (Map.get peer s.peer_reservations)) [
  | inl e ↦ rw (e, peer_disconnected) same
  | inr (c, e) ↦
      rw (e, peer_disconnected)
        (ground (
          arith,
          held-remove peer s.peer_reservations h,
          (reservations_of_lem peer s.peer_reservations).1 c e,
        ))
]

-- Where the active reservations are those that the peers hold, they stay so on every event but the
-- time-out of a reservation of a peer that holds none, for a state within the bounds (AreBounded)
-- of n events, where n + 1 is below 2 ^ 64.
pub event-held :
    (n : ℕ) (s : RelayStats) (e : SwarmEvent)
    → n + 1 < 2 ^ 64
    → AreBounded n s
    → s.active_reservations ≡ held s.peer_reservations
    → ((peer : Text)
        → e ≡ relay (reservation_timed_out_of peer)
        → reservations_of peer s.peer_reservations ≢ 0)
    → (handle_swarm_event e s).active_reservations ≡ held (handle_swarm_event e s).peer_reservations
unfolding handle_swarm_event handle_relay_event reservation_accepted reservation_timed_out
event-held n s (relay (reservation_req_accepted peer)) small h same known =
    let count = reservations_of peer s.peer_reservations in
    ground (
      arith,
      increment_exact s.active_reservations,
      increment_exact count,
      held-insert peer (increment count) s.peer_reservations,
      reservations_of-le_held peer s.peer_reservations,
    )
event-held n s (relay (reservation_req_denied peer)) small h same known = same
event-held n s (relay (reservation_timed_out_of peer)) small h same known =
    ground (arith, held-release peer s.peer_reservations h.0, known peer refl)
event-held n s (relay (circuit_req_accepted src dst)) small h same known = same
event-held n s (relay (circuit_req_denied src dst)) small h same known = same
event-held n s (relay (circuit_closed src dst)) small h same known = same
event-held n s (relay other_event) small h same known = same
event-held n s (connection_closed peer num_established) small h same known =
    ground (arith, disconnected-held s peer h.0 same)
