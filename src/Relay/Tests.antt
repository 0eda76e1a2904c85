-- ===== src/Relay/Tests.antt =====
-- Two peers with three reservations.
use variance.Prelude.{◌≡◌, ◌≤◌, refl, arith, List, [], ◌∷◌, list_beq}
use variance.Prelude.Map
use variance.Relay.{
  RelayStats, SwarmEvent, relay, connection_closed, reservation_req_accepted,
  reservation_timed_out_of, circuit_req_accepted, run_events, handle_swarm_event,
  handle_relay_event, new_stats, increment, reservations_of, reservation_accepted,
  reservation_timed_out, release, peer_disconnected,
}
use variance.Relay.Held.{held}
use variance.Relay.Counts.{run_events-bounds, event-held}

abbrev events : List SwarmEvent
events =
    relay (reservation_req_accepted (1 ∷ []))
    ∷ relay (reservation_req_accepted (1 ∷ []))
    ∷ relay (reservation_req_accepted (2 ∷ []))
    ∷ relay (circuit_req_accepted (1 ∷ []) (2 ∷ []))
    ∷ relay (reservation_timed_out_of (1 ∷ []))
    ∷ connection_closed (1 ∷ []) 0
    ∷ []

one_is_left : run_events new_stats events ≡ record {
  active_reservations = 1;
  active_circuits = 1;
  total_reservations = 3;
  total_circuits = 1;
  denied_reservations = 0;
  denied_circuits = 0;
  peer_reservations = (2 ∷ [], 1) ∷ [];
}
unfolding run_events new_stats handle_swarm_event peer_disconnected Map.get handle_relay_event
    reservation_timed_out release reservation_accepted Map.insert list_beq increment reservations_of
    Map.remove
one_is_left = refl

run_events-bounds_example :
    ((run_events new_stats events).active_reservations
      ≤ held (run_events new_stats events).peer_reservations)
    × (held (run_events new_stats events).peer_reservations
        ≤ (run_events new_stats events).total_reservations)
    × ((run_events new_stats events).active_circuits ≤ (run_events new_stats events).total_circuits)
run_events-bounds_example = run_events-bounds events (omega arith)

abbrev holding : RelayStats
holding = record new_stats {
  active_reservations = 2;
  total_reservations = 2;
  peer_reservations = (1 ∷ [], 2) ∷ [];
}

event-held_example :
    (handle_swarm_event (connection_closed (1 ∷ []) 0) holding).active_reservations
    ≡ held (handle_swarm_event (connection_closed (1 ∷ []) 0) holding).peer_reservations
unfolding new_stats held Map.get
event-held_example =
    event-held 2 holding (connection_closed (1 ∷ []) 0) (omega arith)
      ((refl, tt), omega arith, omega arith, omega arith, omega arith, omega arith) refl
      (λ peer e. absurd (ground arith))

-- A time-out of a peer that holds nothing is taken from what the others hold.
unknown_time_out_drifts :
    (handle_swarm_event (relay (reservation_timed_out_of (9 ∷ []))) holding).active_reservations ≡ 1
unfolding handle_swarm_event handle_relay_event reservation_timed_out
unknown_time_out_drifts = refl
