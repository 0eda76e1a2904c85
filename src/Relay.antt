-- ===== src/Relay.antt =====
-- crates/variance-relay/src/main.rs: the relay's statistics. The counters are `usize` of 64 bits, whose
-- `+= 1` wraps as in a release build; `saturating_sub` is the subtraction of natural numbers. Of an
-- event, what the handler reads is kept. A peer is the text of its id.
pub mod Held
pub mod Counts
mod Tests
use variance.Prelude.{
  ℕ, suc, ◌+◌, ◌-◌, ◌%◌, ◌^◌, Text, List, [], ◌∷◌, Option, none, some, eqb, ltb, list_eq, nat_eq,
  length, if◌then◌else◌,
}
use variance.Prelude.Map
use variance.Prelude.Map.{Map}

pub record RelayStats : Type 0 where
  pub active_reservations : ℕ
  pub active_circuits : ℕ
  pub total_reservations : ℕ
  pub total_circuits : ℕ
  pub denied_reservations : ℕ
  pub denied_circuits : ℕ
  pub peer_reservations : Map Text ℕ

pub record RelayStatsSnapshot : Type 0 where
  pub active_reservations : ℕ
  pub active_circuits : ℕ
  pub total_reservations : ℕ
  pub total_circuits : ℕ
  pub denied_reservations : ℕ
  pub denied_circuits : ℕ
  pub tracked_peers : ℕ

unfoldable pub new_stats : RelayStats
new_stats = record {
  active_reservations = 0;
  active_circuits = 0;
  total_reservations = 0;
  total_circuits = 0;
  denied_reservations = 0;
  denied_circuits = 0;
  peer_reservations = [];
}

-- `+= 1` on a `usize`.
unfoldable pub increment : ℕ → ℕ
increment n = suc n % 2 ^ 64

-- `*entry(peer).or_insert(0)`.
unfoldable pub reservations_of : Text → Map Text ℕ → ℕ
reservations_of peer m = elim (Map.get peer m) [ none ↦ 0 | some count ↦ count ]

unfoldable pub reservation_accepted : RelayStats → Text → RelayStats
reservation_accepted s peer = record s {
  active_reservations = increment s.active_reservations;
  total_reservations = increment s.total_reservations;
  peer_reservations =
      Map.insert peer (increment (reservations_of peer s.peer_reservations)) s.peer_reservations;
}

-- One reservation less for a peer, which is removed with its last one.
unfoldable pub release : Text → Map Text ℕ → Map Text ℕ
release peer m = elim (Map.get peer m) [
  | none ↦ m
  | some count ↦
      if eqb (count - 1) 0
      then Map.remove peer (Map.insert peer (count - 1) m)
      else Map.insert peer (count - 1) m
]

unfoldable pub reservation_timed_out : RelayStats → Text → RelayStats
reservation_timed_out s peer = record s {
  active_reservations = s.active_reservations - 1;
  peer_reservations = release peer s.peer_reservations;
}

unfoldable pub peer_disconnected : RelayStats → Text → RelayStats
peer_disconnected s peer = elim (Map.get peer s.peer_reservations) [
  | none ↦ s
  | some count ↦ record s {
    active_reservations =
        if ltb 0 count then s.active_reservations - count else s.active_reservations;
    peer_reservations = Map.remove peer s.peer_reservations;
  }
]

unfoldable pub snapshot : RelayStats → RelayStatsSnapshot
snapshot s = record {
  active_reservations = s.active_reservations;
  active_circuits = s.active_circuits;
  total_reservations = s.total_reservations;
  total_circuits = s.total_circuits;
  denied_reservations = s.denied_reservations;
  denied_circuits = s.denied_circuits;
  tracked_peers = length s.peer_reservations;
}

pub data Event : Type 0 where
  reservation_req_accepted : Text → Event
  reservation_req_denied : Text → Event
  reservation_timed_out_of : Text → Event
  circuit_req_accepted : Text → Text → Event
  circuit_req_denied : Text → Text → Event
  circuit_closed : Text → Text → Event
  other_event : Event

unfoldable pub handle_relay_event : Event → RelayStats → RelayStats
handle_relay_event (reservation_req_accepted peer) s = reservation_accepted s peer
handle_relay_event (reservation_req_denied peer) s = record s {
  denied_reservations = increment s.denied_reservations;
}
handle_relay_event (reservation_timed_out_of peer) s = reservation_timed_out s peer
handle_relay_event (circuit_req_accepted src dst) s = record s {
  active_circuits = increment s.active_circuits;
  total_circuits = increment s.total_circuits;
}
handle_relay_event (circuit_req_denied src dst) s = record s {
  denied_circuits = increment s.denied_circuits;
}
handle_relay_event (circuit_closed src dst) s = record s { active_circuits = s.active_circuits - 1 }
handle_relay_event other_event s = s

-- What the main loop passes on to the statistics: a relay event, or the end of a connection with the
-- number of those that the peer still has.
pub data SwarmEvent : Type 0 where
  relay : Event → SwarmEvent
  connection_closed : Text → ℕ → SwarmEvent

unfoldable pub handle_swarm_event : SwarmEvent → RelayStats → RelayStats
handle_swarm_event (relay e) s = handle_relay_event e s
handle_swarm_event (connection_closed peer num_established) s =
    if eqb num_established 0 then peer_disconnected s peer else s

unfoldable pub run_events : RelayStats → List SwarmEvent → RelayStats
run_events s [] = s
run_events s (e ∷ es) = run_events (handle_swarm_event e s) es
