-- ===== src/Discovery/Rounds.antt =====
-- discovery.c: a round of the service, with both mutexes.
use threaded_network_adder.Base.{
  ℕ, ◌≡◌, refl, Bool, true, false, Option, none, some, List, [], ◌∷◌, ◌++◌, ℤ, All,
}
use threaded_network_adder.Net.{SockAddr}
use threaded_network_adder.Replication.Types.{Manager, Clock}
use threaded_network_adder.Replication.Membership.{add_discovered_replica}
use threaded_network_adder.Replication.Locking.{IsBalanced, add_discovered_replica-IsBalanced}
use threaded_network_adder.Server.Packet.{
  PacketType, desc, desc_ack, desc_server, req, req_ack, other,
}
use threaded_network_adder.Discovery.Clients.{InternalClientInfo}
use threaded_network_adder.Discovery.Service.{
  DiscoveryPacket, Event, answer, replicate, hold, release, Received, packet, failed, Handled,
  handle_type, handle_discovery_packet, discovery_service_round,
}

-- clients_mutex through a list of events: `none` where it is taken twice or freed while free.
unfoldable pub held_after : Bool → List Event → Option Bool
held_after held [] = some held
held_after true (hold ∷ es) = none
held_after false (hold ∷ es) = held_after true es
held_after true (release ∷ es) = held_after false es
held_after false (release ∷ es) = none
held_after held (answer p to ∷ es) = held_after held es
held_after held (replicate fs ∷ es) = held_after held es

-- A call of replication.c leaves its own mutex free.
abbrev pub LeavesFree : Event → Type 0
LeavesFree hold = Unit
LeavesFree release = Unit
LeavesFree (answer p to) = Unit
LeavesFree (replicate fs) = IsBalanced fs

pub record LocksWell (events : List Event) : Type 0 where
  pub clients_mutex : held_after false events ≡ some false
  pub state_mutex : All LeavesFree events

-- What a round does to the table of replicas: nothing, or one discovery.
pub data Notes (rm : Manager) (clock : Clock) : Manager → Type 0 where
  unmoved : Notes rm clock rm
  noted : (ip : ℕ) (port : ℤ) → Notes rm clock (add_discovered_replica rm clock ip port).0

pub record RoundEnds (rm : Manager) (clock : Clock) (h : Handled) : Type 0 where
  pub locks : LocksWell h.events
  pub notes : Notes rm clock h.rm

-- The events of a round whose packet has the type `t`.
abbrev round_of : PacketType → ℤ → Manager → Clock → DiscoveryPacket → SockAddr → Handled
round_of t request_port rm clock p sender =
    let h = handle_type t request_port rm clock p sender in
    record { rm = h.rm; events = (hold ∷ (h.events ++ release ∷ [])) ++ hold ∷ release ∷ [] }

handle_type-RoundEnds :
    (t : PacketType) (request_port : ℤ) (rm : Manager) (clock : Clock) (p : DiscoveryPacket)
    (sender : SockAddr)
    → RoundEnds rm clock (round_of t request_port rm clock p sender)
unfolding handle_type held_after
handle_type-RoundEnds desc request_port rm clock p sender = record {
  locks = record { clients_mutex = refl; state_mutex = (tt, (tt, (tt, (tt, (tt, tt))))) };
  notes = unmoved;
}
handle_type-RoundEnds desc_server request_port rm clock p sender = record {
  locks = record {
    clients_mutex = refl;
    state_mutex = (
      tt,
      (
        tt,
        (
          add_discovered_replica-IsBalanced rm clock sender.s_addr request_port,
          (tt, (tt, (tt, tt))),
        ),
      ),
    );
  };
  notes = noted sender.s_addr request_port;
}
handle_type-RoundEnds desc_ack request_port rm clock p sender = record {
  locks = record {
    clients_mutex = refl;
    state_mutex = (
      tt,
      (add_discovered_replica-IsBalanced rm clock sender.s_addr p.port, (tt, (tt, (tt, tt)))),
    );
  };
  notes = noted sender.s_addr p.port;
}
handle_type-RoundEnds req request_port rm clock p sender = record {
  locks = record { clients_mutex = refl; state_mutex = (tt, (tt, (tt, (tt, tt)))) };
  notes = unmoved;
}
handle_type-RoundEnds req_ack request_port rm clock p sender = record {
  locks = record { clients_mutex = refl; state_mutex = (tt, (tt, (tt, (tt, tt)))) };
  notes = unmoved;
}
handle_type-RoundEnds other request_port rm clock p sender = record {
  locks = record { clients_mutex = refl; state_mutex = (tt, (tt, (tt, (tt, tt)))) };
  notes = unmoved;
}

-- A round takes and frees clients_mutex in turn and leaves it free, and so does each call of
-- replication.c with the mutex of the manager. It changes the table of replicas by one discovery
-- at most.
pub discovery_service_round-RoundEnds :
    (request_port : ℤ) (rm : Manager) (clock : Clock) (clients : List InternalClientInfo) (now : ℤ)
    (first : Bool) (second : Received)
    → RoundEnds rm clock (discovery_service_round request_port rm clock clients now first second).0
unfolding discovery_service_round handle_discovery_packet held_after
discovery_service_round-RoundEnds request_port rm clock clients now false second = record {
  locks = record { clients_mutex = refl; state_mutex = tt };
  notes = unmoved;
}
discovery_service_round-RoundEnds request_port rm clock clients now true failed = record {
  locks = record { clients_mutex = refl; state_mutex = (tt, (tt, tt)) };
  notes = unmoved;
}
discovery_service_round-RoundEnds request_port rm clock clients now true (packet p sender) =
    handle_type-RoundEnds p.type request_port rm clock p sender
