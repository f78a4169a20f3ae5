-- ===== src/Discovery/Ports.antt =====
-- discovery.c and client.c together: which port a client finds at this module.
use threaded_network_adder.Base.{
  ℕ, ◌<◌, ◌≡◌, ap, Bool, true, Option, none, some, List, [], ◌∷◌, ℤ, pos,
}
use threaded_network_adder.Net.{SockAddr}
use threaded_network_adder.Replication.Types.{Manager, Clock}
use threaded_network_adder.Server.Packet.{RequestPacket}
use threaded_network_adder.Client.Search.{
  Probe, unanswered, answered, hit, discover_server, base_port, max_servers,
}
use threaded_network_adder.Client.Ports.{Misses}
use threaded_network_adder.Client.Meeting.{discovery_packet, server_port, found_by_search}
use threaded_network_adder.Discovery.Service.{
  DiscoveryPacket, Event, answer, replicate, hold, release, packet, handle_type,
  handle_discovery_packet,
}

-- A request as this module reads it: the port lies on the sequence number, which is small here.
abbrev pub seen_as : RequestPacket → DiscoveryPacket
seen_as p = record { type = p.type; port = p.req.seqn; value = p.req.value }

-- The first answer of a call.
unfoldable pub first_answer : List Event → Option DiscoveryPacket
first_answer [] = none
first_answer (answer p to ∷ es) = some p
first_answer (hold ∷ es) = first_answer es
first_answer (release ∷ es) = first_answer es
first_answer (replicate fs ∷ es) = first_answer es

-- The client reads the value, not the port.
abbrev pub probed : ℕ → Option DiscoveryPacket → Probe
probed host o = elim o [ none ↦ unanswered | some p ↦ answered p.type p.value host ]

-- A client whose packet this module answers, the first on the ports, finds port 0, which
-- RunClient takes for no server: the port that the module sends stands in another place of the
-- packet than the one that the client reads.
pub discover_server-handle_discovery_packet :
    (ready : Bool) (k host : ℕ) (probe : ℕ → Probe) (addr sender : SockAddr) (request_port : ℤ)
    (rm : Manager) (clock : Clock)
    → ready ≡ true
    → k < max_servers
    → Misses k base_port probe
    → probe (server_port k)
      ≡ probed host (
          first_answer
            (handle_discovery_packet request_port rm clock
              (packet (seen_as discovery_packet) sender)).events)
    → (discover_server ready probe addr).request_port ≡ pos 0
unfolding hit handle_discovery_packet handle_type first_answer
discover_server-handle_discovery_packet ready k host probe addr sender request_port rm clock up
      small before e =
    (found_by_search ready k host (pos 0) probe addr up small before (ap hit e)).0
