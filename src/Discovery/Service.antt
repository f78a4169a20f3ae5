-- ===== src/Discovery/Service.antt =====
-- discovery.c: the service, which answers clients and enters the servers that announce themselves.
use threaded_network_adder.Base.{Bool, true, false, List, [], ◌∷◌, ◌++◌, ℤ}
use threaded_network_adder.Net.{SockAddr}
use threaded_network_adder.Replication.Types.{Manager, Effects, Clock}
use threaded_network_adder.Replication.Membership.{add_discovered_replica}
use threaded_network_adder.Server.Packet.{
  PacketType, desc, desc_ack, desc_server, req, req_ack, other,
}
use threaded_network_adder.Discovery.Clients.{InternalClientInfo, cleanup_clients}

-- A packet with the members of the union that are read: disc.port lies on the lower half of the
-- sequence number, and the value of a request on that of a response.
pub record DiscoveryPacket : Type 0 where
  pub type : PacketType
  pub port : ℤ  -- int
  pub value : ℤ  -- int

-- What the service does to the outside: clients_mutex, datagrams, and the effects of replication.c.
pub data Event : Type 0 where
  hold release : Event
  answer : DiscoveryPacket → SockAddr → Event
  replicate : Effects → Event

-- What the second recvfrom gives; a packet that is too short is taken as it is.
pub data Received : Type 0 where
  failed : Received
  packet : DiscoveryPacket → SockAddr → Received

pub record Handled : Type 0 where
  pub rm : Manager
  pub events : List Event

-- The packet is changed in place before it is sent back.
abbrev pub with_port : DiscoveryPacket → PacketType → ℤ → DiscoveryPacket
with_port p type request_port = record p { type = type; port = request_port }

abbrev pub discovered : Manager → Clock → SockAddr → ℤ → List Event → Handled
discovered rm clock sender port events =
    let (rm', es) = add_discovered_replica rm clock sender.s_addr port in
    record { rm = rm'; events = events ++ replicate es ∷ [] }

-- The cases of the type, between the lock and the unlock.
unfoldable pub handle_type : PacketType → ℤ → Manager → Clock → DiscoveryPacket → SockAddr → Handled
handle_type desc request_port rm clock p sender = record {
  rm = rm;
  events = answer (with_port p desc_ack request_port) sender ∷ [];
}
handle_type desc_server request_port rm clock p sender =
    let p' = with_port p desc_server request_port in
    discovered rm clock sender p'.port (answer p' sender ∷ [])
handle_type desc_ack request_port rm clock p sender = discovered rm clock sender p.port []
handle_type req request_port rm clock p sender = record { rm = rm; events = [] }
handle_type req_ack request_port rm clock p sender = record { rm = rm; events = [] }
handle_type other request_port rm clock p sender = record { rm = rm; events = [] }

unfoldable pub handle_discovery_packet : ℤ → Manager → Clock → Received → Handled
unfolding handle_type
handle_discovery_packet request_port rm clock failed = record { rm = rm; events = [] }
handle_discovery_packet request_port rm clock (packet p sender) =
    let h = handle_type p.type request_port rm clock p sender in
    record { rm = h.rm; events = hold ∷ (h.events ++ release ∷ []) }

-- The manager, the clients and the events of a round. The first datagram goes into a buffer that
-- nothing reads: only whether it arrived counts, and a second one is handled.
unfoldable pub discovery_service_round :
    ℤ
    → Manager
    → Clock
    → List InternalClientInfo
    → ℤ
    → Bool
    → Received
    → Handled × List InternalClientInfo
unfolding handle_discovery_packet
discovery_service_round request_port rm clock clients now false second =
    (record { rm = rm; events = [] }, clients)
discovery_service_round request_port rm clock clients now true second =
    let h = handle_discovery_packet request_port rm clock second in
    (record h { events = h.events ++ hold ∷ release ∷ [] }, cleanup_clients now clients)

-- What a server that starts sends to all; the value is what the stack held.
unfoldable pub announcement : ℤ → ℤ → DiscoveryPacket
announcement request_port value = record { type = desc_server; port = request_port; value = value }
