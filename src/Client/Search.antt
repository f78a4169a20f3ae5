-- ===== src/Client/Search.antt =====
-- client.c: discover_server, which asks on each port where a server may listen.
use threaded_network_adder.Base.{
  ℕ, zero, suc, ◌+◌, Bool, if◌then◌else◌, Option, none, some, List, [], ◌∷◌, ℤ, negsuc,
}
use threaded_network_adder.Net.{SockAddr, htons}
use threaded_network_adder.Server.Packet.{PacketType, desc_ack}

-- What comes of asking on one port: sendto fails, recvfrom fails or times out, or a packet comes,
-- with its type, the value in it and the address of its sender.
pub data Probe : Type 0 where
  unsent unanswered : Probe
  answered : PacketType → ℤ → ℕ → Probe

abbrev pub base_port : ℕ
base_port = 2000

abbrev pub max_servers : ℕ
max_servers = 10

abbrev pub port_step : ℕ
port_step = 4

-- An answer of the right type: the request port and the host.
unfoldable pub hit : Probe → Option (ℤ × ℕ)
hit unsent = none
hit unanswered = none
hit (answered desc_ack value host) = some (value, host)
hit (answered _ value host) = none

-- The request port, -1 if there is none; the address of the server, and the ports asked.
pub record Search : Type 0 where
  pub request_port : ℤ
  pub server_addr : SockAddr
  pub asked : List ℕ

abbrev found : ℕ → ℤ × ℕ → Search
found port (value, host) = record {
  request_port = value;
  server_addr = record { s_addr = host; sin_port = htons value };
  asked = port ∷ [];
}

abbrev asked_too : ℕ → Search → Search
asked_too port s = record s { asked = port ∷ s.asked }

abbrev pub nothing_found : SockAddr → Search
nothing_found addr = record { request_port = negsuc 0; server_addr = addr; asked = [] }

-- The loop, with the rounds left; `probe` is what comes of each port.
unfoldable pub probe_ports : ℕ → ℕ → (ℕ → Probe) → SockAddr → Search
unfolding hit
probe_ports zero port probe addr = nothing_found addr
probe_ports (suc rounds) port probe addr = elim (hit (probe port)) [
  | none ↦ asked_too port (probe_ports rounds (port + port_step) probe addr)
  | some h ↦ found port h
]

-- `ready`: the socket could be opened and its two options set.
unfoldable pub discover_server : Bool → (ℕ → Probe) → SockAddr → Search
discover_server ready probe addr =
    if ready then probe_ports max_servers base_port probe addr else nothing_found addr
