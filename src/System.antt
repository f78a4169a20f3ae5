-- ===== src/System.antt =====
-- All servers together: each runs the rounds of its threads, and the network may lose, repeat,
-- delay and reorder what they send, and bring it to any server.
pub mod Members
pub mod Provenance
pub mod Survival
pub mod Overtaken
pub mod Split
use threaded_network_adder.Base.{
  ℕ, ◌≡◌, refl, ◌∙◌, sym, Bool, true, Option, none, some, List, [], ◌∷◌, ◌++◌, ℤ, pos, All,
  All-append, All-get_elem?, get_elem?, if◌then◌else◌, if_intro, if_cases, ◌==◌, lock, unlock, send,
  sleep, sent, subst, arith, wrap_int, ◌+ℤ◌,
}
use threaded_network_adder.Net.{SockAddr}
use threaded_network_adder.Replication.Types.{Manager, Datagram, Effects, Clock, primary_port}
use threaded_network_adder.Replication.Table.{datagram, repl_addr, heartbeat_round}
use threaded_network_adder.Replication.Election.{check_primary_status}
use threaded_network_adder.Replication.State.{get_current_sum, update_state}
use threaded_network_adder.Replication.Membership.{join_message}
use threaded_network_adder.Replication.Receiver.{whole, receiver_round}
use threaded_network_adder.Replication.Startup.{Started, first_manager, init_replication_manager}
use threaded_network_adder.Replication.Origin.{
  Signed, IsSigned, AllSigned, Signs, send_times-AllSigned, join_message-Signed,
}
use threaded_network_adder.Replication.Rounds.{
  MaySign, receiver_round-MaySign, check_primary_status-Signs, update_state-Signs,
  heartbeat_round-AllSigned,
}
use threaded_network_adder.Replication.Faults.{EndsBalanced, receiver_round-EndsBalanced}
use threaded_network_adder.Node
use threaded_network_adder.Server.Packet
use threaded_network_adder.Server.Packet.{PacketType, RequestPacket}
use threaded_network_adder.Server.Request.{
  Served, request_round, serve, process_request, add_value, refuse,
}

-- The servers, by number, and every datagram that was sent so far.
pub record System : Type 0 where
  pub servers : ℕ → Manager
  pub wire : List Datagram

abbrev pub set_at : (ℕ → Manager) → ℕ → Manager → ℕ → Manager
set_at servers k rm j = if j == k then rm else servers j

-- The server `k` comes to `rm` and sends.
abbrev pub acts : System → ℕ → Manager × Effects → System
acts s k (rm, es) = record { servers = set_at s.servers k rm; wire = s.wire ++ sent es }

abbrev pub outcome : Served → Manager × Effects
outcome r = (r.rm, r.effects)

-- A request that arrives is one that some client may send.
abbrev pub Asked : (RequestPacket → Type 0) → Packet.Arrival RequestPacket → Type 0
Asked Asks Packet.failed = Unit
Asked Asks Packet.short = Unit
Asked Asks (Packet.whole p) = Asks p

-- `Asks` are the requests that clients may send.
module _ (ports : ℕ → ℤ) (leads : ℕ → Bool) (Asks : RequestPacket → Type 0) where
  -- One round of a thread of one server. A datagram may arrive again, from any address, at any
  -- server; the request of a replica that starts may be on the wire at any time.
  pub data Acts (s : System) : System → Type 0 where
    joins :
        (k : ℕ) (clock : Clock) {started : Started}
        → init_replication_manager clock (ports k) (leads k) true true ≡ some started
        → Acts s (acts s k (s.servers k, started.effects))
    receives :
        (k n : ℕ) (clock : Clock) (d : Datagram) (from : SockAddr) {x : Manager × Effects}
        → get_elem? s.wire n ≡ some d
        → receiver_round (s.servers k) clock (whole d.msg from) ≡ some x
        → Acts s (acts s k x)
    checks : (k : ℕ) (clock : Clock) → Acts s (acts s k (check_primary_status (s.servers k) clock))
    beats : (k : ℕ) (now : ℤ) → Acts s (acts s k (s.servers k, heartbeat_round (s.servers k) now))
    serves :
        (k : ℕ) (clock : Clock) (a : Packet.Arrival RequestPacket)
        → Asked Asks a
        → Acts s (acts s k (outcome (request_round (s.servers k) clock a)))

  pub data Runs : System → Type 0 where
    begin :
        (clock : ℕ → Clock)
        → Runs (record { servers = λ k. first_manager (clock k) (ports k) (leads k); wire = [] })
    go_on : {s t : System} → Runs s → Acts s t → Runs t
