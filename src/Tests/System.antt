-- ===== src/Tests/System.antt =====
-- Two servers and the request of the second to join, at fixed inputs.
use threaded_network_adder.Base
use threaded_network_adder.Base.{
  IsInt, wrap_int-IsInt, ◌+ℤ◌, arith, refl, Bool, true, false, ℕ, ◌+◌, ◌*◌, ◌==◌, ℤ, pos, [], sent,
}
use threaded_network_adder.Replication.Types.{Datagram, primary_port}
use threaded_network_adder.Replication.Table.{send_times, datagram, repl_addr}
use threaded_network_adder.Replication.Membership.{join_message}
use threaded_network_adder.Replication.Receiver.{whole, receiver_round}
use threaded_network_adder.Replication.Startup.{first_manager, init_replication_manager}
use threaded_network_adder.Replication.Faults.{EndsBalanced}
use threaded_network_adder.Node
use threaded_network_adder.System.{System, acts, outcome, joins, serves, Runs, begin, go_on}
use threaded_network_adder.System.Members.{Runs-Reach}
use threaded_network_adder.System.Overtaken.{Overtaken, served-Overtaken}
use threaded_network_adder.System.Provenance.{Sound, Runs-Sound, wire-EndsBalanced}
use threaded_network_adder.Server.Packet
use threaded_network_adder.Server.Packet.{RequestPacket, req}
use threaded_network_adder.Server.Request.{request_round}
use threaded_network_adder.Tests.Data.{noon, entry, sender, primary, replica}

abbrev pub ports : ℕ → ℤ
ports k = pos (2000 + 4 * k)

abbrev pub leads : ℕ → Bool
leads k = k == 0

abbrev pub begun : System
begun = record { servers = λ k. first_manager noon (ports k) (leads k); wire = [] }

abbrev pub join_datagram : Datagram
join_datagram =
    datagram (repl_addr (pos primary_port))
      (join_message (first_manager noon (pos 2004) false) (pos 100))

abbrev pub asking : System
asking = acts begun 1 (begun.servers 1, send_times 3 join_datagram)

abbrev pub five : RequestPacket
five = record { type = req; req = record { seqn = pos 1; value = pos 5 } }

abbrev adding : System
adding = acts asking 0 (outcome (request_round (asking.servers 0) noon (Packet.whole five)))

-- Clients may send anything.
abbrev pub Anything : RequestPacket → Type 0
Anything p = Unit

abbrev run : Runs ports leads Anything adding
unfolding init_replication_manager
run = go_on (go_on (begin (λ _. noon)) (joins 1 noon refl)) (serves 0 noon (Packet.whole five) tt)

-- Every sum is an int.
Runs-Sound_example : Sound ports (λ sum _. IsInt sum) adding
Runs-Sound_example =
    Runs-Sound ports leads Anything (λ sum _. IsInt sum) (omega arith)
      (λ sum seqn p _ _. wrap_int-IsInt (sum +ℤ p.req.value)) run

Runs-Reach_example : Node.Reach (pos 2000) true (adding.servers 0)
Runs-Reach_example = Runs-Reach ports leads Anything run 0

wire-EndsBalanced_example :
    EndsBalanced (receiver_round (adding.servers 0) noon (whole join_datagram.msg sender))
unfolding sent send_times
wire-EndsBalanced_example =
    wire-EndsBalanced ports leads Anything run 0 1 noon join_datagram sender refl

-- A second client, whose first request has the number 0 where the last update had 1.
served-Overtaken_example :
    Overtaken primary replica noon noon (pos 0) (pos 5) sender (entry 2004 100)
unfolding Base.◌==ℤ◌
served-Overtaken_example =
    served-Overtaken primary replica noon noon (pos 0) (pos 5) sender 1 (entry 2004 100) refl refl
      refl refl refl refl refl (omega arith)
