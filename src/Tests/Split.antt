-- ===== src/Tests/Split.antt =====
-- A run of three servers that ends with two primaries; and a server that joins, at fixed inputs.
use threaded_network_adder.Base
use threaded_network_adder.Base.{
  ℕ, ◌≡◌, refl, Bool, true, false, some, [], ◌∷◌, ℤ, pos, get_elem?, arith, any, find_first, sent,
}
use threaded_network_adder.Replication.Types.{Datagram, Clock}
use threaded_network_adder.Replication.Table.{send_times, for_replicas, datagram}
use threaded_network_adder.Replication.Election.{adopt_state}
use threaded_network_adder.Replication.State.{state_message, handle_state_update}
use threaded_network_adder.Replication.Membership.{joined_replica, add_replica}
use threaded_network_adder.Replication.Receiver.{handle_join, learn_addr}
use threaded_network_adder.Replication.Startup.{first_manager, init_replication_manager}
use threaded_network_adder.Replication.Agreement.{receive_state}
use threaded_network_adder.Replication.Welcome.{
  join-received, Welcomed, init_replication_manager-Welcomed,
}
use threaded_network_adder.Server.Packet
use threaded_network_adder.Server.Request.{request_round}
use threaded_network_adder.System.{
  System, acts, outcome, joins, receives, serves, Runs, begin, go_on,
}
use threaded_network_adder.System.Split.{Split, checks-Split}
use threaded_network_adder.Tests.Data.{noon, sender, primary}
use threaded_network_adder.Tests.System.{ports, leads, join_datagram, asking, five, Anything}

init_replication_manager-Welcomed_example :
    Welcomed noon (pos 2008) primary noon noon noon noon (pos 15) (pos 2) sender sender
unfolding any Base.◌==ℤ◌
init_replication_manager-Welcomed_example =
    init_replication_manager-Welcomed noon (pos 2008) primary noon noon noon noon (pos 15) (pos 2)
      sender sender refl refl refl (omega arith) refl (omega arith)

-- The primary enters the server 2004 and adds the value 5; its new state reaches 2004 and 2008.
abbrev entered : System
entered =
    acts asking 0 (handle_join (learn_addr (asking.servers 0) (pos 2004) sender) noon (pos 2004))

abbrev added : System
added = acts entered 0 (outcome (request_round (entered.servers 0) noon (Packet.whole five)))

abbrev news : Datagram
news =
    datagram (joined_replica (pos 100) (pos 2004)).addr (state_message (added.servers 0) (pos 100))

news_sent : get_elem? added.wire 9 ≡ some news
unfolding sent send_times handle_join add_replica any learn_addr Base.update_first first_manager
    Base.◌==ℤ◌ for_replicas find_first request_round
news_sent = refl

abbrev hears : System → ℕ → System
hears s k = acts s k (
    handle_state_update (learn_addr (s.servers k) (added.servers 0).my_id sender) noon
      (state_message (added.servers 0) (pos 100)) sender)

abbrev informed : System
informed = hears (hears added 1) 2

news_again : get_elem? (hears added 1).wire 9 ≡ some news
unfolding sent send_times handle_join add_replica any learn_addr Base.update_first first_manager
    Base.◌==ℤ◌ for_replicas find_first request_round handle_state_update state_message adopt_state
news_again = refl

wire_begins : get_elem? asking.wire 0 ≡ some join_datagram
unfolding sent send_times
wire_begins = refl

run : Runs ports leads Anything informed
unfolding init_replication_manager
run =
    go_on
      (go_on
        (go_on
          (go_on (go_on (begin (λ _. noon)) (joins 1 noon refl)) (
            receives 0 0 noon join_datagram sender wire_begins (
              join-received (asking.servers 0) (first_manager noon (pos 2004) false) noon (pos 100)
                sender refl)))
          (serves 0 noon (Packet.whole five) tt))
        (receives 1 9 noon news sender news_sent
          (receive_state (added.servers 0) (added.servers 1) noon (pos 100) sender)))
      (receives 2 9 noon news sender news_again
        (receive_state (added.servers 0) ((hears added 1).servers 2) noon (pos 100) sender))

-- Ten seconds without a word of the primary.
abbrev late : Clock
late n = pos 110

checks-Split_example : Split ports leads Anything informed 1 2
unfolding handle_state_update Base.◌==ℤ◌ state_message request_round handle_join add_replica any
    learn_addr Base.update_first first_manager find_first Base.◌-ℤ◌
checks-Split_example =
    checks-Split ports leads Anything 1 2 late late run (ground arith) (refl, (refl, refl), refl)
      (refl, (refl, refl), refl)
