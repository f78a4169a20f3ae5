-- ===== src/Tests/Rounds.antt =====
-- Rounds of the receiver and of the other threads, at fixed inputs.
use threaded_network_adder.Base.{
  ◌≡◌, ◌≢◌, refl, Bool, true, false, ℤ, pos, arith, Option, none, some, any, find_first, [], ◌∷◌,
  length,
}
use threaded_network_adder.Base
use threaded_network_adder.Net.{htons}
use threaded_network_adder.Replication.Types.{
  MessageType, Message, Manager, ReplicaInfo, zero_message, max_replicas,
}
use threaded_network_adder.Replication.Table.{has_id, repl_addr, replica_list}
use threaded_network_adder.Replication.Election.{check_primary_status}
use threaded_network_adder.Replication.Membership.{add_replica, add_discovered_replica}
use threaded_network_adder.Replication.State.{state_message}
use threaded_network_adder.Replication.Receiver.{whole, receiver_round}
use threaded_network_adder.Replication.Startup.{init_replication_manager, first_manager}
use threaded_network_adder.Replication.Distinct.{Distinct}
use threaded_network_adder.Replication.Role.{Inv, receiver_round-Inv}
use threaded_network_adder.Replication.Locking.{
  IsBalanced, check_primary_status-IsBalanced, add_discovered_replica-IsBalanced,
}
use threaded_network_adder.Replication.Faults.{
  IsSized, EndsBalanced, receiver_round-EndsBalanced, receiver_round_overrun,
}
use threaded_network_adder.Replication.Agreement.{received, receive_state}
use threaded_network_adder.Replication.Entries.{
  Collides, add_replica-addr, add_discovered_replica-Collides,
}
use threaded_network_adder.Node.{Reach, start, Reach-Inv, replica_list-IsSized}
use threaded_network_adder.Tests.Data.{noon, entry, server, sender, primary, replica, orphan, blank}

pub replica-Inv : Inv replica
unfolding Distinct any
replica-Inv = record {
  own_primary = λ p. cc;
  settled = λ p. cc;
  table = record { distinct = (refl, tt); bounded = omega arith };
}

receiver_round-Inv_example : Inv (received primary replica noon (pos 100) sender refl)
receiver_round-Inv_example =
    receiver_round-Inv replica noon (whole (state_message primary (pos 100)) sender) replica-Inv
      (receive_state primary replica noon (pos 100) sender)

receiver_round-EndsBalanced_example :
    EndsBalanced (receiver_round replica noon (whole (blank MessageType.join_request) sender))
unfolding zero_message
receiver_round-EndsBalanced_example =
    receiver_round-EndsBalanced replica noon (blank MessageType.join_request) sender (omega arith)

-- An array of ten entries, and a count of eleven.
abbrev long_list : Message
unfolding zero_message
long_list = record (blank MessageType.replica_list_update) { replica_count = pos 11 }

receiver_round_overrun_example : receiver_round replica noon (whole long_list sender) ≡ none
unfolding zero_message
receiver_round_overrun_example =
    receiver_round_overrun replica noon long_list sender refl (omega arith)

check_primary_status-IsBalanced_example : IsBalanced (check_primary_status orphan noon).1
check_primary_status-IsBalanced_example = check_primary_status-IsBalanced orphan noon

add_discovered_replica-IsBalanced_example :
    IsBalanced (add_discovered_replica replica noon 1 (pos 2009)).1
add_discovered_replica-IsBalanced_example =
    add_discovered_replica-IsBalanced replica noon 1 (pos 2009)

add_replica-addr_example :
    (r : ReplicaInfo) × (find_first
        (has_id (pos 2008))
        (add_replica primary noon (pos 2008)).0.replicas
      ≡ some r)
    × (r.is_alive ≡ true)
    × (r.addr.sin_port ≡ htons (pos 2008))
    × (r.addr.sin_port ≢ (repl_addr (pos 2008)).sin_port)
unfolding any Base.◌==ℤ◌
add_replica-addr_example = add_replica-addr primary noon 2008 refl (omega arith) (omega arith)

-- Of four entries the last is that of 2004, which the fifth would be called too.
abbrev crowded : Manager
crowded =
    server 2004 false 2000 10 1
      (entry 2000 100 ∷ entry 2008 100 ∷ entry 2012 100 ∷ entry 2004 100 ∷ [])

add_discovered_replica-Collides_example :
    Collides crowded.replicas
      (pos 2004)
      (add_discovered_replica crowded noon 1 (pos 2016)).0.replicas
unfolding any Base.◌==ℤ◌
add_discovered_replica-Collides_example =
    add_discovered_replica-Collides crowded noon 1 (pos 2016) refl (omega arith) refl

abbrev started : Reach (pos 2004) false (first_manager noon (pos 2004) false)
unfolding init_replication_manager
started = start noon refl

Reach-Inv_example : Inv (first_manager noon (pos 2004) false)
unfolding init_replication_manager
Reach-Inv_example = Reach-Inv started

replica_list-IsSized_example :
    IsSized (replica_list (first_manager noon (pos 2004) false) (pos 100))
    × (length (replica_list (first_manager noon (pos 2004) false) (pos 100)).replicas
        ≡ max_replicas)
unfolding init_replication_manager
replica_list-IsSized_example = replica_list-IsSized (pos 100) started
