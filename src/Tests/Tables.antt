-- ===== src/Tests/Tables.antt =====
-- A list of replicas on its way, at fixed inputs.
use threaded_network_adder.Base.{◌≡◌, refl, false, some, [], pos, arith, any}
use threaded_network_adder.Base
use threaded_network_adder.Replication.Types.{Manager}
use threaded_network_adder.Replication.Table.{replica_list}
use threaded_network_adder.Replication.Receiver.{receiver_round, whole}
use threaded_network_adder.Replication.Startup.{first_manager}
use threaded_network_adder.Replication.Distinct.{Distinct, IsTable}
use threaded_network_adder.Replication.Copying.{IsPrefix, receiver_round-replica_list}
use threaded_network_adder.Tests.Data.{noon, primary, sender}

-- A new replica knows the primary, and receives the table of two.
abbrev newcomer : Manager
newcomer = first_manager noon (pos 2004) false

primary-IsTable : IsTable primary.replicas
unfolding Distinct any Base.◌==ℤ◌
primary-IsTable = record { distinct = (refl, (refl, tt)); bounded = omega arith }

receiver_round-replica_list_example :
    receiver_round newcomer noon (whole (replica_list primary (pos 100)) sender)
    ≡ some (record newcomer { replicas = primary.replicas }, [])
unfolding IsPrefix first_manager
receiver_round-replica_list_example =
    receiver_round-replica_list primary newcomer (pos 100) noon sender primary-IsTable (refl, tt)
