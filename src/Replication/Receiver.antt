-- ===== src/Replication/Receiver.antt =====
-- replication.c: what a server does with a datagram on its replication socket.
use mathlib.Core.Option
use threaded_network_adder.Base.{
  Option, some, List, [], ◌∷◌, ◌++◌, ℤ, pos_part, update_first, if◌then◌else◌, lock, unlock,
}
use threaded_network_adder.Net.{SockAddr}
use threaded_network_adder.Replication.Types.{
  MessageType, heartbeat, join_request, state_update, state_ack, replica_list_update,
  start_election, election_response, victory, victory_ack, unknown, ReplicaInfo, Message, Manager,
  Effects, Clock,
}
use threaded_network_adder.Replication.Table.{has_id, seen, confirmed, send_replica_list}
use threaded_network_adder.Replication.Election.{
  handle_election_start, handle_election_response, handle_victory_declaration,
}
use threaded_network_adder.Replication.State.{handle_state_update}
use threaded_network_adder.Replication.Membership.{add_replica, merge_replicas}

abbrev with_replicas : Manager → List ReplicaInfo → Manager × Effects
with_replicas rm rs = (record rm { replicas = rs }, lock ∷ unlock ∷ [])

abbrev confirm : Manager → ℤ → Manager × Effects
confirm rm i = with_replicas rm (update_first (has_id i) confirmed rm.replicas)

-- The new list goes to the server that asked, after what adding it sent.
unfoldable pub handle_join : Manager → Clock → ℤ → Manager × Effects
handle_join rm clock replica_id =
    let (rm', es) = add_replica rm clock replica_id in
    (rm', es ++ send_replica_list rm' (clock 20) replica_id)

-- The `switch` of process_replication_message; `none` is a read outside the received array. The
-- loop over a received list runs without the mutex.
unfoldable pub dispatch :
    MessageType → Manager → Clock → Message → SockAddr → Option (Manager × Effects)
dispatch heartbeat rm clock msg sender =
    some (with_replicas rm (update_first (has_id msg.replica_id) (seen (clock 0)) rm.replicas))
dispatch join_request rm clock msg sender =
    some (if rm.is_primary then handle_join rm clock msg.replica_id else (rm, []))
dispatch state_update rm clock msg sender = some (handle_state_update rm clock msg sender)
dispatch state_ack rm clock msg sender =
    some (if rm.is_primary then confirm rm msg.replica_id else (rm, []))
dispatch replica_list_update rm clock msg sender =
    Option.map (λ rs. (record rm { replicas = rs }, []))
      (merge_replicas (pos_part msg.replica_count) msg.replicas rm.replicas)
dispatch start_election rm clock msg sender = some (handle_election_start rm clock msg sender)
dispatch election_response rm clock msg sender = some (handle_election_response rm clock msg)
dispatch victory rm clock msg sender = some (handle_victory_declaration rm clock msg sender)
dispatch victory_ack rm clock msg sender = some (confirm rm msg.replica_id)
dispatch unknown rm clock msg sender = some (rm, [])

unfoldable pub process_replication_message :
    Manager → Clock → Message → SockAddr → Option (Manager × Effects)
process_replication_message rm clock msg sender = dispatch msg.type rm clock msg sender

-- What recvfrom gives: a datagram of the size of a message, or an error or another size.
pub data Arrival : Type 0 where
  whole : Message → SockAddr → Arrival
  partial : Arrival

-- The sender's address goes into its entry.
unfoldable pub learn_addr : Manager → ℤ → SockAddr → Manager
learn_addr rm i sender = record rm {
  replicas = update_first (has_id i) (λ r. record r { addr = sender }) rm.replicas;
}

-- One round of replication_receiver_service.
unfoldable pub receiver_round : Manager → Clock → Arrival → Option (Manager × Effects)
receiver_round rm clock (whole msg sender) =
    process_replication_message (learn_addr rm msg.replica_id sender) clock msg sender
receiver_round rm clock partial = some (rm, [])
