-- ===== src/Replication/Faults.antt =====
-- When a round of the receiver ends: the one loop that can leave its array is that over a received
-- list of replicas.
use mathlib.Core.Option
use threaded_network_adder.Base.{
  ◌≤◌, ◌<◌, ◌≡◌, refl, Option, none, some, List, [], pos_part, length, subst,
}
use threaded_network_adder.Net.{SockAddr}
use threaded_network_adder.Replication.Types.{
  MessageType, replica_list_update, ReplicaInfo, Message, Manager, Effects, Clock,
}
use threaded_network_adder.Replication.Receiver.{
  whole, dispatch, process_replication_message, learn_addr, receiver_round,
}
use threaded_network_adder.Replication.Distinct.{merge_replicas_total, merge_replicas_overrun}
use threaded_network_adder.Replication.Locking.{IsBalanced}
use threaded_network_adder.Replication.Locking.Rounds.{Leaves, receiver_round-IsBalanced}

-- A count that the array holds, as every message of this program has.
abbrev pub IsSized : Message → Type 0
IsSized msg = pos_part msg.replica_count ≤ length msg.replicas

Ends : Option (Manager × Effects) → Type 0
Ends o = (x : Manager × Effects) × (o ≡ some x)

merge-Ends :
    (rm : Manager) (o : Option (List ReplicaInfo)) (rs : List ReplicaInfo)
    → o ≡ some rs
    → Ends (Option.map (λ l. (record rm { replicas = l }, [])) o)
unfolding Ends
merge-Ends rm none rs e = cc
merge-Ends rm (some l) rs e = (_, refl)

dispatch-Ends :
    (t : MessageType) (rm : Manager) (clock : Clock) (msg : Message) (sender : SockAddr)
    → IsSized msg
    → Ends (dispatch t rm clock msg sender)
unfolding dispatch Ends
dispatch-Ends replica_list_update rm clock msg sender sized =
    let (rs, e) = merge_replicas_total _ msg.replicas rm.replicas sized in
    unfold Ends in merge-Ends rm _ rs e
dispatch-Ends MessageType.heartbeat rm clock msg sender sized = (_, refl)
dispatch-Ends MessageType.join_request rm clock msg sender sized = (_, refl)
dispatch-Ends MessageType.state_update rm clock msg sender sized = (_, refl)
dispatch-Ends MessageType.state_ack rm clock msg sender sized = (_, refl)
dispatch-Ends MessageType.start_election rm clock msg sender sized = (_, refl)
dispatch-Ends MessageType.election_response rm clock msg sender sized = (_, refl)
dispatch-Ends MessageType.victory rm clock msg sender sized = (_, refl)
dispatch-Ends MessageType.victory_ack rm clock msg sender sized = (_, refl)
dispatch-Ends MessageType.unknown rm clock msg sender sized = (_, refl)

receiver_round-Ends :
    (rm : Manager) (clock : Clock) (msg : Message) (sender : SockAddr)
    → IsSized msg
    → Ends (receiver_round rm clock (whole msg sender))
unfolding receiver_round process_replication_message
receiver_round-Ends rm clock msg sender sized =
    dispatch-Ends msg.type (learn_addr rm msg.replica_id sender) clock msg sender sized

pub record EndsBalanced (o : Option (Manager × Effects)) : Type 0 where
  pub updated : Manager
  pub effects : Effects
  pub ends : o ≡ some (updated, effects)
  pub balanced : IsBalanced effects

-- A round of the receiver on a message whose count its array holds ends, in any state, and keeps
-- the mutex discipline: begun with the mutex free it never takes it twice, never frees it while it
-- is free, and leaves it free.
pub receiver_round-EndsBalanced :
    (rm : Manager) (clock : Clock) (msg : Message) (sender : SockAddr)
    → IsSized msg
    → EndsBalanced (receiver_round rm clock (whole msg sender))
unfolding Ends
receiver_round-EndsBalanced rm clock msg sender sized =
    let ((rm', es), e) = receiver_round-Ends rm clock msg sender sized in
    record {
      updated = rm';
      effects = es;
      ends = e;
      balanced = subst Leaves e (receiver_round-IsBalanced rm clock (whole msg sender));
    }

-- The count comes from the network and is not checked: a list whose count is larger than its array
-- makes the round read behind the end of the array, in any state.
pub receiver_round_overrun :
    (rm : Manager) (clock : Clock) (msg : Message) (sender : SockAddr)
    → msg.type ≡ replica_list_update
    → length msg.replicas < pos_part msg.replica_count
    → receiver_round rm clock (whole msg sender) ≡ none
unfolding receiver_round process_replication_message dispatch learn_addr
receiver_round_overrun rm clock msg sender t over =
    rw t (rw (merge_replicas_overrun _ msg.replicas _ over))
