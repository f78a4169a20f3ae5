-- ===== src/Replication/State.antt =====
-- replication.c: the replicated sum, written by the primary and passed on to the replicas.
use threaded_network_adder.Base.{
  true, false, not, ◌&&◌, [], ◌∷◌, ◌++◌, ℤ, pos, ◌==ℤ◌, leb_ℤ, if◌then◌else◌, lock, unlock, send,
}
use threaded_network_adder.Net.{SockAddr}
use threaded_network_adder.Replication.Types.{
  MessageType, Message, Manager, Effects, Clock, zero_message,
}
use threaded_network_adder.Replication.Table.{has_id, for_replicas, datagram}
use threaded_network_adder.Replication.Election.{adopt_state, ack_message}

unfoldable pub get_current_sum : Manager → ℤ × Effects
get_current_sum rm = (rm.current_sum, lock ∷ unlock ∷ [])

unfoldable pub state_message : Manager → ℤ → Message
unfolding zero_message
state_message rm now = record zero_message {
  type = MessageType.state_update;
  replica_id = rm.my_id;
  current_sum = rm.current_sum;
  last_seqn = rm.last_seqn;
  timestamp = now;
}

unfoldable pub propagate : Manager → ℤ → Effects
unfolding state_message
propagate rm now =
    if rm.is_primary
    then for_replicas
        (λ _ r.
          if not (has_id rm.my_id r) && r.is_alive
          then send (datagram r.addr (state_message rm now)) ∷ []
          else [])
        0 rm.replicas
    else []

-- The result, which is 0 on every path, comes last.
unfoldable pub update_state : Manager → Clock → ℤ → ℤ → Manager × Effects × ℤ
unfolding propagate
update_state rm clock new_sum seqn =
    let rm' = record rm { current_sum = new_sum; last_seqn = seqn } in
    (rm', lock ∷ (propagate rm' (clock 0) ++ unlock ∷ []), pos 0)

unfoldable pub handle_state_update : Manager → Clock → Message → SockAddr → Manager × Effects
unfolding adopt_state ack_message
handle_state_update rm clock msg sender =
    if msg.replica_id ==ℤ rm.primary_id
    then (updated, lock ∷ send (datagram sender ack) ∷ unlock ∷ [])
    else (rm, lock ∷ unlock ∷ [])
  where
    updated : Manager
    updated =
        if leb_ℤ rm.last_seqn msg.last_seqn
        then record (adopt_state rm msg) {
          election_in_progress = false;
          received_initial_state = true;
        }
        else rm

    ack : Message
    ack = ack_message MessageType.state_ack updated (clock 0)
