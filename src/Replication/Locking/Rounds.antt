-- ===== src/Replication/Locking/Rounds.antt =====
-- The mutex in the rounds of the threads of replication.c, and in update_state.
use threaded_network_adder.Base.{
  inl, inr, Option, none, some, [], not, ◌&&◌, ℤ, pos_part, if_intro, Option-cases,
}
use threaded_network_adder.Net.{SockAddr}
use threaded_network_adder.Replication.Types.{MessageType, Message, Manager, Effects, Clock}
use threaded_network_adder.Replication.Table.{has_id, heartbeat_round}
use threaded_network_adder.Replication.Election.{handle_election_response}
use threaded_network_adder.Replication.State.{propagate, update_state}
use threaded_network_adder.Replication.Membership.{merge_replicas}
use threaded_network_adder.Replication.Receiver.{
  learn_addr, dispatch, process_replication_message, Arrival, receiver_round,
}
use threaded_network_adder.Replication.Locking.{
  IsBalanced, AllQuiet, Calm, for_replicas-quiet, section-IsBalanced, nothing-IsBalanced,
  touch-IsBalanced, sleep-IsBalanced, handle_join-IsBalanced, handle_state_update-IsBalanced,
  handle_election_start-IsBalanced, handle_victory_declaration-IsBalanced,
}

propagate-quiet : (rm : Manager) (now : ℤ) → AllQuiet (propagate rm now)
unfolding propagate
propagate-quiet rm now =
    if_intro AllQuiet rm.is_primary _ _
      (for_replicas-quiet _
        (λ _ r. if_intro AllQuiet (not (has_id rm.my_id r) && r.is_alive) _ _ (tt, tt) tt) 0
        rm.replicas)
      tt

handle_election_response-IsBalanced :
    (rm : Manager) (clock : Clock) (msg : Message) → Calm (handle_election_response rm clock msg)
unfolding handle_election_response
handle_election_response-IsBalanced rm clock msg = touch-IsBalanced

-- What a call that may fault leaves, if it does not.
abbrev pub Leaves : Option (Manager × Effects) → Type 0
Leaves none = Unit
Leaves (some x) = IsBalanced x.1

dispatch-IsBalanced :
    (t : MessageType) (rm : Manager) (clock : Clock) (msg : Message) (sender : SockAddr)
    → Leaves (dispatch t rm clock msg sender)
unfolding dispatch
dispatch-IsBalanced MessageType.heartbeat rm clock msg sender = touch-IsBalanced
dispatch-IsBalanced MessageType.join_request rm clock msg sender =
    if_intro Calm rm.is_primary _ _ (handle_join-IsBalanced rm clock msg.replica_id)
      nothing-IsBalanced
dispatch-IsBalanced MessageType.state_update rm clock msg sender =
    handle_state_update-IsBalanced rm clock msg sender
dispatch-IsBalanced MessageType.state_ack rm clock msg sender =
    if_intro Calm rm.is_primary _ _ touch-IsBalanced nothing-IsBalanced
dispatch-IsBalanced MessageType.replica_list_update rm clock msg sender =
    elim (Option-cases (merge_replicas (pos_part msg.replica_count) msg.replicas rm.replicas)) [
      | inl e ↦ rw e tt
      | inr (rs, e) ↦ rw e nothing-IsBalanced
    ]
dispatch-IsBalanced MessageType.start_election rm clock msg sender =
    handle_election_start-IsBalanced rm clock msg sender
dispatch-IsBalanced MessageType.election_response rm clock msg sender =
    handle_election_response-IsBalanced rm clock msg
dispatch-IsBalanced MessageType.victory rm clock msg sender =
    handle_victory_declaration-IsBalanced rm clock msg sender
dispatch-IsBalanced MessageType.victory_ack rm clock msg sender = touch-IsBalanced
dispatch-IsBalanced MessageType.unknown rm clock msg sender = nothing-IsBalanced

-- Whatever datagram arrives, in whatever state, if the round of the receiver ends then it leaves
-- the mutex free, never took it twice and never freed it while it was free.
pub receiver_round-IsBalanced :
    (rm : Manager) (clock : Clock) (a : Arrival) → Leaves (receiver_round rm clock a)
unfolding receiver_round process_replication_message
receiver_round-IsBalanced rm clock (Arrival.whole msg sender) =
    dispatch-IsBalanced msg.type (learn_addr rm msg.replica_id sender) clock msg sender
receiver_round-IsBalanced rm clock Arrival.partial = nothing-IsBalanced

pub update_state-IsBalanced :
    (rm : Manager) (clock : Clock) (new_sum seqn : ℤ)
    → IsBalanced (update_state rm clock new_sum seqn).1
unfolding update_state
update_state-IsBalanced rm clock new_sum seqn =
    section-IsBalanced _ []
      (propagate-quiet (record rm { current_sum = new_sum; last_seqn = seqn }) (clock 0))
      nothing-IsBalanced

-- A round of heartbeats takes the mutex once and frees it.
pub heartbeat_round-IsBalanced : (rm : Manager) (now : ℤ) → IsBalanced (heartbeat_round rm now)
unfolding heartbeat_round
heartbeat_round-IsBalanced rm now =
    section-IsBalanced _ _
      (if_intro AllQuiet rm.is_primary _ _
        (for_replicas-quiet _
          (λ _ r. if_intro AllQuiet (not (has_id rm.my_id r) && r.is_alive) _ _ (tt, tt) tt) 0
          rm.replicas)
        tt)
      (sleep-IsBalanced 1000)
