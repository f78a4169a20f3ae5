-- ===== src/Replication/Freshness.antt =====
-- Who may change the replicated sum of a server, and that a received one is never older.
use mathlib.Core.Option
use threaded_network_adder.Base.{
  ◌≡◌, ◌⊎◌, refl, subst, inl, inr, Option, none, some, List, [], ℤ, ◌==ℤ◌, ==ℤ_iff, ◌<ℤ◌, ◌≤ℤ◌,
  arith, ltb_ℤ, leb_ℤ, if_cases,
}
use threaded_network_adder.Net.{SockAddr}
use threaded_network_adder.Replication.Types.{
  MessageType, Message, Manager, Effects, Clock, ReplicaInfo,
}
use threaded_network_adder.Replication.Election.{
  later, start_election, handle_election_start, handle_election_response, adopt_state, follow,
  handle_victory_declaration,
}
use threaded_network_adder.Replication.State.{handle_state_update}
use threaded_network_adder.Replication.Membership.{add_replica}
use threaded_network_adder.Replication.Receiver.{
  handle_join, dispatch, process_replication_message, Arrival, learn_addr, receiver_round,
}

-- The replicated state is as it was.
abbrev pub Same : Manager → Manager → Type 0
Same rm rm' = (rm'.current_sum ≡ rm.current_sum) × (rm'.last_seqn ≡ rm.last_seqn)

-- A message that a server obeys: the state of its primary, or the victory of a higher identifier.
abbrev pub HasAuthority : MessageType → Manager → Message → Type 0
HasAuthority t rm msg =
    ((t ≡ MessageType.state_update) × (msg.replica_id ≡ rm.primary_id))
    ⊎ ((t ≡ MessageType.victory) × (rm.my_id <ℤ msg.replica_id))

-- The replicated state is that of the message, which is not older.
pub record Taken (rm : Manager) (msg : Message) (rm' : Manager) : Type 0 where
  pub sum : rm'.current_sum ≡ msg.current_sum
  pub seqn : rm'.last_seqn ≡ msg.last_seqn
  pub fresh : rm.last_seqn ≤ℤ msg.last_seqn

abbrev pub Outcome : MessageType → Manager → Message → Manager → Type 0
Outcome t rm msg rm' = Same rm rm' ⊎ (Taken rm msg rm' × HasAuthority t rm msg)

start_election-Same : (rm : Manager) (clock : Clock) → Same rm (start_election rm clock).0
unfolding start_election
start_election-Same rm clock = ground arith

add_replica-Same : (rm : Manager) (clock : Clock) (i : ℤ) → Same rm (add_replica rm clock i).0
unfolding add_replica
add_replica-Same rm clock i = ground arith

handle_election_start-Same :
    (rm : Manager) (clock : Clock) (msg : Message) (sender : SockAddr)
    → Same rm (handle_election_start rm clock msg sender).0
unfolding handle_election_start
handle_election_start-Same rm clock msg sender =
    ground (arith, start_election-Same rm (later clock))

handle_election_response-Same :
    (rm : Manager) (clock : Clock) (msg : Message)
    → Same rm (handle_election_response rm clock msg).0
unfolding handle_election_response
handle_election_response-Same rm clock msg = ground arith

adopt_state-Outcome :
    (t : MessageType) (rm : Manager) (msg : Message)
    → HasAuthority t rm msg
    → Outcome t rm msg (adopt_state rm msg)
unfolding adopt_state
adopt_state-Outcome t rm msg a =
    if_cases (Outcome t rm msg) (leb_ℤ rm.last_seqn msg.last_seqn) _ _
      (λ newer. inr (record { sum = refl; seqn = refl; fresh = ground arith }, a))
      (λ _. inl (refl, refl))

handle_state_update-Outcome :
    (rm : Manager) (clock : Clock) (msg : Message) (sender : SockAddr)
    → Outcome MessageType.state_update rm msg (handle_state_update rm clock msg sender).0
unfolding handle_state_update adopt_state
handle_state_update-Outcome rm clock msg sender =
    if_cases (λ (x : Manager × Effects). Outcome MessageType.state_update rm msg x.0)
      (msg.replica_id ==ℤ rm.primary_id) _ _
      (λ from_primary.
        if_cases (Outcome MessageType.state_update rm msg) (leb_ℤ rm.last_seqn msg.last_seqn) _ _
          (λ newer. inr (
            record { sum = ground arith; seqn = ground arith; fresh = ground arith },
            inl (refl, (==ℤ_iff msg.replica_id rm.primary_id).0 from_primary),
          ))
          (λ _. inl (refl, refl)))
      (λ _. inl (refl, refl))

handle_victory-Outcome :
    (rm : Manager) (clock : Clock) (msg : Message) (sender : SockAddr)
    → Outcome MessageType.victory rm msg (handle_victory_declaration rm clock msg sender).0
unfolding handle_victory_declaration follow
handle_victory-Outcome rm clock msg sender =
    if_cases (λ (x : Manager × Effects). Outcome MessageType.victory rm msg x.0)
      (ltb_ℤ rm.my_id msg.replica_id) _ _
      (λ higher. elim (adopt_state-Outcome MessageType.victory rm msg (inr (refl, ground arith))) [
        | inl s ↦ inl s
        | inr (t, a) ↦ inr (record { sum = t.sum; seqn = t.seqn; fresh = t.fresh }, a)
      ])
      (λ _. inl (refl, refl))

-- The same of a call that may fault.
abbrev Allows : MessageType → Manager → Message → Option (Manager × Effects) → Type 0
Allows t rm msg none = Unit
Allows t rm msg (some x) = Outcome t rm msg x.0

merge-Allows :
    (t : MessageType) (rm : Manager) (msg : Message) (o : Option (List ReplicaInfo))
    → Allows t rm msg (Option.map (λ rs. (record rm { replicas = rs }, [])) o)
merge-Allows t rm msg none = tt
merge-Allows t rm msg (some rs) = inl (refl, refl)

dispatch-Allows :
    (t : MessageType) (rm : Manager) (clock : Clock) (msg : Message) (sender : SockAddr)
    → Allows t rm msg (dispatch t rm clock msg sender)
unfolding dispatch handle_join
dispatch-Allows MessageType.heartbeat rm clock msg sender = inl (refl, refl)
dispatch-Allows MessageType.join_request rm clock msg sender =
    inl (ground (arith, add_replica-Same rm clock msg.replica_id))
dispatch-Allows MessageType.state_update rm clock msg sender =
    handle_state_update-Outcome rm clock msg sender
dispatch-Allows MessageType.state_ack rm clock msg sender = inl (ground arith)
dispatch-Allows MessageType.replica_list_update rm clock msg sender =
    merge-Allows MessageType.replica_list_update rm msg _
dispatch-Allows MessageType.start_election rm clock msg sender =
    inl (handle_election_start-Same rm clock msg sender)
dispatch-Allows MessageType.election_response rm clock msg sender =
    inl (handle_election_response-Same rm clock msg)
dispatch-Allows MessageType.victory rm clock msg sender = handle_victory-Outcome rm clock msg sender
dispatch-Allows MessageType.victory_ack rm clock msg sender = inl (refl, refl)
dispatch-Allows MessageType.unknown rm clock msg sender = inl (refl, refl)

learned-Allows :
    (t : MessageType) (rm : Manager) (msg : Message) (sender : SockAddr)
    (o : Option (Manager × Effects))
    → Allows t (learn_addr rm msg.replica_id sender) msg o
    → Allows t rm msg o
unfolding learn_addr
learned-Allows t rm msg sender none a = tt
learned-Allows t rm msg sender (some x) (inl s) = inl s
learned-Allows t rm msg sender (some x) (inr (k, a)) =
    inr (record { sum = k.sum; seqn = k.seqn; fresh = k.fresh }, a)

-- A datagram either leaves the sum and the sequence number of a server as they were, or replaces
-- both by its own: then its number is not older, and it is the state of the server's primary or
-- the victory of a higher identifier.
pub receiver_round-Outcome :
    (rm : Manager) (clock : Clock) (msg : Message) (sender : SockAddr) {rm' : Manager}
    {es : Effects}
    → receiver_round rm clock (Arrival.whole msg sender) ≡ some (rm', es)
    → Outcome msg.type rm msg rm'
receiver_round-Outcome rm clock msg sender e = subst (Allows msg.type rm msg) e round
  where
    round : Allows msg.type rm msg (receiver_round rm clock (Arrival.whole msg sender))
    round =
        unfold receiver_round process_replication_message in
        learned-Allows msg.type rm msg sender _
          (dispatch-Allows msg.type (learn_addr rm msg.replica_id sender) clock msg sender)
