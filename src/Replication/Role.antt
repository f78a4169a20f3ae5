-- ===== src/Replication/Role.antt =====
-- What holds of the manager between two calls: its role, its identity and its table.
use threaded_network_adder.Base.{
  ◌≡◌, refl, subst, inl, inr, true, false, not, ◌&&◌, ◌||◌, Option, none, some, List, [], ℤ, ◌==ℤ◌,
  arith, Option-cases, any, find_first, ltb, ltb_ℤ, leb_ℤ, length, if_intro, if_cases,
}
use mathlib.Core.Option
use threaded_network_adder.Net.{SockAddr}
use threaded_network_adder.Replication.Types.{
  MessageType, ReplicaInfo, Message, Manager, Effects, Clock, max_replicas,
}
use threaded_network_adder.Replication.Table.{has_id, seen, confirmed}
use threaded_network_adder.Replication.Election.{
  later, is_recent_primary, is_higher, start_election, handle_election_start,
  handle_election_response, adopt_state, follow, handle_victory_declaration, is_live_primary,
  suspect, check_primary_status,
}
use threaded_network_adder.Replication.State.{update_state, handle_state_update}
use threaded_network_adder.Replication.Membership.{joined_replica, add_replica}
use threaded_network_adder.Replication.Receiver.{
  handle_join, dispatch, process_replication_message, Arrival, learn_addr, receiver_round,
}
use threaded_network_adder.Replication.Distinct.{
  IsTable, update-IsTable, snoc-IsTable, merge_replicas-IsTable,
}

-- A primary follows itself and is in no election; the table is sound.
pub record Inv (rm : Manager) : Type 0 where
  pub own_primary : rm.is_primary ≡ true → rm.primary_id ≡ rm.my_id
  pub settled : rm.is_primary ≡ true → rm.election_in_progress ≡ false
  pub table : IsTable rm.replicas

-- The same manager with another table.
with_table-Inv :
    {rm : Manager} (rs : List ReplicaInfo) → Inv rm → IsTable rs → Inv (record rm { replicas = rs })
with_table-Inv rs v t = record { own_primary = v.own_primary; settled = v.settled; table = t }

abbrev Holds : Manager × Effects → Type 0
Holds x = Inv x.0

start_election-Inv :
    (rm : Manager) (clock : Clock)
    → rm.is_primary ≡ false
    → Inv rm
    → Holds (start_election rm clock)
unfolding start_election
start_election-Inv rm clock replica v =
    if_intro Holds (any (is_recent_primary rm (clock 0)) rm.replicas) _ _ v (
      if_intro Holds (any (is_higher rm.my_id) rm.replicas) _ _
        (record { own_primary = v.own_primary; settled = λ p. cc; table = v.table })
        (record { own_primary = λ p. refl; settled = λ p. refl; table = v.table }))

handle_election_start-Inv :
    (rm : Manager) (clock : Clock) (msg : Message) (sender : SockAddr)
    → Inv rm
    → Holds (handle_election_start rm clock msg sender)
unfolding handle_election_start
handle_election_start-Inv rm clock msg sender v =
    if_intro Holds (rm.is_primary || ltb_ℤ msg.replica_id rm.my_id) _ _
      (if_cases Holds (not rm.is_primary && ltb_ℤ msg.replica_id rm.my_id) _ _
        (λ e. start_election-Inv rm (later clock) (ground arith) v) (λ _. v))
      v

handle_election_response-Inv :
    (rm : Manager) (clock : Clock) (msg : Message)
    → Inv rm
    → Holds (handle_election_response rm clock msg)
unfolding handle_election_response
handle_election_response-Inv rm clock msg v =
    if_intro Inv (rm.election_in_progress && ltb_ℤ rm.my_id msg.replica_id) _ _
      (record {
        own_primary = v.own_primary;
        settled = λ _. refl;
        table = update-IsTable msg.replica_id (seen (clock 0)) (λ r _. refl) v.table;
      })
      v

handle_victory_declaration-Inv :
    (rm : Manager) (clock : Clock) (msg : Message) (sender : SockAddr)
    → Inv rm
    → Holds (handle_victory_declaration rm clock msg sender)
unfolding handle_victory_declaration follow
handle_victory_declaration-Inv rm clock msg sender v =
    if_intro Holds (ltb_ℤ rm.my_id msg.replica_id) _ _
      (record {
        own_primary = λ p. cc;
        settled = λ _. refl;
        table = update-IsTable msg.replica_id _ (λ r _. refl) v.table;
      })
      v

adopt_state-Inv : (rm : Manager) (msg : Message) → Inv rm → Inv (adopt_state rm msg)
unfolding adopt_state
adopt_state-Inv rm msg v =
    if_intro Inv (leb_ℤ rm.last_seqn msg.last_seqn) _ _
      (record { own_primary = v.own_primary; settled = v.settled; table = v.table }) v

handle_state_update-Inv :
    (rm : Manager) (clock : Clock) (msg : Message) (sender : SockAddr)
    → Inv rm
    → Holds (handle_state_update rm clock msg sender)
unfolding handle_state_update
handle_state_update-Inv rm clock msg sender v =
    if_intro Holds (msg.replica_id ==ℤ rm.primary_id) _ _
      (if_intro Inv (leb_ℤ rm.last_seqn msg.last_seqn) _ _
        (let w = adopt_state-Inv rm msg v in
          record { own_primary = w.own_primary; settled = λ _. refl; table = w.table })
        v)
      v

pub add_replica-Inv :
    (rm : Manager) (clock : Clock) (i : ℤ) → Inv rm → Holds (add_replica rm clock i)
unfolding add_replica
add_replica-Inv rm clock i v =
    if_cases Holds (any (has_id i) rm.replicas) _ _
      (λ _. with_table-Inv _ v (update-IsTable i _ (λ r _. refl) v.table))
      (λ new.
        if_cases Holds (ltb (length rm.replicas) max_replicas) _ _
          (λ room.
            with_table-Inv _ v
              (snoc-IsTable (joined_replica (clock 0) i) (joined_new new) room v.table))
          (λ _. v))
  where
    joined_new :
        any (has_id i) rm.replicas ≡ false
        → any (has_id (joined_replica (clock 0) i).id) rm.replicas ≡ false
    joined_new e = unfold joined_replica in e

handle_join-Inv : (rm : Manager) (clock : Clock) (i : ℤ) → Inv rm → Holds (handle_join rm clock i)
unfolding handle_join
handle_join-Inv rm clock i v = add_replica-Inv rm clock i v

suspect-Inv : (rm : Manager) → Inv rm → Inv (suspect rm)
unfolding suspect
suspect-Inv rm v = with_table-Inv _ v (update-IsTable rm.primary_id _ (λ r _. refl) v.table)

pub check_primary_status-Inv :
    (rm : Manager) (clock : Clock) → Inv rm → Holds (check_primary_status rm clock)
unfolding check_primary_status
check_primary_status-Inv rm clock v =
    if_cases Holds rm.is_primary _ _ (λ _. v)
      (λ replica. elim (Option-cases (find_first (has_id rm.primary_id) rm.replicas)) [
        | inl e ↦ rw e (start_election-Inv rm (later clock) replica v)
        | inr (r, e) ↦ rw e (
            if_intro Holds (is_live_primary (clock 0) r) _ _ v (
              if_intro Holds rm.received_initial_state _ _
                (start_election-Inv (suspect rm) (later clock) (unfold suspect in replica)
                  (suspect-Inv rm v))
                v))
      ])

pub update_state-Inv :
    (rm : Manager) (clock : Clock) (new_sum seqn : ℤ)
    → Inv rm
    → Inv (update_state rm clock new_sum seqn).0
unfolding update_state
update_state-Inv rm clock new_sum seqn v = record {
  own_primary = v.own_primary;
  settled = v.settled;
  table = v.table;
}

-- What a call that may fault leaves, if it does not.
abbrev Keeps : Option (Manager × Effects) → Type 0
Keeps none = Unit
Keeps (some x) = Holds x

merge-Keeps :
    (rm : Manager) (o : Option (List ReplicaInfo))
    → Inv rm
    → ((rs : List ReplicaInfo) → o ≡ some rs → IsTable rs)
    → Keeps (Option.map (λ rs. (record rm { replicas = rs }, [])) o)
merge-Keeps rm none v t = tt
merge-Keeps rm (some rs) v t = with_table-Inv rs v (t rs refl)

dispatch-Keeps :
    (t : MessageType) (rm : Manager) (clock : Clock) (msg : Message) (sender : SockAddr)
    → Inv rm
    → Keeps (dispatch t rm clock msg sender)
unfolding dispatch
dispatch-Keeps MessageType.heartbeat rm clock msg sender v =
    with_table-Inv _ v (update-IsTable msg.replica_id (seen (clock 0)) (λ r _. refl) v.table)
dispatch-Keeps MessageType.join_request rm clock msg sender v =
    if_intro Holds rm.is_primary _ _ (handle_join-Inv rm clock msg.replica_id v) v
dispatch-Keeps MessageType.state_update rm clock msg sender v =
    handle_state_update-Inv rm clock msg sender v
dispatch-Keeps MessageType.state_ack rm clock msg sender v =
    if_intro Holds rm.is_primary _ _
      (with_table-Inv _ v (update-IsTable msg.replica_id confirmed (λ r _. refl) v.table)) v
dispatch-Keeps MessageType.replica_list_update rm clock msg sender v =
    merge-Keeps rm _ v (λ rs e. merge_replicas-IsTable _ msg.replicas rm.replicas v.table e)
dispatch-Keeps MessageType.start_election rm clock msg sender v =
    handle_election_start-Inv rm clock msg sender v
dispatch-Keeps MessageType.election_response rm clock msg sender v =
    handle_election_response-Inv rm clock msg v
dispatch-Keeps MessageType.victory rm clock msg sender v =
    handle_victory_declaration-Inv rm clock msg sender v
dispatch-Keeps MessageType.victory_ack rm clock msg sender v =
    with_table-Inv _ v (update-IsTable msg.replica_id confirmed (λ r _. refl) v.table)
dispatch-Keeps MessageType.unknown rm clock msg sender v = v

pub learn_addr-Inv :
    (rm : Manager) (i : ℤ) (sender : SockAddr) → Inv rm → Inv (learn_addr rm i sender)
unfolding learn_addr
learn_addr-Inv rm i sender v = with_table-Inv _ v (update-IsTable i _ (λ r _. refl) v.table)

receiver_round-Keeps :
    (rm : Manager) (clock : Clock) (a : Arrival) → Inv rm → Keeps (receiver_round rm clock a)
unfolding receiver_round process_replication_message
receiver_round-Keeps rm clock (Arrival.whole msg sender) v =
    dispatch-Keeps msg.type (learn_addr rm msg.replica_id sender) clock msg sender
      (learn_addr-Inv rm msg.replica_id sender v)
receiver_round-Keeps rm clock Arrival.partial v = v

-- Every round of the receiver that ends keeps the invariant, whatever arrived: the primary
-- follows itself and is in no election, no server stands twice in the table, and at most ten do.
pub receiver_round-Inv :
    (rm : Manager) (clock : Clock) (a : Arrival) {rm' : Manager} {es : Effects}
    → Inv rm
    → receiver_round rm clock a ≡ some (rm', es)
    → Inv rm'
receiver_round-Inv rm clock a v e = subst Keeps e (receiver_round-Keeps rm clock a v)
