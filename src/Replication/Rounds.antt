-- ===== src/Replication/Rounds.antt =====
-- The rounds of the threads of replication.c sign the datagrams that they send, and keep the
-- identifier and every property of the state.
use threaded_network_adder.Base.{
  pos, refl, inl, inr, Option, none, some, [], ◌∷◌, not, subst, ◌&&◌, ℤ, pos_part, ltb, length,
  length-append, ◌≤◌, ◌≡◌, true, arith, if_cases, if_intro, Option-cases, All-append, any,
  find_first, lock, unlock,
}
use threaded_network_adder.Net.{SockAddr}
use threaded_network_adder.Replication.Types.{
  max_replicas, MessageType, Message, Manager, Effects, Clock,
}
use threaded_network_adder.Replication.Table.{has_id, send_replica_list, heartbeat_round}
use threaded_network_adder.Replication.Election.{
  later, start_election, check_primary_status, suspect, is_live_primary,
}
use threaded_network_adder.Replication.State.{propagate, update_state}
use threaded_network_adder.Replication.Membership.{
  joined_replica, with_joined, announce, add_replica, merge_replicas,
}
use threaded_network_adder.Replication.Receiver.{
  learn_addr, handle_join, dispatch, process_replication_message, Arrival, receiver_round,
}
use threaded_network_adder.Replication.Origin.{
  Holds, Carries, IsSigned, AllSigned, Signs, send_times-AllSigned, for_replicas-AllSigned,
  section-AllSigned, after-Signs, state_message-Signed, join_message-Signed,
  heartbeat_message-Signed, replica_list-Signed, start_election-Signs,
}
use threaded_network_adder.Replication.Role.{Inv, add_replica-Inv, learn_addr-Inv}
use threaded_network_adder.Replication.Signing.{
  handle_election_start-Signs, handle_election_response-Signs, handle_victory_declaration-Signs,
  handle_state_update-Signs,
}

module _ (Q : ℤ → ℤ → Type 0) where
  abbrev pub MaySign : ℤ → Option (Manager × Effects) → Type 0
  MaySign i none = Unit
  MaySign i (some x) = Signs Q i x

  -- What arrives carries a state that holds.
  abbrev pub Brings : Arrival → Type 0
  Brings (Arrival.whole msg sender) = Carries Q msg
  Brings Arrival.partial = Unit

with_joined-room :
    (rm : Manager) (now i : ℤ)
    → ltb (length rm.replicas) max_replicas ≡ true
    → length (with_joined rm now i).replicas ≤ max_replicas
with_joined-room rm now i vacant =
    ground (arith, length-append rm.replicas (joined_replica now i ∷ []))

module _ (Q : ℤ → ℤ → Type 0) (z : Q (pos 0) (pos 0)) where
  pub check_primary_status-Signs :
      (rm : Manager) (q : Holds Q rm) (clock : Clock)
      → Signs Q rm.my_id (check_primary_status rm clock)
  unfolding check_primary_status suspect
  check_primary_status-Signs rm q clock =
      if_intro (Signs Q rm.my_id) rm.is_primary _ _ (refl, (q, tt))
        (elim (Option-cases (find_first (has_id rm.primary_id) rm.replicas)) [
          | inl e ↦ rw e (
              after-Signs Q z rm.my_id (lock ∷ unlock ∷ []) (start_election rm (later clock))
                (tt, (tt, tt)) (start_election-Signs Q z rm q (later clock)))
          | inr (r, e) ↦ rw e (
              if_intro (Signs Q rm.my_id) (is_live_primary (clock 0) r) _ _
                (refl, (q, (tt, (tt, tt))))
                (if_intro (Signs Q rm.my_id) rm.received_initial_state _ _
                  (after-Signs Q z rm.my_id (lock ∷ unlock ∷ [])
                    (start_election (suspect rm) (later clock)) (tt, (tt, tt))
                    (start_election-Signs Q z (suspect rm) q (later clock)))
                  (refl, (q, (tt, (tt, tt))))))
        ])

  send_replica_list-AllSigned :
      (rm : Manager) (room : length rm.replicas ≤ max_replicas) (now target : ℤ)
      → AllSigned Q rm.my_id (send_replica_list rm now target)
  unfolding send_replica_list
  send_replica_list-AllSigned rm room now target =
      elim (Option-cases (find_first (has_id target) rm.replicas)) [
        | inl e ↦ rw e (tt, (tt, tt))
        | inr (r, e) ↦ rw e (
            section-AllSigned Q z rm.my_id _ []
              (send_times-AllSigned Q z rm.my_id 3 _ (replica_list-Signed Q z rm room now)) tt)
      ]

  announce-AllSigned :
      (rm : Manager) (room : length rm.replicas ≤ max_replicas) (clock : Clock)
      → AllSigned Q rm.my_id (announce rm clock)
  unfolding announce
  announce-AllSigned rm room clock =
      for_replicas-AllSigned Q z rm.my_id _
        (λ k r.
          if_intro (AllSigned Q rm.my_id) (has_id rm.my_id r) _ _ tt
            (send_replica_list-AllSigned rm room (clock k) r.id))
        0 rm.replicas

  add_replica-Signs :
      (rm : Manager) (q : Holds Q rm) (clock : Clock) (i : ℤ)
      → Signs Q rm.my_id (add_replica rm clock i)
  unfolding add_replica
  add_replica-Signs rm q clock i =
      if_intro (Signs Q rm.my_id) (any (has_id i) rm.replicas) _ _ (refl, (q, tt))
        (if_cases (Signs Q rm.my_id) (ltb (length rm.replicas) max_replicas) _ _
          (λ vacant. (
            refl,
            (
              q,
              if_intro (AllSigned Q rm.my_id) rm.is_primary _ _
                  (announce-AllSigned (with_joined rm (clock 0) i)
                    (with_joined-room rm (clock 0) i vacant) (later clock))
                  (send_times-AllSigned Q z rm.my_id 3 _ (join_message-Signed Q z rm q (clock 1))),
            ),
          ))
          (λ _. (refl, (q, tt))))

  handle_join-Signs :
      (rm : Manager) (v : Inv rm) (q : Holds Q rm) (clock : Clock) (i : ℤ)
      → Signs Q rm.my_id (handle_join rm clock i)
  unfolding handle_join
  handle_join-Signs rm v q clock i =
      let added = add_replica-Signs rm q clock i in
      (
        added.0,
        (
          added.1.0,
          All-append (IsSigned Q rm.my_id) _ _ added.1.1 (
              subst
                (λ (j : ℤ).
                  AllSigned Q j (send_replica_list (add_replica rm clock i).0 (clock 20) i))
                added.0
                (send_replica_list-AllSigned (add_replica rm clock i).0
                  (add_replica-Inv rm clock i v).table.bounded (clock 20) i)),
        ),
      )

  propagate-AllSigned :
      (rm : Manager) (q : Holds Q rm) (now : ℤ) → AllSigned Q rm.my_id (propagate rm now)
  unfolding propagate
  propagate-AllSigned rm q now =
      if_intro (AllSigned Q rm.my_id) rm.is_primary _ _
        (for_replicas-AllSigned Q z rm.my_id _
          (λ _ r.
            if_intro (AllSigned Q rm.my_id) (not (has_id rm.my_id r) && r.is_alive) _ _
              (state_message-Signed Q z rm q now, tt) tt)
          0 rm.replicas)
        tt

  pub update_state-Signs :
      (rm : Manager) (clock : Clock) (new_sum seqn : ℤ) (q : Q new_sum seqn)
      → let r = update_state rm clock new_sum seqn in Signs Q rm.my_id (r.0, r.1)
  unfolding update_state
  update_state-Signs rm clock new_sum seqn q = (
    refl,
    (
      q,
      section-AllSigned Q z rm.my_id _ []
          (propagate-AllSigned (record rm { current_sum = new_sum; last_seqn = seqn }) q (clock 0))
          tt,
    ),
  )

  pub heartbeat_round-AllSigned :
      (rm : Manager) (q : Holds Q rm) (now : ℤ) → AllSigned Q rm.my_id (heartbeat_round rm now)
  unfolding heartbeat_round
  heartbeat_round-AllSigned rm q now =
      section-AllSigned Q z rm.my_id _ _
        (if_intro (AllSigned Q rm.my_id) rm.is_primary _ _
          (for_replicas-AllSigned Q z rm.my_id _
            (λ _ r.
              if_intro (AllSigned Q rm.my_id) (not (has_id rm.my_id r) && r.is_alive) _ _
                (heartbeat_message-Signed Q z rm q now, tt) tt)
            0 rm.replicas)
          tt)
        (tt, tt)

  dispatch-MaySign :
      (t : MessageType) (rm : Manager) (v : Inv rm) (q : Holds Q rm) (clock : Clock) (msg : Message)
      (c : Carries Q msg) (sender : SockAddr)
      → MaySign Q rm.my_id (dispatch t rm clock msg sender)
  unfolding dispatch
  dispatch-MaySign MessageType.heartbeat rm v q clock msg c sender = (refl, (q, (tt, (tt, tt))))
  dispatch-MaySign MessageType.join_request rm v q clock msg c sender =
      if_intro (Signs Q rm.my_id) rm.is_primary _ _ (handle_join-Signs rm v q clock msg.replica_id)
        (refl, (q, tt))
  dispatch-MaySign MessageType.state_update rm v q clock msg c sender =
      handle_state_update-Signs Q z rm q clock msg c sender
  dispatch-MaySign MessageType.state_ack rm v q clock msg c sender =
      if_intro (Signs Q rm.my_id) rm.is_primary _ _ (refl, (q, (tt, (tt, tt)))) (refl, (q, tt))
  dispatch-MaySign MessageType.replica_list_update rm v q clock msg c sender =
      elim (Option-cases (merge_replicas (pos_part msg.replica_count) msg.replicas rm.replicas)) [
        | inl e ↦ rw e tt
        | inr (rs, e) ↦ rw e (refl, (q, tt))
      ]
  dispatch-MaySign MessageType.start_election rm v q clock msg c sender =
      handle_election_start-Signs Q z rm q clock msg sender
  dispatch-MaySign MessageType.election_response rm v q clock msg c sender =
      handle_election_response-Signs Q z rm q clock msg
  dispatch-MaySign MessageType.victory rm v q clock msg c sender =
      handle_victory_declaration-Signs Q z rm q clock msg c sender
  dispatch-MaySign MessageType.victory_ack rm v q clock msg c sender = (refl, (q, (tt, (tt, tt))))
  dispatch-MaySign MessageType.unknown rm v q clock msg c sender = (refl, (q, tt))

  pub receiver_round-MaySign :
      (rm : Manager) (v : Inv rm) (q : Holds Q rm) (clock : Clock) (a : Arrival) (c : Brings Q a)
      → MaySign Q rm.my_id (receiver_round rm clock a)
  unfolding receiver_round process_replication_message learn_addr
  receiver_round-MaySign rm v q clock (Arrival.whole msg sender) c =
      dispatch-MaySign msg.type (learn_addr rm msg.replica_id sender)
        (learn_addr-Inv rm msg.replica_id sender v) q clock msg c sender
  receiver_round-MaySign rm v q clock Arrival.partial c = (refl, (q, tt))
