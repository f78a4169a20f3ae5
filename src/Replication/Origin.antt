-- ===== src/Replication/Origin.antt =====
-- What the datagrams of a server say of themselves: they carry the identifier of the server, a count
-- that their array holds, and a state that holds.
use threaded_network_adder.Base.{
  pos, ℕ, zero, suc, ◌≡◌, refl, List, [], ◌∷◌, ◌++◌, ℤ, length, ◌≤◌, if_intro, All, All-append, any,
  arith, lock, unlock, send, sleep, Effect,
}
use threaded_network_adder.Replication.Types.{
  MessageType, ReplicaInfo, Message, Manager, Datagram, Effects, Clock, zero_message, max_replicas,
}
use threaded_network_adder.Replication.Table.{
  has_id, send_times, for_replicas, replica_list, heartbeat_message,
}
use threaded_network_adder.Replication.Election.{
  after, later, is_recent_primary, is_higher, election_message, victory_message, challenge_all,
  declare_victory, start_election, response_message, ack_message,
}
use threaded_network_adder.Replication.State.{state_message}
use threaded_network_adder.Replication.Distinct.{length-fill_slots}
use threaded_network_adder.Replication.Membership.{join_message}
use threaded_network_adder.Replication.Faults.{IsSized}

-- `Q` is any property of a sum with its sequence number.
module _ (Q : ℤ → ℤ → Type 0) where
  abbrev pub Holds : Manager → Type 0
  Holds rm = Q rm.current_sum rm.last_seqn

  abbrev pub Carries : Message → Type 0
  Carries m = Q m.current_sum m.last_seqn

  abbrev pub Signed : ℤ → Message → Type 0
  Signed i m = (m.replica_id ≡ i) × (IsSized m × Carries m)

  abbrev pub IsSigned : ℤ → Effect Datagram → Type 0
  IsSigned i lock = Unit
  IsSigned i unlock = Unit
  IsSigned i (sleep n) = Unit
  IsSigned i (send d) = Signed i d.msg

  abbrev pub AllSigned : ℤ → Effects → Type 0
  AllSigned i es = All (IsSigned i) es

  -- A call by the server `i`: it keeps its identifier, its state holds, and it signs what it sends.
  abbrev pub Signs : ℤ → Manager × Effects → Type 0
  Signs i x = (x.0.my_id ≡ i) × (Holds x.0 × AllSigned i x.1)

-- `Q` holds of the state that a server begins with, and that an empty message carries.
module _ (Q : ℤ → ℤ → Type 0) (z : Q (pos 0) (pos 0)) where
  pub send_times-AllSigned :
      (i : ℤ) (n : ℕ) (d : Datagram) → Signed Q i d.msg → AllSigned Q i (send_times n d)
  unfolding send_times
  send_times-AllSigned i zero d s = tt
  send_times-AllSigned i (suc n) d s = (s, (tt, send_times-AllSigned i n d s))

  pub for_replicas-AllSigned :
      (i : ℤ) (body : ℕ → ReplicaInfo → Effects)
      → ((k : ℕ) (r : ReplicaInfo) → AllSigned Q i (body k r))
      → (k : ℕ) (rs : List ReplicaInfo) → AllSigned Q i (for_replicas body k rs)
  unfolding for_replicas
  for_replicas-AllSigned i body q k [] = tt
  for_replicas-AllSigned i body q k (r ∷ rs) =
      All-append (IsSigned Q i) _ _ (q k r) (for_replicas-AllSigned i body q (suc k) rs)

  pub section-AllSigned :
      (i : ℤ) (es fs : Effects)
      → AllSigned Q i es
      → AllSigned Q i fs
      → AllSigned Q i (lock ∷ (es ++ unlock ∷ fs))
  section-AllSigned i es fs p q = (tt, All-append (IsSigned Q i) es (unlock ∷ fs) p (tt, q))

  pub after-Signs :
      (i : ℤ) (es : Effects) (x : Manager × Effects)
      → AllSigned Q i es
      → Signs Q i x
      → Signs Q i (after es x)
  after-Signs i es (rm, fs) p q = (q.0, (q.1.0, All-append (IsSigned Q i) es fs p q.1.1))

  -- The messages without a list.
  election_message-Signed :
      (rm : Manager) (q : Holds Q rm) (now : ℤ) → Signed Q rm.my_id (election_message rm now)
  unfolding election_message zero_message
  election_message-Signed rm q now = (refl, (omega arith, z))

  victory_message-Signed :
      (t : MessageType) (rm : Manager) (q : Holds Q rm) (now : ℤ)
      → Signed Q rm.my_id (record (victory_message rm now) { type = t })
  unfolding victory_message zero_message
  victory_message-Signed t rm q now = (refl, (omega arith, q))

  pub response_message-Signed :
      (rm : Manager) (q : Holds Q rm) (now : ℤ) → Signed Q rm.my_id (response_message rm now)
  unfolding response_message zero_message
  response_message-Signed rm q now = (refl, (omega arith, z))

  pub ack_message-Signed :
      (t : MessageType) (rm : Manager) (q : Holds Q rm) (now : ℤ)
      → Signed Q rm.my_id (ack_message t rm now)
  unfolding ack_message zero_message
  ack_message-Signed t rm q now = (refl, (omega arith, q))

  pub state_message-Signed :
      (rm : Manager) (q : Holds Q rm) (now : ℤ) → Signed Q rm.my_id (state_message rm now)
  unfolding state_message zero_message
  state_message-Signed rm q now = (refl, (omega arith, q))

  pub join_message-Signed :
      (rm : Manager) (q : Holds Q rm) (now : ℤ) → Signed Q rm.my_id (join_message rm now)
  unfolding join_message zero_message
  join_message-Signed rm q now = (refl, (omega arith, z))

  pub heartbeat_message-Signed :
      (rm : Manager) (q : Holds Q rm) (now : ℤ) → Signed Q rm.my_id (heartbeat_message rm now)
  unfolding heartbeat_message zero_message
  heartbeat_message-Signed rm q now = (refl, (omega arith, q))

  pub replica_list-Signed :
      (rm : Manager) (room : length rm.replicas ≤ max_replicas) (now : ℤ)
      → Signed Q rm.my_id (replica_list rm now)
  unfolding replica_list zero_message
  replica_list-Signed rm room now =
      (refl, (omega (arith, room, length-fill_slots max_replicas rm.replicas), z))

  challenge_all-AllSigned :
      (rm : Manager) (q : Holds Q rm) (clock : Clock)
      → AllSigned Q rm.my_id (challenge_all rm clock)
  unfolding challenge_all
  challenge_all-AllSigned rm q clock =
      for_replicas-AllSigned rm.my_id _
        (λ k r.
          if_intro (AllSigned Q rm.my_id) (is_higher rm.my_id r) _ _
            (send_times-AllSigned rm.my_id 3 _ (election_message-Signed rm q (clock k))) tt)
        0 rm.replicas

  declare_victory-AllSigned :
      (rm : Manager) (q : Holds Q rm) (now : ℤ) → AllSigned Q rm.my_id (declare_victory rm now)
  unfolding declare_victory
  declare_victory-AllSigned rm q now =
      All-append (IsSigned Q rm.my_id) _ _
        (for_replicas-AllSigned rm.my_id _
          (λ _ r. if_intro (AllSigned Q rm.my_id) (has_id rm.my_id r) _ _ tt (
            send_times-AllSigned rm.my_id 3 _
              (victory_message-Signed MessageType.victory rm q now)))
          0 rm.replicas)
        (for_replicas-AllSigned rm.my_id _
          (λ _ r.
            if_intro (AllSigned Q rm.my_id) (has_id rm.my_id r) _ _ tt
              (victory_message-Signed MessageType.state_update rm q now, tt))
          0 rm.replicas)

  pub start_election-Signs :
      (rm : Manager) (q : Holds Q rm) (clock : Clock) → Signs Q rm.my_id (start_election rm clock)
  unfolding start_election
  start_election-Signs rm q clock =
      if_intro (Signs Q rm.my_id) (any (is_recent_primary rm (clock 0)) rm.replicas) _ _
        (refl, (q, (tt, (tt, tt))))
        (if_intro (Signs Q rm.my_id) (any (is_higher rm.my_id) rm.replicas) _ _
          (
            refl,
            (
              q,
              section-AllSigned rm.my_id _ _ (challenge_all-AllSigned rm q (later clock)) (tt, tt),
            ),
          )
          (
            refl,
            (q, section-AllSigned rm.my_id _ _ (declare_victory-AllSigned rm q (clock 1)) (tt, tt)),
          ))
