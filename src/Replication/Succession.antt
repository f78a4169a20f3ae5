-- ===== src/Replication/Succession.antt =====
-- The messages of an election: the winner is followed.
use mathlib.Core.List.{append_assoc}
use threaded_network_adder.Base.{
  ap, get_elem?, ℕ, suc, ◌*◌, ◌≡◌, refl, ◌∙◌, Bool, true, false, some, List, [], ◌∷◌, ◌++◌, ℤ, ◌≤ℤ◌,
  ◌<ℤ◌, arith, lock, sleep, unlock, inl, any,
}
use threaded_network_adder.Net.{SockAddr}
use threaded_network_adder.Replication.Types.{
  MessageType, ReplicaInfo, Manager, Datagram, Effects, Clock, election_timeout_ms,
}
use threaded_network_adder.Replication.Table.{has_id, datagram, for_replicas}
use threaded_network_adder.Replication.Election.{
  is_recent_primary, is_higher, victory_message, victory_calls, first_state_call, declare_victory,
  start_election, adopt_state, follow, handle_victory_declaration,
}
use threaded_network_adder.Replication.State.{state_message}
use threaded_network_adder.Replication.Receiver.{
  Arrival, dispatch, process_replication_message, learn_addr, receiver_round,
}
use threaded_network_adder.Replication.Sends.{
  Sends, SendsInOrder, Sends-append_left, Sends-for_replicas, Sends-send_times,
}
use threaded_network_adder.Replication.Agreement.{
  received, receive_state, received-role, received-newer,
}

pub any-get_elem? :
    (p : ReplicaInfo → Bool) (rs : List ReplicaInfo) (k : ℕ) (r : ReplicaInfo)
    → get_elem? rs k ≡ some r
    → p r ≡ true
    → any p rs ≡ true
unfolding any
any-get_elem? p [] k r e h = cc
any-get_elem? p (x ∷ rs) ℕ.zero r e h = ground (arith, h)
any-get_elem? p (x ∷ rs) (suc k) r e h = ground (arith, any-get_elem? p rs k r e h)

-- Both rounds of a victory reach every other server of the table.
module _ (rm : Manager) (now : ℤ) (k : ℕ) (r : ReplicaInfo) (at : get_elem? rm.replicas k ≡ some r)
    (other : has_id rm.my_id r ≡ false) where
  victory_datagram : Datagram
  victory_datagram = datagram r.addr (victory_message rm now)

  state_datagram : Datagram
  state_datagram =
      datagram r.addr (record (victory_message rm now) { type = MessageType.state_update })

  -- The loop of victories goes before those of states.
  declare_victory-SendsInOrder :
      (behind : Effects)
      → SendsInOrder victory_datagram state_datagram (lock ∷ (declare_victory rm now ++ behind))
  unfolding declare_victory victory_datagram state_datagram Sends
  declare_victory-SendsInOrder behind = record {
    before = lock ∷ victories;
    behind = states ++ behind;
    split = ap (λ (es : Effects). lock ∷ es) (append_assoc victories states behind);
    first =
        Sends-for_replicas _ (λ _ x. victory_calls rm now x) 0 k rm.replicas r at
          (rw other (Sends-send_times 2 (datagram r.addr (victory_message rm now))));
    second = Sends-append_left state_datagram states behind (
        Sends-for_replicas state_datagram (λ _ x. first_state_call rm now x) 0 k rm.replicas r at
          (unfold Sends in rw other (inl refl)));
  }
    where
      victories : Effects
      victories = for_replicas (λ _ x. victory_calls rm now x) 0 rm.replicas

      states : Effects
      states = for_replicas (λ _ x. first_state_call rm now x) 0 rm.replicas

-- What a server makes of a victory.
receive_victory :
    (w n : Manager) (clock : Clock) (now : ℤ) (sender : SockAddr)
    → receiver_round n clock (Arrival.whole (victory_message w now) sender)
      ≡ some (
          handle_victory_declaration
            (learn_addr n w.my_id sender)
            clock
            (victory_message w now)
            sender)
unfolding receiver_round process_replication_message dispatch victory_message
receive_victory w n clock now sender = refl

-- It follows a higher identifier, and takes its state unless that is older than its own.
module _ (w n : Manager) (clock : Clock) (now : ℤ) (sender : SockAddr)
    (lower : n.my_id <ℤ w.my_id) where
  abbrev after_victory : Manager
  after_victory =
      (handle_victory_declaration (learn_addr n w.my_id sender) clock (victory_message w now)
        sender).0

  victory-role :
      (after_victory.is_primary ≡ false)
      × (after_victory.primary_id ≡ w.my_id)
      × (after_victory.my_id ≡ n.my_id)
      × (after_victory.election_in_progress ≡ false)
  unfolding handle_victory_declaration victory_message learn_addr follow adopt_state
  victory-role = ground arith

  victory-state :
      n.last_seqn ≤ℤ w.last_seqn
      → (after_victory.current_sum ≡ w.current_sum) × (after_victory.last_seqn ≡ w.last_seqn)
  unfolding handle_victory_declaration victory_message learn_addr follow adopt_state
  victory-state newer = ground arith

state_of_victory :
    (w : Manager) (now : ℤ)
    → record (victory_message w now) { type = MessageType.state_update } ≡ state_message w now
unfolding victory_message state_message
state_of_victory w now = refl

start_election-won :
    (w : Manager) (clock : Clock)
    → any (is_recent_primary w (clock 0)) w.replicas ≡ false
    → any (is_higher w.my_id) w.replicas ≡ false
    → start_election w clock ≡ (
      record w { is_primary = true; primary_id = w.my_id; election_in_progress = false },
      lock ∷ (declare_victory w (clock 1) ++ unlock ∷ sleep (election_timeout_ms * 1000) ∷ []),
    )
unfolding start_election
start_election-won w clock silent highest = rw (silent, highest)

-- The winner `w` sends a victory and its state, after which `n` is its replica.
pub record Followed (w n : Manager) (clock c1 c2 : Clock) (sender : SockAddr) (r : ReplicaInfo)
    : Type 0 where
  pub victory : Datagram
  pub state : Datagram
  pub between : Manager
  pub at_end : Manager
  pub effects1 : Effects
  pub effects2 : Effects
  pub sent_in_order : SendsInOrder victory state (start_election w clock).1
  pub to_replica : (victory.dest ≡ r.addr) × (state.dest ≡ r.addr)
  pub round1 : receiver_round n c1 (Arrival.whole victory.msg sender) ≡ some (between, effects1)
  pub round2 : receiver_round between c2 (Arrival.whole state.msg sender) ≡ some (at_end, effects2)
  pub is_replica : at_end.is_primary ≡ false
  pub follows : at_end.primary_id ≡ (start_election w clock).0.my_id
  pub same_sum : at_end.current_sum ≡ (start_election w clock).0.current_sum
  pub same_seqn : at_end.last_seqn ≡ (start_election w clock).0.last_seqn
  pub ready : at_end.received_initial_state ≡ true

-- The winner of an election is followed. It sends every other server in its table a victory and,
-- later, its state; a server of a lower identifier, with no newer state, that receives the two in
-- this order ends as a replica of the winner with the winner's sum and sequence number.
pub start_election-Followed :
    (w n : Manager) (clock c1 c2 : Clock) (sender : SockAddr) (k : ℕ) (r : ReplicaInfo)
    → any (is_recent_primary w (clock 0)) w.replicas ≡ false
    → any (is_higher w.my_id) w.replicas ≡ false
    → get_elem? w.replicas k ≡ some r
    → has_id w.my_id r ≡ false
    → n.my_id <ℤ w.my_id
    → n.last_seqn ≤ℤ w.last_seqn
    → Followed w n clock c1 c2 sender r
unfolding victory_datagram state_datagram state_message victory_message
start_election-Followed w n clock c1 c2 sender k r silent highest at other lower newer =
    let now : ℤ = clock 1 in
    let n1 : Manager = after_victory w n c1 now sender lower in
    let (deposed, followed, _, _) = victory-role w n c1 now sender lower in
    let (_, number) = victory-state w n c1 now sender lower newer in
    let level : n1.last_seqn ≤ℤ w.last_seqn = rw number (omega arith) in
    let (role, leader) = received-role w n1 c2 now sender followed in
    let (sum, last, up_to_date) = received-newer w n1 c2 now sender followed level in
    let won = start_election-won w clock silent highest in
    record {
      victory = datagram r.addr (victory_message w now);
      state = datagram r.addr (state_message w now);
      between = n1;
      at_end = received w n1 c2 now sender followed;
      effects1 = _;
      effects2 = _;
      sent_in_order = rw won (declare_victory-SendsInOrder w now k r at other _);
      to_replica = (refl, refl);
      round1 = receive_victory w n c1 now sender;
      round2 = receive_state w n1 c2 now sender;
      is_replica = role ∙ deposed;
      follows = rw won (leader ∙ followed);
      same_sum = rw won sum;
      same_seqn = rw won last;
      ready = up_to_date;
    }
