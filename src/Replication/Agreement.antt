-- ===== src/Replication/Agreement.antt =====
-- The primary's sum reaches its replicas, or does not, by the sequence numbers.
use threaded_network_adder.Base.{
  get_elem?, ℕ, ◌+◌, ◌≡◌, refl, true, false, not, ◌&&◌, some, [], ◌∷◌, ℤ, ==ℤ_iff, ◌≤ℤ◌, ◌<ℤ◌,
  arith, if◌then◌else◌, send, unlock, inl,
}
use threaded_network_adder.Net.{SockAddr}
use threaded_network_adder.Replication.Types.{ReplicaInfo, Manager, Datagram, Effects, Clock}
use threaded_network_adder.Replication.Table.{has_id, datagram}
use threaded_network_adder.Replication.Election.{adopt_state}
use threaded_network_adder.Replication.State.{
  state_message, propagate, update_state, handle_state_update,
}
use threaded_network_adder.Replication.Receiver.{
  Arrival, dispatch, process_replication_message, learn_addr, receiver_round,
}
use threaded_network_adder.Replication.Sends.{Sends, Sends-section, Sends-for_replicas}

-- The datagram for one replica.
abbrev pub update_for : Manager → ℤ → ℤ → ℤ → ReplicaInfo → Datagram
update_for p now new_sum seqn r =
    datagram r.addr (state_message (record p { current_sum = new_sum; last_seqn = seqn }) now)

-- The primary sends its new state to every live replica in its table.
pub update_state-Sends :
    (p : Manager) (clock : Clock) (new_sum seqn : ℤ) (k : ℕ) (r : ReplicaInfo)
    → p.is_primary ≡ true
    → get_elem? p.replicas k ≡ some r
    → has_id p.my_id r ≡ false
    → r.is_alive ≡ true
    → Sends (update_for p (clock 0) new_sum seqn r) (update_state p clock new_sum seqn).1
unfolding update_state propagate
update_state-Sends p clock new_sum seqn k r primary at other alive =
    Sends-section d _ (unlock ∷ [])
      (ground (arith, Sends-for_replicas d body 0 k p.replicas r at sent))
  where
    d : Datagram
    d = update_for p (clock 0) new_sum seqn r

    body : ℕ → ReplicaInfo → Effects
    body = λ _ x.
        if not (has_id p.my_id x) && x.is_alive
        then send (update_for p (clock 0) new_sum seqn x) ∷ []
        else []

    sent : Sends d (body (0 + k) r)
    sent = unfold Sends in rw (other, alive) (inl refl)

-- What a replica makes of the state of its primary.
pub receive_state :
    (p n : Manager) (clock : Clock) (now : ℤ) (sender : SockAddr)
    → receiver_round n clock (Arrival.whole (state_message p now) sender)
      ≡ some (handle_state_update (learn_addr n p.my_id sender) clock (state_message p now) sender)
unfolding receiver_round process_replication_message dispatch state_message
receive_state p n clock now sender = refl

-- A replica of the primary takes its state unless that is older than its own.
module _ (p n : Manager) (clock : Clock) (now : ℤ) (sender : SockAddr)
    (follows : n.primary_id ≡ p.my_id) where
  abbrev pub received : Manager
  received =
      (handle_state_update (learn_addr n p.my_id sender) clock (state_message p now) sender).0

  pub received-newer :
      n.last_seqn ≤ℤ p.last_seqn
      → (received.current_sum ≡ p.current_sum)
        × (received.last_seqn ≡ p.last_seqn)
        × (received.received_initial_state ≡ true)
  unfolding handle_state_update state_message learn_addr adopt_state
  received-newer newer = ground (arith, ==ℤ_iff p.my_id n.primary_id)

  pub received-role : (received.is_primary ≡ n.is_primary) × (received.primary_id ≡ n.primary_id)
  unfolding handle_state_update state_message learn_addr adopt_state
  received-role = ground arith

  pub received-older :
      p.last_seqn <ℤ n.last_seqn
      → (received.current_sum ≡ n.current_sum) × (received.last_seqn ≡ n.last_seqn)
  unfolding handle_state_update state_message learn_addr adopt_state
  received-older older = ground (arith, ==ℤ_iff p.my_id n.primary_id)

-- One of the datagrams of update_state on `p` makes the replica `n` agree.
pub record Agrees (p n : Manager) (clock clock' : Clock) (new_sum seqn : ℤ) (sender : SockAddr)
    (r : ReplicaInfo) : Type 0 where
  pub sent : Datagram
  pub updated : Manager
  pub effects : Effects
  pub is_sent : Sends sent (update_state p clock new_sum seqn).1
  pub to_replica : sent.dest ≡ r.addr
  pub round : receiver_round n clock' (Arrival.whole sent.msg sender) ≡ some (updated, effects)
  pub same_sum : updated.current_sum ≡ (update_state p clock new_sum seqn).0.current_sum
  pub same_seqn : updated.last_seqn ≡ (update_state p clock new_sum seqn).0.last_seqn
  pub ready : updated.received_initial_state ≡ true

-- A primary that sets its sum sends each live replica in its table a datagram, at the address in
-- its entry, that makes it agree: a replica that follows this primary and has no newer state takes
-- the sum and the sequence number, and counts as up to date.
pub update_state-Agrees :
    (p n : Manager) (clock clock' : Clock) (new_sum seqn : ℤ) (sender : SockAddr) (k : ℕ)
    (r : ReplicaInfo)
    → p.is_primary ≡ true
    → get_elem? p.replicas k ≡ some r
    → has_id p.my_id r ≡ false
    → r.is_alive ≡ true
    → n.primary_id ≡ p.my_id
    → n.last_seqn ≤ℤ seqn
    → Agrees p n clock clock' new_sum seqn sender r
unfolding update_state
update_state-Agrees p n clock clock' new_sum seqn sender k r primary at other alive follows newer =
    let p' = record p { current_sum = new_sum; last_seqn = seqn } in
    let (sum, number, up_to_date) = received-newer p' n clock' (clock 0) sender follows newer in
    record {
      sent = update_for p (clock 0) new_sum seqn r;
      updated = received p' n clock' (clock 0) sender follows;
      effects = _;
      is_sent = update_state-Sends p clock new_sum seqn k r primary at other alive;
      to_replica = refl;
      round = receive_state p' n clock' (clock 0) sender;
      same_sum = sum;
      same_seqn = number;
      ready = up_to_date;
    }
