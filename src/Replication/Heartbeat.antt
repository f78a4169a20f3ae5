-- ===== src/Replication/Heartbeat.antt =====
-- The heartbeats and the check on the primary: while they come in time no election starts.
use threaded_network_adder.Base.{
  get_elem?, ℕ, ◌≡◌, refl, ap, true, false, not, ◌&&◌, some, [], ◌∷◌, ◌++◌, ℤ, pos, ◌≤ℤ◌, ◌-ℤ◌,
  arith, if◌then◌else◌, if_cases, send, lock, unlock, sleep, inl, inr, find_first, update_first,
  find_first-update_first,
}
use threaded_network_adder.Net.{SockAddr}
use threaded_network_adder.Replication.Types.{
  ReplicaInfo, Manager, Datagram, Effects, Clock, primary_timeout,
}
use threaded_network_adder.Replication.Table.{
  has_id, seen, datagram, for_replicas, heartbeat_message, heartbeat_round,
}
use threaded_network_adder.Replication.Election.{is_live_primary, check_primary_status}
use threaded_network_adder.Replication.Receiver.{
  Arrival, dispatch, process_replication_message, learn_addr, receiver_round,
}
use threaded_network_adder.Replication.Sends.{
  Sends, Sends-section, Sends-append_cases, Sends-for_replicas, for_replicas-Sends,
}

-- The body of the loop of heartbeat_service.
abbrev beat : Manager → ℤ → ReplicaInfo → Effects
beat p now r =
    if not (has_id p.my_id r) && r.is_alive
    then send (datagram r.addr (heartbeat_message p now)) ∷ []
    else []

pub heartbeat_round-Sends :
    (p : Manager) (now : ℤ) (k : ℕ) (r : ReplicaInfo)
    → p.is_primary ≡ true
    → get_elem? p.replicas k ≡ some r
    → has_id p.my_id r ≡ false
    → r.is_alive ≡ true
    → Sends (datagram r.addr (heartbeat_message p now)) (heartbeat_round p now)
unfolding heartbeat_round
heartbeat_round-Sends p now k r primary at other alive =
    Sends-section d _ (unlock ∷ sleep 1000 ∷ [])
      (ground (arith, Sends-for_replicas d (λ _ x. beat p now x) 0 k p.replicas r at sent))
  where
    d : Datagram
    d = datagram r.addr (heartbeat_message p now)

    sent : Sends d (beat p now r)
    sent = unfold Sends in rw (other, alive) (inl refl)

beat-Sends :
    (p : Manager) (now : ℤ) (d : Datagram) (r : ReplicaInfo)
    → Sends d (beat p now r)
    → d.msg ≡ heartbeat_message p now
unfolding Sends
beat-Sends p now d r =
    if_cases (λ (es : Effects). Sends d es → d.msg ≡ heartbeat_message p now)
      (not (has_id p.my_id r) && r.is_alive) _ _ (λ _. one) (λ _. none_sent)
  where
    one :
        Sends d (send (datagram r.addr (heartbeat_message p now)) ∷ [])
        → d.msg ≡ heartbeat_message p now
    one (inl same) = ap (λ (x : Datagram). x.msg) same
    one (inr s) = absurd s

    none_sent : Sends d [] → d.msg ≡ heartbeat_message p now
    none_sent s = absurd s

-- All that a round sends is its message.
pub Sends-heartbeat_round :
    (p : Manager) (now : ℤ) (d : Datagram)
    → Sends d (heartbeat_round p now)
    → d.msg ≡ heartbeat_message p now
unfolding heartbeat_round
Sends-heartbeat_round p now d s =
    if_cases (λ (es : Effects). Sends d (lock ∷ (es ++ unlock ∷ sleep 1000 ∷ [])) → Says)
      p.is_primary _ _ (λ _. within _ beats)
      (λ _. within [] (λ none_sent. absurd (unfold Sends in none_sent))) s
  where
    Says : Type 0
    Says = d.msg ≡ heartbeat_message p now

    beats : Sends d (for_replicas (λ _ r. beat p now r) 0 p.replicas) → Says
    beats =
        for_replicas-Sends d Says (λ _ r. beat p now r) (λ _ r. beat-Sends p now d r) 0 p.replicas

    within :
        (es : Effects)
        → (Sends d es → Says)
        → Sends d (lock ∷ (es ++ unlock ∷ sleep 1000 ∷ []))
        → Says
    within es h sent =
        unfold Sends in
        elim (Sends-append_cases d es (unlock ∷ sleep 1000 ∷ []) sent) [
          | inl here ↦ h here
          | inr rest ↦ absurd rest
        ]

-- The primary's entry was seen last at the given time.
pub record SeenAt (n : Manager) (at : ℤ) : Type 0 where
  pub entry : ReplicaInfo
  pub stands : find_first (has_id n.primary_id) n.replicas ≡ some entry
  pub alive : entry.is_alive ≡ true
  pub time : entry.last_heartbeat ≡ at

-- A replica whose role, state and primary are those of another.
pub record Follows (n m : Manager) : Type 0 where
  pub role : m.is_primary ≡ n.is_primary
  pub primary : m.primary_id ≡ n.primary_id
  pub election : m.election_in_progress ≡ n.election_in_progress
  pub sum : m.current_sum ≡ n.current_sum
  pub seqn : m.last_seqn ≡ n.last_seqn
  pub ready : m.received_initial_state ≡ n.received_initial_state

-- What a heartbeat leaves.
pub after_heartbeat : Manager → ℤ → ℤ → SockAddr → Manager
after_heartbeat n i at sender =
    let m = learn_addr n i sender in
    record m { replicas = update_first (has_id i) (seen at) m.replicas }

pub heartbeat-received :
    (p n : Manager) (clock : Clock) (now : ℤ) (sender : SockAddr)
    → receiver_round n clock (Arrival.whole (heartbeat_message p now) sender)
      ≡ some (after_heartbeat n p.my_id (clock 0) sender, lock ∷ unlock ∷ [])
unfolding receiver_round process_replication_message dispatch heartbeat_message after_heartbeat
heartbeat-received p n clock now sender = refl

pub after_heartbeat-SeenAt :
    (n : Manager) (at : ℤ) (sender : SockAddr) {r : ReplicaInfo}
    → find_first (has_id n.primary_id) n.replicas ≡ some r
    → SeenAt (after_heartbeat n n.primary_id at sender) at
unfolding after_heartbeat learn_addr
after_heartbeat-SeenAt n at sender {r} e = record {
  entry = seen at (record r { addr = sender });
  stands =
      find_first-update_first (has_id n.primary_id) (seen at) (λ _. refl) _
        (find_first-update_first (has_id n.primary_id) (λ x. record x { addr = sender }) (λ _. refl)
          n.replicas e);
  alive = refl;
  time = refl;
}

pub after_heartbeat-Follows :
    (n : Manager) (i at : ℤ) (sender : SockAddr) → Follows n (after_heartbeat n i at sender)
unfolding after_heartbeat learn_addr
after_heartbeat-Follows n i at sender = record {
  role = refl;
  primary = refl;
  election = refl;
  sum = refl;
  seqn = refl;
  ready = refl;
}

-- A check within the time that the primary is given does nothing.
pub SeenAt-check_primary_status :
    (n : Manager) (at : ℤ) (clock : Clock)
    → n.is_primary ≡ false
    → SeenAt n at
    → clock 0 -ℤ at ≤ℤ pos primary_timeout
    → check_primary_status n clock ≡ (n, lock ∷ unlock ∷ [])
unfolding check_primary_status
SeenAt-check_primary_status n at clock replica s recent =
    if_cases (λ (x : Manager × Effects). x ≡ (n, lock ∷ unlock ∷ [])) n.is_primary _ _
      (λ primary. cc)
      (λ _. rw s.stands (
        if_cases (λ (x : Manager × Effects). x ≡ (n, lock ∷ unlock ∷ []))
          (is_live_primary (clock 0) s.entry) _ _ (λ _. refl)
          (λ silent. absurd (live_or_silent silent))))
  where
    live_or_silent : is_live_primary (clock 0) s.entry ≡ false → ⊥
    live_or_silent silent =
        let live : is_live_primary (clock 0) s.entry ≡ true = rw (s.alive, s.time) (ground arith) in
        cc
