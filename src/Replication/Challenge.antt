-- ===== src/Replication/Challenge.antt =====
-- The messages of an election: a higher identifier is challenged, and a challenge is answered.
use threaded_network_adder.Base.{
  get_elem?, ℕ, ◌+◌, ◌≡◌, ◌⊎◌, refl, true, false, inl, inr, subst, sym, not, ◌&&◌, ◌||◌, some, [],
  ◌∷◌, ◌++◌, ℤ, ◌<ℤ◌, ltb_ℤ, arith, if_cases, lock, unlock, any,
}
use threaded_network_adder.Net.{SockAddr}
use threaded_network_adder.Replication.Types.{ReplicaInfo, Manager, Datagram, Effects, Clock}
use threaded_network_adder.Replication.Table.{send_times, datagram}
use threaded_network_adder.Replication.Election.{
  later, is_recent_primary, is_higher, election_message, response_message, challenge_calls,
  challenge_all, start_election, handle_election_start, handle_election_response,
}
use threaded_network_adder.Replication.Receiver.{
  Arrival, dispatch, process_replication_message, learn_addr, receiver_round,
}
use threaded_network_adder.Replication.Sends.{
  Sends, Sends-append_left, Sends-section, Sends-for_replicas, Sends-send_times,
}
use threaded_network_adder.Replication.Succession.{any-get_elem?}

-- Where a higher identifier is in the table no election is won: it stays open, each such replica
-- is challenged, and the role of the server does not change.
pub start_election-challenges :
    (rm : Manager) (clock : Clock) (k : ℕ) (r : ReplicaInfo)
    → any (is_recent_primary rm (clock 0)) rm.replicas ≡ false
    → get_elem? rm.replicas k ≡ some r
    → is_higher rm.my_id r ≡ true
    → ((start_election rm clock).0.is_primary ≡ rm.is_primary)
      × ((start_election rm clock).0.primary_id ≡ rm.primary_id)
      × ((start_election rm clock).0.election_in_progress ≡ true)
      × Sends (datagram r.addr (election_message rm (later clock k))) (start_election rm clock).1
unfolding start_election challenge_all
start_election-challenges rm clock k r silent at higher =
    rw (silent, any-get_elem? (is_higher rm.my_id) rm.replicas k r at higher)
      (
        refl,
        refl,
        refl,
        Sends-section _ _ _
            (Sends-for_replicas _ (challenge_calls rm (later clock)) 0 k rm.replicas r at called),
      )
  where
    called :
        Sends
          (datagram r.addr (election_message rm (later clock k)))
          (challenge_calls rm (later clock) (0 + k) r)
    called = let same : 0 + k ≡ k = omega arith in rw (same, higher) (Sends-send_times 2 _)

receive_challenge :
    (low high : Manager) (clock : Clock) (now : ℤ) (sender : SockAddr)
    → receiver_round high clock (Arrival.whole (election_message low now) sender)
      ≡ some (
          handle_election_start
            (learn_addr high low.my_id sender)
            clock
            (election_message low now)
            sender)
unfolding receiver_round process_replication_message dispatch election_message
receive_challenge low high clock now sender = refl

receive_response :
    (low high : Manager) (clock : Clock) (now : ℤ) (sender : SockAddr)
    → receiver_round low clock (Arrival.whole (response_message high now) sender)
      ≡ some (
          handle_election_response
            (learn_addr low high.my_id sender)
            clock
            (response_message high now))
unfolding receiver_round process_replication_message dispatch response_message
receive_response low high clock now sender = refl

-- What a server that is challenged from below is afterwards.
pub data Responds (rm : Manager) (now : ℤ) (after : Manager) : Type 0 where
  leads : rm.is_primary ≡ true → after ≡ rm → Responds rm now after
  trusts :
      rm.is_primary ≡ false
      → any (is_recent_primary rm now) rm.replicas ≡ true
      → after ≡ rm
      → Responds rm now after
  opens :
      rm.is_primary ≡ false
      → any (is_recent_primary rm now) rm.replicas ≡ false
      → any (is_higher rm.my_id) rm.replicas ≡ true
      → after ≡ record rm { election_in_progress = true }
      → Responds rm now after
  wins :
      rm.is_primary ≡ false
      → any (is_recent_primary rm now) rm.replicas ≡ false
      → any (is_higher rm.my_id) rm.replicas ≡ false
      → after ≡ record rm { is_primary = true; primary_id = rm.my_id; election_in_progress = false }
      → Responds rm now after

start_election-Responds :
    (rm : Manager) (clock : Clock)
    → rm.is_primary ≡ false
    → Responds rm (clock 0) (start_election rm clock).0
unfolding start_election
start_election-Responds rm clock replica =
    if_cases P (any (is_recent_primary rm (clock 0)) rm.replicas) _ _
      (λ recent. trusts replica recent refl)
      (λ silent.
        if_cases P (any (is_higher rm.my_id) rm.replicas) _ _
          (λ higher. opens replica silent higher refl)
          (λ highest. wins replica silent highest refl))
  where
    P : Manager × Effects → Type 0
    P x = Responds rm (clock 0) x.0

-- A challenge from a lower identifier is answered, to its sender.
module _ (low high : Manager) (clock : Clock) (now : ℤ) (sender : SockAddr)
    (lower : low.my_id <ℤ high.my_id) where
  abbrev answered : Manager × Effects
  answered = handle_election_start high clock (election_message low now) sender

  answered-Sends : Sends (datagram sender (response_message high (clock 0))) answered.1
  unfolding handle_election_start election_message
  answered-Sends =
      if_cases P (high.is_primary || ltb_ℤ low.my_id high.my_id) _ _
        (λ _.
          if_cases P (not high.is_primary && ltb_ℤ low.my_id high.my_id) _ _
            (λ _. Sends-append_left d _ _ sent) (λ _. sent))
        (λ e. absurd (ground arith))
    where
      d : Datagram
      d = datagram sender (response_message high (clock 0))

      P : Manager × Effects → Type 0
      P x = Sends d x.1

      sent : Sends d (lock ∷ (send_times 3 d ++ unlock ∷ []))
      sent = Sends-section d (send_times 3 d) (unlock ∷ []) (Sends-send_times 2 d)

  answered-role :
      ((high.is_primary ≡ true) × (answered.0 ≡ high))
      ⊎ ((high.is_primary ≡ false) × (answered.0 ≡ (start_election high (later clock)).0))
  unfolding handle_election_start election_message
  answered-role = ground arith

  answered-Responds : Responds high (clock 1) answered.0
  answered-Responds = elim answered-role [
    | inl (primary, same) ↦ leads primary same
    | inr (replica, elects) ↦
        subst (Responds high (clock 1)) (sym elects)
          (start_election-Responds high (later clock) replica)
  ]

response-ends :
    (low high : Manager) (clock : Clock) (now : ℤ)
    → low.my_id <ℤ high.my_id
    → let low' = (handle_election_response low clock (response_message high now)).0 in
      (low'.election_in_progress ≡ false) × (low'.is_primary ≡ low.is_primary)
unfolding handle_election_response response_message
response-ends low high clock now lower = ground arith

-- What comes of the challenge of `low` to `high`, and of the answer to it.
pub record Answered (low high : Manager) (c1 c2 : Clock) (now : ℤ) (sender from : SockAddr)
    : Type 0 where
  pub answer : Datagram
  pub low_after : Manager
  pub high_after : Manager
  pub effects1 : Effects
  pub effects2 : Effects
  pub round1 :
      receiver_round high c1 (Arrival.whole (election_message low now) sender)
      ≡ some (high_after, effects1)
  pub answer_sent : Sends answer effects1
  pub to_challenger : answer.dest ≡ sender
  pub round2 : receiver_round low c2 (Arrival.whole answer.msg from) ≡ some (low_after, effects2)
  pub over : low_after.election_in_progress ≡ false
  pub same_role : low_after.is_primary ≡ low.is_primary
  pub responds : Responds (learn_addr high low.my_id sender) (c1 1) high_after

-- A challenge from a lower identifier is answered, and the answer ends the challenger's election
-- without changing its role. The one who answers notes the challenger's address, if it knows it,
-- and changes nothing else where it is the primary or saw its primary in the last three seconds;
-- otherwise it opens its own election where it knows a higher identifier, and where it knows none
-- it becomes the primary.
pub challenge-Answered :
    (low high : Manager) (c1 c2 : Clock) (now : ℤ) (sender from : SockAddr)
    → low.my_id <ℤ high.my_id
    → Answered low high c1 c2 now sender from
unfolding learn_addr
challenge-Answered low high c1 c2 now sender from lower =
    let high1 : Manager = learn_addr high low.my_id sender in
    let low1 : Manager = learn_addr low high.my_id from in
    let (ended, role) = response-ends low1 high1 c2 (c1 0) lower in
    record {
      answer = datagram sender (response_message high1 (c1 0));
      low_after = _;
      high_after = _;
      effects1 = _;
      effects2 = _;
      round1 = receive_challenge low high c1 now sender;
      answer_sent = answered-Sends low high1 c1 now sender lower;
      to_challenger = refl;
      round2 = receive_response low high1 c2 (c1 0) from;
      over = ended;
      same_role = role;
      responds = answered-Responds low high1 c1 now sender lower;
    }
