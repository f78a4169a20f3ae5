-- ===== src/Replication/Election.antt =====
-- replication.c: the bully election, from the check on the primary to the victory.
use threaded_network_adder.Base.{
  ℕ, suc, ◌*◌, Bool, true, false, not, ◌&&◌, ◌||◌, none, some, [], ◌∷◌, ◌++◌, ℤ, pos, ◌-ℤ◌, ltb_ℤ,
  leb_ℤ, any, find_first, update_first, if◌then◌else◌, lock, unlock, send, sleep,
}
use threaded_network_adder.Net.{SockAddr}
use threaded_network_adder.Replication.Types.{
  MessageType, ReplicaInfo, Message, Manager, Effects, Clock, primary_timeout, replica_timeout,
  election_timeout_ms, zero_message,
}
use threaded_network_adder.Replication.Table.{has_id, seen, send_times, for_replicas, datagram}

abbrev pub later : Clock → Clock
later clock n = clock (suc n)

-- The test of the first loop of start_election.
abbrev pub is_recent_primary : Manager → ℤ → ReplicaInfo → Bool
is_recent_primary rm now r =
    has_id rm.primary_id r && (r.is_alive && leb_ℤ (now -ℤ r.last_heartbeat) (pos replica_timeout))

abbrev pub is_higher : ℤ → ReplicaInfo → Bool
is_higher i r = ltb_ℤ i r.id

unfoldable pub election_message : Manager → ℤ → Message
unfolding zero_message
election_message rm now = record zero_message {
  type = MessageType.start_election;
  replica_id = rm.my_id;
  timestamp = now;
}

unfoldable pub victory_message : Manager → ℤ → Message
unfolding zero_message
victory_message rm now = record zero_message {
  type = MessageType.victory;
  replica_id = rm.my_id;
  timestamp = now;
  current_sum = rm.current_sum;
  last_seqn = rm.last_seqn;
}

abbrev pub challenge_calls : Manager → Clock → ℕ → ReplicaInfo → Effects
challenge_calls rm clock i r =
    if is_higher rm.my_id r
    then send_times 3 (datagram r.addr (election_message rm (clock i)))
    else []

unfoldable pub challenge_all : Manager → Clock → Effects
challenge_all rm clock = for_replicas (challenge_calls rm clock) 0 rm.replicas

abbrev pub victory_calls : Manager → ℤ → ReplicaInfo → Effects
victory_calls rm now r =
    if has_id rm.my_id r then [] else send_times 3 (datagram r.addr (victory_message rm now))

abbrev pub first_state_call : Manager → ℤ → ReplicaInfo → Effects
first_state_call rm now r =
    if has_id rm.my_id r
    then []
    else send
        (datagram r.addr (record (victory_message rm now) { type = MessageType.state_update }))
      ∷ []

-- The victory goes out three times to each replica, then the state once.
unfoldable pub declare_victory : Manager → ℤ → Effects
declare_victory rm now =
    for_replicas (λ _ r. victory_calls rm now r) 0 rm.replicas
    ++ for_replicas (λ _ r. first_state_call rm now r) 0 rm.replicas

unfoldable pub start_election : Manager → Clock → Manager × Effects
start_election rm clock =
    if any (is_recent_primary rm (clock 0)) rm.replicas
    then (rm, lock ∷ unlock ∷ [])
    else if any (is_higher rm.my_id) rm.replicas
    then (
      record rm { election_in_progress = true },
      lock ∷ (challenge_all rm (later clock) ++ unlock ∷ sleep (election_timeout_ms * 1000) ∷ []),
    )
    else (
      record rm { is_primary = true; primary_id = rm.my_id; election_in_progress = false },
      lock ∷ (declare_victory rm (clock 1) ++ unlock ∷ sleep (election_timeout_ms * 1000) ∷ []),
    )

-- A call's effects come before those of the call that follows it.
abbrev pub after : Effects → Manager × Effects → Manager × Effects
after es (rm, fs) = (rm, es ++ fs)

unfoldable pub response_message : Manager → ℤ → Message
unfolding zero_message
response_message rm now = record zero_message {
  type = MessageType.election_response;
  replica_id = rm.my_id;
  timestamp = now;
}

unfoldable pub handle_election_start : Manager → Clock → Message → SockAddr → Manager × Effects
unfolding response_message
handle_election_start rm clock msg sender =
    if rm.is_primary || ltb_ℤ msg.replica_id rm.my_id
    then if not rm.is_primary && ltb_ℤ msg.replica_id rm.my_id
      then after (lock ∷ (answer ++ unlock ∷ [])) (start_election rm (later clock))
      else (rm, lock ∷ (answer ++ unlock ∷ []))
    else (rm, lock ∷ unlock ∷ [])
  where
    answer : Effects
    answer = send_times 3 (datagram sender (response_message rm (clock 0)))

unfoldable pub handle_election_response : Manager → Clock → Message → Manager × Effects
handle_election_response rm clock msg = (
  (if rm.election_in_progress && ltb_ℤ rm.my_id msg.replica_id
      then record rm {
        election_in_progress = false;
        replicas = update_first (has_id msg.replica_id) (seen (clock 0)) rm.replicas;
      }
      else rm),
  lock ∷ unlock ∷ [],
)

unfoldable pub ack_message : MessageType → Manager → ℤ → Message
unfolding zero_message
ack_message t rm now = record zero_message {
  type = t;
  replica_id = rm.my_id;
  timestamp = now;
  current_sum = rm.current_sum;
  last_seqn = rm.last_seqn;
}

-- The state that a message carries is taken unless it is older than ours.
unfoldable pub adopt_state : Manager → Message → Manager
adopt_state rm msg =
    if leb_ℤ rm.last_seqn msg.last_seqn
    then record rm { current_sum = msg.current_sum; last_seqn = msg.last_seqn }
    else rm

-- The manager after a victory that is accepted.
unfoldable pub follow : Manager → Clock → Message → SockAddr → Manager
unfolding adopt_state
follow rm clock msg sender = record (adopt_state rm msg) {
  is_primary = false;
  primary_id = msg.replica_id;
  election_in_progress = false;
  received_initial_state = false;
  replicas =
      update_first (has_id msg.replica_id) (λ r. record (seen (clock 0) r) { addr = sender })
        rm.replicas;
}

unfoldable pub handle_victory_declaration : Manager → Clock → Message → SockAddr → Manager × Effects
unfolding follow ack_message
handle_victory_declaration rm clock msg sender =
    if ltb_ℤ rm.my_id msg.replica_id
    then (
      follow rm clock msg sender,
      lock
          ∷ (send_times 3 (
                datagram sender
                  (ack_message MessageType.victory_ack (follow rm clock msg sender) (clock 1)))
              ++ unlock ∷ []),
    )
    else (rm, lock ∷ unlock ∷ [])

-- The primary's entry, once it is found: alive, or silent for too long.
abbrev pub is_live_primary : ℤ → ReplicaInfo → Bool
is_live_primary now r = r.is_alive && leb_ℤ (now -ℤ r.last_heartbeat) (pos primary_timeout)

-- The primary's entry is marked dead.
unfoldable pub suspect : Manager → Manager
suspect rm = record rm {
  replicas = update_first (has_id rm.primary_id) (λ r. record r { is_alive = false }) rm.replicas;
}

unfoldable pub check_primary_status : Manager → Clock → Manager × Effects
unfolding suspect
check_primary_status rm clock =
    if rm.is_primary then (rm, []) else elim (find_first (has_id rm.primary_id) rm.replicas) [
      | none ↦ after (lock ∷ unlock ∷ []) (start_election rm (later clock))
      | some r ↦
          if is_live_primary (clock 0) r
          then (rm, lock ∷ unlock ∷ [])
          else if rm.received_initial_state
          then after (lock ∷ unlock ∷ []) (start_election (suspect rm) (later clock))
          else (rm, lock ∷ unlock ∷ [])
    ]
