-- ===== src/Replication/Locking.antt =====
-- The mutex in replication.c: no call takes it twice, frees it while it is free, or keeps it.
pub mod Rounds
use threaded_network_adder.Base.{
  ℕ, zero, suc, ◌≡◌, refl, ◌∙◌, inl, inr, true, false, Option, none, some, List, [], ◌∷◌, ◌++◌, not,
  ◌&&◌, ◌||◌, ℤ, ◌==ℤ◌, ltb_ℤ, pos_part, ltb, length, if_intro, Option-cases, All, All-append, any,
  find_first, lock, unlock, send, sleep, mutex_after, IsQuiet, mutex_after-quiet,
  mutex_after-append,
}
use mathlib.Core.List.{append-nil}
use threaded_network_adder.Net.{SockAddr}
use threaded_network_adder.Replication.Types.{
  max_replicas, MessageType, ReplicaInfo, Message, Manager, Datagram, Effects, Clock,
}
use threaded_network_adder.Replication.Table.{
  has_id, datagram, send_times, for_replicas, send_replica_list, heartbeat_round,
}
use threaded_network_adder.Replication.Election.{
  after, later, is_recent_primary, is_higher, challenge_all, declare_victory, start_election,
  handle_election_start, handle_election_response, handle_victory_declaration, check_primary_status,
  suspect, is_live_primary, response_message,
}
use threaded_network_adder.Replication.State.{propagate, update_state, handle_state_update}
use threaded_network_adder.Replication.Membership.{
  with_joined, with_discovered, has_addr, merge_replicas, announce, add_replica,
  add_discovered_replica,
}
use threaded_network_adder.Replication.Receiver.{
  learn_addr, handle_join, dispatch, process_replication_message, Arrival, receiver_round,
}

-- Begun with the mutex free, the call leaves it free.
abbrev pub IsBalanced : Effects → Type 0
IsBalanced es = mutex_after false es ≡ some false

abbrev AllQuiet : Effects → Type 0
AllQuiet es = All IsQuiet es

send_times-quiet : (n : ℕ) (d : Datagram) → AllQuiet (send_times n d)
unfolding send_times
send_times-quiet zero d = tt
send_times-quiet (suc n) d = (tt, (tt, send_times-quiet n d))

for_replicas-quiet :
    (body : ℕ → ReplicaInfo → Effects)
    → ((i : ℕ) (r : ReplicaInfo) → AllQuiet (body i r))
    → (i : ℕ) (rs : List ReplicaInfo) → AllQuiet (for_replicas body i rs)
unfolding for_replicas
for_replicas-quiet body q i [] = tt
for_replicas-quiet body q i (r ∷ rs) =
    All-append IsQuiet _ _ (q i r) (for_replicas-quiet body q (suc i) rs)

for_replicas-IsBalanced :
    (body : ℕ → ReplicaInfo → Effects)
    → ((i : ℕ) (r : ReplicaInfo) → IsBalanced (body i r))
    → (i : ℕ) (rs : List ReplicaInfo) → IsBalanced (for_replicas body i rs)
unfolding for_replicas mutex_after
for_replicas-IsBalanced body b i [] = refl
for_replicas-IsBalanced body b i (r ∷ rs) =
    mutex_after-append false (body i r) _ (b i r) ∙ for_replicas-IsBalanced body b (suc i) rs

-- A critical section that only sends and sleeps.
section-IsBalanced :
    (es fs : Effects) → AllQuiet es → IsBalanced fs → IsBalanced (lock ∷ (es ++ unlock ∷ fs))
unfolding mutex_after
section-IsBalanced es fs q b = mutex_after-quiet true es (unlock ∷ fs) q ∙ b

append-IsBalanced : (es fs : Effects) → IsBalanced es → IsBalanced fs → IsBalanced (es ++ fs)
append-IsBalanced es fs p q = mutex_after-append false es fs p ∙ q

pub nothing-IsBalanced : IsBalanced []
unfolding mutex_after
nothing-IsBalanced = refl

abbrev Calm : Manager × Effects → Type 0
Calm x = IsBalanced x.1

touch-IsBalanced : IsBalanced (lock ∷ unlock ∷ [])
unfolding mutex_after
touch-IsBalanced = refl

pub sleep-IsBalanced : (n : ℕ) → IsBalanced (sleep n ∷ [])
unfolding mutex_after
sleep-IsBalanced n = refl

challenge_all-quiet : (rm : Manager) (clock : Clock) → AllQuiet (challenge_all rm clock)
unfolding challenge_all
challenge_all-quiet rm clock =
    for_replicas-quiet _
      (λ i r. if_intro AllQuiet (is_higher rm.my_id r) _ _ (send_times-quiet 3 _) tt) 0 rm.replicas

declare_victory-quiet : (rm : Manager) (now : ℤ) → AllQuiet (declare_victory rm now)
unfolding declare_victory
declare_victory-quiet rm now =
    All-append IsQuiet _ _
      (for_replicas-quiet _
        (λ _ r. if_intro AllQuiet (has_id rm.my_id r) _ _ tt (send_times-quiet 3 _)) 0 rm.replicas)
      (for_replicas-quiet _ (λ _ r. if_intro AllQuiet (has_id rm.my_id r) _ _ tt (tt, tt)) 0
        rm.replicas)

start_election-IsBalanced : (rm : Manager) (clock : Clock) → IsBalanced (start_election rm clock).1
unfolding start_election
start_election-IsBalanced rm clock =
    if_intro Calm (any (is_recent_primary rm (clock 0)) rm.replicas) _ _ touch-IsBalanced (
      if_intro Calm (any (is_higher rm.my_id) rm.replicas) _ _
        (section-IsBalanced _ _ (challenge_all-quiet rm (later clock)) (sleep-IsBalanced _))
        (section-IsBalanced _ _ (declare_victory-quiet rm (clock 1)) (sleep-IsBalanced _)))

after-IsBalanced :
    (es : Effects) (x : Manager × Effects) → IsBalanced es → Calm x → Calm (after es x)
after-IsBalanced es (rm, fs) p q = append-IsBalanced es fs p q

answer-IsBalanced : (n : ℕ) (d : Datagram) → IsBalanced (lock ∷ (send_times n d ++ unlock ∷ []))
answer-IsBalanced n d = section-IsBalanced _ _ (send_times-quiet n d) nothing-IsBalanced

handle_election_start-IsBalanced :
    (rm : Manager) (clock : Clock) (msg : Message) (sender : SockAddr)
    → Calm (handle_election_start rm clock msg sender)
unfolding handle_election_start
handle_election_start-IsBalanced rm clock msg sender =
    if_intro Calm (rm.is_primary || ltb_ℤ msg.replica_id rm.my_id) _ _
      (if_intro Calm (not rm.is_primary && ltb_ℤ msg.replica_id rm.my_id) _ _
        (after-IsBalanced _ (start_election rm (later clock)) (answer-IsBalanced 3 answer)
          (start_election-IsBalanced rm (later clock)))
        (answer-IsBalanced 3 answer))
      touch-IsBalanced
  where
    answer : Datagram
    answer = datagram sender (response_message rm (clock 0))

handle_victory_declaration-IsBalanced :
    (rm : Manager) (clock : Clock) (msg : Message) (sender : SockAddr)
    → Calm (handle_victory_declaration rm clock msg sender)
unfolding handle_victory_declaration
handle_victory_declaration-IsBalanced rm clock msg sender =
    if_intro Calm (ltb_ℤ rm.my_id msg.replica_id) _ _ (answer-IsBalanced 3 _) touch-IsBalanced

handle_state_update-IsBalanced :
    (rm : Manager) (clock : Clock) (msg : Message) (sender : SockAddr)
    → Calm (handle_state_update rm clock msg sender)
unfolding handle_state_update
handle_state_update-IsBalanced rm clock msg sender =
    if_intro Calm (msg.replica_id ==ℤ rm.primary_id) _ _
      (section-IsBalanced (send _ ∷ []) [] (tt, tt) nothing-IsBalanced) touch-IsBalanced

-- The check on the primary returns with the mutex free, whichever way it returns.
pub check_primary_status-IsBalanced :
    (rm : Manager) (clock : Clock) → IsBalanced (check_primary_status rm clock).1
unfolding check_primary_status
check_primary_status-IsBalanced rm clock =
    if_intro Calm rm.is_primary _ _ nothing-IsBalanced
      (elim (Option-cases (find_first (has_id rm.primary_id) rm.replicas)) [
        | inl e ↦ rw e (
            after-IsBalanced _ (start_election rm (later clock)) touch-IsBalanced
              (start_election-IsBalanced rm (later clock)))
        | inr (r, e) ↦ rw e (
            if_intro Calm (is_live_primary (clock 0) r) _ _ touch-IsBalanced (
              if_intro Calm rm.received_initial_state _ _
                (after-IsBalanced _ (start_election (suspect rm) (later clock)) touch-IsBalanced
                  (start_election-IsBalanced (suspect rm) (later clock)))
                touch-IsBalanced))
      ])

send_replica_list-IsBalanced :
    (rm : Manager) (now target : ℤ) → IsBalanced (send_replica_list rm now target)
unfolding send_replica_list
send_replica_list-IsBalanced rm now target =
    elim (Option-cases (find_first (has_id target) rm.replicas)) [
      | inl e ↦ rw e touch-IsBalanced
      | inr (r, e) ↦ rw e (answer-IsBalanced 3 _)
    ]

announce-IsBalanced : (rm : Manager) (clock : Clock) → IsBalanced (announce rm clock)
unfolding announce
announce-IsBalanced rm clock =
    for_replicas-IsBalanced _
      (λ i r.
        if_intro IsBalanced (has_id rm.my_id r) _ _ nothing-IsBalanced
          (send_replica_list-IsBalanced rm (clock i) r.id))
      0 rm.replicas

quiet-IsBalanced : (es : Effects) → AllQuiet es → IsBalanced es
quiet-IsBalanced es q = rw append-nil at (mutex_after-quiet false es [] q ∙ nothing-IsBalanced)

add_replica-IsBalanced : (rm : Manager) (clock : Clock) (i : ℤ) → Calm (add_replica rm clock i)
unfolding add_replica
add_replica-IsBalanced rm clock i =
    if_intro Calm (any (has_id i) rm.replicas) _ _ nothing-IsBalanced (
      if_intro Calm (ltb (length rm.replicas) max_replicas) _ _
        (if_intro IsBalanced rm.is_primary _ _
          (announce-IsBalanced (with_joined rm (clock 0) i) (later clock))
          (quiet-IsBalanced _ (send_times-quiet 3 _)))
        nothing-IsBalanced)

handle_join-IsBalanced : (rm : Manager) (clock : Clock) (i : ℤ) → Calm (handle_join rm clock i)
unfolding handle_join
handle_join-IsBalanced rm clock i =
    append-IsBalanced (add_replica rm clock i).1 _ (add_replica-IsBalanced rm clock i)
      (send_replica_list-IsBalanced (add_replica rm clock i).0 (clock 20) i)

-- A server that is discovered, known or new, is entered with the mutex free at the end.
pub add_discovered_replica-IsBalanced :
    (rm : Manager) (clock : Clock) (ip : ℕ) (port : ℤ)
    → IsBalanced (add_discovered_replica rm clock ip port).1
unfolding add_discovered_replica
add_discovered_replica-IsBalanced rm clock ip port =
    if_intro Calm (any (has_addr ip port) rm.replicas) _ _ touch-IsBalanced (
      if_intro Calm (ltb (length rm.replicas) max_replicas) _ _
        (if_intro Calm (not rm.is_primary && not rm.election_in_progress) _ _
          (after-IsBalanced _ (start_election (with_discovered rm (clock 0) ip port) (later clock))
            touch-IsBalanced
            (start_election-IsBalanced (with_discovered rm (clock 0) ip port) (later clock)))
          touch-IsBalanced)
        touch-IsBalanced)
