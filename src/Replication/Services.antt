-- ===== src/Replication/Services.antt =====
-- replication.c: the loops of heartbeat_service and primary_check_service, which end once
-- stop_replication_manager has cleared `running`.
use threaded_network_adder.Base.{
  ℕ, zero, suc, ◌<◌, ◌≡◌, ◌∙◌, Bool, Option, some, [], ◌∷◌, ◌++◌, ℤ, sleep, mutex_after-append,
  while_running, after_rounds, ClearedAfter, while_running-ClearedAfter,
}
use threaded_network_adder.Replication.Types.{Manager, Effects, Clock}
use threaded_network_adder.Replication.Table.{heartbeat_round}
use threaded_network_adder.Replication.Election.{check_primary_status}
use threaded_network_adder.Replication.Locking.{
  IsBalanced, nothing-IsBalanced, sleep-IsBalanced, check_primary_status-IsBalanced,
}
use threaded_network_adder.Replication.Locking.Rounds.{heartbeat_round-IsBalanced}

-- `others`: what the other threads do to the manager before a round.
module _ (others : ℕ → Manager → Manager) where
  unfoldable pub beat_next : (ℕ → ℤ) → ℕ → Manager × Effects → Manager × Effects
  beat_next now k (rm, es) = (others k rm, es ++ heartbeat_round (others k rm) (now k))

  unfoldable pub check_next : (ℕ → Clock) → ℕ → Manager × Effects → Manager × Effects
  check_next clocks k (rm, es) =
      let (rm', fs) = check_primary_status (others k rm) (clocks k) in
      (rm', es ++ (fs ++ sleep 1000000 ∷ []))

  unfoldable pub heartbeat_service : (ℕ → ℤ) → (ℕ → Bool) → ℕ → Manager → Option (Manager × Effects)
  unfolding beat_next
  heartbeat_service now running tests rm = while_running running (beat_next now) tests 0 (rm, [])

  unfoldable pub primary_check_service :
      (ℕ → Clock) → (ℕ → Bool) → ℕ → Manager → Option (Manager × Effects)
  unfolding check_next
  primary_check_service clocks running tests rm =
      while_running running (check_next clocks) tests 0 (rm, [])

-- Rounds that each leave the mutex free.
rounds-IsBalanced :
    (body : ℕ → Manager × Effects → Manager × Effects)
    → ((k : ℕ) (x : Manager × Effects) → IsBalanced x.1 → IsBalanced (body k x).1)
    → (n k : ℕ) (x : Manager × Effects) → IsBalanced x.1
    → IsBalanced (after_rounds body n k x).1
unfolding after_rounds
rounds-IsBalanced body b zero k x free = free
rounds-IsBalanced body b (suc n) k x free =
    rounds-IsBalanced body b n (suc k) (body k x) (b k x free)

-- A thread that has ended, and left the mutex free for stop_replication_manager to destroy.
pub record EndsFree (o : Option (Manager × Effects)) : Type 0 where
  pub last : Manager × Effects
  pub ends : o ≡ some last
  pub free : IsBalanced last.1

module _ (others : ℕ → Manager → Manager) (running : ℕ → Bool) (n tests : ℕ) (rm : Manager)
    (cleared : ClearedAfter running n 0) (enough : n < tests) where
  pub heartbeat_service-EndsFree :
      (now : ℕ → ℤ) → EndsFree (heartbeat_service others now running tests rm)
  unfolding heartbeat_service beat_next
  heartbeat_service-EndsFree now = record {
    last = after_rounds (beat_next others now) n 0 (rm, []);
    ends =
        while_running-ClearedAfter running (beat_next others now) n tests 0 (rm, []) cleared enough;
    free =
        rounds-IsBalanced (beat_next others now)
          (λ k (m, es) free.
            mutex_after-append _ es _ free ∙ heartbeat_round-IsBalanced (others k m) (now k))
          n 0 (rm, []) nothing-IsBalanced;
  }

  pub primary_check_service-EndsFree :
      (clocks : ℕ → Clock) → EndsFree (primary_check_service others clocks running tests rm)
  unfolding primary_check_service check_next
  primary_check_service-EndsFree clocks = record {
    last = after_rounds (check_next others clocks) n 0 (rm, []);
    ends =
        while_running-ClearedAfter running (check_next others clocks) n tests 0 (rm, []) cleared
          enough;
    free =
        rounds-IsBalanced (check_next others clocks)
          (λ k (m, es) free.
            mutex_after-append _ es _ free
            ∙ (mutex_after-append _ (check_primary_status (others k m) (clocks k)).1 _
                  (check_primary_status-IsBalanced (others k m) (clocks k))
                ∙ sleep-IsBalanced 1000000))
          n 0 (rm, []) nothing-IsBalanced;
  }
