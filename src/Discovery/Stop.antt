-- ===== src/Discovery/Stop.antt =====
-- discovery.c: the loop of the discovery thread, and stop_discovery_service.
use threaded_network_adder.Base.{
  ℕ, zero, suc, ◌<◌, ◌≡◌, ◌∙◌, Bool, true, false, Option, none, some, List, [], ◌∷◌, ◌++◌, ℤ,
  if◌then◌else◌, arith, while_running, after_rounds, ClearedAfter, while_running-ClearedAfter,
}
use threaded_network_adder.Replication.Types.{Manager, Clock}
use threaded_network_adder.Discovery.Clients.{InternalClientInfo}
use threaded_network_adder.Discovery.Service.{
  Event, answer, replicate, hold, release, Received, discovery_service_round,
}
use threaded_network_adder.Discovery.Rounds.{held_after, discovery_service_round-RoundEnds}

-- The manager, the table of clients, and the events so far.
pub record Discovering : Type 0 where
  pub rm : Manager
  pub clients : List InternalClientInfo
  pub events : List Event

-- What the rounds meet: whether the first datagram arrives, the second, and the times.
pub record Arrivals : Type 0 where
  pub first : ℕ → Bool
  pub second : ℕ → Received
  pub clocks : ℕ → Clock
  pub now : ℕ → ℤ

module _ (request_port : ℤ) (a : Arrivals) where
  unfoldable pub discover_next : ℕ → Discovering → Discovering
  discover_next k s =
      let (h, clients) =
        discovery_service_round request_port s.rm (a.clocks k) s.clients (a.now k) (a.first k)
          (a.second k) in
      record { rm = h.rm; clients = clients; events = s.events ++ h.events }

  -- The thread, for a number of tests of `running`.
  unfoldable pub discovery_service : (ℕ → Bool) → ℕ → Discovering → Option Discovering
  unfolding discover_next
  discovery_service running tests s = while_running running discover_next tests 0 s

-- What stop_discovery_service leaves: `running`, whether the socket is open, and the mutex.
pub record Stopped : Type 0 where
  pub running : Bool
  pub socket_open : Bool
  pub mutex_usable : Bool

-- `none`: a mutex is destroyed while a thread holds it, which pthreads leave undefined. `held`:
-- whether the thread has clients_mutex at the call.
unfoldable pub stop_discovery_service : Bool → Option Stopped
stop_discovery_service held =
    if held
    then none
    else some (record { running = false; socket_open = false; mutex_usable = false })

pub held_after-append :
    (held : Bool) (es fs : List Event) {h : Bool}
    → held_after held es ≡ some h
    → held_after held (es ++ fs) ≡ held_after h fs
unfolding held_after
held_after-append held [] fs e = ground arith
held_after-append true (hold ∷ es) fs e = cc
held_after-append false (hold ∷ es) fs e = held_after-append true es fs e
held_after-append true (release ∷ es) fs e = held_after-append false es fs e
held_after-append false (release ∷ es) fs e = cc
held_after-append true (answer p to ∷ es) fs e = held_after-append true es fs e
held_after-append false (answer p to ∷ es) fs e = held_after-append false es fs e
held_after-append true (replicate gs ∷ es) fs e = held_after-append true es fs e
held_after-append false (replicate gs ∷ es) fs e = held_after-append false es fs e

module _ (request_port : ℤ) (a : Arrivals) where
  rounds-held :
      (n k : ℕ) (s : Discovering)
      → held_after false s.events ≡ some false
      → held_after false (after_rounds (discover_next request_port a) n k s).events ≡ some false
  unfolding after_rounds discover_next
  rounds-held zero k s free = free
  rounds-held (suc n) k s free =
      let one =
        discovery_service_round-RoundEnds request_port s.rm (a.clocks k) s.clients (a.now k)
          (a.first k) (a.second k) in
      rounds-held n (suc k) (discover_next request_port a k s)
        (held_after-append false s.events _ free ∙ one.locks.clients_mutex)

  -- Once `running` is cleared the thread ends with its next test, and clients_mutex is free then.
  pub discovery_service-ClearedAfter :
      (running : ℕ → Bool) (n tests : ℕ) (s : Discovering)
      → held_after false s.events ≡ some false
      → ClearedAfter running n 0
      → n < tests
      → (end : Discovering) × (discovery_service request_port a running tests s ≡ some end)
        × (held_after false end.events ≡ some false)
  unfolding discovery_service
  discovery_service-ClearedAfter running n tests s free cleared enough = (
    after_rounds (discover_next request_port a) n 0 s,
    while_running-ClearedAfter running (discover_next request_port a) n tests 0 s cleared enough,
    rounds-held n 0 s free,
  )
