-- ===== src/Node/Shutdown.antt =====
-- server_prot.c: init_server after its threads are started, which waits for them and then stops the
-- replication manager, and stop_server.
use threaded_network_adder.Base.{
  ℕ, zero, suc, ◌+◌, ◌<◌, ◌≡◌, ◌⊎◌, refl, inl, inr, Bool, true, false, ◌&&◌, Option, none, some, [],
  ℤ, pos, ◌+ℤ◌, wrap_int, ltb, if◌then◌else◌, arith, ClearedAfter, while_running-ClearedAfter,
  while_running_for_ever,
}
use threaded_network_adder.Replication.Types.{Manager, Clock}
use threaded_network_adder.Replication.Joining.{StoppedManager, stop_replication_manager}
use threaded_network_adder.Server.Packet.{RequestPacket, Arrival}
use threaded_network_adder.Server.Service.{serve_next, request_service, discovery_service}
use threaded_network_adder.Sockets.{
  SysCall, Ending, ready, returned, exited, overrun, attempt, discovery_service_socket,
  request_service_socket,
}

-- The flag `running` at each test of the loop, where stop_server is called before the `n`-th.
unfoldable pub stop_server : ℕ → ℕ → Bool
stop_server n k = ltb k n

-- Whether the thread of a service is over: at once where its socket could not be set up, and with
-- its loop otherwise.
unfoldable pub is_over {ℓ} : {A : Type ℓ} → Ending → Option A → Bool
is_over e loop = elim e [ ready ↦ elim loop [ none ↦ false | some _ ↦ true ] | _ ↦ true ]

-- The datagrams that reach the two services, and what else the server's threads meet.
pub record Traffic : Type 0 where
  pub searches : ℕ → Arrival RequestPacket
  pub requests : ℕ → Arrival RequestPacket
  pub clocks : ℕ → Clock
  pub others : ℕ → Manager → Manager
  pub sends : ℕ → ℕ → Bool  -- what sendto does with the answers

-- From pthread_join on, for a number of rounds of the two loops; `none`: a thread is not over. The
-- result is that of stop_replication_manager on its socket.
unfoldable pub init_server_end :
    (SysCall → Bool) → Traffic → (ℕ → Bool) → ℕ → ℤ → Manager → ℤ → Option StoppedManager
init_server_end works t running tests port rm socket =
    if is_over (discovery_service_socket works port).ending
        (discovery_service port t.searches tests)
      && is_over (request_service_socket works (wrap_int (port +ℤ pos 1))).ending
          (request_service t.others t.clocks t.requests t.sends running tests rm)
    then some (stop_replication_manager socket)
    else none

-- The socket of the discovery service is set up, or not.
discovery_socket-cases :
    (works : SysCall → Bool) (port : ℤ)
    → ((discovery_service_socket works port).ending ≡ ready)
      ⊎ ((discovery_service_socket works port).ending ≡ returned)
unfolding discovery_service_socket attempt
discovery_socket-cases works port = ground arith

-- stop_server is seen by the test that follows it.
ClearedAfter-stop_server : (n j k : ℕ) → j + k ≡ n → ClearedAfter (stop_server n) j k
unfolding stop_server
ClearedAfter-stop_server n zero k e = ground arith
ClearedAfter-stop_server n (suc j) k e =
    (ground arith, ClearedAfter-stop_server n j (suc k) (omega (arith, e)))

-- How init_server ends, or does not.
pub data EndsWith (works : SysCall → Bool) (port socket : ℤ) : Option StoppedManager → Type 0 where
  waits : (discovery_service_socket works port).ending ≡ ready → EndsWith works port socket none
  stops :
      (discovery_service_socket works port).ending ≡ returned
      → EndsWith works port socket (some (stop_replication_manager socket))

discovery-waits :
    (port : ℤ) (arrivals : ℕ → Arrival RequestPacket) (tests : ℕ)
    → discovery_service port arrivals tests ≡ none
unfolding discovery_service
discovery-waits port arrivals tests = while_running_for_ever (λ _. true) _ (λ _. refl) tests 0 []

some-is_over {ℓ} :
    {A : Type ℓ} (e : Ending) (o : Option A) {a : A} → o ≡ some a → is_over e o ≡ true
unfolding is_over
some-is_over ready o f = rw f refl
some-is_over returned o f = refl
some-is_over exited o f = refl
some-is_over overrun o f = refl

requests-over :
    (t : Traffic) (n tests : ℕ) (rm : Manager) (e : Ending)
    → n < tests
    → is_over e (request_service t.others t.clocks t.requests t.sends (stop_server n) tests rm)
      ≡ true
unfolding request_service
requests-over t n tests rm e enough = some-is_over e _ (
    while_running-ClearedAfter (stop_server n) (serve_next t.others t.clocks t.requests t.sends) n
      tests 0 (record { rm = rm; answers = [] }) (ClearedAfter-stop_server n n 0 (omega arith))
      enough)

-- Once stop_server has been called, the request service is over after its next test; init_server
-- then ends, with the replication manager stopped, only where the discovery service could not set
-- up its socket. Where it could, init_server waits for ever: the loop of that service has no flag.
pub init_server_end-EndsWith :
    (works : SysCall → Bool) (t : Traffic) (n tests : ℕ) (port : ℤ) (rm : Manager) (socket : ℤ)
    → n < tests
    → EndsWith works port socket (init_server_end works t (stop_server n) tests port rm socket)
unfolding init_server_end is_over
init_server_end-EndsWith works t n tests port rm socket enough =
    elim (discovery_socket-cases works port) [
      | inl up ↦ rw (up, discovery-waits port t.searches tests) (waits up)
      | inr down ↦ rw (down, requests-over t n tests rm _ enough) (stops down)
    ]
