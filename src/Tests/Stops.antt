-- ===== src/Tests/Stops.antt =====
-- The threads of server and client, and how they stop, at fixed inputs.
use threaded_network_adder.Base.{
  ℕ, zero, suc, ◌≡◌, refl, Bool, true, false, not, none, some, [], ◌∷◌, pos, negsuc, ltb, arith,
  while_running,
}
use threaded_network_adder.Replication.Types.{Manager}
use threaded_network_adder.Replication.Joining.{stop_replication_manager}
use threaded_network_adder.Replication.Services.{
  EndsFree, heartbeat_service, primary_check_service, heartbeat_service-EndsFree,
  primary_check_service-EndsFree,
}
use threaded_network_adder.Server.Packet.{req, RequestPacket, Arrival, whole, short}
use threaded_network_adder.Server.Service.{Serving, request_service}
use threaded_network_adder.Server.Accounting.{requests_in, Accounts, request_service-Accounts}
use threaded_network_adder.Sockets.{discovery_service_socket, request_service_socket, attempt}
use threaded_network_adder.Node.Shutdown.{
  Traffic, stop_server, is_over, init_server_end, EndsWith, init_server_end-EndsWith,
}
use threaded_network_adder.Discovery.Service.{hold}
use threaded_network_adder.Discovery.Rounds.{held_after}
use threaded_network_adder.Discovery.Stop.{stop_discovery_service}
use threaded_network_adder.Client.Program
use threaded_network_adder.Client.Program.{client_input_subprocess}
use threaded_network_adder.Node.Process
use threaded_network_adder.Tests.Data.{noon, primary, replica}

abbrev untouched : ℕ → Manager → Manager
untouched k rm = rm

-- A request for 5, a packet that is too short, and then more requests.
abbrev incoming : ℕ → Arrival RequestPacket
incoming zero = whole (record { type = req; req = record { seqn = pos 2; value = pos 5 } })
incoming (suc zero) = short
incoming (suc (suc k)) = whole (record { type = req; req = record { seqn = pos 3; value = pos 7 } })

-- `running` is cleared before the third test.
abbrev until_third : ℕ → Bool
until_third k = ltb k 2

-- The first call of sendto fails in each round.
abbrev second_try : ℕ → ℕ → Bool
second_try round attempt = ltb 0 attempt

request_service-Accounts_example :
    (end : Serving) × (request_service untouched
        (λ _. noon)
        incoming
        second_try
        until_third
        9
        primary
      ≡ some end)
    × Accounts (record { rm = primary; answers = [] }) (requests_in incoming second_try 2 0) end
request_service-Accounts_example =
    request_service-Accounts untouched (λ _. noon) incoming second_try (λ _ _. (refl, refl))
      until_third 2 9 primary (refl, (refl, refl)) (omega arith) refl (omega arith)

-- Every call works.
abbrev traffic : Traffic
traffic = record {
  searches = λ _. short;
  requests = incoming;
  clocks = λ _. noon;
  others = untouched;
  sends = λ _ _. true;
}

init_server_end-EndsWith_example :
    EndsWith
      (λ _. true)
      (pos 2000)
      (pos 4)
      (init_server_end (λ _. true) traffic (stop_server 2) 9 (pos 2000) primary (pos 4))
init_server_end-EndsWith_example =
    init_server_end-EndsWith (λ _. true) traffic 2 9 (pos 2000) primary (pos 4) (omega arith)

-- Where socket fails, for both services, init_server comes to its end.
no_sockets :
    init_server_end (λ _. false) traffic (stop_server 2) 9 (pos 2000) primary (pos 4)
    ≡ some (record {
      running = false;
      replication_socket = negsuc 0;
      closed = some (pos 4);
      has_mutex = false;
    })
unfolding init_server_end is_over discovery_service_socket request_service_socket attempt
    stop_replication_manager
no_sockets = refl

-- The service may be stopped in the midst of a round: the mutex is then destroyed while it is held.
stopped_amid : held_after false (hold ∷ []) ≡ some true
unfolding held_after
stopped_amid = refl

destroyed : stop_discovery_service true ≡ none
unfolding stop_discovery_service
destroyed = refl

-- The thread sees `stop` at its third test, after two seconds.
two_seconds : client_input_subprocess (λ k. not (until_third k)) 9 ≡ some 2
unfolding client_input_subprocess while_running
two_seconds = refl

heartbeat_service-EndsFree_test :
    EndsFree (heartbeat_service untouched (λ _. pos 100) until_third 9 primary)
heartbeat_service-EndsFree_test =
    heartbeat_service-EndsFree untouched until_third 2 9 primary (refl, (refl, refl)) (omega arith)
      (λ _. pos 100)

primary_check_service-EndsFree_test :
    EndsFree (primary_check_service untouched (λ _. noon) until_third 9 replica)
primary_check_service-EndsFree_test =
    primary_check_service-EndsFree untouched until_third 2 9 replica (refl, (refl, refl))
      (omega arith) (λ _. noon)

-- SIGINT ends both programs with the same status.
interrupted : Program.handle_sigint (pos 2) ≡ Process.handle_sigint (pos 2)
unfolding Program.handle_sigint Process.handle_sigint
interrupted = refl
