-- ===== src/Tests/Process.antt =====
-- Starts of a server, and a request to join, at fixed inputs.
use threaded_network_adder.Base
use threaded_network_adder.Base.{
  ℕ, Bool, true, false, some, pos, ◌≡◌, refl, wrap_int, ◌+ℤ◌, arith, residue,
}
use threaded_network_adder.Replication.Startup.{init_replication_manager}
use threaded_network_adder.Node.Process.{invalid_port, Host, init_server, server_main, main}
use threaded_network_adder.Tests.Data.{noon}

abbrev host : Host
host = record { socket_opened = true; socket_bound = true }

no_port : server_main host noon (pos 0) ≡ invalid_port
unfolding server_main
no_port = refl

-- The program itself does not go through ServerMain: a port that is no number starts a server.
zero_port : (main host noon (pos 2) (pos 0) ≡ invalid_port) → ⊥
unfolding main init_server init_replication_manager Base.◌==ℤ◌
zero_port = λ e. cc
