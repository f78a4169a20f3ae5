-- ===== src/Tests/Survival.antt =====
-- An outage from end to end, at fixed inputs.
use threaded_network_adder.Base
use threaded_network_adder.Base.{
  ℕ, ◌≡◌, ℤ, pos, refl, false, true, arith, none, some, [], ◌∷◌, find_first, lock, unlock, wrap_int,
  any,
}
use threaded_network_adder.Replication.Types.{Manager, Clock}
use threaded_network_adder.Replication.Election.{adopt_state, check_primary_status}
use threaded_network_adder.Replication.State.{state_message, handle_state_update}
use threaded_network_adder.Replication.Receiver.{learn_addr}
use threaded_network_adder.Replication.Watch.{Watched, begins}
use threaded_network_adder.Client.Session.{Network, send_file}
use threaded_network_adder.Client.Delivery.{served, carried}
use threaded_network_adder.Client.Sums.{serve_file, running_sums}
use threaded_network_adder.System.Survival.{added, updated_by, Survives, served-Survives}
use threaded_network_adder.Tests.Data.{noon, entry, sender, primary, replica}
use threaded_network_adder.Tests.Client.{nets, client}
use threaded_network_adder.Tests.Rounds.{replica-Inv}

-- The primary adds 5 to its 10; the replica sees it last at 100 and checks at 106.
abbrev late_check : Clock
late_check n = pos 106

abbrev heir : Manager
heir = updated_by (added primary (pos 2) (pos 5)) replica noon (pos 100) sender

abbrev winner : Manager
winner = (check_primary_status heir late_check).0

-- The winner's answer to the value 3 reaches the client.
abbrev from_winner : ℕ → Network
from_winner n = record (nets n) { first = λ _. carried sender (served winner noon (pos 1) (pos 3)) }

watched : Watched heir (pos 100) heir
unfolding find_first handle_state_update state_message learn_addr adopt_state Base.update_first
    Base.◌==ℤ◌
watched = begins (record {
  entry = record (entry 2000 100) { addr = sender };
  stands = refl;
  alive = refl;
  time = refl;
})

served-Survives_example :
    Survives primary replica heir noon noon late_check
      (pos 2)
      (pos 5)
      sender
      (entry 2004 100)
      client
      (pos 3 ∷ [])
      (serve_file winner (λ _. noon) 0 (pos 1) (pos 3 ∷ [])).current_sum
      (send_file from_winner 0 client (pos 3 ∷ []))
unfolding any handle_state_update state_message learn_addr adopt_state Base.update_first
    running_sums wrap_int Base.◌+ℤ◌ Base.◌==ℤ◌ Base.◌-ℤ◌
served-Survives_example =
    served-Survives primary replica noon noon (pos 2) (pos 5) sender 1 (entry 2004 100) late_check
      from_winner (λ _. noon) sender client (pos 3 ∷ []) refl refl refl refl replica-Inv refl refl
      (omega arith) watched (omega arith) refl (refl, tt) (omega arith, tt)
