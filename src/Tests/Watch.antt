-- ===== src/Tests/Watch.antt =====
-- A replica that watches its primary, at fixed inputs.
use threaded_network_adder.Base
use threaded_network_adder.Base.{
  ℤ, pos, refl, false, true, arith, none, some, [], ◌∷◌, find_first, lock, unlock,
}
use threaded_network_adder.Replication.Types.{Manager}
use threaded_network_adder.Replication.Table.{datagram, heartbeat_message}
use threaded_network_adder.Replication.Heartbeat.{
  after_heartbeat, heartbeat_round-Sends, heartbeat-received,
}
use threaded_network_adder.Replication.Watch.{
  Renews, heartbeat_round-Renews, Watched, begins, hears, Calm, Watched-Calm,
}
use threaded_network_adder.Tests.Data.{entry, sender, primary, replica}

heartbeat_round-Renews_example :
    Renews primary replica (pos 103) (λ _. pos 104) sender (entry 2004 100)
unfolding find_first Base.◌==ℤ◌
heartbeat_round-Renews_example =
    heartbeat_round-Renews primary replica (pos 103) (λ _. pos 104) sender 1 (entry 2004 100)
      {known = entry 2000 100} refl refl refl refl refl refl

-- Seen at 100, a heartbeat at 104, a check at 109.
abbrev refreshed : Manager
refreshed = after_heartbeat replica (pos 2000) (pos 104) sender

abbrev watched : Watched replica (pos 104) refreshed
unfolding find_first Base.◌==ℤ◌
watched =
    hears primary (pos 103) (λ _. pos 104) sender
      (datagram (entry 2004 100).addr (heartbeat_message primary (pos 103)))
      (begins {at = pos 100}
        (record { entry = entry 2000 100; stands = refl; alive = refl; time = refl }))
      refl (heartbeat_round-Sends primary (pos 103) 1 (entry 2004 100) refl refl refl refl)
      (heartbeat-received primary replica (λ _. pos 104) (pos 103) sender)

Watched-Calm_example : Calm replica (pos 104) refreshed
Watched-Calm_example = Watched-Calm refl watched
