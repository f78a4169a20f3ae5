-- ===== src/Tests/Elections.antt =====
-- Elections at fixed inputs.
use threaded_network_adder.Base.{
  ◌≡◌, refl, Bool, true, false, ℤ, pos, arith, some, any, find_first, update_first, [], ◌∷◌,
}
use threaded_network_adder.Base
use threaded_network_adder.Replication.Table.{datagram}
use threaded_network_adder.Replication.Election.{
  later, start_election, suspect, check_primary_status, election_message,
}
use threaded_network_adder.Replication.Distinct.{Distinct}
use threaded_network_adder.Replication.Role.{Inv}
use threaded_network_adder.Replication.Sends.{Sends}
use threaded_network_adder.Replication.Failover.{Wins, check_primary_status-Wins}
use threaded_network_adder.Replication.Succession.{Followed, start_election-Followed}
use threaded_network_adder.Replication.Challenge.{
  start_election-challenges, Answered, challenge-Answered,
}
use threaded_network_adder.Tests.Data.{noon, entry, server, sender, orphan, middle}

orphan-Inv : Inv orphan
unfolding Distinct any Base.◌==ℤ◌
orphan-Inv = record {
  own_primary = λ p. cc;
  settled = λ p. cc;
  table = record { distinct = (refl, (refl, tt)); bounded = omega arith };
}

check_primary_status-Wins_example : Wins orphan (check_primary_status orphan noon).0
unfolding any find_first Base.◌==ℤ◌ Base.◌-ℤ◌
check_primary_status-Wins_example =
    check_primary_status-Wins orphan noon orphan-Inv refl (refl, refl) refl

-- It runs: the server that finds the primary silent is the primary afterwards.
orphan_leads : (check_primary_status orphan noon).0.primary_id ≡ pos 2008
unfolding check_primary_status start_election suspect any find_first update_first Base.◌==ℤ◌
    Base.◌-ℤ◌
orphan_leads = refl

start_election-Followed_example :
    Followed orphan (server 2004 false 2000 9 1 []) noon noon noon sender (entry 2004 100)
unfolding any Base.◌==ℤ◌ Base.◌-ℤ◌
start_election-Followed_example =
    start_election-Followed orphan (server 2004 false 2000 9 1 []) noon noon noon sender 1
      (entry 2004 100) refl refl refl refl (omega arith) (omega arith)

start_election-challenges_example :
    ((start_election middle noon).0.is_primary ≡ false)
    × ((start_election middle noon).0.primary_id ≡ pos 2000)
    × ((start_election middle noon).0.election_in_progress ≡ true)
    × Sends
        (datagram (entry 2008 100).addr (election_message middle (later noon 1)))
        (start_election middle noon).1
unfolding any Base.◌==ℤ◌ Base.◌-ℤ◌
start_election-challenges_example =
    start_election-challenges middle noon 1 (entry 2008 100) refl refl refl

challenge-Answered_example : Answered middle orphan noon noon (pos 100) sender sender
challenge-Answered_example =
    challenge-Answered middle orphan noon noon (pos 100) sender sender (omega arith)
