-- ===== src/Tests/State.antt =====
-- The replicated sum, at fixed inputs.
use threaded_network_adder.Base.{◌≡◌, refl, ℤ, pos, arith, some, inl}
use threaded_network_adder.Base
use threaded_network_adder.Replication.State.{state_message, handle_state_update}
use threaded_network_adder.Replication.Receiver.{learn_addr}
use threaded_network_adder.Replication.Election.{adopt_state}
use threaded_network_adder.Replication.Agreement.{
  Agrees, update_state-Agrees, received, receive_state,
}
use threaded_network_adder.Replication.Freshness.{Outcome, receiver_round-Outcome}
use threaded_network_adder.Tests.Data.{noon, entry, sender, primary, replica}

update_state-Agrees_example :
    Agrees primary replica noon noon (pos 15) (pos 2) sender (entry 2004 100)
unfolding Base.◌==ℤ◌
update_state-Agrees_example =
    update_state-Agrees primary replica noon noon (pos 15) (pos 2) sender 1 (entry 2004 100) refl
      refl refl refl refl (omega arith)

receiver_round-Outcome_example :
    Outcome
      (state_message primary (pos 100)).type
      replica
      (state_message primary (pos 100))
      (received primary replica noon (pos 100) sender refl)
receiver_round-Outcome_example =
    receiver_round-Outcome replica noon (state_message primary (pos 100)) sender
      (receive_state primary replica noon (pos 100) sender)

-- The replica takes a newer sum, and answers with it.
takes_newer_sum :
    (received
      (record primary { current_sum = pos 15; last_seqn = pos 2 })
      replica
      noon
      (pos 100)
      sender
      refl).current_sum
    ≡ pos 15
unfolding handle_state_update state_message learn_addr adopt_state Base.◌==ℤ◌
takes_newer_sum = refl
