-- ===== src/Tests/Requests.antt =====
-- Requests of clients, at fixed inputs.
use threaded_network_adder.Server.Processing.{decimal, print_int, adder_implementation}
use threaded_network_adder.Base.{
  ◌≡◌, refl, Bool, true, false, ℕ, zero, suc, ℤ, pos, negsuc, ◌+ℤ◌, IsInt, wrap_int, arith, some,
  [], ◌∷◌, List,
}
use threaded_network_adder.Base
use threaded_network_adder.Server.Packet.{req, RequestPacket, whole}
use threaded_network_adder.Server.Request.{request_round, send_answer}
use threaded_network_adder.Server.Adder.{
  Round, request_round-Round, Call, serve_calls, total, serve_calls-total, Sent, send_answer-Sent,
}
use threaded_network_adder.Replication.Types.{MessageType, Message}
use threaded_network_adder.Server.Interleaving.{
  Stray, add_value_amid, deposed_by, nothing, add_value_amid-Stray,
}
use threaded_network_adder.Tests.Data.{noon, primary, blank, sender}

abbrev five : RequestPacket
five = record { type = req; req = record { seqn = pos 7; value = pos 5 } }

request_round-Round_example : Round primary (whole five) (request_round primary noon (whole five))
request_round-Round_example = request_round-Round primary noon (whole five)

-- Up to the largest int and beyond, and back.
abbrev calls : List Call
calls =
    record { clock = noon; seqn = pos 1; value = pos 0x7fff_ffff }
    ∷ record { clock = noon; seqn = pos 2; value = negsuc 0x7fff_fffe }
    ∷ []

serve_calls-total_example :
    (serve_calls primary calls).current_sum ≡ wrap_int (pos 10 +ℤ total calls)
serve_calls-total_example = serve_calls-total primary calls refl (omega arith)

-- The sum wraps on the way and comes back.
total_runs : wrap_int (pos 10 +ℤ total calls) ≡ pos 10
unfolding total wrap_int Base.◌+ℤ◌
total_runs = refl

second_time : ℕ → Bool
second_time zero = false
second_time (suc n) = true

send_answer-Sent_example : Sent 3 0 second_time (send_answer 3 0 second_time)
send_answer-Sent_example = send_answer-Sent 3 0 second_time

-- The victory of 2008 comes between.
abbrev coup : Message
coup = record (blank MessageType.victory) { replica_id = pos 2008 }

add_value_amid-Stray_example :
    Stray primary coup
      (pos 7)
      (pos 5)
      (add_value_amid (deposed_by noon coup sender) nothing primary noon (pos 7) (pos 5))
add_value_amid-Stray_example =
    add_value_amid-Stray primary noon noon coup sender (pos 7) (pos 5) (omega arith)

-- "-42"
print_runs : print_int (negsuc 41) ≡ 45 ∷ 52 ∷ 50 ∷ []
unfolding print_int decimal
print_runs = refl

adder_runs : (adder_implementation (pos 5) (pos 10)).0 ≡ pos 15
unfolding adder_implementation wrap_int Base.◌+ℤ◌
adder_runs = refl
