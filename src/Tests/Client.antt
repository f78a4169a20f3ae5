-- ===== src/Tests/Client.antt =====
-- Clients, at fixed inputs.
use threaded_network_adder.Base.{
  ◌≡◌, refl, Bool, true, false, ℕ, zero, suc, List, [], ◌∷◌, ℤ, pos, negsuc, wrap_int, ◌+ℤ◌, arith,
  length, if◌then◌else◌, ◌==◌,
}
use threaded_network_adder.Base
use threaded_network_adder.Replication.Types.{Manager}
use threaded_network_adder.Server.Packet.{desc_ack}
use threaded_network_adder.Server.Request.{
  receive_and_decode_message, discovery_round, discovery_answer, reply,
}
use threaded_network_adder.Client.Search.{
  Probe, unanswered, answered, discover_server, probe_ports, hit, base_port,
}
use threaded_network_adder.Client.Exchange.{Attempt, send_request, max_retries}
use threaded_network_adder.Client.Session.{Network, Client, submit, send_file, send_typed}
use threaded_network_adder.Client.Ports.{Misses, Searched, discover_server-Searched}
use threaded_network_adder.Client.Attempts.{Outcome, send_request-Outcome}
use threaded_network_adder.Client.Delivery.{served, carried, sum_with}
use threaded_network_adder.Client.Answers.{Told, submit-Told}
use threaded_network_adder.Client.Resending.{
  FailedOver, submit-FailedOver, ShowsSecond, submit-ShowsSecond, Stranded, submit-Stranded,
}
use threaded_network_adder.Client.Sums.{
  Counted, send_file-Counted, serve_file, running_sums, send_typed-up_to_zero, up_to_zero,
}
use threaded_network_adder.Client.Meeting.{Met, discover_server-Met}
use threaded_network_adder.Tests.Data.{noon, primary, replica, sender}

-- Port 2004 alone answers, with its request port.
abbrev pub only_second : ℕ → Probe
only_second port = if port == 2004 then answered desc_ack (pos 2005) 9 else unanswered

discover_server-Searched_example :
    Searched true only_second sender (discover_server true only_second sender)
discover_server-Searched_example = discover_server-Searched true only_second sender

search_runs : (discover_server true only_second sender).asked ≡ 2000 ∷ 2004 ∷ []
unfolding discover_server probe_ports
search_runs = refl

pub none_at_2000 : Misses 1 base_port only_second
unfolding hit
none_at_2000 zero h = refl
none_at_2000 (suc k) h = absurd (omega arith)

discover_server-Met_example : Met 1 9 (discover_server true only_second sender)
unfolding discovery_round discovery_answer receive_and_decode_message Base.◌+ℤ◌ wrap_int
discover_server-Met_example =
    discover_server-Met true 1 9 only_second sender refl (omega arith) none_at_2000 refl

-- The first answer is of a wrong type, the second one is the sum 15.
abbrev late : ℕ → Attempt
late zero = Attempt.answered (record (reply (pos 1) (pos 3) (pos 0)) { type = desc_ack }) sender
late (suc n) = Attempt.answered (reply (pos 2) (pos 15) (pos 0)) sender

send_request-Outcome_example :
    Outcome max_retries 0 late (pos 5) (pos 1) (send_request late sender (pos 5) (pos 1))
send_request-Outcome_example = send_request-Outcome late sender (pos 5) (pos 1)

abbrev pub client : Client
client = record { seqn = pos 1; server_addr = sender }

abbrev pub always : Attempt → ℕ → Attempt
always a n = a

-- The servers whose answers to the first and the second request arrive.
abbrev pub network : Manager → ℤ → Manager → ℤ → Network
network rm value rm' value' = record {
  first = always (carried sender (served rm noon (pos 1) value));
  ready = true;
  probe = only_second;
  second = always (carried sender (served rm' noon (pos 2) value'));
}

submit-Told_example :
    let value = pos 5 in
    ((served primary noon (pos 1) value).rm.current_sum ≡ sum_with primary value)
    × Told
        (network primary value primary value)
        client
        value
        sender
        (sum_with primary value)
        (submit (network primary value primary value) client value)
submit-Told_example =
    submit-Told (network primary (pos 5) primary (pos 5)) client (pos 5) sender primary noon refl
      refl

submit-FailedOver_example :
    FailedOver client
      (pos 5)
      sender
      replica
      primary
      (served replica noon (pos 1) (pos 5)).rm
      (served primary noon (pos 2) (pos 5)).rm
      (submit (network replica (pos 5) primary (pos 5)) client (pos 5))
unfolding discover_server probe_ports wrap_int Base.wrap_long Base.◌+ℤ◌
submit-FailedOver_example =
    submit-FailedOver (network replica (pos 5) primary (pos 5)) client (pos 5) sender sender replica
      primary noon noon refl refl (omega arith) refl refl (omega arith)

-- The sum is -12; ten makes it -2, and ten once more makes it 8.
abbrev owing : Manager
owing = record primary { current_sum = negsuc 11 }

abbrev ten_twice : Network
ten_twice = network owing (pos 10) (served owing noon (pos 1) (pos 10)).rm (pos 10)

submit-ShowsSecond_example :
    let once = (served owing noon (pos 1) (pos 10)).rm in
    let sum = wrap_int (negsuc 11 +ℤ pos 10 +ℤ pos 10) in
    ((served once noon (pos 2) (pos 10)).rm.current_sum ≡ sum)
    × ShowsSecond client (pos 10) sender sum (submit ten_twice client (pos 10))
unfolding discover_server probe_ports wrap_int Base.wrap_long Base.◌+ℤ◌
submit-ShowsSecond_example =
    submit-ShowsSecond ten_twice client (pos 10) sender sender owing noon noon refl refl refl
      (omega arith) refl (omega arith)

twice_runs : wrap_int (negsuc 11 +ℤ pos 10 +ℤ pos 10) ≡ pos 8
unfolding wrap_int Base.◌+ℤ◌
twice_runs = refl

abbrev refused : Network
refused = network replica (pos 5) (served replica noon (pos 1) (pos 5)).rm (pos 5)

submit-Stranded_example :
    let once = (served replica noon (pos 1) (pos 5)).rm in
    Stranded client
      (pos 5)
      sender
      replica
      once
      (served once noon (pos 2) (pos 5)).rm
      (submit refused client (pos 5))
unfolding discover_server probe_ports Base.wrap_long Base.◌+ℤ◌
submit-Stranded_example =
    submit-Stranded refused client (pos 5) sender replica noon noon refl refl (omega arith) refl

-- Two values of a file, each with the answer of the primary at that point.
abbrev pub values : List ℤ
values = pos 5 ∷ negsuc 2 ∷ []

abbrev pub nets : ℕ → Network
nets zero = network primary (pos 5) primary (pos 5)
nets (suc n) = record (network primary (pos 5) primary (pos 5)) {
  first =
      always
        (carried sender (served (served primary noon (pos 1) (pos 5)).rm noon (pos 2) (negsuc 2)));
}

send_file-Counted_example :
    Counted primary client values
      (serve_file primary (λ _. noon) 0 (pos 1) values).current_sum
      (send_file nets 0 client values)
unfolding wrap_int Base.wrap_long Base.◌+ℤ◌ running_sums
send_file-Counted_example =
    send_file-Counted nets (λ _. noon) sender primary client values refl (omega arith)
      (refl, (refl, tt)) (omega arith, (omega arith, tt))

send_typed-up_to_zero_example :
    send_typed nets 0 client (pos 5 ∷ pos 0 ∷ pos 3 ∷ [])
    ≡ send_file nets 0 client (up_to_zero (pos 5 ∷ pos 0 ∷ pos 3 ∷ []))
send_typed-up_to_zero_example = send_typed-up_to_zero nets 0 client (pos 5 ∷ pos 0 ∷ pos 3 ∷ [])

typed_runs : up_to_zero (pos 5 ∷ pos 0 ∷ pos 3 ∷ []) ≡ pos 5 ∷ []
unfolding up_to_zero Base.◌==ℤ◌
typed_runs = refl
