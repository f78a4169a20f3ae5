-- ===== src/Tests/Menus.antt =====
-- RunClient on fixed inputs.
use threaded_network_adder.Base
use threaded_network_adder.Base.{
  ℕ, Bool, true, false, Option, none, some, List, [], ◌∷◌, ℤ, pos, negsuc, ◌≡◌, refl, ltb_ℤ,
  wrap_int, arith,
}
use threaded_network_adder.Net.{zero_addr}
use threaded_network_adder.Client.Search.{unanswered}
use threaded_network_adder.Client.Exchange.{Attempt}
use threaded_network_adder.Client.Session.{Client, Network}
use threaded_network_adder.Client.Menu.{
  number, word, newline, World, scan_int, skip_line, first_option, first_menu, file_values,
}
use threaded_network_adder.Client.Sums.{serve_file, running_sums}
use threaded_network_adder.Client.Visit.{Visited, file_session, run_client-Visited}
use threaded_network_adder.Server.Request.{
  discovery_round, discovery_answer, receive_and_decode_message,
}
use threaded_network_adder.Tests.Data.{noon, primary, sender}
use threaded_network_adder.Tests.Client.{values, nets, only_second, none_at_2000}
use threaded_network_adder.Client.Typing.{second_menus-no_value}
use threaded_network_adder.Client.Loops.{quiet, second_menus, first_menus, run_client}

-- No answer comes.
abbrev nothing : Network
nothing = record {
  first = λ k. Attempt.timed_out;
  ready = true;
  probe = λ k. unanswered;
  second = λ k. Attempt.timed_out;
}

-- A network without servers.
abbrev deserted : World
deserted = record {
  parse_ip = λ line. none;
  open_file = λ line. none;
  search_ready = λ k. true;
  search_probe = λ k j. unanswered;
  nets = λ rounds k. nothing;
}

abbrev fresh : Client
fresh = record { seqn = pos 1; server_addr = zero_addr }

-- Text instead of an option ends RunClient with its socket open.
text_leaves_open :
    run_client true deserted 3 zero_addr (word ∷ newline ∷ []) ≡ some (quiet fresh false)
unfolding run_client first_menus first_menu scan_int
text_leaves_open = refl

exit_closes :
    run_client true deserted 3 zero_addr (number (pos 7) ∷ newline ∷ number (pos 3) ∷ newline ∷ [])
    ≡ some (quiet fresh true)
unfolding run_client first_menus first_menu scan_int skip_line first_option Base.◌==ℤ◌
exit_closes = refl

second_menus-no_value_example :
    second_menus deserted (λ rounds k. nothing) 1000 fresh (word ∷ []) ≡ none
unfolding scan_int
second_menus-no_value_example =
    second_menus-no_value deserted (λ rounds k. nothing) 1000 fresh (word ∷ []) refl

-- A file of two values, the second behind an empty line, and the primary on port 2004.
abbrev world : World
world = record {
  parse_ip = λ line. none;
  open_file = λ line. some (number (pos 5) ∷ newline ∷ newline ∷ number (negsuc 2) ∷ []);
  search_ready = λ k. true;
  search_probe = λ k. only_second;
  nets = λ rounds. nets;
}

run_client-Visited_example :
    Visited primary values
      (serve_file primary (λ _. noon) 0 (pos 1) values).current_sum
      (run_client true world 3 sender (file_session (word ∷ [])))
unfolding wrap_int Base.wrap_long Base.◌+ℤ◌ running_sums file_values discovery_round
    discovery_answer receive_and_decode_message
run_client-Visited_example =
    run_client-Visited world 0 sender (word ∷ []) 1 9 (λ _. noon) sender primary (tt, tt) refl refl
      (omega arith) none_at_2000 refl refl (omega arith) (refl, (refl, tt))
      (omega arith, (omega arith, tt))
