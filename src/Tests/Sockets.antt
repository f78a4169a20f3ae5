-- ===== src/Tests/Sockets.antt =====
-- Sockets whose calls fail, at fixed inputs.
use threaded_network_adder.Base.{Bool, true, false, pos, ◌∷◌, [], none, some, ◌≡◌, refl}
use threaded_network_adder.Sockets.{
  SysCall, open_socket, set_option, bind_to, close_socket, reuse_addr, receive_timeout, overrun,
  attempt, discovery_service_socket, send_message, terminate, server_discovery, message, set_up,
  any_addr, Ends, set_up-Ends, client_socket_main, open_after,
}
use threaded_network_adder.Net.{zero_addr}

-- The port is taken.
abbrev taken : SysCall → Bool
taken (bind_to a) = false
taken _ = true

set_up-Ends_example :
    Ends taken (server_discovery (pos 2000)) false (set_up taken (server_discovery (pos 2000)))
set_up-Ends_example = set_up-Ends taken (server_discovery (pos 2000))

taken_calls :
    (set_up taken (server_discovery (pos 2000))).calls
    ≡ open_socket
      ∷ set_option reuse_addr
      ∷ set_option receive_timeout
      ∷ bind_to (any_addr (pos 2000))
      ∷ close_socket
      ∷ []
unfolding set_up discovery_service_socket attempt
taken_calls = refl

-- An answer that fills the buffer of SendMessage leaves no room for the zero behind it.
full_buffer : (set_up (λ c. true) (message zero_addr true 1024)).ending ≡ overrun
unfolding set_up send_message attempt terminate
full_buffer = refl

-- The example client goes on where it has no socket.
example_goes_on :
    open_after (λ _. false) false (client_socket_main (λ _. false) (pos 2) (some 7)).calls ≡ none
unfolding client_socket_main open_after attempt
example_goes_on = refl
