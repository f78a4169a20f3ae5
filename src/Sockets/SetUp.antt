-- ===== src/Sockets/SetUp.antt =====
-- The functions that open a socket, up to the loop that uses it: the calls they make, in order.
use threaded_network_adder.Base.{ℕ, Bool, [], ◌∷◌, ℤ, pos, ◌+ℤ◌, ltb, if◌then◌else◌}
use threaded_network_adder.Net.{SockAddr, htons, loopback}
use threaded_network_adder.Replication.Types.{repl_port_offset}
use threaded_network_adder.Sockets.Calls.{
  SysCall, open_socket, set_option, bind_to, send_to, receive, close_socket, reuse_addr, broadcast,
  receive_timeout, ready, returned, exited, overrun, SetUp, stop_after, attempt,
}

-- INADDR_ANY and INADDR_BROADCAST
abbrev pub any_addr : ℤ → SockAddr
any_addr port = record { s_addr = 0; sin_port = htons port }

abbrev pub broadcast_addr : ℤ → SockAddr
broadcast_addr port = record { s_addr = 0xffff_ffff; sin_port = htons port }

-- close(sockfd); return
abbrev pub close_and_return : SetUp
close_and_return = stop_after (close_socket ∷ []) returned

abbrev pub max_message_len : ℕ
max_message_len = 1024

-- What SendMessage does with an answer of `recv_len` bytes: buffer[recv_len] = '\0', where the
-- buffer has MAX_MESSAGE_LEN bytes.
unfoldable pub terminate : ℕ → SetUp
terminate recv_len =
    if ltb recv_len max_message_len then close_and_return else stop_after [] overrun

module _ (works : SysCall → Bool) where
  -- discovery_service of server_prot.c
  unfoldable pub discovery_service_socket : ℤ → SetUp
  discovery_service_socket port = attempt works open_socket (stop_after [] returned) (
      attempt works (set_option reuse_addr) close_and_return (
        attempt works (set_option receive_timeout) close_and_return
          (attempt works (bind_to (any_addr port)) close_and_return (stop_after [] ready))))

  unfoldable pub request_service_socket : ℤ → SetUp
  request_service_socket port = attempt works open_socket (stop_after [] returned) (
      attempt works (set_option reuse_addr) close_and_return
        (attempt works (bind_to (any_addr port)) close_and_return (stop_after [] ready)))

  -- discover_server of client.c
  unfoldable pub discover_server_socket : SetUp
  discover_server_socket = attempt works open_socket (stop_after [] returned) (
      attempt works (set_option broadcast) close_and_return
        (attempt works (set_option receive_timeout) close_and_return (stop_after [] ready)))

  -- RunClient, after its thread is started
  unfoldable pub client_socket : SetUp
  client_socket =
      attempt works open_socket (stop_after [] returned)
        (attempt works (set_option receive_timeout) close_and_return (stop_after [] ready))

  -- init_discovery_service of discovery.c: the second option is tried only if the first was set,
  -- and a failure to send the announcement is only reported.
  unfoldable pub init_discovery_socket : ℤ → SetUp
  init_discovery_socket port = attempt works open_socket (stop_after [] exited) (
      attempt works (set_option reuse_addr) (stop_after [] exited) (
        attempt works (set_option broadcast) (stop_after [] exited) (
          attempt works (set_option receive_timeout) (stop_after [] exited) (
            attempt works (bind_to (any_addr port)) (stop_after [] exited) (
              attempt works (send_to (broadcast_addr port)) (stop_after [] ready)
                (stop_after [] ready))))))

  -- init_replication_manager: whether the timeout is set is not looked at.
  unfoldable pub replication_manager_socket : ℤ → SetUp
  replication_manager_socket port =
      attempt works open_socket (stop_after [] exited)
        (attempt works (set_option receive_timeout) bound bound)
    where
      bound : SetUp
      bound =
          attempt works (bind_to (any_addr (port +ℤ pos repl_port_offset))) (stop_after [] exited)
            (stop_after [] ready)

  -- init_replication
  unfoldable pub init_replication_socket : ℤ → SetUp
  init_replication_socket my_id = attempt works open_socket (stop_after [] exited) (
      attempt works (bind_to (record { s_addr = loopback; sin_port = htons my_id }))
        (stop_after [] exited) (stop_after [] ready))

  -- SendMessage; `recv_len` is what recvfrom returns where it succeeds.
  unfoldable pub send_message : SockAddr → Bool → ℕ → SetUp
  send_message server_addr expect_return recv_len =
      attempt works open_socket (stop_after [] returned) (
        attempt works (set_option receive_timeout) close_and_return (
          attempt works (send_to server_addr) close_and_return (
            if expect_return
            then attempt works receive close_and_return (terminate recv_len)
            else close_and_return)))

-- Every function of the program that opens a socket, with its arguments.
pub data Opener : Type 0 where
  server_discovery server_requests : (port : ℤ) → Opener
  client_discovery client_requests : Opener
  discovery_module replication_manager replication : (port : ℤ) → Opener
  message : (server_addr : SockAddr) (expect_return : Bool) (recv_len : ℕ) → Opener

unfoldable pub set_up : (SysCall → Bool) → Opener → SetUp
set_up works (server_discovery port) = discovery_service_socket works port
set_up works (server_requests port) = request_service_socket works port
set_up works client_discovery = discover_server_socket works
set_up works client_requests = client_socket works
set_up works (discovery_module port) = init_discovery_socket works port
set_up works (replication_manager port) = replication_manager_socket works port
set_up works (replication port) = init_replication_socket works port
set_up works (message server_addr expect_return recv_len) =
    send_message works server_addr expect_return recv_len
