-- ===== src/Sockets/Release.antt =====
-- The set-up of each function that opens a socket, and how it leaves the socket.
use threaded_network_adder.Base.{
  ℕ, ◌≤◌, ◌≡◌, ◌≢◌, refl, arith, Bool, true, false, Option, none, some, List, [], ◌∷◌, if_cases,
  if_intro, ltb, ◌+ℤ◌, pos, if◌then◌else◌, Bool-cases, inl, inr,
}
use threaded_network_adder.Net.{htons, loopback}
use threaded_network_adder.Replication.Types.{repl_port_offset}
use threaded_network_adder.Sockets.Calls.{
  SysCall, open_socket, set_option, bind_to, send_to, receive, reuse_addr, broadcast,
  receive_timeout, Ending, ready, returned, exited, overrun, SetUp, stop_after, attempt, open_after,
}
use threaded_network_adder.Sockets.SetUp.{
  discovery_service_socket, request_service_socket, discover_server_socket, client_socket,
  init_discovery_socket, replication_manager_socket, init_replication_socket, terminate,
  send_message, Opener, server_discovery, server_requests, client_discovery, client_requests,
  discovery_module, replication_manager, replication, message, set_up, max_message_len, any_addr,
  close_and_return, broadcast_addr,
}

-- What the answer to a message says of its length.
abbrev pub answer_length : Opener → ℕ
answer_length (message server_addr expect_return recv_len) = recv_len
answer_length _ = 0

-- How the socket stands at the end.
unfoldable pub Leaves : Opener → Ending → Option Bool → Type 0
Leaves o ready s = s ≡ some true
Leaves o returned s = s ≡ some false
Leaves o exited s = s ≢ none
Leaves o overrun s = (max_message_len ≤ answer_length o) × (s ≡ some true)

unfoldable pub Ends : (SysCall → Bool) → Opener → Bool → SetUp → Type 0
Ends works o is_open s = Leaves o s.ending (open_after works is_open s.calls)

module _ (works : SysCall → Bool) (o : Opener) where
  opened-Ends :
      (b : Bool) (next : SetUp) (failed : Ending)
      → Ends works o true next
      → Leaves o failed (some false)
      → Ends works o b (if b then next else stop_after [] failed)
  unfolding open_after Ends
  opened-Ends true next failed h k = h
  opened-Ends false next failed h k = k

  Ends-open_socket :
      (next : SetUp) (failed : Ending)
      → Ends works o true next
      → Leaves o failed (some false)
      → Ends works o false (attempt works open_socket (stop_after [] failed) next)
  unfolding attempt open_after Ends
  Ends-open_socket = opened-Ends (works open_socket)

  Ends-attempt :
      (c : SysCall) (failed next : SetUp)
      → ((cs : List SysCall) → open_after works true (c ∷ cs) ≡ open_after works true cs)
      → Ends works o true failed
      → Ends works o true next
      → Ends works o true (attempt works c failed next)
  unfolding attempt Ends
  Ends-attempt c failed next kept h k = elim (Bool-cases (works c)) [
    | inl e ↦ rw (e, kept next.calls) k
    | inr e ↦ rw (e, kept failed.calls) h
  ]

  Ends-terminate :
      (recv_len : ℕ) → recv_len ≡ answer_length o → Ends works o true (terminate recv_len)
  unfolding terminate Leaves Ends open_after
  Ends-terminate recv_len e =
      if_cases (Ends works o true) (ltb recv_len max_message_len) _ _ (λ _. refl)
        (λ long. (ground arith, refl))

  Ends-ready : Ends works o true (stop_after [] ready)
  unfolding Ends Leaves open_after
  Ends-ready = refl

  Ends-close : Ends works o true close_and_return
  unfolding Ends Leaves open_after
  Ends-close = refl

  Ends-exit : Ends works o true (stop_after [] exited)
  unfolding Ends Leaves open_after
  Ends-exit = λ e. cc

-- Up to the loop that uses its socket, a function of server_prot.c, client.c, discovery.c or
-- replication.c that opens one has closed it where it returns, once, and has it open where it goes
-- on to that loop, however its calls fail; the process exits otherwise, or SendMessage, which has no
-- loop, writes behind its buffer, and then the answer is longer than the last index of the buffer.
-- No call is made on a closed socket.
pub set_up-Ends : (works : SysCall → Bool) (o : Opener) → Ends works o false (set_up works o)
unfolding set_up Leaves open_after discovery_service_socket request_service_socket
    discover_server_socket client_socket init_discovery_socket replication_manager_socket
    init_replication_socket send_message
set_up-Ends works (server_discovery port) =
    Ends-open_socket works _ _ _
      (Ends-attempt works _ (set_option reuse_addr) _ _ (λ cs. refl) (Ends-close works _)
        (Ends-attempt works _ (set_option receive_timeout) _ _ (λ cs. refl) (Ends-close works _)
          (Ends-attempt works _ (bind_to (any_addr port)) _ _ (λ cs. refl) (Ends-close works _)
            (Ends-ready works _))))
      refl
set_up-Ends works (server_requests port) =
    Ends-open_socket works _ _ _
      (Ends-attempt works _ (set_option reuse_addr) _ _ (λ cs. refl) (Ends-close works _)
        (Ends-attempt works _ (bind_to (any_addr port)) _ _ (λ cs. refl) (Ends-close works _)
          (Ends-ready works _)))
      refl
set_up-Ends works client_discovery =
    Ends-open_socket works _ _ _
      (Ends-attempt works _ (set_option broadcast) _ _ (λ cs. refl) (Ends-close works _)
        (Ends-attempt works _ (set_option receive_timeout) _ _ (λ cs. refl) (Ends-close works _)
          (Ends-ready works _)))
      refl
set_up-Ends works client_requests =
    Ends-open_socket works _ _ _
      (Ends-attempt works _ (set_option receive_timeout) _ _ (λ cs. refl) (Ends-close works _)
        (Ends-ready works _))
      refl
set_up-Ends works (discovery_module port) =
    Ends-open_socket works _ _ _
      (Ends-attempt works _ (set_option reuse_addr) _ _ (λ cs. refl) (Ends-exit works _)
        (Ends-attempt works _ (set_option broadcast) _ _ (λ cs. refl) (Ends-exit works _)
          (Ends-attempt works _ (set_option receive_timeout) _ _ (λ cs. refl) (Ends-exit works _)
            (Ends-attempt works _ (bind_to (any_addr port)) _ _ (λ cs. refl) (Ends-exit works _)
              (Ends-attempt works _ (send_to (broadcast_addr port)) _ _ (λ cs. refl)
                (Ends-ready works _) (Ends-ready works _))))))
      (λ e. cc)
set_up-Ends works (replication_manager port) =
    Ends-open_socket works _ _ _
      (Ends-attempt works _ (set_option receive_timeout) _ _ (λ cs. refl)
        (Ends-attempt works _ (bind_to (any_addr (port +ℤ pos repl_port_offset))) _ _ (λ cs. refl)
          (Ends-exit works _) (Ends-ready works _))
        (Ends-attempt works _ (bind_to (any_addr (port +ℤ pos repl_port_offset))) _ _ (λ cs. refl)
          (Ends-exit works _) (Ends-ready works _)))
      (λ e. cc)
set_up-Ends works (replication my_id) =
    Ends-open_socket works _ _ _
      (Ends-attempt works _ (bind_to (record { s_addr = loopback; sin_port = htons my_id })) _ _
        (λ cs. refl) (Ends-exit works _) (Ends-ready works _))
      (λ e. cc)
set_up-Ends works (message server_addr expect_return recv_len) =
    Ends-open_socket works _ _ _
      (Ends-attempt works _ (set_option receive_timeout) _ _ (λ cs. refl) (Ends-close works _)
        (Ends-attempt works _ (send_to server_addr) _ _ (λ cs. refl) (Ends-close works _)
          (if_intro (Ends works _ true) expect_return _ _
            (Ends-attempt works _ receive _ _ (λ cs. refl) (Ends-close works _)
              (Ends-terminate works _ recv_len refl))
            (Ends-close works _))))
      refl
