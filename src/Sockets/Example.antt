-- ===== src/Sockets/Example.antt =====
-- client_socket.c: a client that sends a line of text, and does not stop where a call fails.
use threaded_network_adder.Base.{
  ◌≡◌, Bool, false, Option, none, some, [], ◌∷◌, ℕ, ℤ, pos, ltb_ℤ, if◌then◌else◌, arith,
}
use threaded_network_adder.Net.{SockAddr, htons}
use threaded_network_adder.Sockets.Calls.{
  SysCall, open_socket, send_to, receive, close_socket, returned, exited, SetUp, stop_after,
  attempt, open_after,
}

-- A failed call is only reported.
abbrev reported : (SysCall → Bool) → SysCall → SetUp → SetUp
reported works c next = attempt works c next next

module _ (works : SysCall → Bool) where
  abbrev talk : SockAddr → SetUp
  talk addr = reported works open_socket (
      reported works (send_to addr)
        (reported works receive (stop_after (close_socket ∷ []) returned)))

  -- `host` is what gethostbyname finds for the argument; the port is 4000.
  unfoldable pub client_socket_main : ℤ → Option ℕ → SetUp
  client_socket_main argc none = stop_after [] exited
  client_socket_main argc (some host) =
      if ltb_ℤ argc (pos 2)
      then stop_after [] exited
      else talk (record { s_addr = host; sin_port = htons (pos 4000) })

-- Where the socket could not be opened, the calls on it are made all the same.
pub client_socket_main-open_after :
    (works : SysCall → Bool) (argc : ℤ) (host : ℕ)
    → ltb_ℤ argc (pos 2) ≡ false
    → open_after works false (client_socket_main works argc (some host)).calls
      ≡ (if works open_socket then some false else none)
unfolding client_socket_main attempt open_after
client_socket_main-open_after works argc host enough = rw enough (ground arith)
