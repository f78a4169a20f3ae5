-- ===== src/Node/Process.antt =====
-- server_prot.c: ServerMain and init_server, which start a server with its three threads' sockets.
use threaded_network_adder.Base.{
  ◌≡◌, Bool, true, Option, none, some, ℤ, pos, ◌+ℤ◌, ◌==ℤ◌, leb_ℤ, wrap_int, if◌then◌else◌, arith,
  ◌↔◌,
}
use threaded_network_adder.Replication.Types.{Clock, primary_port, repl_port_offset}
use threaded_network_adder.Replication.Startup.{Started, init_replication_manager}
use threaded_network_adder.Server.Packet.{desc, desc_ack}
use threaded_network_adder.Server.Request.{discovery_answer}
use threaded_network_adder.Sockets.{
  SysCall, open_socket, bind_to, exited, attempt, any_addr, replication_manager_socket,
}
use threaded_network_adder.Node.{Reach, start}

-- What comes of a start: a message and no server, the end of the process in
-- init_replication_manager, or two threads that listen for clients, on the ports given to them.
pub data Process : Type 0 where
  invalid_port no_socket : Process
  serving : (s : Started) (discovery_port request_port : ℤ) → Process

-- Whether init_replication_manager could open and bind its socket.
pub record Host : Type 0 where
  pub socket_opened : Bool
  pub socket_bound : Bool

abbrev with_services : ℤ → Option Started → Process
with_services port none = no_socket
with_services port (some s) = serving s port (wrap_int (port +ℤ pos 1))

-- The server on port 2000 begins as the primary.
unfoldable pub init_server : Host → Clock → ℤ → Process
init_server host clock port = with_services port (
    init_replication_manager clock port (port ==ℤ pos primary_port) host.socket_opened
      host.socket_bound)

-- `port_num` is what atoi makes of the argument.
unfoldable pub server_main : Host → Clock → ℤ → Process
server_main host clock port_num =
    if leb_ℤ port_num (pos 0) then invalid_port else init_server host clock port_num

-- server_main.c: the port of the argument is not checked there.
unfoldable pub main : Host → Clock → ℤ → ℤ → Process
main host clock argc port_num =
    if argc ==ℤ pos 2 then init_server host clock port_num else invalid_port

-- The exit status that the handler has for SIGINT. ServerMain gives sigaction a structure that it
-- has not filled in, so the handler is not installed by it.
unfoldable pub handle_sigint : ℤ → ℤ
handle_sigint sig = pos 0

opened :
    (clock : Clock) (port : ℤ) (is_primary socket_opened socket_bound : Bool) {s : Started}
    → init_replication_manager clock port is_primary socket_opened socket_bound ≡ some s
    → (socket_opened ≡ true) × (socket_bound ≡ true)
unfolding init_replication_manager
opened clock port is_primary socket_opened socket_bound e = ground arith

serving-some :
    (port : ℤ) (o : Option Started) {s : Started} {discovery_port request_port : ℤ}
    → with_services port o ≡ serving s discovery_port request_port
    → (o ≡ some s) × (port ≡ discovery_port) × (wrap_int (port +ℤ pos 1) ≡ request_port)
serving-some port none e = absurd (ground arith)
serving-some port (some t) e = (ground arith, ground arith, ground arith)

-- What a started process serves is a server of Node, whose first manager is the primary exactly on
-- port 2000; and its discovery service tells clients the port of its request service.
pub init_server-Reach :
    (host : Host) (clock : Clock) (port seqn : ℤ) {s : Started} {discovery_port request_port : ℤ}
    → init_server host clock port ≡ serving s discovery_port request_port
    → Reach port (port ==ℤ pos primary_port) s.rm
      × (discovery_answer desc discovery_port seqn
          ≡ some (record {
            type = desc_ack;
            resp = record { seqn = seqn; value = request_port; status = pos 0 };
          }))
unfolding init_server discovery_answer
init_server-Reach host clock port seqn e =
    let (made, same, above) =
      serving-some port
        (init_replication_manager clock port (port ==ℤ pos primary_port) host.socket_opened
          host.socket_bound)
        e in
    let (f, g) =
      opened clock port (port ==ℤ pos primary_port) host.socket_opened host.socket_bound made in
    (start clock (rw (f, g) at made), rw (← same, ← above))

-- The host as the calls on the replication socket find it.
abbrev pub host_of : (SysCall → Bool) → ℤ → Host
host_of works port = record {
  socket_opened = works open_socket;
  socket_bound = works (bind_to (any_addr (port +ℤ pos repl_port_offset)));
}

-- The start fails exactly where the set-up of the replication socket ends the process.
pub init_server-exited :
    (works : SysCall → Bool) (clock : Clock) (port : ℤ)
    → (init_server (host_of works port) clock port ≡ no_socket)
      ↔ ((replication_manager_socket works port).ending ≡ exited)
unfolding init_server init_replication_manager replication_manager_socket attempt
init_server-exited works clock port = (λ e. ground arith, λ e. ground arith)
