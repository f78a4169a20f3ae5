-- ===== src/Replication/Joining.antt =====
-- replication.c: the functions of an earlier way to start and stop, init_replication,
-- send_join_request and replication_thread, which the built server does not start, and
-- stop_replication_manager.
use mathlib.Core.Option
use threaded_network_adder.Base.{
  ℕ, zero, suc, ◌+◌, Bool, true, false, Option, none, some, List, [], ◌∷◌, ◌++◌, ℤ, pos, negsuc,
  ◌-ℤ◌, ◌==ℤ◌, ltb_ℤ, if◌then◌else◌, lock, unlock, send, sleep,
}
use threaded_network_adder.Net.{htons, loopback}
use threaded_network_adder.Replication.Types.{
  MessageType, state_update, Message, Manager, Datagram, Effects, Clock,
}
use threaded_network_adder.Replication.Table.{send_times, datagram, repl_addr}
use threaded_network_adder.Replication.Membership.{join_message}
use threaded_network_adder.Replication.Receiver.{
  Arrival, whole, partial, process_replication_message,
}

-- One round of replication_thread: the sender's address is not kept.
unfoldable pub replication_round : Manager → Clock → Arrival → Option (Manager × Effects)
replication_round rm clock (whole msg sender) = process_replication_message rm clock msg sender
replication_round rm clock partial = some (rm, [])

-- The state of a STATE_UPDATE of any server, whatever its number.
unfoldable pub take_state : Manager → Message → Manager
take_state rm msg = record rm {
  current_sum = msg.current_sum;
  last_seqn = msg.last_seqn;
  received_initial_state = true;
}

abbrev of_type : MessageType → Message → Option Message
of_type state_update msg = some msg
of_type _ msg = none

unfoldable pub initial_state : Arrival → Option Message
initial_state (whole msg sender) = of_type msg.type msg
initial_state partial = none

-- The manager, the calls and the result of a call.
pub record Joined : Type 0 where
  pub rm : Manager
  pub effects : Effects
  pub result : ℤ

abbrev pub joined : Manager → Message → Datagram → Joined
joined rm msg d = record {
  rm = take_state rm msg;
  effects = send d ∷ lock ∷ unlock ∷ [];
  result = pos 0;
}

abbrev pub retried : Datagram → Joined → Joined
retried d j = record j { effects = send d ∷ sleep 1_000_000 ∷ j.effects }

-- The loop of send_join_request from its `k`-th round on: `clock k` is the time at its test, and
-- `reply k` what recvfrom gives within a second. `none`: the rounds given were too few.
unfoldable pub join_loop : Manager → Datagram → Clock → ℤ → (ℕ → Arrival) → ℕ → ℕ → Option Joined
join_loop rm d clock start reply zero k = none
join_loop rm d clock start reply (suc rounds) k =
    let rest = join_loop rm d clock start reply rounds (suc k) in
    if ltb_ℤ (clock k -ℤ start) (pos 10)
    then (elim (initial_state (reply k)) [
      | some msg ↦ some (joined rm msg d)
      | none ↦ Option.map (retried d) rest
    ])
    else some (record { rm = rm; effects = []; result = negsuc 0 })

unfoldable pub join_request : Manager → ℤ → Datagram
join_request rm now =
    datagram (repl_addr rm.primary_id) (record (join_message rm now) { primary_id = rm.primary_id })

-- The time is read for the message, for the start, and at each test. Each round that gets no
-- state sleeps a second, so eleven tests are enough for ten seconds.
unfoldable pub send_join_request : Manager → ℤ → ℤ → Clock → (ℕ → Arrival) → Option Joined
send_join_request rm now start clock reply =
    join_loop rm (join_request rm now) clock start reply 11 0

-- for (int port = 2000; port <= 2040; port += 4), with the rounds left
unfoldable pub join_ports : Manager → ℤ → ℕ → ℕ → Effects
join_ports rm now zero port = []
join_ports rm now (suc rounds) port =
    (if pos port ==ℤ rm.my_id
      then []
      else send_times 3 (
          datagram (record { s_addr = loopback; sin_port = htons (pos port) })
            (join_message rm now)))
    ++ join_ports rm now rounds (port + 4)

pub data Thread : Type 0 where
  message_thread heartbeat_thread : Thread

pub record Replicating : Type 0 where
  pub rm : Manager
  pub effects : Effects
  pub threads : List Thread

unfoldable pub reset_manager : Manager → ℤ → ℤ → Manager
reset_manager rm my_id primary_id = record rm {
  my_id = my_id;
  primary_id = primary_id;
  is_primary = my_id ==ℤ primary_id;
  replicas = [];
  current_sum = pos 0;
  last_seqn = pos 0;
  election_in_progress = false;
}

-- `none`: socket or bind failed, and the process exits.
unfoldable pub init_replication : Manager → ℤ → ℤ → ℤ → Bool → Bool → Option Replicating
init_replication before my_id primary_id now socket_opened socket_bound =
    if socket_opened
    then if socket_bound
      then some (record {
        rm = rm;
        effects = if rm.is_primary then [] else join_ports rm now 11 2000;
        threads = message_thread ∷ (if rm.is_primary then heartbeat_thread ∷ [] else []);
      })
      else none
    else none
  where
    rm : Manager
    rm = reset_manager before my_id primary_id

-- The variables of the file after the call, the descriptor closed, and whether state_mutex is
-- there still.
pub record StoppedManager : Type 0 where
  pub running : Bool
  pub replication_socket : ℤ
  pub closed : Option ℤ
  pub has_mutex : Bool

unfoldable pub stop_replication_manager : ℤ → StoppedManager
stop_replication_manager socket = record {
  running = false;
  replication_socket = if ltb_ℤ socket (pos 0) then socket else negsuc 0;
  closed = if ltb_ℤ socket (pos 0) then none else some socket;
  has_mutex = false;
}

abbrev pub is_primary : Manager → Bool
is_primary rm = rm.is_primary
