-- ===== src/Replication/Startup.antt =====
-- replication.c: init_replication_manager, which fills in the manager and chooses the threads.
use threaded_network_adder.Base.{
  Bool, true, false, Option, none, some, List, [], ◌∷◌, ℤ, pos, if◌then◌else◌,
}
use threaded_network_adder.Replication.Types.{
  ReplicaInfo, Manager, Effects, Clock, primary_port, zero_replica,
}
use threaded_network_adder.Replication.Table.{send_times, datagram, repl_addr}
use threaded_network_adder.Replication.Membership.{join_message}

pub data Service : Type 0 where
  receiver primary_checker heartbeats : Service

pub record Started : Type 0 where
  pub rm : Manager
  pub effects : Effects
  pub services : List Service

-- The entry with which a table begins: the primary's own, or the primary's at a replica.
unfoldable pub primary_replica : ℤ → ℤ → Bool → ReplicaInfo
unfolding zero_replica
primary_replica port now is_self = record zero_replica {
  id = port;
  is_alive = true;
  last_heartbeat = now;
  addr = repl_addr port;
  state_confirmed = is_self;
}

unfoldable pub first_manager : Clock → ℤ → Bool → Manager
unfolding primary_replica
first_manager clock port is_primary = record {
  my_id = port;
  is_primary = is_primary;
  primary_id = if is_primary then port else pos primary_port;
  current_sum = pos 0;
  last_seqn = pos 0;
  received_initial_state = is_primary;
  election_in_progress = false;
  replicas =
      primary_replica (if is_primary then port else pos primary_port) (clock 0) is_primary ∷ [];
}

-- `none`: socket or bind failed, and the process exits.
unfoldable pub init_replication_manager : Clock → ℤ → Bool → Bool → Bool → Option Started
unfolding first_manager join_message
init_replication_manager clock port is_primary socket_opened socket_bound =
    if socket_opened
    then if socket_bound
      then some (record {
        rm = rm;
        effects =
            if is_primary
            then []
            else send_times 3 (datagram (repl_addr (pos primary_port)) (join_message rm (clock 1)));
        services = receiver ∷ (if is_primary then heartbeats else primary_checker) ∷ [];
      })
      else none
    else none
  where
    rm : Manager
    rm = first_manager clock port is_primary
