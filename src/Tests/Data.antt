-- ===== src/Tests/Data.antt =====
-- Three servers of a small cluster: 2000, 2004 and 2008.
use threaded_network_adder.Base.{Bool, true, false, List, [], ◌∷◌, pos, ℕ}
use threaded_network_adder.Net.{SockAddr, loopback}
use threaded_network_adder.Replication.Types.{
  ReplicaInfo, Message, Manager, Clock, MessageType, zero_message,
}

-- It is always second 100.
abbrev pub noon : Clock
noon n = pos 100

-- An entry, last seen at the given second.
abbrev pub entry : ℕ → ℕ → ReplicaInfo
entry i at = record {
  id = pos i;
  is_alive = true;
  last_heartbeat = pos at;
  addr = record { s_addr = loopback; sin_port = i };
  state_confirmed = true;
}

abbrev pub server : ℕ → Bool → ℕ → ℕ → ℕ → List ReplicaInfo → Manager
server i leads leader sum seqn table = record {
  my_id = pos i;
  is_primary = leads;
  primary_id = pos leader;
  current_sum = pos sum;
  last_seqn = pos seqn;
  received_initial_state = true;
  election_in_progress = false;
  replicas = table;
}

abbrev pub sender : SockAddr
sender = record { s_addr = loopback; sin_port = 7 }

abbrev pub primary : Manager
primary = server 2000 true 2000 10 1 (entry 2000 100 ∷ entry 2004 100 ∷ [])

abbrev pub replica : Manager
replica = server 2004 false 2000 10 1 (entry 2000 100 ∷ [])

-- The primary has been silent for ten seconds; 2008 knows 2004 as well.
abbrev pub orphan : Manager
orphan = server 2008 false 2000 10 1 (entry 2000 90 ∷ entry 2004 100 ∷ [])

-- The same, of the server in the middle.
abbrev pub middle : Manager
middle = server 2004 false 2000 10 1 (entry 2000 90 ∷ entry 2008 100 ∷ [])

abbrev pub blank : MessageType → Message
unfolding zero_message
blank t = record zero_message { type = t; replica_id = pos 2004 }
