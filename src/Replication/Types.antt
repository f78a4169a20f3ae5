-- ===== src/Replication/Types.antt =====
-- replication.h: the messages between servers, the table of replicas and the manager `rm`.
use threaded_network_adder.Base.{ℕ, Bool, false, List, ℤ, pos, replicate, Effect}
use threaded_network_adder.Net.{SockAddr, zero_addr}

-- `unknown` is any value that is no enumerator; 0, which memset leaves, is one.
pub data MessageType : Type 0 where
  heartbeat join_request state_update state_ack replica_list_update : MessageType
  start_election election_response victory victory_ack unknown : MessageType

-- The flags are read by their truth value only.
pub record ReplicaInfo : Type 0 where
  pub id : ℤ
  pub is_alive : Bool
  pub last_heartbeat : ℤ  -- time_t, in seconds
  pub addr : SockAddr
  pub state_confirmed : Bool

pub record Message : Type 0 where
  pub type : MessageType
  pub replica_id : ℤ
  pub primary_id : ℤ
  pub current_sum : ℤ
  pub last_seqn : ℤ
  pub timestamp : ℤ
  pub replica_count : ℤ
  pub replicas : List ReplicaInfo  -- the array, all of its slots

-- The slots of `replicas` in use: `replica_count` is their number, and no other slot is ever read.
pub record Manager : Type 0 where
  pub my_id : ℤ
  pub is_primary : Bool
  pub primary_id : ℤ
  pub current_sum : ℤ
  pub last_seqn : ℤ
  pub received_initial_state : Bool
  pub election_in_progress : Bool
  pub replicas : List ReplicaInfo

abbrev pub max_replicas : ℕ
max_replicas = 10

abbrev pub primary_timeout : ℕ
primary_timeout = 5

abbrev pub replica_timeout : ℕ
replica_timeout = 3

abbrev pub repl_port_offset : ℕ
repl_port_offset = 2

abbrev pub primary_port : ℕ
primary_port = 2000

abbrev pub election_timeout_ms : ℕ
election_timeout_ms = 5000

-- What memset(&x, 0, sizeof(x)) leaves.
unfoldable pub zero_replica : ReplicaInfo
zero_replica = record {
  id = pos 0;
  is_alive = false;
  last_heartbeat = pos 0;
  addr = zero_addr;
  state_confirmed = false;
}

unfoldable pub zero_message : Message
zero_message = record {
  type = unknown;
  replica_id = pos 0;
  primary_id = pos 0;
  current_sum = pos 0;
  last_seqn = pos 0;
  timestamp = pos 0;
  replica_count = pos 0;
  replicas = replicate max_replicas zero_replica;
}

-- A datagram on its way: where it goes, and what it says.
pub record Datagram : Type 0 where
  pub dest : SockAddr
  pub msg : Message

abbrev pub Effects : Type 0
Effects = List (Effect Datagram)

-- The readings of time(NULL) in one call, in the order in which they are taken.
abbrev pub Clock : Type 0
Clock = ℕ → ℤ
