-- ===== src/Node.antt =====
-- One server as a whole: the rounds of its threads (the receiver of replication.c, its check on the
-- primary, and the request service of server_prot.c), in any order and with anything arriving.
pub mod Process
pub mod Shutdown
use threaded_network_adder.Base.{
  ◌-◌, ◌≡◌, refl, Bool, true, false, some, List, ℤ, length, length-append, replicate,
  length-replicate, arith, any,
}
use threaded_network_adder.Replication.Types.{
  ReplicaInfo, Manager, Effects, Clock, max_replicas, zero_replica,
}
use threaded_network_adder.Replication.Table.{fill_slots, replica_list}
use threaded_network_adder.Replication.Election.{check_primary_status}
use threaded_network_adder.Replication.Receiver.{Arrival, receiver_round}
use threaded_network_adder.Replication.Startup.{Started, first_manager, init_replication_manager}
use threaded_network_adder.Replication.Distinct.{Distinct, length-fill_slots}
use threaded_network_adder.Replication.Role.{Inv, receiver_round-Inv, check_primary_status-Inv}
use threaded_network_adder.Replication.Faults.{IsSized}
use threaded_network_adder.Server.Packet
use threaded_network_adder.Server.Packet.{RequestPacket}
use threaded_network_adder.Server.Request.{Served, request_round}
use threaded_network_adder.Server.Adder.{Round, request_round-Round}

-- The threads that init_server starts, itself or through init_replication_manager, act one round at
-- a time.
pub data Step (rm : Manager) : Manager → Type 0 where
  receives :
      (clock : Clock) (a : Arrival) {rm' : Manager} {es : Effects}
      → receiver_round rm clock a ≡ some (rm', es)
      → Step rm rm'
  checks : (clock : Clock) → Step rm (check_primary_status rm clock).0
  serves :
      (clock : Clock) (a : Packet.Arrival RequestPacket) → Step rm (request_round rm clock a).rm

-- What a server started on `port` may come to.
pub data Reach (port : ℤ) (is_primary : Bool) : Manager → Type 0 where
  start :
      (clock : Clock) {s : Started}
      → init_replication_manager clock port is_primary true true ≡ some s
      → Reach port is_primary s.rm
  next : {rm rm' : Manager} → Reach port is_primary rm → Step rm rm' → Reach port is_primary rm'

first_manager-Inv :
    (clock : Clock) (port : ℤ) (is_primary : Bool) → Inv (first_manager clock port is_primary)
unfolding first_manager Distinct any
first_manager-Inv clock port true = record {
  own_primary = λ _. refl;
  settled = λ _. refl;
  table = record { distinct = (refl, tt); bounded = omega arith };
}
first_manager-Inv clock port false = record {
  own_primary = λ p. cc;
  settled = λ _. refl;
  table = record { distinct = (refl, tt); bounded = omega arith };
}

Round-Inv :
    {rm : Manager} {a : Packet.Arrival RequestPacket} {s : Served}
    → Round rm a s
    → Inv rm
    → Inv s.rm
Round-Inv (Round.ignored _ e _ _) v = rw e v
Round-Inv (Round.refused _ _ e _) v = rw e v
Round-Inv (Round.added _ _ e _) v =
    rw e (record { own_primary = v.own_primary; settled = v.settled; table = v.table })

Step-Inv : {rm rm' : Manager} → Step rm rm' → Inv rm → Inv rm'
Step-Inv {rm} (receives clock a e) v = receiver_round-Inv rm clock a v e
Step-Inv {rm} (checks clock) v = check_primary_status-Inv rm clock v
Step-Inv {rm} (serves clock a) v = Round-Inv (request_round-Round rm clock a) v

started :
    (clock : Clock) (port : ℤ) (is_primary : Bool) {s : Started}
    → init_replication_manager clock port is_primary true true ≡ some s
    → s.rm ≡ first_manager clock port is_primary
unfolding init_replication_manager
started clock port is_primary e = ground arith

-- However a server was started, and whatever arrived since, in any order: if it is the primary it
-- follows itself and is in no election, no server stands twice in its table, and at most ten do.
pub Reach-Inv : {port : ℤ} {is_primary : Bool} {rm : Manager} → Reach port is_primary rm → Inv rm
Reach-Inv {port} {is_primary} (start clock e) =
    rw (started clock port is_primary e) (first_manager-Inv clock port is_primary)
Reach-Inv (next r st) = Step-Inv st (Reach-Inv r)

-- The list that a server sends fills its array exactly, and its count stays within: the receiver
-- of a list from this program never reads behind the array.
pub replica_list-IsSized :
    {port : ℤ} {is_primary : Bool} {rm : Manager} (now : ℤ)
    → Reach port is_primary rm
    → IsSized (replica_list rm now) × (length (replica_list rm now).replicas ≡ max_replicas)
unfolding replica_list
replica_list-IsSized {rm} now r =
    let room = (Reach-Inv r).table.bounded in
    let slots = length-fill_slots max_replicas rm.replicas in (omega (arith, slots, room), slots)
