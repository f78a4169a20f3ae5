-- ===== src/Replication/Table.antt =====
-- replication.c: the loops over `rm.replicas` that look for one replica, and the datagrams that
-- go out to one replica or to all.
use threaded_network_adder.Base.{
  ℕ, zero, suc, Bool, true, not, ◌&&◌, none, some, List, [], ◌∷◌, ◌++◌, ℤ, pos, ◌+ℤ◌, ◌==ℤ◌, length,
  find_first, if◌then◌else◌, lock, unlock, send, sleep,
}
use threaded_network_adder.Net.{SockAddr, htons, loopback}
use threaded_network_adder.Replication.Types.{
  MessageType, replica_list_update, ReplicaInfo, Message, Manager, Datagram, Effects, max_replicas,
  repl_port_offset, zero_replica, zero_message,
}

abbrev pub has_id : ℤ → ReplicaInfo → Bool
has_id i r = r.id ==ℤ i

-- Seen at `now`.
abbrev pub seen : ℤ → ReplicaInfo → ReplicaInfo
seen now r = record r { is_alive = true; last_heartbeat = now }

abbrev pub confirmed : ReplicaInfo → ReplicaInfo
confirmed r = record r { state_confirmed = true }

-- for (j = 0; j < n; j++) { sendto(...); usleep(10000); }
unfoldable pub send_times : ℕ → Datagram → Effects
send_times zero d = []
send_times (suc n) d = send d ∷ sleep 10000 ∷ send_times n d

-- for (i = ...; i < rm.replica_count; i++) with what the body does in each round
unfoldable pub for_replicas : (ℕ → ReplicaInfo → Effects) → ℕ → List ReplicaInfo → Effects
for_replicas body i [] = []
for_replicas body i (r ∷ rs) = body i r ++ for_replicas body (suc i) rs

abbrev pub datagram : SockAddr → Message → Datagram
datagram a m = record { dest = a; msg = m }

-- The address of a server's replication socket, on this host.
abbrev pub repl_addr : ℤ → SockAddr
repl_addr port = record { s_addr = loopback; sin_port = htons (port +ℤ pos repl_port_offset) }

-- The array of the given number of slots, zeroed, after memcpy of the slots in use: what goes
-- behind the array does not reach the message.
unfoldable pub fill_slots : ℕ → List ReplicaInfo → List ReplicaInfo
fill_slots zero rs = []
fill_slots (suc slots) [] = zero_replica ∷ fill_slots slots []
fill_slots (suc slots) (r ∷ rs) = r ∷ fill_slots slots rs

unfoldable pub replica_list : Manager → ℤ → Message
unfolding zero_message fill_slots
replica_list rm now = record zero_message {
  type = replica_list_update;
  replica_id = rm.my_id;
  primary_id = rm.primary_id;
  timestamp = now;
  replica_count = pos (length rm.replicas);
  replicas = fill_slots max_replicas rm.replicas;
}

unfoldable pub send_replica_list : Manager → ℤ → ℤ → Effects
unfolding replica_list
send_replica_list rm now target =
    lock
    ∷ (elim (find_first (has_id target) rm.replicas) [
      | none ↦ []
      | some r ↦ send_times 3 (datagram r.addr (replica_list rm now))
    ]
        ++ unlock ∷ [])

unfoldable pub heartbeat_message : Manager → ℤ → Message
unfolding zero_message
heartbeat_message rm now = record zero_message {
  type = MessageType.heartbeat;
  replica_id = rm.my_id;
  primary_id = rm.my_id;
  current_sum = rm.current_sum;
  last_seqn = rm.last_seqn;
  timestamp = now;
}

-- One round of heartbeat_service.
unfoldable pub heartbeat_round : Manager → ℤ → Effects
unfolding heartbeat_message
heartbeat_round rm now = lock ∷ (beats ++ unlock ∷ sleep 1000 ∷ [])
  where
    beats : Effects
    beats =
        if rm.is_primary
        then for_replicas
            (λ _ r.
              if not (has_id rm.my_id r) && r.is_alive
              then send (datagram r.addr (heartbeat_message rm now)) ∷ []
              else [])
            0 rm.replicas
        else []
