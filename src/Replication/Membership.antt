-- ===== src/Replication/Membership.antt =====
-- replication.c: how a server enters the table of replicas.
use threaded_network_adder.Base.{
  ℕ, zero, suc, ◌+◌, Bool, true, false, not, ◌&&◌, Option, none, some, List, [], ◌∷◌, ◌++◌, ℤ, pos,
  ◌==ℤ◌, ltb, ◌==◌, length, any, update_first, if◌then◌else◌, lock, unlock,
}
use threaded_network_adder.Net.{htons, ntohs, loopback}
use threaded_network_adder.Replication.Types.{
  MessageType, ReplicaInfo, Message, Manager, Effects, Clock, max_replicas, zero_message,
}
use threaded_network_adder.Replication.Table.{
  has_id, seen, send_times, for_replicas, datagram, repl_addr, send_replica_list,
}
use threaded_network_adder.Replication.Election.{start_election, after, later}

-- The port in the entry is the identifier itself.
unfoldable pub joined_replica : ℤ → ℤ → ReplicaInfo
joined_replica now replica_id = record {
  id = replica_id;
  is_alive = true;
  last_heartbeat = now;
  addr = record { s_addr = loopback; sin_port = htons replica_id };
  state_confirmed = false;
}

-- The new list goes to every replica but this one.
unfoldable pub announce : Manager → Clock → Effects
unfolding send_replica_list
announce rm clock =
    for_replicas (λ i r. if has_id rm.my_id r then [] else send_replica_list rm (clock i) r.id) 0
      rm.replicas

unfoldable pub join_message : Manager → ℤ → Message
unfolding zero_message
join_message rm now = record zero_message {
  type = MessageType.join_request;
  replica_id = rm.my_id;
  timestamp = now;
}

abbrev pub with_joined : Manager → ℤ → ℤ → Manager
with_joined rm now i = record rm { replicas = rm.replicas ++ joined_replica now i ∷ [] }

unfoldable pub add_replica : Manager → Clock → ℤ → Manager × Effects
unfolding joined_replica announce join_message
add_replica rm clock replica_id =
    if any (has_id replica_id) rm.replicas
    then (record rm { replicas = update_first (has_id replica_id) rejoin rm.replicas }, [])
    else if ltb (length rm.replicas) max_replicas
    then (
      with_joined rm (clock 0) replica_id,
      (if rm.is_primary
          then announce (with_joined rm (clock 0) replica_id) (later clock)
          else send_times 3 (datagram (repl_addr rm.primary_id) (join_message rm (clock 1)))),
    )
    else (rm, [])
  where
    rejoin : ReplicaInfo → ReplicaInfo
    rejoin r = record (seen (clock 0) r) { state_confirmed = false }

abbrev pub has_addr : ℕ → ℤ → ReplicaInfo → Bool
has_addr ip port r = r.addr.s_addr == ip && ntohs r.addr.sin_port ==ℤ port

-- The identifier of the new entry is counted from 2000.
unfoldable pub discovered_replica : Manager → ℤ → ℕ → ℤ → ReplicaInfo
discovered_replica rm now ip port = record {
  id = pos (length rm.replicas + 2000);
  is_alive = true;
  last_heartbeat = now;
  addr = record { s_addr = ip; sin_port = htons port };
  state_confirmed = false;
}

abbrev pub with_discovered : Manager → ℤ → ℕ → ℤ → Manager
with_discovered rm now ip port = record rm {
  replicas = rm.replicas ++ discovered_replica rm now ip port ∷ [];
}

-- `ip` is what inet_addr reads in the text of the address.
unfoldable pub add_discovered_replica : Manager → Clock → ℕ → ℤ → Manager × Effects
unfolding discovered_replica
add_discovered_replica rm clock ip port =
    if any (has_addr ip port) rm.replicas
    then (
      record rm { replicas = update_first (has_addr ip port) (seen (clock 0)) rm.replicas },
      lock ∷ unlock ∷ [],
    )
    else if ltb (length rm.replicas) max_replicas
    then if not rm.is_primary && not rm.election_in_progress
      then after (lock ∷ unlock ∷ [])
          (start_election (with_discovered rm (clock 0) ip port) (later clock))
      else (with_discovered rm (clock 0) ip port, lock ∷ unlock ∷ [])
    else (rm, lock ∷ unlock ∷ [])

-- One round of the loop over a received list.
unfoldable pub merge_replica : List ReplicaInfo → ReplicaInfo → List ReplicaInfo
merge_replica rs r =
    if any (has_id r.id) rs
    then update_first (has_id r.id) (λ _. r) rs
    else if ltb (length rs) max_replicas
    then rs ++ r ∷ []
    else rs

-- `rounds` slots of a received array. `none`: the loop reads behind the end of the array.
unfoldable pub merge_replicas : ℕ → List ReplicaInfo → List ReplicaInfo → Option (List ReplicaInfo)
unfolding merge_replica
merge_replicas zero source rs = some rs
merge_replicas (suc n) [] rs = none
merge_replicas (suc n) (r ∷ source) rs = merge_replicas n source (merge_replica rs r)
