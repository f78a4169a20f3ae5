-- ===== src/Replication/Entries.antt =====
-- What stands in a new entry of the table: its address, and its identifier.
use threaded_network_adder.Base.{
  ℕ, ◌+◌, ◌<◌, ◌≡◌, ◌≢◌, refl, subst, not, ◌&&◌, Bool, true, false, some, List, [], ◌∷◌, ◌++◌, ℤ,
  pos, ◌+ℤ◌, ==ℤ_iff, ==ℤ_refl, residue, length, arith, ltb, any, any-append, find_first, if_cases,
  Bool-cases, inl, inr,
}
use threaded_network_adder.Net.{htons}
use threaded_network_adder.Replication.Types.{ReplicaInfo, Manager, Effects, Clock, max_replicas}
use threaded_network_adder.Replication.Table.{has_id, repl_addr}
use threaded_network_adder.Replication.Election.{start_election, later}
use threaded_network_adder.Replication.Membership.{
  joined_replica, with_discovered, add_replica, has_addr, discovered_replica,
  add_discovered_replica,
}
use threaded_network_adder.Replication.Distinct.{Distinct}

find_first-snoc :
    (p : ReplicaInfo → Bool) (rs : List ReplicaInfo) (r : ReplicaInfo)
    → any p rs ≡ false
    → p r ≡ true
    → find_first p (rs ++ r ∷ []) ≡ some r
unfolding any find_first
find_first-snoc p [] r h e = rw e
find_first-snoc p (x ∷ rs) r h e = ground (arith, find_first-snoc p rs r)

htons-ne : (i : ℕ) → i + 2 < 0x1_0000 → htons (pos i) ≢ htons (pos i +ℤ pos 2)
unfolding htons residue ◌+ℤ◌
htons-ne i small e = ground arith

-- A server that joins is found in the table at once, alive, with the port of its own identifier.
-- That is not the port of its replication socket, which is two above.
pub add_replica-addr :
    (rm : Manager) (clock : Clock) (i : ℕ)
    → any (has_id (pos i)) rm.replicas ≡ false
    → length rm.replicas < max_replicas
    → i + 2 < 0x1_0000
    → (r : ReplicaInfo) × (find_first (has_id (pos i)) (add_replica rm clock (pos i)).0.replicas
        ≡ some r)
      × (r.is_alive ≡ true)
      × (r.addr.sin_port ≡ htons (pos i))
      × (r.addr.sin_port ≢ (repl_addr (pos i)).sin_port)
unfolding add_replica joined_replica
add_replica-addr rm clock i new room small =
    let full : ltb (length rm.replicas) max_replicas ≡ true = ground arith in
    rw (new, full)
      (
        joined_replica (clock 0) (pos i),
        find_first-snoc _ rm.replicas _ new (==ℤ_refl (pos i)),
        refl,
        refl,
        htons-ne i small,
      )

not-Distinct-snoc :
    (rs : List ReplicaInfo) (r : ReplicaInfo)
    → any (has_id r.id) rs ≡ true
    → ¬ Distinct (rs ++ r ∷ [])
unfolding any Distinct
not-Distinct-snoc [] r h d = cc
not-Distinct-snoc (x ∷ xs) r h d = elim (Bool-cases (has_id r.id x)) [
  | inl same ↦ absurd (
      ground
        (arith, d.0, any-append (has_id x.id) xs (r ∷ []), ==ℤ_iff x.id r.id, ==ℤ_iff r.id x.id))
  | inr other ↦ not-Distinct-snoc xs r (ground arith) d.1
]

start_election-replicas :
    (rm : Manager) (clock : Clock) → (start_election rm clock).0.replicas ≡ rm.replicas
unfolding start_election
start_election-replicas rm clock = ground arith

-- The table got an entry with an identifier that stands in it before.
pub record Collides (rs : List ReplicaInfo) (i : ℤ) (grown : List ReplicaInfo) : Type 0 where
  pub entry : ReplicaInfo
  pub entered : grown ≡ rs ++ entry ∷ []
  pub named : entry.id ≡ i
  pub taken : any (has_id i) rs ≡ true
  pub not_distinct : ¬ Distinct grown

-- A server discovered by broadcast, at a new address and with room in the table, is entered behind
-- the others with the number of entries plus 2000 as its identifier, which nobody compares with
-- the others: where that identifier is in the table already, it then stands there twice.
pub add_discovered_replica-Collides :
    (rm : Manager) (clock : Clock) (ip : ℕ) (port : ℤ)
    → any (has_addr ip port) rm.replicas ≡ false
    → length rm.replicas < max_replicas
    → any (has_id (pos (length rm.replicas + 2000))) rm.replicas ≡ true
    → Collides rm.replicas
        (pos (length rm.replicas + 2000))
        (add_discovered_replica rm clock ip port).0.replicas
unfolding add_discovered_replica discovered_replica
add_discovered_replica-Collides rm clock ip port new room taken = record {
  entry = discovered_replica rm (clock 0) ip port;
  entered = grown;
  named = refl;
  taken = taken;
  not_distinct = λ d.
      not-Distinct-snoc rm.replicas (discovered_replica rm (clock 0) ip port) taken
        (subst Distinct grown d);
}
  where
    grown :
        (add_discovered_replica rm clock ip port).0.replicas
        ≡ (with_discovered rm (clock 0) ip port).replicas
    grown =
        let vacant : ltb (length rm.replicas) max_replicas ≡ true = ground arith in
        rw (new, vacant)
          (if_cases
            (λ (x : Manager × Effects).
              x.0.replicas ≡ (with_discovered rm (clock 0) ip port).replicas)
            (not rm.is_primary && not rm.election_in_progress) _ _
            (λ _. start_election-replicas (with_discovered rm (clock 0) ip port) (later clock))
            (λ _. refl))
