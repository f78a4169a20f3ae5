-- ===== src/Discovery/Announced.antt =====
-- discovery.c and replication.c: where a server that announces itself stands in the table.
use threaded_network_adder.Base.{
  ℕ, ◌<◌, ◌≡◌, ◌≢◌, refl, ◌∙◌, Bool, true, false, not, ◌&&◌, List, [], ◌∷◌, ◌++◌, ℤ, pos, ◌==ℤ◌,
  ==ℤ_iff, ==ℤ_refl, ltb, length, any, any-append, any-update_first, update_first, if_cases,
  if_intro, arith,
}
use threaded_network_adder.Net.{SockAddr, ntohs-htons}
use threaded_network_adder.Replication.Types.{ReplicaInfo, Manager, Effects, Clock, max_replicas}
use threaded_network_adder.Replication.Table.{seen}
use threaded_network_adder.Replication.Election.{start_election, later}
use threaded_network_adder.Replication.Membership.{
  has_addr, discovered_replica, with_discovered, add_discovered_replica,
}
use threaded_network_adder.Discovery.Service.{
  announcement, packet, handle_type, handle_discovery_packet,
}

-- The table after a discovery, when it had room.
pub data Entered (rm : Manager) (now : ℤ) (ip : ℕ) (port : ℤ) : List ReplicaInfo → Type 0 where
  known :
      any (has_addr ip port) rm.replicas ≡ true
      → Entered rm now ip port (update_first (has_addr ip port) (seen now) rm.replicas)
  added : Entered rm now ip port (rm.replicas ++ discovered_replica rm now ip port ∷ [])

start_election-replicas :
    (rm : Manager) (clock : Clock) → (start_election rm clock).0.replicas ≡ rm.replicas
unfolding start_election
start_election-replicas rm clock =
    let keeps = λ (r : Manager × Effects). r.0.replicas ≡ rm.replicas in
    if_intro keeps (any _ rm.replicas) _ _ refl (if_intro keeps (any _ rm.replicas) _ _ refl refl)

add_discovered_replica-Entered :
    (rm : Manager) (clock : Clock) (ip : ℕ) (port : ℤ)
    → length rm.replicas < max_replicas
    → Entered rm (clock 0) ip port (add_discovered_replica rm clock ip port).0.replicas
unfolding add_discovered_replica
add_discovered_replica-Entered rm clock ip port room =
    let P = λ (r : Manager × Effects). Entered rm (clock 0) ip port r.0.replicas in
    if_cases P (any (has_addr ip port) rm.replicas) _ _ (λ e. known e)
      (λ _.
        if_cases P (ltb (length rm.replicas) max_replicas) _ _
          (λ _.
            if_intro P (not rm.is_primary && not rm.election_in_progress) _ _
              (rw (start_election-replicas (with_discovered rm (clock 0) ip port) (later clock))
                added)
              added)
          (λ full.
            let more : ltb (length rm.replicas) max_replicas ≡ true = ground arith in absurd cc))

any_snoc_false :
    (t : ReplicaInfo → Bool) (rs : List ReplicaInfo) (r : ReplicaInfo)
    → any t rs ≡ false
    → t r ≡ false
    → any t (rs ++ r ∷ []) ≡ false
unfolding any
any_snoc_false t rs r e f = any-append t rs (r ∷ []) ∙ rw (e, f) refl

any_snoc_true :
    (t : ReplicaInfo → Bool) (rs : List ReplicaInfo) (r : ReplicaInfo)
    → t r ≡ true
    → any t (rs ++ r ∷ []) ≡ true
unfolding any
any_snoc_true t rs r f = any-append t rs (r ∷ []) ∙ ground (arith, f)

-- The new entry stands at its own port only.
has_addr-discovered_replica :
    (rm : Manager) (now : ℤ) (ip p q : ℕ)
    → p < 0x1_0000
    → has_addr ip (pos q) (discovered_replica rm now ip (pos p)) ≡ (pos p ==ℤ pos q)
unfolding discovered_replica
has_addr-discovered_replica rm now ip p q small = rw (ntohs-htons p small) (ground arith)

-- The address `ip` and the port `q` are not in the table, the port `p` is.
pub record StandsAt (ip p q : ℕ) (rs : List ReplicaInfo) : Type 0 where
  pub missing : any (has_addr ip (pos q)) rs ≡ false
  pub present : any (has_addr ip (pos p)) rs ≡ true

Entered-StandsAt :
    (rm : Manager) (now : ℤ) (ip p q : ℕ) {rs : List ReplicaInfo}
    → p < 0x1_0000
    → p ≢ q
    → any (has_addr ip (pos q)) rm.replicas ≡ false
    → Entered rm now ip (pos p) rs
    → StandsAt ip p q rs
Entered-StandsAt rm now ip p q small differ new (known e) = record {
  missing =
      any-update_first (has_addr ip (pos q)) (has_addr ip (pos p)) (seen now) (λ a _. refl)
        rm.replicas
      ∙ new;
  present =
      any-update_first (has_addr ip (pos p)) (has_addr ip (pos p)) (seen now) (λ a _. refl)
        rm.replicas
      ∙ e;
}
Entered-StandsAt rm now ip p q small differ new added =
    let r = discovered_replica rm now ip (pos p) in
    let apart : (pos p ==ℤ pos q) ≡ false = ground (arith, ==ℤ_iff (pos p) (pos q)) in
    record {
      missing =
          any_snoc_false (has_addr ip (pos q)) rm.replicas r new
            (has_addr-discovered_replica rm now ip p q small ∙ apart);
      present =
          any_snoc_true (has_addr ip (pos p)) rm.replicas r
            (has_addr-discovered_replica rm now ip p p small ∙ ==ℤ_refl (pos p));
    }

-- A server at `ip` announces its request port `q`. A server whose own request port is another, `p`,
-- enters `ip` with `p`, where it had room and did not know the announced address before: `q` is
-- not found in the table then.
pub announcement-StandsAt :
    (rm : Manager) (clock : Clock) (sender : SockAddr) (p q : ℕ) (value : ℤ)
    → length rm.replicas < max_replicas
    → p < 0x1_0000
    → p ≢ q
    → any (has_addr sender.s_addr (pos q)) rm.replicas ≡ false
    → StandsAt sender.s_addr p q
        (handle_discovery_packet
          (pos p)
          rm
          clock
          (packet (announcement (pos q) value) sender)).rm.replicas
unfolding handle_discovery_packet handle_type announcement
announcement-StandsAt rm clock sender p q value room small differ new =
    Entered-StandsAt rm (clock 0) sender.s_addr p q small differ new
      (add_discovered_replica-Entered rm clock sender.s_addr (pos p) room)
