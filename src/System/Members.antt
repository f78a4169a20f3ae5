-- ===== src/System/Members.antt =====
-- Each server of a system by itself.
use threaded_network_adder.Base.{ℕ, ◌≡◌, refl, Bool, ℤ, if_cases, ◌==◌, subst, arith}
use threaded_network_adder.Replication.Types.{Manager, Effects}
use threaded_network_adder.Replication.Table.{heartbeat_round}
use threaded_network_adder.Replication.Election.{check_primary_status}
use threaded_network_adder.Replication.Receiver.{whole}
use threaded_network_adder.Replication.Startup.{init_replication_manager}
use threaded_network_adder.Node
use threaded_network_adder.Server.Packet.{RequestPacket}
use threaded_network_adder.Server.Request.{request_round}
use threaded_network_adder.System.{
  System, acts, outcome, Acts, joins, receives, checks, beats, serves, Runs, begin, go_on,
}

module _ (ports : ℕ → ℤ) (leads : ℕ → Bool) (Asks : RequestPacket → Type 0) where
  acts-Reach :
      (s : System) (k : ℕ) (x : Manager × Effects)
      → ((j : ℕ) → Node.Reach (ports j) (leads j) (s.servers j))
      → Node.Reach (ports k) (leads k) x.0
      → (j : ℕ) → Node.Reach (ports j) (leads j) ((acts s k x).servers j)
  acts-Reach s k (rm, es) before r j =
      if_cases (Node.Reach (ports j) (leads j)) (j == k) rm (s.servers j)
        (λ e.
          let same : k ≡ j = ground arith in
          subst (λ (i : ℕ). Node.Reach (ports i) (leads i) rm) same r)
        (λ _. before j)

  Acts-Reach :
      {s t : System}
      → Acts ports leads Asks s t
      → ((j : ℕ) → Node.Reach (ports j) (leads j) (s.servers j))
      → (j : ℕ) → Node.Reach (ports j) (leads j) (t.servers j)
  Acts-Reach {s} (joins k clock {started} e) before =
      acts-Reach s k (s.servers k, started.effects) before (before k)
  Acts-Reach {s} (receives k n clock d from {x} _ e) before =
      acts-Reach s k x before (Node.next (before k) (Node.receives clock (whole d.msg from) e))
  Acts-Reach {s} (checks k clock) before =
      acts-Reach s k (check_primary_status (s.servers k) clock) before
        (Node.next (before k) (Node.checks clock))
  Acts-Reach {s} (beats k now) before =
      acts-Reach s k (s.servers k, heartbeat_round (s.servers k) now) before (before k)
  Acts-Reach {s} (serves k clock a _) before =
      acts-Reach s k (outcome (request_round (s.servers k) clock a)) before
        (Node.next (before k) (Node.serves clock a))

  -- Each server of a run comes to a state that it can come to by itself, whatever arrives there.
  pub Runs-Reach :
      {s : System}
      → Runs ports leads Asks s
      → (k : ℕ) → Node.Reach (ports k) (leads k) (s.servers k)
  unfolding init_replication_manager
  Runs-Reach (begin clock) k = Node.start (clock k) refl
  Runs-Reach (go_on r a) k = Acts-Reach a (Runs-Reach r) k
