-- ===== src/System/Split.antt =====
-- Two primaries at once.
use threaded_network_adder.Base.{
  ℕ, ◌≡◌, ◌≢◌, refl, sym, ◌∙◌, ap, subst, Bool, true, false, ℤ, any, find_first, ◌==◌, arith,
}
use threaded_network_adder.Replication.Types.{Manager, Clock}
use threaded_network_adder.Replication.Table.{has_id}
use threaded_network_adder.Replication.Election.{is_higher, check_primary_status}
use threaded_network_adder.Replication.Role.{Inv}
use threaded_network_adder.Replication.Failover.{Wins, IsGone, check_primary_status-Wins}
use threaded_network_adder.Node
use threaded_network_adder.Server.Packet.{RequestPacket}
use threaded_network_adder.System.{System, set_at, acts, checks, Runs, go_on}
use threaded_network_adder.System.Members.{Runs-Reach}

set_at_same : (servers : ℕ → Manager) (k : ℕ) (rm : Manager) → set_at servers k rm k ≡ rm
set_at_same servers k rm = let same : (k == k) ≡ true = ground arith in rw same refl

set_at_other :
    (servers : ℕ → Manager) (k : ℕ) (rm : Manager) {j : ℕ}
    → j ≢ k
    → set_at servers k rm j ≡ servers j
set_at_other servers k rm {j} differ = let other : (j == k) ≡ false = ground arith in rw other refl

-- A server that will win at its check.
abbrev pub WillWin : Manager → Clock → Type 0
WillWin rm clock =
    (rm.is_primary ≡ false)
    × IsGone rm (clock 0) (find_first (has_id rm.primary_id) rm.replicas)
    × (any (is_higher rm.my_id) rm.replicas ≡ false)

module _ (ports : ℕ → ℤ) (leads : ℕ → Bool) (Asks : RequestPacket → Type 0) where
  -- A later state of the run, in which both servers are primaries that follow themselves.
  pub record Split (s : System) (k l : ℕ) : Type 0 where
    pub after : System
    pub runs : Runs ports leads Asks after
    pub first : Wins (s.servers k) (after.servers k)
    pub second : Wins (s.servers l) (after.servers l)

  -- Where two servers of a run are both replicas to whom the primary is gone, and neither knows a
  -- higher identifier, the check of each makes it a primary: nothing asks for the agreement of others,
  -- so the run goes on with two primaries, each with the sum that it had.
  pub checks-Split :
      {s : System} (k l : ℕ) (clock clock' : Clock)
      → Runs ports leads Asks s
      → k ≢ l
      → WillWin (s.servers k) clock
      → WillWin (s.servers l) clock'
      → Split s k l
  checks-Split {s} k l clock clock' r differ (role, gone, highest) (role', gone', highest') =
      let winner = (check_primary_status (s.servers k) clock).0 in
      let between = acts s k (check_primary_status (s.servers k) clock) in
      let untouched : between.servers l ≡ s.servers l =
        set_at_other s.servers k winner (λ e. differ (sym e)) in
      record {
        after = acts between l (check_primary_status (between.servers l) clock');
        runs = go_on (go_on r (checks k clock)) (checks l clock');
        first =
            subst (Wins (s.servers k))
              (sym (set_at_other between.servers l _ differ ∙ set_at_same s.servers k winner))
              (check_primary_status-Wins (s.servers k) clock (inv k) role gone highest);
        second =
            subst (Wins (s.servers l))
              (sym (
                set_at_same between.servers l _
                ∙ ap (λ (m : Manager). (check_primary_status m clock').0) untouched))
              (check_primary_status-Wins (s.servers l) clock' (inv l) role' gone' highest');
      }
    where
      inv : (j : ℕ) → Inv (s.servers j)
      inv j = Node.Reach-Inv (Runs-Reach ports leads Asks r j)
