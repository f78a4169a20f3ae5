-- ===== src/Replication/Failover.antt =====
-- The election end to end: a silent primary is replaced, and the others follow the winner.
use threaded_network_adder.Base.{
  ◌≡◌, refl, ◌∙◌, Bool, true, false, ◌&&◌, Option, none, some, List, [], ◌∷◌, ℤ, ==ℤ_iff, arith,
  if_cases, inl, inr, any, any-and, any-update_first, find_first, find_first-any, update_first,
  Bool-cases,
}
use threaded_network_adder.Replication.Types.{ReplicaInfo, Manager, Effects, Clock}
use threaded_network_adder.Replication.Table.{has_id}
use threaded_network_adder.Replication.Election.{
  later, is_recent_primary, is_higher, is_live_primary, start_election, suspect,
  check_primary_status,
}
use threaded_network_adder.Replication.Distinct.{Distinct}
use threaded_network_adder.Replication.Role.{Inv}

-- What a won election leaves.
pub record Wins (rm rm' : Manager) : Type 0 where
  pub leads : rm'.is_primary ≡ true
  pub follows_self : rm'.primary_id ≡ rm.my_id
  pub over : rm'.election_in_progress ≡ false
  pub same_id : rm'.my_id ≡ rm.my_id
  pub keeps_sum : rm'.current_sum ≡ rm.current_sum
  pub keeps_seqn : rm'.last_seqn ≡ rm.last_seqn

start_election-Wins :
    (rm : Manager) (clock : Clock)
    → any (is_recent_primary rm (clock 0)) rm.replicas ≡ false
    → any (is_higher rm.my_id) rm.replicas ≡ false
    → Wins rm (start_election rm clock).0
unfolding start_election
start_election-Wins rm clock silent highest = ground arith

-- No entry passes the test on the primary once its entry is marked dead.
dead_primary :
    (i : ℤ) (test : ReplicaInfo → Bool) (rs : List ReplicaInfo)
    → Distinct rs
    → any
        (λ r. has_id i r && (r.is_alive && test r))
        (update_first (has_id i) (λ r. record r { is_alive = false }) rs)
      ≡ false
unfolding any update_first Distinct
dead_primary i test [] d = refl
dead_primary i test (r ∷ rs) d = elim (Bool-cases (has_id i r)) [
  | inl e ↦
      let same : r.id ≡ i = (==ℤ_iff r.id i).0 e in
      let gone : any (has_id i) rs ≡ false = rw (← same) d.0 in
      ground (arith, any-and (has_id i) (λ x. x.is_alive && test x) rs gone)
  | inr e ↦ ground (arith, dead_primary i test rs d.1)
]

-- The primary is not in the table, or silent for too long in the eyes of a server that has its state.
abbrev pub IsGone : Manager → ℤ → Option ReplicaInfo → Type 0
IsGone rm now none = Unit
IsGone rm now (some r) = (is_live_primary now r ≡ false) × (rm.received_initial_state ≡ true)

suspect-Wins :
    (rm : Manager) (clock : Clock)
    → Inv rm
    → any (is_higher rm.my_id) rm.replicas ≡ false
    → Wins rm (start_election (suspect rm) clock).0
unfolding suspect
suspect-Wins rm clock v highest =
    let w =
      start_election-Wins (suspect rm) clock (unfold suspect in silent) (unfold suspect in still) in
    record {
      leads = w.leads;
      follows_self = w.follows_self;
      over = w.over;
      same_id = w.same_id;
      keeps_sum = w.keeps_sum;
      keeps_seqn = w.keeps_seqn;
    }
  where
    silent : any (is_recent_primary (suspect rm) (clock 0)) (suspect rm).replicas ≡ false
    silent = dead_primary rm.primary_id _ rm.replicas v.table.distinct

    still : any (is_higher rm.my_id) (suspect rm).replicas ≡ false
    still =
        any-update_first (is_higher rm.my_id) (has_id rm.primary_id) _ (λ r _. refl) rm.replicas
        ∙ highest

-- Failover: a server that is not the primary, whose primary is gone and who knows no higher
-- identifier, becomes the primary at its next check, with the sum and the number it had.
pub check_primary_status-Wins :
    (rm : Manager) (clock : Clock)
    → Inv rm
    → rm.is_primary ≡ false
    → IsGone rm (clock 0) (find_first (has_id rm.primary_id) rm.replicas)
    → any (is_higher rm.my_id) rm.replicas ≡ false
    → Wins rm (check_primary_status rm clock).0
unfolding check_primary_status
check_primary_status-Wins rm clock v replica gone highest =
    go (find_first (has_id rm.primary_id) rm.replicas) refl gone
  where
    go :
        (o : Option ReplicaInfo)
        → find_first (has_id rm.primary_id) rm.replicas ≡ o
        → IsGone rm (clock 0) o
        → Wins rm (check_primary_status rm clock).0
    go none e g = rw e (
        if_cases (λ (x : Manager × Effects). Wins rm x.0) rm.is_primary _ _ (λ p. cc)
          (λ _.
            start_election-Wins rm (later clock)
              (any-and (has_id rm.primary_id) _ rm.replicas (find_first-any _ rm.replicas e))
              highest))
    go (some r) e g = rw e (
        if_cases (λ (x : Manager × Effects). Wins rm x.0) rm.is_primary _ _ (λ p. cc)
          (λ _.
            if_cases (λ (x : Manager × Effects). Wins rm x.0) (is_live_primary (clock 0) r) _ _
              (λ live. cc (g.0))
              (λ _.
                if_cases (λ (x : Manager × Effects). Wins rm x.0) rm.received_initial_state _ _
                  (λ _. suspect-Wins rm (later clock) v highest) (λ unready. cc (g.1)))))
