-- ===== src/System/Survival.antt =====
-- An outage from end to end: a value that the primary acknowledged is in the sum of its successor,
-- and in those that the successor's clients are shown.
use threaded_network_adder.Base.{
  ℕ, ◌≡◌, refl, sym, ◌∙◌, ap, subst, true, false, some, List, ℤ, pos, ◌+ℤ◌, ◌-ℤ◌, ◌≤ℤ◌, ◌<ℤ◌,
  if_cases, wrap_int, IsInt, wrap_int-IsInt, All, any, arith, get_elem?, find_first,
}
use threaded_network_adder.Net.{SockAddr}
use threaded_network_adder.Replication.Types.{
  ReplicaInfo, Manager, Datagram, Effects, Clock, primary_timeout,
}
use threaded_network_adder.Replication.Table.{has_id}
use threaded_network_adder.Replication.Election.{is_higher, is_live_primary, check_primary_status}
use threaded_network_adder.Replication.State.{
  get_current_sum, state_message, update_state, handle_state_update,
}
use threaded_network_adder.Replication.Receiver.{whole, learn_addr, receiver_round}
use threaded_network_adder.Replication.Sends.{Sends, Sends-append_left}
use threaded_network_adder.Replication.Agreement.{
  update_for, update_state-Sends, receive_state, received-newer, received-role,
}
use threaded_network_adder.Replication.Heartbeat.{SeenAt}
use threaded_network_adder.Replication.Watch.{Watched, Watched-Calm, Watched-Inv}
use threaded_network_adder.Replication.Role.{Inv, receiver_round-Inv}
use threaded_network_adder.Replication.Failover.{Wins, IsGone, check_primary_status-Wins}
use threaded_network_adder.Server.Request.{
  Served, reply, add_value, serve, process_request, request_round,
}
use threaded_network_adder.Client.Session.{Network, Client, Sending, send_file}
use threaded_network_adder.Client.Delivery.{served, sum_with, served-Adds}
use threaded_network_adder.Client.Sums.{
  Brought, running_sums, requests, sum_of, serve_file, send_file-Counted,
}

-- The manager of the primary once it has added the value.
abbrev pub added : Manager → ℤ → ℤ → Manager
added p seqn value = record p { current_sum = sum_with p value; last_seqn = seqn }

-- The replica once it has received the state of the primary `p`.
abbrev pub updated_by : Manager → Manager → Clock → ℤ → SockAddr → Manager
updated_by p n clock now sender =
    (handle_state_update (learn_addr n p.my_id sender) clock (state_message p now) sender).0

pub served-Sends :
    (p : Manager) (clock : Clock) (seqn value : ℤ) (d : Datagram)
    → p.is_primary ≡ true
    → Sends d (update_state p clock (sum_with p value) seqn).1
    → Sends d (served p clock seqn value).effects
unfolding request_round serve process_request add_value get_current_sum
served-Sends p clock seqn value d primary sends =
    if_cases (λ (x : Served). Sends d x.effects) p.is_primary _ _
      (λ _.
        unfold Sends in
        Sends-append_left d (update_state p clock (sum_with p value) seqn).1 _ sends)
      (λ replica. cc)

-- Seen last more than five seconds ago.
SeenAt-IsGone :
    (m : Manager) (at now : ℤ)
    → SeenAt m at
    → m.received_initial_state ≡ true
    → pos primary_timeout <ℤ now -ℤ at
    → IsGone m now (find_first (has_id m.primary_id) m.replicas)
SeenAt-IsGone m at now s ready silent = subst (IsGone m now) (sym s.stands) (silent_entry, ready)
  where
    silent_entry : is_live_primary now s.entry ≡ false
    silent_entry = rw (s.alive, s.time) (ground arith)

-- The check that finds the primary silent makes the replica its successor.
successor :
    (p n : Manager) (clock : Clock) (now : ℤ) (sender : SockAddr) {m : Manager} {at : ℤ}
    (check : Clock)
    → Inv n
    → n.is_primary ≡ false
    → n.primary_id ≡ p.my_id
    → n.last_seqn ≤ℤ p.last_seqn
    → Watched (updated_by p n clock now sender) at m
    → pos primary_timeout <ℤ check 0 -ℤ at
    → any (is_higher m.my_id) m.replicas ≡ false
    → Wins m (check_primary_status m check).0
      × ((check_primary_status m check).0.current_sum ≡ p.current_sum)
successor p n clock now sender {m} {at} check v replica follows newer watched silent highest =
    let (role, _) = received-role p n clock now sender follows in
    let (sum, _, ready) = received-newer p n clock now sender follows newer in
    let calm = Watched-Calm (role ∙ replica) watched in
    let inv = receiver_round-Inv n clock _ v (receive_state p n clock now sender) in
    let wins =
      check_primary_status-Wins m check (Watched-Inv inv watched)
        (calm.follows.role ∙ (role ∙ replica))
        (SeenAt-IsGone m at (check 0) calm.seen_then (calm.follows.ready ∙ ready) silent) highest in
    (wins, wins.keeps_sum ∙ (calm.follows.sum ∙ sum))

-- What comes of a request with `value` at the primary `p`, where `m` is what its replica has become
-- by the check that finds the primary silent, and a client then sends the winner a file.
pub record Survives (p n m : Manager) (clock clock' check : Clock) (seqn value : ℤ)
    (sender : SockAddr) (r : ReplicaInfo) (c : Client) (values : List ℤ) (final : ℤ) (s : Sending)
    : Type 0 where
  pub told : (served p clock seqn value).answer ≡ some (reply seqn (sum_with p value) (pos 0))
  pub sent : Datagram
  pub is_sent : Sends sent (served p clock seqn value).effects
  pub to_replica : sent.dest ≡ r.addr
  pub effects : Effects
  pub received :
      receiver_round n clock' (whole sent.msg sender)
      ≡ some (updated_by (added p seqn value) n clock' (clock 0) sender, effects)
  pub wins : Wins m (check_primary_status m check).0
  pub kept : (check_primary_status m check).0.current_sum ≡ sum_with p value
  pub shown : s.shown ≡ running_sums (sum_with p value) values
  pub asked : s.sent ≡ requests c.seqn values
  pub total : final ≡ wrap_int (sum_with p value +ℤ sum_of values)

-- A primary that adds a value tells the client the new sum, and sends each live replica in its
-- table, at the address in its entry, a datagram with it. Let a replica that is within its
-- invariant, follows this primary and has no newer state receive that datagram, watch its primary
-- for as long as its heartbeats, and nothing else, come in time, and then find it silent for more
-- than five seconds, with no higher identifier in its table. Then this check makes it the
-- primary, with the sum that the client was told; and where its answers to a client that sends it
-- a file all arrive and no sum on the way is negative, that client is shown the sums that
-- continue from there, and the total includes the value.
pub served-Survives :
    (p n : Manager) (clock clock' : Clock) (seqn value : ℤ) (sender : SockAddr) (k : ℕ)
    (r : ReplicaInfo) {m : Manager} {at : ℤ} (check : Clock) (nets : ℕ → Network)
    (clocks : ℕ → Clock) (from : SockAddr) (c : Client) (values : List ℤ)
    → p.is_primary ≡ true
    → get_elem? p.replicas k ≡ some r
    → has_id p.my_id r ≡ false
    → r.is_alive ≡ true
    → Inv n
    → n.is_primary ≡ false
    → n.primary_id ≡ p.my_id
    → n.last_seqn ≤ℤ seqn
    → Watched (updated_by (added p seqn value) n clock' (clock 0) sender) at m
    → pos primary_timeout <ℤ check 0 -ℤ at
    → any (is_higher m.my_id) m.replicas ≡ false
    → Brought nets clocks from (check_primary_status m check).0 0 c.seqn values
    → All (λ (sum : ℤ). pos 0 ≤ℤ sum) (running_sums (sum_with p value) values)
    → Survives p n m clock clock' check seqn value sender r c values
        (serve_file (check_primary_status m check).0 clocks 0 c.seqn values).current_sum
        (send_file nets 0 c values)
served-Survives p n clock clock' seqn value sender k r {m} {at} check nets clocks from c values
      primary there other alive v replica follows newer watched silent highest answers positive =
    let (wins, kept) =
      successor (added p seqn value) n clock' (clock 0) sender check v replica follows newer watched
        silent highest in
    let counted =
      send_file-Counted nets clocks from (check_primary_status m check).0 c values wins.leads
        (subst IsInt (sym kept) (wrap_int-IsInt _)) answers
        (subst (λ (sum : ℤ). All (λ (x : ℤ). pos 0 ≤ℤ x) (running_sums sum values)) (sym kept)
          positive) in
    record {
      told = (served-Adds p clock seqn value primary).answer;
      sent = update_for p (clock 0) (sum_with p value) seqn r;
      is_sent =
          served-Sends p clock seqn value _ primary
            (update_state-Sends p clock (sum_with p value) seqn k r primary there other alive);
      to_replica = refl;
      effects = _;
      received = receive_state (added p seqn value) n clock' (clock 0) sender;
      wins = wins;
      kept = kept;
      shown =
          subst (λ (sum : ℤ). (send_file nets 0 c values).shown ≡ running_sums sum values) kept
            counted.shown;
      asked = counted.sent;
      total = counted.total ∙ ap (λ (sum : ℤ). wrap_int (sum +ℤ sum_of values)) kept;
    }
