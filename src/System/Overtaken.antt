-- ===== src/System/Overtaken.antt =====
-- Two clients of one primary, each of which counts its requests on its own: what becomes of a value
-- whose sequence number is below that of the last update.
use threaded_network_adder.Base.{
  ℕ, ◌≡◌, refl, sym, ◌∙◌, ap, subst, true, false, some, ℤ, pos, ◌<ℤ◌, get_elem?,
}
use threaded_network_adder.Net.{SockAddr}
use threaded_network_adder.Replication.Types.{ReplicaInfo, Manager, Datagram, Effects, Clock}
use threaded_network_adder.Replication.Table.{has_id}
use threaded_network_adder.Replication.Receiver.{whole, receiver_round}
use threaded_network_adder.Replication.Sends.{Sends}
use threaded_network_adder.Replication.Agreement.{
  update_for, update_state-Sends, receive_state, received, received-older,
}
use threaded_network_adder.Server.Request.{reply}
use threaded_network_adder.Client.Delivery.{served, sum_with, served-Adds}
use threaded_network_adder.System.Survival.{added, served-Sends}

-- A request with `value` at the primary `p`, and what the replica `n` makes of the update.
pub record Overtaken (p n : Manager) (clock clock' : Clock) (seqn value : ℤ) (sender : SockAddr)
    (r : ReplicaInfo) : Type 0 where
  pub told : (served p clock seqn value).answer ≡ some (reply seqn (sum_with p value) (pos 0))
  pub sum : (served p clock seqn value).rm.current_sum ≡ sum_with p value
  pub set_back : (served p clock seqn value).rm.last_seqn ≡ seqn
  pub sent : Datagram
  pub is_sent : Sends sent (served p clock seqn value).effects
  pub to_replica : sent.dest ≡ r.addr
  pub left : Manager
  pub effects : Effects
  pub round : receiver_round n clock' (whole sent.msg sender) ≡ some (left, effects)
  pub old_sum : left.current_sum ≡ p.current_sum
  pub old_seqn : left.last_seqn ≡ p.last_seqn

-- A primary takes a value whose sequence number is below that of its last update: it adds the value,
-- goes back to the lower number, tells the client the new sum with status 0, and sends each live
-- replica in its table a datagram, at the address in its entry. A replica that agreed with it until
-- then, and follows it, receives that datagram and keeps the sum and the number from before.
pub served-Overtaken :
    (p n : Manager) (clock clock' : Clock) (seqn value : ℤ) (sender : SockAddr) (k : ℕ)
    (r : ReplicaInfo)
    → p.is_primary ≡ true
    → get_elem? p.replicas k ≡ some r
    → has_id p.my_id r ≡ false
    → r.is_alive ≡ true
    → n.primary_id ≡ p.my_id
    → n.current_sum ≡ p.current_sum
    → n.last_seqn ≡ p.last_seqn
    → seqn <ℤ p.last_seqn
    → Overtaken p n clock clock' seqn value sender r
served-Overtaken p n clock clock' seqn value sender k r primary at other alive follows sum last
      older =
    let adds = served-Adds p clock seqn value primary in
    let p' : Manager = added p seqn value in
    let (kept_sum, kept_seqn) =
      received-older p' n clock' (clock 0) sender follows
        (subst (λ (i : ℤ). seqn <ℤ i) (sym last) older) in
    record {
      told = adds.answer;
      sum = ap (λ (m : Manager). m.current_sum) adds.state;
      set_back = ap (λ (m : Manager). m.last_seqn) adds.state;
      sent = update_for p (clock 0) (sum_with p value) seqn r;
      is_sent =
          served-Sends p clock seqn value (update_for p (clock 0) (sum_with p value) seqn r) primary
            (update_state-Sends p clock (sum_with p value) seqn k r primary at other alive);
      to_replica = refl;
      left = received p' n clock' (clock 0) sender follows;
      effects = _;
      round = receive_state p' n clock' (clock 0) sender;
      old_sum = kept_sum ∙ sum;
      old_seqn = kept_seqn ∙ last;
    }
