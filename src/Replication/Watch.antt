-- ===== src/Replication/Watch.antt =====
-- A replica that watches its primary: heartbeats arrive, and the check runs in between.
use threaded_network_adder.Base.{
  ℕ, ◌≡◌, refl, sym, ◌∙◌, ap, subst, false, true, some, [], ◌∷◌, ℤ, pos, ◌≤ℤ◌, ◌-ℤ◌, get_elem?,
  lock, unlock, find_first,
}
use threaded_network_adder.Net.{SockAddr}
use threaded_network_adder.Replication.Types.{
  Message, ReplicaInfo, Manager, Datagram, Effects, Clock, primary_timeout,
}
use threaded_network_adder.Replication.Table.{has_id, datagram, heartbeat_message, heartbeat_round}
use threaded_network_adder.Replication.Election.{check_primary_status}
use threaded_network_adder.Replication.Receiver.{whole, receiver_round}
use threaded_network_adder.Replication.Role.{Inv, receiver_round-Inv, check_primary_status-Inv}
use threaded_network_adder.Replication.Sends.{Sends}
use threaded_network_adder.Replication.Heartbeat.{
  SeenAt, Follows, after_heartbeat, heartbeat_round-Sends, Sends-heartbeat_round,
  heartbeat-received, after_heartbeat-SeenAt, after_heartbeat-Follows, SeenAt-check_primary_status,
}

-- A heartbeat on its way from the primary to a replica, and what it leaves there.
pub record Renews (p n : Manager) (now : ℤ) (clock : Clock) (sender : SockAddr) (r : ReplicaInfo)
    : Type 0 where
  pub sent : Datagram
  pub updated : Manager
  pub effects : Effects
  pub is_sent : Sends sent (heartbeat_round p now)
  pub to_replica : sent.dest ≡ r.addr
  pub round : receiver_round n clock (whole sent.msg sender) ≡ some (updated, effects)
  pub seen_now : SeenAt updated (clock 0)
  pub follows : Follows n updated

-- Each round of the primary's heartbeats sends every live replica in its table a datagram, at the
-- address in its entry, on which a replica that follows this primary and has an entry for it notes
-- the time of arrival as the time that its primary was seen alive, and changes neither its role
-- nor its primary nor its state.
pub heartbeat_round-Renews :
    (p n : Manager) (now : ℤ) (clock : Clock) (sender : SockAddr) (k : ℕ) (r : ReplicaInfo)
    {known : ReplicaInfo}
    → p.is_primary ≡ true
    → get_elem? p.replicas k ≡ some r
    → has_id p.my_id r ≡ false
    → r.is_alive ≡ true
    → n.primary_id ≡ p.my_id
    → find_first (has_id n.primary_id) n.replicas ≡ some known
    → Renews p n now clock sender r
heartbeat_round-Renews p n now clock sender k r primary at other alive follows known = record {
  sent = datagram r.addr (heartbeat_message p now);
  updated = after_heartbeat n p.my_id (clock 0) sender;
  effects = lock ∷ unlock ∷ [];
  is_sent = heartbeat_round-Sends p now k r primary at other alive;
  to_replica = refl;
  round = heartbeat-received p n clock now sender;
  seen_now =
      subst (λ (i : ℤ). SeenAt (after_heartbeat n i (clock 0) sender) (clock 0)) follows
        (after_heartbeat-SeenAt n (clock 0) sender known);
  follows = after_heartbeat-Follows n p.my_id (clock 0) sender;
}

abbrev pub InTime : Clock → ℤ → Type 0
InTime clock at = clock 0 -ℤ at ≤ℤ pos primary_timeout

-- From `n`, with its primary last seen at the given time: any number of heartbeats from any state
-- of the primary, and of checks in time after the latest; nothing else arrives.
pub data Watched (n : Manager) : ℤ → Manager → Type 0 where
  begins : {at : ℤ} → SeenAt n at → Watched n at n
  hears :
      {at : ℤ} {m m' : Manager} {es : Effects} (p : Manager) (now : ℤ) (clock : Clock)
      (sender : SockAddr) (d : Datagram)
      → Watched n at m
      → p.my_id ≡ n.primary_id
      → Sends d (heartbeat_round p now)
      → receiver_round m clock (whole d.msg sender) ≡ some (m', es)
      → Watched n (clock 0) m'
  looks :
      {at : ℤ} {m : Manager} (clock : Clock)
      → Watched n at m
      → InTime clock at
      → Watched n at (check_primary_status m clock).0

-- The replica is as it was but for its table, where the primary was seen at the given time; a
-- check in time does nothing.
pub record Calm (n : Manager) (at : ℤ) (m : Manager) : Type 0 where
  pub follows : Follows n m
  pub seen_then : SeenAt m at
  pub idle :
      (clock : Clock) → InTime clock at → check_primary_status m clock ≡ (m, lock ∷ unlock ∷ [])

calm : {n m : Manager} {at : ℤ} → n.is_primary ≡ false → Follows n m → SeenAt m at → Calm n at m
calm {n} {m} {at} replica f s = record {
  follows = f;
  seen_then = s;
  idle = λ clock recent. SeenAt-check_primary_status m at clock (f.role ∙ replica) s recent;
}

Follows-trans : {n m k : Manager} → Follows n m → Follows m k → Follows n k
Follows-trans f g = record {
  role = g.role ∙ f.role;
  primary = g.primary ∙ f.primary;
  election = g.election ∙ f.election;
  sum = g.sum ∙ f.sum;
  seqn = g.seqn ∙ f.seqn;
  ready = g.ready ∙ f.ready;
}

some_inj {ℓ} : {A : Type ℓ} (a b : A) → some a ≡ some b → a ≡ b
some_inj a b e = cc

heard :
    (m m' : Manager) {es : Effects} (p : Manager) (now : ℤ) (clock : Clock) (sender : SockAddr)
    (d : Datagram)
    → Sends d (heartbeat_round p now)
    → receiver_round m clock (whole d.msg sender) ≡ some (m', es)
    → after_heartbeat m p.my_id (clock 0) sender ≡ m'
heard m m' p now clock sender d sent e =
    let says = Sends-heartbeat_round p now d sent in
    ap (λ (x : Manager × Effects). x.0)
      (some_inj _ _ (
        sym (heartbeat-received p m clock now sender)
        ∙ (ap (λ (msg : Message). receiver_round m clock (whole msg sender)) (sym says) ∙ e)))

-- A replica at which nothing but its primary's heartbeats arrives, and these often enough that each
-- check finds the latest at most five seconds old, starts no election, however long it goes on: it
-- keeps its role, its primary and its state, every such check leaves it as it is and sends nothing,
-- and the time in the primary's entry is that of the latest heartbeat.
pub Watched-Calm : {n m : Manager} {at : ℤ} → n.is_primary ≡ false → Watched n at m → Calm n at m
Watched-Calm replica (begins s) =
    calm replica
      (record {
        role = refl;
        primary = refl;
        election = refl;
        sum = refl;
        seqn = refl;
        ready = refl;
      })
      s
Watched-Calm {n} replica (hears {m = m} {m' = m'} p now clock sender d w from_primary sent e) =
    let c = Watched-Calm replica w in
    let its_primary : p.my_id ≡ m.primary_id = from_primary ∙ sym c.follows.primary in
    subst (Calm n (clock 0)) (heard m m' p now clock sender d sent e) (
      calm replica (Follows-trans c.follows (after_heartbeat-Follows m p.my_id (clock 0) sender)) (
        subst (λ (i : ℤ). SeenAt (after_heartbeat m i (clock 0) sender) (clock 0)) (sym its_primary)
          (after_heartbeat-SeenAt m (clock 0) sender c.seen_then.stands)))
Watched-Calm {n} replica (looks {at} {m} clock w recent) =
    let c = Watched-Calm replica w in
    let same : m ≡ (check_primary_status m clock).0 =
      sym (ap (λ (x : Manager × Effects). x.0) (c.idle clock recent)) in
    subst (Calm n at) same c

pub Watched-Inv : {n m : Manager} {at : ℤ} → Inv n → Watched n at m → Inv m
Watched-Inv v (begins _) = v
Watched-Inv v (hears p now clock sender d w _ _ e) =
    receiver_round-Inv _ clock (whole d.msg sender) (Watched-Inv v w) e
Watched-Inv v (looks {m = m} clock w _) = check_primary_status-Inv m clock (Watched-Inv v w)
