-- ===== src/System/Provenance.antt =====
-- What the datagrams of a system say, and where the states of its servers come from.
use threaded_network_adder.Base.{
  ℕ, ◌≡◌, refl, ◌∙◌, sym, Bool, true, Option, none, some, [], ◌∷◌, ℤ, pos, All, All-append,
  All-get_elem?, get_elem?, if_intro, if_cases, ◌==◌, lock, unlock, send, sleep, sent, subst, arith,
  wrap_int, ◌+ℤ◌,
}
use threaded_network_adder.Net.{SockAddr}
use threaded_network_adder.Replication.Types.{Manager, Datagram, Effects, Clock, primary_port}
use threaded_network_adder.Replication.Table.{datagram, repl_addr}
use threaded_network_adder.Replication.Election.{check_primary_status}
use threaded_network_adder.Replication.State.{get_current_sum, update_state}
use threaded_network_adder.Replication.Membership.{join_message}
use threaded_network_adder.Replication.Receiver.{whole, receiver_round}
use threaded_network_adder.Replication.Startup.{Started, first_manager, init_replication_manager}
use threaded_network_adder.Replication.Origin.{
  Holds, Signed, IsSigned, AllSigned, Signs, send_times-AllSigned, join_message-Signed,
}
use threaded_network_adder.Replication.Rounds.{
  MaySign, receiver_round-MaySign, check_primary_status-Signs, update_state-Signs,
  heartbeat_round-AllSigned,
}
use threaded_network_adder.Replication.Faults.{EndsBalanced, receiver_round-EndsBalanced}
use threaded_network_adder.Replication.Role.{Inv}
use threaded_network_adder.Node.{Reach-Inv}
use threaded_network_adder.System.Members.{Runs-Reach}
use threaded_network_adder.Server.Packet
use threaded_network_adder.Server.Packet.{PacketType, RequestPacket}
use threaded_network_adder.Server.Request.{
  Served, request_round, serve, process_request, add_value, refuse,
}
use threaded_network_adder.System.{
  System, acts, outcome, Asked, Acts, joins, receives, checks, beats, serves, Runs, begin, go_on,
}

module _ (Q : ℤ → ℤ → Type 0) (z : Q (pos 0) (pos 0)) where
  add_value-Signs :
      (rm : Manager) (q : Holds Q rm) (clock : Clock) (seqn value : ℤ)
      → Q (wrap_int (rm.current_sum +ℤ value)) seqn
      → Signs Q rm.my_id (outcome (add_value rm clock seqn value))
  unfolding add_value get_current_sum
  add_value-Signs rm q clock seqn value new =
      let new_sum = wrap_int (rm.current_sum +ℤ value) in
      let (same, (holds, signed)) = update_state-Signs Q z rm clock new_sum seqn new in
      (
        same,
        (
          holds,
          (
            tt,
            (
              tt,
              All-append (IsSigned Q rm.my_id) (update_state rm clock new_sum seqn).1
                  (lock ∷ unlock ∷ []) signed (tt, (tt, tt)),
            ),
          ),
        ),
      )

  serve-Signs :
      (t : PacketType) (rm : Manager) (q : Holds Q rm) (clock : Clock) (seqn value : ℤ)
      → Q (wrap_int (rm.current_sum +ℤ value)) seqn
      → Signs Q rm.my_id (outcome (serve t rm clock seqn value))
  unfolding serve process_request refuse get_current_sum
  serve-Signs PacketType.req rm q clock seqn value new =
      if_intro (λ (r : Served). Signs Q rm.my_id (outcome r)) rm.is_primary _ _
        (add_value-Signs rm q clock seqn value new) (refl, (q, (tt, (tt, tt))))
  serve-Signs PacketType.desc rm q clock seqn value new = (refl, (q, tt))
  serve-Signs PacketType.desc_ack rm q clock seqn value new = (refl, (q, tt))
  serve-Signs PacketType.desc_server rm q clock seqn value new = (refl, (q, tt))
  serve-Signs PacketType.req_ack rm q clock seqn value new = (refl, (q, tt))
  serve-Signs PacketType.other rm q clock seqn value new = (refl, (q, tt))

module _ (ports : ℕ → ℤ) (Q : ℤ → ℤ → Type 0) where
  -- Some server sent the datagram, under its own identifier.
  abbrev pub IsGenuine : Datagram → Type 0
  IsGenuine d = (k : ℕ) × Signed Q (ports k) d.msg

  pub record Sound (s : System) : Type 0 where
    pub identities : (k : ℕ) → (s.servers k).my_id ≡ ports k
    pub holds : (k : ℕ) → Holds Q (s.servers k)
    pub genuine : All IsGenuine s.wire

abbrev StartSigns : (ℤ → ℤ → Type 0) → ℤ → Option Started → Type 0
StartSigns Q i none = Unit
StartSigns Q i (some started) = AllSigned Q i started.effects

module _ (ports : ℕ → ℤ) (leads : ℕ → Bool) (Asks : RequestPacket → Type 0) (Q : ℤ → ℤ → Type 0)
    (z : Q (pos 0) (pos 0))
    (adds : (sum seqn : ℤ) (p : RequestPacket)
      → Q sum seqn
      → Asks p
      → Q (wrap_int (sum +ℤ p.req.value)) p.req.seqn) where
  request_round-Signs :
      (rm : Manager) (q : Holds Q rm) (clock : Clock) (a : Packet.Arrival RequestPacket)
      → Asked Asks a
      → Signs Q rm.my_id (outcome (request_round rm clock a))
  unfolding request_round
  request_round-Signs rm q clock Packet.failed asked = (refl, (q, tt))
  request_round-Signs rm q clock Packet.short asked = (refl, (q, tt))
  request_round-Signs rm q clock (Packet.whole p) asked =
      serve-Signs Q z p.type rm q clock p.req.seqn p.req.value
        (adds rm.current_sum rm.last_seqn p q asked)

  sent-IsGenuine :
      (k : ℕ) (es : Effects) → AllSigned Q (ports k) es → All (IsGenuine ports Q) (sent es)
  unfolding sent
  sent-IsGenuine k [] h = tt
  sent-IsGenuine k (lock ∷ es) h = sent-IsGenuine k es h.1
  sent-IsGenuine k (unlock ∷ es) h = sent-IsGenuine k es h.1
  sent-IsGenuine k (sleep n ∷ es) h = sent-IsGenuine k es h.1
  sent-IsGenuine k (send d ∷ es) h = ((k, h.0), sent-IsGenuine k es h.1)

  acts-Sound :
      (s : System) (k : ℕ) (x : Manager × Effects)
      → Sound ports Q s
      → Signs Q (s.servers k).my_id x
      → Sound ports Q (acts s k x)
  acts-Sound s k (rm, es) v h = record {
    identities = λ j.
        if_cases (λ (m : Manager). m.my_id ≡ ports j) (j == k) rm (s.servers j)
          (λ e.
            let same : k ≡ j = ground arith in
            subst (λ (i : ℕ). rm.my_id ≡ ports i) same (h.0 ∙ v.identities k))
          (λ _. v.identities j);
    holds = λ j. if_intro (Holds Q) (j == k) rm (s.servers j) h.1.0 (v.holds j);
    genuine =
        All-append (IsGenuine ports Q) s.wire (sent es) v.genuine
          (sent-IsGenuine k es (subst (λ (i : ℤ). AllSigned Q i es) (v.identities k) h.1.1));
  }

  joins-AllSigned :
      (k : ℕ) (clock : Clock) {started : Started}
      → init_replication_manager clock (ports k) (leads k) true true ≡ some started
      → AllSigned Q (ports k) started.effects
  unfolding init_replication_manager first_manager
  joins-AllSigned k clock e =
      let rm = first_manager clock (ports k) (leads k) in
      subst (StartSigns Q (ports k)) e (
        if_intro (AllSigned Q (ports k)) (leads k) _ _ tt (
          send_times-AllSigned Q z (ports k) 3
            (datagram (repl_addr (pos primary_port)) (join_message rm (clock 1)))
            (join_message-Signed Q z rm z (clock 1))))

  Acts-Sound :
      {s t : System}
      → Acts ports leads Asks s t
      → ((k : ℕ) → Inv (s.servers k))
      → Sound ports Q s
      → Sound ports Q t
  Acts-Sound {s} (joins k clock {started} e) inv v =
      acts-Sound s k (s.servers k, started.effects) v
        (
          refl,
          (
            v.holds k,
            subst (λ (i : ℤ). AllSigned Q i started.effects) (sym (v.identities k))
                (joins-AllSigned k clock e),
          ),
        )
  Acts-Sound {s} (receives k n clock d from {x} there e) inv v =
      let (j, signed) = All-get_elem? (IsGenuine ports Q) s.wire n v.genuine there in
      acts-Sound s k x v (
        subst (MaySign Q (s.servers k).my_id) e (
          receiver_round-MaySign Q z (s.servers k) (inv k) (v.holds k) clock (whole d.msg from)
            signed.1.1))
  Acts-Sound {s} (checks k clock) inv v =
      acts-Sound s k (check_primary_status (s.servers k) clock) v
        (check_primary_status-Signs Q z (s.servers k) (v.holds k) clock)
  Acts-Sound {s} (beats k now) inv v =
      acts-Sound s k _ v
        (refl, (v.holds k, heartbeat_round-AllSigned Q z (s.servers k) (v.holds k) now))
  Acts-Sound {s} (serves k clock a asked) inv v =
      acts-Sound s k (outcome (request_round (s.servers k) clock a)) v
        (request_round-Signs (s.servers k) (v.holds k) clock a asked)

  -- In every run the servers keep the identifiers that they began with, and every datagram ever
  -- sent carries the identifier of a server and a count that its array holds. A property of a sum
  -- with its sequence number that holds of 0 and 0, and that adding the value of any request
  -- preserves, holds of the state of every server and of that in every datagram.
  pub Runs-Sound : {s : System} → Runs ports leads Asks s → Sound ports Q s
  unfolding first_manager
  Runs-Sound (begin clock) = record { identities = λ k. refl; holds = λ k. z; genuine = tt }
  Runs-Sound (go_on r a) =
      Acts-Sound a (λ k. Reach-Inv (Runs-Reach ports leads Asks r k)) (Runs-Sound r)

module _ (ports : ℕ → ℤ) (leads : ℕ → Bool) (Asks : RequestPacket → Type 0) where
  -- In every run each datagram ever sent can be received by each server, from any address: the
  -- round ends, without a read behind an array, and leaves the mutex of the server free.
  pub wire-EndsBalanced :
      {s : System}
      → Runs ports leads Asks s
      → (k n : ℕ) (clock : Clock) (d : Datagram) (from : SockAddr) → get_elem? s.wire n ≡ some d
      → EndsBalanced (receiver_round (s.servers k) clock (whole d.msg from))
  wire-EndsBalanced {s} r k n clock d from e =
      let (j, signed) =
        All-get_elem? (IsGenuine ports (λ _ _. Unit)) s.wire n
          (Runs-Sound ports leads Asks (λ _ _. Unit) tt (λ _ _ _ _ _. tt) r).genuine e in
      receiver_round-EndsBalanced (s.servers k) clock d.msg from signed.1.0
