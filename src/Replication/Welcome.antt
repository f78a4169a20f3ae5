-- ===== src/Replication/Welcome.antt =====
-- A server that starts, up to the first state that its primary sends it.
use threaded_network_adder.Base.{
  get_elem?-snoc, ◌<◌, ◌≡◌, refl, sym, ◌∙◌, ap, subst, true, false, some, List, [], ◌∷◌, ◌++◌, ℤ,
  pos, ◌==ℤ◌, ==ℤ_refl, ◌≤ℤ◌, arith, length, any, any-append, update_first-none, update_first-snoc,
  ltb, if_cases,
}
use threaded_network_adder.Net.{SockAddr}
use threaded_network_adder.Replication.Types.{
  ReplicaInfo, Manager, Datagram, Effects, Clock, max_replicas, primary_port,
}
use threaded_network_adder.Replication.Table.{has_id, seen, datagram, repl_addr}
use threaded_network_adder.Replication.Membership.{joined_replica, join_message, add_replica}
use threaded_network_adder.Replication.Receiver.{
  whole, handle_join, dispatch, process_replication_message, learn_addr, receiver_round,
}
use threaded_network_adder.Replication.Startup.{Started, first_manager, init_replication_manager}
use threaded_network_adder.Replication.Sends.{Sends, Sends-send_times}
use threaded_network_adder.Replication.Agreement.{Agrees, update_state-Agrees}

-- The primary after a join request.
abbrev pub after_join : Manager → Clock → ℤ → SockAddr → Manager
after_join p clock i sender = (handle_join (learn_addr p i sender) clock i).0

abbrev pub with_table : Manager → List ReplicaInfo → Manager
with_table p rs = record p { replicas = rs }

pub join-received :
    (p n : Manager) (clock : Clock) (now : ℤ) (sender : SockAddr)
    → p.is_primary ≡ true
    → receiver_round p clock (whole (join_message n now) sender)
      ≡ some (handle_join (learn_addr p n.my_id sender) clock n.my_id)
unfolding receiver_round process_replication_message dispatch join_message learn_addr
join-received p n clock now sender primary =
    if_cases
      (λ (x : Manager × Effects).
        some x ≡ some (handle_join (learn_addr p n.my_id sender) clock n.my_id))
      p.is_primary _ _ (λ _. refl) (λ replica. absurd cc)

module _ (p : Manager) (clock : Clock) (i : ℤ) where
  add_new :
      any (has_id i) p.replicas ≡ false
      → length p.replicas < max_replicas
      → (add_replica p clock i).0 ≡ with_table p (p.replicas ++ joined_replica (clock 0) i ∷ [])
  unfolding add_replica joined_replica
  add_new new room =
      let room_left : ltb (length p.replicas) max_replicas ≡ true = ground arith in
      rw (new, room_left) refl

  add_known :
      (rs : List ReplicaInfo) (x : ReplicaInfo)
      → any (has_id i) rs ≡ false
      → has_id i x ≡ true
      → (add_replica (with_table p (rs ++ x ∷ [])) clock i).0
        ≡ with_table p (rs ++ record (seen (clock 0) x) { state_confirmed = false } ∷ [])
  unfolding add_replica
  add_known rs x new same =
      let known : any (has_id i) (rs ++ x ∷ []) ≡ true =
        any-append (has_id i) rs (x ∷ []) ∙ (unfold any in rw (new, same) refl) in
      rw known (
        ap (with_table p) (
          update_first-snoc (has_id i) (λ r. record (seen (clock 0) r) { state_confirmed = false })
            rs x new same))

-- The first request makes an entry.
first_join :
    (p : Manager) (clock : Clock) (i : ℤ) (sender : SockAddr)
    → any (has_id i) p.replicas ≡ false
    → length p.replicas < max_replicas
    → after_join p clock i sender ≡ with_table p (p.replicas ++ joined_replica (clock 0) i ∷ [])
unfolding handle_join learn_addr
first_join p clock i sender new room =
    ap (λ (rs : List ReplicaInfo). (add_replica (with_table p rs) clock i).0)
      (update_first-none (has_id i) (λ r. record r { addr = sender }) p.replicas new)
    ∙ add_new p clock i new room

-- The second gives it the address that the request came from.
abbrev welcomed : ℤ → ℤ → SockAddr → ReplicaInfo
welcomed now i sender = record (joined_replica now i) { addr = sender }

second_join :
    (p : Manager) (rs : List ReplicaInfo) (clock : Clock) (i now : ℤ) (sender : SockAddr)
    → any (has_id i) rs ≡ false
    → after_join (with_table p (rs ++ joined_replica now i ∷ [])) clock i sender
      ≡ with_table p (rs ++ welcomed (clock 0) i sender ∷ [])
unfolding handle_join learn_addr joined_replica
second_join p rs clock i now sender new =
    ap (λ (xs : List ReplicaInfo). (add_replica (with_table p xs) clock i).0)
      (update_first-snoc (has_id i) (λ r. record r { addr = sender }) rs (joined_replica now i) new
        (==ℤ_refl i))
    ∙ add_known p clock i rs (welcomed now i sender) new (==ℤ_refl i)

-- What two of the requests that a starting server sends to the primary lead to.
pub record Welcomed (starts_at : Clock) (port : ℤ) (p : Manager)
    (clock clock' sends_at takes_at : Clock) (new_sum seqn : ℤ) (sender from : SockAddr)
    : Type 0 where
  pub started : Started
  pub starts : init_replication_manager starts_at port false true true ≡ some started
  pub asking : Datagram
  pub to_primary : asking.dest ≡ repl_addr (pos primary_port)
  pub asks : Sends asking started.effects
  pub once : Manager
  pub effects : Effects
  pub first : receiver_round p clock (whole asking.msg sender) ≡ some (once, effects)
  pub twice : Manager
  pub effects' : Effects
  pub second : receiver_round once clock' (whole asking.msg sender) ≡ some (twice, effects')
  pub entry : ReplicaInfo
  pub enters : twice.replicas ≡ p.replicas ++ entry ∷ []
  pub named : entry.id ≡ port
  pub at_sender : entry.addr ≡ sender
  pub agrees : Agrees twice started.rm sends_at takes_at new_sum seqn from entry

-- A server that starts as a replica asks the primary, on port 2000, to join. Where two of its
-- requests arrive there, and the primary has room in its table and no entry of that identifier,
-- the table gets one entry more, behind the others, with the identifier of the new server and the
-- address that the requests came from: the next state that the primary sets goes there, and the
-- new server takes it, if its sequence number is not negative.
pub init_replication_manager-Welcomed :
    (starts_at : Clock) (port : ℤ) (p : Manager) (clock clock' sends_at takes_at : Clock)
    (new_sum seqn : ℤ) (sender from : SockAddr)
    → p.is_primary ≡ true
    → p.my_id ≡ pos primary_port
    → any (has_id port) p.replicas ≡ false
    → length p.replicas < max_replicas
    → (port ==ℤ p.my_id) ≡ false
    → pos 0 ≤ℤ seqn
    → Welcomed starts_at port p clock clock' sends_at takes_at new_sum seqn sender from
unfolding init_replication_manager first_manager joined_replica
init_replication_manager-Welcomed starts_at port p clock clock' sends_at takes_at new_sum seqn
      sender from primary first_port new room other count =
    record {
      started = _;
      starts = refl;
      asking = datagram (repl_addr (pos primary_port)) (join_message n (starts_at 1));
      to_primary = refl;
      asks = Sends-send_times 2 _;
      once = once;
      effects = _;
      first = join-received p n clock (starts_at 1) sender primary;
      twice = after_join once clock' port sender;
      effects' = _;
      second =
          join-received once n clock' (starts_at 1) sender
            (ap (λ (m : Manager). m.is_primary) entered ∙ primary);
      entry = welcomed (clock' 0) port sender;
      enters = ap (λ (m : Manager). m.replicas) twice_entered;
      named = refl;
      at_sender = refl;
      agrees =
          subst
            (λ (m : Manager).
              Agrees m n sends_at takes_at new_sum seqn from (welcomed (clock' 0) port sender))
            (sym twice_entered)
            (update_state-Agrees (with_table p (p.replicas ++ welcomed (clock' 0) port sender ∷ []))
              n sends_at takes_at new_sum seqn from (length p.replicas)
              (welcomed (clock' 0) port sender) primary (get_elem?-snoc p.replicas _)
              (unfold joined_replica in other) refl (sym first_port) count);
    }
  where
    n : Manager
    n = first_manager starts_at port false

    once : Manager
    once = after_join p clock port sender

    entered : once ≡ with_table p (p.replicas ++ joined_replica (clock 0) port ∷ [])
    entered = first_join p clock port sender new room

    twice_entered :
        after_join once clock' port sender
        ≡ with_table p (p.replicas ++ welcomed (clock' 0) port sender ∷ [])
    twice_entered =
        ap (λ (m : Manager). after_join m clock' port sender) entered
        ∙ second_join p p.replicas clock' port (clock 0) sender new
