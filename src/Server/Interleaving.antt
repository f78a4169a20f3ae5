-- ===== src/Server/Interleaving.antt =====
-- server_prot.c: a request that another thread comes between. request_service reads the sum,
-- replaces it and reads it again, each under the mutex; between these the other threads may act.
use threaded_network_adder.Base.{
  ◌≡◌, refl, true, false, some, [], ◌++◌, ℤ, pos, ◌+ℤ◌, ◌==ℤ◌, ◌<ℤ◌, ltb_ℤ, ==ℤ_refl, wrap_int,
  if◌then◌else◌, if_cases, arith, sent,
}
use threaded_network_adder.Net.{SockAddr}
use threaded_network_adder.Replication.Types.{Message, Manager, Effects, Clock}
use threaded_network_adder.Replication.Election.{handle_victory_declaration, follow}
use threaded_network_adder.Replication.State.{propagate, get_current_sum, update_state}
use threaded_network_adder.Server.Request.{Served, reply, add_value}

-- `before_write` and `before_answer` are what the other threads do in the two gaps.
unfoldable pub add_value_amid :
    (Manager → Manager) → (Manager → Manager) → Manager → Clock → ℤ → ℤ → Served
add_value_amid before_write before_answer rm clock seqn value =
    let (current_sum, es) = get_current_sum rm in
    let (rm', fs, result) =
      update_state (before_write rm) clock (wrap_int (current_sum +ℤ value)) seqn in
    let (new_sum, gs) = get_current_sum (before_answer rm') in
    record {
      rm = before_answer rm';
      effects = es ++ (fs ++ gs);
      answer = some (reply seqn new_sum (if result ==ℤ pos 0 then pos 0 else pos 2));
    }

abbrev pub nothing : Manager → Manager
nothing rm = rm

-- Where no thread comes between, the request is the round of the service.
add_value_amid-add_value :
    (rm : Manager) (clock : Clock) (seqn value : ℤ)
    → add_value_amid nothing nothing rm clock seqn value ≡ add_value rm clock seqn value
unfolding add_value_amid add_value
add_value_amid-add_value rm clock seqn value = refl

abbrev pub deposed_by : Clock → Message → SockAddr → Manager → Manager
deposed_by clock msg sender rm = (handle_victory_declaration rm clock msg sender).0

-- The value is added on a server that has become a replica, and told to nobody but the client.
pub record Stray (rm : Manager) (msg : Message) (seqn value : ℤ) (s : Served) : Type 0 where
  pub role : s.rm.is_primary ≡ false
  pub leader : s.rm.primary_id ≡ msg.replica_id
  pub sum : s.rm.current_sum ≡ wrap_int (rm.current_sum +ℤ value)
  pub told : s.answer ≡ some (reply seqn (wrap_int (rm.current_sum +ℤ value)) (pos 0))
  pub unsent : sent s.effects ≡ []

deposed :
    (rm : Manager) (clock : Clock) (msg : Message) (sender : SockAddr)
    → rm.my_id <ℤ msg.replica_id
    → deposed_by clock msg sender rm ≡ follow rm clock msg sender
unfolding handle_victory_declaration
deposed rm clock msg sender higher =
    if_cases (λ (x : Manager × Effects). x.0 ≡ follow rm clock msg sender)
      (ltb_ℤ rm.my_id msg.replica_id) _ _ (λ _. refl)
      (λ no. let lower : ltb_ℤ rm.my_id msg.replica_id ≡ true = ground arith in absurd cc)

-- Where the victory of a server with a higher identifier arrives between the reading of the sum and
-- the writing, the server is a replica of the winner when it writes the old sum and the value: it
-- sends the new sum to nobody, and the client is told that the value was added.
pub add_value_amid-Stray :
    (rm : Manager) (clock clock' : Clock) (msg : Message) (sender : SockAddr) (seqn value : ℤ)
    → rm.my_id <ℤ msg.replica_id
    → Stray rm msg seqn value
        (add_value_amid (deposed_by clock msg sender) nothing rm clock' seqn value)
unfolding add_value_amid get_current_sum update_state propagate follow sent
add_value_amid-Stray rm clock clock' msg sender seqn value higher =
    rw (deposed rm clock msg sender higher, ==ℤ_refl (pos 0))
      (record { role = refl; leader = refl; sum = refl; told = refl; unsent = refl })
