-- ===== src/Server/Adder.antt =====
-- server_prot.c: the request service adds, answers and leaves everything else alone.
use native.Mathlib.Decide.{ℕ_discrete}
use threaded_network_adder.Base.{
  ℕ, zero, suc, ◌+◌, ◌≤◌, ◌<◌, ◌≡◌, refl, sym, ap, ◌∙◌, inl, inr, Bool, true, false, none, some,
  List, [], ◌∷◌, ℤ, pos, ◌+ℤ◌, ==ℤ_refl, IsInt, wrap_int, wrap_int-IsInt, wrap_int_of_IsInt,
  wrap_int-+ℤ, +ℤ_assoc, +ℤ_zero, arith, if_cases, Bool-cases,
}
use threaded_network_adder.Replication.Types.{Manager, Clock}
use threaded_network_adder.Replication.State.{get_current_sum, update_state}
use threaded_network_adder.Server.Packet.{PacketType, req, req_ack, RequestPacket, Arrival, whole}
use threaded_network_adder.Server.Request.{
  Served, reply, add_value, refuse, process_request, serve, request_round, send_answer,
}

-- The primary adds the value to the sum, wrapped to an int, records the client's sequence number
-- and answers with that number, the new sum and status 0.
pub add_value_lem :
    (rm : Manager) (clock : Clock) (seqn value : ℤ)
    → let s = add_value rm clock seqn value in
      (s.rm ≡ record rm { current_sum = wrap_int (rm.current_sum +ℤ value); last_seqn = seqn })
      × (s.answer ≡ some (reply seqn s.rm.current_sum (pos 0)))
unfolding add_value update_state get_current_sum
add_value_lem rm clock seqn value = (refl, rw (==ℤ_refl (pos 0)))

-- What arrives is no whole request.
abbrev pub IsNoRequest : Arrival RequestPacket → Type 0
IsNoRequest Arrival.failed = Unit
IsNoRequest Arrival.short = Unit
IsNoRequest (whole p) = ¬ (p.type ≡ req)

-- What a round of the service may do: nothing at all, refuse, or add.
pub data Round (rm : Manager) : Arrival RequestPacket → Served → Type 0 where
  ignored :
      {a : Arrival RequestPacket} {s : Served}
      → IsNoRequest a
      → s.rm ≡ rm
      → s.answer ≡ none
      → s.effects ≡ []
      → Round rm a s
  refused :
      {p : RequestPacket} {s : Served}
      → p.type ≡ req
      → rm.is_primary ≡ false
      → s.rm ≡ rm
      → s.answer ≡ some (reply p.req.seqn rm.current_sum (pos 1))
      → Round rm (whole p) s
  added :
      {p : RequestPacket} {s : Served}
      → p.type ≡ req
      → rm.is_primary ≡ true
      → s.rm ≡ record rm {
        current_sum = wrap_int (rm.current_sum +ℤ p.req.value);
        last_seqn = p.req.seqn;
      }
      → s.answer ≡ some (reply p.req.seqn (wrap_int (rm.current_sum +ℤ p.req.value)) (pos 0))
      → Round rm (whole p) s

-- The same for the packet's type, to split on.
serve-Round :
    (t : PacketType) (rm : Manager) (clock : Clock) (p : RequestPacket)
    → p.type ≡ t
    → Round rm (whole p) (serve t rm clock p.req.seqn p.req.value)
unfolding serve process_request refuse get_current_sum
serve-Round req rm clock p e =
    if_cases (Round rm (whole p)) rm.is_primary _ _
      (λ primary.
        let (state, answer) = add_value_lem rm clock p.req.seqn p.req.value in
        added e primary state
          (answer ∙ ap (λ (m : Manager). some (reply p.req.seqn m.current_sum (pos 0))) state))
      (λ replica. refused e replica refl refl)
serve-Round PacketType.desc rm clock p e = ignored (λ h. cc) refl refl refl
serve-Round PacketType.desc_ack rm clock p e = ignored (λ h. cc) refl refl refl
serve-Round PacketType.desc_server rm clock p e = ignored (λ h. cc) refl refl refl
serve-Round req_ack rm clock p e = ignored (λ h. cc) refl refl refl
serve-Round PacketType.other rm clock p e = ignored (λ h. cc) refl refl refl

-- A round of the request service does one of three things. It ignores what is no whole request; as
-- a replica it answers a request with its own sum and status 1, and changes nothing; as the primary
-- it adds the value, wrapped to an int, and answers with the new sum and status 0.
pub request_round-Round :
    (rm : Manager) (clock : Clock) (a : Arrival RequestPacket)
    → Round rm a (request_round rm clock a)
unfolding request_round
request_round-Round rm clock Arrival.failed = ignored tt refl refl refl
request_round-Round rm clock Arrival.short = ignored tt refl refl refl
request_round-Round rm clock (whole p) = serve-Round p.type rm clock p refl

-- A client's request, with the clock of the round that serves it.
pub record Call : Type 0 where
  pub clock : Clock
  pub seqn : ℤ
  pub value : ℤ

-- The rounds that serve a list of requests, one after another.
unfoldable pub serve_calls : Manager → List Call → Manager
serve_calls rm [] = rm
serve_calls rm (c ∷ cs) = serve_calls (process_request rm c.clock c.seqn c.value).rm cs

-- The sum that the clients mean, over the integers.
unfoldable pub total : List Call → ℤ
total [] = pos 0
total (c ∷ cs) = c.value +ℤ total cs

added_value :
    (rm : Manager) (c : Call)
    → rm.is_primary ≡ true
    → (process_request rm c.clock c.seqn c.value).rm
      ≡ record rm { current_sum = wrap_int (rm.current_sum +ℤ c.value); last_seqn = c.seqn }
unfolding process_request
added_value rm c primary =
    if_cases
      (λ (s : Served).
        s.rm ≡ record rm { current_sum = wrap_int (rm.current_sum +ℤ c.value); last_seqn = c.seqn })
      rm.is_primary _ _ (λ _. (add_value_lem rm c.clock c.seqn c.value).0) (λ replica. cc)

-- However often it wraps on the way, the primary's sum after any list of requests is the initial
-- sum plus the total of their values, wrapped once to an int.
pub serve_calls-total :
    (rm : Manager) (cs : List Call)
    → rm.is_primary ≡ true
    → IsInt rm.current_sum
    → (serve_calls rm cs).current_sum ≡ wrap_int (rm.current_sum +ℤ total cs)
unfolding serve_calls total
serve_calls-total rm [] primary small =
    rw (+ℤ_zero rm.current_sum) (sym (wrap_int_of_IsInt rm.current_sum small))
serve_calls-total rm (c ∷ cs) primary small =
    ap (λ (m : Manager). (serve_calls m cs).current_sum) (added_value rm c primary)
    ∙ (serve_calls-total
          (record rm { current_sum = wrap_int (rm.current_sum +ℤ c.value); last_seqn = c.seqn }) cs
          primary (wrap_int-IsInt _)
        ∙ (wrap_int-+ℤ (rm.current_sum +ℤ c.value) (total cs)
            ∙ ap wrap_int (+ℤ_assoc rm.current_sum c.value (total cs))))

at_or_above :
    (f : ℕ → Bool) (k j : ℕ) → k ≤ j → f k ≡ false → (suc k ≤ j → f j ≡ false) → f j ≡ false
at_or_above f k j le here above = elim (ℕ_discrete j k) [
  | yes same ↦ rw same here
  | no other ↦ above (omega arith)
]

-- How the calls of sendto from the `k`-th on went, of which `r.0` is the number behind the last.
pub record Sent (rounds k : ℕ) (sent_all : ℕ → Bool) (r : ℕ × Bool) : Type 0 where
  pub within : (k ≤ r.0) × (r.0 ≤ k + rounds)
  pub failed_before : (j : ℕ) → k ≤ j → suc j < r.0 → sent_all j ≡ false
  pub succeeded : r.1 ≡ true → (last : ℕ) × (r.0 ≡ suc last) × (sent_all last ≡ true)
  pub exhausted :
      r.1 ≡ false → (r.0 ≡ k + rounds) × ((j : ℕ) → k ≤ j → j < r.0 → sent_all j ≡ false)

-- The answer is sent until sendto takes all of it, at most `rounds` times: every call before the
-- last one failed; if one succeeded it was the last, and otherwise all `rounds` calls failed.
pub send_answer-Sent :
    (rounds k : ℕ) (sent_all : ℕ → Bool) → Sent rounds k sent_all (send_answer rounds k sent_all)
unfolding send_answer
send_answer-Sent zero k sent_all = record {
  within = omega arith;
  failed_before = λ j lo hi. absurd (omega arith);
  succeeded = λ e. cc;
  exhausted = λ e. (omega arith, λ j lo hi. absurd (omega arith));
}
send_answer-Sent (suc rounds) k sent_all = elim (Bool-cases (sent_all k)) [
  | inl e ↦ rw e (record {
    within = omega arith;
    failed_before = λ j lo hi. absurd (omega arith);
    succeeded = λ _. (k, refl, e);
    exhausted = λ f. cc;
  })
  | inr e ↦
      let rest = send_answer-Sent rounds (suc k) sent_all in
      rw e (record {
        within = omega (arith, rest.within.0, rest.within.1);
        failed_before =
            λ j lo hi. at_or_above sent_all k j lo e (λ above. rest.failed_before j above hi);
        succeeded = rest.succeeded;
        exhausted = λ f.
            let (all, none_went) = rest.exhausted f in
            (
              omega (arith, all),
              λ j lo hi. at_or_above sent_all k j lo e (λ above. none_went j above hi),
            );
      })
]
