-- ===== src/Client/Delivery.antt =====
-- client.c and server_prot.c together: a value that a client sends, up to what it shows.
use threaded_network_adder.Base.{
  ℕ, ◌≡◌, refl, ap, ◌∙◌, Bool, true, false, none, some, List, [], ◌∷◌, ℤ, pos, ◌+ℤ◌, ◌==ℤ◌,
  wrap_int, if_cases, if◌then◌else◌,
}
use threaded_network_adder.Net.{SockAddr}
use threaded_network_adder.Replication.Types.{Manager, Clock}
use threaded_network_adder.Server.Packet.{RequestPacket, ResponsePacket, whole}
use threaded_network_adder.Server.Request.{
  Served, reply, request_round, serve, process_request, refuse,
}
use threaded_network_adder.Server.Adder.{add_value_lem}
use threaded_network_adder.Client.Exchange.{
  Attempt, timed_out, answered, search_again, request, ends, next_seqn, judge, send_attempts,
  send_request,
}

-- A round of the server's request service on a request of the client.
abbrev pub served : Manager → Clock → ℤ → ℤ → Served
served rm clock seqn value = request_round rm clock (whole (request seqn value))

-- The server at `from` sends the answer of a round, and the network brings it.
abbrev pub carried : SockAddr → Served → Attempt
carried from s = elim s.answer [ none ↦ timed_out | some p ↦ answered p from ]

-- The sum that a value makes.
abbrev pub sum_with : Manager → ℤ → ℤ
sum_with rm value = wrap_int (rm.current_sum +ℤ value)

-- The primary adds the value and says so.
pub record Adds (rm : Manager) (seqn value : ℤ) (s : Served) : Type 0 where
  pub state : s.rm ≡ record rm { current_sum = sum_with rm value; last_seqn = seqn }
  pub answer : s.answer ≡ some (reply seqn (sum_with rm value) (pos 0))

pub served-Adds :
    (rm : Manager) (clock : Clock) (seqn value : ℤ)
    → rm.is_primary ≡ true
    → Adds rm seqn value (served rm clock seqn value)
unfolding request_round serve process_request
served-Adds rm clock seqn value primary =
    if_cases (Adds rm seqn value) rm.is_primary _ _
      (λ _.
        let (state, answer) = add_value_lem rm clock seqn value in
        record {
          state = state;
          answer = answer ∙ ap (λ (m : Manager). some (reply seqn m.current_sum (pos 0))) state;
        })
      (λ replica. cc)

-- A replica changes nothing and refuses.
pub record Refuses (rm : Manager) (seqn : ℤ) (s : Served) : Type 0 where
  pub state : s.rm ≡ rm
  pub answer : s.answer ≡ some (reply seqn rm.current_sum (pos 1))

pub served-Refuses :
    (rm : Manager) (clock : Clock) (seqn value : ℤ)
    → rm.is_primary ≡ false
    → Refuses rm seqn (served rm clock seqn value)
unfolding request_round serve process_request refuse
served-Refuses rm clock seqn value replica =
    if_cases (Refuses rm seqn) rm.is_primary _ _ (λ primary. cc)
      (λ _. record { state = refl; answer = refl })

if-ends :
    (b : Bool) (r t seqn : ℤ) (addr : SockAddr) (sent : List RequestPacket)
    → (if b then ends r seqn addr sent else ends t seqn addr sent)
      ≡ ends (if b then r else t) seqn addr sent
if-ends true r t seqn addr sent = refl
if-ends false r t seqn addr sent = refl

-- An answer to the first attempt ends the exchange.
send_request-reply :
    (outcome : ℕ → Attempt) (addr from : SockAddr) (value seqn n sum status : ℤ)
    → outcome 0 ≡ answered (reply n sum status) from
    → send_request outcome addr value seqn
      ≡ ends
          (if status ==ℤ pos 1 then search_again else sum)
          (next_seqn seqn)
          from
          (request seqn value ∷ [])
unfolding send_request send_attempts judge
send_request-reply outcome addr from value seqn n sum status e =
    rw e
      (if-ends (status ==ℤ pos 1) search_again sum (next_seqn seqn) from (request seqn value ∷ []))

carried-reply :
    (from : SockAddr) (s : Served) (p : ResponsePacket)
    → s.answer ≡ some p
    → carried from s ≡ answered p from
carried-reply from s p e = rw e refl

-- The exchange where the first attempt reaches the primary, and where it reaches a replica.
pub send_request_primary :
    (outcome : ℕ → Attempt) (addr from : SockAddr) (rm : Manager) (clock : Clock) (value seqn : ℤ)
    → rm.is_primary ≡ true
    → outcome 0 ≡ carried from (served rm clock seqn value)
    → send_request outcome addr value seqn
      ≡ ends (sum_with rm value) (next_seqn seqn) from (request seqn value ∷ [])
unfolding ◌==ℤ◌
send_request_primary outcome addr from rm clock value seqn primary e =
    let a = served-Adds rm clock seqn value primary in
    send_request-reply outcome addr from value seqn seqn (sum_with rm value) (pos 0)
      (e ∙ carried-reply from (served rm clock seqn value) _ a.answer)

pub send_request_replica :
    (outcome : ℕ → Attempt) (addr from : SockAddr) (rm : Manager) (clock : Clock) (value seqn : ℤ)
    → rm.is_primary ≡ false
    → outcome 0 ≡ carried from (served rm clock seqn value)
    → send_request outcome addr value seqn
      ≡ ends search_again (next_seqn seqn) from (request seqn value ∷ [])
unfolding ◌==ℤ◌
send_request_replica outcome addr from rm clock value seqn replica e =
    let a = served-Refuses rm clock seqn value replica in
    send_request-reply outcome addr from value seqn seqn rm.current_sum (pos 1)
      (e ∙ carried-reply from (served rm clock seqn value) _ a.answer)
