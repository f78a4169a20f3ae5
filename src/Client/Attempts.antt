-- ===== src/Client/Attempts.antt =====
-- client.c: what send_request returns.
use threaded_network_adder.Base.{
  ℕ, zero, suc, ◌+◌, ◌≤◌, ◌≡◌, ◌⊎◌, refl, ap, inl, inr, Bool, true, false, ◌+ℤ◌, wrap_long,
  if◌then◌else◌, List, [], ◌∷◌, ℤ, pos, ◌==ℤ◌, arith, if_cases,
}
use threaded_network_adder.Net.{SockAddr}
use threaded_network_adder.Server.Packet.{PacketType, req, req_ack, RequestPacket, ResponsePacket}
use threaded_network_adder.Client.Exchange.{
  Attempt, unsent, timed_out, receive_failed, short, answered, Exchange, search_again, request,
  ends, again, next_seqn, judge, send_attempts, send_request, max_retries,
}

-- `n` steps of the client's counter.
unfoldable pub advance : ℕ → ℤ → ℤ
advance zero seqn = seqn
advance (suc n) seqn = advance n (wrap_long (seqn +ℤ pos 1))

-- An answer that ends the exchange with its value, the last of the attempts before the `next`-th.
pub record Accepted (outcome : ℕ → Attempt) (next : ℕ) (result : ℤ) : Type 0 where
  pub index : ℕ
  pub packet : ResponsePacket
  pub from : SockAddr
  pub last : next ≡ suc index
  pub arrived : outcome index ≡ answered packet from
  pub is_ack : packet.type ≡ req_ack
  pub from_primary : (packet.resp.status ==ℤ pos 1) ≡ false
  pub value : packet.resp.value ≡ result

abbrev fails_to_send : Attempt → Bool
fails_to_send unsent = true
fails_to_send _ = false

-- The packets of `m` attempts from the `k`-th on: each has the next number, also behind one that
-- sendto did not take.
unfoldable pub numbered : ℕ → ℕ → (ℕ → Attempt) → ℤ → ℤ → List RequestPacket
numbered zero k outcome value seqn = []
numbered (suc m) k outcome value seqn =
    let others = numbered m (suc k) outcome value (wrap_long (seqn +ℤ pos 1)) in
    if fails_to_send (outcome k)
    then others
    else record { type = req; req = record { seqn = seqn; value = value } } ∷ others

-- What an exchange of at most `n` attempts, the first of them the `k`-th, comes to.
pub record Outcome (n k : ℕ) (outcome : ℕ → Attempt) (value seqn : ℤ) (x : Exchange) : Type 0 where
  pub bounded : x.attempts ≤ n
  pub counter : x.seqn ≡ advance x.attempts seqn
  pub sends : x.sent ≡ numbered x.attempts k outcome value seqn
  pub returns : (x.result ≡ search_again) ⊎ Accepted outcome (k + x.attempts) x.result

later :
    (m k : ℕ) (outcome : ℕ → Attempt) (result : ℤ)
    → (result ≡ search_again) ⊎ Accepted outcome (suc k + m) result
    → (result ≡ search_again) ⊎ Accepted outcome (k + suc m) result
later m k outcome result (inl e) = inl e
later m k outcome result (inr a) = inr (record {
  index = a.index;
  packet = a.packet;
  from = a.from;
  last = omega (arith, a.last);
  arrived = a.arrived;
  is_ack = a.is_ack;
  from_primary = a.from_primary;
  value = a.value;
})

none_left :
    (k : ℕ) (outcome : ℕ → Attempt) (addr : SockAddr) (value seqn : ℤ)
    → Outcome 0 k outcome value seqn (send_attempts 0 k outcome addr value seqn)
unfolding send_attempts advance numbered
none_left k outcome addr value seqn = record {
  bounded = omega arith;
  counter = refl;
  sends = refl;
  returns = inl refl;
}

-- One more attempt before the others: it was not sent, or it was.
unsent_attempt :
    (n k : ℕ) (outcome : ℕ → Attempt) (value seqn : ℤ) (x : Exchange)
    → fails_to_send (outcome k) ≡ true
    → Outcome n (suc k) outcome value (next_seqn seqn) x
    → Outcome (suc n) k outcome value seqn (again [] x)
unfolding advance numbered
unsent_attempt n k outcome value seqn x failed o = record {
  bounded = omega (arith, o.bounded);
  counter = o.counter;
  sends = rw failed o.sends;
  returns = later x.attempts k outcome _ o.returns;
}

missed_attempt :
    (n k : ℕ) (outcome : ℕ → Attempt) (value seqn : ℤ) (x : Exchange)
    → fails_to_send (outcome k) ≡ false
    → Outcome n (suc k) outcome value (next_seqn seqn) x
    → Outcome (suc n) k outcome value seqn (again (request seqn value ∷ []) x)
unfolding advance numbered
missed_attempt n k outcome value seqn x went o = record {
  bounded = omega (arith, o.bounded);
  counter = o.counter;
  sends = rw went (ap (λ (ps : List RequestPacket). request seqn value ∷ ps) o.sends);
  returns = later x.attempts k outcome _ o.returns;
}

-- The last attempt, with what it returns.
Outcome-ends :
    (n k : ℕ) (outcome : ℕ → Attempt) (value seqn result : ℤ) (a : SockAddr)
    → fails_to_send (outcome k) ≡ false
    → (result ≡ search_again) ⊎ Accepted outcome (k + 1) result
    → Outcome
        (suc n)
        k
        outcome
        value
        seqn
        (ends result (next_seqn seqn) a (request seqn value ∷ []))
unfolding advance numbered
Outcome-ends n k outcome value seqn result a went r = record {
  bounded = omega arith;
  counter = refl;
  sends = rw went refl;
  returns = r;
}

-- The same for an answer's type, to split on.
judge-Outcome :
    (t : PacketType) (n k : ℕ) (outcome : ℕ → Attempt) (value seqn : ℤ) (p : ResponsePacket)
    (from : SockAddr) (x : Exchange)
    → p.type ≡ t
    → outcome k ≡ answered p from
    → Outcome n (suc k) outcome value (next_seqn seqn) x
    → Outcome (suc n) k outcome value seqn (
        judge t p.resp.status
          (ends search_again (next_seqn seqn) from (request seqn value ∷ []))
          (ends p.resp.value (next_seqn seqn) from (request seqn value ∷ []))
          (again (request seqn value ∷ []) x))
unfolding judge
judge-Outcome req_ack n k outcome value seqn p from x e arrived o =
    if_cases (Outcome (suc n) k outcome value seqn) (p.resp.status ==ℤ pos 1) _ _
      (λ gone. Outcome-ends n k outcome value seqn search_again from (rw arrived refl) (inl refl))
      (λ primary. Outcome-ends n k outcome value seqn p.resp.value from (rw arrived refl) (
        inr (record {
          index = k;
          packet = p;
          from = from;
          last = omega arith;
          arrived = arrived;
          is_ack = e;
          from_primary = primary;
          value = refl;
        })))
judge-Outcome PacketType.desc n k outcome value seqn p from x e arrived o =
    missed_attempt n k outcome value seqn x (rw arrived refl) o
judge-Outcome PacketType.desc_ack n k outcome value seqn p from x e arrived o =
    missed_attempt n k outcome value seqn x (rw arrived refl) o
judge-Outcome PacketType.desc_server n k outcome value seqn p from x e arrived o =
    missed_attempt n k outcome value seqn x (rw arrived refl) o
judge-Outcome req n k outcome value seqn p from x e arrived o =
    missed_attempt n k outcome value seqn x (rw arrived refl) o
judge-Outcome PacketType.other n k outcome value seqn p from x e arrived o =
    missed_attempt n k outcome value seqn x (rw arrived refl) o

Attempt-cases :
    (n k : ℕ) (outcome : ℕ → Attempt) (addr : SockAddr) (value seqn : ℤ) (a : Attempt)
    → outcome k ≡ a
    → ((from : SockAddr)
        → Outcome n
            (suc k)
            outcome
            value
            (next_seqn seqn)
            (send_attempts n (suc k) outcome from value (next_seqn seqn)))
    → Outcome (suc n) k outcome value seqn (send_attempts (suc n) k outcome addr value seqn)
unfolding send_attempts
Attempt-cases n k outcome addr value seqn unsent e rest =
    rw (e, send_attempts) (unsent_attempt n k outcome value seqn _ (rw e refl) (rest addr))
Attempt-cases n k outcome addr value seqn timed_out e rest =
    rw (e, send_attempts)
      (Outcome-ends n k outcome value seqn search_again addr (rw e refl) (inl refl))
Attempt-cases n k outcome addr value seqn receive_failed e rest =
    rw (e, send_attempts) (missed_attempt n k outcome value seqn _ (rw e refl) (rest addr))
Attempt-cases n k outcome addr value seqn (short from) e rest =
    rw (e, send_attempts) (missed_attempt n k outcome value seqn _ (rw e refl) (rest from))
Attempt-cases n k outcome addr value seqn (answered p from) e rest =
    rw (e, send_attempts) (judge-Outcome p.type n k outcome value seqn p from _ refl e (rest from))

send_attempts-Outcome :
    (n k : ℕ) (outcome : ℕ → Attempt) (addr : SockAddr) (value seqn : ℤ)
    → Outcome n k outcome value seqn (send_attempts n k outcome addr value seqn)
send_attempts-Outcome zero k outcome addr value seqn = none_left k outcome addr value seqn
send_attempts-Outcome (suc n) k outcome addr value seqn =
    Attempt-cases n k outcome addr value seqn (outcome k) refl
      (λ from. send_attempts-Outcome n (suc k) outcome from value (next_seqn seqn))

-- A value is tried at most three times. Each attempt takes the next sequence number, and what is
-- sent is, in order, a request with the value and that number for each attempt that sendto takes.
-- The result is -2, or the value in the answer to the last attempt, of type REQ_ACK and with a
-- status other than 1.
pub send_request-Outcome :
    (outcome : ℕ → Attempt) (addr : SockAddr) (value seqn : ℤ)
    → Outcome max_retries 0 outcome value seqn (send_request outcome addr value seqn)
unfolding send_request
send_request-Outcome outcome addr value seqn =
    send_attempts-Outcome max_retries 0 outcome addr value seqn
