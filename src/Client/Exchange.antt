-- ===== src/Client/Exchange.antt =====
-- client.c: send_request, which sends one value and waits for the answer.
use threaded_network_adder.Base.{
  ℕ, zero, suc, List, [], ◌∷◌, ℤ, pos, negsuc, ◌+ℤ◌, ◌==ℤ◌, wrap_long, if◌then◌else◌,
}
use threaded_network_adder.Net.{SockAddr}
use threaded_network_adder.Server.Packet.{
  PacketType, desc, desc_ack, desc_server, req, req_ack, other, RequestPacket, ResponsePacket,
}

-- What comes of one attempt. recvfrom leaves the address of the sender in the place where the
-- server's address is kept.
pub data Attempt : Type 0 where
  unsent timed_out receive_failed : Attempt
  short : SockAddr → Attempt
  answered : ResponsePacket → SockAddr → Attempt

pub record Exchange : Type 0 where
  pub result : ℤ
  pub seqn : ℤ  -- the client's counter
  pub req_addr : SockAddr
  pub attempts : ℕ
  pub sent : List RequestPacket  -- what sendto took whole

abbrev pub search_again : ℤ
search_again = negsuc 1

abbrev pub request : ℤ → ℤ → RequestPacket
request seqn value = record { type = req; req = record { seqn = seqn; value = value } }

abbrev pub ends : ℤ → ℤ → SockAddr → List RequestPacket → Exchange
ends result seqn addr sent = record {
  result = result;
  seqn = seqn;
  req_addr = addr;
  attempts = 1;
  sent = sent;
}

-- One more attempt before the others.
abbrev pub again : List RequestPacket → Exchange → Exchange
again [] x = record x { attempts = suc x.attempts }
again (p ∷ _) x = record x { attempts = suc x.attempts; sent = p ∷ x.sent }

abbrev pub next_seqn : ℤ → ℤ
next_seqn seqn = wrap_long (seqn +ℤ pos 1)

-- What the type and the status of an answer lead to: `rest` is the next attempt.
unfoldable pub judge : PacketType → ℤ → Exchange → Exchange → Exchange → Exchange
judge req_ack status gone done rest = if status ==ℤ pos 1 then gone else done
judge desc status gone done rest = rest
judge desc_ack status gone done rest = rest
judge desc_server status gone done rest = rest
judge req status gone done rest = rest
judge other status gone done rest = rest

-- The loop, with the attempts left; the `k`-th attempt comes to `outcome k`.
unfoldable pub send_attempts : ℕ → ℕ → (ℕ → Attempt) → SockAddr → ℤ → ℤ → Exchange
unfolding judge
send_attempts zero k outcome addr value seqn = record {
  result = search_again;
  seqn = seqn;
  req_addr = addr;
  attempts = 0;
  sent = [];
}
send_attempts (suc n) k outcome addr value seqn =
    let packet = request seqn value in
    let rest = λ (a : SockAddr). send_attempts n (suc k) outcome a value (next_seqn seqn) in
    elim (outcome k) [
      | unsent ↦ again [] (rest addr)
      | timed_out ↦ ends search_again (next_seqn seqn) addr (packet ∷ [])
      | receive_failed ↦ again (packet ∷ []) (rest addr)
      | short from ↦ again (packet ∷ []) (rest from)
      | answered p from ↦
          judge p.type p.resp.status (ends search_again (next_seqn seqn) from (packet ∷ []))
            (ends p.resp.value (next_seqn seqn) from (packet ∷ []))
            (again (packet ∷ []) (rest from))
    ]

abbrev pub max_retries : ℕ
max_retries = 3

unfoldable pub send_request : (ℕ → Attempt) → SockAddr → ℤ → ℤ → Exchange
unfolding send_attempts
send_request outcome addr value seqn = send_attempts max_retries 0 outcome addr value seqn
