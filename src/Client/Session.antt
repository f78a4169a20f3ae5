-- ===== src/Client/Session.antt =====
-- client.c: the body of the loops of RunClient that send values, one by one or from a file.
use threaded_network_adder.Base.{
  Bool, ℕ, suc, List, [], ◌∷◌, ◌++◌, ℤ, pos, ◌==ℤ◌, ltb_ℤ, if◌then◌else◌,
}
use threaded_network_adder.Net.{SockAddr, htons}
use threaded_network_adder.Server.Packet.{RequestPacket}
use threaded_network_adder.Client.Search.{Probe, Search, discover_server}
use threaded_network_adder.Client.Exchange.{Attempt, Exchange, search_again, send_request}

-- What the network does while one value is sent: on the first request, on the search for another
-- primary, and on the second request.
pub record Network : Type 0 where
  pub first : ℕ → Attempt
  pub ready : Bool
  pub probe : ℕ → Probe
  pub second : ℕ → Attempt

-- Either the client shows a sum and goes on, or it stops sending.
pub data Verdict : Type 0 where
  shown : ℤ → Verdict
  failed no_primary : Verdict

pub record Client : Type 0 where
  pub seqn : ℤ
  pub server_addr : SockAddr

pub record Submitted : Type 0 where
  pub client : Client
  pub verdict : Verdict
  pub sent : List RequestPacket

abbrev pub verdict_of : ℤ → Verdict
verdict_of result = if ltb_ℤ result (pos 0) then failed else shown result

abbrev pub to_port : SockAddr → ℤ → SockAddr
to_port addr port = record addr { sin_port = htons port }

-- What becomes of a value whose first request ended with -2, with the result of the search.
unfoldable pub resubmit : Network → ℤ → Exchange → Search → Submitted
resubmit net value x s =
    if ltb_ℤ (pos 0) s.request_port
    then record {
      client = record { seqn = (second s).seqn; server_addr = (second s).req_addr };
      verdict = verdict_of (second s).result;
      sent = x.sent ++ (second s).sent;
    }
    else record {
      client = record { seqn = x.seqn; server_addr = s.server_addr };
      verdict = no_primary;
      sent = x.sent;
    }
  where
    second : Search → Exchange
    second t = send_request net.second (to_port t.server_addr t.request_port) value x.seqn

-- One value. A result of -2 is read as the request to look for another primary.
unfoldable pub submit : Network → Client → ℤ → Submitted
submit net c value =
    if first.result ==ℤ search_again
    then resubmit net value first (discover_server net.ready net.probe first.req_addr)
    else record {
      client = record { seqn = first.seqn; server_addr = first.req_addr };
      verdict = verdict_of first.result;
      sent = first.sent;
    }
  where
    first : Exchange
    first = send_request net.first c.server_addr value c.seqn

-- What the loop over the values does: the client after it, the sums shown, and the requests sent.
pub record Sending : Type 0 where
  pub client : Client
  pub shown : List ℤ
  pub sent : List RequestPacket

-- One value, with the rest of the loop: the loop goes on only after a sum.
unfoldable pub continue : Verdict → Submitted → Sending → Sending
continue (shown sum) u rest = record rest { shown = sum ∷ rest.shown; sent = u.sent ++ rest.sent }
continue failed u rest = record { client = u.client; shown = []; sent = u.sent }
continue no_primary u rest = record { client = u.client; shown = []; sent = u.sent }

-- The values of a file; `nets k` is what the network does for the `k`-th.
unfoldable pub send_file : (ℕ → Network) → ℕ → Client → List ℤ → Sending
unfolding continue
send_file nets k c [] = record { client = c; shown = []; sent = [] }
send_file nets k c (value ∷ values) =
    let u = submit (nets k) c value in
    let rest = send_file nets (suc k) u.client values in continue u.verdict u rest

-- The values that a user types, up to a zero.
unfoldable pub send_typed : (ℕ → Network) → ℕ → Client → List ℤ → Sending
unfolding continue
send_typed nets k c [] = record { client = c; shown = []; sent = [] }
send_typed nets k c (value ∷ values) =
    let u = submit (nets k) c value in
    let rest = send_typed nets (suc k) u.client values in
    if value ==ℤ pos 0
    then record { client = c; shown = []; sent = [] }
    else continue u.verdict u rest
