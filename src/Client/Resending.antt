-- ===== src/Client/Resending.antt =====
-- client.c and server_prot.c together: the second request for a value, after the search for another
-- primary.
use threaded_network_adder.Base.{
  ◌≡◌, refl, sym, ap, ◌∙◌, true, false, List, [], ◌∷◌, ℤ, pos, ◌+ℤ◌, ◌<ℤ◌, ◌≤ℤ◌, ltb_ℤ, wrap_int,
  arith, ==ℤ_iff, subst, ◌++◌, wrap_int-+ℤ,
}
use threaded_network_adder.Net.{SockAddr}
use threaded_network_adder.Replication.Types.{Manager, Clock}
use threaded_network_adder.Server.Packet.{RequestPacket}
use threaded_network_adder.Client.Search.{Search, discover_server}
use threaded_network_adder.Client.Exchange.{
  Exchange, search_again, request, next_seqn, send_request,
}
use threaded_network_adder.Client.Session.{
  Network, shown, failed, Client, Submitted, submit, resubmit, to_port, verdict_of,
}
use threaded_network_adder.Client.Delivery.{
  served, carried, sum_with, served-Adds, served-Refuses, send_request_primary,
  send_request_replica,
}
use threaded_network_adder.Client.Answers.{first_exchange}

-- The second request, where the search has found a port.
resubmit-again :
    (net : Network) (value : ℤ) (x : Exchange) (s : Search) (y : Exchange)
    → pos 0 <ℤ s.request_port
    → send_request net.second (to_port s.server_addr s.request_port) value x.seqn ≡ y
    → resubmit net value x s ≡ record {
      client = record { seqn = y.seqn; server_addr = y.req_addr };
      verdict = verdict_of y.result;
      sent = x.sent ++ y.sent;
    }
unfolding resubmit
resubmit-again net value x s y found e =
    let positive : ltb_ℤ (pos 0) s.request_port ≡ true = ground arith in rw (positive, e) refl

-- The client's requests for a value that it has sent twice.
abbrev twice : Client → ℤ → List RequestPacket
twice c value = request c.seqn value ∷ request (next_seqn c.seqn) value ∷ []

-- The client shows the sum of the server at `from`, and has sent the value twice.
pub record ShowsSecond (c : Client) (value : ℤ) (from : SockAddr) (sum : ℤ) (u : Submitted)
    : Type 0 where
  pub client : u.client ≡ record { seqn = next_seqn (next_seqn c.seqn); server_addr = from }
  pub verdict : u.verdict ≡ shown sum
  pub sent : u.sent ≡ twice c value

-- What a first request that ends with -2 leads to, where the second one is served by a primary.
resubmit-ShowsSecond :
    (net : Network) (c : Client) (value : ℤ) (from from' : SockAddr) (result : ℤ) (s : Search)
    (rm : Manager) (clock : Clock)
    → pos 0 <ℤ s.request_port
    → rm.is_primary ≡ true
    → net.second 0 ≡ carried from' (served rm clock (next_seqn c.seqn) value)
    → pos 0 ≤ℤ sum_with rm value
    → ShowsSecond c value from'
        (sum_with rm value)
        (resubmit net value (first_exchange c from value result) s)
resubmit-ShowsSecond net c value from from' result s rm clock found primary e small =
    let shows : ltb_ℤ (sum_with rm value) (pos 0) ≡ false = ground arith in
    let second =
      send_request_primary net.second (to_port s.server_addr s.request_port) from' rm clock value
        (next_seqn c.seqn) primary e in
    rw (resubmit-again net value (first_exchange c from value result) s _ found second)
      (record { client = refl; verdict = rw shows refl; sent = refl })

submit_search :
    (net : Network) (c : Client) (value result : ℤ) (from : SockAddr)
    → result ≡ search_again
    → send_request net.first c.server_addr value c.seqn ≡ first_exchange c from value result
    → submit net c value
      ≡ resubmit net value
          (first_exchange c from value result)
          (discover_server net.ready net.probe from)
unfolding submit
submit_search net c value result from two e =
    let equal = (==ℤ_iff result search_again).1 two in rw (e, equal) refl

-- What a value comes to that a replica refuses and the new primary adds.
pub record FailedOver (c : Client) (value : ℤ) (from' : SockAddr) (rm rm' : Manager)
    (refusing adding : Manager) (u : Submitted) : Type 0 where
  pub unmoved : refusing ≡ rm
  pub added : adding.current_sum ≡ sum_with rm' value
  pub shows : ShowsSecond c value from' (sum_with rm' value) u

-- A replica that is asked refuses and changes nothing. Where the search then finds a port, and the
-- server there is the primary and its answer arrives, the value is in that server's sum once, and
-- the client shows the sum if it is not negative.
pub submit-FailedOver :
    (net : Network) (c : Client) (value : ℤ) (from from' : SockAddr) (rm rm' : Manager)
    (clock clock' : Clock)
    → rm.is_primary ≡ false
    → net.first 0 ≡ carried from (served rm clock c.seqn value)
    → pos 0 <ℤ (discover_server net.ready net.probe from).request_port
    → rm'.is_primary ≡ true
    → net.second 0 ≡ carried from' (served rm' clock' (next_seqn c.seqn) value)
    → pos 0 ≤ℤ sum_with rm' value
    → FailedOver c value from' rm rm'
        (served rm clock c.seqn value).rm
        (served rm' clock' (next_seqn c.seqn) value).rm
        (submit net c value)
submit-FailedOver net c value from from' rm rm' clock clock' replica e found primary e' small =
    let first = send_request_replica net.first c.server_addr from rm clock value c.seqn replica e in
    record {
      unmoved = (served-Refuses rm clock c.seqn value replica).state;
      added =
          ap (λ (m : Manager). m.current_sum)
            (served-Adds rm' clock' (next_seqn c.seqn) value primary).state;
      shows = rw (submit_search net c value search_again from refl first) (
          resubmit-ShowsSecond net c value from from' search_again _ rm' clock' found primary e'
            small);
    }

-- Where the primary's answer with the sum -2 reaches the client, the search finds a port, and the
-- same primary serves the second request, its sum holds the value twice; the client shows that sum
-- if it is not negative.
pub submit-ShowsSecond :
    (net : Network) (c : Client) (value : ℤ) (from from' : SockAddr) (rm : Manager)
    (clock clock' : Clock)
    → rm.is_primary ≡ true
    → net.first 0 ≡ carried from (served rm clock c.seqn value)
    → sum_with rm value ≡ search_again
    → pos 0 <ℤ (discover_server net.ready net.probe from).request_port
    → let once = (served rm clock c.seqn value).rm in
      let sum = wrap_int (rm.current_sum +ℤ value +ℤ value) in
      net.second 0 ≡ carried from' (served once clock' (next_seqn c.seqn) value)
      → pos 0 ≤ℤ sum
      → ((served once clock' (next_seqn c.seqn) value).rm.current_sum ≡ sum)
        × ShowsSecond c value from' sum (submit net c value)
submit-ShowsSecond net c value from from' rm clock clock' primary e two found e' small =
    let first = send_request_primary net.first c.server_addr from rm clock value c.seqn primary e in
    let once = (served rm clock c.seqn value).rm in
    let state = (served-Adds rm clock c.seqn value primary).state in
    let still : once.is_primary ≡ true = ap (λ (m : Manager). m.is_primary) state ∙ primary in
    let sum : sum_with once value ≡ wrap_int (rm.current_sum +ℤ value +ℤ value) =
      ap (λ (m : Manager). sum_with m value) state ∙ wrap_int-+ℤ (rm.current_sum +ℤ value) value in
    (
      ap (λ (m : Manager). m.current_sum)
            (served-Adds once clock' (next_seqn c.seqn) value still).state
          ∙ sum,
      rw (submit_search net c value (sum_with rm value) from two first) (
          subst
            (λ (t : ℤ). ShowsSecond c value from' t (
              resubmit net value (first_exchange c from value (sum_with rm value))
                (discover_server net.ready net.probe from)))
            sum
            (resubmit-ShowsSecond net c value from from' (sum_with rm value)
              (discover_server net.ready net.probe from) once clock' found still e'
              (subst (λ (t : ℤ). pos 0 ≤ℤ t) (sym sum) small))),
    )

-- The same replica is asked twice, and refuses twice.
pub record Stranded (c : Client) (value : ℤ) (from : SockAddr) (rm once again : Manager)
    (u : Submitted) : Type 0 where
  pub unmoved_once : once ≡ rm
  pub unmoved_again : again ≡ rm
  pub client : u.client ≡ record { seqn = next_seqn (next_seqn c.seqn); server_addr = from }
  pub verdict : u.verdict ≡ failed
  pub sent : u.sent ≡ twice c value

-- Where a replica refuses, and the search, which asks no server for its role, leads to the same
-- replica again, the client gives up, having sent the value twice; the replica is unchanged.
pub submit-Stranded :
    (net : Network) (c : Client) (value : ℤ) (from : SockAddr) (rm : Manager) (clock clock' : Clock)
    → rm.is_primary ≡ false
    → net.first 0 ≡ carried from (served rm clock c.seqn value)
    → pos 0 <ℤ (discover_server net.ready net.probe from).request_port
    → let once = (served rm clock c.seqn value).rm in
      net.second 0 ≡ carried from (served once clock' (next_seqn c.seqn) value)
      → Stranded c value from rm once
          (served once clock' (next_seqn c.seqn) value).rm
          (submit net c value)
submit-Stranded net c value from rm clock clock' replica e found e' =
    let first = send_request_replica net.first c.server_addr from rm clock value c.seqn replica e in
    let once = (served rm clock c.seqn value).rm in
    let state = (served-Refuses rm clock c.seqn value replica).state in
    let still : once.is_primary ≡ false = ap (λ (m : Manager). m.is_primary) state ∙ replica in
    let s = discover_server net.ready net.probe from in
    let second =
      send_request_replica net.second (to_port s.server_addr s.request_port) from once clock' value
        (next_seqn c.seqn) still e' in
    let u = resubmit-again net value (first_exchange c from value search_again) s _ found second in
    let two = submit_search net c value search_again from refl first ∙ u in
    record {
      unmoved_once = state;
      unmoved_again = (served-Refuses once clock' (next_seqn c.seqn) value still).state ∙ state;
      client = ap (λ (v : Submitted). v.client) two;
      verdict = ap (λ (v : Submitted). v.verdict) two;
      sent = ap (λ (v : Submitted). v.sent) two;
    }
