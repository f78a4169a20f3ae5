-- ===== src/Client/Answers.antt =====
-- client.c and server_prot.c together: what the client shows for a value, and what the servers'
-- sums are then.
use threaded_network_adder.Base.{
  ◌≡◌, ◌≢◌, refl, ap, true, false, [], ◌∷◌, ℤ, pos, ◌==ℤ◌, ◌<ℤ◌, ◌≤ℤ◌, ltb_ℤ, arith, if_cases,
  ==ℤ_iff,
}
use threaded_network_adder.Net.{SockAddr}
use threaded_network_adder.Replication.Types.{Manager, Clock}
use threaded_network_adder.Client.Search.{discover_server}
use threaded_network_adder.Client.Exchange.{Exchange, search_again, request, ends, next_seqn}
use threaded_network_adder.Client.Session.{
  Network, Verdict, shown, failed, Client, Submitted, submit, resubmit,
}
use threaded_network_adder.Client.Delivery.{
  served, carried, sum_with, served-Adds, send_request_primary,
}

-- The only request that the client has sent, and the address of its answer.
abbrev pub first_exchange : Client → SockAddr → ℤ → ℤ → Exchange
first_exchange c from value result = ends result (next_seqn c.seqn) from (request c.seqn value ∷ [])

abbrev pub submitted : Client → SockAddr → ℤ → Verdict → Submitted
submitted c from value v = record {
  client = record { seqn = next_seqn c.seqn; server_addr = from };
  verdict = v;
  sent = request c.seqn value ∷ [];
}

-- What the client makes of the primary's answer.
pub data Told (net : Network) (c : Client) (value : ℤ) (from : SockAddr) (sum : ℤ)
    : Submitted → Type 0 where
  shows : pos 0 ≤ℤ sum → Told net c value from sum (submitted c from value (shown sum))
  gives_up :
      sum <ℤ pos 0 → sum ≢ search_again → Told net c value from sum (submitted c from value failed)
  asks_again :
      sum ≡ search_again
      → Told net c value from sum (
          resubmit net value
            (first_exchange c from value sum)
            (discover_server net.ready net.probe from))

different : (sum : ℤ) → (sum ==ℤ search_again) ≡ false → sum ≢ search_again
different sum other same = let equal = (==ℤ_iff sum search_again).1 same in cc

-- Where the primary's answer to the first attempt reaches the client, the value has been added,
-- and the client shows the new sum if it is not negative. Otherwise it reads the sum as an error:
-- -2 as the demand to look for another primary and to send the value again, any other negative
-- sum as a failure.
pub submit-Told :
    (net : Network) (c : Client) (value : ℤ) (from : SockAddr) (rm : Manager) (clock : Clock)
    → rm.is_primary ≡ true
    → net.first 0 ≡ carried from (served rm clock c.seqn value)
    → let sum = sum_with rm value in
      ((served rm clock c.seqn value).rm.current_sum ≡ sum)
      × Told net c value from sum (submit net c value)
unfolding submit
submit-Told net c value from rm clock primary e =
    let sum = sum_with rm value in
    (
      ap (λ (m : Manager). m.current_sum) (served-Adds rm clock c.seqn value primary).state,
      rw (send_request_primary net.first c.server_addr from rm clock value c.seqn primary e) (
          if_cases (Told net c value from sum) (sum ==ℤ search_again) _ _
            (λ two. asks_again ((==ℤ_iff sum search_again).0 two))
            (λ other.
              if_cases (λ (v : Verdict). Told net c value from sum (submitted c from value v))
                (ltb_ℤ sum (pos 0)) _ _ (λ neg. gives_up (ground arith) (different sum other))
                (λ ok. shows (ground arith)))),
    )

-- The answer with a sum that is not negative.
pub submit-shows :
    (net : Network) (c : Client) (value : ℤ) (from : SockAddr) (rm : Manager) (clock : Clock)
    → rm.is_primary ≡ true
    → net.first 0 ≡ carried from (served rm clock c.seqn value)
    → pos 0 ≤ℤ sum_with rm value
    → submit net c value ≡ submitted c from value (shown (sum_with rm value))
unfolding submit ◌==ℤ◌
submit-shows net c value from rm clock primary e small =
    let sum = sum_with rm value in
    let plain : (sum ==ℤ search_again) ≡ false = ground arith in
    let shows : ltb_ℤ sum (pos 0) ≡ false = ground arith in
    rw
      (
        send_request_primary net.first c.server_addr from rm clock value c.seqn primary e,
        plain,
        shows,
      )
      refl
