-- ===== src/Client/Sums.antt =====
-- client.c and server_prot.c together: the sums that the client shows for a file of values.
use threaded_network_adder.Base.{
  Bool-cases, if◌then◌else◌, inl, inr, ℕ, suc, ◌≡◌, refl, sym, ap, ◌∙◌, true, subst, List, [], ◌∷◌,
  ℤ, pos, ◌+ℤ◌, ◌==ℤ◌, ◌≤ℤ◌, wrap_int, All, IsInt, wrap_int-IsInt, wrap_int_of_IsInt, wrap_int-+ℤ,
  +ℤ_assoc, +ℤ_zero,
}
use threaded_network_adder.Net.{SockAddr}
use threaded_network_adder.Replication.Types.{Manager, Clock}
use threaded_network_adder.Server.Packet.{RequestPacket}
use threaded_network_adder.Client.Exchange.{next_seqn, request}
use threaded_network_adder.Client.Session.{
  Network, send_typed, Client, submit, Sending, continue, send_file,
}
use threaded_network_adder.Client.Delivery.{served, carried, sum_with, served-Adds}
use threaded_network_adder.Client.Answers.{submit-shows}

-- The primary after it has served the values one by one.
unfoldable pub serve_file : Manager → (ℕ → Clock) → ℕ → ℤ → List ℤ → Manager
serve_file rm clocks k seqn [] = rm
serve_file rm clocks k seqn (value ∷ values) =
    serve_file (served rm (clocks k) seqn value).rm clocks (suc k) (next_seqn seqn) values

-- Each answer to the first request for a value reaches the client.
abbrev pub Brought : (ℕ → Network) → (ℕ → Clock) → SockAddr → Manager → ℕ → ℤ → List ℤ → Type 0
Brought nets clocks from rm k seqn [] = Unit
Brought nets clocks from rm k seqn (value ∷ values) =
    ((nets k).first 0 ≡ carried from (served rm (clocks k) seqn value))
    × Brought nets clocks from (served rm (clocks k) seqn value).rm (suc k) (next_seqn seqn) values

-- The sums on the way.
unfoldable pub running_sums : ℤ → List ℤ → List ℤ
running_sums sum [] = []
running_sums sum (value ∷ values) =
    let next = wrap_int (sum +ℤ value) in next ∷ running_sums next values

unfoldable pub sum_of : List ℤ → ℤ
sum_of [] = pos 0
sum_of (value ∷ values) = value +ℤ sum_of values

-- One request for each value, with the sequence numbers in order.
unfoldable pub requests : ℤ → List ℤ → List RequestPacket
requests seqn [] = []
requests seqn (value ∷ values) = request seqn value ∷ requests (next_seqn seqn) values

serve_file-sum_of :
    (rm : Manager) (clocks : ℕ → Clock) (k : ℕ) (seqn : ℤ) (values : List ℤ)
    → rm.is_primary ≡ true
    → IsInt rm.current_sum
    → (serve_file rm clocks k seqn values).current_sum ≡ wrap_int (rm.current_sum +ℤ sum_of values)
unfolding serve_file sum_of
serve_file-sum_of rm clocks k seqn [] primary small =
    rw (+ℤ_zero rm.current_sum) (sym (wrap_int_of_IsInt rm.current_sum small))
serve_file-sum_of rm clocks k seqn (value ∷ values) primary small =
    let state = (served-Adds rm (clocks k) seqn value primary).state in
    ap (λ (m : Manager). (serve_file m clocks (suc k) (next_seqn seqn) values).current_sum) state
    ∙ (serve_file-sum_of (record rm { current_sum = sum_with rm value; last_seqn = seqn }) clocks
          (suc k) (next_seqn seqn) values primary (wrap_int-IsInt _)
        ∙ (wrap_int-+ℤ (rm.current_sum +ℤ value) (sum_of values)
            ∙ ap wrap_int (+ℤ_assoc rm.current_sum value (sum_of values))))

send_file-requests :
    (nets : ℕ → Network) (clocks : ℕ → Clock) (from : SockAddr) (rm : Manager) (k : ℕ) (c : Client)
    (values : List ℤ)
    → rm.is_primary ≡ true
    → Brought nets clocks from rm k c.seqn values
    → All (λ (sum : ℤ). pos 0 ≤ℤ sum) (running_sums rm.current_sum values)
    → let r = send_file nets k c values in
      (r.shown ≡ running_sums rm.current_sum values) × (r.sent ≡ requests c.seqn values)
unfolding send_file running_sums requests continue
send_file-requests nets clocks from rm k c [] primary brought small = (refl, refl)
send_file-requests nets clocks from rm k c (value ∷ values) primary brought small =
    let state = (served-Adds rm (clocks k) c.seqn value primary).state in
    let one = submit-shows (nets k) c value from rm (clocks k) primary brought.0 small.0 in
    let rest =
      send_file-requests nets clocks from
        (record rm { current_sum = sum_with rm value; last_seqn = c.seqn }) (suc k)
        (record { seqn = next_seqn c.seqn; server_addr = from }) values primary
        (subst (λ (m : Manager). Brought nets clocks from m (suc k) (next_seqn c.seqn) values) state
          brought.1)
        small.1 in
    rw one (
      ap (λ (s : List ℤ). sum_with rm value ∷ s) rest.0,
      ap (λ (s : List RequestPacket). request c.seqn value ∷ s) rest.1,
    )

-- What a client that sends a file shows and sends, and the primary's sum at the end.
pub record Counted (rm : Manager) (c : Client) (values : List ℤ) (final : ℤ) (r : Sending)
    : Type 0 where
  pub shown : r.shown ≡ running_sums rm.current_sum values
  pub sent : r.sent ≡ requests c.seqn values
  pub total : final ≡ wrap_int (rm.current_sum +ℤ sum_of values)

-- Where the primary's answers all reach the client and no sum on the way is negative, the client
-- sends one request for each value of the file, with sequence numbers in order, and shows the sum
-- after each; at the end the primary's sum is the initial one plus the total of the file.
pub send_file-Counted :
    (nets : ℕ → Network) (clocks : ℕ → Clock) (from : SockAddr) (rm : Manager) (c : Client)
    (values : List ℤ)
    → rm.is_primary ≡ true
    → IsInt rm.current_sum
    → Brought nets clocks from rm 0 c.seqn values
    → All (λ (sum : ℤ). pos 0 ≤ℤ sum) (running_sums rm.current_sum values)
    → Counted rm c values
        (serve_file rm clocks 0 c.seqn values).current_sum
        (send_file nets 0 c values)
send_file-Counted nets clocks from rm c values primary int brought small =
    let (shows, sends) = send_file-requests nets clocks from rm 0 c values primary brought small in
    record {
      shown = shows;
      sent = sends;
      total = serve_file-sum_of rm clocks 0 c.seqn values primary int;
    }

-- The values before the first zero.
unfoldable pub up_to_zero : List ℤ → List ℤ
up_to_zero [] = []
up_to_zero (value ∷ values) =
    let rest = up_to_zero values in if value ==ℤ pos 0 then [] else value ∷ rest

-- Typing values does the same as sending a file of the values before the first zero.
pub send_typed-up_to_zero :
    (nets : ℕ → Network) (k : ℕ) (c : Client) (values : List ℤ)
    → send_typed nets k c values ≡ send_file nets k c (up_to_zero values)
unfolding send_typed send_file up_to_zero
send_typed-up_to_zero nets k c [] = refl
send_typed-up_to_zero nets k c (value ∷ values) = elim (Bool-cases (value ==ℤ pos 0)) [
  | inl stops ↦ rw stops refl
  | inr goes ↦ rw goes (
      ap (continue (submit (nets k) c value).verdict (submit (nets k) c value))
        (send_typed-up_to_zero nets (suc k) (submit (nets k) c value).client values))
]
