-- ===== src/Server/Accounting.antt =====
-- server_prot.c: what the loop of the request service adds and answers.
use mathlib.Core.List.{append-nil, append_assoc}
use threaded_network_adder.Base.{
  pos, ◌||◌, inl, inr, Bool-cases, if◌then◌else◌, ℕ, zero, suc, ◌<◌, if_cases, ◌≡◌, refl, sym, ap,
  ◌∙◌, subst, Bool, true, none, some, List, [], ◌∷◌, ◌++◌, ℤ, ◌+ℤ◌, IsInt, wrap_int, wrap_int-IsInt,
  wrap_int_of_IsInt, wrap_int-+ℤ, +ℤ_assoc, +ℤ_zero, arith, int_laws, after_rounds, ClearedAfter,
  while_running-ClearedAfter,
}
use threaded_network_adder.Replication.Types.{Manager, Clock}
use threaded_network_adder.Server.Packet.{
  PacketType, req, desc, desc_ack, desc_server, req_ack, other, RequestPacket, ResponsePacket,
  Arrival, failed, short, whole,
}
use threaded_network_adder.Server.Request.{
  Served, reply, request_round, process_request, serve, send_answer,
}
use threaded_network_adder.Server.Adder.{add_value_lem}
use threaded_network_adder.Server.Adder.{add_value_lem}
use threaded_network_adder.Server.Service.{Serving, answer_client, serve_next, request_service}

-- A request that arrives, and whether sendto takes one of the three answers to it.
pub record ClientRequest : Type 0 where
  pub seqn : ℤ
  pub value : ℤ
  pub answer_taken : Bool

abbrev request_of : PacketType → (ℕ → Bool) → RequestPacket → List ClientRequest
request_of req sent_all p =
    record {
      seqn = p.req.seqn;
      value = p.req.value;
      answer_taken = sent_all 0 || sent_all 1 || sent_all 2;
    }
    ∷ []
request_of _ sent_all p = []

abbrev pub requests_at : (ℕ → Bool) → Arrival RequestPacket → List ClientRequest
requests_at sent_all failed = []
requests_at sent_all short = []
requests_at sent_all (whole p) = request_of p.type sent_all p

-- The requests among `n` datagrams from the `k`-th on.
unfoldable pub requests_in :
    (ℕ → Arrival RequestPacket) → (ℕ → ℕ → Bool) → ℕ → ℕ → List ClientRequest
requests_in arrivals sends zero k = []
requests_in arrivals sends (suc n) k =
    requests_at (sends k) (arrivals k) ++ requests_in arrivals sends n (suc k)

unfoldable pub total_value : List ClientRequest → ℤ
total_value [] = pos 0
total_value (r ∷ rs) = r.value +ℤ total_value rs

-- The answers to requests that are served one after another from a given sum on: each carries the
-- number of its request, the sum after it and status 0.
unfoldable pub replies : ℤ → List ClientRequest → List ResponsePacket
replies sum [] = []
replies sum (r ∷ rs) =
    let new_sum = wrap_int (sum +ℤ r.value) in
    let others = replies new_sum rs in
    if r.answer_taken
    then record { type = req_ack; resp = record { seqn = r.seqn; value = new_sum; status = pos 0 } }
      ∷ others
    else others

total_value-append :
    (xs ys : List ClientRequest) → total_value (xs ++ ys) ≡ total_value xs +ℤ total_value ys
unfolding total_value
total_value-append [] ys = omega int_laws
total_value-append (x ∷ xs) ys =
    ap (λ (t : ℤ). x.value +ℤ t) (total_value-append xs ys)
    ∙ sym (+ℤ_assoc x.value (total_value xs) (total_value ys))

replies-append :
    (sum : ℤ) (xs ys : List ClientRequest)
    → IsInt sum
    → replies sum (xs ++ ys) ≡ replies sum xs ++ replies (wrap_int (sum +ℤ total_value xs)) ys
unfolding replies total_value
replies-append sum [] ys int =
    ap (λ (v : ℤ). replies v ys) (sym (ap wrap_int (+ℤ_zero sum) ∙ wrap_int_of_IsInt sum int))
replies-append sum (x ∷ xs) ys int =
    let same =
      replies-append (wrap_int (sum +ℤ x.value)) xs ys (wrap_int-IsInt (sum +ℤ x.value))
      ∙ ap (λ (v : ℤ). replies (wrap_int (sum +ℤ x.value)) xs ++ replies v ys)
          (wrap_int-+ℤ (sum +ℤ x.value) (total_value xs)
            ∙ ap wrap_int (+ℤ_assoc sum x.value (total_value xs))) in
    elim (Bool-cases x.answer_taken) [
      | inl taken ↦ rw taken (
          ap (λ (ps : List ResponsePacket). reply x.seqn (wrap_int (sum +ℤ x.value)) (pos 0) ∷ ps)
            same)
      | inr lost ↦ rw lost same
    ]

-- The answer goes out if one of the three attempts does.
send_answer-three :
    (sent_all : ℕ → Bool) → (send_answer 3 0 sent_all).1 ≡ (sent_all 0 || sent_all 1 || sent_all 2)
unfolding send_answer
send_answer-three sent_all = ground arith

-- A round at the primary.
record AddsAll (rm : Manager) (sent_all : ℕ → Bool) (rs : List ClientRequest) (r : Served)
    : Type 0 where
  stays : r.rm.is_primary ≡ true
  sum : r.rm.current_sum ≡ wrap_int (rm.current_sum +ℤ total_value rs)
  answers : answer_client sent_all r.answer ≡ replies rm.current_sum rs

nothing-AddsAll :
    (rm : Manager) (sent_all : ℕ → Bool)
    → rm.is_primary ≡ true
    → IsInt rm.current_sum
    → AddsAll rm sent_all [] (record { rm = rm; effects = []; answer = none })
unfolding total_value answer_client replies
nothing-AddsAll rm sent_all primary int = record {
  stays = primary;
  sum = sym (ap wrap_int (+ℤ_zero rm.current_sum) ∙ wrap_int_of_IsInt rm.current_sum int);
  answers = refl;
}

serve-AddsAll :
    (t : PacketType) (rm : Manager) (clock : Clock) (sent_all : ℕ → Bool) (p : RequestPacket)
    → rm.is_primary ≡ true
    → IsInt rm.current_sum
    → AddsAll rm sent_all (request_of t sent_all p) (serve t rm clock p.req.seqn p.req.value)
unfolding serve process_request total_value answer_client replies
serve-AddsAll req rm clock sent_all p primary int =
    if_cases (AddsAll rm sent_all (request_of req sent_all p)) rm.is_primary _ _
      (λ _.
        let (state, answer) = add_value_lem rm clock p.req.seqn p.req.value in
        record {
          stays = ap (λ (m : Manager). m.is_primary) state ∙ primary;
          sum =
              ap (λ (m : Manager). m.current_sum) state
              ∙ ap (λ (v : ℤ). wrap_int (rm.current_sum +ℤ v)) (sym (+ℤ_zero p.req.value));
          answers =
              ap (answer_client sent_all)
                (answer ∙ ap (λ (m : Manager). some (reply p.req.seqn m.current_sum (pos 0))) state)
              ∙ ap
                  (λ (b : Bool).
                    if b
                    then reply p.req.seqn (wrap_int (rm.current_sum +ℤ p.req.value)) (pos 0) ∷ []
                    else [])
                  (send_answer-three sent_all);
        })
      (λ replica. cc)
serve-AddsAll desc rm clock sent_all p primary int = nothing-AddsAll rm sent_all primary int
serve-AddsAll desc_ack rm clock sent_all p primary int = nothing-AddsAll rm sent_all primary int
serve-AddsAll desc_server rm clock sent_all p primary int = nothing-AddsAll rm sent_all primary int
serve-AddsAll req_ack rm clock sent_all p primary int = nothing-AddsAll rm sent_all primary int
serve-AddsAll other rm clock sent_all p primary int = nothing-AddsAll rm sent_all primary int

request_round-AddsAll :
    (rm : Manager) (clock : Clock) (sent_all : ℕ → Bool) (a : Arrival RequestPacket)
    → rm.is_primary ≡ true
    → IsInt rm.current_sum
    → AddsAll rm sent_all (requests_at sent_all a) (request_round rm clock a)
unfolding request_round
request_round-AddsAll rm clock sent_all failed primary int = nothing-AddsAll rm sent_all primary int
request_round-AddsAll rm clock sent_all short primary int = nothing-AddsAll rm sent_all primary int
request_round-AddsAll rm clock sent_all (whole p) primary int =
    serve-AddsAll p.type rm clock sent_all p primary int

-- What other threads do leaves the role and the sum alone.
abbrev pub KeepsSum : (Manager → Manager) → Type 0
KeepsSum f = (m : Manager) → ((f m).is_primary ≡ m.is_primary) × ((f m).current_sum ≡ m.current_sum)

-- The primary's sum and its answers after the requests.
pub record Accounts (s : Serving) (rs : List ClientRequest) (t : Serving) : Type 0 where
  pub sum : t.rm.current_sum ≡ wrap_int (s.rm.current_sum +ℤ total_value rs)
  pub answered : t.answers ≡ s.answers ++ replies s.rm.current_sum rs

module _ (others : ℕ → Manager → Manager) (clocks : ℕ → Clock)
    (arrivals : ℕ → Arrival RequestPacket) (sends : ℕ → ℕ → Bool)
    (keeps : (k : ℕ) → KeepsSum (others k)) where
  rounds-Accounts :
      (n k : ℕ) (s : Serving)
      → s.rm.is_primary ≡ true
      → IsInt s.rm.current_sum
      → Accounts s
          (requests_in arrivals sends n k)
          (after_rounds (serve_next others clocks arrivals sends) n k s)
  unfolding after_rounds requests_in total_value serve_next replies
  rounds-Accounts zero k s primary int = record {
    sum = sym (ap wrap_int (+ℤ_zero s.rm.current_sum) ∙ wrap_int_of_IsInt s.rm.current_sum int);
    answered = sym (append-nil s.answers);
  }
  rounds-Accounts (suc n) k s primary int =
      let (role, same) = keeps k s.rm in
      let one =
        request_round-AddsAll (others k s.rm) (clocks k) (sends k) (arrivals k) (role ∙ primary)
          (subst IsInt (sym same) int) in
      let rest =
        rounds-Accounts n (suc k) (serve_next others clocks arrivals sends k s) one.stays
          (subst IsInt (sym one.sum) (wrap_int-IsInt _)) in
      let r = request_round (others k s.rm) (clocks k) (arrivals k) in
      let now = requests_at (sends k) (arrivals k) in
      let later = requests_in arrivals sends n (suc k) in
      let sum_now = one.sum ∙ ap (λ (v : ℤ). wrap_int (v +ℤ total_value now)) same in
      record {
        sum =
            rest.sum
            ∙ (ap (λ (v : ℤ). wrap_int (v +ℤ total_value later)) sum_now
                ∙ (wrap_int-+ℤ (s.rm.current_sum +ℤ total_value now) (total_value later)
                    ∙ ap wrap_int (
                        +ℤ_assoc s.rm.current_sum (total_value now) (total_value later)
                        ∙ ap (λ (v : ℤ). s.rm.current_sum +ℤ v)
                            (sym (total_value-append now later)))));
        answered =
            rest.answered
            ∙ (append_assoc s.answers _ _
                ∙ ap (λ (ps : List ResponsePacket). s.answers ++ ps)
                    (ap (λ (ps : List ResponsePacket). ps ++ replies r.rm.current_sum later)
                        (one.answers ∙ ap (λ (v : ℤ). replies v now) same)
                      ∙ (ap (λ (v : ℤ). replies s.rm.current_sum now ++ replies v later) sum_now
                          ∙ sym (replies-append s.rm.current_sum now later int))));
      }

  -- Where `running` is cleared after some rounds, the request service ends with the test that finds
  -- it so. Let a primary's sum be an int, and its other threads meanwhile leave its role and its sum
  -- alone. Then its sum is by then the initial one plus the total of the requests that arrived,
  -- wrapped once to an int, and the answers that went out are, in order, one to each request for
  -- which sendto succeeded in one of three attempts, with the number of the request, the sum after
  -- it and status 0.
  pub request_service-Accounts :
      (running : ℕ → Bool) (n tests : ℕ) (rm : Manager)
      → ClearedAfter running n 0
      → n < tests
      → rm.is_primary ≡ true
      → IsInt rm.current_sum
      → (end : Serving) × (request_service others clocks arrivals sends running tests rm ≡ some end)
        × Accounts (record { rm = rm; answers = [] }) (requests_in arrivals sends n 0) end
  unfolding request_service
  request_service-Accounts running n tests rm cleared enough primary int =
      let s : Serving = record { rm = rm; answers = [] } in
      (
        after_rounds (serve_next others clocks arrivals sends) n 0 s,
        while_running-ClearedAfter running (serve_next others clocks arrivals sends) n tests 0 s
            cleared enough,
        rounds-Accounts n 0 s primary int,
      )
