-- ===== src/Server/Service.antt =====
-- server_prot.c: the loops of the two services, and how they stop.
use threaded_network_adder.Base.{
  if◌then◌else◌, ℕ, Bool, true, Option, none, some, List, [], ◌∷◌, ◌++◌, ℤ, while_running,
}
use threaded_network_adder.Replication.Types.{Manager, Clock}
use threaded_network_adder.Server.Packet.{RequestPacket, ResponsePacket, Arrival}
use threaded_network_adder.Server.Request.{request_round, send_answer, discovery_round}

-- The manager and the answers that sendto took whole so far, oldest first.
pub record Serving : Type 0 where
  pub rm : Manager
  pub answers : List ResponsePacket

abbrev pub answers_of : Option ResponsePacket → List ResponsePacket
answers_of none = []
answers_of (some p) = p ∷ []

-- The end of a round: the answer is sent, in three attempts at most.
unfoldable pub answer_client : (ℕ → Bool) → Option ResponsePacket → List ResponsePacket
unfolding send_answer
answer_client sent_all none = []
answer_client sent_all (some p) = if (send_answer 3 0 sent_all).1 then p ∷ [] else []

-- `running`, the datagrams and what each call of sendto does are taken at the number of the round,
-- and so is what other threads do to the manager before it.
module _ (others : ℕ → Manager → Manager) (clocks : ℕ → Clock)
    (arrivals : ℕ → Arrival RequestPacket) (sends : ℕ → ℕ → Bool) where
  unfoldable pub serve_next : ℕ → Serving → Serving
  unfolding answer_client
  serve_next k s =
      let r = request_round (others k s.rm) (clocks k) (arrivals k) in
      record { rm = r.rm; answers = s.answers ++ answer_client (sends k) r.answer }

  unfoldable pub request_service : (ℕ → Bool) → ℕ → Manager → Option Serving
  unfolding serve_next
  request_service running tests rm =
      while_running running serve_next tests 0 (record { rm = rm; answers = [] })

-- while (1): the answers given to sendto so far, each once, whatever comes of it.
unfoldable pub discovery_service :
    ℤ → (ℕ → Arrival RequestPacket) → ℕ → Option (List ResponsePacket)
discovery_service port arrivals tests =
    while_running (λ _. true) (λ k sent. sent ++ answers_of (discovery_round port (arrivals k)))
      tests 0 []
