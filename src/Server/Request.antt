-- ===== src/Server/Request.antt =====
-- server_prot.c: the request service, which adds the clients' values to the replicated sum, and
-- the answers of the discovery service.
use threaded_network_adder.Base.{
  ℕ, zero, suc, Bool, true, false, Option, none, some, [], ◌++◌, ℤ, pos, ◌+ℤ◌, ◌==ℤ◌, wrap_int,
  if◌then◌else◌,
}
use threaded_network_adder.Replication.Types.{Manager, Effects, Clock}
use threaded_network_adder.Replication.State.{get_current_sum, update_state}
use threaded_network_adder.Server.Packet.{
  PacketType, desc, desc_ack, desc_server, req, req_ack, other, RequestPacket, ResponsePacket,
  Arrival, failed, short, whole,
}

-- What one round does: the manager after it, the replication traffic, and the answer to send.
pub record Served : Type 0 where
  pub rm : Manager
  pub effects : Effects
  pub answer : Option ResponsePacket

abbrev silent : Manager → Served
silent rm = record { rm = rm; effects = []; answer = none }

abbrev pub reply : ℤ → ℤ → ℤ → ResponsePacket
reply seqn value status = record {
  type = req_ack;
  resp = record { seqn = seqn; value = value; status = status };
}

-- A value from a client, at the primary: the sum is read, replaced and read again.
unfoldable pub add_value : Manager → Clock → ℤ → ℤ → Served
unfolding get_current_sum update_state wrap_int
add_value rm clock seqn value =
    let (current_sum, es) = get_current_sum rm in
    let (rm', fs, result) = update_state rm clock (wrap_int (current_sum +ℤ value)) seqn in
    let (new_sum, gs) = get_current_sum rm' in
    record {
      rm = rm';
      effects = es ++ (fs ++ gs);
      answer = some (reply seqn new_sum (if result ==ℤ pos 0 then pos 0 else pos 2));
    }

-- Any other server refuses it with status 1.
unfoldable pub refuse : Manager → ℤ → Served
unfolding get_current_sum
refuse rm seqn =
    let (current_sum, es) = get_current_sum rm in
    record { rm = rm; effects = es; answer = some (reply seqn current_sum (pos 1)) }

unfoldable pub process_request : Manager → Clock → ℤ → ℤ → Served
unfolding add_value refuse
process_request rm clock seqn value =
    if rm.is_primary then add_value rm clock seqn value else refuse rm seqn

unfoldable pub serve : PacketType → Manager → Clock → ℤ → ℤ → Served
unfolding process_request
serve req rm clock seqn value = process_request rm clock seqn value
serve desc rm clock seqn value = silent rm
serve desc_ack rm clock seqn value = silent rm
serve desc_server rm clock seqn value = silent rm
serve req_ack rm clock seqn value = silent rm
serve other rm clock seqn value = silent rm

-- One round of request_service, up to the answer.
unfoldable pub request_round : Manager → Clock → Arrival RequestPacket → Served
unfolding serve
request_round rm clock failed = silent rm
request_round rm clock short = silent rm
request_round rm clock (whole p) = serve p.type rm clock p.req.seqn p.req.value

-- The answer is sent until sendto reports all of it, `rounds` times at most: how often sendto is
-- called, and whether the answer went out. `sent_all k` is what sendto does the k-th time.
unfoldable pub send_answer : ℕ → ℕ → (ℕ → Bool) → ℕ × Bool
send_answer zero k sent_all = (k, false)
send_answer (suc rounds) k sent_all =
    let rest = send_answer rounds (suc k) sent_all in if sent_all k then (suc k, true) else rest

-- receive_and_decode_message: a whole packet of one of two types; `none` is the result -1.
abbrev of_known_type : PacketType → RequestPacket → Option RequestPacket
of_known_type req p = some p
of_known_type desc p = some p
of_known_type _ p = none

unfoldable pub receive_and_decode_message : Arrival RequestPacket → Option RequestPacket
receive_and_decode_message failed = none
receive_and_decode_message short = none
receive_and_decode_message (whole p) = of_known_type p.type p

-- The answer of discovery_service to a packet: a DESC packet gets the request port.
unfoldable pub discovery_answer : PacketType → ℤ → ℤ → Option ResponsePacket
discovery_answer desc port seqn = some (record {
  type = desc_ack;
  resp = record { seqn = seqn; value = wrap_int (port +ℤ pos 1); status = pos 0 };
})
discovery_answer _ port seqn = none

abbrev answer_decoded : ℤ → Option RequestPacket → Option ResponsePacket
answer_decoded port none = none
answer_decoded port (some p) = discovery_answer p.type port p.req.seqn

-- One round of discovery_service.
unfoldable pub discovery_round : ℤ → Arrival RequestPacket → Option ResponsePacket
discovery_round port a = answer_decoded port (receive_and_decode_message a)
