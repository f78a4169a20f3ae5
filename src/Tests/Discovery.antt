-- ===== src/Tests/Discovery.antt =====
-- The discovery module, at fixed inputs.
use threaded_network_adder.Base.{
  any, ◌≡◌, refl, true, false, ℕ, zero, suc, List, [], ◌∷◌, ◌++◌, ℤ, pos, length, ◌≤◌, not, arith,
}
use threaded_network_adder.Base
use threaded_network_adder.Net.{loopback, ntohs}
use threaded_network_adder.Client.Search.{Probe, answered, discover_server, base_port}
use threaded_network_adder.Client.Ports.{Misses}
use threaded_network_adder.Server.Packet.{desc_ack}
use threaded_network_adder.Discovery.Clients.{
  InternalClientInfo, max_clients, add_new_client, is_stale, cleanup_clients,
}
use threaded_network_adder.Discovery.Cleanup.{
  filter, cleanup_clients-filter, empty, enters, cleans, length-Reaches,
}
use threaded_network_adder.Discovery.Service.{
  announcement, packet, handle_discovery_packet, handle_type, discovery_service_round,
}
use threaded_network_adder.Discovery.Announced.{StandsAt, announcement-StandsAt}
use threaded_network_adder.Discovery.Ports.{discover_server-handle_discovery_packet, first_answer}
use threaded_network_adder.Discovery.Rounds.{RoundEnds, discovery_service_round-RoundEnds}
use threaded_network_adder.Tests.Data.{noon, primary, sender}

-- The second of three clients was seen too long ago.
abbrev seen_at : ℕ → InternalClientInfo
seen_at n = record { addr = sender; last_seen = pos n }

abbrev three : List InternalClientInfo
three = seen_at 100 ∷ seen_at 90 ∷ seen_at 99 ∷ []

cleanup_clients-filter_example :
    cleanup_clients (pos 100) three ≡ filter (λ c. not (is_stale (pos 100) c)) three
cleanup_clients-filter_example = cleanup_clients-filter (pos 100) three

three_run : cleanup_clients (pos 100) three ≡ seen_at 100 ∷ seen_at 99 ∷ []
unfolding cleanup_clients Base.◌-ℤ◌
three_run = refl

length-Reaches_example :
    length (cleanup_clients (pos 100) (add_new_client [] (pos 99) loopback (pos 7))) ≤ max_clients
length-Reaches_example = length-Reaches (cleans (pos 100) (enters (pos 99) loopback (pos 7) empty))

announcement-StandsAt_example :
    StandsAt loopback 2001 2005
      (handle_discovery_packet
        (pos 2001)
        primary
        noon
        (packet (announcement (pos 2005) (pos 0)) sender)).rm.replicas
unfolding any ntohs Base.◌==ℤ◌
announcement-StandsAt_example =
    announcement-StandsAt primary noon sender 2001 2005 (pos 0) (omega arith) (omega arith)
      (omega arith) refl

abbrev silent_value : ℕ → Probe
silent_value port = answered desc_ack (pos 0) 9

none_before : Misses 0 base_port silent_value
none_before k h = absurd (omega arith)

discover_server-handle_discovery_packet_example :
    (discover_server true silent_value sender).request_port ≡ pos 0
unfolding handle_discovery_packet handle_type first_answer
discover_server-handle_discovery_packet_example =
    discover_server-handle_discovery_packet true 0 9 silent_value sender sender (pos 2001) primary
      noon refl (omega arith) none_before refl

discovery_service_round-RoundEnds_example :
    RoundEnds primary noon
      (discovery_service_round
        (pos 2001)
        primary
        noon
        three
        (pos 100)
        true
        (packet (announcement (pos 2005) (pos 0)) sender)).0
discovery_service_round-RoundEnds_example =
    discovery_service_round-RoundEnds (pos 2001) primary noon three (pos 100) true
      (packet (announcement (pos 2005) (pos 0)) sender)
