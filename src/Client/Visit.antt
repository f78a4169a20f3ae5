-- ===== src/Client/Visit.antt =====
-- client.c and server_prot.c together, from the start of RunClient to its end: a user who looks for
-- a server, names a file and leaves.
use mathlib.Core.List.{append-nil}
use threaded_network_adder.Base
use threaded_network_adder.Base.{
  ℕ, suc, ◌+◌, ◌<◌, ◌≡◌, refl, ap, sym, ◌∙◌, arith, true, some, List, [], ◌∷◌, ◌++◌, ℤ, pos, ◌+ℤ◌,
  ◌≤ℤ◌, wrap_int, All, IsInt, Option,
}
use threaded_network_adder.Net.{SockAddr}
use threaded_network_adder.Replication.Types.{Manager, Clock}
use threaded_network_adder.Server.Packet.{whole}
use threaded_network_adder.Server.Request.{discovery_round}
use threaded_network_adder.Client.Search.{Search, max_servers, base_port, discover_server}
use threaded_network_adder.Client.Session.{Client, Sending, to_port, send_file}
use threaded_network_adder.Client.Menu.{
  Token, number, newline, World, file_values, scan_int, skip_line, first_option, first_menu,
}
use threaded_network_adder.Client.Loops.{
  Session, second_menus, first_menus, run_client, quiet, after_sending,
}
use threaded_network_adder.Client.Typing.{IsText, second_menus-file}
use threaded_network_adder.Client.Ports.{Misses}
use threaded_network_adder.Client.Meeting.{
  Met, discovery_packet, server_port, brought, discover_server-Met,
}
use threaded_network_adder.Client.Sums.{
  Counted, Brought, running_sums, requests, sum_of, serve_file, send_file-Counted,
}

-- Option 1 of the first menu; option 2 of the second, with the name of a file; option 3.
abbrev pub file_session : List Token → List Token
file_session name =
    number (pos 1) ∷ newline ∷ number (pos 2) ∷ newline ∷ name ++ newline ∷ number (pos 3) ∷ []

abbrev pub broadcast : SockAddr → SockAddr
broadcast addr = record addr { s_addr = 0xffff_ffff }

-- How RunClient ends, and the primary's sum.
pub record Visited (rm : Manager) (values : List ℤ) (final : ℤ) (o : Option Session) : Type 0 where
  pub session : Session
  pub ends : o ≡ some session
  pub closed : session.socket_closed ≡ true
  pub shown : session.shown ≡ running_sums rm.current_sum values
  pub sent : session.sent ≡ requests (pos 1) values
  pub total : final ≡ wrap_int (rm.current_sum +ℤ sum_of values)

module _ (w : World) (rounds : ℕ) (c : Client) (name : List Token) where
  abbrev searched : Search
  searched =
      discover_server (w.search_ready (suc (suc rounds))) (w.search_probe (suc (suc rounds)))
        (broadcast c.server_addr)

  abbrev connected_to : ℕ → Client
  connected_to k = record c {
    server_addr = to_port searched.server_addr (pos (suc (server_port k)));
  }

  connected :
      (k host : ℕ)
      → Met k host searched
      → first_menus w (suc (suc (suc rounds))) c (file_session name)
        ≡ second_menus w w.nets
            (suc (suc rounds))
            (connected_to k)
            (number (pos 2) ∷ newline ∷ name ++ newline ∷ number (pos 3) ∷ [])
  unfolding first_menus first_menu scan_int skip_line first_option Base.◌==ℤ◌
  connected k host met =
      let up : pos (server_port k + 1) ≡ pos (suc (server_port k)) = ground arith in
      rw (met.port ∙ up, first_menus) refl

-- A user runs the client, has it look for a server, names a file that opens, and leaves. Where no
-- server answers below the k-th base port and the answer of the one there comes, and the requests
-- are served by a primary whose sum is an int, whose answers all reach the client and whose sums
-- on the way are not negative, the client ends with its socket closed, has sent one request for
-- each value of the file, numbered from 1, and shown the sum after each; the sum of the primary
-- ends as the initial one plus the total of the file, wrapped to an int.
pub run_client-Visited :
    (w : World) (rounds : ℕ) (addr : SockAddr) (name : List Token) {contents : List Token}
    (k host : ℕ) (clocks : ℕ → Clock) (from : SockAddr) (rm : Manager)
    → All IsText name
    → w.open_file name ≡ some contents
    → w.search_ready (suc (suc rounds)) ≡ true
    → k < max_servers
    → Misses k base_port (w.search_probe (suc (suc rounds)))
    → w.search_probe (suc (suc rounds)) (server_port k)
      ≡ brought host (discovery_round (pos (server_port k)) (whole discovery_packet))
    → rm.is_primary ≡ true
    → IsInt rm.current_sum
    → Brought (w.nets (suc rounds)) clocks from rm 0 (pos 1) (file_values contents)
    → All (λ (sum : ℤ). pos 0 ≤ℤ sum) (running_sums rm.current_sum (file_values contents))
    → Visited rm
        (file_values contents)
        (serve_file rm clocks 0 (pos 1) (file_values contents)).current_sum
        (run_client true w (suc (suc (suc rounds))) addr (file_session name))
unfolding run_client
run_client-Visited w rounds addr name {contents} k host clocks from rm text opens ready small before
      answer primary int answers positive =
    record {
      session = after_sending s (quiet s.client true);
      ends =
          connected w rounds c name k host met
          ∙ second_menus-file w w.nets rounds there name [] text opens;
      closed = refl;
      shown = append-nil s.shown ∙ counted.shown;
      sent = append-nil s.sent ∙ counted.sent;
      total = counted.total;
    }
  where
    c : Client
    c = record { seqn = pos 1; server_addr = addr }

    met : Met k host (searched w rounds c name)
    met =
        discover_server-Met (w.search_ready (suc (suc rounds))) k host
          (w.search_probe (suc (suc rounds))) (broadcast addr) ready small before answer

    there : Client
    there = connected_to w rounds c name k

    s : Sending
    s = send_file (w.nets (suc rounds)) 0 there (file_values contents)

    counted :
        Counted rm there
          (file_values contents)
          (serve_file rm clocks 0 (pos 1) (file_values contents)).current_sum
          s
    counted =
        send_file-Counted (w.nets (suc rounds)) clocks from rm there (file_values contents) primary
          int answers positive
