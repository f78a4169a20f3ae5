-- ===== src/Client/Loops.antt =====
-- client.c: the loops of RunClient around its two menus, and how it ends.
use mathlib.Core.Option
use threaded_network_adder.Base.{
  ℕ, zero, suc, Bool, true, false, Option, none, some, List, [], ◌++◌, ℤ, pos, if◌then◌else◌,
}
use threaded_network_adder.Net.{SockAddr}
use threaded_network_adder.Server.Packet.{RequestPacket}
use threaded_network_adder.Client.Search.{discover_server}
use threaded_network_adder.Client.Session.{Network, Client, Sending, to_port}
use threaded_network_adder.Client.Menu.{
  Token, World, left_open, leaves, asks_again, connects, first_menu, leaves_too, goes_round, sends,
  second_menu,
}

-- What RunClient has done where it returns.
pub record Session : Type 0 where
  pub client : Client
  pub shown : List ℤ
  pub sent : List RequestPacket
  pub socket_closed : Bool

abbrev pub quiet : Client → Bool → Session
quiet c closed = record { client = c; shown = []; sent = []; socket_closed = closed }

abbrev pub after_sending : Sending → Session → Session
after_sending s rest = record rest { shown = s.shown ++ rest.shown; sent = s.sent ++ rest.sent }

-- The second menu, for the given number of rounds: it goes round until `stop` is set, with which
-- RunClient ends as well. `none`: it is not over by then.
unfoldable pub second_menus : World → (ℕ → ℕ → Network) → ℕ → Client → List Token → Option Session
second_menus w nets zero c ts = none
second_menus w nets (suc rounds) c ts = elim (second_menu w (nets rounds) c ts) [
  | leaves_too ↦ some (quiet c true)
  | goes_round rest ↦ second_menus w nets rounds c rest
  | sends s none ↦ none
  | sends s (some rest) ↦ Option.map (after_sending s) (second_menus w nets rounds s.client rest)
]

-- The first menu. `search_ready`, `search_probe` and `nets` are taken at the number of rounds left.
unfoldable pub first_menus : World → ℕ → Client → List Token → Option Session
first_menus w zero c ts = none
first_menus w (suc rounds) c ts = elim (first_menu w c.server_addr ts) [
  | left_open ↦ some (quiet c false)
  | leaves ↦ some (quiet c true)
  | asks_again rest ↦ first_menus w rounds c rest
  | connects addr rest ↦
      let s = discover_server (w.search_ready rounds) (w.search_probe rounds) addr in
      let moved = record c { server_addr = s.server_addr } in
      elim (s.request_port) [
        | pos (suc p) ↦
            second_menus w w.nets rounds
              (record c { server_addr = to_port s.server_addr (pos (suc p)) }) rest
        | _ ↦ first_menus w rounds moved rest
      ]
]

-- RunClient. `ready`: its thread was started, its socket opened and the timeout set; where one of
-- these failed, a socket that was opened is closed. The sequence number begins at 1, and the
-- address is what the variable holds.
unfoldable pub run_client : Bool → World → ℕ → SockAddr → List Token → Option Session
run_client ready w rounds addr ts =
    if ready then first_menus w rounds fresh ts else some (quiet fresh true)
  where
    fresh : Client
    fresh = record { seqn = pos 1; server_addr = addr }
