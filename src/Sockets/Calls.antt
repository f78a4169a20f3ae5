-- ===== src/Sockets/Calls.antt =====
-- The system calls on a socket, and what becomes of it through a list of them.
use threaded_network_adder.Base.{
  Bool, true, false, Option, none, some, List, [], ◌∷◌, if◌then◌else◌,
}
use threaded_network_adder.Net.{SockAddr}

pub data SockOption : Type 0 where
  reuse_addr broadcast receive_timeout : SockOption

pub data SysCall : Type 0 where
  open_socket : SysCall
  set_option : SockOption → SysCall
  bind_to : SockAddr → SysCall
  send_to : SockAddr → SysCall
  receive : SysCall
  close_socket : SysCall

-- How a function leaves its calls: it goes on to use the socket, it returns, the process exits, or
-- it writes behind the end of an array.
pub data Ending : Type 0 where
  ready returned exited overrun : Ending

pub record SetUp : Type 0 where
  pub calls : List SysCall
  pub ending : Ending

abbrev pub stop_after : List SysCall → Ending → SetUp
stop_after cs e = record { calls = cs; ending = e }

-- `if (call < 0) { failed } next`, where `works` says which calls succeed.
unfoldable pub attempt : (SysCall → Bool) → SysCall → SetUp → SetUp → SetUp
attempt works c failed next =
    let s = if works c then next else failed in record { calls = c ∷ s.calls; ending = s.ending }

-- Whether the socket is open after the calls, from whether it is before them. `none`: a call on a
-- socket that is not open, a second close, or a second socket in place of the first.
unfoldable pub open_after : (SysCall → Bool) → Bool → List SysCall → Option Bool
open_after works is_open [] = some is_open
open_after works true (open_socket ∷ cs) = none
open_after works false (open_socket ∷ cs) = open_after works (works open_socket) cs
open_after works true (close_socket ∷ cs) = open_after works false cs
open_after works true (c ∷ cs) = open_after works true cs
open_after works false (c ∷ cs) = none
