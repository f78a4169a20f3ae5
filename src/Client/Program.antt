-- ===== src/Client/Program.antt =====
-- client_main.c, and the thread of client.c that RunClient starts and waits for.
use mathlib.Core.Option
use threaded_network_adder.Base.{
  ℕ, suc, ◌<◌, ◌≡◌, refl, Bool, not, ◌&&◌, Option, none, some, List, ℤ, pos, ◌==ℤ◌, if◌then◌else◌,
  arith, while_running, after_rounds, ClearedAfter, while_running-ClearedAfter,
}
use threaded_network_adder.Net.{SockAddr}
use threaded_network_adder.Client.Menu.{Token, World}
use threaded_network_adder.Client.Loops.{Session, run_client}

-- The exit status with which SIGINT ends the client, whatever it is doing.
unfoldable pub handle_sigint : ℤ → ℤ
handle_sigint sig = pos 0

-- The seconds that ClientInputSubprocess sleeps until it finds `stop` set; `stop` is taken at each of
-- its tests.
unfoldable pub client_input_subprocess : (ℕ → Bool) → ℕ → Option ℕ
client_input_subprocess stop tests =
    while_running (λ k. not (stop k)) (λ _ seconds. suc seconds) tests 0 0

-- RunClient to its end: it waits for the thread where its loops are over, and not where it returns
-- before them or from the midst of them.
unfoldable pub wait_for_thread : Bool → Session → Option ℕ → Option Session
wait_for_thread ready s thread =
    if ready && s.socket_closed then Option.map (λ _. s) thread else some s

abbrev join_after : Bool → Option Session → Option ℕ → Option Session
join_after ready none thread = none
join_after ready (some s) thread = wait_for_thread ready s thread

-- The exit status; `none`: the client is not over by then.
unfoldable pub client_main :
    ℤ → Bool → World → ℕ → SockAddr → List Token → (ℕ → Bool) → ℕ → Option ℤ
client_main argc ready w rounds addr ts stop tests =
    if argc ==ℤ pos 2
    then Option.map (λ _. pos 0)
        (join_after ready (run_client ready w rounds addr ts) (client_input_subprocess stop tests))
    else some (pos 1)

-- The thread ends with the first test that finds `stop` set.
pub client_input_subprocess-ends :
    (stop : ℕ → Bool) (n tests : ℕ)
    → ClearedAfter (λ k. not (stop k)) n 0
    → n < tests
    → (seconds : ℕ) × (client_input_subprocess stop tests ≡ some seconds)
unfolding client_input_subprocess
client_input_subprocess-ends stop n tests set enough = (
  after_rounds (λ _ seconds. suc seconds) n 0 0,
  while_running-ClearedAfter (λ k. not (stop k)) (λ _ seconds. suc seconds) n tests 0 0 set enough,
)

wait_for_thread-some :
    (ready : Bool) (s : Session) (thread : Option ℕ) {seconds : ℕ}
    → thread ≡ some seconds
    → wait_for_thread ready s thread ≡ some s
unfolding wait_for_thread
wait_for_thread-some ready s thread e = rw e (ground arith)

-- Where RunClient gets through its loops, and the thread finds `stop` set, the client exits with 0.
pub client_main-exits :
    (ready : Bool) (w : World) (rounds : ℕ) (addr : SockAddr) (ts : List Token) {s : Session}
    (stop : ℕ → Bool) (n tests : ℕ)
    → run_client ready w rounds addr ts ≡ some s
    → ClearedAfter (λ k. not (stop k)) n 0
    → n < tests
    → client_main (pos 2) ready w rounds addr ts stop tests ≡ some (pos 0)
unfolding client_main ◌==ℤ◌
client_main-exits ready w rounds addr ts {s} stop n tests run set enough =
    let (seconds, over) = client_input_subprocess-ends stop n tests set enough in
    rw run (rw (wait_for_thread-some ready s (client_input_subprocess stop tests) over) refl)
