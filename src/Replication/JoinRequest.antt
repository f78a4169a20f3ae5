-- ===== src/Replication/JoinRequest.antt =====
-- send_join_request ends, and what the server has then.
use threaded_network_adder.Base.{
  ℕ, zero, suc, ◌+◌, ◌≤◌, ◌≡◌, refl, inl, inr, arith, true, false, Option, none, some, [], ℤ, pos,
  negsuc, ◌-ℤ◌, ◌+ℤ◌, ◌≤ℤ◌, ltb_ℤ, Bool-cases, Option-cases, -ℤ_parts, +ℤ_parts, mutex_after,
}
use threaded_network_adder.Replication.Types.{Message, Manager, Datagram, Clock}
use threaded_network_adder.Replication.Receiver.{Arrival}
use threaded_network_adder.Replication.Joining.{
  take_state, initial_state, Joined, joined, retried, join_loop, join_request, send_join_request,
}

module _ (rm : Manager) (d : Datagram) (clock : Clock) (start : ℤ) (reply : ℕ → Arrival) where
  -- What a call leaves: the state of a STATE_UPDATE that came, or everything as it was.
  pub data Outcome : Joined → Type 0 where
    given :
        {j : Joined} (k : ℕ) (msg : Message)
        → initial_state (reply k) ≡ some msg
        → j.rm ≡ take_state rm msg
        → j.result ≡ pos 0
        → Outcome j
    given_up : {j : Joined} → j.rm ≡ rm → j.result ≡ negsuc 0 → Outcome j

  retried-Outcome : (j : Joined) → Outcome j → Outcome (retried d j)
  retried-Outcome j (given k msg e f g) = given k msg e f g
  retried-Outcome j (given_up e f) = given_up e f

  late : (k : ℕ) → 10 ≤ k → start +ℤ pos k ≤ℤ clock k → ltb_ℤ (clock k -ℤ start) (pos 10) ≡ false
  late k ten h = ground (arith, -ℤ_parts (clock k) start, +ℤ_parts start (pos k))

  -- The loop ends with a result, and leaves the mutex free.
  abbrev pub Ends : Option Joined → Type 0
  Ends o = (j : Joined) × (o ≡ some j) × Outcome j × (mutex_after false j.effects ≡ some false)

  over :
      (rounds k : ℕ)
      → ltb_ℤ (clock k -ℤ start) (pos 10) ≡ false
      → Ends (join_loop rm d clock start reply (suc rounds) k)
  unfolding join_loop mutex_after
  over rounds k e =
      (record { rm = rm; effects = []; result = negsuc 0 }, rw e, given_up refl refl, refl)

  answered :
      (rounds k : ℕ) {msg : Message}
      → ltb_ℤ (clock k -ℤ start) (pos 10) ≡ true
      → initial_state (reply k) ≡ some msg
      → Ends (join_loop rm d clock start reply (suc rounds) k)
  unfolding join_loop mutex_after
  answered rounds k {msg} e f = (joined rm msg d, rw (e, f), given k msg f refl refl, refl)

  unanswered :
      (rounds k : ℕ)
      → ltb_ℤ (clock k -ℤ start) (pos 10) ≡ true
      → initial_state (reply k) ≡ none
      → Ends (join_loop rm d clock start reply rounds (suc k))
      → Ends (join_loop rm d clock start reply (suc rounds) k)
  unfolding join_loop mutex_after
  unanswered rounds k e f (j, g, outcome, free) =
      (retried d j, rw (e, f, g), retried-Outcome j outcome, free)

  module _ (passes : (k : ℕ) → start +ℤ pos k ≤ℤ clock k) where
    join_loop-Ends :
        (rounds k : ℕ) → 10 ≤ rounds + k → Ends (join_loop rm d clock start reply (suc rounds) k)
    join_loop-Ends zero k enough = over 0 k (late k (omega arith) (passes k))
    join_loop-Ends (suc rounds) k enough = elim (Bool-cases (ltb_ℤ (clock k -ℤ start) (pos 10))) [
      | inr e ↦ over (suc rounds) k e
      | inl e ↦ elim (Option-cases (initial_state (reply k))) [
        | inl f ↦ unanswered (suc rounds) k e f (join_loop-Ends rounds (suc k) (omega arith))
        | inr (msg, f) ↦ answered (suc rounds) k e f
      ]
    ]

-- If each round of the loop in send_join_request takes a second or more, the call ends: it leaves
-- the mutex free, and either takes the state of a STATE_UPDATE that came, whatever its number, and
-- returns 0, or changes nothing and returns -1.
pub send_join_request-Ends :
    (rm : Manager) (now start : ℤ) (clock : Clock) (reply : ℕ → Arrival)
    → ((k : ℕ) → start +ℤ pos k ≤ℤ clock k)
    → Ends rm (join_request rm now) clock start reply (send_join_request rm now start clock reply)
unfolding send_join_request
send_join_request-Ends rm now start clock reply passes =
    join_loop-Ends rm (join_request rm now) clock start reply passes 10 0 (omega arith)
