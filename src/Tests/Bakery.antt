-- ===== src/Tests/Bakery.antt =====
-- Runs of the bakery in a given order of the threads, and its theorems at some of them.
use native.Mathlib.Decide.{dec_lt, ℕ_discrete}
use mathlib.Core.List.{foldl}
use threaded_network_adder.Base.{
  ℕ, ◌≡◌, inl, inr, refl, arith, Bool, true, false, Option, none, some, List, ◌++◌, ◌⊎◌, put,
  replicate,
}
use threaded_network_adder.Bakery.{
  Memory, Move, choose, read_first, read_greater, read_smaller, read_again, give, store, enter_scan,
  spin, not_choosing, no_ticket, has_ticket, is_less, not_less, is_before, not_equal, not_before,
  load, add, unlock, scan, again, clear, lamport_mutex_init, pick, System, Runs, start, later,
  Leads, all_done, Pc, idle, chosen, reading, rereading, returned, stored, wait_choosing,
  wait_ticket, wait_less, wait_equal, adding, add_store, leaving, done, critical, mutual_exclusion,
  accumulator-all_done, Runs-finish,
}

abbrev either : (b : Bool) → (b ≡ true) ⊎ (b ≡ false)
either true = inl refl
either false = inr refl

-- What the caller of max_ticket gets: `answer max`, in a build where that is always the same.
abbrev Answer : (ℕ → ℕ) → ℕ → ℕ → Type 0
Answer answer max r = r ≡ answer max

module _ (n n_iterations : ℕ) (answer : ℕ → ℕ) where
  record Moved (i : ℕ) (m : Memory) (p : Pc) : Type 0 where
    memory : Memory
    pc : Pc
    move : Move n n_iterations (Answer answer) i m p memory pc

  record Run : Type 0 where
    last : System n n_iterations (Answer answer)
    runs : Runs n n_iterations (Answer answer) last

  next_move : (i : ℕ) (m : Memory) (p : Pc) → Option (Moved i m p)
  unfolding ℕ_discrete dec_lt
  next_move i m idle = some (record { memory = _; pc = _; move = choose })
  next_move i m chosen = some (record { memory = _; pc = _; move = read_first })
  next_move i m (reading k max) = elim (dec_lt k n) [
    | yes more ↦ elim (dec_lt max (m.ticket k)) [
      | yes greater ↦ some (record { memory = _; pc = _; move = read_greater more greater })
      | no smaller ↦ some (record { memory = _; pc = _; move = read_smaller more (omega arith) })
    ]
    | no over ↦ some (record { memory = _; pc = _; move = give (omega arith) refl })
  ]
  next_move i m (rereading k max) = some (record { memory = _; pc = _; move = read_again })
  next_move i m (returned r) = some (record { memory = _; pc = _; move = store })
  next_move i m stored = some (record { memory = _; pc = _; move = enter_scan })
  next_move i m (wait_choosing j) = elim (either (m.choosing j)) [
    | inl b ↦ some (record { memory = _; pc = _; move = spin b })
    | inr b ↦ some (record { memory = _; pc = _; move = not_choosing b })
  ]
  next_move i m (wait_ticket j) = elim (ℕ_discrete (m.ticket j) 0) [
    | yes b ↦ some (record { memory = _; pc = _; move = no_ticket b })
    | no b ↦ some (record { memory = _; pc = _; move = has_ticket b })
  ]
  next_move i m (wait_less j) = elim (dec_lt (m.ticket j) (m.ticket i)) [
    | yes b ↦ some (record { memory = _; pc = _; move = is_less b })
    | no b ↦ some (record { memory = _; pc = _; move = not_less (omega arith) })
  ]
  next_move i m (wait_equal j) = elim (ℕ_discrete (m.ticket j) (m.ticket i)) [
    | yes b ↦ elim (dec_lt j i) [
      | yes c ↦ some (record { memory = _; pc = _; move = is_before b c })
      | no c ↦ some (record { memory = _; pc = _; move = not_before b (omega arith) })
    ]
    | no b ↦ some (record { memory = _; pc = _; move = not_equal b })
  ]
  next_move i m (adding c) = some (record { memory = _; pc = _; move = load })
  next_move i m (add_store c a) = some (record { memory = _; pc = _; move = add })
  next_move i m leaving = some (record { memory = _; pc = _; move = unlock })
  next_move i m done = none

  turn : Run → ℕ → Run
  unfolding dec_lt
  turn r i = elim (dec_lt i n) [
    | yes l ↦ elim (next_move i r.last.memory (r.last.pc i)) [
      | some moved ↦ record { last = _; runs = later r.runs (pick i l moved.move) }
      | none ↦ r
    ]
    | no _ ↦ r
  ]

  -- From globals that are all zero, the threads take turns in the given order.
  run : List ℕ → Run
  run order =
      foldl turn
        (record {
          last = _;
          runs = start (record { choosing = λ i. false; ticket = λ i. 0; accumulator = 0 });
        })
        order

abbrev right : ℕ → ℕ
right max = max

-- Thread 1 is in its critical section, and thread 0 waits for it.
abbrev contended : Run 3 3000000 right
contended = run 3 3000000 right (replicate 30 1 ++ replicate 31 0)

contended_state : (critical (contended.last.pc 1) ≡ true) × (contended.last.pc 0 ≡ wait_ticket 1)
unfolding run next_move turn put clear lamport_mutex_init scan again critical
contended_state = (refl, refl)

mutual_exclusion_example : ◌≡◌ {A = ℕ} 1 1
unfolding run next_move turn put clear lamport_mutex_init scan again critical
mutual_exclusion_example =
    mutual_exclusion (λ max r e. e) contended.runs 1 1 (omega arith) (omega arith) refl refl

-- Two threads of two iterations, one after the other.
abbrev over : Run 2 2 right
over = run 2 2 right (replicate 40 1 ++ replicate 40 0)

accumulator-all_done_example : over.last.memory.accumulator ≡ 4
unfolding run next_move turn put clear lamport_mutex_init scan again all_done
accumulator-all_done_example = accumulator-all_done (λ max r e. e) over.runs refl

Runs-finish_example :
    (t : System 3 3000000 (Answer right)) × Leads 3 3000000 (Answer right) contended.last t
    × (all_done t.pc 3 ≡ true)
    × (t.memory.accumulator ≡ 9000000)
Runs-finish_example = Runs-finish (λ max r e. e) (λ max. refl) (omega arith) contended.runs

-- Where the caller gets 0 whatever max_ticket computed, threads 1 and 0 take the same ticket, and
-- thread 0 enters while thread 1 is in.
abbrev zeroed : Run 3 3000000 (λ max. 0)
zeroed = run 3 3000000 (λ max. 0) (replicate 30 1 ++ replicate 31 0)

no_return_value :
    (s : System 3 3000000 (Answer (λ max. 0))) × Runs 3 3000000 (Answer (λ max. 0)) s
    × (critical (s.pc 0) ≡ true)
    × (critical (s.pc 1) ≡ true)
unfolding run next_move turn put clear lamport_mutex_init scan again critical
no_return_value = (zeroed.last, zeroed.runs, refl, refl)
