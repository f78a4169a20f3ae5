-- ===== src/Bakery/Ranges.antt =====
-- No ticket is greater than the number of tickets taken, and what the threads have counted.
use threaded_network_adder.Base.{ℕ, suc, ◌+◌, ◌≤◌, ◌<◌, ◌≡◌, refl, arith, ltb, ◌==◌, if_intro}
use threaded_network_adder.Bakery.Lock.{
  Memory, Move, read_first, read_greater, read_smaller, read_again, give, enter_scan, no_ticket,
  not_equal, not_before, load, add, scan, again, Pc, idle, chosen, reading, rereading, returned,
  adding, add_store, leaving, done,
}

-- 1 from the assignment of the ticket on.
unfoldable pub given : Pc → ℕ
given idle = 0
given chosen = 0
given (reading k max) = 0
given (rereading k max) = 0
given (returned r) = 0
given _ = 1

-- The iterations that are over.
unfoldable pub made : ℕ → Pc → ℕ
made n_iterations (adding c) = c
made n_iterations (add_store c a) = c
made n_iterations leaving = n_iterations
made n_iterations done = n_iterations
made n_iterations _ = 0

-- The locals of a thread, where `top` tickets are taken, of `n` threads.
unfoldable pub InRange : ℕ → ℕ → Pc → Type 0
InRange n top (reading k max) = max ≤ top
InRange n top (rereading k max) = (max ≤ top) × (k < n)
InRange n top (returned r) = r ≤ top
InRange n top _ = Unit

-- The accumulator as the thread read it is what it is now.
unfoldable pub IsLoaded : ℕ → Pc → Type 0
IsLoaded accumulator (add_store c a) = a ≡ accumulator
IsLoaded accumulator _ = Unit

pub InRange-mono : (n : ℕ) {top top' : ℕ} (p : Pc) → top ≤ top' → InRange n top p → InRange n top' p
unfolding InRange
InRange-mono n p le h = ground arith

made-again : (n_iterations c : ℕ) → made n_iterations (again n_iterations c) ≡ c
unfolding made again
made-again n_iterations c = ground arith

made-scan : (n n_iterations j : ℕ) → made n_iterations (scan n j) ≡ 0
unfolding made scan
made-scan n n_iterations j = ground arith

given-scan : (n j : ℕ) → given (scan n j) ≡ 1
unfolding given scan
given-scan n j = ground arith

given-again : (n j : ℕ) → given (again n j) ≡ 1
unfolding given again
given-again n j = ground arith

module _ {n n_iterations a : ℕ} {Returns : ℕ → ℕ → Type 0} {m : Memory} where
  pub given-mover :
      {p p' : Pc} {m' : Memory} → Move n n_iterations Returns a m p m' p' → given p ≤ given p'
  unfolding given
  given-mover enter_scan = omega (arith, given-scan n 0)
  given-mover (no_ticket {j} e) = omega (arith, given-scan n (suc j))
  given-mover (not_equal {j} e) = omega (arith, given-scan n (suc j))
  given-mover (not_before {j} e le) = omega (arith, given-scan n (suc j))
  given-mover (add {c}) = omega (arith, given-again n_iterations (suc c))
  given-mover _ = omega arith

  -- What the threads have made in all changes with the accumulator.
  pub made-mover :
      {p p' : Pc} {m' : Memory}
      → Move n n_iterations Returns a m p m' p'
      → IsLoaded m.accumulator p
      → made n_iterations p' + m.accumulator ≡ made n_iterations p + m'.accumulator
  unfolding made IsLoaded
  made-mover enter_scan l = omega (arith, made-scan n n_iterations 0)
  made-mover (no_ticket {j} e) l = omega (arith, made-scan n n_iterations (suc j))
  made-mover (not_equal {j} e) l = omega (arith, made-scan n n_iterations (suc j))
  made-mover (not_before {j} e le) l = omega (arith, made-scan n n_iterations (suc j))
  made-mover (add {c}) l = omega (arith, made-again n_iterations (suc c))
  made-mover _ l = omega arith

  pub InRange-mover :
      {p p' : Pc} {m' : Memory} {top : ℕ} (gives : (max r : ℕ) → Returns max r → r ≡ max)
      → Move n n_iterations Returns a m p m' p'
      → a < n
      → ((k : ℕ) → k < n → m.ticket k ≤ top)
      → InRange n top p
      → InRange n top p'
  unfolding InRange scan again
  InRange-mover gives read_first lt small h = small 0 (omega arith)
  InRange-mover gives (read_greater below g) lt small h = (h, below)
  InRange-mover gives (read_smaller below g) lt small h = h
  InRange-mover gives (read_again {k}) lt small h = small k h.1
  InRange-mover gives (give {max} {r} e given) lt small h = omega (arith, gives max r given)
  InRange-mover {top} gives enter_scan lt small h = if_intro (InRange n top) (ltb 0 n) _ _ tt tt
  InRange-mover {top} gives (no_ticket {j} e) lt small h =
      if_intro (InRange n top) (ltb (suc j) n) _ _ tt tt
  InRange-mover {top} gives (not_equal {j} e) lt small h =
      if_intro (InRange n top) (ltb (suc j) n) _ _ tt tt
  InRange-mover {top} gives (not_before {j} e le) lt small h =
      if_intro (InRange n top) (ltb (suc j) n) _ _ tt tt
  InRange-mover {top} gives (add {c}) lt small h =
      if_intro (InRange n top) (suc c == n_iterations) _ _ tt tt
  InRange-mover gives _ lt small h = tt

  pub IsLoaded-mover :
      {p p' : Pc} {m' : Memory}
      → Move n n_iterations Returns a m p m' p'
      → IsLoaded m.accumulator p
      → IsLoaded m'.accumulator p'
  unfolding IsLoaded scan again
  IsLoaded-mover load h = refl
  IsLoaded-mover enter_scan h = if_intro (IsLoaded m.accumulator) (ltb 0 n) _ _ tt tt
  IsLoaded-mover (no_ticket {j} e) h = if_intro (IsLoaded m.accumulator) (ltb (suc j) n) _ _ tt tt
  IsLoaded-mover (not_equal {j} e) h = if_intro (IsLoaded m.accumulator) (ltb (suc j) n) _ _ tt tt
  IsLoaded-mover (not_before {j} e le) h =
      if_intro (IsLoaded m.accumulator) (ltb (suc j) n) _ _ tt tt
  IsLoaded-mover (add {c} {a = b}) h = if_intro (IsLoaded (b + 1)) (suc c == n_iterations) _ _ tt tt
  IsLoaded-mover _ h = tt
