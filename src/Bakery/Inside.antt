-- ===== src/Bakery/Inside.antt =====
-- The locals of a thread in its loops are below the bounds of the loops.
use threaded_network_adder.Base.{ℕ, suc, ◌<◌, arith, ltb, ◌==◌, if_cases, put-each}
use threaded_network_adder.Bakery.Lock.{
  Memory, Move, read_greater, enter_scan, spin, not_choosing, no_ticket, has_ticket, is_less,
  not_less, is_before, not_equal, not_before, load, add, scan, again, pick, System, Runs, start,
  later, Pc, rereading, wait_choosing, wait_ticket, wait_less, wait_equal, adding, add_store,
}

-- The index of a loop over the threads, and the counter of the iterations.
unfoldable pub IsInside : ℕ → ℕ → Pc → Type 0
IsInside n n_iterations (wait_choosing j) = j < n
IsInside n n_iterations (wait_ticket j) = j < n
IsInside n n_iterations (wait_less j) = j < n
IsInside n n_iterations (wait_equal j) = j < n
IsInside n n_iterations (rereading k max) = k < n
IsInside n n_iterations (adding c) = c < n_iterations
IsInside n n_iterations (add_store c a) = c < n_iterations
IsInside n n_iterations _ = Unit

scan-IsInside : (n n_iterations j : ℕ) → 0 < n_iterations → IsInside n n_iterations (scan n j)
unfolding scan IsInside
scan-IsInside n n_iterations j some =
    if_cases (IsInside n n_iterations) (ltb j n) _ _ (λ e. ground arith) (λ e. some)

again-IsInside :
    (n n_iterations c : ℕ) → c < n_iterations → IsInside n n_iterations (again n_iterations (suc c))
unfolding again IsInside
again-IsInside n n_iterations c l =
    if_cases (IsInside n n_iterations) (suc c == n_iterations) _ _ (λ e. tt) (λ e. ground arith)

module _ {n n_iterations a : ℕ} {Returns : ℕ → ℕ → Type 0} {m : Memory} where
  IsInside-mover :
      {p p' : Pc} {m' : Memory}
      → Move n n_iterations Returns a m p m' p'
      → 0 < n_iterations
      → IsInside n n_iterations p
      → IsInside n n_iterations p'
  unfolding IsInside
  IsInside-mover (read_greater l g) some h = l
  IsInside-mover enter_scan some h = scan-IsInside n n_iterations 0 some
  IsInside-mover (spin e) some h = h
  IsInside-mover (not_choosing e) some h = h
  IsInside-mover (no_ticket {j} e) some h = scan-IsInside n n_iterations (suc j) some
  IsInside-mover (has_ticket e) some h = h
  IsInside-mover (is_less e) some h = h
  IsInside-mover (not_less e) some h = h
  IsInside-mover (is_before e l) some h = h
  IsInside-mover (not_equal {j} e) some h = scan-IsInside n n_iterations (suc j) some
  IsInside-mover (not_before {j} e l) some h = scan-IsInside n n_iterations (suc j) some
  IsInside-mover load some h = h
  IsInside-mover (add {c}) some h = again-IsInside n n_iterations c h
  IsInside-mover _ some h = tt

pub Runs-IsInside :
    {n n_iterations : ℕ} {Returns : ℕ → ℕ → Type 0} {s : System n n_iterations Returns}
    → 0 < n_iterations
    → Runs n n_iterations Returns s
    → (i : ℕ) → i < n
    → IsInside n n_iterations (s.pc i)
unfolding IsInside
Runs-IsInside some (start m) = λ i l. tt
Runs-IsInside {n} {n_iterations} some (later {s} r (pick a lt mv)) =
    put-each (λ i. IsInside n n_iterations) s.pc
      (IsInside-mover mv some (Runs-IsInside some r a lt)) (λ i l ne. Runs-IsInside some r i l)
