-- ===== src/Bakery/Exclusion.antt =====
-- The critical sections of the bakery, and the sum that its threads leave.
use threaded_network_adder.Base.{
  ℕ, ◌*◌, ◌≤◌, ◌<◌, ◌≡◌, ◌≢◌, refl, arith, true, sum_to-eq, sum_to-le, ◌⊎◌, inl, inr, Bool-cases,
  ℕ-cases, zero, suc,
}
use threaded_network_adder.Bakery.Lock.{System, Runs, Pc, done, is_done, all_done}
use threaded_network_adder.Bakery.Ranges.{given, made}
use threaded_network_adder.Bakery.Ordered.{critical}
use threaded_network_adder.Bakery.Invariant.{Inv-exclusive, Runs-Inv}

is_done-done : (p : Pc) → is_done p ≡ true → p ≡ done
is_done-done p e = ground arith

pub all_done-at : (pc : ℕ → Pc) (n : ℕ) → all_done pc n ≡ true → (i : ℕ) → i < n → pc i ≡ done
unfolding all_done
all_done-at pc zero e i l = absurd (omega arith)
all_done-at pc (suc n) e i l = elim (ℕ-cases i n) [
  | inl last ↦ rw last (is_done-done (pc n) (ground arith))
  | inr before ↦ all_done-at pc n (ground arith) i (omega arith)
]

pub all_done-cases :
    (pc : ℕ → Pc) (n : ℕ) → (all_done pc n ≡ true) ⊎ ((i : ℕ) × (i < n) × (pc i ≢ done))
unfolding all_done
all_done-cases pc zero = inl refl
all_done-cases pc (suc n) = elim (Bool-cases (is_done (pc n))) [
  | inl last ↦ elim (all_done-cases pc n) [
    | inl all ↦ inl (ground arith)
    | inr (i, l, e) ↦ inr (i, omega arith, e)
  ]
  | inr not_last ↦ inr (n, omega arith, λ e. absurd (ground arith))
]

module _ {n_threads n_iterations : ℕ} {Returns : ℕ → ℕ → Type 0}
    (gives : (max r : ℕ) → Returns max r → r ≡ max) {s : System n_threads n_iterations Returns}
    (r : Runs n_threads n_iterations Returns s) where
  -- If max_ticket gives its caller the maximum it computed, two threads are never in the critical
  -- section together, however their accesses to memory are interleaved.
  pub mutual_exclusion :
      (i j : ℕ)
      → i < n_threads
      → j < n_threads
      → critical (s.pc i) ≡ true
      → critical (s.pc j) ≡ true
      → i ≡ j
  mutual_exclusion = Inv-exclusive (Runs-Inv gives r)

  given-le : (p : Pc) → given p ≤ 1
  unfolding given
  given-le p = ground arith

  -- No ticket is greater than the number of threads.
  pub ticket-le : (i : ℕ) → i < n_threads → s.memory.ticket i ≤ n_threads
  ticket-le i l =
      omega (arith, (Runs-Inv gives r).small i l, sum_to-le given s.pc n_threads 1 given-le)

  -- If max_ticket gives its caller the maximum it computed, no increment of the accumulator is
  -- lost: when all threads are done it is the number of threads times that of their iterations.
  pub accumulator-all_done :
      all_done s.pc n_threads ≡ true → s.memory.accumulator ≡ n_threads * n_iterations
  unfolding made
  accumulator-all_done all = omega (
    arith,
    (Runs-Inv gives r).counted,
    sum_to-eq (made n_iterations) s.pc n_threads n_iterations
        (λ i l. rw (all_done-at s.pc n_threads all i l)),
  )
