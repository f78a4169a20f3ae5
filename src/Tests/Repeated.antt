-- ===== src/Tests/Repeated.antt =====
-- One thread of libbakery.c alone, through one round to its end.
use threaded_network_adder.Base.{ℕ, ◌+◌, ◌≡◌, ◌≤◌, refl, arith, put}
use threaded_network_adder.Bakery.{
  choose, read_first, give, store, enter_scan, not_choosing, has_ticket, not_less, not_before, scan,
}
use threaded_network_adder.Bakery.Repeated.{
  all_zero, ended, in_lock, locks, sets, enters, loads, stores, clears, frees, ends, Threads,
  RepeatedRuns, launch, moves, lamport_mutex_init, lamport_mutex_lock, lamport_mutex_unlock,
}
use threaded_network_adder.Bakery.Repeated.Invariant.{Fits, RepeatedRuns-Fits}

abbrev Maximum : ℕ → ℕ → Type 0
Maximum max r = r ≡ max

-- One thread and no iteration beyond the first: it ends with the accumulator at 1.
abbrev Ended : Threads 1 0 Maximum → Type 0
Ended s = (s.place 0 ≡ ended) × (s.shared.memory.accumulator ≡ 1)

abbrev one_round : (s : Threads 1 0 Maximum) × RepeatedRuns 1 0 Maximum s × Ended s
unfolding scan in_lock lamport_mutex_lock lamport_mutex_unlock put
one_round = (
  _,
  moves 0
      (moves 0
        (moves 0
          (moves 0
            (moves 0
              (moves 0
                (moves 0
                  (moves 0
                    (moves 0
                      (moves 0
                        (moves 0
                          (moves 0
                            (moves 0
                              (moves 0
                                (moves 0 (moves 0 (launch) (omega arith) (locks refl choose))
                                  (omega arith) (locks refl read_first))
                                (omega arith) (locks refl (give (omega arith) refl)))
                              (omega arith) (locks refl store))
                            (omega arith) (locks refl enter_scan))
                          (omega arith) (locks refl (not_choosing refl)))
                        (omega arith) (locks refl (has_ticket (λ e. absurd (ground arith)))))
                      (omega arith) (locks refl (not_less (omega arith))))
                    (omega arith) (locks refl (not_before refl (omega arith))))
                  (omega arith) sets)
                (omega arith) (enters refl))
              (omega arith) loads)
            (omega arith) stores)
          (omega arith) clears)
        (omega arith) frees)
      (omega arith) (ends (omega arith)),
  (refl, refl),
)

RepeatedRuns-Fits_example :
    Fits 0 one_round.0.shared (one_round.0.place 0)
    × (one_round.0.shared.memory.accumulator ≤ 0 + 1)
RepeatedRuns-Fits_example = RepeatedRuns-Fits (λ max r e. e) one_round.1 0 (omega arith)

-- What main leaves out changes nothing.
init_runs : lamport_mutex_init all_zero ≡ all_zero
unfolding lamport_mutex_init
init_runs = refl
