-- ===== src/Bakery/Turns.antt =====
-- Steps of one thread alone, and how far they bring it on.
use threaded_network_adder.Base.{
  ℕ, suc, ◌+◌, ◌-◌, ◌*◌, ◌≤◌, ◌<◌, ◌≡◌, sym, ap, subst, arith, put, put_same, sum_to, sum_to-put,
}
use threaded_network_adder.Bakery.Lock.{
  Memory, Move, scan, again, Step, pick, System, Leads, now, next, Pc, idle, chosen, reading,
  rereading, returned, stored, wait_choosing, wait_ticket, wait_less, wait_equal, adding, add_store,
  leaving, done,
}

-- The way from here to the end, where the tests of one thread in lamport_mutex_lock are one step.
unfoldable pub rank : ℕ → ℕ → Pc → ℕ
rank n n_iterations idle = 2 * n_iterations + 4 * n + 7
rank n n_iterations chosen = 2 * n_iterations + 4 * n + 6
rank n n_iterations (reading k max) = 2 * n_iterations + 2 * n + 5 + 2 * (n - k)
rank n n_iterations (rereading k max) = 2 * n_iterations + 2 * n + 4 + 2 * (n - k)
rank n n_iterations (returned r) = 2 * n_iterations + 2 * n + 4
rank n n_iterations stored = 2 * n_iterations + 2 * n + 3
rank n n_iterations (wait_choosing j) = 2 * n_iterations + 2 + 2 * (n - j)
rank n n_iterations (wait_ticket j) = 2 * n_iterations + 1 + 2 * (n - j)
rank n n_iterations (wait_less j) = 2 * n_iterations + 1 + 2 * (n - j)
rank n n_iterations (wait_equal j) = 2 * n_iterations + 1 + 2 * (n - j)
rank n n_iterations (adding c) = 2 * (n_iterations - c) + 2
rank n n_iterations (add_store c a) = 2 * (n_iterations - c) + 1
rank n n_iterations leaving = 1
rank n n_iterations done = 0

pub rank-scan :
    (n n_iterations j : ℕ) → rank n n_iterations (scan n j) ≤ 2 * n_iterations + 2 + 2 * (n - j)
unfolding rank scan
rank-scan n n_iterations j = ground arith

pub rank-again :
    (n n_iterations c : ℕ)
    → c < n_iterations
    → rank n n_iterations (again n_iterations (suc c)) ≤ 2 * (n_iterations - c)
unfolding rank again
rank-again n n_iterations c l = ground arith

module _ {n n_iterations : ℕ} {Returns : ℕ → ℕ → Type 0} where
  unfoldable pub ranks : System n n_iterations Returns → ℕ
  ranks s = sum_to (rank n n_iterations) s.pc n

  -- Steps of thread `i` alone, that bring it to `p`.
  pub record Goes (s : System n n_iterations Returns) (i : ℕ) (p : Pc) : Type 0 where
    pub last : System n n_iterations Returns
    pub leads : Leads n n_iterations Returns s last
    pub shape : rank n n_iterations (s.pc i) + ranks last ≡ rank n n_iterations p + ranks s

  pub record Advance (s : System n n_iterations Returns) : Type 0 where
    pub last : System n n_iterations Returns
    pub leads : Leads n n_iterations Returns s last
    pub lower : ranks last < ranks s

  module _ (s : System n n_iterations Returns) {i : ℕ} (li : i < n) {p : Pc} (at : s.pc i ≡ p) where
    Step-pick :
        {m : Memory} {q : Pc}
        → Move n n_iterations Returns i s.memory p m q
        → Step n n_iterations Returns s (record { memory = m; pc = put s.pc i q })
    Step-pick {m} {q} mv =
        pick i li (subst (λ x. Move n n_iterations Returns i s.memory x m q) (sym at) mv)

    pub Goes-next :
        {m : Memory} {q r : Pc}
        → Move n n_iterations Returns i s.memory p m q
        → Goes (record { memory = m; pc = put s.pc i q }) i r
        → Goes s i r
    unfolding ranks
    Goes-next {q} mv g = record {
      last = g.last;
      leads = next (Step-pick mv) g.leads;
      shape = omega (
        arith,
        g.shape,
        ap (rank n n_iterations) (put_same s.pc i q),
        sum_to-put (rank n n_iterations) s.pc n i q li,
      );
    }

    pub Goes-one : {m : Memory} {q : Pc} → Move n n_iterations Returns i s.memory p m q → Goes s i q
    unfolding ranks
    Goes-one {q} mv = record {
      last = _;
      leads = next (Step-pick mv) now;
      shape = sum_to-put (rank n n_iterations) s.pc n i q li;
    }

    pub Goes-Advance :
        {q : Pc} → Goes s i q → rank n n_iterations q < rank n n_iterations p → Advance s
    Goes-Advance g less = record {
      last = g.last;
      leads = g.leads;
      lower = omega (arith, g.shape, ap (rank n n_iterations) at);
    }
