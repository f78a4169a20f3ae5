-- ===== src/Bakery/Lock.antt =====
-- lamport.c: the accesses of one thread to the shared arrays, one access at a time.
use threaded_network_adder.Base.{
  ℕ, zero, suc, ◌+◌, ◌≤◌, ◌<◌, ◌≡◌, ◌≢◌, Bool, true, false, ◌&&◌, ltb, ◌==◌, if◌then◌else◌, put,
}

-- The globals of lamport.h: `int ticket[N_THREADS], accumulator; bool choosing[N_THREADS];`
pub record Memory : Type 0 where
  pub choosing : ℕ → Bool
  pub ticket : ℕ → ℕ
  pub accumulator : ℕ

-- Where a thread stands in lamport_thread_process, with the locals that are live there.
pub data Pc : Type 0 where
  idle : Pc  -- before the call of lamport_mutex_lock
  chosen : Pc  -- max_ticket, before it reads ticket[0]
  reading : (k max : ℕ) → Pc  -- the head of its loop
  rereading : (k max : ℕ) → Pc  -- ticket[k] was greater, and is read again to be assigned
  returned : (r : ℕ) → Pc  -- before ticket[i] = r + 1
  stored : Pc  -- before choosing[i] = false
  wait_choosing : (j : ℕ) → Pc  -- before the test of choosing[j]
  wait_ticket : (j : ℕ) → Pc  -- before ticket[j] != 0
  wait_less : (j : ℕ) → Pc  -- before ticket[j] < ticket[i]
  wait_equal : (j : ℕ) → Pc  -- before ticket[j] == ticket[i]
  adding : (counter : ℕ) → Pc  -- the head of the do loop
  add_store : (counter loaded : ℕ) → Pc  -- accumulator++ has read the accumulator
  leaving : Pc  -- before ticket[i] = 0
  done : Pc

abbrev pub is_done : Pc → Bool
is_done done = true
is_done _ = false

-- The assignments of the loop in lamport_mutex_init, for the first `k` threads.
unfoldable pub clear : ℕ → Memory → Memory
clear zero m = m
clear (suc k) m =
    let rest = clear k m in
    record rest { choosing = put rest.choosing k false; ticket = put rest.ticket k 0 }

unfoldable pub lamport_mutex_init : ℕ → Memory → Memory
lamport_mutex_init n_threads m = clear n_threads (record m { accumulator = 0 })

-- `for (j = ...; j < N_THREADS; j++)` of lamport_mutex_lock, at its test
unfoldable pub scan : ℕ → ℕ → Pc
scan n_threads j = if ltb j n_threads then wait_choosing j else adding 0

-- `while (interactionsCounter != N_ITERACTIONS)`
unfoldable pub again : ℕ → ℕ → Pc
again n_iterations counter = if counter == n_iterations then leaving else adding counter

-- Of the first `n` threads, each has returned from lamport_thread_process: main has joined them.
unfoldable pub all_done : (ℕ → Pc) → ℕ → Bool
all_done pc zero = true
all_done pc (suc n) = is_done (pc n) && all_done pc n

-- N_THREADS and N_ITERACTIONS. `Returns max r`: the caller of max_ticket gets `r` where `max` was
-- computed. The function has no return statement, so the source does not say what that is.
module _ (n_threads n_iterations : ℕ) (Returns : ℕ → ℕ → Type 0) where
  -- One access of thread `i`.
  pub data Move (i : ℕ) (m : Memory) : Pc → Memory → Pc → Type 0 where
    choose : Move i m idle (record m { choosing = put m.choosing i true }) chosen
    read_first : Move i m chosen m (reading 1 (m.ticket 0))
    read_greater :
        {k max : ℕ}
        → k < n_threads
        → max < m.ticket k
        → Move i m (reading k max) m (rereading k max)
    read_smaller :
        {k max : ℕ}
        → k < n_threads
        → m.ticket k ≤ max
        → Move i m (reading k max) m (reading (suc k) max)
    read_again : {k max : ℕ} → Move i m (rereading k max) m (reading (suc k) (m.ticket k))
    give : {k max r : ℕ} → n_threads ≤ k → Returns max r → Move i m (reading k max) m (returned r)
    store : {r : ℕ} → Move i m (returned r) (record m { ticket = put m.ticket i (r + 1) }) stored
    enter_scan : Move i m stored (record m { choosing = put m.choosing i false }) (scan n_threads 0)
    spin : {j : ℕ} → m.choosing j ≡ true → Move i m (wait_choosing j) m (wait_choosing j)
    not_choosing : {j : ℕ} → m.choosing j ≡ false → Move i m (wait_choosing j) m (wait_ticket j)
    no_ticket : {j : ℕ} → m.ticket j ≡ 0 → Move i m (wait_ticket j) m (scan n_threads (suc j))
    has_ticket : {j : ℕ} → m.ticket j ≢ 0 → Move i m (wait_ticket j) m (wait_less j)
    is_less : {j : ℕ} → m.ticket j < m.ticket i → Move i m (wait_less j) m (wait_ticket j)
    not_less : {j : ℕ} → m.ticket i ≤ m.ticket j → Move i m (wait_less j) m (wait_equal j)
    is_before :
        {j : ℕ} → m.ticket j ≡ m.ticket i → j < i → Move i m (wait_equal j) m (wait_ticket j)
    not_equal :
        {j : ℕ} → m.ticket j ≢ m.ticket i → Move i m (wait_equal j) m (scan n_threads (suc j))
    not_before :
        {j : ℕ}
        → m.ticket j ≡ m.ticket i
        → i ≤ j
        → Move i m (wait_equal j) m (scan n_threads (suc j))
    load : {c : ℕ} → Move i m (adding c) m (add_store c m.accumulator)
    add :
        {c a : ℕ}
        → Move i m (add_store c a) (record m { accumulator = a + 1 }) (again n_iterations (suc c))
    unlock : Move i m leaving (record m { ticket = put m.ticket i 0 }) done

  -- `program lamport`: the threads 0 to N_THREADS - 1, interleaved in any order.
  pub record System : Type 0 where
    pub memory : Memory
    pub pc : ℕ → Pc

  pub data Step (s : System) : System → Type 0 where
    pick :
        (i : ℕ) {m : Memory} {p : Pc}
        → i < n_threads
        → Move i s.memory (s.pc i) m p
        → Step s (record { memory = m; pc = put s.pc i p })

  -- main, from whatever the globals held
  pub data Runs : System → Type 0 where
    start : (m : Memory) → Runs (record { memory = lamport_mutex_init n_threads m; pc = λ i. idle })
    later : {s t : System} → Runs s → Step s t → Runs t

  -- Zero or more steps.
  pub data Leads : System → System → Type 0 where
    now : {s : System} → Leads s s
    next : {s t u : System} → Step s t → Leads t u → Leads s u
