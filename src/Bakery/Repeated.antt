-- ===== src/Bakery/Repeated.antt =====
-- libbakery.c in the same folder: the threads take the lock again for each increment, and a flag
-- shows whether one is inside. program-mainbackup.c starts them.
pub mod Steps
pub mod Invariant
use threaded_network_adder.Base.{
  ℕ, suc, ◌+◌, ◌≤◌, ◌<◌, ◌≡◌, Bool, true, false, put, leb, if◌then◌else◌,
}
use threaded_network_adder.Bakery.Lock.{Memory, Pc, idle, adding, add_store, leaving, done, Move}

-- `choosing`, `ticket` and `accumulator` are as in lamport.c.
pub record Shared : Type 0 where
  pub memory : Memory
  pub mutex_at : Bool  -- mutex_AT

-- Before the threads start all globals are 0; nothing calls lamport_mutex_init.
abbrev pub all_zero : Shared
all_zero = record {
  memory = record { choosing = λ _. false; ticket = λ _. 0; accumulator = 0 };
  mutex_at = false;
}

unfoldable pub lamport_mutex_init : Shared → Shared
lamport_mutex_init s = record { memory = record s.memory { accumulator = 0 }; mutex_at = false }

unfoldable pub lamport_mutex_lock : Shared → Shared
lamport_mutex_lock s = record s { mutex_at = true }

unfoldable pub lamport_mutex_unlock : Shared → Shared
lamport_mutex_unlock s = record s { mutex_at = false }

-- Where a thread stands in thread_process.
pub data Place : Type 0 where
  locking : Pc → Place  -- from `choosing[i] = 1` to the end of the loop over `j`, as in lamport.c
  checking : Place  -- before the test of mutex_AT
  counting : Place  -- before accumulator++
  has_counted : (loaded : ℕ) → Place
  unlocking : Place  -- before lamport_mutex_unlock
  freeing : Place  -- before ticket[i] = 0
  testing : Place  -- before accumulator <= N_ITERACTIONS
  ended : Place

-- The places of lamport_mutex_lock in lamport.c, up to the end of its loop.
unfoldable pub in_lock : Pc → Bool
in_lock (adding c) = false
in_lock (add_store c a) = false
in_lock leaving = false
in_lock done = false
in_lock _ = true

module _ (n_threads n_iterations : ℕ) (Returns : ℕ → ℕ → Type 0) where
  -- One access of thread `i`. Between `choosing[i] = 1` and the end of the loop over `j` the code
  -- is that of lamport_mutex_lock in lamport.c.
  pub data RepeatedMove (i : ℕ) (s : Shared) : Place → Shared → Place → Type 0 where
    locks :
        {p p' : Pc} {m : Memory}
        → in_lock p ≡ true
        → Move n_threads 1 Returns i s.memory p m p'
        → RepeatedMove i s (locking p) (record s { memory = m }) (locking p')
    sets : RepeatedMove i s (locking (adding 0)) (lamport_mutex_lock s) checking
    complains : s.mutex_at ≡ false → RepeatedMove i s checking s unlocking
    enters : s.mutex_at ≡ true → RepeatedMove i s checking s counting
    loads : RepeatedMove i s counting s (has_counted s.memory.accumulator)
    stores :
        {a : ℕ}
        → RepeatedMove i s
            (has_counted a)
            (record s { memory = record s.memory { accumulator = a + 1 } })
            unlocking
    clears : RepeatedMove i s unlocking (lamport_mutex_unlock s) freeing
    frees :
        RepeatedMove i s freeing
          (record s { memory = record s.memory { ticket = put s.memory.ticket i 0 } })
          testing
    repeats : s.memory.accumulator ≤ n_iterations → RepeatedMove i s testing s (locking idle)
    ends : n_iterations < s.memory.accumulator → RepeatedMove i s testing s ended

  pub record Threads : Type 0 where
    pub shared : Shared
    pub place : ℕ → Place

  -- main of program-mainbackup.c: the threads 0 to N_THREADS - 1, interleaved in any order.
  pub data RepeatedRuns : Threads → Type 0 where
    launch : RepeatedRuns (record { shared = all_zero; place = λ i. locking idle })
    moves :
        {s : Threads} (i : ℕ) {m : Shared} {p : Place}
        → RepeatedRuns s
        → i < n_threads
        → RepeatedMove i s.shared (s.place i) m p
        → RepeatedRuns (record { shared = m; place = put s.place i p })
