-- ===== src/Bakery/Repeated/Invariant.antt =====
-- What holds in every state that the threads of libbakery.c reach.
use threaded_network_adder.Base.{
  ℕ, ◌+◌, ◌≤◌, ◌<◌, ◌≡◌, refl, subst, true, arith, put, put-each, sum_to, sum_to-put, sum_to-le,
  sum_to-eq,
}
use threaded_network_adder.Bakery.Lock.{Memory, Move, Pc, add, idle}
use threaded_network_adder.Bakery.Order.{level}
use threaded_network_adder.Bakery.Ordered.{Ordered, critical, Ordered-exclusive}
use threaded_network_adder.Bakery.Repeated.{
  Shared, all_zero, Place, locking, checking, counting, has_counted, unlocking, ended, in_lock,
  RepeatedMove, locks, sets, complains, enters, loads, stores, clears, frees, repeats, ends,
  Threads, RepeatedRuns, launch, moves, lamport_mutex_lock, lamport_mutex_unlock,
}
use threaded_network_adder.Bakery.Repeated.Steps.{view, views, Ordered-repeated}

-- Between lamport_mutex_lock and lamport_mutex_unlock the flag is set, the accumulator is as it was
-- read, and a thread that has ended has seen it exceed the number of iterations.
abbrev pub Fits : ℕ → Shared → Place → Type 0
Fits n_iterations s checking = s.mutex_at ≡ true
Fits n_iterations s counting = s.mutex_at ≡ true
Fits n_iterations s (has_counted a) = (s.mutex_at ≡ true) × (a ≡ s.memory.accumulator)
Fits n_iterations s unlocking = s.mutex_at ≡ true
Fits n_iterations s ended = n_iterations < s.memory.accumulator
Fits n_iterations s _ = Unit

-- 1 while the thread has still to count in this round.
unfoldable pub owes : Place → ℕ
owes (locking p) = 1
owes checking = 1
owes counting = 1
owes (has_counted a) = 1
owes _ = 0

pub record RepeatedInv (n n_iterations : ℕ) (s : Shared) (place : ℕ → Place) : Type 0 where
  pub ordered : Ordered n s.memory (views place)
  pub fits : (i : ℕ) → i < n → Fits n_iterations s (place i)
  pub bounded : s.memory.accumulator + sum_to owes place n ≤ n_iterations + n

-- The lock does not touch the accumulator.
in_lock-accumulator :
    {n i : ℕ} {Returns : ℕ → ℕ → Type 0} {m m' : Memory} {p p' : Pc}
    → in_lock p ≡ true
    → Move n 1 Returns i m p m' p'
    → m'.accumulator ≡ m.accumulator
unfolding in_lock
in_lock-accumulator e (add) = absurd cc
in_lock-accumulator e _ = refl

module _ (n_iterations : ℕ) (s : Shared) where
  Fits-lock : (q : Place) → Fits n_iterations s q → Fits n_iterations (lamport_mutex_lock s) q
  unfolding lamport_mutex_lock
  Fits-lock q g = ground arith

  Fits-unlock :
      (q : Place)
      → (critical (view q) ≡ true → ⊥)
      → Fits n_iterations s q
      → Fits n_iterations (lamport_mutex_unlock s) q
  unfolding lamport_mutex_unlock critical view
  Fits-unlock checking outside g = absurd (outside refl)
  Fits-unlock counting outside g = absurd (outside refl)
  Fits-unlock (has_counted a) outside g = absurd (outside refl)
  Fits-unlock unlocking outside g = absurd (outside refl)
  Fits-unlock ended outside g = g
  Fits-unlock _ outside g = tt

  Fits-store :
      (a : ℕ) (q : Place)
      → a ≡ s.memory.accumulator
      → (critical (view q) ≡ true → ⊥)
      → Fits n_iterations s q
      → Fits n_iterations (record s { memory = record s.memory { accumulator = a + 1 } }) q
  unfolding critical view
  Fits-store a (has_counted b) e outside g = absurd (outside refl)
  Fits-store a ended e outside g = omega (arith, e, g)
  Fits-store a checking e outside g = g
  Fits-store a counting e outside g = g
  Fits-store a unlocking e outside g = g
  Fits-store a _ e outside g = tt

module _ {n n_iterations i : ℕ} {Returns : ℕ → ℕ → Type 0} (s : Shared) where
  Fits-mover :
      {s' : Shared} {p p' : Place}
      → RepeatedMove n n_iterations Returns i s p s' p'
      → Fits n_iterations s p
      → Fits n_iterations s' p'
  unfolding lamport_mutex_lock lamport_mutex_unlock
  Fits-mover (locks e mv) f = tt
  Fits-mover sets f = refl
  Fits-mover (complains off) f = f
  Fits-mover (enters on) f = f
  Fits-mover loads f = (f, refl)
  Fits-mover stores f = f.0
  Fits-mover clears f = tt
  Fits-mover frees f = tt
  Fits-mover (repeats le) f = tt
  Fits-mover (ends lt) f = lt

  -- Another thread, which is not inside together with the mover.
  Fits-other :
      {s' : Shared} {p p' : Place} (q : Place)
      → RepeatedMove n n_iterations Returns i s p s' p'
      → Fits n_iterations s p
      → (critical (view p) ≡ true → critical (view q) ≡ true → ⊥)
      → Fits n_iterations s q
      → Fits n_iterations s' q
  unfolding lamport_mutex_lock lamport_mutex_unlock critical view
  Fits-other q (locks e mv) f alone g = ground (arith, in_lock-accumulator e mv)
  Fits-other q sets f alone g = Fits-lock n_iterations s q g
  Fits-other q (complains off) f alone g = g
  Fits-other q (enters on) f alone g = g
  Fits-other q loads f alone g = g
  Fits-other q stores f alone g = Fits-store n_iterations s _ q f.1 (alone refl) g
  Fits-other q clears f alone g = Fits-unlock n_iterations s q (alone refl) g
  Fits-other q frees f alone g = g
  Fits-other q (repeats le) f alone g = g
  Fits-other q (ends lt) f alone g = g

  -- What the threads have counted, and have still to count.
  owes-mover :
      {s' : Shared} {p p' : Place} (before after : ℕ)
      → RepeatedMove n n_iterations Returns i s p s' p'
      → Fits n_iterations s p
      → owes p + after ≡ owes p' + before
      → after ≤ n
      → s.memory.accumulator + before ≤ n_iterations + n
      → s'.memory.accumulator + after ≤ n_iterations + n
  unfolding owes lamport_mutex_lock lamport_mutex_unlock
  owes-mover before after (locks e mv) f sum le h = omega (arith, in_lock-accumulator e mv)
  owes-mover before after sets f sum le h = omega arith
  owes-mover before after (complains off) f sum le h = absurd cc
  owes-mover before after (enters on) f sum le h = omega arith
  owes-mover before after loads f sum le h = omega arith
  owes-mover before after stores f sum le h = omega (arith, f.1)
  owes-mover before after clears f sum le h = omega arith
  owes-mover before after frees f sum le h = omega arith
  owes-mover before after (repeats few) f sum le h = omega arith
  owes-mover before after (ends lt) f sum le h = omega arith

owes-le : (p : Place) → owes p ≤ 1
unfolding owes
owes-le p = ground arith

launched : (n n_iterations : ℕ) → RepeatedInv n n_iterations all_zero (λ _. locking idle)
unfolding owes view level
launched n n_iterations = record {
  ordered = record { entries = λ i l. (refl, refl); order = λ i j li lj ne. tt };
  fits = λ i l. tt;
  bounded = omega (arith, sum_to-eq owes (λ _. locking idle) n 1 (λ _ _. refl));
}

checks_set :
    (n_iterations : ℕ) (s : Shared) (p : Place)
    → Fits n_iterations s p
    → p ≡ checking
    → s.mutex_at ≡ true
checks_set n_iterations s p f at = subst (Fits n_iterations s) at f

module _ {n n_iterations : ℕ} {Returns : ℕ → ℕ → Type 0}
    (gives : (max r : ℕ) → Returns max r → r ≡ max) where
  RepeatedInv-move :
      {s s' : Shared} {place : ℕ → Place} {a : ℕ} {p' : Place}
      → RepeatedInv n n_iterations s place
      → a < n
      → RepeatedMove n n_iterations Returns a s (place a) s' p'
      → RepeatedInv n n_iterations s' (put place a p')
  RepeatedInv-move {s} {s'} {place} {a} {p'} inv lt mv = record {
    ordered =
        Ordered-repeated gives s place inv.ordered lt refl mv
          (checks_set n_iterations s (place a) (inv.fits a lt));
    fits =
        put-each (λ i. Fits n_iterations s') place (Fits-mover s mv (inv.fits a lt))
          (λ i li ne.
            Fits-other s (place i) mv (inv.fits a lt)
              (λ ca ci. ne (Ordered-exclusive inv.ordered i a li lt ci ca)) (inv.fits i li));
    bounded =
        owes-mover s (sum_to owes place n) (sum_to owes (put place a p') n) mv (inv.fits a lt)
          (sum_to-put owes place n a p' lt)
          (omega (arith, sum_to-le owes (put place a p') n 1 owes-le)) inv.bounded;
  }

  pub RepeatedRuns-Inv :
      {s : Threads n n_iterations Returns}
      → RepeatedRuns n n_iterations Returns s
      → RepeatedInv n n_iterations s.shared s.place
  RepeatedRuns-Inv launch = launched n n_iterations
  RepeatedRuns-Inv (moves a r lt mv) = RepeatedInv-move (RepeatedRuns-Inv r) lt mv

  -- If max_ticket gives its caller the maximum it computed, two threads of libbakery.c are never
  -- both between their loops over the tickets and ticket[i] = 0.
  pub repeated_exclusion :
      {s : Threads n n_iterations Returns}
      → RepeatedRuns n n_iterations Returns s
      → (i j : ℕ) → i < n
      → j < n
      → critical (view (s.place i)) ≡ true
      → critical (view (s.place j)) ≡ true
      → i ≡ j
  repeated_exclusion r = Ordered-exclusive (RepeatedRuns-Inv r).ordered

  -- If max_ticket gives its caller the maximum it computed, a thread of libbakery.c that is about to
  -- test mutex_AT, or to clear it, finds it set, so the branch that reports an error is never taken;
  -- the value that it adds 1 to is the accumulator's; the accumulator never exceeds the number of
  -- iterations plus that of the threads; and once a thread has ended it exceeds that of the
  -- iterations.
  pub RepeatedRuns-Fits :
      {s : Threads n n_iterations Returns}
      → RepeatedRuns n n_iterations Returns s
      → (i : ℕ) → i < n
      → Fits n_iterations s.shared (s.place i) × (s.shared.memory.accumulator ≤ n_iterations + n)
  RepeatedRuns-Fits r i lt =
      let inv = RepeatedRuns-Inv r in (inv.fits i lt, omega (arith, inv.bounded))
