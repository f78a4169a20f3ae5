-- ===== src/Bakery/Hardware.antt =====
-- lamport.c: hw_thread_process, the same count under a pthread mutex.
use threaded_network_adder.Base.{
  ℕ, suc, ◌+◌, ◌*◌, ◌≤◌, ◌<◌, ◌≡◌, ◌≢◌, refl, sym, arith, Bool, true, false, ◌==◌, if◌then◌else◌,
  if_intro, put, put_other, put-each, sum_to, sum_to-put, sum_to-eq, sum_to-ge, ℕ-cases, ap, inl,
  inr,
}

-- Whether `lock` is taken, and the accumulator.
pub record Guarded : Type 0 where
  pub taken : Bool
  pub accumulator : ℕ

pub data HwPc : Type 0 where
  outside : HwPc  -- before pthread_mutex_lock
  counting : (counter : ℕ) → HwPc
  has_read : (counter loaded : ℕ) → HwPc
  freeing : HwPc  -- before pthread_mutex_unlock
  finished : HwPc

unfoldable pub hw_again : ℕ → ℕ → HwPc
hw_again n_iterations counter = if counter == n_iterations then freeing else counting counter

module _ (n_threads n_iterations : ℕ) where
  -- A thread that calls pthread_mutex_lock moves on only while the mutex is free.
  pub data HwMove (m : Guarded) : HwPc → Guarded → HwPc → Type 0 where
    acquire : m.taken ≡ false → HwMove m outside (record m { taken = true }) (counting 0)
    read : {c : ℕ} → HwMove m (counting c) m (has_read c m.accumulator)
    write :
        {c a : ℕ}
        → HwMove m (has_read c a) (record m { accumulator = a + 1 }) (hw_again n_iterations (suc c))
    release : HwMove m freeing (record m { taken = false }) finished

  pub record HwSystem : Type 0 where
    pub memory : Guarded
    pub pc : ℕ → HwPc

  -- `program pthread`: the threads in any order.
  pub data HwRuns : HwSystem → Type 0 where
    begin :
        HwRuns (record { memory = record { taken = false; accumulator = 0 }; pc = λ i. outside })
    go_on :
        {s : HwSystem} (i : ℕ) {m : Guarded} {p : HwPc}
        → HwRuns s
        → i < n_threads
        → HwMove s.memory (s.pc i) m p
        → HwRuns (record { memory = m; pc = put s.pc i p })

abbrev holds : HwPc → ℕ
holds outside = 0
holds (counting c) = 1
holds (has_read c a) = 1
holds freeing = 1
holds finished = 0

abbrev hw_made : ℕ → HwPc → ℕ
hw_made n_iterations outside = 0
hw_made n_iterations (counting c) = c
hw_made n_iterations (has_read c a) = c
hw_made n_iterations freeing = n_iterations
hw_made n_iterations finished = n_iterations

abbrev IsCurrent : ℕ → HwPc → Type 0
IsCurrent accumulator (has_read c a) = a ≡ accumulator
IsCurrent accumulator _ = Unit

abbrev taken_count : Bool → ℕ
taken_count b = if b then 1 else 0

record HwInv (n n_iterations : ℕ) (m : Guarded) (pc : ℕ → HwPc) : Type 0 where
  held : sum_to holds pc n ≡ taken_count m.taken
  counted : m.accumulator ≡ sum_to (hw_made n_iterations) pc n
  current : (i : ℕ) → i < n → IsCurrent m.accumulator (pc i)

-- A second thread inside would make the count of holders two.
others_outside :
    (n : ℕ) (pc : ℕ → HwPc) (a i : ℕ)
    → a < n
    → i < n
    → i ≢ a
    → holds (pc a) ≡ 1
    → sum_to holds pc n ≤ 1
    → holds (pc i) ≡ 0
others_outside n pc a i la li ne inside le = omega (
  arith,
  sum_to-put holds pc n a outside la,
  sum_to-ge holds (put pc a outside) n i li,
  ap holds (put_other pc outside ne),
)

hw_made-again : (n_iterations c : ℕ) → hw_made n_iterations (hw_again n_iterations c) ≡ c
unfolding hw_again
hw_made-again n_iterations c = ground arith

holds-again : (n_iterations c : ℕ) → holds (hw_again n_iterations c) ≡ 1
unfolding hw_again
holds-again n_iterations c = ground arith

IsCurrent-outside : (x : ℕ) (q : HwPc) → holds q ≡ 0 → IsCurrent x q
IsCurrent-outside x q e = ground arith

module _ {n n_iterations : ℕ} {m : Guarded} where
  holds-mover :
      {p p' : HwPc} {m' : Guarded}
      → HwMove n n_iterations m p m' p'
      → holds p ≤ taken_count m.taken
      → holds p' + taken_count m.taken ≡ holds p + taken_count m'.taken
  holds-mover (acquire e) le = ground arith
  holds-mover read le = refl
  holds-mover (write {c}) le = ground (arith, holds-again n_iterations (suc c))
  holds-mover release le = ground arith

  hw_made-mover :
      {p p' : HwPc} {m' : Guarded}
      → HwMove n n_iterations m p m' p'
      → IsCurrent m.accumulator p
      → hw_made n_iterations p' + m.accumulator ≡ hw_made n_iterations p + m'.accumulator
  hw_made-mover (acquire e) l = omega arith
  hw_made-mover read l = omega arith
  hw_made-mover (write {c}) l = omega (arith, hw_made-again n_iterations (suc c))
  hw_made-mover release l = omega arith

  IsCurrent-mover :
      {p p' : HwPc} {m' : Guarded} → HwMove n n_iterations m p m' p' → IsCurrent m'.accumulator p'
  unfolding hw_again
  IsCurrent-mover (acquire e) = tt
  IsCurrent-mover read = refl
  IsCurrent-mover (write {c} {a}) = if_intro (IsCurrent (a + 1)) (suc c == n_iterations) _ _ tt tt
  IsCurrent-mover release = tt

  IsCurrent-other :
      {p p' : HwPc} {m' : Guarded} (q : HwPc)
      → HwMove n n_iterations m p m' p'
      → (holds p ≡ 1 → holds q ≡ 0)
      → IsCurrent m.accumulator q
      → IsCurrent m'.accumulator q
  IsCurrent-other q (acquire e) alone l = l
  IsCurrent-other q read alone l = l
  IsCurrent-other q (write {c} {a}) alone l = IsCurrent-outside (a + 1) q (alone refl)
  IsCurrent-other q release alone l = l

taken_count-le : (b : Bool) → taken_count b ≤ 1
taken_count-le b = ground arith

HwRuns-HwInv :
    {n n_iterations : ℕ} {s : HwSystem n n_iterations}
    → HwRuns n n_iterations s
    → HwInv n n_iterations s.memory s.pc
HwRuns-HwInv {n} {n_iterations} begin = record {
  held = omega (arith, sum_to-eq holds (λ _. outside) n 0 (λ _ _. refl));
  counted = omega (arith, sum_to-eq (hw_made n_iterations) (λ _. outside) n 0 (λ _ _. refl));
  current = λ i l. tt;
}
HwRuns-HwInv {n} {n_iterations} (go_on {s} a {m} {p} r la mv) =
    let inv = HwRuns-HwInv r in
    let one = taken_count-le s.memory.taken in
    record {
      held = omega (
        arith,
        inv.held,
        sum_to-put holds s.pc n a p la,
        holds-mover mv (omega (arith, inv.held, sum_to-ge holds s.pc n a la)),
      );
      counted = omega (
        arith,
        inv.counted,
        hw_made-mover mv (inv.current a la),
        sum_to-put (hw_made n_iterations) s.pc n a p la,
      );
      current =
          put-each (λ i. IsCurrent m.accumulator) s.pc (IsCurrent-mover mv)
            (λ i li ne.
              IsCurrent-other (s.pc i) mv
                (λ inside. others_outside n s.pc a i la li ne inside (omega (arith, inv.held)))
                (inv.current i li));
    }

-- Under the pthread mutex two threads are never inside together.
pub hw_exclusion :
    {n n_iterations : ℕ} {s : HwSystem n n_iterations}
    → HwRuns n n_iterations s
    → (i j : ℕ) → i < n
    → j < n
    → holds (s.pc i) ≡ 1
    → holds (s.pc j) ≡ 1
    → i ≡ j
hw_exclusion {n} {s} r i j li lj hi hj = elim (ℕ-cases j i) [
  | inl same ↦ sym same
  | inr differ ↦ absurd (
      omega (
        arith,
        hj,
        others_outside n s.pc i j li lj differ hi
            (omega (arith, (HwRuns-HwInv r).held, taken_count-le s.memory.taken)),
      ))
]

-- Under the pthread mutex no increment is lost: once all threads are finished the accumulator is
-- the number of threads times that of their iterations.
pub hw_accumulator-finished :
    {n n_iterations : ℕ} {s : HwSystem n n_iterations}
    → HwRuns n n_iterations s
    → ((i : ℕ) → i < n → s.pc i ≡ finished)
    → s.memory.accumulator ≡ n * n_iterations
hw_accumulator-finished {n} {n_iterations} {s} r all = omega (
  arith,
  (HwRuns-HwInv r).counted,
  sum_to-eq (hw_made n_iterations) s.pc n n_iterations (λ i l. rw (all i l)),
)
