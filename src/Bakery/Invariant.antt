-- ===== src/Bakery/Invariant.antt =====
-- What holds in every state that the threads of the bakery reach.
use threaded_network_adder.Base.{
  ℕ, zero, suc, ◌+◌, ◌≤◌, ◌<◌, ◌≡◌, ◌≢◌, refl, arith, true, false, inl, inr, Bool-cases, put-each,
  put, sum_to, sum_to-put, sum_to-eq,
}
use threaded_network_adder.Bakery.Lock.{
  Memory, Move, store, add, unlock, lamport_mutex_init, clear, Pc, idle, System, pick, Runs, start,
  later,
}
use threaded_network_adder.Bakery.Ordered.{critical, Ordered, Ordered-exclusive, Ordered-move}
use threaded_network_adder.Bakery.Order.{level, IsBefore, HasEntries}
use threaded_network_adder.Bakery.Ranges.{
  given, made, InRange, IsLoaded, InRange-mono, given-mover, made-mover, InRange-mover,
  IsLoaded-mover,
}

module _ (n n_iterations : ℕ) where
  pub record Inv (m : Memory) (pc : ℕ → Pc) : Type 0 where
    pub entries : (i : ℕ) → i < n → HasEntries m.choosing m.ticket i (pc i)
    pub order : (i j : ℕ) → i < n → j < n → i ≢ j → IsBefore m.ticket i j (pc j) (level (pc i) j)
    pub small : (i : ℕ) → i < n → m.ticket i ≤ sum_to given pc n
    pub ranges : (i : ℕ) → i < n → InRange n (sum_to given pc n) (pc i)
    pub counted : m.accumulator ≡ sum_to (made n_iterations) pc n
    pub loaded : (i : ℕ) → i < n → IsLoaded m.accumulator (pc i)

ordered : {n n_iterations : ℕ} {m : Memory} {pc : ℕ → Pc} → Inv n n_iterations m pc → Ordered n m pc
ordered inv = record { entries = inv.entries; order = inv.order }

pub Inv-exclusive :
    {n n_iterations : ℕ} {m : Memory} {pc : ℕ → Pc}
    → Inv n n_iterations m pc
    → (i j : ℕ) → i < n
    → j < n
    → critical (pc i) ≡ true
    → critical (pc j) ≡ true
    → i ≡ j
Inv-exclusive inv = Ordered-exclusive (ordered inv)

IsLoaded-outside : (x : ℕ) (q : Pc) → critical q ≡ false → IsLoaded x q
unfolding critical IsLoaded
IsLoaded-outside x q e = ground arith

module _ {n n_iterations a : ℕ} {Returns : ℕ → ℕ → Type 0} {m : Memory} where
  IsLoaded-other :
      {p p' : Pc} {m' : Memory} (q : Pc)
      → Move n n_iterations Returns a m p m' p'
      → (critical p ≡ true → critical q ≡ true → ⊥)
      → IsLoaded m.accumulator q
      → IsLoaded m'.accumulator q
  unfolding critical
  IsLoaded-other q (add {c} {a = b}) alone h = elim (Bool-cases (critical q)) [
    | inl inside ↦ absurd (alone refl inside)
    | inr outside ↦ IsLoaded-outside (b + 1) q outside
  ]
  IsLoaded-other q _ alone h = h

  small-mover :
      {p p' : Pc} {m' : Memory} {top top' : ℕ}
      → Move n n_iterations Returns a m p m' p'
      → given p + top' ≡ given p' + top
      → InRange n top p
      → ((i : ℕ) → i < n → m.ticket i ≤ top)
      → (i : ℕ) → i < n
      → m'.ticket i ≤ top'
  unfolding given InRange put
  small-mover (store {r}) e h small i l = ground (arith, small i l)
  small-mover unlock e h small i l = ground (arith, small i l)
  small-mover mv e h small i l = omega (arith, small i l, given-mover mv)

module _ {n n_iterations : ℕ} {Returns : ℕ → ℕ → Type 0}
    (gives : (max r : ℕ) → Returns max r → r ≡ max) {m : Memory} {pc : ℕ → Pc}
    (inv : Inv n n_iterations m pc) {a : ℕ} (lt : a < n) {m' : Memory} {p' : Pc}
    (mv : Move n n_iterations Returns a m (pc a) m' p') where
  given_sum : given (pc a) + sum_to given (put pc a p') n ≡ given p' + sum_to given pc n
  given_sum = sum_to-put given pc n a p' lt

  given_le : sum_to given pc n ≤ sum_to given (put pc a p') n
  given_le = omega (arith, given_sum, given-mover mv)

  pub Inv-move : Inv n n_iterations m' (put pc a p')
  Inv-move = record {
    entries = (Ordered-move gives (ordered inv) lt mv).entries;
    order = (Ordered-move gives (ordered inv) lt mv).order;
    small = small-mover mv given_sum (inv.ranges a lt) inv.small;
    ranges =
        put-each (λ i. InRange n (sum_to given (put pc a p') n)) pc
          (InRange-mono n p' given_le (InRange-mover gives mv lt inv.small (inv.ranges a lt)))
          (λ i li ne. InRange-mono n (pc i) given_le (inv.ranges i li));
    counted = omega (
      arith,
      inv.counted,
      made-mover mv (inv.loaded a lt),
      sum_to-put (made n_iterations) pc n a p' lt,
    );
    loaded =
        put-each (λ i. IsLoaded m'.accumulator) pc (IsLoaded-mover mv (inv.loaded a lt))
          (λ i li ne.
            IsLoaded-other (pc i) mv (λ ca ci. ne (Inv-exclusive inv i a li lt ci ca))
              (inv.loaded i li));
  }

clear-entries :
    (k : ℕ) (m : Memory) (i : ℕ) → i < k → HasEntries (clear k m).choosing (clear k m).ticket i idle
unfolding clear put
clear-entries zero m i l = absurd (omega arith)
clear-entries (suc k) m i l = ground (arith, clear-entries k m i)

clear-accumulator : (k : ℕ) (m : Memory) → (clear k m).accumulator ≡ m.accumulator
unfolding clear
clear-accumulator zero m = refl
clear-accumulator (suc k) m = clear-accumulator k m

lamport_mutex_init-Inv :
    (n n_iterations : ℕ) (m : Memory) → Inv n n_iterations (lamport_mutex_init n m) (λ _. idle)
unfolding lamport_mutex_init level InRange IsLoaded made
lamport_mutex_init-Inv n n_iterations m = record {
  entries = clear-entries n cleared;
  order = λ i j li lj ne. tt;
  small = λ i l. omega (arith, (clear-entries n cleared i l).1);
  ranges = λ i l. tt;
  counted = omega (
    arith,
    clear-accumulator n cleared,
    sum_to-eq (made n_iterations) (λ _. idle) n 0 (λ _ _. refl),
  );
  loaded = λ i l. tt;
}
  where
    cleared : Memory
    cleared = record m { accumulator = 0 }

pub Runs-Inv :
    {n n_iterations : ℕ} {Returns : ℕ → ℕ → Type 0} {s : System n n_iterations Returns}
    → ((max r : ℕ) → Returns max r → r ≡ max)
    → Runs n n_iterations Returns s
    → Inv n n_iterations s.memory s.pc
Runs-Inv {n} {n_iterations} gives (start m) = lamport_mutex_init-Inv n n_iterations m
Runs-Inv gives (later r (pick a lt mv)) = Inv-move gives (Runs-Inv gives r) lt mv
