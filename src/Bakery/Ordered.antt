-- ===== src/Bakery/Ordered.antt =====
-- The order of the threads in the bakery, as a whole: every move keeps it, and two threads are never
-- past each other.
use threaded_network_adder.Base.{
  ℕ, ◌≤◌, ◌<◌, ◌≡◌, ◌≢◌, refl, sym, arith, Bool, true, false, inl, inr, put-each, put, ℕ-cases,
}
use threaded_network_adder.Bakery.Lock.{Memory, Move, Pc, add_store, adding, leaving}
use threaded_network_adder.Bakery.Order.{level, IsAhead, IsBefore, HasEntries}
use threaded_network_adder.Bakery.Moves.{IsBefore-mover, IsBefore-moved, IsBefore-others}
use threaded_network_adder.Bakery.Entries.{HasEntries-mover, HasEntries-other}

pub record Ordered (n : ℕ) (m : Memory) (pc : ℕ → Pc) : Type 0 where
  pub entries : (i : ℕ) → i < n → HasEntries m.choosing m.ticket i (pc i)
  pub order : (i j : ℕ) → i < n → j < n → i ≢ j → IsBefore m.ticket i j (pc j) (level (pc i) j)

-- In lamport_thread_process, between lamport_mutex_lock and lamport_mutex_unlock.
unfoldable pub critical : Pc → Bool
critical (adding c) = true
critical (add_store c a) = true
critical leaving = true
critical _ = false

level-critical : (p : Pc) (j : ℕ) → critical p ≡ true → 3 ≤ level p j
unfolding critical level
level-critical p j e = ground arith

critical-IsAhead :
    (t : ℕ → ℕ) (i j l : ℕ) (q : Pc) → critical q ≡ true → IsBefore t i j q l → IsAhead t i j l
unfolding critical
critical-IsAhead t i j l (adding c) e b = b
critical-IsAhead t i j l (add_store c a) e b = b
critical-IsAhead t i j l leaving e b = b
critical-IsAhead t i j l _ e b = absurd (ground arith)

pub Ordered-exclusive :
    {n : ℕ} {m : Memory} {pc : ℕ → Pc}
    → Ordered n m pc
    → (i j : ℕ) → i < n
    → j < n
    → critical (pc i) ≡ true
    → critical (pc j) ≡ true
    → i ≡ j
Ordered-exclusive {m} {pc} ord i j li lj ci cj = elim (ℕ-cases i j) [
  | inl same ↦ same
  | inr differ ↦
      let first = critical-IsAhead m.ticket i j _ (pc j) cj (ord.order i j li lj differ) in
      let second =
        critical-IsAhead m.ticket j i _ (pc i) ci (ord.order j i lj li (λ e. differ (sym e))) in
      let past = level-critical (pc i) j ci in
      let passed = level-critical (pc j) i cj in
      let low = first.not_later (omega arith) in
      let high = second.not_later (omega arith) in
      absurd (
        omega
          (arith, first.tie (omega arith) (omega arith), second.tie (omega arith) (omega arith)))
]

module _ {n n_iterations : ℕ} {Returns : ℕ → ℕ → Type 0}
    (gives : (max r : ℕ) → Returns max r → r ≡ max) {m : Memory} {pc : ℕ → Pc}
    (ord : Ordered n m pc) {a : ℕ} (lt : a < n) {m' : Memory} {p' : Pc}
    (mv : Move n n_iterations Returns a m (pc a) m' p') where
  order_kept :
      (i j : ℕ)
      → i < n
      → j < n
      → i ≢ j
      → IsBefore m'.ticket i j (put pc a p' j) (level (put pc a p' i) j)
  order_kept i j li lj =
      put-each (λ j q. i ≢ j → IsBefore m'.ticket i j q (level (put pc a p' i) j)) pc
        (put-each (λ i p. i ≢ a → IsBefore m'.ticket i a p' (level p a)) pc (λ ne. absurd (ne refl))
          (λ i li ni ne. IsBefore-moved gives i (level (pc i) a) mv li ne (ord.order i a li lt ne))
          i li)
        (λ j lj nj.
          put-each (λ i p. i ≢ j → IsBefore m'.ticket i j (pc j) (level p j)) pc
            (λ ne. IsBefore-mover j (pc j) mv lj ne (ord.entries j lj) (ord.order a j lt lj ne))
            (λ i li ni ne.
              IsBefore-others i j (pc i) (pc j) mv ni nj (ord.entries a lt)
                (ord.order a i lt li (λ e. ni (sym e))) (ord.order i j li lj ne))
            i li)
        j lj

  pub Ordered-move : Ordered n m' (put pc a p')
  Ordered-move = record {
    entries =
        put-each (HasEntries m'.choosing m'.ticket) pc (HasEntries-mover mv (ord.entries a lt))
          (λ i li ne. HasEntries-other i (pc i) mv ne (ord.entries i li));
    order = order_kept;
  }
