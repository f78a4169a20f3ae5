-- ===== src/Bakery/Repeated/Steps.antt =====
-- Each access of a thread of libbakery.c as one of lamport.c, or as none.
use threaded_network_adder.Base.{
  ℕ, ◌<◌, ◌≡◌, ◌≢◌, refl, sym, ap, subst, inl, inr, true, arith, put, put-each, Bool-cases, ◌==◌,
}
use threaded_network_adder.Bakery.Lock.{
  Memory, Pc, Move, load, add, unlock, again, idle, adding, add_store, leaving, done,
}
use threaded_network_adder.Bakery.Order.{level, IsBefore, HasEntries}
use threaded_network_adder.Bakery.Ordered.{Ordered, Ordered-move}
use threaded_network_adder.Bakery.Repeated.{
  Shared, Place, locking, checking, counting, has_counted, unlocking, freeing, testing, ended,
  RepeatedMove, locks, sets, complains, enters, loads, stores, clears, frees, repeats, ends,
  lamport_mutex_lock, lamport_mutex_unlock,
}

-- The place of a thread of lamport.c with one iteration.
unfoldable pub view : Place → Pc
view (locking p) = p
view checking = adding 0
view counting = adding 0
view (has_counted a) = add_store 0 a
view unlocking = leaving
view freeing = leaving
view testing = done
view ended = done

abbrev pub views : (ℕ → Place) → ℕ → Pc
views place i = view (place i)

views-put :
    (place : ℕ → Place) (a : ℕ) (p : Place) → put (views place) a (view p) ≡ views (put place a p)
unfolding put
views-put place a p = λ t i. at i t
  where
    at : (i : ℕ) → put (views place) a (view p) i ≡ views (put place a p) i
    at i = elim (Bool-cases (a == i)) [ inl same ↦ rw same refl | inr differ ↦ rw differ refl ]

-- A thread that goes to a place where the same is known of it.
Ordered-put :
    {n : ℕ} {m : Memory} {pc : ℕ → Pc} {a : ℕ} (q : Pc)
    → a < n
    → Ordered n m pc
    → (HasEntries m.choosing m.ticket a (pc a) → HasEntries m.choosing m.ticket a q)
    → ((j : ℕ) → level q j ≡ level (pc a) j)
    → ((i l : ℕ) → IsBefore m.ticket i a (pc a) l → IsBefore m.ticket i a q l)
    → Ordered n m (put pc a q)
Ordered-put {n} {m} {pc} {a} q lt ord fits same before = record {
  entries =
      put-each (HasEntries m.choosing m.ticket) pc (fits (ord.entries a lt))
        (λ i li ne. ord.entries i li);
  order = λ i j li lj.
      put-each (λ j p. i ≢ j → IsBefore m.ticket i j p (level (put pc a q i) j)) pc
        (put-each (λ i p. i ≢ a → IsBefore m.ticket i a q (level p a)) pc (λ ne. absurd (ne refl))
          (λ i li ni ne. before i _ (ord.order i a li lt ne)) i li)
        (λ j lj nj.
          put-each (λ i p. i ≢ j → IsBefore m.ticket i j (pc j) (level p j)) pc
            (λ ne.
              subst (λ (l : ℕ). IsBefore m.ticket a j (pc j) l) (sym (same j))
                (ord.order a j lt lj ne))
            (λ i li ni ne. ord.order i j li lj ne) i li)
        j lj;
}

module _ {n a : ℕ} {m : Memory} (place : ℕ → Place) (ord : Ordered n m (views place))
    (lt : a < n) where
  advancing :
      {Returns : ℕ → ℕ → Type 0} {p : Pc} {m' : Memory} (p' : Place)
      → ((max r : ℕ) → Returns max r → r ≡ max)
      → views place a ≡ p
      → Move n 1 Returns a m p m' (view p')
      → Ordered n m' (views (put place a p'))
  advancing {Returns} {m'} p' gives at mv = subst (Ordered n m') (views-put place a p') (
      Ordered-move gives ord lt
        (subst (λ (x : Pc). Move n 1 Returns a m x m' (view p')) (sym at) mv))

  resting : (p' : Place) → view p' ≡ views place a → Ordered n m (views (put place a p'))
  resting p' same = subst (Ordered n m) (views-put place a p') (
      Ordered-put (view p') lt ord (subst (HasEntries m.choosing m.ticket a) (sym same))
        (λ j. ap (λ (x : Pc). level x j) same)
        (λ i l. subst (λ (x : Pc). IsBefore m.ticket i a x l) (sym same)))

  restarting : views place a ≡ done → Ordered n m (views (put place a (locking idle)))
  unfolding level view
  restarting at = subst (Ordered n m) (views-put place a (locking idle)) (
      Ordered-put idle lt ord
        (subst
          (λ (x : Pc). HasEntries m.choosing m.ticket a x → HasEntries m.choosing m.ticket a idle)
          (sym at) (λ h. h))
        (λ j. ap (λ (x : Pc). level x j) (sym at)) (λ i l b. tt))

module _ {n n_iterations a : ℕ} {Returns : ℕ → ℕ → Type 0}
    (gives : (max r : ℕ) → Returns max r → r ≡ max) (s : Shared) (place : ℕ → Place) where
  pub Ordered-repeated :
      {s' : Shared} {p p' : Place}
      → Ordered n s.memory (views place)
      → a < n
      → place a ≡ p
      → RepeatedMove n n_iterations Returns a s p s' p'
      → (p ≡ checking → s.mutex_at ≡ true)
      → Ordered n s'.memory (views (put place a p'))
  unfolding lamport_mutex_lock lamport_mutex_unlock view again
  Ordered-repeated ord lt at (locks {p' = q} _ mv) set =
      advancing place ord lt (locking q) gives (ap view at) mv
  Ordered-repeated ord lt at sets set = resting place ord lt checking (sym (ap view at))
  Ordered-repeated ord lt at (complains off) set = absurd (ground (arith, set refl))
  Ordered-repeated ord lt at (enters _) set = resting place ord lt counting (sym (ap view at))
  Ordered-repeated ord lt at loads set =
      advancing place ord lt (has_counted s.memory.accumulator) gives (ap view at) load
  Ordered-repeated ord lt at (stores {a = loaded}) set =
      advancing place ord lt unlocking gives (ap view at) add
  Ordered-repeated ord lt at clears set = resting place ord lt freeing (sym (ap view at))
  Ordered-repeated ord lt at frees set = advancing place ord lt testing gives (ap view at) unlock
  Ordered-repeated ord lt at (repeats _) set = restarting place ord lt (ap view at)
  Ordered-repeated ord lt at (ends _) set = resting place ord lt ended (sym (ap view at))
