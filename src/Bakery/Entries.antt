-- ===== src/Bakery/Entries.antt =====
-- What a move does to the entries of choosing and ticket, of the mover and of another thread.
use threaded_network_adder.Base.{
  ℕ, suc, ◌+◌, ◌<◌, ◌≡◌, ◌≢◌, arith, Bool, true, false, ltb, ◌==◌, if_intro, put, put_same,
  put_other,
}
use threaded_network_adder.Bakery.Lock.{
  Memory, Move, choose, read_first, read_greater, read_smaller, read_again, give, store, enter_scan,
  spin, not_choosing, no_ticket, has_ticket, is_less, not_less, is_before, not_equal, not_before,
  load, add, unlock, scan, again, Pc,
}
use threaded_network_adder.Bakery.Order.{HasEntries}

HasEntries-put_choosing :
    (c : ℕ → Bool) (t : ℕ → ℕ) (v : Bool) (q : Pc) {a j : ℕ}
    → j ≢ a
    → HasEntries c t j q
    → HasEntries (put c a v) t j q
HasEntries-put_choosing c t v q {a} {j} ne h = ground (arith, put_other c v ne)

HasEntries-put_ticket :
    (c : ℕ → Bool) (t : ℕ → ℕ) (v : ℕ) (q : Pc) {a j : ℕ}
    → j ≢ a
    → HasEntries c t j q
    → HasEntries c (put t a v) j q
HasEntries-put_ticket c t v q {a} {j} ne h = ground (arith, put_other t v ne)

HasEntries-scan :
    (c : ℕ → Bool) (t : ℕ → ℕ) (n a k : ℕ) → (c a ≡ false) × (0 < t a) → HasEntries c t a (scan n k)
unfolding scan
HasEntries-scan c t n a k h = if_intro (HasEntries c t a) (ltb k n) _ _ h h

module _ {n n_iterations a : ℕ} {Returns : ℕ → ℕ → Type 0} {m : Memory} where
  pub HasEntries-other :
      {p p' : Pc} {m' : Memory} (j : ℕ) (q : Pc)
      → Move n n_iterations Returns a m p m' p'
      → j ≢ a
      → HasEntries m.choosing m.ticket j q
      → HasEntries m'.choosing m'.ticket j q
  HasEntries-other j q choose ne h = HasEntries-put_choosing m.choosing m.ticket true q ne h
  HasEntries-other j q enter_scan ne h = HasEntries-put_choosing m.choosing m.ticket false q ne h
  HasEntries-other j q (store {r}) ne h = HasEntries-put_ticket m.choosing m.ticket (r + 1) q ne h
  HasEntries-other j q unlock ne h = HasEntries-put_ticket m.choosing m.ticket 0 q ne h
  HasEntries-other j q _ ne h = h

  pub HasEntries-mover :
      {p p' : Pc} {m' : Memory}
      → Move n n_iterations Returns a m p m' p'
      → HasEntries m.choosing m.ticket a p
      → HasEntries m'.choosing m'.ticket a p'
  unfolding again
  HasEntries-mover choose h = (put_same m.choosing a true, h.1)
  HasEntries-mover read_first h = h
  HasEntries-mover (read_greater _ _) h = h
  HasEntries-mover (read_smaller _ _) h = h
  HasEntries-mover read_again h = h
  HasEntries-mover (give _ _) h = h
  HasEntries-mover (store {r}) h = (h.0, omega (arith, put_same m.ticket a (r + 1)))
  HasEntries-mover enter_scan h =
      HasEntries-scan (put m.choosing a false) m.ticket n a 0 (put_same m.choosing a false, h.1)
  HasEntries-mover (spin _) h = h
  HasEntries-mover (not_choosing e) h = h
  HasEntries-mover (no_ticket {j = k} e) h = HasEntries-scan m.choosing m.ticket n a (suc k) h
  HasEntries-mover (has_ticket _) h = h
  HasEntries-mover (is_less _) h = h
  HasEntries-mover (not_less e) h = h
  HasEntries-mover (is_before _ _) h = h
  HasEntries-mover (not_equal {j = k} e) h = HasEntries-scan m.choosing m.ticket n a (suc k) h
  HasEntries-mover (not_before {j = k} e le) h = HasEntries-scan m.choosing m.ticket n a (suc k) h
  HasEntries-mover load h = h
  HasEntries-mover (add {c}) h =
      if_intro (HasEntries m.choosing m.ticket a) (suc c == n_iterations) _ _ h h
  HasEntries-mover unlock h = (h.0, put_same m.ticket a 0)
