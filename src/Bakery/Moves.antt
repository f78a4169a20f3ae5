-- ===== src/Bakery/Moves.antt =====
-- What a move of one thread does to the order between it and another.
use threaded_network_adder.Base.{
  ℕ, suc, ◌+◌, ◌≤◌, ◌<◌, ◌≡◌, ◌≢◌, inl, inr, ap, arith, ltb, ◌==◌, if_intro, put, put_same,
  put_other, ℕ-cases, ℕ-order,
}
use threaded_network_adder.Bakery.Lock.{
  Memory, Move, choose, read_first, read_greater, read_smaller, read_again, give, store, enter_scan,
  spin, not_choosing, no_ticket, has_ticket, is_less, not_less, is_before, not_equal, not_before,
  load, add, unlock, scan, again, Pc, idle, chosen, reading, rereading, returned, done,
}
use threaded_network_adder.Bakery.Order.{
  level, IsBefore, HasEntries, IsBefore-zero, IsBefore-mono, IsBefore-not_choosing,
  IsBefore-no_ticket, IsBefore-not_less, IsBefore-tie,
}

level-le : (p : Pc) (j : ℕ) → level p j ≤ 3
unfolding level
level-le p j = ground arith

level-scan : (n j k : ℕ) → j < n → k < j → level (scan n (suc k)) j ≤ 0
unfolding level scan
level-scan n j k l h = ground arith

-- The step of the loop to the next thread: the threads so far are passed, and `k` is if its tests
-- say so.
IsBefore-scan :
    {n k l : ℕ} (t : ℕ → ℕ) (i j : ℕ) (q : Pc)
    → j < n
    → (j < k → 3 ≤ l)
    → (j ≡ k → IsBefore t i j q 3)
    → IsBefore t i j q l
    → IsBefore t i j q (level (scan n (suc k)) j)
IsBefore-scan {n} {k} t i j q lt past here b = elim (ℕ-order j k) [
  | inl below ↦
      let full = past below in IsBefore-mono t i j (omega (arith, level-le (scan n (suc k)) j)) q b
  | inr (inl at) ↦ IsBefore-mono t i j (level-le (scan n (suc k)) j) q (here at)
  | inr (inr above) ↦ IsBefore-mono t i j (omega (arith, level-scan n j k lt above)) q b
]

module _ {n n_iterations : ℕ} {Returns : ℕ → ℕ → Type 0} {i : ℕ} {m : Memory} (j : ℕ) (q : Pc) where
  -- The mover on its way past `j`.
  pub IsBefore-mover :
      {p p' : Pc} {m' : Memory}
      → Move n n_iterations Returns i m p m' p'
      → j < n
      → i ≢ j
      → HasEntries m.choosing m.ticket j q
      → IsBefore m.ticket i j q (level p j)
      → IsBefore m'.ticket i j q (level p' j)
  unfolding level scan again
  IsBefore-mover choose lt ne h b = IsBefore-zero m.ticket i j q
  IsBefore-mover read_first lt ne h b = IsBefore-zero m.ticket i j q
  IsBefore-mover (read_greater _ _) lt ne h b = IsBefore-zero m.ticket i j q
  IsBefore-mover (read_smaller _ _) lt ne h b = IsBefore-zero m.ticket i j q
  IsBefore-mover read_again lt ne h b = IsBefore-zero m.ticket i j q
  IsBefore-mover (give _ _) lt ne h b = IsBefore-zero m.ticket i j q
  IsBefore-mover (store {r}) lt ne h b = IsBefore-zero (put m.ticket i (r + 1)) i j q
  IsBefore-mover enter_scan lt ne h b =
      IsBefore-mono m.ticket i j (ground arith) q (IsBefore-zero m.ticket i j q)
  IsBefore-mover (spin _) lt ne h b = b
  IsBefore-mover (not_choosing {j = k} e) lt ne h b = elim (ℕ-order j k) [
    | inl below ↦ IsBefore-mono m.ticket i j (ground arith) q b
    | inr (inl at) ↦
        IsBefore-mono m.ticket i j {l = 1} (ground arith) q
          (IsBefore-not_choosing m.ticket i j m.choosing q h (ground arith))
    | inr (inr above) ↦ IsBefore-mono m.ticket i j (ground arith) q b
  ]
  IsBefore-mover (no_ticket {j = k} e) lt ne h b =
      IsBefore-scan m.ticket i j q lt (λ p. ground arith)
        (λ p.
          IsBefore-no_ticket m.ticket i j m.choosing q h (ground arith)
            (IsBefore-mono m.ticket i j (ground arith) q b))
        b
  IsBefore-mover (has_ticket _) lt ne h b = b
  IsBefore-mover (is_less _) lt ne h b = b
  IsBefore-mover (not_less {j = k} e) lt ne h b = elim (ℕ-order j k) [
    | inl below ↦ IsBefore-mono m.ticket i j (ground arith) q b
    | inr (inl at) ↦ IsBefore-mono m.ticket i j {l = 2} (ground arith) q (
        IsBefore-not_less m.ticket i j q (ground arith)
          (IsBefore-mono m.ticket i j (ground arith) q b))
    | inr (inr above) ↦ IsBefore-mono m.ticket i j (ground arith) q b
  ]
  IsBefore-mover (is_before _ _) lt ne h b = IsBefore-mono m.ticket i j (ground arith) q b
  IsBefore-mover (not_equal {j = k} e) lt ne h b =
      IsBefore-scan m.ticket i j q lt (λ p. ground arith)
        (λ p.
          IsBefore-tie m.ticket i j q (λ s. absurd (ground arith))
            (IsBefore-mono m.ticket i j (ground arith) q b))
        b
  IsBefore-mover (not_before {j = k} e le) lt ne h b =
      IsBefore-scan m.ticket i j q lt (λ p. ground arith)
        (λ p.
          IsBefore-tie m.ticket i j q (λ s. ground arith)
            (IsBefore-mono m.ticket i j (ground arith) q b))
        b
  IsBefore-mover load lt ne h b = b
  IsBefore-mover (add {c}) lt ne h b =
      IsBefore-mono m.ticket i j (level-le (again n_iterations (suc c)) j) q b
  IsBefore-mover unlock lt ne h b = IsBefore-zero (put m.ticket i 0) i j q

module _ {n n_iterations : ℕ} {Returns : ℕ → ℕ → Type 0}
    (gives : (max r : ℕ) → Returns max r → r ≡ max) (i : ℕ) {j : ℕ} {m : Memory} where
  -- A thread at the level `l` stays before the mover `j`.
  pub IsBefore-moved :
      {p p' : Pc} {m' : Memory} (l : ℕ)
      → Move n n_iterations Returns j m p m' p'
      → i < n
      → i ≢ j
      → IsBefore m.ticket i j p l
      → IsBefore m'.ticket i j p' l
  unfolding scan again
  IsBefore-moved l choose lt ne b = tt
  IsBefore-moved l read_first lt ne b = λ _ e. ground arith
  IsBefore-moved l (read_greater _ g) lt ne b = λ k e. ground (arith, b k e)
  IsBefore-moved l (read_smaller {k} _ g) lt ne b = λ h e. ground (arith, b h, ℕ-cases i k)
  IsBefore-moved l (read_again {k}) lt ne b = λ h e. ground (arith, b h, ℕ-cases i k)
  IsBefore-moved l (give {max} {r} le e) lt ne b = λ h. ground (arith, b h, gives max r e)
  IsBefore-moved l (store {r}) lt ne b = record {
    not_later = λ h.
        ground (arith, b (omega arith), put_same m.ticket j (r + 1), put_other m.ticket (r + 1) ne);
    tie = λ h e. absurd (
        ground
          (arith, b (omega arith), put_same m.ticket j (r + 1), put_other m.ticket (r + 1) ne));
  }
  IsBefore-moved l enter_scan lt ne b = if_intro (λ p. IsBefore m.ticket i j p l) (ltb 0 n) _ _ b b
  IsBefore-moved l (spin _) lt ne b = b
  IsBefore-moved l (not_choosing e) lt ne b = b
  IsBefore-moved l (no_ticket {j = k} e) lt ne b =
      if_intro (λ p. IsBefore m.ticket i j p l) (ltb (suc k) n) _ _ b b
  IsBefore-moved l (has_ticket _) lt ne b = b
  IsBefore-moved l (is_less _) lt ne b = b
  IsBefore-moved l (not_less e) lt ne b = b
  IsBefore-moved l (is_before _ _) lt ne b = b
  IsBefore-moved l (not_equal {j = k} e) lt ne b =
      if_intro (λ p. IsBefore m.ticket i j p l) (ltb (suc k) n) _ _ b b
  IsBefore-moved l (not_before {j = k} e le) lt ne b =
      if_intro (λ p. IsBefore m.ticket i j p l) (ltb (suc k) n) _ _ b b
  IsBefore-moved l load lt ne b = b
  IsBefore-moved l (add {c}) lt ne b =
      if_intro (λ p. IsBefore m.ticket i j p l) (suc c == n_iterations) _ _ b b
  IsBefore-moved l unlock lt ne b = tt

-- A thread that has come past another has a ticket, and comes after those who are in.
level-ahead : (t : ℕ → ℕ) (a i k : ℕ) (p : Pc) → 1 ≤ level p k → IsBefore t a i p 3 → t a ≤ t i
unfolding level
level-ahead t a i k idle h b = absurd (omega (arith, h))
level-ahead t a i k chosen h b = absurd (omega (arith, h))
level-ahead t a i k (reading x max) h b = absurd (omega (arith, h))
level-ahead t a i k (rereading x max) h b = absurd (omega (arith, h))
level-ahead t a i k (returned r) h b = absurd (omega (arith, h))
level-ahead t a i k done h b = absurd (omega (arith, h))
level-ahead t a i k _ h b = b.not_later (omega arith)

module _ (i j : ℕ) where
  -- The ticket of a third thread counts only where `j` is about to read it again.
  IsBefore-put :
      (t : ℕ → ℕ) (b v l : ℕ) (q : Pc)
      → i ≢ b
      → j ≢ b
      → ((max : ℕ) → q ≡ rereading b max → 1 ≤ l → i < b → t i < t b → t i < v)
      → IsBefore t i j q l
      → IsBefore (put t b v) i j q l
  unfolding put
  IsBefore-put t b v l idle ne nj h k = tt
  IsBefore-put t b v l chosen ne nj h k = tt
  IsBefore-put t b v l (reading x max) ne nj h k = λ e f. ground (arith, k e f)
  IsBefore-put t b v l (rereading x max) ne nj h k = λ e f. elim (ℕ-cases x b) [
    | inl at ↦
        let (le, less) = k e f in
        (
          ground arith,
          ground (arith, h max (ap (λ y. rereading y max) at) e (ground arith) (ground arith)),
        )
    | inr away ↦ ground (arith, k e f)
  ]
  IsBefore-put t b v l (returned r) ne nj h k = λ e. ground (arith, k e)
  IsBefore-put t b v l done ne nj h k = tt
  IsBefore-put t b v l _ ne nj h k = record {
    not_later = λ e. ground (arith, k.not_later e);
    tie = λ e f. ground (arith, k.tie e);
  }

  -- Two threads of which neither moves.
  pub IsBefore-others :
      {n n_iterations a : ℕ} {Returns : ℕ → ℕ → Type 0} {p p' : Pc} {m m' : Memory} (pi q : Pc)
      → Move n n_iterations Returns a m p m' p'
      → i ≢ a
      → j ≢ a
      → HasEntries m.choosing m.ticket a p
      → IsBefore m.ticket a i pi (level p i)
      → IsBefore m.ticket i j q (level pi j)
      → IsBefore m'.ticket i j q (level pi j)
  unfolding level
  IsBefore-others {a} {m} pi q (store {r}) ne nj ha ahead b =
      IsBefore-put m.ticket a (r + 1) (level pi j) q ne nj
        (λ max e l lt g. absurd (ground (arith, ha.1))) b
  IsBefore-others {a} {m} pi q unlock ne nj ha ahead b =
      IsBefore-put m.ticket a 0 (level pi j) q ne nj
        (λ max e l lt g. absurd (omega (arith, level-ahead m.ticket a i j pi l ahead))) b
  IsBefore-others pi q _ ne nj ha ahead b = b
