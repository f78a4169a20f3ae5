-- ===== src/Bakery/Order.antt =====
-- Who is before whom in the bakery, as the two threads' places in lamport_mutex_lock tell.
use threaded_network_adder.Base.{
  ℕ, ◌≤◌, ◌<◌, ◌≡◌, arith, Bool, true, false, ltb, ◌==◌, if◌then◌else◌,
}
use threaded_network_adder.Bakery.Lock.{
  Pc, idle, chosen, reading, rereading, returned, stored, wait_choosing, wait_ticket, wait_less,
  wait_equal, adding, add_store, leaving, done,
}

-- How far a thread at `p` has come past thread `j`: not yet; it has seen that `j` does not choose;
-- it has also seen that the ticket of `j` is not less; or it has gone on to the next thread.
unfoldable pub level : Pc → ℕ → ℕ
level (wait_choosing k) j = if ltb j k then 3 else 0
level (wait_ticket k) j = if ltb j k then 3 else if j == k then 1 else 0
level (wait_less k) j = if ltb j k then 3 else if j == k then 1 else 0
level (wait_equal k) j = if ltb j k then 3 else if j == k then 2 else 0
level (adding c) j = 3
level (add_store c a) j = 3
level leaving j = 3
level _ j = 0

-- `i`, at the level `l`, comes before a thread `j` that has its ticket.
pub record IsAhead (t : ℕ → ℕ) (i j l : ℕ) : Type 0 where
  pub not_later : 2 ≤ l → t i ≤ t j
  pub tie : 3 ≤ l → t i ≡ t j → i < j

-- `i`, at the level `l`, comes before a thread `j` at the given place. While `j` chooses, its
-- maximum so far is no less than the ticket of `i`, or it has still to read that.
abbrev pub IsBefore : (ℕ → ℕ) → ℕ → ℕ → Pc → ℕ → Type 0
IsBefore t i j idle l = Unit
IsBefore t i j chosen l = Unit
IsBefore t i j (reading k max) l = 1 ≤ l → i < k → t i ≤ max
IsBefore t i j (rereading k max) l = 1 ≤ l → i < k → (t i ≤ max) × (t i < t k)
IsBefore t i j (returned r) l = 1 ≤ l → t i ≤ r
IsBefore t i j done l = Unit
IsBefore t i j _ l = IsAhead t i j l

-- What the arrays hold of a thread at the given place.
abbrev pub HasEntries : (ℕ → Bool) → (ℕ → ℕ) → ℕ → Pc → Type 0
HasEntries c t j idle = (c j ≡ false) × (t j ≡ 0)
HasEntries c t j chosen = (c j ≡ true) × (t j ≡ 0)
HasEntries c t j (reading k max) = (c j ≡ true) × (t j ≡ 0)
HasEntries c t j (rereading k max) = (c j ≡ true) × (t j ≡ 0)
HasEntries c t j (returned r) = (c j ≡ true) × (t j ≡ 0)
HasEntries c t j stored = (c j ≡ true) × (0 < t j)
HasEntries c t j done = (c j ≡ false) × (t j ≡ 0)
HasEntries c t j _ = (c j ≡ false) × (0 < t j)

module _ (t : ℕ → ℕ) (i j : ℕ) where
  IsAhead-zero : IsAhead t i j 0
  IsAhead-zero = record { not_later = λ h. absurd (omega arith); tie = λ h. absurd (omega arith) }

  IsAhead-mono : {l l' : ℕ} → l' ≤ l → IsAhead t i j l → IsAhead t i j l'
  IsAhead-mono h a = record {
    not_later = λ k. a.not_later (omega arith);
    tie = λ k. a.tie (omega arith);
  }

  -- A thread that has come past none is before none.
  pub IsBefore-zero : (p : Pc) → IsBefore t i j p 0
  IsBefore-zero idle = tt
  IsBefore-zero chosen = tt
  IsBefore-zero (reading k max) = λ h. absurd (omega arith)
  IsBefore-zero (rereading k max) = λ h. absurd (omega arith)
  IsBefore-zero (returned r) = λ h. absurd (omega arith)
  IsBefore-zero done = tt
  IsBefore-zero _ = IsAhead-zero

  pub IsBefore-mono : {l l' : ℕ} → l' ≤ l → (p : Pc) → IsBefore t i j p l → IsBefore t i j p l'
  IsBefore-mono h idle b = tt
  IsBefore-mono h chosen b = tt
  IsBefore-mono h (reading k max) b = λ e. b (omega arith)
  IsBefore-mono h (rereading k max) b = λ e. b (omega arith)
  IsBefore-mono h (returned r) b = λ e. b (omega arith)
  IsBefore-mono h done b = tt
  IsBefore-mono h _ b = IsAhead-mono h b

  -- A thread that is seen not to choose is no obstacle.
  pub IsBefore-not_choosing :
      (c : ℕ → Bool) (p : Pc) → HasEntries c t j p → c j ≡ false → IsBefore t i j p 1
  IsBefore-not_choosing c idle h e = tt
  IsBefore-not_choosing c chosen h e = tt
  IsBefore-not_choosing c (reading k max) h e = absurd (ground arith)
  IsBefore-not_choosing c (rereading k max) h e = absurd (ground arith)
  IsBefore-not_choosing c (returned r) h e = absurd (ground arith)
  IsBefore-not_choosing c done h e = tt
  IsBefore-not_choosing c _ h e = record {
    not_later = λ k. absurd (omega arith);
    tie = λ k. absurd (omega arith);
  }

  -- Nor is one without a ticket, once it was seen not to choose.
  pub IsBefore-no_ticket :
      (c : ℕ → Bool) (p : Pc)
      → HasEntries c t j p
      → t j ≡ 0
      → IsBefore t i j p 1
      → IsBefore t i j p 3
  IsBefore-no_ticket c idle h e b = tt
  IsBefore-no_ticket c chosen h e b = tt
  IsBefore-no_ticket c (reading k max) h e b = λ _. b (omega arith)
  IsBefore-no_ticket c (rereading k max) h e b = λ _. b (omega arith)
  IsBefore-no_ticket c (returned r) h e b = λ _. b (omega arith)
  IsBefore-no_ticket c done h e b = tt
  IsBefore-no_ticket c stored h e b = absurd (omega (arith, h.1, e))
  IsBefore-no_ticket c _ h e b = absurd (omega (arith, h.1, e))

  -- Nor one whose ticket was seen not to be less.
  pub IsBefore-not_less : (p : Pc) → t i ≤ t j → IsBefore t i j p 1 → IsBefore t i j p 2
  IsBefore-not_less idle e b = tt
  IsBefore-not_less chosen e b = tt
  IsBefore-not_less (reading k max) e b = λ _. b (omega arith)
  IsBefore-not_less (rereading k max) e b = λ _. b (omega arith)
  IsBefore-not_less (returned r) e b = λ _. b (omega arith)
  IsBefore-not_less done e b = tt
  IsBefore-not_less _ e b = record { not_later = λ _. e; tie = λ k. absurd (omega arith) }

  pub IsBefore-tie : (p : Pc) → (t i ≡ t j → i < j) → IsBefore t i j p 2 → IsBefore t i j p 3
  IsBefore-tie idle e b = tt
  IsBefore-tie chosen e b = tt
  IsBefore-tie (reading k max) e b = λ _. b (omega arith)
  IsBefore-tie (rereading k max) e b = λ _. b (omega arith)
  IsBefore-tie (returned r) e b = λ _. b (omega arith)
  IsBefore-tie done e b = tt
  IsBefore-tie _ e b = record { not_later = λ _. b.not_later (omega arith); tie = λ _. e }
