-- ===== src/Bakery/Progress.antt =====
-- The waits of lamport_mutex_lock: some thread that is not done waits for no other.
use threaded_network_adder.Base.{
  ℕ, zero, suc, ◌+◌, ◌*◌, ◌<◌, ◌≡◌, ◌≢◌, ◌⊎◌, inl, inr, refl, subst, arith, Bool, true, not, ◌&&◌,
  ◌||◌, ltb, ◌==◌, Bool-cases,
}
use threaded_network_adder.Bakery.Lock.{
  Memory, Pc, chosen, reading, rereading, returned, stored, wait_choosing, wait_ticket, wait_less,
  wait_equal, done,
}
use threaded_network_adder.Bakery.Order.{HasEntries}
use threaded_network_adder.Bakery.Inside.{IsInside}
use threaded_network_adder.Bakery.Invariant.{Inv}

-- The condition of the second `while` of thread `i`, for thread `j`.
unfoldable pub waits_for : Memory → ℕ → ℕ → Bool
waits_for m i j =
    not (m.ticket j == 0)
    && (ltb (m.ticket j) (m.ticket i) || (m.ticket j == m.ticket i && ltb j i))

-- The thread that a thread in one of the two `while` loops waits for, if the test holds now.
unfoldable pub WaitsOn : Memory → ℕ → Pc → ℕ → Type 0
WaitsOn m i (wait_choosing j) k = (k ≡ j) × (m.choosing j ≡ true)
WaitsOn m i (wait_ticket j) k = (k ≡ j) × (waits_for m i j ≡ true)
WaitsOn m i (wait_less j) k = (k ≡ j) × (waits_for m i j ≡ true)
WaitsOn m i (wait_equal j) k = (k ≡ j) × (waits_for m i j ≡ true)
WaitsOn m i _ k = ⊥

-- Who waits on no one, and is not done.
pub record IsFree (m : Memory) (i : ℕ) (p : Pc) : Type 0 where
  pub unblocked : (k : ℕ) → WaitsOn m i p k → ⊥
  pub unfinished : p ≢ done

-- A thread whose loop goes round while `test` holds, and then waits on `j`.
loop-cases :
    (n : ℕ) (m : Memory) (i j : ℕ) (p : Pc) (test : Bool)
    → j < n
    → p ≢ done
    → ((k : ℕ) → WaitsOn m i p k → test ≡ true)
    → (test ≡ true → WaitsOn m i p j)
    → IsFree m i p ⊎ ((k : ℕ) × (k < n) × WaitsOn m i p k)
loop-cases n m i j p test h e holds waits = elim (Bool-cases test) [
  | inl b ↦ inr (j, h, waits b)
  | inr b ↦ inl (record { unblocked = λ k w. ground (arith, holds k w); unfinished = e })
]

WaitsOn-cases :
    (n n_iterations : ℕ) (m : Memory) (i : ℕ) (p : Pc)
    → IsInside n n_iterations p
    → p ≢ done
    → IsFree m i p ⊎ ((k : ℕ) × (k < n) × WaitsOn m i p k)
unfolding WaitsOn IsInside
WaitsOn-cases n n_iterations m i (wait_choosing j) h e =
    loop-cases n m i j (wait_choosing j) (m.choosing j) h e (λ k w. w.1) (λ b. (refl, b))
WaitsOn-cases n n_iterations m i (wait_ticket j) h e =
    loop-cases n m i j (wait_ticket j) (waits_for m i j) h e (λ k w. w.1) (λ b. (refl, b))
WaitsOn-cases n n_iterations m i (wait_less j) h e =
    loop-cases n m i j (wait_less j) (waits_for m i j) h e (λ k w. w.1) (λ b. (refl, b))
WaitsOn-cases n n_iterations m i (wait_equal j) h e =
    loop-cases n m i j (wait_equal j) (waits_for m i j) h e (λ k w. w.1) (λ b. (refl, b))
WaitsOn-cases n n_iterations m i _ h e = inl (record { unblocked = λ k w. w; unfinished = e })

-- A thread that chooses waits on no one.
choosing-IsFree :
    (m : Memory) (k : ℕ) (p : Pc)
    → HasEntries m.choosing m.ticket k p
    → m.choosing k ≡ true
    → IsFree m k p
unfolding WaitsOn
choosing-IsFree m k chosen h e = record { unblocked = λ _ w. w; unfinished = λ f. cc }
choosing-IsFree m k (reading x max) h e = record { unblocked = λ _ w. w; unfinished = λ f. cc }
choosing-IsFree m k (rereading x max) h e = record { unblocked = λ _ w. w; unfinished = λ f. cc }
choosing-IsFree m k (returned r) h e = record { unblocked = λ _ w. w; unfinished = λ f. cc }
choosing-IsFree m k stored h e = record { unblocked = λ _ w. w; unfinished = λ f. cc }
choosing-IsFree m k _ h e = absurd (ground arith)

lex-lt : (n k i a b : ℕ) → k < n → a < b → a * n + k < b * n + i
lex-lt n k i zero zero h l = absurd (omega arith)
lex-lt n k i zero (suc b) h l = ground arith
lex-lt n k i (suc a) zero h l = absurd (omega arith)
lex-lt n k i (suc a) (suc b) h l = ground (arith, lex-lt n k i a b)

-- Along the waits of the second loop the tickets go down.
waits_for-lt :
    (m : Memory) (n i k : ℕ)
    → k < n
    → waits_for m i k ≡ true
    → m.ticket k * n + k < m.ticket i * n + i
unfolding waits_for
waits_for-lt m n i k lk e = ground (arith, lex-lt n k i (m.ticket k) (m.ticket i))

waits_for-ticket : (m : Memory) (i k : ℕ) → waits_for m i k ≡ true → m.ticket k ≢ 0
unfolding waits_for
waits_for-ticket m i k e = ground arith

entries-unfinished :
    (m : Memory) (k : ℕ) (p : Pc) → HasEntries m.choosing m.ticket k p → m.ticket k ≢ 0 → p ≢ done
entries-unfinished m k p h e d = e ((subst (HasEntries m.choosing m.ticket k) d h).1)

-- The next thread on a chain of waits is free, or has not finished and its ticket is less.
abbrev GoesDown : Memory → ℕ → ℕ → ℕ → Pc → Type 0
GoesDown m n i k q = IsFree m k q ⊎ ((q ≢ done) × (m.ticket k * n + k < m.ticket i * n + i))

waits_for-GoesDown :
    (m : Memory) (n i j k : ℕ) (q : Pc)
    → k < n
    → HasEntries m.choosing m.ticket k q
    → (k ≡ j) × (waits_for m i j ≡ true)
    → GoesDown m n i k q
waits_for-GoesDown m n i j k q lk h w =
    let e : waits_for m i k ≡ true = rw w.0 w.1 in
    inr (entries-unfinished m k q h (waits_for-ticket m i k e), waits_for-lt m n i k lk e)

WaitsOn-GoesDown :
    (m : Memory) (n i k : ℕ) (p q : Pc)
    → k < n
    → HasEntries m.choosing m.ticket k q
    → WaitsOn m i p k
    → GoesDown m n i k q
unfolding WaitsOn
WaitsOn-GoesDown m n i k (wait_choosing j) q lk h w = inl (choosing-IsFree m k q h (ground arith))
WaitsOn-GoesDown m n i k (wait_ticket j) q lk h w = waits_for-GoesDown m n i j k q lk h w
WaitsOn-GoesDown m n i k (wait_less j) q lk h w = waits_for-GoesDown m n i j k q lk h w
WaitsOn-GoesDown m n i k (wait_equal j) q lk h w = waits_for-GoesDown m n i j k q lk h w
WaitsOn-GoesDown m n i k _ q lk h w = absurd w

module _ {n n_iterations : ℕ} {m : Memory} {pc : ℕ → Pc} (inv : Inv n n_iterations m pc)
    (inside : (i : ℕ) → i < n → IsInside n n_iterations (pc i)) where
  follow_waits :
      (fuel i : ℕ)
      → i < n
      → pc i ≢ done
      → m.ticket i * n + i < fuel
      → (j : ℕ) × (j < n) × IsFree m j (pc j)
  follow_waits zero i li e h = absurd (omega arith)
  follow_waits (suc fuel) i li e h =
      elim (WaitsOn-cases n n_iterations m i (pc i) (inside i li) e) [
        | inl free ↦ (i, li, free)
        | inr (k, lk, w) ↦ elim (WaitsOn-GoesDown m n i k (pc i) (pc k) lk (inv.entries k lk) w) [
          | inl free ↦ (k, lk, free)
          | inr (unfinished, less) ↦ follow_waits fuel k lk unfinished (omega (arith, less))
        ]
      ]

  -- Unless all threads are done, some thread waits on no other.
  pub no_deadlock : (i : ℕ) → i < n → pc i ≢ done → (j : ℕ) × (j < n) × IsFree m j (pc j)
  no_deadlock i li e = follow_waits (suc (m.ticket i * n + i)) i li e (omega arith)
