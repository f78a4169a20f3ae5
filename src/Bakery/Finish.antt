-- ===== src/Bakery/Finish.antt =====
-- From every state that the threads of the bakery reach, they can all finish.
use threaded_network_adder.Base.{
  ℕ, zero, suc, ◌*◌, ◌≤◌, ◌<◌, ◌≡◌, ◌≢◌, inl, inr, refl, arith, true, false, Bool-cases, put,
  put_same, ℕ-cases,
}
use native.Mathlib.Decide.{dec_lt}
use threaded_network_adder.Bakery.Lock.{
  choose, read_first, read_greater, read_smaller, read_again, give, store, enter_scan, not_choosing,
  no_ticket, has_ticket, is_less, not_less, not_equal, not_before, load, add, unlock, scan, System,
  Runs, later, Leads, now, next, all_done, Pc, idle, chosen, reading, rereading, returned, stored,
  wait_choosing, wait_ticket, wait_less, wait_equal, adding, add_store, leaving, done,
}
use threaded_network_adder.Bakery.Order.{HasEntries}
use threaded_network_adder.Bakery.Invariant.{Runs-Inv}
use threaded_network_adder.Bakery.Exclusion.{all_done-cases, accumulator-all_done}
use threaded_network_adder.Bakery.Progress.{waits_for, WaitsOn, IsFree, no_deadlock}
use threaded_network_adder.Bakery.Inside.{IsInside, Runs-IsInside}
use threaded_network_adder.Bakery.Turns.{
  rank, rank-scan, rank-again, ranks, Goes, Advance, Goes-next, Goes-one, Goes-Advance,
}

-- A thread at the tests of lamport_mutex_lock that waits on no one comes to the next thread.
module _ {n n_iterations : ℕ} {Returns : ℕ → ℕ → Type 0} {i j : ℕ} (li : i < n) where
  pass_equal :
      (s : System n n_iterations Returns)
      → 0 < s.memory.ticket i
      → waits_for s.memory i j ≡ false
      → s.pc i ≡ wait_equal j
      → Goes s i (scan n (suc j))
  unfolding waits_for
  pass_equal s ticket free at = elim (ℕ-cases (s.memory.ticket j) (s.memory.ticket i)) [
    | inl same ↦ Goes-one s li at (not_before same (ground arith))
    | inr differ ↦ Goes-one s li at (not_equal differ)
  ]

  pass_less :
      (s : System n n_iterations Returns)
      → 0 < s.memory.ticket i
      → waits_for s.memory i j ≡ false
      → s.pc i ≡ wait_less j
      → Goes s i (scan n (suc j))
  unfolding waits_for
  pass_less s ticket free at = elim (dec_lt (s.memory.ticket j) (s.memory.ticket i)) [
    | yes less ↦ Goes-next s li at (is_less less) (
        Goes-one (record s { pc = put s.pc i (wait_ticket j) }) li (put_same s.pc i (wait_ticket j))
          (no_ticket (ground arith)))
    | no not_smaller ↦ Goes-next s li at (not_less (omega arith)) (
        pass_equal (record s { pc = put s.pc i (wait_equal j) }) ticket free
          (put_same s.pc i (wait_equal j)))
  ]

  pass_ticket :
      (s : System n n_iterations Returns)
      → 0 < s.memory.ticket i
      → waits_for s.memory i j ≡ false
      → s.pc i ≡ wait_ticket j
      → Goes s i (scan n (suc j))
  pass_ticket s ticket free at = elim (ℕ-cases (s.memory.ticket j) 0) [
    | inl none ↦ Goes-one s li at (no_ticket none)
    | inr some ↦ Goes-next s li at (has_ticket some) (
        pass_less (record s { pc = put s.pc i (wait_less j) }) ticket free
          (put_same s.pc i (wait_less j)))
  ]

module _ {n n_iterations : ℕ} {Returns : ℕ → ℕ → Type 0} (answers : (max : ℕ) → Returns max max)
    (s : System n n_iterations Returns) {i : ℕ} (li : i < n) where
  IsFree-Advance :
      (p : Pc)
      → s.pc i ≡ p
      → HasEntries s.memory.choosing s.memory.ticket i p
      → IsInside n n_iterations p
      → IsFree s.memory i p
      → Advance s
  unfolding rank IsInside WaitsOn
  IsFree-Advance idle at h l free = Goes-Advance s li at (Goes-one s li at choose) (omega arith)
  IsFree-Advance chosen at h l free =
      Goes-Advance s li at (Goes-one s li at read_first) (omega (arith, li))
  IsFree-Advance (reading k max) at h l free = elim (dec_lt k n) [
    | yes more ↦ elim (dec_lt max (s.memory.ticket k)) [
      | yes greater ↦
          Goes-Advance s li at (Goes-one s li at (read_greater more greater)) (omega arith)
      | no smaller ↦
          Goes-Advance s li at (Goes-one s li at (read_smaller more (omega arith))) (omega arith)
    ]
    | no over ↦
        Goes-Advance s li at (Goes-one s li at (give (omega arith) (answers max))) (omega arith)
  ]
  IsFree-Advance (rereading k max) at h l free =
      Goes-Advance s li at (Goes-one s li at read_again) (omega arith)
  IsFree-Advance (returned r) at h l free =
      Goes-Advance s li at (Goes-one s li at store) (omega arith)
  IsFree-Advance stored at h l free =
      Goes-Advance s li at (Goes-one s li at enter_scan) (omega (arith, rank-scan n n_iterations 0))
  IsFree-Advance (wait_choosing j) at h l free = elim (Bool-cases (s.memory.choosing j)) [
    | inl b ↦ absurd (free.unblocked j (refl, b))
    | inr b ↦ Goes-Advance s li at (Goes-one s li at (not_choosing b)) (omega arith)
  ]
  IsFree-Advance (wait_ticket j) at h l free = elim (Bool-cases (waits_for s.memory i j)) [
    | inl b ↦ absurd (free.unblocked j (refl, b))
    | inr b ↦
        Goes-Advance s li at (pass_ticket li s h.1 b at)
          (omega (arith, rank-scan n n_iterations (suc j)))
  ]
  IsFree-Advance (wait_less j) at h l free = elim (Bool-cases (waits_for s.memory i j)) [
    | inl b ↦ absurd (free.unblocked j (refl, b))
    | inr b ↦
        Goes-Advance s li at (pass_less li s h.1 b at)
          (omega (arith, rank-scan n n_iterations (suc j)))
  ]
  IsFree-Advance (wait_equal j) at h l free = elim (Bool-cases (waits_for s.memory i j)) [
    | inl b ↦ absurd (free.unblocked j (refl, b))
    | inr b ↦
        Goes-Advance s li at (pass_equal li s h.1 b at)
          (omega (arith, rank-scan n n_iterations (suc j)))
  ]
  IsFree-Advance (adding c) at h l free = Goes-Advance s li at (Goes-one s li at load) (omega arith)
  IsFree-Advance (add_store c a) at h l free =
      Goes-Advance s li at (Goes-one s li at add) (omega (arith, rank-again n n_iterations c))
  IsFree-Advance leaving at h l free = Goes-Advance s li at (Goes-one s li at unlock) (omega arith)
  IsFree-Advance done at h l free = absurd (free.unfinished refl)

module _ {n n_iterations : ℕ} {Returns : ℕ → ℕ → Type 0}
    (gives : (max r : ℕ) → Returns max r → r ≡ max) (answers : (max : ℕ) → Returns max max)
    (some_iterations : 0 < n_iterations) where
  Leads-Runs :
      {s t : System n n_iterations Returns}
      → Leads n n_iterations Returns s t
      → Runs n n_iterations Returns s
      → Runs n n_iterations Returns t
  Leads-Runs now r = r
  Leads-Runs (next st l) r = Leads-Runs l (later r st)

  Leads-trans :
      {s t u : System n n_iterations Returns}
      → Leads n n_iterations Returns s t
      → Leads n n_iterations Returns t u
      → Leads n n_iterations Returns s u
  Leads-trans now k = k
  Leads-trans (next st l) k = next st (Leads-trans l k)

  Runs-Advance :
      {s : System n n_iterations Returns}
      → Runs n n_iterations Returns s
      → (i : ℕ) → i < n
      → s.pc i ≢ done
      → Advance s
  Runs-Advance {s} r i l e =
      let inv = Runs-Inv gives r in
      let inside = Runs-IsInside some_iterations r in
      let (j, lj, free) = no_deadlock inv inside i l e in
      IsFree-Advance answers s lj (s.pc j) refl (inv.entries j lj) (inside j lj) free

  finish :
      (fuel : ℕ) (s : System n n_iterations Returns)
      → ranks s ≤ fuel
      → Runs n n_iterations Returns s
      → (t : System n n_iterations Returns) × Leads n n_iterations Returns s t
        × (all_done t.pc n ≡ true)
  finish zero s le r = elim (all_done-cases s.pc n) [
    | inl all ↦ (s, now, all)
    | inr (i, li, e) ↦ absurd (omega (arith, (Runs-Advance r i li e).lower))
  ]
  finish (suc fuel) s le r = elim (all_done-cases s.pc n) [
    | inl all ↦ (s, now, all)
    | inr (i, li, e) ↦
        let onward = Runs-Advance r i li e in
        let (t, l, all) =
          finish fuel onward.last (omega (arith, onward.lower)) (Leads-Runs onward.leads r) in
        (t, Leads-trans onward.leads l, all)
  ]

  -- If max_ticket gives its caller the maximum it computed, and a thread makes at least one
  -- iteration, the threads can finish from every state they reach: some further steps lead to a
  -- state where all are done and the accumulator is the number of threads times that of their
  -- iterations.
  pub Runs-finish :
      {s : System n n_iterations Returns}
      → Runs n n_iterations Returns s
      → (t : System n n_iterations Returns) × Leads n n_iterations Returns s t
        × (all_done t.pc n ≡ true)
        × (t.memory.accumulator ≡ n * n_iterations)
  Runs-finish {s} r =
      let (t, l, all) = finish (ranks s) s (omega arith) r in
      (t, l, all, accumulator-all_done gives (Leads-Runs l r) all)
