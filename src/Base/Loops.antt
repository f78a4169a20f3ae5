-- ===== src/Base/Loops.antt =====
-- The loops `while (flag) { ... }` of the program's threads, for a given number of tests of the flag.
use Prim.Native.Nat.{ℕ, zero, suc, ◌<◌}
use mathlib.Core.Path.{◌≡◌, refl}
use mathlib.Core.Bool.{Bool, true, false}
use mathlib.Core.Option.{Option, none, some}
use native.Mathlib.Omega.{arith}
use threaded_network_adder.Base.Tests.{if◌then◌else◌}

-- The flag is set for `n` tests from the `k`-th on, and then found cleared.
abbrev pub ClearedAfter : (ℕ → Bool) → ℕ → ℕ → Type 0
ClearedAfter test zero k = test k ≡ false
ClearedAfter test (suc n) k = (test k ≡ true) × ClearedAfter test n (suc k)

-- The state after the next `n` rounds.
unfoldable pub after_rounds {ℓ} : {S : Type ℓ} → (ℕ → S → S) → ℕ → ℕ → S → S
after_rounds body zero k s = s
after_rounds body (suc n) k s = after_rounds body n (suc k) (body k s)

module _ {ℓ} {S : Type ℓ} (test : ℕ → Bool) (body : ℕ → S → S) where
  -- From the `k`-th test on; `none`: the loop is not over by then.
  unfoldable pub while_running : ℕ → ℕ → S → Option S
  while_running zero k s = none
  while_running (suc tests) k s =
      let rest = while_running tests (suc k) (body k s) in if test k then rest else some s

  -- A loop whose flag is cleared ends with the test that finds it so.
  pub while_running-ClearedAfter :
      (n tests k : ℕ) (s : S)
      → ClearedAfter test n k
      → n < tests
      → while_running tests k s ≡ some (after_rounds body n k s)
  unfolding while_running after_rounds
  while_running-ClearedAfter zero zero k s c h = absurd (omega arith)
  while_running-ClearedAfter zero (suc tests) k s c h = rw c refl
  while_running-ClearedAfter (suc n) zero k s c h = absurd (omega arith)
  while_running-ClearedAfter (suc n) (suc tests) k s c h =
      rw c.0 (while_running-ClearedAfter n tests (suc k) (body k s) c.1 (omega arith))

  -- A loop whose flag is never cleared is never over.
  pub while_running_for_ever :
      ((k : ℕ) → test k ≡ true) → (tests k : ℕ) (s : S) → while_running tests k s ≡ none
  unfolding while_running
  while_running_for_ever set zero k s = refl
  while_running_for_ever set (suc tests) k s =
      rw (set k) (while_running_for_ever set tests (suc k) (body k s))
