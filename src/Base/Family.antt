-- ===== src/Base/Family.antt =====
-- Arrays as functions from an index: an assignment to one entry, and sums over the first entries.
use Prim.Native.Nat.{ℕ, zero, suc, ◌+◌, ◌*◌, ◌≤◌, ◌<◌}
use mathlib.Core.Path.{◌≡◌, refl, sym, subst}
use mathlib.Core.Logic.{◌≢◌, ◌⊎◌, inl, inr}
use native.Mathlib.Omega.{arith}
use threaded_network_adder.Base.Tests.{◌==◌, if◌then◌else◌}

pub ℕ-cases : (i j : ℕ) → (i ≡ j) ⊎ (i ≢ j)
ℕ-cases i j = ground arith

pub ℕ-order : (i j : ℕ) → (i < j) ⊎ (i ≡ j) ⊎ (j < i)
ℕ-order i j = ground arith

module _ {ℓ} {A : Type ℓ} where
  unfoldable pub put : (ℕ → A) → ℕ → A → ℕ → A
  put f i a j = if i == j then a else f j

  pub put_same : (f : ℕ → A) (i : ℕ) (a : A) → put f i a i ≡ a
  unfolding put
  put_same f i a = ground arith

  pub put_other : (f : ℕ → A) {i j : ℕ} (a : A) → j ≢ i → put f i a j ≡ f j
  unfolding put
  put_other f a e = ground arith

  -- A property of an index and its entry, for the new entry and for the others.
  pub put-each {κ} :
      (P : ℕ → A → Type κ) (f : ℕ → A) {n : ℕ} {i : ℕ} {a : A}
      → P i a
      → ((j : ℕ) → j < n → j ≢ i → P j (f j))
      → (j : ℕ) → j < n
      → P j (put f i a j)
  put-each P f {i} {a} new old j l = elim (ℕ-cases j i) [
    | inl same ↦ subst (λ k. P k (put f i a k)) (sym same) (rw (put_same f i a) new)
    | inr differ ↦ rw (put_other f a differ) (old j l differ)
  ]

module _ {ℓ} {A : Type ℓ} (w : A → ℕ) where
  unfoldable pub sum_to : (ℕ → A) → ℕ → ℕ
  sum_to f zero = 0
  sum_to f (suc n) = w (f n) + sum_to f n

  sum_to-put_above : (f : ℕ → A) (n i : ℕ) (a : A) → n ≤ i → sum_to (put f i a) n ≡ sum_to f n
  unfolding sum_to put
  sum_to-put_above f zero i a h = refl
  sum_to-put_above f (suc n) i a h = ground (arith, sum_to-put_above f n i a)

  -- An assignment exchanges the old entry for the new one.
  pub sum_to-put :
      (f : ℕ → A) (n i : ℕ) (a : A) → i < n → w (f i) + sum_to (put f i a) n ≡ w a + sum_to f n
  unfolding sum_to put
  sum_to-put f zero i a h = absurd (omega arith)
  sum_to-put f (suc n) i a h =
      ground (arith, sum_to-put f n i a, sum_to-put_above f n i a, ℕ-cases i n)

  pub sum_to-eq : (f : ℕ → A) (n c : ℕ) → ((i : ℕ) → i < n → w (f i) ≡ c) → sum_to f n ≡ n * c
  unfolding sum_to
  sum_to-eq f zero c h = omega arith
  sum_to-eq f (suc n) c h =
      ground (arith, sum_to-eq f n c (λ i l. h i (omega arith)), h n (omega arith))

  pub sum_to-le : (f : ℕ → A) (n c : ℕ) → ((a : A) → w a ≤ c) → sum_to f n ≤ n * c
  unfolding sum_to
  sum_to-le f zero c h = omega arith
  sum_to-le f (suc n) c h = ground (arith, sum_to-le f n c h, h (f n))

  pub sum_to-ge : (f : ℕ → A) (n i : ℕ) → i < n → w (f i) ≤ sum_to f n
  unfolding sum_to
  sum_to-ge f zero i h = absurd (omega arith)
  sum_to-ge f (suc n) i h = ground (arith, sum_to-ge f n i, ℕ-cases i n)
