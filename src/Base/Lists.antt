-- ===== src/Base/Lists.antt =====
-- Lists measured by native numbers, and the loops of the program over an array: the first entry
-- that passes a test is read or changed, then `break`.
use Prim.Native.Nat.{ℕ, zero, suc, ◌+◌}
use mathlib.Core.Path.{◌≡◌, refl, ap, subst}
use mathlib.Core.Bool.{Bool, true, false, ◌&&◌, ◌||◌}
use mathlib.Core.List.{List, [], ◌∷◌, ◌++◌}
use mathlib.Core.Option.{Option, none, some}
use native.Mathlib.Omega.{arith}
use mathlib.Core.Logic.{inl, inr}
use threaded_network_adder.Base.Tests.{if◌then◌else◌, Bool-cases}

module _ {ℓ} {A : Type ℓ} where
  abbrev pub length : List A → ℕ
  length [] = 0
  length (x ∷ xs) = suc (length xs)

  abbrev pub replicate : ℕ → A → List A
  replicate zero a = []
  replicate (suc n) a = a ∷ replicate n a

  pub length-append : (xs ys : List A) → length (xs ++ ys) ≡ length xs + length ys
  length-append [] ys = omega arith
  length-append (x ∷ xs) ys = omega (arith, length-append xs ys)

  pub length-replicate : (n : ℕ) (a : A) → length (replicate n a) ≡ n
  length-replicate zero a = refl
  length-replicate (suc n) a = ap suc (length-replicate n a)

  -- The entry in the given slot.
  abbrev pub get_elem? : List A → ℕ → Option A
  get_elem? [] k = none
  get_elem? (x ∷ xs) zero = some x
  get_elem? (x ∷ xs) (suc k) = get_elem? xs k

  -- A predicate that holds of every entry; it computes to tuples.
  abbrev pub All {κ} : (A → Type κ) → List A → Type κ
  All P [] = Unit
  All P (x ∷ xs) = P x × All P xs

  unfoldable pub any : (A → Bool) → List A → Bool
  any p [] = false
  any p (x ∷ xs) = p x || any p xs

  unfoldable pub find_first : (A → Bool) → List A → Option A
  find_first p [] = none
  find_first p (x ∷ xs) = if p x then some x else find_first p xs

  unfoldable pub update_first : (A → Bool) → (A → A) → List A → List A
  update_first p f [] = []
  update_first p f (x ∷ xs) = if p x then f x ∷ xs else x ∷ update_first p f xs

  pub length-update_first :
      (p : A → Bool) (f : A → A) (xs : List A) → length (update_first p f xs) ≡ length xs
  unfolding update_first
  length-update_first p f [] = refl
  length-update_first p f (x ∷ xs) = ground (arith, length-update_first p f xs)

module _ {ℓ κ} {A : Type ℓ} (P : A → Type κ) where
  pub All-append : (xs ys : List A) → All P xs → All P ys → All P (xs ++ ys)
  All-append [] ys h k = k
  All-append (x ∷ xs) ys h k = (h.0, All-append xs ys h.1 k)

  pub All-get_elem? : (xs : List A) (k : ℕ) {a : A} → All P xs → get_elem? xs k ≡ some a → P a
  All-get_elem? [] k h e = cc
  All-get_elem? (x ∷ xs) zero {a} h e = let same : x ≡ a = cc in subst P same h.0
  All-get_elem? (x ∷ xs) (suc k) h e = All-get_elem? xs k h.1 e

  pub All-replicate : (n : ℕ) (a : A) → P a → All P (replicate n a)
  All-replicate zero a h = tt
  All-replicate (suc n) a h = (h, All-replicate n a h)

module _ {ℓ} {A : Type ℓ} (p : A → Bool) where
  pub any-append : (xs ys : List A) → any p (xs ++ ys) ≡ (any p xs || any p ys)
  unfolding any
  any-append [] ys = refl
  any-append (x ∷ xs) ys = ground (arith, any-append xs ys)

  -- A change that the test does not see leaves the search as it was.
  pub any-update_first :
      (q : A → Bool) (f : A → A)
      → ((a : A) → q a ≡ true → p (f a) ≡ p a)
      → (xs : List A) → any p (update_first q f xs) ≡ any p xs
  unfolding any update_first
  any-update_first q f h [] = refl
  any-update_first q f h (x ∷ xs) = ground (arith, h x, any-update_first q f h xs)

  pub find_first-any : (xs : List A) → find_first p xs ≡ none → any p xs ≡ false
  unfolding any find_first
  find_first-any [] h = refl
  find_first-any (x ∷ xs) h = ground (arith, find_first-any xs)

-- The element that a change hits is found again.
pub find_first-update_first {ℓ} :
    {A : Type ℓ} (p : A → Bool) (f : A → A)
    → ((a : A) → p (f a) ≡ p a)
    → (xs : List A) {x : A} → find_first p xs ≡ some x
    → find_first p (update_first p f xs) ≡ some (f x)
unfolding find_first update_first
find_first-update_first p f h [] e = cc
find_first-update_first p f h (y ∷ ys) {x} e = elim (Bool-cases (p y)) [
  | inl hit ↦ let same : y ≡ x = ground arith in rw (hit, h y, hit, same) refl
  | inr miss ↦ rw (miss, miss) (find_first-update_first p f h ys (ground arith))
]

-- A change that nothing calls for.
pub update_first-none {ℓ} :
    {A : Type ℓ} (p : A → Bool) (f : A → A) (xs : List A)
    → any p xs ≡ false
    → update_first p f xs ≡ xs
unfolding update_first any
update_first-none p f [] h = refl
update_first-none p f (x ∷ xs) h = ground (arith, update_first-none p f xs)

-- A change of the last element, and what stands there.
pub update_first-snoc {ℓ} :
    {A : Type ℓ} (p : A → Bool) (f : A → A) (xs : List A) (a : A)
    → any p xs ≡ false
    → p a ≡ true
    → update_first p f (xs ++ a ∷ []) ≡ xs ++ f a ∷ []
unfolding update_first any
update_first-snoc p f [] a h e = rw e refl
update_first-snoc p f (x ∷ xs) a h e = ground (arith, update_first-snoc p f xs a)

pub get_elem?-snoc {ℓ} :
    {A : Type ℓ} (xs : List A) (a : A) → get_elem? (xs ++ a ∷ []) (length xs) ≡ some a
get_elem?-snoc [] a = refl
get_elem?-snoc (x ∷ xs) a = get_elem?-snoc xs a

-- A stronger test finds no more.
pub any-and {ℓ} :
    {A : Type ℓ} (p q : A → Bool) (xs : List A)
    → any p xs ≡ false
    → any (λ x. p x && q x) xs ≡ false
unfolding any
any-and p q [] h = refl
any-and p q (x ∷ xs) h = ground (arith, any-and p q xs)
