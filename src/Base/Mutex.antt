-- ===== src/Base/Mutex.antt =====
-- What a call does to the outside, in order: it takes and frees a pthread mutex, sends datagrams
-- and sleeps. `mutex_after` follows the mutex through such a list.
use Prim.Native.Nat.{ℕ}
use mathlib.Core.Path.{◌≡◌, refl}
use mathlib.Core.Bool.{Bool, true, false}
use mathlib.Core.List.{List, [], ◌∷◌, ◌++◌}
use mathlib.Core.Option.{Option, none, some}
use native.Mathlib.Omega.{arith}
use threaded_network_adder.Base.Lists.{All}

-- `M` is what the program sends, destination included.
pub data Effect {ℓ} (M : Type ℓ) : Type ℓ where
  lock : Effect M
  unlock : Effect M
  send : M → Effect M
  sleep : ℕ → Effect M  -- usleep, in microseconds

module _ {ℓ} {M : Type ℓ} where
  -- `none`: a default mutex is taken by its own holder (a deadlock) or freed while it is free.
  unfoldable pub mutex_after : Bool → List (Effect M) → Option Bool
  mutex_after held [] = some held
  mutex_after true (lock ∷ es) = none
  mutex_after false (lock ∷ es) = mutex_after true es
  mutex_after true (unlock ∷ es) = mutex_after false es
  mutex_after false (unlock ∷ es) = none
  mutex_after held (send m ∷ es) = mutex_after held es
  mutex_after held (sleep n ∷ es) = mutex_after held es

  -- The datagrams of a call, oldest first.
  unfoldable pub sent : List (Effect M) → List M
  sent [] = []
  sent (send m ∷ es) = m ∷ sent es
  sent (lock ∷ es) = sent es
  sent (unlock ∷ es) = sent es
  sent (sleep n ∷ es) = sent es

  -- Sends and sleeps only.
  abbrev pub IsQuiet : Effect M → Type 0
  IsQuiet lock = ⊥
  IsQuiet unlock = ⊥
  IsQuiet (send m) = Unit
  IsQuiet (sleep n) = Unit

  pub mutex_after-quiet :
      (held : Bool) (es fs : List (Effect M))
      → All IsQuiet es
      → mutex_after held (es ++ fs) ≡ mutex_after held fs
  unfolding mutex_after
  mutex_after-quiet held [] fs q = refl
  mutex_after-quiet true (send m ∷ es) fs q = mutex_after-quiet true es fs q.1
  mutex_after-quiet false (send m ∷ es) fs q = mutex_after-quiet false es fs q.1
  mutex_after-quiet true (sleep n ∷ es) fs q = mutex_after-quiet true es fs q.1
  mutex_after-quiet false (sleep n ∷ es) fs q = mutex_after-quiet false es fs q.1
  mutex_after-quiet held (lock ∷ es) fs q = absurd q.0
  mutex_after-quiet held (unlock ∷ es) fs q = absurd q.0

  pub sent-append : (es fs : List (Effect M)) → sent (es ++ fs) ≡ sent es ++ sent fs
  unfolding sent
  sent-append [] fs = refl
  sent-append (send m ∷ es) fs = λ i. m ∷ sent-append es fs i
  sent-append (lock ∷ es) fs = sent-append es fs
  sent-append (unlock ∷ es) fs = sent-append es fs
  sent-append (sleep n ∷ es) fs = sent-append es fs

  -- A call that returns the mutex free can be followed by another.
  pub mutex_after-append :
      (held : Bool) (es fs : List (Effect M)) {h : Bool}
      → mutex_after held es ≡ some h
      → mutex_after held (es ++ fs) ≡ mutex_after h fs
  unfolding mutex_after
  mutex_after-append held [] fs e = ground arith
  mutex_after-append true (send m ∷ es) fs e = mutex_after-append true es fs e
  mutex_after-append false (send m ∷ es) fs e = mutex_after-append false es fs e
  mutex_after-append true (sleep n ∷ es) fs e = mutex_after-append true es fs e
  mutex_after-append false (sleep n ∷ es) fs e = mutex_after-append false es fs e
  mutex_after-append true (lock ∷ es) fs e = cc
  mutex_after-append false (lock ∷ es) fs e = mutex_after-append true es fs e
  mutex_after-append true (unlock ∷ es) fs e = mutex_after-append false es fs e
  mutex_after-append false (unlock ∷ es) fs e = cc
