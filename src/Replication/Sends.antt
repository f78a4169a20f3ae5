-- ===== src/Replication/Sends.antt =====
-- Which datagrams a call sends: each round of a loop over the table contributes its own.
use threaded_network_adder.Base.{
  ℕ, zero, suc, ◌+◌, ◌≡◌, ◌⊎◌, refl, inl, inr, some, List, [], ◌∷◌, ◌++◌, arith, get_elem?, lock,
  unlock, send, sleep,
}
use threaded_network_adder.Replication.Types.{ReplicaInfo, Datagram, Effects}
use threaded_network_adder.Replication.Table.{send_times, for_replicas}

-- The datagram is among those that the call sends.
unfoldable pub Sends : Datagram → Effects → Type 0
Sends d [] = ⊥
Sends d (lock ∷ es) = Sends d es
Sends d (unlock ∷ es) = Sends d es
Sends d (sleep n ∷ es) = Sends d es
Sends d (send e ∷ es) = (d ≡ e) ⊎ Sends d es

-- One datagram is sent, and another one later.
pub record SendsInOrder (d e : Datagram) (es : Effects) : Type 0 where
  pub before : Effects
  pub behind : Effects
  pub split : es ≡ before ++ behind
  pub first : Sends d before
  pub second : Sends e behind

module _ (d : Datagram) where
  pub Sends-append_left : (es fs : Effects) → Sends d es → Sends d (es ++ fs)
  unfolding Sends
  Sends-append_left [] fs h = absurd h
  Sends-append_left (lock ∷ es) fs h = Sends-append_left es fs h
  Sends-append_left (unlock ∷ es) fs h = Sends-append_left es fs h
  Sends-append_left (sleep n ∷ es) fs h = Sends-append_left es fs h
  Sends-append_left (send e ∷ es) fs (inl h) = inl h
  Sends-append_left (send e ∷ es) fs (inr h) = inr (Sends-append_left es fs h)

  pub Sends-append_right : (es fs : Effects) → Sends d fs → Sends d (es ++ fs)
  unfolding Sends
  Sends-append_right [] fs h = h
  Sends-append_right (lock ∷ es) fs h = Sends-append_right es fs h
  Sends-append_right (unlock ∷ es) fs h = Sends-append_right es fs h
  Sends-append_right (sleep n ∷ es) fs h = Sends-append_right es fs h
  Sends-append_right (send e ∷ es) fs h = inr (Sends-append_right es fs h)

  pub Sends-append_cases : (es fs : Effects) → Sends d (es ++ fs) → Sends d es ⊎ Sends d fs
  unfolding Sends
  Sends-append_cases [] fs h = inr h
  Sends-append_cases (lock ∷ es) fs h = Sends-append_cases es fs h
  Sends-append_cases (unlock ∷ es) fs h = Sends-append_cases es fs h
  Sends-append_cases (sleep n ∷ es) fs h = Sends-append_cases es fs h
  Sends-append_cases (send e ∷ es) fs (inl h) = inl (inl h)
  Sends-append_cases (send e ∷ es) fs (inr h) = elim (Sends-append_cases es fs h) [
    | inl k ↦ inl (inr k)
    | inr k ↦ inr k
  ]

  -- What a loop sends is from one of its rounds.
  pub for_replicas-Sends :
      (P : Type 0) (body : ℕ → ReplicaInfo → Effects)
      → ((k : ℕ) (r : ReplicaInfo) → Sends d (body k r) → P)
      → (i : ℕ) (rs : List ReplicaInfo) → Sends d (for_replicas body i rs)
      → P
  unfolding for_replicas Sends
  for_replicas-Sends P body h i [] s = absurd s
  for_replicas-Sends P body h i (r ∷ rs) s = elim (Sends-append_cases (body i r) _ s) [
    | inl here ↦ h i r here
    | inr there ↦ for_replicas-Sends P body h (suc i) rs there
  ]

  -- Within a critical section.
  pub Sends-section : (es fs : Effects) → Sends d es → Sends d (lock ∷ (es ++ fs))
  unfolding Sends
  Sends-section es fs h = Sends-append_left es fs h

  pub Sends-for_replicas :
      (body : ℕ → ReplicaInfo → Effects) (i k : ℕ) (rs : List ReplicaInfo) (r : ReplicaInfo)
      → get_elem? rs k ≡ some r
      → Sends d (body (i + k) r)
      → Sends d (for_replicas body i rs)
  unfolding for_replicas
  Sends-for_replicas body i k [] r e h = cc
  Sends-for_replicas body i zero (x ∷ rs) r e h = Sends-append_left (body i x) _ (ground (arith, h))
  Sends-for_replicas body i (suc k) (x ∷ rs) r e h = Sends-append_right (body i x) _ (
      Sends-for_replicas body (suc i) k rs r e
        (let same : i + suc k ≡ suc i + k = omega arith in rw (← same) h))

pub Sends-send_times : (n : ℕ) (d : Datagram) → Sends d (send_times (suc n) d)
unfolding Sends send_times
Sends-send_times n d = inl refl
