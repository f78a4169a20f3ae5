-- ===== src/Replication/Distinct.antt =====
-- The table of replicas names each server once, and the operations on it keep that.
use threaded_network_adder.Base.{
  ℕ, zero, suc, ◌≤◌, ◌≡◌, refl, sym, ap, ◌∙◌, inl, inr, true, false, List, [], ◌∷◌, ◌++◌, none,
  some, ℤ, ◌==ℤ◌, ==ℤ_iff, arith, Bool-cases, length, length-append, any, update_first, ltb,
  length-update_first, any-append, any-update_first,
}
use threaded_network_adder.Replication.Types.{ReplicaInfo, max_replicas}
use threaded_network_adder.Replication.Table.{has_id, fill_slots}
use threaded_network_adder.Replication.Membership.{merge_replica, merge_replicas}

-- No identifier stands twice.
unfoldable pub Distinct : List ReplicaInfo → Type 0
Distinct [] = Unit
Distinct (r ∷ rs) = (any (has_id r.id) rs ≡ false) × Distinct rs

-- A change of entries that keeps their identifiers.
abbrev pub KeepsId : ℤ → (ReplicaInfo → ReplicaInfo) → Type 0
KeepsId i f = (r : ReplicaInfo) → has_id i r ≡ true → (f r).id ≡ r.id

any-update_id :
    (k i : ℤ) (f : ReplicaInfo → ReplicaInfo) (rs : List ReplicaInfo)
    → KeepsId i f
    → any (has_id k) (update_first (has_id i) f rs) ≡ any (has_id k) rs
any-update_id k i f rs keep =
    any-update_first (has_id k) (has_id i) f (λ r e. ap (λ (j : ℤ). j ==ℤ k) (keep r e)) rs

pub Distinct-update :
    (i : ℤ) (f : ReplicaInfo → ReplicaInfo) (rs : List ReplicaInfo)
    → KeepsId i f
    → Distinct rs
    → Distinct (update_first (has_id i) f rs)
unfolding update_first Distinct
Distinct-update i f [] keep d = tt
Distinct-update i f (r ∷ rs) keep d = elim (Bool-cases (has_id i r)) [
  | inl e ↦ rw e (rw (keep r e) d.0, d.1)
  | inr e ↦ rw e (any-update_id r.id i f rs keep ∙ d.0, Distinct-update i f rs keep d.1)
]

==ℤ_sym : (a b : ℤ) → (a ==ℤ b) ≡ false → (b ==ℤ a) ≡ false
==ℤ_sym a b h = ground (arith, ==ℤ_iff a b, ==ℤ_iff b a)

pub Distinct-snoc :
    (rs : List ReplicaInfo) (r : ReplicaInfo)
    → any (has_id r.id) rs ≡ false
    → Distinct rs
    → Distinct (rs ++ r ∷ [])
unfolding any Distinct
Distinct-snoc [] r h d = (refl, tt)
Distinct-snoc (x ∷ xs) r h d = (
  ground (arith, any-append (has_id x.id) xs (r ∷ []), ==ℤ_sym x.id r.id),
  Distinct-snoc xs r (ground arith) d.1,
)

pub length-fill_slots : (slots : ℕ) (rs : List ReplicaInfo) → length (fill_slots slots rs) ≡ slots
unfolding fill_slots
length-fill_slots zero rs = refl
length-fill_slots (suc slots) [] = ap suc (length-fill_slots slots [])
length-fill_slots (suc slots) (r ∷ rs) = ap suc (length-fill_slots slots rs)

-- A table within the array is in the message whole.
pub fill_slots_lem :
    (slots : ℕ) (rs : List ReplicaInfo)
    → length rs ≤ slots
    → (pad : List ReplicaInfo) × (fill_slots slots rs ≡ rs ++ pad)
unfolding fill_slots
fill_slots_lem slots [] room = (_, refl)
fill_slots_lem zero (r ∷ rs) room = absurd (omega arith)
fill_slots_lem (suc slots) (r ∷ rs) room =
    let (pad, e) = fill_slots_lem slots rs (omega arith) in
    (pad, ap (λ (l : List ReplicaInfo). r ∷ l) e)

-- Distinct, and within the array.
pub record IsTable (rs : List ReplicaInfo) : Type 0 where
  pub distinct : Distinct rs
  pub bounded : length rs ≤ max_replicas

pub update-IsTable :
    (i : ℤ) (f : ReplicaInfo → ReplicaInfo) {rs : List ReplicaInfo}
    → KeepsId i f
    → IsTable rs
    → IsTable (update_first (has_id i) f rs)
update-IsTable i f {rs} keep t = record {
  distinct = Distinct-update i f rs keep t.distinct;
  bounded = rw (length-update_first (has_id i) f rs) t.bounded;
}

pub snoc-IsTable :
    {rs : List ReplicaInfo} (r : ReplicaInfo)
    → any (has_id r.id) rs ≡ false
    → ltb (length rs) max_replicas ≡ true
    → IsTable rs
    → IsTable (rs ++ r ∷ [])
snoc-IsTable {rs} r new room t = record {
  distinct = Distinct-snoc rs r new t.distinct;
  bounded = ground (arith, length-append rs (r ∷ []));
}

pub merge_replica-IsTable :
    (rs : List ReplicaInfo) (r : ReplicaInfo) → IsTable rs → IsTable (merge_replica rs r)
unfolding merge_replica
merge_replica-IsTable rs r t = elim (Bool-cases (any (has_id r.id) rs)) [
  | inl old ↦ rw old (update-IsTable r.id (λ _. r) (λ x e. sym ((==ℤ_iff x.id r.id).0 e)) t)
  | inr new ↦ rw new (elim (Bool-cases (ltb (length rs) max_replicas)) [
    | inl room ↦ rw room (snoc-IsTable r new room t)
    | inr full ↦ rw full t
  ])
]

-- Merging a received list, of any length and with any entries, keeps the table distinct and
-- within its ten slots.
pub merge_replicas-IsTable :
    (n : ℕ) (source rs : List ReplicaInfo) {merged : List ReplicaInfo}
    → IsTable rs
    → merge_replicas n source rs ≡ some merged
    → IsTable merged
unfolding merge_replicas
merge_replicas-IsTable zero source rs {merged} t e = ground arith
merge_replicas-IsTable (suc n) [] rs t e = cc
merge_replicas-IsTable (suc n) (r ∷ source) rs t e =
    merge_replicas-IsTable n source (merge_replica rs r) (merge_replica-IsTable rs r t) e

-- The loop stays inside the array whenever the count does.
pub merge_replicas_total :
    (n : ℕ) (source rs : List ReplicaInfo)
    → n ≤ length source
    → (merged : List ReplicaInfo) × (merge_replicas n source rs ≡ some merged)
unfolding merge_replicas
merge_replicas_total zero source rs h = (rs, refl)
merge_replicas_total (suc n) [] rs h = absurd (omega arith)
merge_replicas_total (suc n) (r ∷ source) rs h =
    merge_replicas_total n source (merge_replica rs r) (omega arith)

-- ... and leaves it whenever the count is larger.
pub merge_replicas_overrun :
    (n : ℕ) (source rs : List ReplicaInfo)
    → suc (length source) ≤ n
    → merge_replicas n source rs ≡ none
unfolding merge_replicas
merge_replicas_overrun zero source rs h = absurd (omega arith)
merge_replicas_overrun (suc n) [] rs h = refl
merge_replicas_overrun (suc n) (r ∷ source) rs h =
    merge_replicas_overrun n source (merge_replica rs r) (omega arith)
