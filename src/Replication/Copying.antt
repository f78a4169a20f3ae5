-- ===== src/Replication/Copying.antt =====
-- The list of replicas that a server sends, at a server that knows the first entries of it.
use mathlib.Core.List.{append-nil, append_assoc}
use mathlib.Core.Option
use threaded_network_adder.Base.{
  ◌≤◌, ◌≡◌, refl, sym, ap, subst, ◌∙◌, true, false, List, [], ◌∷◌, ◌++◌, some, ℤ, ==ℤ_iff, arith,
  length, length-append, any, update_first, ltb, any-append,
}
use threaded_network_adder.Net.{SockAddr}
use threaded_network_adder.Replication.Types.{ReplicaInfo, Manager, Clock, max_replicas}
use threaded_network_adder.Replication.Table.{has_id, replica_list}
use threaded_network_adder.Replication.Membership.{merge_replica, merge_replicas}
use threaded_network_adder.Replication.Receiver.{
  dispatch, process_replication_message, learn_addr, receiver_round, whole,
}
use threaded_network_adder.Replication.Distinct.{Distinct, IsTable, fill_slots_lem}

-- The entries of one table are those of the first slots of another, by their identifiers.
unfoldable pub IsPrefix : List ReplicaInfo → List ReplicaInfo → Type 0
IsPrefix [] source = Unit
IsPrefix (x ∷ xs) [] = ⊥
IsPrefix (x ∷ xs) (s ∷ ss) = (x.id ≡ s.id) × IsPrefix xs ss

absent :
    (done : List ReplicaInfo) (s : ReplicaInfo) (ss : List ReplicaInfo)
    → Distinct (done ++ s ∷ ss)
    → any (has_id s.id) done ≡ false
unfolding Distinct any
absent [] s ss h = refl
absent (d ∷ ds) s ss h = ground (
  arith,
  absent ds s ss h.1,
  any-append (has_id d.id) ds (s ∷ ss),
  ==ℤ_iff s.id d.id,
  ==ℤ_iff d.id s.id,
)

-- The entry behind those that are done is replaced.
update_next :
    (done xs : List ReplicaInfo) (x s : ReplicaInfo)
    → any (has_id s.id) done ≡ false
    → x.id ≡ s.id
    → update_first (has_id s.id) (λ _. s) (done ++ x ∷ xs) ≡ done ++ s ∷ xs
unfolding update_first any
update_next [] xs x s h e = ground (arith, ==ℤ_iff x.id s.id)
update_next (d ∷ ds) xs x s h e = ground (arith, update_next ds xs x s)

any_next :
    (done xs : List ReplicaInfo) (x s : ReplicaInfo)
    → x.id ≡ s.id
    → any (has_id s.id) (done ++ x ∷ xs) ≡ true
unfolding any
any_next [] xs x s e = ground (arith, ==ℤ_iff x.id s.id)
any_next (d ∷ ds) xs x s e = ground (arith, any_next ds xs x s e)

-- A round of the loop at the entry behind those that are done.
merge_known :
    (done xs ss : List ReplicaInfo) (x s : ReplicaInfo)
    → Distinct (done ++ s ∷ ss)
    → x.id ≡ s.id
    → merge_replica (done ++ x ∷ xs) s ≡ (done ++ s ∷ []) ++ xs
unfolding merge_replica
merge_known done xs ss x s d e =
    rw (any_next done xs x s e)
      (update_next done xs x s (absent done s ss d) e ∙ sym (append_assoc done (s ∷ []) xs))

merge_absent :
    (done ss : List ReplicaInfo) (s : ReplicaInfo)
    → Distinct (done ++ s ∷ ss)
    → length (done ++ s ∷ ss) ≤ max_replicas
    → merge_replica done s ≡ done ++ s ∷ []
unfolding merge_replica
merge_absent done ss s d room =
    let space : ltb (length done) max_replicas ≡ true =
      ground (arith, length-append done (s ∷ ss)) in
    rw (absent done s ss d, space) refl

merge_new :
    (done ss : List ReplicaInfo) (s : ReplicaInfo)
    → Distinct (done ++ s ∷ ss)
    → length (done ++ s ∷ ss) ≤ max_replicas
    → merge_replica (done ++ []) s ≡ (done ++ s ∷ []) ++ []
merge_new done ss s d room =
    ap (λ (l : List ReplicaInfo). merge_replica l s) (append-nil done)
    ∙ (merge_absent done ss s d room ∙ sym (append-nil (done ++ s ∷ [])))

-- The loop from the entries that are done on.
merge_rest :
    (source done rest pad : List ReplicaInfo)
    → Distinct (done ++ source)
    → length (done ++ source) ≤ max_replicas
    → IsPrefix rest source
    → merge_replicas (length source) (source ++ pad) (done ++ rest) ≡ some (done ++ source)
unfolding merge_replicas IsPrefix
merge_rest [] done [] pad d room p = refl
merge_rest [] done (x ∷ xs) pad d room p = absurd p
merge_rest (s ∷ ss) done [] pad d room p =
    let same = append_assoc done (s ∷ []) ss in
    ap (merge_replicas (length ss) (ss ++ pad)) (merge_new done ss s d room)
    ∙ (merge_rest ss (done ++ s ∷ []) [] pad (subst Distinct (sym same) d)
          (subst (λ (l : List ReplicaInfo). length l ≤ max_replicas) (sym same) room) tt
        ∙ ap some same)
merge_rest (s ∷ ss) done (x ∷ xs) pad d room p =
    let same = append_assoc done (s ∷ []) ss in
    ap (merge_replicas (length ss) (ss ++ pad)) (merge_known done xs ss x s d p.0)
    ∙ (merge_rest ss (done ++ s ∷ []) xs pad (subst Distinct (sym same) d)
          (subst (λ (l : List ReplicaInfo). length l ≤ max_replicas) (sym same) room) p.1
        ∙ ap some same)

learn_addr-IsPrefix :
    (i : ℤ) (sender : SockAddr) (rs source : List ReplicaInfo)
    → IsPrefix rs source
    → IsPrefix (update_first (has_id i) (λ r. record r { addr = sender }) rs) source
unfolding update_first IsPrefix
learn_addr-IsPrefix i sender [] source p = tt
learn_addr-IsPrefix i sender (x ∷ xs) [] p = absurd p
learn_addr-IsPrefix i sender (x ∷ xs) (s ∷ ss) p =
    ground (arith, learn_addr-IsPrefix i sender xs ss)

-- What a server sends as its table, at most ten distinct entries, a server that knows the first of
-- them, or none, by their identifiers receives as that table, and changes nothing else.
pub receiver_round-replica_list :
    (rm me : Manager) (now : ℤ) (clock : Clock) (sender : SockAddr)
    → IsTable rm.replicas
    → IsPrefix me.replicas rm.replicas
    → receiver_round me clock (whole (replica_list rm now) sender)
      ≡ some (record me { replicas = rm.replicas }, [])
unfolding receiver_round process_replication_message dispatch learn_addr replica_list
receiver_round-replica_list rm me now clock sender t p =
    let known = update_first (has_id rm.my_id) (λ r. record r { addr = sender }) me.replicas in
    let (pad, whole_table) = fill_slots_lem max_replicas rm.replicas t.bounded in
    ap (Option.map (λ rs. (record me { replicas = rs }, []))) (
      ap (λ (slots : List ReplicaInfo). merge_replicas (length rm.replicas) slots known) whole_table
      ∙ merge_rest rm.replicas [] known pad t.distinct t.bounded
          (learn_addr-IsPrefix rm.my_id sender me.replicas rm.replicas p))
