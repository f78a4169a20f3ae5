-- ===== src/Discovery/Cleanup.antt =====
-- discovery.c: what cleanup_clients leaves, and what the table holds.
use threaded_network_adder.Base.{
  ℕ, zero, suc, ◌≤◌, ◌≡◌, refl, sym, ap, ◌∙◌, subst, inl, inr, Bool, Bool-cases, List, [], ◌∷◌,
  ◌++◌, ℤ, not, length, ltb, if_cases, length-append, get_elem?, arith, if◌then◌else◌,
}
use threaded_network_adder.Discovery.Clients.{
  InternalClientInfo, max_clients, new_client, add_new_client, is_stale, remove_at, cleanup_from,
  cleanup_clients,
}

-- The entries that pass a test, in order.
unfoldable pub filter {ℓ} : {A : Type ℓ} → (A → Bool) → List A → List A
filter p [] = []
filter p (x ∷ xs) = let rest = filter p xs in if p x then x ∷ rest else rest

module _ {ℓ} {A : Type ℓ} where
  get_elem?-append : (xs ys : List A) → get_elem? (xs ++ ys) (length xs) ≡ get_elem? ys 0
  get_elem?-append [] ys = refl
  get_elem?-append (x ∷ xs) ys = get_elem?-append xs ys

  remove_at-append : (xs ys : List A) → remove_at (length xs) (xs ++ ys) ≡ xs ++ remove_at 0 ys
  unfolding remove_at
  remove_at-append [] ys = refl
  remove_at-append (x ∷ xs) ys = ap (λ (zs : List A). x ∷ zs) (remove_at-append xs ys)

  snoc_append : (xs : List A) (y : A) (ys : List A) → (xs ++ y ∷ []) ++ ys ≡ xs ++ y ∷ ys
  snoc_append [] y ys = refl
  snoc_append (x ∷ xs) y ys = ap (λ (zs : List A). x ∷ zs) (snoc_append xs y ys)

length-snoc :
    (xs : List InternalClientInfo) (x : InternalClientInfo)
    → length (xs ++ x ∷ []) ≡ suc (length xs)
length-snoc xs x = omega (arith, length-append xs (x ∷ []))

past_end :
    (n : ℕ) (now : ℤ) (kept : List InternalClientInfo)
    → cleanup_from (suc n) now (length kept) (kept ++ []) ≡ kept ++ []
unfolding cleanup_from
past_end n now kept = rw (get_elem?-append kept [], cleanup_from) refl

-- One round at the entry behind those that are kept.
one_round :
    (n : ℕ) (now : ℤ) (kept : List InternalClientInfo) (c : InternalClientInfo)
    (rest : List InternalClientInfo)
    → cleanup_from (suc n) now (length kept) (kept ++ c ∷ rest) ≡ (
        if is_stale now c
        then cleanup_from n now (length kept) (kept ++ rest)
        else cleanup_from n now (suc (length kept)) (kept ++ c ∷ rest))
unfolding cleanup_from remove_at
one_round n now kept c rest =
    rw (get_elem?-append kept (c ∷ rest), remove_at-append kept (c ∷ rest), cleanup_from) refl

-- The loop, with the entries that it has passed.
cleanup_from-filter :
    (rounds : ℕ) (now : ℤ) (kept rest : List InternalClientInfo)
    → length rest ≤ rounds
    → cleanup_from rounds now (length kept) (kept ++ rest)
      ≡ kept ++ filter (λ c. not (is_stale now c)) rest
unfolding cleanup_from filter
cleanup_from-filter zero now kept [] enough = refl
cleanup_from-filter zero now kept (c ∷ rest) enough = absurd (omega (arith, enough))
cleanup_from-filter (suc n) now kept [] enough = past_end n now kept
cleanup_from-filter (suc n) now kept (c ∷ rest) enough = elim (Bool-cases (is_stale now c)) [
  | inl stale ↦
      one_round n now kept c rest
      ∙ rw stale (cleanup_from-filter n now kept rest (omega (arith, enough)))
  | inr live ↦
      one_round n now kept c rest
      ∙ rw live (
          subst
            (λ (i : ℕ).
              cleanup_from n now i (kept ++ c ∷ rest)
              ≡ kept ++ c ∷ filter (λ d. not (is_stale now d)) rest)
            (length-snoc kept c)
            (ap (cleanup_from n now (length (kept ++ c ∷ []))) (sym (snoc_append kept c rest))
              ∙ (cleanup_from-filter n now (kept ++ c ∷ []) rest (omega (arith, enough))
                  ∙ snoc_append kept c (filter (λ d. not (is_stale now d)) rest))))
]

-- Cleaning up keeps exactly the clients that are not stale, in their order.
pub cleanup_clients-filter :
    (now : ℤ) (clients : List InternalClientInfo)
    → cleanup_clients now clients ≡ filter (λ c. not (is_stale now c)) clients
unfolding cleanup_clients
cleanup_clients-filter now clients =
    cleanup_from-filter (length clients) now [] clients (omega arith)

length-filter :
    (p : InternalClientInfo → Bool) (clients : List InternalClientInfo)
    → length (filter p clients) ≤ length clients
unfolding filter
length-filter p [] = omega arith
length-filter p (c ∷ clients) = ground (arith, length-filter p clients)

-- The table never outgrows its array: a full one takes no client, and cleaning up adds none.
pub data Reaches : List InternalClientInfo → Type 0 where
  empty : Reaches []
  enters :
      {clients : List InternalClientInfo} (now : ℤ) (ip : ℕ) (port : ℤ)
      → Reaches clients
      → Reaches (add_new_client clients now ip port)
  cleans :
      {clients : List InternalClientInfo} (now : ℤ)
      → Reaches clients
      → Reaches (cleanup_clients now clients)

length-add_new_client :
    (clients : List InternalClientInfo) (now : ℤ) (ip : ℕ) (port : ℤ)
    → length clients ≤ max_clients
    → length (add_new_client clients now ip port) ≤ max_clients
unfolding add_new_client
length-add_new_client clients now ip port small =
    if_cases (λ (cs : List InternalClientInfo). length cs ≤ max_clients)
      (ltb (length clients) max_clients) _ _
      (λ room. let more = length-snoc clients (new_client now ip port) in ground (arith, more))
      (λ full. small)

-- However clients enter and are cleaned up, the table holds at most ten: no slot behind the array
-- is written.
pub length-Reaches :
    {clients : List InternalClientInfo} → Reaches clients → length clients ≤ max_clients
length-Reaches empty = omega arith
length-Reaches (enters {clients} now ip port r) =
    length-add_new_client clients now ip port (length-Reaches r)
length-Reaches (cleans {clients} now r) =
    let kept = length-filter (λ c. not (is_stale now c)) clients in
    rw (cleanup_clients-filter now clients) (omega (arith, kept, length-Reaches r))
