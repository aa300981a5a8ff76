-- ===== src/Daemon/Requests/Once.antt =====
-- A request ID is run once: after `begin` has seen it, no later `begin` calls it new.
use mult.Base.{
  ℕ, ◌≤◌, ◌≡◌, ◌≢◌, subst, inl, inr, false, Option, none, some, List, arith, [], ◌∷◌, Bool-cases,
  Option-cases, length, ◌==◌, ==→eq,
}
use mult.Base.OrdMap.{
  OrdMap, get, put, map_values, IsSorted, put-IsSorted, get-put, get-map_values,
  map_values-IsSorted,
}
use mult.Base.Equality.{Eq, ◌=?◌}
use mult.Daemon.Requests.{
  RequestRecord, RequestScopeState, new, begin, complete, remove_client, evict_old_results,
  complete_record, is_old, drop_waiter,
}
use mult.Daemon.Requests.Evict.{evict_loop-Evicts}

-- The ID is not above the highest one seen.
abbrev pub Consumed : ℕ → Option ℕ → Type 0
Consumed id none = ⊥
Consumed id (some highest) = id ≤ highest

module _ {Request Response : Type 0} where
  -- Records are kept by ascending ID, and only of IDs that were seen.
  pub record IsValid (s : RequestScopeState Request Response) : Type 0 where
    pub sorted : IsSorted s.records
    pub below :
        (id : ℕ) (r : RequestRecord Request Response)
        → get id s.records ≡ some r
        → Consumed id s.highest_request_id

-- What happens to a scope: a request arrives from a client, one is completed, a client leaves.
pub data Event (Request Response : Type 0) : Type 0 where
  begins : ℕ → Request → ℕ → Event Request Response
  completes : ℕ → Response → Event Request Response
  leaves : ℕ → Event Request Response

raised :
    (id : ℕ) (highest : Option ℕ)
    → is_old id highest ≡ false
    → (j : ℕ) → Consumed j highest
    → Consumed j (some id)
unfolding is_old
raised id none h j c = absurd c
raised id (some highest) h j c = ground arith

module _ {Request Response : Type 0} ⦃e : Eq Request⦄ where
  unfoldable pub step :
      RequestScopeState Request Response
      → Event Request Response
      → RequestScopeState Request Response
  step s (begins id request client) = (begin s id request client).0
  step s (completes id response) = (complete s id response).0
  step s (leaves client) = remove_client s client

  unfoldable pub run :
      RequestScopeState Request Response
      → List (Event Request Response)
      → RequestScopeState Request Response
  run s [] = s
  run s (x ∷ xs) = run (step s x) xs

  module _ (s : RequestScopeState Request Response) (v : IsValid s) where
    begin-Consumed :
        (id : ℕ) (request : Request) (client : ℕ)
        → Consumed id (begin s id request client).0.highest_request_id
    unfolding begin
    begin-Consumed id request client = elim (Option-cases (get id s.records)) [
      | inl fresh ↦ ground arith
      | inr (r, known) ↦ ground (arith, v.below id r known)
    ]

    begin-keeps :
        (id : ℕ) (request : Request) (client j : ℕ)
        → Consumed j s.highest_request_id
        → Consumed j (begin s id request client).0.highest_request_id
    unfolding begin
    begin-keeps id request client j c = ground arith

    begin-ne-new :
        (id : ℕ) (request : Request) (client : ℕ)
        → Consumed id s.highest_request_id
        → (begin s id request client).1 ≢ new
    unfolding begin
    begin-ne-new id request client c = ground arith

    -- A record written under a seen ID keeps the scope valid.
    put-IsValid :
        (id : ℕ) (r : RequestRecord Request Response) (highest : Option ℕ)
        → Consumed id highest
        → ((j : ℕ) → Consumed j s.highest_request_id → Consumed j highest)
        → IsValid (record { highest_request_id = highest; records = put id r s.records })
    put-IsValid id r highest c keeps = record {
      sorted = put-IsSorted id r s.records v.sorted;
      below = λ j q g. elim (Bool-cases (id == j)) [
        | inl same ↦ subst (λ k. Consumed k highest) (==→eq _ _ same) c
        | inr other ↦ keeps j (v.below j q (ground (arith, get-put id j r s.records)))
      ];
    }

    pub begin-IsValid :
        (id : ℕ) (request : Request) (client : ℕ) → IsValid (begin s id request client).0
    unfolding begin
    begin-IsValid id request client = elim (Option-cases (get id s.records)) [
      | inl fresh ↦ elim (Bool-cases (is_old id s.highest_request_id)) [
        | inl old ↦ rw (fresh, old, begin) v
        | inr next ↦
            rw (fresh, next, begin)
              (put-IsValid id _ (some id) (omega arith) (raised id s.highest_request_id next))
      ]
      | inr (r, known) ↦ elim (Bool-cases (r.request =? request)) [
        | inr other ↦ rw (known, other, begin) v
        | inl same ↦ elim (Option-cases r.response) [
          | inl waiting ↦
              rw (known, same, waiting, begin)
                (put-IsValid id _ s.highest_request_id (v.below id r known) (λ j c. c))
          | inr (response, done) ↦ rw (known, same, done, begin) v
        ]
      ]
    ]

module _ {Request Response : Type 0} where
  evict-IsValid :
      (s : RequestScopeState Request Response) → IsValid s → IsValid (evict_old_results s)
  unfolding evict_old_results
  evict-IsValid s v =
      let kept = evict_loop-Evicts (length s.records) s.records v.sorted in
      record { sorted = kept.sorted; below = λ id r g. v.below id r (kept.inside id r g) }

  pub complete-IsValid :
      (s : RequestScopeState Request Response) (id : ℕ) (response : Response)
      → IsValid s
      → IsValid (complete s id response).0
  unfolding complete
  complete-IsValid s id response v = elim (Option-cases (get id s.records)) [
    | inl missing ↦ rw (missing, complete) (evict-IsValid s v)
    | inr (r, known) ↦
        rw (known, complete)
          (evict-IsValid _ (record {
            sorted = put-IsSorted id (complete_record response r) s.records v.sorted;
            below = λ j q g. elim (Bool-cases (id == j)) [
              | inl same ↦
                  subst (λ k. Consumed k s.highest_request_id) (==→eq _ _ same) (v.below id r known)
              | inr other ↦
                  v.below j q (ground (arith, get-put id j (complete_record response r) s.records))
            ];
          }))
  ]

  pub highest-complete :
      (s : RequestScopeState Request Response) (id : ℕ) (response : Response)
      → (complete s id response).0.highest_request_id ≡ s.highest_request_id
  unfolding complete
  highest-complete s id response = ground arith

  unwritten :
      (client id : ℕ) (r : RequestRecord Request Response)
      (m : OrdMap (RequestRecord Request Response))
      → get id m ≡ none
      → get id (map_values (drop_waiter client) m) ≡ some r
      → ⊥
  unwritten client id r m missing g = ground (arith, get-map_values (drop_waiter client) id m)

  remove_client-IsValid :
      (s : RequestScopeState Request Response) (client : ℕ)
      → IsValid s
      → IsValid (remove_client s client)
  unfolding remove_client
  remove_client-IsValid s client v = record {
    sorted = map_values-IsSorted (drop_waiter client) s.records v.sorted;
    below = λ id r g. elim (Option-cases (get id s.records)) [
      | inl missing ↦ absurd (unwritten client id r s.records missing g)
      | inr (q, known) ↦ v.below id q known
    ];
  }

module _ {Request Response : Type 0} ⦃e : Eq Request⦄ where
  pub step-IsValid :
      (s : RequestScopeState Request Response) (x : Event Request Response)
      → IsValid s
      → IsValid (step s x)
  unfolding step
  step-IsValid s (begins id request client) v = begin-IsValid s v id request client
  step-IsValid s (completes id response) v = complete-IsValid s id response v
  step-IsValid s (leaves client) v = remove_client-IsValid s client v

  step-Consumed :
      (s : RequestScopeState Request Response) (x : Event Request Response) (id : ℕ)
      → IsValid s
      → Consumed id s.highest_request_id
      → Consumed id (step s x).highest_request_id
  unfolding step remove_client
  step-Consumed s (begins j request client) id v c = begin-keeps s v j request client id c
  step-Consumed s (completes j response) id v c = rw highest-complete c
  step-Consumed s (leaves client) id v c = c

  -- A valid scope stays valid whatever happens.
  pub run-IsValid :
      (s : RequestScopeState Request Response) (xs : List (Event Request Response))
      → IsValid s
      → IsValid (run s xs)
  unfolding run
  run-IsValid s [] v = v
  run-IsValid s (x ∷ xs) v = run-IsValid (step s x) xs (step-IsValid s x v)

  run-Consumed :
      (s : RequestScopeState Request Response) (xs : List (Event Request Response)) (id : ℕ)
      → IsValid s
      → Consumed id s.highest_request_id
      → Consumed id (run s xs).highest_request_id
  unfolding run
  run-Consumed s [] id v c = c
  run-Consumed s (x ∷ xs) id v c =
      run-Consumed (step s x) xs id (step-IsValid s x v) (step-Consumed s x id v c)

  -- Once a valid scope has begun a request ID, with whatever disposition, no later `begin` of that
  -- ID is new, whatever the request and whatever happened to the scope in between.
  pub begin_once :
      (s : RequestScopeState Request Response) (id : ℕ) (request again : Request) (client other : ℕ)
      (xs : List (Event Request Response))
      → IsValid s
      → (begin (run (begin s id request client).0 xs) id again other).1 ≢ new
  begin_once s id request again client other xs v =
      let w = begin-IsValid s v id request client in
      begin-ne-new _ (run-IsValid _ xs w) id again other
        (run-Consumed _ xs id w (begin-Consumed s v id request client))
