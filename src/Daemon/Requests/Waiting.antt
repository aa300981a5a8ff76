-- ===== src/Daemon/Requests/Waiting.antt =====
-- A client that waits for a request goes on waiting, whatever else happens, until it is answered.
use mult.Base.{
  ℕ, ◌≡◌, ◌≢◌, ◌⊎◌, refl, inl, inr, true, false, Option, none, some, List, arith, [], ◌∷◌, ◌++◌,
  Bool-cases, Option-cases, ==-self, ==→eq, ◌==◌, length, All, Option-clash, subst, sym, ◌∙◌,
}
use mathlib.Core.Option.{some_inj}
use mult.Base.OrdMap.{OrdMap, get, put, get-put, get-map_values, put-IsSorted, IsSorted}
use mult.Base.Equality.{Eq, ◌=?◌}
use mult.Daemon.Requests.{
  RequestRecord, RequestScopeState, new, pending, too_many_pending, begin, complete, remove_client,
  evict_old_results, complete_record, contains, without, add_waiter, drop_waiter, is_old,
}
use mult.Daemon.Requests.Evict.{evict_loop-Evicts}
use mult.Daemon.Requests.Once.{
  IsValid, Event, begins, completes, leaves, step, run, step-IsValid, begin-IsValid,
}

contains-push : (xs : List ℕ) (x : ℕ) → contains (xs ++ x ∷ []) x ≡ true
contains-push [] x = rw (==-self x) refl
contains-push (y ∷ xs) x = ground (arith, contains-push xs x)

contains-append : (xs ys : List ℕ) (x : ℕ) → contains xs x ≡ true → contains (xs ++ ys) x ≡ true
contains-append [] ys x h = absurd (ground arith)
contains-append (y ∷ xs) ys x h = ground (arith, contains-append xs ys x)

contains-without :
    (other client : ℕ) (xs : List ℕ)
    → other ≢ client
    → contains xs client ≡ true
    → contains (without other xs) client ≡ true
contains-without other client [] ne h = absurd (ground arith)
contains-without other client (x ∷ xs) ne h = ground (arith, contains-without other client xs ne)

module _ {Request Response : Type 0} where
  -- The client is among those that wait for the response to the request.
  pub record Waits (s : RequestScopeState Request Response) (id client : ℕ) : Type 0 where
    pub kept : RequestRecord Request Response
    pub there : get id s.records ≡ some kept
    pub unanswered : kept.response ≡ none
    pub waiting : contains kept.waiters client ≡ true

  -- Neither the answer to the request nor the client's leaving.
  abbrev pub IsElsewhere : ℕ → ℕ → Event Request Response → Type 0
  IsElsewhere id client (begins j request other) = Unit
  IsElsewhere id client (completes j response) = j ≢ id
  IsElsewhere id client (leaves other) = other ≢ client

  -- A record that is written.
  put-Waits :
      (highest : Option ℕ) (records : OrdMap (RequestRecord Request Response)) (id client : ℕ)
      (r : RequestRecord Request Response)
      → r.response ≡ none
      → contains r.waiters client ≡ true
      → Waits (record { highest_request_id = highest; records = put id r records }) id client
  put-Waits highest records id client r unanswered waiting = record {
    kept = r;
    there = get-put id id r records ∙ rw (==-self id) refl;
    unanswered = unanswered;
    waiting = waiting;
  }

  put_other :
      (s : RequestScopeState Request Response) (highest : Option ℕ) (id j client : ℕ)
      (r : RequestRecord Request Response)
      → (j == id) ≡ false
      → Waits s id client
      → Waits (record { highest_request_id = highest; records = put j r s.records }) id client
  put_other s highest id j client r other w = record {
    kept = w.kept;
    there = get-put j id r s.records ∙ rw other w.there;
    unanswered = w.unanswered;
    waiting = w.waiting;
  }

  evict-Waits :
      (s : RequestScopeState Request Response) (id client : ℕ)
      → IsSorted s.records
      → Waits s id client
      → Waits (evict_old_results s) id client
  unfolding evict_old_results
  evict-Waits s id client sorted w = record {
    kept = w.kept;
    there =
        (evict_loop-Evicts (length s.records) s.records sorted).pending_kept id w.kept w.there
          (ground (arith, w.unanswered));
    unanswered = w.unanswered;
    waiting = w.waiting;
  }

  complete-Waits :
      (s : RequestScopeState Request Response) (id client j : ℕ) (response : Response)
      → IsValid s
      → j ≢ id
      → Waits s id client
      → Waits (complete s j response).0 id client
  unfolding complete
  complete-Waits s id client j response v ne w = elim (Option-cases (get j s.records)) [
    | inl missing ↦ rw (missing, complete) (evict-Waits s id client v.sorted w)
    | inr (r, known) ↦
        rw (known, complete)
          (evict-Waits _ id client (put-IsSorted j (complete_record response r) s.records v.sorted)
            (put_other s s.highest_request_id id j client _ (ground arith) w))
  ]

  remove_client-Waits :
      (s : RequestScopeState Request Response) (id client other : ℕ)
      → other ≢ client
      → Waits s id client
      → Waits (remove_client s other) id client
  unfolding remove_client drop_waiter
  remove_client-Waits s id client other ne w = record {
    kept = drop_waiter other w.kept;
    there = get-map_values (drop_waiter other) id s.records ∙ rw w.there refl;
    unanswered = w.unanswered;
    waiting = contains-without other client w.kept.waiters ne w.waiting;
  }

  add_waiter-waits :
      (client other : ℕ) (r : RequestRecord Request Response)
      → contains r.waiters client ≡ true
      → contains (add_waiter other r).waiters client ≡ true
  unfolding add_waiter
  add_waiter-waits client other r h =
      ground (arith, contains-append r.waiters (other ∷ []) client h)

  add_waiter-waits_self :
      (client : ℕ) (r : RequestRecord Request Response)
      → contains (add_waiter client r).waiters client ≡ true
  unfolding add_waiter
  add_waiter-waits_self client r = ground (arith, contains-push r.waiters client)

  response-add_waiter :
      (client : ℕ) (r : RequestRecord Request Response)
      → (add_waiter client r).response ≡ r.response
  unfolding add_waiter
  response-add_waiter client r = ground arith

  -- An ID without a record is not that of the request.
  not_kept :
      (s : RequestScopeState Request Response) (id client j : ℕ)
      → get j s.records ≡ none
      → Waits s id client
      → (j == id) ≡ false
  not_kept s id client j fresh w = elim (Bool-cases (j == id)) [
    | inl same ↦ absurd (
        Option-clash fresh
          (subst (λ k. get k s.records ≡ some w.kept) (sym (==→eq j id same)) w.there))
    | inr other ↦ other
  ]

  -- Another client that waits for the same request or for another one.
  joined-Waits :
      (s : RequestScopeState Request Response) (id client j other : ℕ)
      (r : RequestRecord Request Response)
      → get j s.records ≡ some r
      → r.response ≡ none
      → Waits s id client
      → Waits (record s { records = put j (add_waiter other r) s.records }) id client
  joined-Waits s id client j other r known waiting w = elim (Bool-cases (j == id)) [
    | inr different ↦ put_other s s.highest_request_id id j client _ different w
    | inl same ↦
        let eq = ==→eq j id same in
        let one : w.kept ≡ r =
          some_inj.0 (sym w.there ∙ subst (λ k. get k s.records ≡ some r) eq known) in
        subst
          (λ k.
            Waits
              (record {
                highest_request_id = s.highest_request_id;
                records = put k (add_waiter other r) s.records;
              })
              id client)
          (sym eq)
          (put-Waits s.highest_request_id s.records id client (add_waiter other r)
            (response-add_waiter other r ∙ waiting)
            (add_waiter-waits client other r
              (subst (λ q. contains q.waiters client ≡ true) one w.waiting)))
  ]

module _ {Request Response : Type 0} ⦃e : Eq Request⦄ where
  -- A request that was taken has its client wait.
  begin-Waits :
      (s : RequestScopeState Request Response) (id : ℕ) (request : Request) (client : ℕ)
      → ((begin s id request client).1 ≡ new)
        ⊎ ((begin s id request client).1 ≡ pending)
        ⊎ ((begin s id request client).1 ≡ too_many_pending)
      → Waits (begin s id request client).0 id client
  unfolding begin
  begin-Waits s id request client taken = elim (Option-cases (get id s.records)) [
    | inl fresh ↦ elim (Bool-cases (is_old id s.highest_request_id)) [
      | inl old ↦ absurd (ground arith)
      | inr next ↦
          rw (fresh, next, begin)
            (put-Waits (some id) s.records id client _ refl (rw (==-self client) refl))
    ]
    | inr (r, known) ↦ elim (Bool-cases (r.request =? request)) [
      | inr other ↦ absurd (ground arith)
      | inl same ↦ elim (Option-cases r.response) [
        | inr (old, done) ↦ absurd (ground arith)
        | inl waiting ↦
            rw (known, same, waiting, begin)
              (put-Waits s.highest_request_id s.records id client (add_waiter client r)
                (response-add_waiter client r ∙ waiting) (add_waiter-waits_self client r))
      ]
    ]
  ]

  -- Another request, or another client of the same one.
  begin-keeps_waiting :
      (s : RequestScopeState Request Response) (id client j : ℕ) (request : Request) (other : ℕ)
      → Waits s id client
      → Waits (begin s j request other).0 id client
  unfolding begin
  begin-keeps_waiting s id client j request other w = elim (Option-cases (get j s.records)) [
    | inl fresh ↦ elim (Bool-cases (is_old j s.highest_request_id)) [
      | inl old ↦ rw (fresh, old, begin) w
      | inr next ↦
          rw (fresh, next, begin)
            (put_other s (some j) id j client _ (not_kept s id client j fresh w) w)
    ]
    | inr (r, known) ↦ elim (Bool-cases (r.request =? request)) [
      | inr collides ↦ rw (known, collides, begin) w
      | inl same ↦ elim (Option-cases r.response) [
        | inr (response, done) ↦ rw (known, same, done, begin) w
        | inl waiting ↦
            rw (known, same, waiting, begin) (joined-Waits s id client j other r known waiting w)
      ]
    ]
  ]

  step-Waits :
      (s : RequestScopeState Request Response) (id client : ℕ) (x : Event Request Response)
      → IsValid s
      → IsElsewhere id client x
      → Waits s id client
      → Waits (step s x) id client
  unfolding step
  step-Waits s id client (begins j request other) v h w =
      begin-keeps_waiting s id client j request other w
  step-Waits s id client (completes j response) v h w = complete-Waits s id client j response v h w
  step-Waits s id client (leaves other) v h w = remove_client-Waits s id client other h w

  run-Waits :
      (s : RequestScopeState Request Response) (id client : ℕ) (xs : List (Event Request Response))
      → IsValid s
      → All (IsElsewhere id client) xs
      → Waits s id client
      → Waits (run s xs) id client
  unfolding run
  run-Waits s id client [] v h w = w
  run-Waits s id client (x ∷ xs) v (here, more) w =
      run-Waits (step s x) id client xs (step-IsValid s x v) more
        (step-Waits s id client x v here w)

  -- A client whose request was taken by a valid scope as new, as pending or as one too many is among
  -- those that the completion of the request answers, whatever happened in between: requests of
  -- any clients, completions of other requests with the results that they push out, and clients
  -- that leave, but not the client itself.
  pub begin_answered :
      (s : RequestScopeState Request Response) (id : ℕ) (request : Request) (client : ℕ)
      (xs : List (Event Request Response)) (response : Response)
      → IsValid s
      → ((begin s id request client).1 ≡ new)
        ⊎ ((begin s id request client).1 ≡ pending)
        ⊎ ((begin s id request client).1 ≡ too_many_pending)
      → All (IsElsewhere id client) xs
      → contains (complete (run (begin s id request client).0 xs) id response).1 client ≡ true
  unfolding complete
  begin_answered s id request client xs response v taken elsewhere =
      let w =
        run-Waits _ id client xs (begin-IsValid s v id request client) elsewhere
          (begin-Waits s id request client taken) in
      rw (w.there, complete) w.waiting
