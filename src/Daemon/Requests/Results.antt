-- ===== src/Daemon/Requests/Results.antt =====
-- What `complete` does: the response that retries get, the waiters that are answered, the bound on
-- the results kept.
use mult.Base.{
  ℕ, zero, suc, ◌≤◌, ◌≡◌, ◌≢◌, ◌⊎◌, refl, sym, ◌∙◌, inl, inr, false, none, some, arith, [],
  Option-cases, ltb, ==-self, if◌then◌else◌,
}
use mult.Base.OrdMap.{OrdMap, get, put, count, get-put, put-IsSorted, count-le-length}
use mult.Base.Equality.{Eq, ◌=?◌, =?-self, =?-ne}
use mult.Daemon.Requests.{
  RequestRecord, RequestScopeState, cached, collision, expired, begin, complete, is_complete,
  evict_loop, complete_record, max_cached_request_results_per_scope,
}
use mult.Daemon.Requests.Evict.{Evicts, evict_loop-Evicts, evict_loop-bounded}
use mult.Daemon.Requests.Once.{IsValid, Consumed, highest-complete}

module _ {Request Response : Type 0} where
  -- Whatever the scope, once a request is completed the scope keeps at most
  -- `max_cached_request_results_per_scope` results.
  pub complete-bounded :
      (s : RequestScopeState Request Response) (id : ℕ) (response : Response)
      → count is_complete (complete s id response).0.records ≤ max_cached_request_results_per_scope
  unfolding complete
  complete-bounded s id response = elim (Option-cases (get id s.records)) [
    | inl missing ↦
        rw (missing, complete)
          (evict_loop-bounded _ s.records (count-le-length is_complete s.records))
    | inr (r, known) ↦
        rw (known, complete)
          (evict_loop-bounded _ (put id (complete_record response r) s.records)
            (count-le-length is_complete (put id (complete_record response r) s.records)))
  ]

  module _ (s : RequestScopeState Request Response) (id : ℕ) (r : RequestRecord Request Response)
      (response : Response) (v : IsValid s) (known : get id s.records ≡ some r) where
    -- Completing a known request of a valid scope writes its response, and then forgets completed
    -- results only, each of them older than every completed result that stays.
    pub complete-Evicts :
        Evicts (put id (complete_record response r) s.records) (complete s id response).0.records
    unfolding complete
    complete-Evicts =
        rw (known, complete)
          (evict_loop-Evicts _ _ (put-IsSorted id (complete_record response r) s.records v.sorted))

    -- After a request was completed, its record is the one with the response, or is forgotten.
    get-complete :
        (get id (complete s id response).0.records ≡ some (complete_record response r))
        ⊎ (get id (complete s id response).0.records ≡ none)
    get-complete = elim (Option-cases (get id (complete s id response).0.records)) [
      | inl gone ↦ inr gone
      | inr (q, kept) ↦ inl (
          kept
          ∙ sym (complete-Evicts.inside id q kept)
          ∙ (get-put id id (complete_record response r) s.records ∙ rw (==-self id) refl))
    ]

    -- Completing a request again answers nobody: each waiter is answered once.
    pub complete_twice : (other : Response) → (complete (complete s id response).0 id other).1 ≡ []
    complete_twice other = elim get-complete [
      | inl kept ↦ unfold complete in rw (kept, complete) refl
      | inr gone ↦ unfold complete in rw (gone, complete) refl
    ]

  -- Below the limit nothing is forgotten.
  evict_loop_few :
      (fuel : ℕ) (m : OrdMap (RequestRecord Request Response))
      → count is_complete m ≤ max_cached_request_results_per_scope
      → evict_loop fuel m ≡ m
  unfolding evict_loop
  evict_loop_few zero m h = refl
  evict_loop_few (suc fuel) m h =
      let few : ltb max_cached_request_results_per_scope (count is_complete m) ≡ false =
        ground arith in
      rw (few, evict_loop) refl

module _ {Request Response : Type 0} ⦃e : Eq Request⦄ where
  begin_complete :
      (t : RequestScopeState Request Response) (id : ℕ) (q : RequestRecord Request Response)
      (request : Request) (client : ℕ) (response : Response)
      → get id t.records ≡ some q
      → q.response ≡ some response
      → begin t id request client
        ≡ (if q.request =? request then (t, cached response) else (t, collision))
  unfolding begin
  begin_complete t id q request client response known done = ground arith

  begin_forgotten :
      (t : RequestScopeState Request Response) (id : ℕ) (request : Request) (client : ℕ)
      → get id t.records ≡ none
      → Consumed id t.highest_request_id
      → begin t id request client ≡ (t, expired)
  unfolding begin
  begin_forgotten t id request client gone old = ground arith

module _ {Request Response : Type 0} ⦃e : Eq Request⦄ (s : RequestScopeState Request Response)
    (id : ℕ) (r : RequestRecord Request Response) (response : Response) (client : ℕ) (v : IsValid s)
    (known : get id s.records ≡ some r) where
  still : Consumed id (complete s id response).0.highest_request_id
  still = rw highest-complete (v.below id r known)

  -- Once a request of a valid scope is completed, an exact retry gets the response again, or, where
  -- that was forgotten, is told that it expired; it is never run again. The scope is unchanged.
  pub retry_replays :
      (begin (complete s id response).0 id r.request client
        ≡ ((complete s id response).0, cached response))
      ⊎ (begin (complete s id response).0 id r.request client
          ≡ ((complete s id response).0, expired))
  retry_replays = elim (get-complete s id r response v known) [
    | inl kept ↦ inl (
        begin_complete _ id (complete_record response r) r.request client response kept
          (unfold complete_record in refl)
        ∙ unfold complete_record in rw (=?-self r.request) refl)
    | inr gone ↦ inr (begin_forgotten _ id r.request client gone still)
  ]

  -- Another request under a completed ID is refused as a collision or as expired.
  pub retry_collides :
      (other : Request)
      → r.request ≢ other
      → (begin (complete s id response).0 id other client ≡ ((complete s id response).0, collision))
        ⊎ (begin (complete s id response).0 id other client ≡ ((complete s id response).0, expired))
  retry_collides other h = elim (get-complete s id r response v known) [
    | inl kept ↦ inl (
        begin_complete _ id (complete_record response r) other client response kept
          (unfold complete_record in refl)
        ∙ unfold complete_record in rw (=?-ne r.request other h) refl)
    | inr gone ↦ inr (begin_forgotten _ id other client gone still)
  ]

  -- While the completed results, with this one, are within the limit, none is forgotten: an exact
  -- retry gets the response.
  pub retry_cached :
      count is_complete (put id (complete_record response r) s.records)
        ≤ max_cached_request_results_per_scope
      → begin (complete s id response).0 id r.request client
        ≡ ((complete s id response).0, cached response)
  retry_cached few =
      begin_complete _ id (complete_record response r) r.request client response kept
        (unfold complete_record in refl)
      ∙ unfold complete_record in rw (=?-self r.request) refl
    where
      kept : get id (complete s id response).0.records ≡ some (complete_record response r)
      kept =
          unfold complete in
          rw (known, complete)
            (rw (evict_loop_few _ (put id (complete_record response r) s.records) few)
              (get-put id id (complete_record response r) s.records ∙ rw (==-self id) refl))
