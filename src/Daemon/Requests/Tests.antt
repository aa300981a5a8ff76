-- ===== src/Daemon/Requests/Tests.antt =====
-- The request journal at concrete inputs; a request and a response are numbers here.
use mult.Base.{ℕ, ◌≤◌, ◌≡◌, ◌≢◌, ◌⊎◌, refl, inl, inr, true, none, some, List, [], ◌∷◌, arith}
use mult.Base.OrdMap.{get, put, count}
use mult.Base.Equality.{nat_eq}
use mult.Daemon.Requests.{
  RequestRecord, RequestScopeState, new, pending, cached, expired, begin, complete, is_complete,
  complete_record, contains, max_cached_request_results_per_scope,
}
use mult.Daemon.Requests.Once.{
  IsValid, Event, begins, completes, leaves, run, run-IsValid, begin_once,
}
use mult.Daemon.Requests.Results.{complete-bounded, retry_replays}
use mult.Daemon.Requests.Waiting.{begin_answered}

abbrev Scope : Type 0
Scope = RequestScopeState ℕ ℕ

abbrev waiting : RequestRecord ℕ ℕ
waiting = record { request = 70; response = none; waiters = 1 ∷ 2 ∷ [] }

abbrev done : RequestRecord ℕ ℕ
done = record { request = 30; response = some 31; waiters = [] }

-- Request 3 is completed, request 7 waits with two clients.
abbrev scope : Scope
scope = record { highest_request_id = some 7; records = (3, done) ∷ (7, waiting) ∷ [] }

scope-IsValid : IsValid scope
unfolding get
scope-IsValid = record { sorted = omega arith; below = λ id r g. ground arith }

abbrev events : List (Event ℕ ℕ)
events = completes 7 71 ∷ begins 9 90 4 ∷ leaves 1 ∷ []

run-IsValid_example : IsValid (run scope events)
run-IsValid_example = run-IsValid scope events scope-IsValid

begin_once_example : (begin (run (begin scope 8 80 1).0 events) 8 80 2).1 ≢ new
begin_once_example = begin_once scope 8 80 80 1 2 events scope-IsValid

known : get 7 scope.records ≡ some waiting
unfolding get
known = refl

complete-bounded_example :
    count is_complete (complete scope 7 71).0.records ≤ max_cached_request_results_per_scope
complete-bounded_example = complete-bounded scope 7 71

retry_replays_example :
    (begin (complete scope 7 71).0 7 70 5 ≡ ((complete scope 7 71).0, cached 71))
    ⊎ (begin (complete scope 7 71).0 7 70 5 ≡ ((complete scope 7 71).0, expired))
retry_replays_example = retry_replays scope 7 waiting 71 5 scope-IsValid known

few :
    count is_complete (put 7 (complete_record 71 waiting) scope.records)
    ≤ max_cached_request_results_per_scope
unfolding count put complete_record
few = omega arith

joins : (begin scope 7 70 4).1 ≡ pending
unfolding begin get
joins = refl

-- Another request, another client of the same one, a completion and a client that leaves.
abbrev meanwhile : List (Event ℕ ℕ)
meanwhile = begins 9 90 6 ∷ begins 7 70 5 ∷ completes 9 91 ∷ leaves 1 ∷ []

begin_answered_example : contains (complete (run (begin scope 7 70 4).0 meanwhile) 7 71).1 4 ≡ true
begin_answered_example =
    begin_answered scope 7 70 4 meanwhile 71 scope-IsValid (inr (inl joins))
      (tt, (tt, (omega arith, (omega arith, tt))))
