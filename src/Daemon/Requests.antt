-- ===== src/Daemon/Requests.antt =====
-- src/bin/mult-server.rs, `RequestScopeState`: the request journal of one client scope, which makes
-- a retried request run once. A request ID is a number, and a waiting client stands by its ID. The
-- message types are parameters here: the journal compares requests and stores responses, no more.
pub mod Evict
pub mod Once
pub mod Results
pub mod Waiting
pub mod Tests
use mult.Base.{
  ℕ, zero, suc, ◌+◌, ◌≤◌, ◌≡◌, Bool, true, false, not, Option, none, some, List, [], ◌∷◌, ◌++◌,
  length, ltb, leb, ◌==◌, if◌then◌else◌,
}
use mult.Base.OrdMap.{OrdMap, get, put, remove, map_values, count, find_key, IsSorted}
use mult.Base.Equality.{Eq, ◌=?◌}

abbrev pub max_pending_requests_per_client : ℕ
max_pending_requests_per_client = 1024

abbrev pub max_cached_request_results_per_scope : ℕ
max_cached_request_results_per_scope = 4096

abbrev pub is_some {ℓ} : {A : Type ℓ} → Option A → Bool
is_some none = false
is_some (some a) = true

abbrev pub contains : List ℕ → ℕ → Bool
contains [] id = false
contains (x ∷ xs) id = if x == id then true else contains xs id

pub record RequestRecord (Request Response : Type 0) : Type 0 where
  pub request : Request
  pub response : Option Response
  pub waiters : List ℕ

pub record RequestScopeState (Request Response : Type 0) : Type 0 where
  pub highest_request_id : Option ℕ
  pub records : OrdMap (RequestRecord Request Response)

pub data RequestDisposition (Response : Type 0) : Type 0 where
  new : RequestDisposition Response
  pending : RequestDisposition Response
  cached : Response → RequestDisposition Response
  collision : RequestDisposition Response
  expired : RequestDisposition Response
  too_many_pending : RequestDisposition Response

abbrev pub without : ℕ → List ℕ → List ℕ
without client [] = []
without client (x ∷ xs) = let rest = without client xs in if x == client then rest else x ∷ rest

pub is_old : ℕ → Option ℕ → Bool
is_old id none = false
is_old id (some highest) = leb id highest

module _ {Request Response : Type 0} where
  unfoldable pub init : RequestScopeState Request Response
  init = record { highest_request_id = none; records = [] }

  abbrev pub is_complete : RequestRecord Request Response → Bool
  is_complete r = is_some r.response

  abbrev pub is_pending : RequestRecord Request Response → Bool
  is_pending r = not (is_some r.response)

  -- `waiters.push` unless the client waits already.
  pub add_waiter : ℕ → RequestRecord Request Response → RequestRecord Request Response
  add_waiter client r =
      if contains r.waiters client then r else record r { waiters = r.waiters ++ client ∷ [] }

  -- A new ID: it is consumed even when the scope is overloaded.
  pub register :
      RequestScopeState Request Response
      → ℕ
      → Request
      → ℕ
      → RequestScopeState Request Response × RequestDisposition Response
  register s id request client = (
    record {
      highest_request_id = some id;
      records =
          put id (record { request = request; response = none; waiters = client ∷ [] }) s.records;
    },
    if leb max_pending_requests_per_client (count is_pending s.records)
        then too_many_pending
        else new,
  )

  -- The loop of `evict_old_results`. Each round removes a record, so their number is fuel enough.
  pub evict_loop :
      ℕ → OrdMap (RequestRecord Request Response) → OrdMap (RequestRecord Request Response)
  evict_loop zero records = records
  evict_loop (suc fuel) records =
      elim (ltb max_cached_request_results_per_scope (count is_complete records)) [
        | true ↦ elim (find_key is_complete records) [
          | none ↦ records
          | some oldest ↦ evict_loop fuel (remove oldest records)
        ]
        | false ↦ records
      ]

  pub evict_old_results : RequestScopeState Request Response → RequestScopeState Request Response
  unfolding evict_loop
  evict_old_results s = record s { records = evict_loop (length s.records) s.records }

  unfoldable pub drop_waiter : ℕ → RequestRecord Request Response → RequestRecord Request Response
  drop_waiter client r = record r { waiters = without client r.waiters }

  -- The part of `ServerState::remove_client` that concerns one scope.
  unfoldable pub remove_client :
      RequestScopeState Request Response → ℕ → RequestScopeState Request Response
  unfolding drop_waiter
  remove_client s client = record s { records = map_values (drop_waiter client) s.records }

  pub complete_record : Response → RequestRecord Request Response → RequestRecord Request Response
  complete_record response r = record r { response = some response; waiters = [] }

  -- The waiters that are to receive the response.
  unfoldable pub complete :
      RequestScopeState Request Response
      → ℕ
      → Response
      → RequestScopeState Request Response × List ℕ
  unfolding evict_old_results complete_record
  complete s id response = elim (get id s.records) [
    | none ↦ (evict_old_results s, [])
    | some r ↦ (
      evict_old_results (record s { records = put id (complete_record response r) s.records }),
      r.waiters,
    )
  ]

module _ {Request Response : Type 0} ⦃e : Eq Request⦄ where
  -- A known ID.
  pub retry :
      RequestScopeState Request Response
      → ℕ
      → RequestRecord Request Response
      → Request
      → ℕ
      → RequestScopeState Request Response × RequestDisposition Response
  unfolding add_waiter
  retry s id r request client =
      if r.request =? request
      then elim r.response [
        | some response ↦ (s, cached response)
        | none ↦ (record s { records = put id (add_waiter client r) s.records }, pending)
      ]
      else (s, collision)

  unfoldable pub begin :
      RequestScopeState Request Response
      → ℕ
      → Request
      → ℕ
      → RequestScopeState Request Response × RequestDisposition Response
  unfolding retry register is_old
  begin s id request client = elim (get id s.records) [
    | some r ↦ retry s id r request client
    | none ↦ if is_old id s.highest_request_id then (s, expired) else register s id request client
  ]
