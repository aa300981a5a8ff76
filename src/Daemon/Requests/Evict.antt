-- ===== src/Daemon/Requests/Evict.antt =====
-- `evict_old_results` forgets the oldest completed results, down to the limit, and nothing else.
use mult.Base.{
  ℕ, zero, suc, ◌≤◌, ◌≡◌, ◌≢◌, ap, inl, inr, true, false, some, arith, Bool-cases, Option-cases,
  ltb, ltb_false→le,
}
use mult.Base.OrdMap.{
  OrdMap, get, remove, count, find_key, IsSorted, get-remove, remove-IsSorted, count-remove,
  count-find_key, get-find_key, find_key-least,
}
use mult.Daemon.Requests.{
  RequestRecord, max_cached_request_results_per_scope, is_complete, evict_loop,
}

module _ {Request Response : Type 0} where
  pub record Evicts (m n : OrdMap (RequestRecord Request Response)) : Type 0 where
    pub inside : (i : ℕ) (r : RequestRecord Request Response) → get i n ≡ some r → get i m ≡ some r
    pub pending_kept :
        (i : ℕ) (r : RequestRecord Request Response)
        → get i m ≡ some r
        → is_complete r ≡ false
        → get i n ≡ some r
    pub newest :
        (i j : ℕ) (r q : RequestRecord Request Response)
        → i ≤ j
        → get i n ≡ some r
        → is_complete r ≡ true
        → get j m ≡ some q
        → get j n ≡ some q
    pub sorted : IsSorted n

  Evicts-refl : (m : OrdMap (RequestRecord Request Response)) → IsSorted m → Evicts m m
  Evicts-refl m s = record {
    inside = λ i r g. g;
    pending_kept = λ i r g c. g;
    newest = λ i j r q h g c e. e;
    sorted = s;
  }

  module _ (m : OrdMap (RequestRecord Request Response)) (s : IsSorted m) (oldest : ℕ)
      (found : find_key is_complete m ≡ some oldest) where
    inside_step :
        (i : ℕ) (r : RequestRecord Request Response)
        → get i (remove oldest m) ≡ some r
        → (oldest ≢ i) × (get i m ≡ some r)
    inside_step i r g =
        (ground (arith, get-remove oldest i m), ground (arith, get-remove oldest i m))

    outside_step :
        (i : ℕ) (r : RequestRecord Request Response)
        → oldest ≢ i
        → get i m ≡ some r
        → get i (remove oldest m) ≡ some r
    outside_step i r h g = ground (arith, get-remove oldest i m)

    pending_step :
        (i : ℕ) (r : RequestRecord Request Response)
        → get i m ≡ some r
        → is_complete r ≡ false
        → oldest ≢ i
    pending_step i r g c e =
        let (v, at, done) = get-find_key is_complete oldest m s found in cc (ap (λ k. get k m) e)

  Evicts-remove :
      (m n : OrdMap (RequestRecord Request Response)) (oldest : ℕ)
      → IsSorted m
      → find_key is_complete m ≡ some oldest
      → Evicts (remove oldest m) n
      → Evicts m n
  Evicts-remove m n oldest s found v = record {
    inside = λ i r g. (inside_step m s oldest found i r (v.inside i r g)).1;
    pending_kept = λ i r g c.
        v.pending_kept i r
          (outside_step m s oldest found i r (pending_step m s oldest found i r g c) g) c;
    newest = λ i j r q h g c e.
        let (ne, at) = inside_step m s oldest found i r (v.inside i r g) in
        let least = find_key-least is_complete oldest i r m s found at c in
        v.newest i j r q h g c (outside_step m s oldest found j q (λ same. ne (omega arith)) e);
    sorted = v.sorted;
  }

  pub evict_loop-Evicts :
      (fuel : ℕ) (m : OrdMap (RequestRecord Request Response))
      → IsSorted m
      → Evicts m (evict_loop fuel m)
  unfolding evict_loop
  evict_loop-Evicts zero m s = Evicts-refl m s
  evict_loop-Evicts (suc fuel) m s =
      elim (Bool-cases (ltb max_cached_request_results_per_scope (count is_complete m))) [
        | inr few ↦ rw (few, evict_loop) (Evicts-refl m s)
        | inl many ↦ elim (Option-cases (find_key is_complete m)) [
          | inl nothing ↦ rw (many, nothing, evict_loop) (Evicts-refl m s)
          | inr (oldest, found) ↦
              rw (many, found, evict_loop)
                (Evicts-remove m _ oldest s found
                  (evict_loop-Evicts fuel (remove oldest m) (remove-IsSorted oldest m s)))
        ]
      ]

  pub evict_loop-bounded :
      (fuel : ℕ) (m : OrdMap (RequestRecord Request Response))
      → count is_complete m ≤ fuel
      → count is_complete (evict_loop fuel m) ≤ max_cached_request_results_per_scope
  unfolding evict_loop
  evict_loop-bounded zero m h = omega arith
  evict_loop-bounded (suc fuel) m h =
      elim (Bool-cases (ltb max_cached_request_results_per_scope (count is_complete m))) [
        | inr few ↦ rw (few, evict_loop) (ltb_false→le _ _ few)
        | inl many ↦ elim (Option-cases (find_key is_complete m)) [
          | inl nothing ↦
              rw (many, nothing, evict_loop) (omega (arith, count-find_key is_complete m nothing))
          | inr (oldest, found) ↦
              rw (many, found, evict_loop)
                (evict_loop-bounded fuel (remove oldest m)
                  (omega (arith, count-remove is_complete oldest m found)))
        ]
      ]
