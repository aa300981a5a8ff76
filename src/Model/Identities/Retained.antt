-- ===== src/Model/Identities/Retained.antt =====
-- src/model.rs, `normalize_session_identities`: what the `retain` calls leave.
use mult.Base.{
  ℕ, ◌+◌, ◌≤◌, ◌<◌, ◌≡◌, subst, true, false, not, ◌&&◌, List, [], ◌∷◌, ◌==◌, if◌then◌else◌, arith,
  inl, inr, Bool-cases, All, ==→eq,
}
use mult.Base.OrdSet.{contains, insert, contains-insert}
use mult.Base.OrdSet.Count.{count}
use mult.Base.OrdMap
use mult.Base.OrdMap.{OrdMap}
use mult.Model.State.{values}
use mult.Model.Validate.{keys}
use mult.Model.Identities.{retain_fresh}

-- What is retained was there and is known.
pub retained_known :
    (ids : List ℕ) (m : OrdMap ℕ) (seen : List ℕ) (k : ℕ)
    → contains k (keys (retain_fresh ids m seen).0) ≡ true
    → (contains k ids ≡ true) × (contains k (keys m) ≡ true)
unfolding contains retain_fresh
retained_known ids [] seen k e = absurd (ground arith)
retained_known ids ((id, t) ∷ m) seen k e =
    elim (Bool-cases (contains id ids && not (contains t seen))) [
      | inl kept ↦ elim (Bool-cases (id == k)) [
        | inl same ↦
            (subst (λ n. contains n ids ≡ true) (==→eq id k same) (ground arith), ground arith)
        | inr other ↦
            let (known, there) = retained_known ids m (insert t seen) k (ground (arith, kept)) in
            (known, ground arith)
      ]
      | inr gone ↦
          let (known, there) = retained_known ids m seen k (ground (arith, gone)) in
          (known, ground arith)
    ]

above-retained :
    (i : ℕ) (ids : List ℕ) (m : OrdMap ℕ) (seen : List ℕ)
    → All (λ (p : ℕ × ℕ). i < p.0) m
    → All (λ (p : ℕ × ℕ). i < p.0) (retain_fresh ids m seen).0
unfolding retain_fresh
above-retained i ids [] seen a = tt
above-retained i ids ((id, t) ∷ m) seen a =
    elim (Bool-cases (contains id ids && not (contains t seen))) [
      | inl kept ↦ rw (kept, retain_fresh) (a.0, above-retained i ids m (insert t seen) a.1)
      | inr gone ↦ rw (gone, retain_fresh) (above-retained i ids m seen a.1)
    ]

pub retained-IsSorted :
    (ids : List ℕ) (m : OrdMap ℕ) (seen : List ℕ)
    → OrdMap.IsSorted m
    → OrdMap.IsSorted (retain_fresh ids m seen).0
unfolding retain_fresh
retained-IsSorted ids [] seen s = tt
retained-IsSorted ids ((id, t) ∷ m) seen s =
    elim (Bool-cases (contains id ids && not (contains t seen))) [
      | inl kept ↦
          rw (kept, retain_fresh)
            (
              above-retained id ids m (insert t seen) s.0,
              retained-IsSorted ids m (insert t seen) s.1,
            )
      | inr gone ↦ rw (gone, retain_fresh) (retained-IsSorted ids m seen s.1)
    ]

-- The values seen are those from before and those retained.
pub retained_seen :
    (ids : List ℕ) (m : OrdMap ℕ) (seen : List ℕ) (n : ℕ)
    → contains n (retain_fresh ids m seen).1
      ≡ (if contains n seen then true else contains n (values (retain_fresh ids m seen).0))
unfolding contains retain_fresh
retained_seen ids [] seen n = ground arith
retained_seen ids ((id, t) ∷ m) seen n =
    elim (Bool-cases (contains id ids && not (contains t seen))) [
      | inl kept ↦
          rw (kept, retain_fresh)
            (ground (arith, retained_seen ids m (insert t seen) n, contains-insert t n seen))
      | inr gone ↦ rw (gone, retain_fresh) (retained_seen ids m seen n)
    ]

-- A value is retained once at most, and not where it was seen before.
pub retained_count :
    (ids : List ℕ) (m : OrdMap ℕ) (seen : List ℕ) (n : ℕ)
    → count n (values (retain_fresh ids m seen).0) + (if contains n seen then 1 else 0) ≤ 1
unfolding retain_fresh
retained_count ids [] seen n = ground arith
retained_count ids ((id, t) ∷ m) seen n =
    elim (Bool-cases (contains id ids && not (contains t seen))) [
      | inl kept ↦
          rw (kept, retain_fresh)
            (elim (Bool-cases (t == n)) [
              | inl same ↦ ground (
                arith,
                retained_count ids m (insert t seen) n,
                contains-insert t n seen,
                subst (λ k. contains k seen ≡ false) (==→eq t n same) (unseen kept),
              )
              | inr other ↦
                  ground (arith, retained_count ids m (insert t seen) n, contains-insert t n seen)
            ])
      | inr gone ↦ rw (gone, retain_fresh) (retained_count ids m seen n)
    ]
  where
    unseen : (contains id ids && not (contains t seen)) ≡ true → contains t seen ≡ false
    unseen kept = ground arith
