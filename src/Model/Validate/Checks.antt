-- ===== src/Model/Validate/Checks.antt =====
-- src/model.rs, `validate_session_identities`: what each of the tests decides.
use mult.Base.{
  ℕ, ◌≡◌, ◌↔◌, refl, sym, ◌∙◌, Bool, true, false, not, ◌&&◌, inl, inr, List, [], ◌∷◌, any, map,
  ◌==◌, length, arith, All, Bool-cases, ==→eq, ==-self, suc, length-append, ap, subst, ◌<◌,
}
use mult.Base.OrdSet.{
  contains, of_list, IsSorted, IsUnique, IsWithin, contains-of_list, of_list-IsSorted,
  IsSorted-IsUnique, length-of_list→IsUnique, IsUnique→length-of_list,
}
use mult.Base.OrdSet.Pigeonhole.{length-IsWithin}
use mult.Base.OrdSet.Count.{flat}
use mult.Base.OrdMap
use mult.Base.OrdMap.{OrdMap}
use mult.Base.Result.{ok}
use mult.Model.Ids.{is_valid_durable_session_id}
use mult.Model.Data.{Workspace, workspace_numbers}
use mult.Model.Validate.{keys, sum_of, ensure_all, InvalidState, has_all_keys, are_durable}
use mult.Model.Valid.{IsTableOf, AreDurable}

pub ensure_all-ok :
    (tests : List (Bool × InvalidState))
    → (ensure_all tests ≡ ok tt) ↔ All (λ (p : Bool × InvalidState). p.0 ≡ true) tests
unfolding ensure_all
ensure_all-ok [] = (λ e. tt, λ a. refl)
ensure_all-ok ((true, e) ∷ tests) =
    (λ h. (refl, (ensure_all-ok tests).0 h), λ a. (ensure_all-ok tests).1 a.1)
ensure_all-ok ((false, e) ∷ tests) = (λ h. absurd (ground arith), λ a. absurd (ground arith))

pub none_fails→ :
    (p : ℕ → Bool) (xs : List ℕ)
    → not (any (λ k. not (p k)) xs) ≡ true
    → (k : ℕ) → contains k xs ≡ true
    → p k ≡ true
unfolding contains
none_fails→ p [] h k there = absurd (ground arith)
none_fails→ p (x ∷ xs) h k there = elim (Bool-cases (x == k)) [
  | inl same ↦ subst (λ n. p n ≡ true) (==→eq x k same) (ground arith)
  | inr other ↦ none_fails→ p xs (ground arith) k (ground arith)
]

pub →none_fails :
    (p : ℕ → Bool) (xs : List ℕ)
    → ((k : ℕ) → contains k xs ≡ true → p k ≡ true)
    → not (any (λ k. not (p k)) xs) ≡ true
unfolding contains
→none_fails p [] h = refl
→none_fails p (x ∷ xs) h =
    ground (arith, h x (rw (==-self x) refl), →none_fails p xs (λ k there. h k (ground arith)))

pub none_fails :
    (p : ℕ → Bool) (xs : List ℕ)
    → (not (any (λ k. not (p k)) (of_list xs)) ≡ true)
      ↔ ((k : ℕ) → contains k xs ≡ true → p k ≡ true)
none_fails p xs = (
  λ h k there. none_fails→ p (of_list xs) h k (contains-of_list k xs ∙ there),
  λ h. →none_fails p (of_list xs) (λ k there. h k (sym (contains-of_list k xs) ∙ there)),
)

pub both : (a b : Bool) → ((a && b) ≡ true) ↔ ((a ≡ true) × (b ≡ true))
both a b = ground arith

pub same_length : (a b : ℕ) → ((a == b) ≡ true) ↔ (a ≡ b)
same_length a b = ground arith

pub apart_iff : (xs : List ℕ) → (length (of_list xs) ≡ length xs) ↔ IsUnique xs
apart_iff xs = (length-of_list→IsUnique xs, IsUnique→length-of_list xs)

pub length-map : {A : Type 0} (f : A → ℕ) (xs : List A) → length (map f xs) ≡ length xs
length-map f [] = refl
length-map f (x ∷ xs) = ap suc (length-map f xs)

pub sum_of-flat :
    (f : Workspace → List ℕ) (count : Workspace → ℕ) (ws : List Workspace)
    → ((w : Workspace) → length (f w) ≡ count w)
    → sum_of count ws ≡ length (flat f ws)
unfolding sum_of
sum_of-flat f count [] h = refl
sum_of-flat f count (w ∷ ws) h =
    omega (arith, length-append (f w) (flat f ws), h w, sum_of-flat f count ws h)

pub cons_within :
    (k : ℕ) (xs ys : List ℕ) → contains k ys ≡ true → IsWithin xs ys → IsWithin (k ∷ xs) ys
unfolding contains
cons_within k xs ys there h j e = elim (Bool-cases (k == j)) [
  | inl same ↦ subst (λ n. contains n ys ≡ true) (==→eq k j same) there
  | inr other ↦ h j (ground arith)
]

pub above-keys : (i : ℕ) (m : OrdMap ℕ) → All (λ (p : ℕ × ℕ). i < p.0) m → All (λ k. i < k) (keys m)
above-keys i [] a = tt
above-keys i ((j, w) ∷ m) a = (a.0, above-keys i m a.1)

pub keys-IsUnique : (m : OrdMap ℕ) → OrdMap.IsSorted m → IsUnique (keys m)
keys-IsUnique m s = IsSorted-IsUnique (keys m) (keys_sorted m s)
  where
    keys_sorted : (m : OrdMap ℕ) → OrdMap.IsSorted m → IsSorted (keys m)
    keys_sorted [] s = tt
    keys_sorted ((j, w) ∷ m) s = (above-keys j m s.0, keys_sorted m s.1)

pub set_apart : (xs : List ℕ) → IsUnique (of_list xs)
set_apart xs = IsSorted-IsUnique (of_list xs) (of_list-IsSorted xs)

-- The test of a table: as many entries as sessions, and an entry for each session.
pub table_iff :
    (ids : List ℕ) (m : OrdMap ℕ)
    → OrdMap.IsSorted m
    → (((length (of_list ids) == length m) && has_all_keys (of_list ids) m) ≡ true)
      ↔ IsTableOf ids m
table_iff ids m s = (
  λ h k. elim (Bool-cases (contains k ids)) [
    | inl known ↦ member h k known ∙ sym known
    | inr unknown ↦ elim (Bool-cases (contains k (keys m))) [
      | inl listed ↦ absurd (extra h k unknown listed)
      | inr absent ↦ absent ∙ sym unknown
    ]
  ],
  λ t. (both (length (of_list ids) == length m) (has_all_keys (of_list ids) m)).1 (
    (same_length (length (of_list ids)) (length m)).1 (equal t),
    (none_fails (λ k. contains k (keys m)) ids).1 (λ k there. t k ∙ there),
  ),
)
  where
    member :
        ((length (of_list ids) == length m) && has_all_keys (of_list ids) m) ≡ true
        → IsWithin ids (keys m)
    member h =
        (none_fails (λ k. contains k (keys m)) ids).0
          ((both (length (of_list ids) == length m) (has_all_keys (of_list ids) m)).0 h).1

    extra :
        ((length (of_list ids) == length m) && has_all_keys (of_list ids) m) ≡ true
        → (k : ℕ) → contains k ids ≡ false
        → contains k (keys m) ≡ true
        → ⊥
    extra h k unknown listed = omega (
      arith,
      (same_length (length (of_list ids)) (length m)).0
          ((both (length (of_list ids) == length m) (has_all_keys (of_list ids) m)).0 h).0,
      length-map (λ (p : ℕ × ℕ). p.0) m,
      length-IsWithin (k ∷ of_list ids) (keys m) (contains-of_list k ids ∙ unknown, set_apart ids)
          (cons_within k (of_list ids) (keys m) listed
            (λ j there. member h j (sym (contains-of_list j ids) ∙ there))),
    )

    equal : IsTableOf ids m → length (of_list ids) ≡ length m
    equal t = omega (
      arith,
      length-map (λ (p : ℕ × ℕ). p.0) m,
      length-IsWithin (of_list ids) (keys m) (set_apart ids)
          (λ j there. t j ∙ sym (contains-of_list j ids) ∙ there),
      length-IsWithin (keys m) (of_list ids) (keys-IsUnique m s)
          (λ j there. contains-of_list j ids ∙ sym (t j) ∙ there),
    )

-- The test of numbers: none twice, and each durable.
pub numbers_iff :
    (ids : List ℕ) (n : ℕ)
    → n ≡ length ids
    → (((length (of_list ids) == n) && are_durable (of_list ids)) ≡ true)
      ↔ (IsUnique ids × AreDurable ids)
numbers_iff ids n e = (
  λ h.
      let (same, fine) = (both (length (of_list ids) == n) (are_durable (of_list ids))).0 h in
      (
        (apart_iff ids).0 ((same_length (length (of_list ids)) n).0 same ∙ e),
        (none_fails is_valid_durable_session_id ids).0 fine,
      ),
  λ u. (both (length (of_list ids) == n) (are_durable (of_list ids))).1 (
    (same_length (length (of_list ids)) n).1 ((apart_iff ids).1 u.0 ∙ sym e),
    (none_fails is_valid_durable_session_id ids).1 u.1,
  ),
)

pub apart_test :
    (xs : List ℕ) (n : ℕ) → n ≡ length xs → ((length (of_list xs) == n) ≡ true) ↔ IsUnique xs
apart_test xs n e = (
  λ h. (apart_iff xs).0 ((same_length (length (of_list xs)) n).0 h ∙ e),
  λ u. (same_length (length (of_list xs)) n).1 ((apart_iff xs).1 u ∙ sym e),
)

pub known_iff :
    (gens : OrdMap ℕ) (ids : List ℕ)
    → (not (any (λ id. not (contains id (of_list ids))) (keys gens)) ≡ true)
      ↔ IsWithin (keys gens) ids
known_iff gens ids = (
  λ h k there.
      sym (contains-of_list k ids)
      ∙ none_fails→ (λ id. contains id (of_list ids)) (keys gens) h k there,
  λ h.
      →none_fails (λ id. contains id (of_list ids)) (keys gens)
        (λ k there. contains-of_list k ids ∙ h k there),
)

pub workspaces_iff :
    (ws : List Workspace)
    → (((length (of_list (workspace_numbers ws)) == length ws)
          && not (contains 0 (of_list (workspace_numbers ws))))
        ≡ true)
      ↔ (IsUnique (workspace_numbers ws) × (contains 0 (workspace_numbers ws) ≡ false))
workspaces_iff ws = (
  λ h. (
    (apart_test (workspace_numbers ws) (length ws) same).0 (ground arith),
    ground (arith, contains-of_list 0 (workspace_numbers ws)),
  ),
  λ u. ground (
    arith,
    (apart_test (workspace_numbers ws) (length ws) same).1 u.0,
    contains-of_list 0 (workspace_numbers ws),
  ),
)
  where
    same : length ws ≡ length (workspace_numbers ws)
    same = sym (length-map (λ (w : Workspace). w.id) ws)
