-- ===== src/Model/Repair/Rounds.antt =====
-- src/model.rs, `normalize_existing_ids`: one loop over the numbers of a kind.
use mult.Base.{
  ℕ, ◌+◌, ◌≤◌, ◌<◌, ◌≡◌, refl, sym, subst, Bool, true, false, not, ◌&&◌, List, [], ◌∷◌, ◌++◌,
  length, arith, ◌==◌, if◌then◌else◌, inl, inr, Bool-cases, Bool-clash, length-append, map, ==→eq,
  ==-self,
}
use mathlib.Core.List.{append_assoc}
use mult.Base.OrdSet.{
  contains, insert, IsSorted, IsUnique, contains-insert, contains-append, insert-IsSorted,
  length-insert, IsSorted-IsUnique, of_list-IsSorted, contains-of_list,
}
use mult.Base.OrdSet.Pigeonhole.{length-IsWithin}
use mult.Base.OrdSet.Count.{flat, count-append, contains-count, IsUnique→count, count→IsUnique}
use mult.Base.Result.{Result, ok}
use mult.Model.Ids.Taken.{take_available_id_total}
use mult.Model.Data.{IdAllocationError}
use mult.Model.Repair.{Round, first_round, replaced, repair_id, for_each, repair_item}

module _ (valid : ℕ → Bool) (max : ℕ) where
  -- The locals of a round, and the numbers that it has not come to.
  pub record IsRound (r : Round) (rest : List ℕ) : Type 0 where
    pub used_sorted : IsSorted r.used
    pub seen_sorted : IsSorted r.seen
    pub seen_used : (k : ℕ) → contains k r.seen ≡ true → contains k r.used ≡ true
    pub rest_used : (k : ℕ) → valid k ≡ true → contains k rest ≡ true → contains k r.used ≡ true
    pub used_known : (k : ℕ) → contains k r.used ≡ true → contains k (r.seen ++ rest) ≡ true
    pub used_valid : (k : ℕ) → contains k r.used ≡ true → valid k ≡ true
    pub room : length r.seen + length rest ≤ max

  -- The numbers that a part of a round leaves: valid, none twice, none seen before, all seen after.
  pub record IsNumbered (r now : Round) (ids : List ℕ) : Type 0 where
    pub apart : IsUnique ids
    pub fine : (k : ℕ) → contains k ids ≡ true → valid k ≡ true
    pub fresh : (k : ℕ) → contains k ids ≡ true → contains k r.seen ≡ false
    pub noted : (k : ℕ) → contains k now.seen ≡ (if contains k ids then true else contains k r.seen)

  -- A part of a loop that deals with the numbers of an item.
  abbrev pub IsRepair :
      {E A B : Type 0} → (A → List ℕ) → (A → B) → (A → Round → Result E (A × Round)) → Type 0
  IsRepair {A = A} numbers view body =
      (x : A) (rest : List ℕ) (r : Round)
      → IsRound r (numbers x ++ rest)
      → (y : A) × (now : Round) × (body x r ≡ ok (y, now))
        × (view y ≡ view x)
        × IsNumbered r now (numbers y)
        × IsRound now rest

  IsNumbered-nothing : (r : Round) → IsNumbered r r []
  unfolding contains
  IsNumbered-nothing r = record {
    apart = tt;
    fine = λ k e. absurd (ground arith);
    fresh = λ k e. absurd (ground arith);
    noted = λ k. refl;
  }

  IsNumbered-append :
      (r mid now : Round) (xs ys : List ℕ)
      → IsNumbered r mid xs
      → IsNumbered mid now ys
      → IsNumbered r now (xs ++ ys)
  IsNumbered-append r mid now xs ys a b = record {
    apart = count→IsUnique (xs ++ ys) (λ k. ground (
      arith,
      count-append k xs ys,
      contains-count k xs,
      contains-count k ys,
      IsUnique→count k xs a.apart,
      IsUnique→count k ys b.apart,
      a.noted k,
      b.fresh k,
    ));
    fine = λ k e. ground (arith, contains-append k xs ys, a.fine k, b.fine k);
    fresh = λ k e. ground (arith, contains-append k xs ys, a.fresh k, b.fresh k, a.noted k);
    noted = λ k. ground (arith, contains-append k xs ys, a.noted k, b.noted k);
  }

  IsRound-same : (r : Round) (xs ys : List ℕ) → xs ≡ ys → IsRound r xs → IsRound r ys
  IsRound-same r xs ys e = subst (IsRound r) e

  cons_same :
      {B : Type 0} {a b : B} {l m : List B} → a ≡ b → l ≡ m → ◌≡◌ {A = List B} (a ∷ l) (b ∷ m)
  cons_same e f = cc

  pub for_each-IsRepair :
      {E A B : Type 0} (numbers : A → List ℕ) (view : A → B)
      (body : A → Round → Result E (A × Round))
      → IsRepair numbers view body
      → IsRepair (flat numbers) (map view) (for_each body)
  unfolding for_each
  for_each-IsRepair numbers view body h [] rest r round =
      ([], r, refl, refl, IsNumbered-nothing r, round)
  for_each-IsRepair numbers view body h (x ∷ xs) rest r round =
      let (y, mid, ran, same, first, between) =
        h x (flat numbers xs ++ rest) r
          (IsRound-same r _ _ (append_assoc (numbers x) (flat numbers xs) rest) round) in
      let (ys, now, ran2, same2, others, after) =
        for_each-IsRepair numbers view body h xs rest mid between in
      (
        y ∷ ys,
        now,
        rw (ran, ran2, for_each) refl,
        cons_same same same2,
        IsNumbered-append r mid now (numbers y) (flat numbers ys) first others,
        after,
      )

  -- A number that is kept.
  kept_round :
      (r : Round) (id : ℕ) (rest : List ℕ)
      → valid id ≡ true
      → contains id r.seen ≡ false
      → IsRound r (id ∷ rest)
      → IsNumbered r (record r { seen = insert id r.seen }) (id ∷ [])
        × IsRound (record r { seen = insert id r.seen }) rest
  unfolding contains
  kept_round r id rest fine fresh round = (
    record {
      apart = (refl, tt);
      fine = λ k e. subst (λ n. valid n ≡ true) (==→eq id k (ground arith)) fine;
      fresh = λ k e. subst (λ n. contains n r.seen ≡ false) (==→eq id k (ground arith)) fresh;
      noted = λ k. ground (arith, contains-insert id k r.seen);
    },
    record {
      used_sorted = round.used_sorted;
      seen_sorted = insert-IsSorted id r.seen round.seen_sorted;
      seen_used = λ k e. elim (Bool-cases (id == k)) [
        | inl same ↦
            subst (λ n. contains n r.used ≡ true) (==→eq id k same)
              (round.rest_used id fine (rw (==-self id) refl))
        | inr other ↦ round.seen_used k (ground (arith, contains-insert id k r.seen))
      ];
      rest_used = λ k v e. round.rest_used k v (ground arith);
      used_known = λ k e. ground (
        arith,
        round.used_known k e,
        contains-append k r.seen (id ∷ rest),
        contains-append k (insert id r.seen) rest,
        contains-insert id k r.seen,
      );
      used_valid = round.used_valid;
      room = ground (arith, round.room, length-insert id r.seen round.seen_sorted);
    },
  )

  -- A number that is not kept is no reason for a number in use.
  bad_known :
      (r : Round) (old : ℕ) (rest : List ℕ)
      → ((valid old && not (contains old r.seen)) ≡ false)
      → IsRound r (old ∷ rest)
      → (k : ℕ) → contains k r.used ≡ true
      → contains k (r.seen ++ rest) ≡ true
  unfolding contains
  bad_known r old rest bad round k e = elim (Bool-cases (old == k)) [
    | inl same ↦ ground (
      arith,
      contains-append k r.seen rest,
      subst (λ n. contains n r.seen ≡ true) (==→eq old k same)
          (seen_old (subst (λ n. valid n ≡ true) (sym (==→eq old k same)) (round.used_valid k e))),
    )
    | inr other ↦ ground (
      arith,
      round.used_known k e,
      contains-append k r.seen (old ∷ rest),
      contains-append k r.seen rest,
    )
  ]
    where
      seen_old : valid old ≡ true → contains old r.seen ≡ true
      seen_old v = ground (arith, v, bad)

  -- A number that is replaced by a free one.
  replaced_round :
      (r : Round) (old id n : ℕ) (rest : List ℕ)
      → valid id ≡ true
      → contains id r.used ≡ false
      → ((valid old && not (contains old r.seen)) ≡ false)
      → IsRound r (old ∷ rest)
      → IsNumbered r
          (record { used = insert id r.used; seen = insert id r.seen; next = n; changed = true })
          (id ∷ [])
        × IsRound
            (record { used = insert id r.used; seen = insert id r.seen; next = n; changed = true })
            rest
  unfolding contains
  replaced_round r old id n rest fine free bad round = (
    record {
      apart = (refl, tt);
      fine = λ k e. subst (λ n. valid n ≡ true) (==→eq id k (ground arith)) fine;
      fresh = λ k e. subst (λ n. contains n r.seen ≡ false) (==→eq id k (ground arith)) unseen;
      noted = λ k. ground (arith, contains-insert id k r.seen);
    },
    record {
      used_sorted = insert-IsSorted id r.used round.used_sorted;
      seen_sorted = insert-IsSorted id r.seen round.seen_sorted;
      seen_used = λ k e.
          ground
            (arith, round.seen_used k, contains-insert id k r.seen, contains-insert id k r.used);
      rest_used = λ k v e. ground (arith, round.rest_used k v, contains-insert id k r.used);
      used_known = λ k e. elim (Bool-cases (id == k)) [
        | inl same ↦
            ground (arith, contains-append k (insert id r.seen) rest, contains-insert id k r.seen)
        | inr other ↦ ground (
          arith,
          contains-append k (insert id r.seen) rest,
          contains-insert id k r.seen,
          contains-insert id k r.used,
          contains-append k r.seen rest,
          bad_known r old rest bad round k,
        )
      ];
      used_valid = λ k e. elim (Bool-cases (id == k)) [
        | inl same ↦ subst (λ n. valid n ≡ true) (==→eq id k same) fine
        | inr other ↦ round.used_valid k (ground (arith, contains-insert id k r.used))
      ];
      room = ground (arith, round.room, length-insert id r.seen round.seen_sorted);
    },
  )
    where
      unseen : contains id r.seen ≡ false
      unseen = elim (Bool-cases (contains id r.seen)) [
        | inl there ↦ absurd (Bool-clash (round.seen_used id there) free)
        | inr absent ↦ absent
      ]

  -- There is room for one more number.
  free_left :
      (r : Round) (id : ℕ) (rest : List ℕ)
      → IsRound r (id ∷ rest)
      → ((valid id && not (contains id r.seen)) ≡ false)
      → length r.used < max
  free_left r id rest round bad = omega (
    arith,
    round.room,
    length-append r.seen rest,
    length-IsWithin r.used (r.seen ++ rest) (IsSorted-IsUnique r.used round.used_sorted)
        (bad_known r id rest bad round),
  )

  repair_id-IsRepair :
      {F : Type 0} (e : IdAllocationError F)
      → ((k : ℕ) → 1 ≤ k → k ≤ max → valid k ≡ true)
      → (id : ℕ) (rest : List ℕ) (r : Round) → IsRound r (id ∷ rest)
      → (i : ℕ) × (now : Round) × (repair_id valid max e id r ≡ ok (i, now))
        × IsNumbered r now (i ∷ [])
        × IsRound now rest
  unfolding repair_id replaced
  repair_id-IsRepair e inside id rest r round =
      elim (Bool-cases (valid id && not (contains id r.seen))) [
        | inl good ↦
            let (numbered, after) = kept_round r id rest (ground arith) (ground arith) round in
            (id, _, rw (good, repair_id) refl, numbered, after)
        | inr bad ↦
            let (i, n, took, (low, high, free)) =
              take_available_id_total r.used r.next max round.used_sorted
                (free_left r id rest round bad) in
            let (numbered, after) =
              replaced_round r id i n rest (inside i low high) free bad round in
            (i, _, rw (bad, took, repair_id, replaced) refl, numbered, after)
      ]

  pub repair_item-IsRepair :
      {F A B : Type 0} (e : IdAllocationError F) (id : A → ℕ) (with_id : ℕ → A → A) (view : A → B)
      → ((k : ℕ) → 1 ≤ k → k ≤ max → valid k ≡ true)
      → ((k : ℕ) (x : A) → id (with_id k x) ≡ k)
      → ((k : ℕ) (x : A) → view (with_id k x) ≡ view x)
      → IsRepair (λ x. id x ∷ []) view (repair_item valid max e id with_id)
  unfolding repair_item
  repair_item-IsRepair e id with_id view inside same keeps x rest r round =
      let (i, now, ran, numbered, after) = repair_id-IsRepair e inside (id x) rest r round in
      (
        with_id i x,
        now,
        rw (ran, repair_item) refl,
        keeps i x,
        subst (λ k. IsNumbered r now (k ∷ [])) (sym (same i x)) numbered,
        after,
      )

  -- The numbers that a loop starts from.
  pub first_round-IsRound :
      (ids kept : List ℕ)
      → ((k : ℕ) → contains k kept ≡ (if valid k then contains k ids else false))
      → length ids ≤ max
      → IsRound (first_round kept) ids
  unfolding contains
  first_round-IsRound ids kept same room = record {
    used_sorted = of_list-IsSorted kept;
    seen_sorted = tt;
    seen_used = λ k e. absurd (ground arith);
    rest_used = λ k v e. ground (arith, contains-of_list k kept, same k);
    used_known = λ k e. ground (arith, contains-of_list k kept, same k);
    used_valid = λ k e. ground (arith, contains-of_list k kept, same k);
    room = omega (arith, room);
  }
