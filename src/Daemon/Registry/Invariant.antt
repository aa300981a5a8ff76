-- ===== src/Daemon/Registry/Invariant.antt =====
-- The two session tables of the registry agree, and what is reserved exists in neither.
use mult.Base.{
  ℕ, ◌≡◌, refl, ap, ◌∙◌, subst, inl, inr, Bool, true, false, not, ◌||◌, Option, none, some, List,
  arith, Bool-cases, Option-cases, ◌==◌,
}
use mult.Base.Equality.{Eq, ◌=?◌, nat_eq, =?→eq}
use mult.Base.Map.{
  Map, get, put, remove, retain, has, delete, get-put, get-remove, has-add, has-delete, IsMap,
  put-IsMap, retain-IsMap, get-retain, retain-get, get-retain-none, get-put_self, put_inv,
  put_fresh,
}
use mult.Protocol.Ids.{SessionIdentity, identity_eq}
use mult.Daemon.Registry.{
  SharedPane, ServerState, init, reserve, release_session_reservation, publish_reserved_session,
  remove_session_if_same, contains_key,
}

pub record IsConsistent (s : ServerState) : Type 0 where
  pub unique : IsMap s.session_by_identity
  pub indexed :
      (i : SessionIdentity) (n : ℕ)
      → get i s.session_by_identity ≡ some n
      → (p : SharedPane) × (get n s.sessions ≡ some p) × (p.identity ≡ i)
  pub owned :
      (n : ℕ) (p : SharedPane)
      → get n s.sessions ≡ some p
      → get p.identity s.session_by_identity ≡ some n
  pub fresh_sessions : (n : ℕ) → has n s.reserved_sessions ≡ true → get n s.sessions ≡ none
  pub fresh_identities :
      (i : SessionIdentity)
      → has i s.reserved_identities ≡ true
      → get i s.session_by_identity ≡ none

pub init-IsConsistent : IsConsistent init
unfolding init get has
init-IsConsistent = record {
  unique = tt;
  indexed = λ i n h. absurd (ground arith);
  owned = λ n p h. absurd (ground arith);
  fresh_sessions = λ n h. refl;
  fresh_identities = λ i h. refl;
}

pub absent {ℓ} : {V : Type ℓ} (o : Option V) → contains_key o ≡ false → o ≡ none
absent none h = refl
absent (some v) h = absurd (ground arith)

-- A reservation for another session or identity is still for something new.
still_fresh {ℓ κ} :
    {K : Type ℓ} {V : Type κ} ⦃e : Eq K⦄ (k j : K) (v : V) (m : Map K V) (r : List K)
    → (has j r ≡ true → get j m ≡ none)
    → has j (delete k r) ≡ true
    → get j (put k v m) ≡ none
still_fresh k j v m r fresh h = ground (arith, get-put k j v m, has-delete k j r)

module _ (s : ServerState) (c : IsConsistent s) where
  -- Reserving a session for a new identity.
  pub reserve-IsConsistent :
      (session : ℕ) (identity : SessionIdentity)
      → get identity s.session_by_identity ≡ none
      → IsConsistent (reserve s session identity).1
  unfolding reserve
  reserve-IsConsistent session identity fresh =
      elim (Bool-cases (contains_key (get session s.sessions) || has session s.reserved_sessions)) [
        | inl taken ↦ rw taken c
        | inr free ↦ rw free (record {
          unique = c.unique;
          indexed = c.indexed;
          owned = c.owned;
          fresh_sessions = λ n h. elim (Bool-cases (session =? n)) [
            | inl same ↦
                subst (λ k. get k s.sessions ≡ none) (=?→eq session n same)
                  (absent _ (ground arith))
            | inr other ↦ c.fresh_sessions n (ground (arith, has-add session n s.reserved_sessions))
          ];
          fresh_identities = λ i h. elim (Bool-cases (identity =? i)) [
            | inl same ↦
                subst (λ k. get k s.session_by_identity ≡ none) (=?→eq identity i same) fresh
            | inr other ↦
                c.fresh_identities i (ground (arith, has-add identity i s.reserved_identities))
          ];
        })
      ]

  -- Giving a reservation up.
  pub release-IsConsistent :
      (session : ℕ) (identity : SessionIdentity)
      → IsConsistent (release_session_reservation s session identity)
  unfolding release_session_reservation
  release-IsConsistent session identity = record {
    unique = c.unique;
    indexed = c.indexed;
    owned = c.owned;
    fresh_sessions =
        λ n h. c.fresh_sessions n (ground (arith, has-delete session n s.reserved_sessions));
    fresh_identities =
        λ i h. c.fresh_identities i (ground (arith, has-delete identity i s.reserved_identities));
  }

  module _ (session : ℕ) (pane : SharedPane) (no_session : get session s.sessions ≡ none)
      (no_identity : get pane.identity s.session_by_identity ≡ none) where
    publish_indexed :
        (i : SessionIdentity) (n : ℕ)
        → get i (put pane.identity session s.session_by_identity) ≡ some n
        → (p : SharedPane) × (get n (put session pane s.sessions) ≡ some p) × (p.identity ≡ i)
    publish_indexed i n h = elim (put_inv pane.identity i session n s.session_by_identity h) [
      | inl (mine, here) ↦ (
        pane,
        subst (λ k. get k (put session pane s.sessions) ≡ some pane) here
            (get-put_self session pane s.sessions),
        mine,
      )
      | inr (other, at) ↦
          let (p, found, mine) = c.indexed i n at in
          (p, put_fresh session n pane p s.sessions no_session found, mine)
    ]

    publish_owned :
        (n : ℕ) (p : SharedPane)
        → get n (put session pane s.sessions) ≡ some p
        → get p.identity (put pane.identity session s.session_by_identity) ≡ some n
    publish_owned n p h = elim (put_inv session n pane p s.sessions h) [
      | inl (here, same) ↦
          subst (λ q. get q.identity (put pane.identity session s.session_by_identity) ≡ some n)
            same (get-put_self pane.identity session s.session_by_identity ∙ ap some here)
      | inr (other, at) ↦
          put_fresh pane.identity p.identity session n s.session_by_identity no_identity
            (c.owned n p at)
    ]

  pub publish-IsConsistent :
      (session : ℕ) (pane : SharedPane) → IsConsistent (publish_reserved_session s session pane).1
  unfolding publish_reserved_session
  publish-IsConsistent session pane = elim (Bool-cases s.is_shutting_down) [
    | inl down ↦ simp down c
    | inr up ↦
        elim (Bool-cases (
          contains_key (get session s.sessions)
          || contains_key (get pane.identity s.session_by_identity)
          || not (has session s.reserved_sessions)
          || not (has pane.identity s.reserved_identities))) [
            | inl taken ↦ simp (up, taken) c
            | inr free ↦
                let no_session = absent (get session s.sessions) (ground arith) in
                let no_identity = absent (get pane.identity s.session_by_identity) (ground arith) in
                simp (up, free)
                  (record {
                    unique = put-IsMap pane.identity session s.session_by_identity c.unique;
                    indexed = publish_indexed session pane no_session no_identity;
                    owned = publish_owned session pane no_session no_identity;
                    fresh_sessions = λ n h.
                        still_fresh session n pane s.sessions s.reserved_sessions
                          (c.fresh_sessions n) h;
                    fresh_identities = λ i h.
                        still_fresh pane.identity i session s.session_by_identity
                          s.reserved_identities (c.fresh_identities i) h;
                  })
          ]
  ]

  abbrev others : ℕ → ℕ → Bool
  others session n = not (n == session)

  removed-IsConsistent :
      (session : ℕ)
      → IsConsistent (record s {
        sessions = remove session s.sessions;
        session_by_identity = retain (others session) s.session_by_identity;
      })
  removed-IsConsistent session = record {
    unique = retain-IsMap (others session) s.session_by_identity c.unique;
    indexed = λ i n h.
        let (at, keep) = get-retain (others session) i n s.session_by_identity c.unique h in
        let (p, found, mine) = c.indexed i n at in
        (p, get-remove session n s.sessions ∙ ground arith, mine);
    owned = λ n p h.
        retain-get (others session) p.identity n s.session_by_identity
          (c.owned n p (ground (arith, get-remove session n s.sessions)))
          (ground (arith, get-remove session n s.sessions));
    fresh_sessions = λ n h. ground (arith, get-remove session n s.sessions, c.fresh_sessions n h);
    fresh_identities =
        λ i h. get-retain-none (others session) i s.session_by_identity (c.fresh_identities i h);
  }

  pub remove-IsConsistent :
      (session : ℕ) (pane : SharedPane) → IsConsistent (remove_session_if_same s session pane).1
  unfolding remove_session_if_same
  remove-IsConsistent session pane = elim (Option-cases (get session s.sessions)) [
    | inl missing ↦ rw (missing, remove_session_if_same) c
    | inr (existing, at) ↦ elim (Bool-cases (existing.handle == pane.handle)) [
      | inl same ↦ rw (at, same, remove_session_if_same) (removed-IsConsistent session)
      | inr other ↦ rw (at, other, remove_session_if_same) c
    ]
  ]
