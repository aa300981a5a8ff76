-- ===== src/Model/Identities/Minted.antt =====
-- src/model.rs, `normalize_session_identities`: the loops that give a token to every session that
-- has none, and the state that the repair leaves.
use mult.Base.{
  ℕ, ◌≡◌, refl, sym, ◌∙◌, subst, Bool, true, false, List, [], ◌∷◌, ◌++◌, ◌==◌, arith, inl, inr,
  Bool-cases, ==→eq, ==-self,
}
use mult.Base.OrdSet.{contains, of_list, contains-of_list, IsUnique, IsWithin}
use mult.Base.OrdSet.Count.{count-append, contains-count, count→IsUnique}
use mult.Base.OrdMap
use mult.Base.OrdMap.{OrdMap, put, put-IsSorted}
use mult.Base.Result.{Result, ok, err}
use mult.Model.Data.{IdAllocationError, SessionIdentities, ProjectState}
use mult.Model.State.{values, chat_ids, terminal_ids}
use mult.Model.Sessions.{allocate_session_token}
use mult.Model.Validate.{keys}
use mult.Model.Valid.{IsTableOf, IsStored, IsWellFormed}
use mult.Model.Valid.Tables.{contains-keys-put, count-values-put}
use mult.Model.Valid.Kept.{assemble, apart_more}
use mult.Model.Repair.Total.{AreNumbered}
use mult.Model.Steps.Made.{drawn-IsUnused}
use mult.Model.Identities.{
  retain_fresh, retained_identities, retained_changed, Minting, minted, mint_chats, mint_terminals,
  then_terminals, mint_all, normalize_session_identities,
}
use mult.Model.Identities.Retained.{
  retained_known, retained-IsSorted, retained_seen, retained_count,
}

-- Tables on the way: every entry is of a session, and no token stands in them twice.
pub record IsPartial (s : ProjectState) (i : SessionIdentities) : Type 0 where
  pub chats_within : IsWithin (keys i.chats) (chat_ids s)
  pub terminals_within : IsWithin (keys i.terminals) (terminal_ids s)
  pub apart : IsUnique (values i.chats ++ values i.terminals)
  pub chats_sorted : OrdMap.IsSorted i.chats
  pub terminals_sorted : OrdMap.IsSorted i.terminals

retained-IsPartial : (s : ProjectState) → IsStored s → IsPartial s (retained_identities s)
retained-IsPartial s stored = record {
  chats_within = λ k e.
      sym (contains-of_list k (chat_ids s))
      ∙ (retained_known _ s.session_identities.chats [] k e).0;
  terminals_within = λ k e.
      sym (contains-of_list k (terminal_ids s))
      ∙ (retained_known _ s.session_identities.terminals _ k e).0;
  apart = count→IsUnique _ (λ n. ground (
    arith,
    count-append n (values (retained_identities s).chats)
        (values (retained_identities s).terminals),
    retained_count (of_list (chat_ids s)) s.session_identities.chats [] n,
    retained_count (of_list (terminal_ids s)) s.session_identities.terminals
        (retain_fresh (of_list (chat_ids s)) s.session_identities.chats []).1 n,
    retained_seen (of_list (chat_ids s)) s.session_identities.chats [] n,
    contains-count n (values (retained_identities s).chats),
  ));
  chats_sorted = retained-IsSorted _ s.session_identities.chats [] stored.chats_sorted;
  terminals_sorted = retained-IsSorted _ s.session_identities.terminals _ stored.terminals_sorted;
}

put_within :
    (id t : ℕ) (m : OrdMap ℕ) (ids : List ℕ)
    → contains id ids ≡ true
    → IsWithin (keys m) ids
    → IsWithin (keys (put id t m)) ids
put_within id t m ids there h k e = elim (Bool-cases (id == k)) [
  | inl same ↦ subst (λ n. contains n ids ≡ true) (==→eq id k same) there
  | inr other ↦ h k (ground (arith, contains-keys-put id k t m))
]

put_chat-IsPartial :
    (s : ProjectState) (i : SessionIdentities) (id t : ℕ)
    → contains id (chat_ids s) ≡ true
    → contains id (keys i.chats) ≡ false
    → contains t (values i.chats ++ values i.terminals) ≡ false
    → IsPartial s i
    → IsPartial s (record i { chats = put id t i.chats })
put_chat-IsPartial s i id t there missing unused p = record {
  chats_within = put_within id t i.chats (chat_ids s) there p.chats_within;
  terminals_within = p.terminals_within;
  apart =
      apart_more (values i.chats ++ values i.terminals) _ t
        (λ n. omega (
          arith,
          count-append n (values i.chats) (values i.terminals),
          count-append n (values (put id t i.chats)) (values i.terminals),
          count-values-put id t n i.chats missing,
        ))
        unused p.apart;
  chats_sorted = put-IsSorted id t i.chats p.chats_sorted;
  terminals_sorted = p.terminals_sorted;
}

put_terminal-IsPartial :
    (s : ProjectState) (i : SessionIdentities) (id t : ℕ)
    → contains id (terminal_ids s) ≡ true
    → contains id (keys i.terminals) ≡ false
    → contains t (values i.chats ++ values i.terminals) ≡ false
    → IsPartial s i
    → IsPartial s (record i { terminals = put id t i.terminals })
put_terminal-IsPartial s i id t there missing unused p = record {
  chats_within = p.chats_within;
  terminals_within = put_within id t i.terminals (terminal_ids s) there p.terminals_within;
  apart =
      apart_more (values i.chats ++ values i.terminals) _ t
        (λ n. omega (
          arith,
          count-append n (values i.chats) (values i.terminals),
          count-append n (values i.chats) (values (put id t i.terminals)),
          count-values-put id t n i.terminals missing,
        ))
        unused p.apart;
  chats_sorted = p.chats_sorted;
  terminals_sorted = put-IsSorted id t i.terminals p.terminals_sorted;
}

-- To reason about what follows a draw.
after_draw :
    {F Source : Type 0} (P : Minting F Source → Type 0) (i : SessionIdentities)
    (next : ℕ → Source → Minting F Source) (drawn : Result (IdAllocationError F) ℕ × Source)
    → ((e : IdAllocationError F) (rest : Source) → P (i, err e, rest))
    → ((token : ℕ) (rest : Source) → drawn.0 ≡ ok token → P (next token rest))
    → P (minted i next drawn)
unfolding minted
after_draw P i next (err e, rest) fails goes = fails e rest
after_draw P i next (ok token, rest) fails goes = goes token rest refl

-- Where a loop over some chats leaves the tables.
pub record HasChats {F Source : Type 0} (s : ProjectState) (i : SessionIdentities) (ids : List ℕ)
    (r : Minting F Source) : Type 0 where
  pub partial : IsPartial s r.0
  pub others : r.0.terminals ≡ i.terminals
  pub grown : IsWithin (keys i.chats) (keys r.0.chats)
  pub given : (c : Bool) → r.1 ≡ ok c → IsWithin ids (keys r.0.chats)

pub record HasTerminals {F Source : Type 0} (s : ProjectState) (i : SessionIdentities)
    (ids : List ℕ) (r : Minting F Source) : Type 0 where
  pub partial : IsPartial s r.0
  pub others : r.0.chats ≡ i.chats
  pub grown : IsWithin (keys i.terminals) (keys r.0.terminals)
  pub given : (c : Bool) → r.1 ≡ ok c → IsWithin ids (keys r.0.terminals)

cons_within :
    (id : ℕ) (ids now : List ℕ)
    → contains id now ≡ true
    → IsWithin ids now
    → IsWithin (id ∷ ids) now
unfolding contains
cons_within id ids now there h k e = elim (Bool-cases (id == k)) [
  | inl same ↦ subst (λ n. contains n now ≡ true) (==→eq id k same) there
  | inr other ↦ h k (ground arith)
]

module _ {Source F : Type 0} (fill_bytes : Source → Result F ℕ × Source) (s : ProjectState) where
  mint_chats-HasChats :
      (ids : List ℕ) (i : SessionIdentities) (changed : Bool) (source : Source)
      → IsWithin ids (chat_ids s)
      → IsPartial s i
      → HasChats s i ids (mint_chats fill_bytes s ids i changed source)
  unfolding mint_chats contains allocate_session_token
  mint_chats-HasChats [] i changed source known p = record {
    partial = p;
    others = refl;
    grown = λ k e. e;
    given = λ c e k there. absurd (ground arith);
  }
  mint_chats-HasChats (id ∷ ids) i changed source known p =
      elim (Bool-cases (contains id (keys i.chats))) [
        | inl old ↦
            let h = mint_chats-HasChats ids i changed source (λ k e. known k (ground arith)) p in
            rw (old, mint_chats)
              (record {
                partial = h.partial;
                others = h.others;
                grown = h.grown;
                given = λ c e. cons_within id ids _ (h.grown id old) (h.given c e);
              })
        | inr missing ↦
            rw (missing, mint_chats)
              (after_draw (HasChats s i (id ∷ ids)) i _ _
                (λ e rest. record {
                  partial = p;
                  others = refl;
                  grown = λ k there. there;
                  given = λ c failed. absurd (ground arith);
                })
                (λ token rest drawn.
                  let there = known id (rw (==-self id) refl) in
                  let unused = drawn-IsUnused fill_bytes _ source token drawn in
                  let h =
                    mint_chats-HasChats ids (record i { chats = put id token i.chats }) true rest
                      (λ k e. known k (ground arith))
                      (put_chat-IsPartial s i id token there missing unused.1 p) in
                  record {
                    partial = h.partial;
                    others = h.others;
                    grown = λ k e. h.grown k (ground (arith, contains-keys-put id k token i.chats));
                    given = λ c e.
                        cons_within id ids _
                          (h.grown id
                            (ground (arith, ==-self id, contains-keys-put id id token i.chats)))
                          (h.given c e);
                  }))
      ]

  mint_terminals-HasTerminals :
      (ids : List ℕ) (i : SessionIdentities) (changed : Bool) (source : Source)
      → IsWithin ids (terminal_ids s)
      → IsPartial s i
      → HasTerminals s i ids (mint_terminals fill_bytes s ids i changed source)
  unfolding mint_terminals contains allocate_session_token
  mint_terminals-HasTerminals [] i changed source known p = record {
    partial = p;
    others = refl;
    grown = λ k e. e;
    given = λ c e k there. absurd (ground arith);
  }
  mint_terminals-HasTerminals (id ∷ ids) i changed source known p =
      elim (Bool-cases (contains id (keys i.terminals))) [
        | inl old ↦
            let h =
              mint_terminals-HasTerminals ids i changed source (λ k e. known k (ground arith)) p in
            rw (old, mint_terminals)
              (record {
                partial = h.partial;
                others = h.others;
                grown = h.grown;
                given = λ c e. cons_within id ids _ (h.grown id old) (h.given c e);
              })
        | inr missing ↦
            rw (missing, mint_terminals)
              (after_draw (HasTerminals s i (id ∷ ids)) i _ _
                (λ e rest. record {
                  partial = p;
                  others = refl;
                  grown = λ k there. there;
                  given = λ c failed. absurd (ground arith);
                })
                (λ token rest drawn.
                  let there = known id (rw (==-self id) refl) in
                  let unused = drawn-IsUnused fill_bytes _ source token drawn in
                  let h =
                    mint_terminals-HasTerminals ids
                      (record i { terminals = put id token i.terminals }) true rest
                      (λ k e. known k (ground arith))
                      (put_terminal-IsPartial s i id token there missing unused.1 p) in
                  record {
                    partial = h.partial;
                    others = h.others;
                    grown =
                        λ k e. h.grown k (ground (arith, contains-keys-put id k token i.terminals));
                    given = λ c e.
                        cons_within id ids _
                          (h.grown id
                            (ground (arith, ==-self id, contains-keys-put id id token i.terminals)))
                          (h.given c e);
                  }))
      ]

  IsWithin-set : (ids : List ℕ) → IsWithin (of_list ids) ids
  IsWithin-set ids k e = sym (contains-of_list k ids) ∙ e

  -- Where both loops leave the tables.
  pub record HasAll (r : Minting F Source) : Type 0 where
    pub partial : IsPartial s r.0
    pub chats_given : (c : Bool) → r.1 ≡ ok c → IsWithin (chat_ids s) (keys r.0.chats)
    pub terminals_given : (c : Bool) → r.1 ≡ ok c → IsWithin (terminal_ids s) (keys r.0.terminals)

  then_terminals-HasAll :
      (i : SessionIdentities) (r : Minting F Source)
      → HasChats s i (of_list (chat_ids s)) r
      → HasAll (then_terminals fill_bytes s r)
  unfolding then_terminals
  then_terminals-HasAll i (now, err e, rest) h = record {
    partial = h.partial;
    chats_given = λ c e. absurd (ground arith);
    terminals_given = λ c e. absurd (ground arith);
  }
  then_terminals-HasAll i (now, ok changed, rest) h =
      let t =
        mint_terminals-HasTerminals (of_list (terminal_ids s)) now changed rest
          (IsWithin-set (terminal_ids s)) h.partial in
      record {
        partial = t.partial;
        chats_given = λ c e k there.
            subst (λ m. contains k (keys m) ≡ true) (sym t.others)
              (h.given changed refl k (contains-of_list k (chat_ids s) ∙ there));
        terminals_given =
            λ c e k there. t.given c e k (contains-of_list k (terminal_ids s) ∙ there);
      }

  mint_all-HasAll : (source : Source) → IsStored s → HasAll (mint_all fill_bytes s source)
  unfolding mint_all
  mint_all-HasAll source stored = then_terminals-HasAll (retained_identities s) _ (
      mint_chats-HasChats (of_list (chat_ids s)) (retained_identities s) (retained_changed s) source
        (IsWithin-set (chat_ids s)) (retained-IsPartial s stored))

within_both :
    (ids : List ℕ) (m : OrdMap ℕ) → IsWithin (keys m) ids → IsWithin ids (keys m) → IsTableOf ids m
within_both ids m a b k = ground (arith, a k, b k)

module _ {Source F : Type 0} (fill_bytes : Source → Result F ℕ × Source) where
  pub normalize-IsWellFormed :
      (s : ProjectState) (source : Source) (changed : Bool)
      → IsStored s
      → AreNumbered s
      → (normalize_session_identities fill_bytes s source).1 ≡ ok changed
      → IsWellFormed (normalize_session_identities fill_bytes s source).0
  unfolding normalize_session_identities
  normalize-IsWellFormed s source changed stored a e =
      let h = mint_all-HasAll fill_bytes s source stored in
      assemble _ a.workspaces_unique a.workspaces_nonzero
        (record {
          unique = a.chats_unique;
          durable = a.chats_durable;
          table = within_both _ _ h.partial.chats_within (h.chats_given changed e);
          sorted = h.partial.chats_sorted;
        })
        (record {
          unique = a.terminals_unique;
          durable = a.terminals_durable;
          table = within_both _ _ h.partial.terminals_within (h.terminals_given changed e);
          sorted = h.partial.terminals_sorted;
        })
        h.partial.apart
        (record {
          known = λ k e.
              sym (contains-of_list k (chat_ids s))
              ∙ (retained_known _ s.agent_generations [] k e).0;
          apart =
              count→IsUnique _ (λ n.
                ground (arith, retained_count (of_list (chat_ids s)) s.agent_generations [] n));
          sorted = retained-IsSorted _ s.agent_generations [] stored.generations_sorted;
        })
