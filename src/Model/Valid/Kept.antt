-- ===== src/Model/Valid/Kept.antt =====
-- src/model.rs: one kind of session, its numbers and its table, as the parts of a well-formed state.
use mult.Base.{
  ℕ, ◌+◌, ◌≤◌, ◌≡◌, refl, subst, true, false, List, [], ◌∷◌, arith, ◌==◌, if◌then◌else◌,
}
use mult.Base.OrdSet.{contains, IsUnique, IsWithin}
use mult.Base.OrdSet.Count.{count, contains-count, IsUnique→count, count→IsUnique}
use mult.Base.OrdMap
use mult.Base.OrdMap.{OrdMap, put, remove, remove-IsSorted, put-IsSorted}
use mult.Model.Ids.{is_valid_durable_session_id}
use mult.Model.Data.{ProjectState, workspace_numbers}
use mult.Model.State.{values, chat_ids, terminal_ids, tokens}
use mult.Model.Validate.{keys}
use mult.Model.Sessions.{remove_all}
use mult.Model.Valid.{IsTableOf, AreDurable, IsWellFormed}
use mult.Model.Valid.Tables.{
  contains-keys-remove_all, remove_all-IsSorted, count-values-remove_all_le, Changes,
  Changes-IsUnique, Changes-AreDurable, Changes-remove_all, Changes-put,
}

-- The numbers of a kind of session, and the table of its tokens.
pub record IsKept (ids : List ℕ) (m : OrdMap ℕ) : Type 0 where
  pub unique : IsUnique ids
  pub durable : AreDurable ids
  pub table : IsTableOf ids m
  pub sorted : OrdMap.IsSorted m

pub record AreKnown (ids : List ℕ) (gens : OrdMap ℕ) : Type 0 where
  pub known : IsWithin (keys gens) ids
  pub apart : IsUnique (values gens)
  pub sorted : OrdMap.IsSorted gens

singleton_is : (id k : ℕ) → contains k (id ∷ []) ≡ true → id ≡ k
unfolding contains
singleton_is id k e = ground arith

pub IsKept-add :
    (old now : List ℕ) (id v : ℕ) (m : OrdMap ℕ)
    → Changes old [] (id ∷ []) now
    → contains id old ≡ false
    → is_valid_durable_session_id id ≡ true
    → IsKept old m
    → IsKept now (put id v m)
IsKept-add old now id v m c fresh fine kept = record {
  unique =
      Changes-IsUnique old [] (id ∷ []) now c kept.unique (unfold contains in refl, tt)
        (λ k e. subst (λ n. contains n old ≡ false) (singleton_is id k e) fresh);
  durable =
      Changes-AreDurable old [] (id ∷ []) now c kept.durable
        (λ k e. subst (λ n. is_valid_durable_session_id n ≡ true) (singleton_is id k e) fine);
  table = Changes-put old now id v m c kept.table;
  sorted = put-IsSorted id v m kept.sorted;
}

pub IsKept-remove :
    (old gone now : List ℕ) (m : OrdMap ℕ)
    → Changes old gone [] now
    → IsKept old m
    → IsKept now (remove_all gone m)
IsKept-remove old gone now m c kept = record {
  unique =
      Changes-IsUnique old gone [] now c kept.unique tt
        (λ k e. absurd (unfold contains in ground arith));
  durable =
      Changes-AreDurable old gone [] now c kept.durable
        (λ k e. absurd (unfold contains in ground arith));
  table = Changes-remove_all old gone now m c kept.unique kept.table;
  sorted = remove_all-IsSorted gone m kept.sorted;
}

pub IsKept-same :
    (old now : List ℕ) (m : OrdMap ℕ) → Changes old [] [] now → IsKept old m → IsKept now m
unfolding remove_all
IsKept-same old now m c kept = IsKept-remove old [] now m c kept

pub AreKnown-remove :
    (old gone now : List ℕ) (gens : OrdMap ℕ)
    → Changes old gone [] now
    → IsUnique old
    → AreKnown old gens
    → AreKnown now (remove_all gone gens)
AreKnown-remove old gone now gens c u a = record {
  known = λ k e. ground (
    arith,
    c k,
    IsUnique→count k old u,
    contains-keys-remove_all gone k gens,
    a.known k,
    contains-count k now,
    contains-count k old,
    contains-count k gone,
  );
  apart = count→IsUnique (values (remove_all gone gens)) (λ n.
      omega
        (arith, count-values-remove_all_le gone n gens, IsUnique→count n (values gens) a.apart));
  sorted = remove_all-IsSorted gone gens a.sorted;
}

pub AreKnown-more :
    (old new now : List ℕ) (gens : OrdMap ℕ)
    → Changes old [] new now
    → AreKnown old gens
    → AreKnown now gens
AreKnown-more old new now gens c a = record {
  known = λ k e. ground (arith, c k, a.known k e, contains-count k now, contains-count k old);
  apart = a.apart;
  sorted = a.sorted;
}

-- A session added brings its token along.
pub apart_more :
    (old now : List ℕ) (token : ℕ)
    → ((n : ℕ) → count n now ≡ count n old + (if token == n then 1 else 0))
    → contains token old ≡ false
    → IsUnique old
    → IsUnique now
apart_more old now token h unused u =
    Changes-IsUnique old [] (token ∷ []) now (λ n. omega (arith, h n)) u
      (unfold contains in refl, tt)
      (λ k e. subst (λ n. contains n old ≡ false) (singleton_is token k e) unused)

pub apart_fewer :
    (old now : List ℕ) → ((n : ℕ) → count n now ≤ count n old) → IsUnique old → IsUnique now
apart_fewer old now h u = count→IsUnique now (λ n. omega (arith, h n, IsUnique→count n old u))

pub chats_part :
    (s : ProjectState) → IsWellFormed s → IsKept (chat_ids s) s.session_identities.chats
chats_part s (stored, v) = record {
  unique = v.chats_unique;
  durable = v.chats_durable;
  table = v.chat_table;
  sorted = stored.chats_sorted;
}

pub terminals_part :
    (s : ProjectState) → IsWellFormed s → IsKept (terminal_ids s) s.session_identities.terminals
terminals_part s (stored, v) = record {
  unique = v.terminals_unique;
  durable = v.terminals_durable;
  table = v.terminal_table;
  sorted = stored.terminals_sorted;
}

pub generations_part :
    (s : ProjectState) → IsWellFormed s → AreKnown (chat_ids s) s.agent_generations
generations_part s (stored, v) = record {
  known = v.generations_known;
  apart = v.generations_unique;
  sorted = stored.generations_sorted;
}

-- A state is well formed when its parts are.
pub assemble :
    (s : ProjectState)
    → IsUnique (workspace_numbers s.workspaces)
    → contains 0 (workspace_numbers s.workspaces) ≡ false
    → IsKept (chat_ids s) s.session_identities.chats
    → IsKept (terminal_ids s) s.session_identities.terminals
    → IsUnique (tokens s)
    → AreKnown (chat_ids s) s.agent_generations
    → IsWellFormed s
assemble s numbered nonzero chats terminals tokens_apart gens = (
  record {
    chats_sorted = chats.sorted;
    terminals_sorted = terminals.sorted;
    generations_sorted = gens.sorted;
  },
  record {
    workspaces_unique = numbered;
    workspaces_nonzero = nonzero;
    chats_unique = chats.unique;
    chats_durable = chats.durable;
    terminals_unique = terminals.unique;
    terminals_durable = terminals.durable;
    chat_table = chats.table;
    terminal_table = terminals.table;
    tokens_unique = tokens_apart;
    generations_known = gens.known;
    generations_unique = gens.apart;
  },
)
