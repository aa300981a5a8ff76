-- ===== src/Storage/Sound.antt =====
-- src/storage.rs: what a load answers. A repaired state always passes the check.
use mult.Base.{
  ℕ, ◌≡◌, refl, sym, ◌∙◌, subst, Bool, true, false, ◌||◌, List, [], ◌∷◌, ◌⊎◌, map, All, ◌==◌, arith,
  inl, inr, Bool-cases, if◌then◌else◌, ==-self,
}
use mult.Base.OrdSet.{contains, IsUnique}
use mult.Base.OrdSet.Count.{flat}
use mult.Base.OrdMap
use mult.Base.Result.{Result, ok, err}
use mult.Model.Random.{IoError}
use mult.Model.Data.{
  ChatSession, Workspace, ProjectState, state_version, IdAllocationError, identity_error,
  workspace_numbers, chat_numbers, terminal_numbers,
}
use mult.Model.State.{chat_ids, terminal_ids}
use mult.Model.Validate.{keys}
use mult.Model.Validate.Sound.{validate-ok-iff-IsValid}
use mult.Model.Valid.{IsStored, IsWellFormed}
use mult.Model.Valid.Kept.{IsKept, AreKnown, assemble, chats_part, terminals_part, generations_part}
use mult.Model.Repair.Total.{HasRoom, normalize_next_ids_total, IsSameBut}
use mult.Model.Identities.{normalize_session_identities}
use mult.Model.Identities.Minted.{normalize-IsWellFormed}
use mult.Storage.{
  StateV1, StateV2, StateV3, DecodedState, v1, v2, v3, v4, v5, StateError, allocation_failed,
  LoadedState,
}
use mult.Storage.Migrate.{state_of_v1, migrate_v2_to_v3, state_of_v3, migrate_v4_to_v5}
use mult.Storage.Load.{
  is_busy, is_unowned, settle_chat, settle_workspace, normalize_unowned_agent_statuses,
  validate_current_state, repaired, checked, finished, repair_state, migrate_v3_to_current,
  migrate_v2_to_current, with_namespace, next_namespace, load_current, load_decoded,
}

-- Every chat has a live generation or is not at work.
abbrev pub IsCalm : List ℕ → ChatSession → Type 0
IsCalm active c = (contains c.id active ≡ true) ⊎ (is_busy c.status ≡ false)

abbrev pub IsSettled : ProjectState → Type 0
IsSettled s =
    All (λ (w : Workspace). All (λ (c : ChatSession). IsCalm (keys s.agent_generations) c) w.chats)
      s.workspaces

settle_chat-id : (active : List ℕ) (c : ChatSession) → (settle_chat active c).id ≡ c.id
settle_chat-id active c = elim (Bool-cases (is_unowned active c)) [
  | inl busy ↦ rw busy refl
  | inr calm ↦ rw calm refl
]

owned_or_IsCalm :
    (active : List ℕ) (c : ChatSession) → is_unowned active c ≡ false → IsCalm active c
unfolding is_unowned
owned_or_IsCalm active c calm = elim (Bool-cases (contains c.id active)) [
  | inl owned ↦ inl owned
  | inr other ↦ inr (ground (arith, other, calm))
]

settle_chat-IsCalm : (active : List ℕ) (c : ChatSession) → IsCalm active (settle_chat active c)
settle_chat-IsCalm active c = elim (Bool-cases (is_unowned active c)) [
  | inl busy ↦ rw busy (inr refl)
  | inr calm ↦ rw calm (owned_or_IsCalm active c calm)
]

IsCalm-chats :
    (active : List ℕ) (cs : List ChatSession) → All (IsCalm active) (map (settle_chat active) cs)
IsCalm-chats active [] = tt
IsCalm-chats active (c ∷ cs) = (settle_chat-IsCalm active c, IsCalm-chats active cs)

IsCalm-workspaces :
    (active : List ℕ) (ws : List Workspace)
    → All
        (λ (w : Workspace). All (λ (c : ChatSession). IsCalm active c) w.chats)
        (map (settle_workspace active) ws)
IsCalm-workspaces active [] = tt
IsCalm-workspaces active (w ∷ ws) = (IsCalm-chats active w.chats, IsCalm-workspaces active ws)

settled_numbers :
    (active : List ℕ) (cs : List ChatSession)
    → map (λ (c : ChatSession). c.id) (map (settle_chat active) cs)
      ≡ map (λ (c : ChatSession). c.id) cs
settled_numbers active [] = refl
settled_numbers active (c ∷ cs) = rw (settle_chat-id active c, settled_numbers active cs) refl

flat-map_same :
    (numbers : Workspace → List ℕ) (f : Workspace → Workspace)
    → ((w : Workspace) → numbers (f w) ≡ numbers w)
    → (ws : List Workspace) → flat numbers (map f ws) ≡ flat numbers ws
flat-map_same numbers f h [] = refl
flat-map_same numbers f h (w ∷ ws) = rw (h w, flat-map_same numbers f h ws) refl

map_same :
    (f : Workspace → Workspace)
    → ((w : Workspace) → (f w).id ≡ w.id)
    → (ws : List Workspace) → workspace_numbers (map f ws) ≡ workspace_numbers ws
map_same f h [] = refl
map_same f h (w ∷ ws) = rw (h w, map_same f h ws) refl

calm-IsWellFormed :
    (s : ProjectState)
    → IsWellFormed s
    → IsWellFormed (normalize_unowned_agent_statuses s).0
      × IsSettled (normalize_unowned_agent_statuses s).0
      × ((normalize_unowned_agent_statuses s).0.version ≡ s.version)
unfolding normalize_unowned_agent_statuses
calm-IsWellFormed s good = (
  assemble _ (subst IsUnique (sym numbers) good.1.workspaces_unique)
      (subst (λ l. contains 0 l ≡ false) (sym numbers) good.1.workspaces_nonzero)
      (subst (λ l. IsKept l s.session_identities.chats) (sym chats) (chats_part s good))
      (subst (λ l. IsKept l s.session_identities.terminals) (sym terminals) (terminals_part s good))
      good.1.tokens_unique
      (subst (λ l. AreKnown l s.agent_generations) (sym chats) (generations_part s good)),
  IsCalm-workspaces (keys s.agent_generations) s.workspaces,
  refl,
)
  where
    numbers :
        workspace_numbers (map (settle_workspace (keys s.agent_generations)) s.workspaces)
        ≡ workspace_numbers s.workspaces
    numbers = map_same (settle_workspace (keys s.agent_generations)) (λ w. refl) s.workspaces

    chats :
        flat chat_numbers (map (settle_workspace (keys s.agent_generations)) s.workspaces)
        ≡ chat_ids s
    chats =
        flat-map_same chat_numbers (settle_workspace (keys s.agent_generations))
          (λ w. settled_numbers (keys s.agent_generations) w.chats) s.workspaces

    terminals :
        flat terminal_numbers (map (settle_workspace (keys s.agent_generations)) s.workspaces)
        ≡ terminal_ids s
    terminals =
        flat-map_same terminal_numbers (settle_workspace (keys s.agent_generations)) (λ w. refl)
          s.workspaces

-- A state that is well formed and of the current version passes the check.
checked-ok :
    {F : Type 0} (s : ProjectState) (changed : Bool)
    → IsWellFormed s
    → s.version ≡ state_version
    → checked {F = F} s changed ≡ ok (record { state = s; needs_save = changed })
unfolding checked validate_current_state
checked-ok s changed good e =
    ground (arith, (validate-ok-iff-IsValid s good.0).1 good.1, e, ==-self state_version)

-- What a load answers: a state that is well formed, settled and of the current version, or the
-- failure of an allocation. The check itself never fails.
pub data Loads {F Source : Type 0} : Result (StateError F) LoadedState × Source → Type 0 where
  loads :
      (l : LoadedState) (rest : Source)
      → IsWellFormed l.state
      → l.state.version ≡ state_version
      → IsSettled l.state
      → Loads (ok l, rest)
  cannot_allocate :
      (e : IdAllocationError F) (rest : Source) → Loads (err (allocation_failed e), rest)

-- What a repair answers.
data Repairs {F Source : Type 0} (version : ℕ)
    : Result (StateError F) (ProjectState × Bool) × Source → Type 0 where
  repairs :
      (now : ProjectState) (changed : Bool) (rest : Source)
      → IsWellFormed now
      → now.version ≡ version
      → IsSettled now
      → Repairs version (ok (now, changed), rest)
  cannot_repair :
      (e : IdAllocationError F) (rest : Source) → Repairs version (err (allocation_failed e), rest)

repaired-Repairs :
    {F Source : Type 0} (ids_changed : Bool) (version : ℕ)
    (r : ProjectState × Result (IdAllocationError F) Bool × Source)
    → r.0.version ≡ version
    → ((changed : Bool) → r.1 ≡ ok changed → IsWellFormed r.0)
    → Repairs version (repaired ids_changed r)
unfolding repaired
repaired-Repairs ids_changed version (s, err e, rest) v h = cannot_repair e rest
repaired-Repairs ids_changed version (s, ok changed, rest) v h =
    let (good, settled, same) = calm-IsWellFormed s (h changed refl) in
    repairs _ _ rest good (same ∙ v) settled

finished-Loads :
    {F Source : Type 0} (after : ProjectState → ProjectState) (saves : Bool → Bool) (version : ℕ)
    (r : Result (StateError F) (ProjectState × Bool) × Source)
    → ((s : ProjectState)
        → IsWellFormed s × IsSettled s × (s.version ≡ version)
        → IsWellFormed (after s) × IsSettled (after s) × ((after s).version ≡ state_version))
    → Repairs version r
    → Loads (finished after saves r)
unfolding finished
finished-Loads after saves version _ h (cannot_repair e rest) = cannot_allocate e rest
finished-Loads after saves version _ h (repairs now changed rest good v settled) =
    let (good2, settled2, current) = h now (good, settled, v) in
    rw (checked-ok (after now) (saves changed) good2 current)
      (loads (record { state = after now; needs_save = saves changed }) rest good2 current settled2)

same_tables-IsStored : (now s : ProjectState) → IsSameBut now s → IsStored s → IsStored now
same_tables-IsStored now s same stored = record {
  chats_sorted = subst (λ i. OrdMap.IsSorted i.chats) (sym same.identities) stored.chats_sorted;
  terminals_sorted =
      subst (λ i. OrdMap.IsSorted i.terminals) (sym same.identities) stored.terminals_sorted;
  generations_sorted = subst OrdMap.IsSorted (sym same.generations) stored.generations_sorted;
}

-- What the decoded states satisfy: few enough sessions, tables kept by `BTreeMap`, and the version
-- that the envelope was dispatched on.
pub data IsDecoded : DecodedState → Type 0 where
  decoded_v1 :
      (old : StateV1)
      → ((fresh : ℕ) → HasRoom (state_of_v3 (migrate_v2_to_v3 (state_of_v1 old fresh))))
      → IsDecoded (v1 old)
  decoded_v2 :
      (old : StateV2)
      → HasRoom (state_of_v3 (migrate_v2_to_v3 old))
      → IsStored (state_of_v3 (migrate_v2_to_v3 old))
      → IsDecoded (v2 old)
  decoded_v3 :
      (old : StateV3) → HasRoom (state_of_v3 old) → IsStored (state_of_v3 old) → IsDecoded (v3 old)
  decoded_v4 : (s : ProjectState) → s.version ≡ 4 → HasRoom s → IsStored s → IsDecoded (v4 s)
  decoded_v5 :
      (s : ProjectState) → s.version ≡ state_version → HasRoom s → IsStored s → IsDecoded (v5 s)

module _ {Source F : Type 0} (fill_bytes : Source → Result F ℕ × Source) where
  repair_state-Repairs :
      (s : ProjectState) (source : Source)
      → HasRoom s
      → IsStored s
      → Repairs s.version (repair_state fill_bytes s source)
  unfolding repair_state
  repair_state-Repairs s source room stored =
      let (now, changed, ran, numbered, hinted, same, erased) = normalize_next_ids_total F s room in
      rw (ran, repair_state)
        (repaired-Repairs changed s.version (normalize_session_identities fill_bytes now source)
          (version now ∙ same.version)
          (λ c e.
            normalize-IsWellFormed fill_bytes now source c (same_tables-IsStored now s same stored)
              numbered e))
    where
      version :
          (x : ProjectState)
          → (normalize_session_identities fill_bytes x source).0.version ≡ x.version
      version x = unfold normalize_session_identities in refl

  migrate_v3-Loads :
      (old : StateV3) (source : Source)
      → HasRoom (state_of_v3 old)
      → IsStored (state_of_v3 old)
      → Loads (migrate_v3_to_current fill_bytes old source)
  unfolding migrate_v3_to_current
  migrate_v3-Loads old source room stored =
      finished-Loads migrate_v4_to_v5 (λ changed. true) _
        (repair_state fill_bytes (state_of_v3 old) source) (λ s h. upgraded s h.0 h.1)
        (repair_state-Repairs (state_of_v3 old) source room stored)
    where
      upgraded :
          (s : ProjectState)
          → IsWellFormed s
          → IsSettled s
          → IsWellFormed (migrate_v4_to_v5 s)
            × IsSettled (migrate_v4_to_v5 s)
            × ((migrate_v4_to_v5 s).version ≡ state_version)
      upgraded s good settled =
          unfold migrate_v4_to_v5 in
          (
            assemble _ good.1.workspaces_unique good.1.workspaces_nonzero (chats_part s good)
                (terminals_part s good) good.1.tokens_unique (generations_part s good),
            settled,
            refl,
          )

  with_namespace-Loads :
      (old : StateV1) (drawn : Result (IoError F) ℕ × Source)
      → ((fresh : ℕ) → HasRoom (state_of_v3 (migrate_v2_to_v3 (state_of_v1 old fresh))))
      → Loads (with_namespace fill_bytes old drawn)
  unfolding with_namespace migrate_v2_to_current
  with_namespace-Loads old (err e, rest) room = cannot_allocate (identity_error e) rest
  with_namespace-Loads old (ok fresh, rest) room =
      migrate_v3-Loads (migrate_v2_to_v3 (state_of_v1 old fresh)) rest (room fresh) (stored fresh)
    where
      stored : (fresh : ℕ) → IsStored (state_of_v3 (migrate_v2_to_v3 (state_of_v1 old fresh)))
      stored fresh =
          unfold state_of_v3 migrate_v2_to_v3 state_of_v1 in
          (record { chats_sorted = tt; terminals_sorted = tt; generations_sorted = tt })

  load_current-Loads :
      (s : ProjectState) (source : Source)
      → (if s.version == 4 then migrate_v4_to_v5 s else s).version ≡ state_version
      → HasRoom (if s.version == 4 then migrate_v4_to_v5 s else s)
      → IsStored (if s.version == 4 then migrate_v4_to_v5 s else s)
      → Loads (load_current fill_bytes s source)
  unfolding load_current
  load_current-Loads s source current room stored =
      finished-Loads (λ now. now) (λ changed. (s.version == 4) || changed) _ _
        (λ now h. (h.0, h.1, h.2 ∙ current))
        (repair_state-Repairs (if s.version == 4 then migrate_v4_to_v5 s else s) source room stored)

  -- A decoded file of any of the five versions, with at most as many sessions as numbers, loads
  -- as a well-formed state of the current version in which no chat without a live generation is
  -- at work, or the load reports an allocation that failed; the check of the repaired state never
  -- fails.
  pub load_decoded-Loads :
      (d : DecodedState) (source : Source) → IsDecoded d → Loads (load_decoded fill_bytes d source)
  unfolding load_decoded migrate_v2_to_current
  load_decoded-Loads _ source (decoded_v1 old room) =
      with_namespace-Loads old (next_namespace fill_bytes source) room
  load_decoded-Loads _ source (decoded_v2 old room stored) =
      migrate_v3-Loads (migrate_v2_to_v3 old) source room stored
  load_decoded-Loads _ source (decoded_v3 old room stored) = migrate_v3-Loads old source room stored
  load_decoded-Loads _ source (decoded_v4 s four room stored) =
      let four_test = subst (λ n. (n == 4) ≡ true) (sym four) refl in
      load_current-Loads s source
        (subst (λ b. (if b then migrate_v4_to_v5 s else s).version ≡ state_version) (sym four_test)
          (unfold migrate_v4_to_v5 in refl))
        (subst (λ b. HasRoom (if b then migrate_v4_to_v5 s else s)) (sym four_test)
          (unfold migrate_v4_to_v5 in
            (record {
              workspaces_fit = room.workspaces_fit;
              chats_fit = room.chats_fit;
              terminals_fit = room.terminals_fit;
            })))
        (subst (λ b. IsStored (if b then migrate_v4_to_v5 s else s)) (sym four_test)
          (unfold migrate_v4_to_v5 in
            (record {
              chats_sorted = stored.chats_sorted;
              terminals_sorted = stored.terminals_sorted;
              generations_sorted = stored.generations_sorted;
            })))
  load_decoded-Loads _ source (decoded_v5 s current room stored) =
      let other_test = subst (λ n. (n == 4) ≡ false) (sym current) refl in
      load_current-Loads s source
        (subst (λ b. (if b then migrate_v4_to_v5 s else s).version ≡ state_version) (sym other_test)
          current)
        (subst (λ b. HasRoom (if b then migrate_v4_to_v5 s else s)) (sym other_test) room)
        (subst (λ b. IsStored (if b then migrate_v4_to_v5 s else s)) (sym other_test) stored)
