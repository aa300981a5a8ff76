-- ===== src/Storage/Load.antt =====
-- src/storage.rs: the repair of a state and the load of what was decoded.
use mult.Base.{ℕ, Bool, true, false, not, ◌&&◌, ◌||◌, List, map, any, ◌==◌, if◌then◌else◌}
use mult.Base.OrdSet.{contains}
use mult.Base.Result.{Result, ok, err}
use mult.Model.Random.{generate_identity, IoError}
use mult.Model.Data.{
  ChatStatus, idle, thinking, waiting, ChatSession, Workspace, ProjectState, state_version,
  IdAllocationError, identity_error,
}
use mult.Model.Validate.{keys, validate_session_identities}
use mult.Model.Repair.{normalize_next_ids}
use mult.Model.Identities.{normalize_session_identities}
use mult.Storage.{
  StateV1, StateV2, StateV3, DecodedState, v1, v2, v3, v4, v5, StateError, wrong_version, invalid,
  allocation_failed, LoadedState,
}
use mult.Storage.Migrate.{state_of_v1, migrate_v2_to_v3, state_of_v3, migrate_v4_to_v5}

abbrev pub is_busy : ChatStatus → Bool
is_busy thinking = true
is_busy waiting = true
is_busy other = false

-- A chat at work that no live generation owns.
unfoldable pub is_unowned : List ℕ → ChatSession → Bool
is_unowned active c = not (contains c.id active) && is_busy c.status

abbrev pub settle_chat : List ℕ → ChatSession → ChatSession
settle_chat active c = if is_unowned active c then record c { status = idle } else c

abbrev pub settle_workspace : List ℕ → Workspace → Workspace
settle_workspace active w = record w { chats = map (settle_chat active) w.chats }

-- The state, and whether a status changed.
unfoldable pub normalize_unowned_agent_statuses : ProjectState → ProjectState × Bool
normalize_unowned_agent_statuses s = (
  record s { workspaces = map (settle_workspace (keys s.agent_generations)) s.workspaces },
  any (λ (w : Workspace). any (is_unowned (keys s.agent_generations)) w.chats) s.workspaces,
)

unfoldable pub validate_current_state :
    {F : Type 0} → ProjectState → Result (StateError F) (Unit {0})
validate_current_state s =
    if s.version == state_version
    then elim (validate_session_identities s) [ ok u ↦ ok u | err e ↦ err (invalid e) ]
    else err (wrong_version s.version)

-- The result of the repair from the result of `normalize_session_identities`.
unfoldable pub repaired :
    {F Source : Type 0}
    → Bool
    → ProjectState × Result (IdAllocationError F) Bool × Source
    → Result (StateError F) (ProjectState × Bool) × Source
repaired ids_changed (s, err e, rest) = (err (allocation_failed e), rest)
repaired ids_changed (s, ok changed, rest) = (
  ok (
    (normalize_unowned_agent_statuses s).0,
    ids_changed || (changed || (normalize_unowned_agent_statuses s).1),
  ),
  rest,
)

-- `validate_current_state(&state)?` on a state that is to be returned.
unfoldable pub checked : {F : Type 0} → ProjectState → Bool → Result (StateError F) LoadedState
checked s changed = elim (validate_current_state s) [
  | ok u ↦ ok (record { state = s; needs_save = changed })
  | err e ↦ err e
]

-- The end of both paths: the repaired state, under the current version, is checked.
unfoldable pub finished :
    {F Source : Type 0}
    → (ProjectState → ProjectState)
    → (Bool → Bool)
    → Result (StateError F) (ProjectState × Bool) × Source
    → Result (StateError F) LoadedState × Source
finished after saves (err e, rest) = (err e, rest)
finished after saves (ok (s, changed), rest) = (checked (after s) (saves changed), rest)

module _ {Source F : Type 0} (fill_bytes : Source → Result F ℕ × Source) where
  -- The three calls that repair a state.
  unfoldable pub repair_state :
      ProjectState → Source → Result (StateError F) (ProjectState × Bool) × Source
  repair_state s source = elim (normalize_next_ids s) [
    | err e ↦ (err (allocation_failed e), source)
    | ok p ↦ repaired p.1 (normalize_session_identities fill_bytes p.0 source)
  ]

  -- `migrate_v3_to_current`, through `migrate_v3_to_v4`.
  unfoldable pub migrate_v3_to_current :
      StateV3 → Source → Result (StateError F) LoadedState × Source
  migrate_v3_to_current old source =
      finished migrate_v4_to_v5 (λ changed. true) (repair_state (state_of_v3 old) source)

  unfoldable pub migrate_v2_to_current :
      StateV2 → Source → Result (StateError F) LoadedState × Source
  migrate_v2_to_current old source = migrate_v3_to_current (migrate_v2_to_v3 old) source

  -- `migrate_v1_to_current`, once `next_namespace` was drawn.
  unfoldable pub with_namespace :
      StateV1 → Result (IoError F) ℕ × Source → Result (StateError F) LoadedState × Source
  with_namespace old (err e, rest) = (err (allocation_failed (identity_error e)), rest)
  with_namespace old (ok fresh, rest) = migrate_v2_to_current (state_of_v1 old fresh) rest

  unfoldable pub next_namespace : Source → Result (IoError F) ℕ × Source
  next_namespace source = generate_identity fill_bytes (λ candidate. false) source

  -- The current version, or version 4, which has the same shape.
  unfoldable pub load_current : ProjectState → Source → Result (StateError F) LoadedState × Source
  load_current s source =
      let migrated = s.version == 4 in
      finished (λ now. now) (λ changed. migrated || changed)
        (repair_state (if migrated then migrate_v4_to_v5 s else s) source)

  unfoldable pub load_decoded : DecodedState → Source → Result (StateError F) LoadedState × Source
  load_decoded (v1 old) source = with_namespace old (next_namespace source)
  load_decoded (v2 old) source = migrate_v2_to_current old source
  load_decoded (v3 old) source = migrate_v3_to_current old source
  load_decoded (v4 s) source = load_current s source
  load_decoded (v5 s) source = load_current s source
