-- ===== src/Daemon/AgentStatus/Tests.antt =====
-- Agent status at concrete inputs: an agent reports that it runs, exits, and is asked about.
use mult.Base.{◌≡◌, refl, false, none, some, List, [], ◌∷◌, All}
use mult.Base.Equality.{nat_eq}
use mult.Base.Map.{get, put, has, add}
use mult.Protocol.Ids.{SessionIdentity, identity_beq, identity_eq}
use mult.Protocol.Agent.{
  AgentSessionMetadata, AgentStatusRecord, AgentStatus, claude_code, running, finished, exited,
  metadata_beq, kind_beq, updated, is_final,
}
use mult.Daemon.Registry.{
  ServerState, SharedPane, init, choose, reserve, reserve_session, publish_reserved_session,
  publish_agent, record_agent_exit, exit_record,
}
use mult.Daemon.Registry.Histories
use mult.Daemon.Registry.Histories.{reserves, publishes, exits, after}
use mult.Daemon.AgentStatus.{update_agent_status, query_agent_status, store_status, metadata_error}
use mult.Daemon.AgentStatus.Kept.{
  Event, registry, updates, run, step, creates, held, final_status_kept,
}
use mult.Daemon.AgentStatus.Answers.{Updates, query_of, update_agent_status-Updates}

abbrev one : SessionIdentity
one = record { namespace = 7; token = 1 }

abbrev metadata : AgentSessionMetadata
metadata = record { schema_version = 1; chat_id = 4; agent = claude_code; generation = 2 }

abbrev pane : SharedPane
pane = record { handle = 11; identity = one; agent = some metadata }

abbrev reported : AgentStatus → AgentStatusRecord
reported status = record {
  schema_version = 1;
  identity = one;
  chat_id = 4;
  agent = claude_code;
  generation = 2;
  status = status;
}

abbrev created : List Event
created = registry (reserves (some 5) one) ∷ registry (publishes 5 pane) ∷ []

abbrev events : List Event
events =
    registry (reserves (some 5) one)
    ∷ registry (publishes 5 pane)
    ∷ updates (reported running)
    ∷ registry (exits one metadata 0)
    ∷ []

kept : get one (run init events).agent_states ≡ held metadata (reported exited)
unfolding init run step Histories.step after reserve_session choose reserve publish_reserved_session
    publish_agent update_agent_status store_status metadata_error record_agent_exit exit_record get
    put has add identity_beq metadata_beq kind_beq is_final
kept = refl

abbrev later : List Event
later = updates (reported running) ∷ registry (exits one metadata 9) ∷ []

later_only : All (λ x. creates one x ≡ false) later
unfolding creates
later_only = (refl, (refl, tt))

final_status_kept_example :
    get one (run (run init events) later).agent_states ≡ held metadata (reported exited)
final_status_kept_example =
    final_status_kept (run init events) later one metadata (reported exited) kept
      (unfold is_final in refl) later_only

abbrev waiting_agent : ServerState
waiting_agent = record {
  sessions = (5, pane) ∷ [];
  session_by_identity = (one, 5) ∷ [];
  reserved_sessions = [];
  reserved_identities = [];
  agent_states = (one, record { metadata = metadata; status = none }) ∷ [];
  next_session_id = 6;
  next_client_id = 2;
  next_lease = some 1;
  is_shutting_down = false;
}

update_agent_status-Updates_example :
    Updates waiting_agent
      (reported finished)
      (update_agent_status waiting_agent (reported finished))
      (query_agent_status
        (update_agent_status waiting_agent (reported finished)).1
        (query_of (reported finished)))
update_agent_status-Updates_example = update_agent_status-Updates waiting_agent (reported finished)

abbrev finished_agent : ServerState
finished_agent = record waiting_agent {
  agent_states = (one, record { metadata = metadata; status = some (reported finished) }) ∷ [];
}

finishes :
    update_agent_status waiting_agent (reported finished)
    ≡ (updated (reported finished), finished_agent)
unfolding update_agent_status store_status metadata_error get put identity_beq kind_beq
finishes = refl
