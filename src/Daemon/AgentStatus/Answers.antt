-- ===== src/Daemon/AgentStatus/Answers.antt =====
-- What a status update answers, and what a later query answers.
use mult.Base.{
  ◌≡◌, ◌≢◌, refl, ap, ◌∙◌, inl, inr, true, false, Option, none, some, arith, Bool-cases,
  Option-cases, Bool-clash, ==→eq, ◌==◌,
}
use mult.Base.Map.{get, put, get-put_self}
use mult.Protocol.Ids.{identity_eq}
use mult.Protocol.Agent.{
  AgentStatusRecord, AgentStatusQuery, AgentStatusOutcome, updated, current, error,
  AgentStatusError, wrong_schema, final_status_conflict, is_final, agent_status_schema_version,
  status_beq, status_beq_iff,
}
use mult.Daemon.Registry.{ServerState, DaemonAgentState}
use mult.Daemon.AgentStatus.{
  missing_agent_identity_error, update_agent_status, query_agent_status, store_status,
  metadata_error, final_status,
}
use mult.Daemon.AgentStatus.Refusals.{
  IsCurrent, metadata_error-none, none-metadata_error, Differs, metadata_error-Differs, Unknown,
  missing-Unknown,
}

-- The query about the session of a record.
abbrev pub query_of : AgentStatusRecord → AgentStatusQuery
query_of r = record {
  schema_version = r.schema_version;
  identity = r.identity;
  chat_id = r.chat_id;
  agent = r.agent;
  generation = r.generation;
}

-- What an update answers and leaves, and what a query of the same session then answers.
pub data Updates (s : ServerState) (r : AgentStatusRecord)
    : AgentStatusOutcome × ServerState → AgentStatusOutcome → Type 0 where
  stores :
      {answer : AgentStatusOutcome} (state : DaemonAgentState)
      → r.schema_version ≡ agent_status_schema_version
      → get r.identity s.agent_states ≡ some state
      → IsCurrent state r.chat_id r.agent r.generation
      → final_status state.status ≡ none
      → answer ≡ current (some r)
      → Updates s r
          (
            updated r,
            record s {
              agent_states = put r.identity (record state { status = some r }) s.agent_states;
            },
          )
          answer
  repeats :
      {answer : AgentStatusOutcome} (state : DaemonAgentState) (q : AgentStatusRecord)
      → r.schema_version ≡ agent_status_schema_version
      → get r.identity s.agent_states ≡ some state
      → IsCurrent state r.chat_id r.agent r.generation
      → state.status ≡ some q
      → is_final q.status ≡ true
      → q.status ≡ r.status
      → answer ≡ current (some q)
      → Updates s r (updated q, s) answer
  conflicts :
      {answer : AgentStatusOutcome} (state : DaemonAgentState) (q : AgentStatusRecord)
      → r.schema_version ≡ agent_status_schema_version
      → get r.identity s.agent_states ≡ some state
      → IsCurrent state r.chat_id r.agent r.generation
      → state.status ≡ some q
      → is_final q.status ≡ true
      → q.status ≢ r.status
      → answer ≡ current (some q)
      → Updates s r (error (final_status_conflict q.status r.status), s) answer
  differs :
      {e : AgentStatusError} {answer : AgentStatusOutcome} (state : DaemonAgentState)
      → r.schema_version ≡ agent_status_schema_version
      → get r.identity s.agent_states ≡ some state
      → Differs state r.chat_id r.agent r.generation e
      → answer ≡ error e
      → Updates s r (error e, s) answer
  is_missing :
      {e : AgentStatusError} {answer : AgentStatusOutcome}
      → r.schema_version ≡ agent_status_schema_version
      → get r.identity s.agent_states ≡ none
      → Unknown s r.identity r.chat_id e
      → answer ≡ error e
      → Updates s r (error e, s) answer
  is_foreign :
      {answer : AgentStatusOutcome}
      → r.schema_version ≢ agent_status_schema_version
      → answer ≡ error (wrong_schema agent_status_schema_version r.schema_version)
      → Updates s r (error (wrong_schema agent_status_schema_version r.schema_version), s) answer

final_status_inv :
    (o : Option AgentStatusRecord) (q : AgentStatusRecord)
    → final_status o ≡ some q
    → (o ≡ some q) × (is_final q.status ≡ true)
final_status_inv none q h = absurd (ground arith)
final_status_inv (some r) q h = ground arith

query-current :
    (t : ServerState) (r : AgentStatusRecord) (state : DaemonAgentState)
    → r.schema_version ≡ agent_status_schema_version
    → get r.identity t.agent_states ≡ some state
    → IsCurrent state r.chat_id r.agent r.generation
    → query_agent_status t (query_of r) ≡ current state.status
unfolding query_agent_status
query-current t r state schema there c =
    let same : (r.schema_version == agent_status_schema_version) ≡ true = ground arith in
    rw (same, there, none-metadata_error state r.chat_id r.agent r.generation c, query_agent_status)
      refl

query-refused :
    (s : ServerState) (r : AgentStatusRecord) (state : DaemonAgentState) (e : AgentStatusError)
    → (r.schema_version == agent_status_schema_version) ≡ true
    → get r.identity s.agent_states ≡ some state
    → metadata_error state.metadata r.chat_id r.agent r.generation ≡ some e
    → query_agent_status s (query_of r) ≡ error e
unfolding query_agent_status
query-refused s r state e same there wrong = rw (same, there, wrong, query_agent_status) refl

query-missing :
    (s : ServerState) (r : AgentStatusRecord)
    → (r.schema_version == agent_status_schema_version) ≡ true
    → get r.identity s.agent_states ≡ none
    → query_agent_status s (query_of r)
      ≡ error (missing_agent_identity_error s r.identity r.chat_id)
unfolding query_agent_status
query-missing s r same gone = rw (same, gone, query_agent_status) refl

query-foreign :
    (s : ServerState) (r : AgentStatusRecord)
    → (r.schema_version == agent_status_schema_version) ≡ false
    → query_agent_status s (query_of r)
      ≡ error (wrong_schema agent_status_schema_version r.schema_version)
unfolding query_agent_status
query-foreign s r other = rw (other, query_agent_status) refl

module _ (s : ServerState) (r : AgentStatusRecord) where
  store_status-Updates :
      (state : DaemonAgentState)
      → r.schema_version ≡ agent_status_schema_version
      → get r.identity s.agent_states ≡ some state
      → IsCurrent state r.chat_id r.agent r.generation
      → Updates s r
          (store_status s state r)
          (query_agent_status (store_status s state r).1 (query_of r))
  unfolding store_status
  store_status-Updates state schema there fits = elim (Option-cases (final_status state.status)) [
    | inl open_ ↦
        rw (open_, store_status)
          (stores state schema there fits open_ (
            query-current _ r (record state { status = some r }) schema
              (get-put_self r.identity (record state { status = some r }) s.agent_states)
              (record {
                same_chat = fits.same_chat;
                same_agent = fits.same_agent;
                same_generation = fits.same_generation;
              })))
    | inr (q, e) ↦
        let (kept, final) = final_status_inv state.status q e in
        let answer = query-current s r state schema there fits ∙ ap current kept in
        elim (Bool-cases (status_beq q.status r.status)) [
          | inl same ↦
              rw (e, same, store_status)
                (repeats state q schema there fits kept final
                  ((status_beq_iff q.status r.status).0 same) answer)
          | inr other ↦
              rw (e, other, store_status)
                (conflicts state q schema there fits kept final
                  (λ same. Bool-clash ((status_beq_iff q.status r.status).1 same) other) answer)
        ]
  ]

  -- A status update is stored where the daemon knows the agent of the record's identity, chat, kind
  -- and generation and has no final status of it, and a query of the same session then answers the
  -- record. A record that repeats the final status is answered with the one that is kept, and one
  -- with another status is refused as in conflict with it; a query then answers the one that is
  -- kept. Every other record is refused for a reason that holds (another schema; no such agent, by
  -- whether the session has none, the token or the chat is known otherwise, or nothing is; the first
  -- of chat, kind and generation that differs), and the query is refused for the same reason. A
  -- refused record changes nothing.
  pub update_agent_status-Updates :
      Updates s r
        (update_agent_status s r)
        (query_agent_status (update_agent_status s r).1 (query_of r))
  unfolding update_agent_status
  update_agent_status-Updates =
      elim (Bool-cases (r.schema_version == agent_status_schema_version)) [
        | inr other ↦
            rw (other, update_agent_status) (is_foreign (ground arith) (query-foreign s r other))
        | inl schema ↦ elim (Option-cases (get r.identity s.agent_states)) [
          | inl gone ↦
              rw (schema, gone, update_agent_status)
                (is_missing (==→eq _ _ schema) gone (missing-Unknown s r.identity r.chat_id)
                  (query-missing s r schema gone))
          | inr (state, there) ↦
              elim (Option-cases (metadata_error state.metadata r.chat_id r.agent r.generation)) [
                | inr (e, wrong) ↦
                    rw (schema, there, wrong, update_agent_status)
                      (differs state (==→eq _ _ schema) there
                        (metadata_error-Differs state r.chat_id r.agent r.generation e wrong)
                        (query-refused s r state e schema there wrong))
                | inl fits ↦
                    rw (schema, there, fits, update_agent_status)
                      (store_status-Updates state (==→eq _ _ schema) there
                        (metadata_error-none state r.chat_id r.agent r.generation fits))
              ]
        ]
      ]
