-- ===== src/Daemon/Registry/Tests.antt =====
-- The registry at concrete inputs: two sessions, one under a chosen ID and one under a new one.
use mult.Base.{ℕ, ◌≡◌, refl, some, List, [], ◌∷◌}
use mult.Base.Equality.{nat_eq}
use mult.Base.Map.{get, put, has, add}
use mult.Base.Result.{ok}
use mult.Protocol.Ids.{SessionIdentity, identity_beq, identity_eq}
use mult.Protocol.Agent.{AgentSessionMetadata, metadata_beq, kind_beq, claude_code}
use mult.Daemon.Registry.{
  ServerState, SharedPane, init, reserve, choose, reserve_session, publish_reserved_session,
  session_for_identity, record_agent_exit,
}
use mult.Daemon.Registry.Histories.{
  Event, reserves, publishes, exits, run, step, after, run-init-IsSound, one_session_per_identity,
}
use mult.Daemon.Registry.Create.{create-session_for_identity}

abbrev one : SessionIdentity
one = record { namespace = 7; token = 1 }

abbrev metadata : AgentSessionMetadata
metadata = record { schema_version = 1; chat_id = 4; agent = claude_code; generation = 2 }

abbrev pane : SharedPane
pane = record { handle = 11; identity = one; agent = some metadata }

abbrev events : List Event
events = reserves (some 5) one ∷ publishes 5 pane ∷ exits one metadata 0 ∷ []

found : get 5 (run init events).sessions ≡ some pane
unfolding init run step after reserve_session choose reserve publish_reserved_session get put has
    add record_agent_exit identity_beq metadata_beq kind_beq
found = refl

one_session_per_identity_example :
    (◌≡◌ {A = ℕ} 5 5) × (session_for_identity (run init events) one ≡ some pane)
one_session_per_identity_example = one_session_per_identity events 5 5 pane pane found found refl

abbrev reserved : ServerState
reserved = record init { reserved_sessions = 5 ∷ []; reserved_identities = one ∷ [] }

reserves_five : reserve_session init (some 5) one ≡ some (ok 5, reserved)
unfolding init reserve_session choose reserve get has add
reserves_five = refl

create-session_for_identity_example :
    ((publish_reserved_session reserved 5 pane).0 ≡ ok tt)
    × (session_for_identity (publish_reserved_session reserved 5 pane).1 one ≡ some pane)
unfolding init run
create-session_for_identity_example =
    create-session_for_identity init reserved (some 5) 5 pane (run-init-IsSound []) refl
      reserves_five
