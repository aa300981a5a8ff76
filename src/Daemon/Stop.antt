-- ===== src/Daemon/Stop.antt =====
-- src/bin/mult-server.rs: stopping a pane, and its end. The threads of one pane (a client that stops it,
-- the reader, the waiter and the termination driver) are interleaved one locked section at a time. Of an
-- exit, its code is kept.
pub mod Answered
pub mod Removed
pub mod Tests
use mult.Base.{
  ℕ, Bool, true, false, not, ◌||◌, ◌&&◌, Option, none, some, List, [], ◌∷◌, ◌++◌, map,
  if◌then◌else◌,
}
use mult.Base.Equality.{nat_eq}
use mult.Base.Map.{get}
use mult.Base.Result.{Result, ok, err}
use mult.Protocol.Ids.{SessionIdentity, identity_beq}
use mult.Protocol.Agent.{AgentSessionMetadata, IdentityMismatch}
use mult.Protocol.Reject.{RejectCode, daemon_internal, LeaseRejectionReason}
use mult.Daemon.Registry.{
  ServerState, SharedPane, contains_key, remove_session_if_same, record_agent_exit,
}
use mult.Daemon.AgentStatus.{identity_mismatch}
use mult.Daemon.WriteQueue.{close}
use mult.Daemon.Client.{ClientHandle}
use mult.Daemon.Pane.{PaneState, PaneLifecycle, running, stopping, exited, removed, is_running}
use mult.Daemon.Leased.{validate_stop_lease}

pub data StopError : Type 0 where
  stop_collision stop_retry_expired : StopError
  stop_mismatch : ℕ → IdentityMismatch → StopError
  stop_lease_rejected : LeaseRejectionReason → StopError
  stop_failed : RejectCode → StopError

pub data StopOutcome : Type 0 where
  stopped : ℕ → StopOutcome
  already_absent : StopOutcome
  stop_error : StopError → StopOutcome

-- The daemon with one of its panes, the answers to stops that waited for the pane to end, and those to
-- stops that did not.
pub record Daemon : Type 0 where
  pub server : ServerState
  pub shared : SharedPane
  pub state : PaneState
  pub answered : List (ℕ × StopOutcome)
  pub refused : List (ℕ × StopOutcome)

abbrev pub is_over : PaneLifecycle → Bool
is_over exited = true
is_over removed = true
is_over _ = false

abbrev pub is_removed : PaneLifecycle → Bool
is_removed removed = true
is_removed _ = false

abbrev pub is_stopping : PaneLifecycle → Bool
is_stopping stopping = true
is_stopping _ = false

pub record Stop : Type 0 where
  pub key : ℕ
  pub identity : SessionIdentity
  pub pane : ℕ
  pub lease : ℕ

unfoldable pub refuse : Daemon → ℕ → StopOutcome → Daemon
refuse d key outcome = record d { refused = d.refused ++ ((key, outcome) ∷ []) }

-- The rest of `handle_stop_request` for a new request: an answer at once, or none. The requests are
-- those about this pane: where `request.pane` is in the registry, it is this one's number.
unfoldable pub stop_refusal : Daemon → ℕ → ClientHandle → Stop → Option StopOutcome
stop_refusal d scope client request =
    if not (contains_key (get request.pane d.server.sessions))
    then some already_absent
    else if not (identity_beq d.state.identity request.identity)
    then some (
        stop_error
          (stop_mismatch request.pane (identity_mismatch d.state.identity request.identity)))
    else if is_over d.state.lifecycle
    then some already_absent
    else elim (validate_stop_lease d.state scope client request.lease) [
      | err reason ↦ some (stop_error (stop_lease_rejected reason))
      | ok unit ↦ none
    ]

-- A stop that is not refused waits for the pane to end.
unfoldable pub handle_stop_request : Daemon → ℕ → ClientHandle → Stop → Daemon
handle_stop_request d scope client request = elim (stop_refusal d scope client request) [
  | some outcome ↦ refuse d request.key outcome
  | none ↦ record d {
    state = record d.state {
      pending_stops = d.state.pending_stops ++ (request.key ∷ []);
      lifecycle = if is_running d.state.lifecycle then stopping else d.state.lifecycle;
    };
  }
]

-- The locked section of `start_stop_if_needed`, which then starts the driver.
unfoldable pub start_stop_if_needed : Daemon → Daemon
start_stop_if_needed d =
    if is_over d.state.lifecycle || d.state.stop_driver_active
    then d
    else record d { state = record d.state { lifecycle = stopping; stop_driver_active = true } }

pub data TerminationResult : Type 0 where
  finalized term_failed kill_failed timed_out : TerminationResult

-- The results of the two signals and of the two waits.
pub drive_termination : Bool → Bool → Bool → Bool → TerminationResult
drive_termination term_sent gone_after_term kill_sent gone_after_kill =
    if not term_sent
    then term_failed
    else if gone_after_term
    then finalized
    else if not kill_sent
    then kill_failed
    else if gone_after_kill
    then finalized
    else timed_out

-- What the driver's thread does with its result, before it fails the pending stops.
unfoldable pub driver_ends : Daemon → TerminationResult → Daemon
driver_ends d finalized = d
driver_ends d term_failed = record d {
  state = record d.state {
    stop_driver_active = false;
    lifecycle = if is_stopping d.state.lifecycle then running else d.state.lifecycle;
  };
}
driver_ends d _ = record d { state = record d.state { stop_driver_active = false } }

-- Every pending stop gets the same answer.
unfoldable pub answer_all : Daemon → StopOutcome → Daemon
answer_all d outcome = record d {
  answered = d.answered ++ map (λ key. (key, outcome)) d.state.pending_stops;
  state = record d.state { pending_stops = [] };
}

unfoldable pub fail_pending_stops : Daemon → RejectCode → Daemon
unfolding answer_all
fail_pending_stops d code = answer_all d (stop_error (stop_failed code))

pub record_exit : ServerState → PaneState → ℕ → ServerState
record_exit s p code = elim p.agent [
  | none ↦ s
  | some metadata ↦ record_agent_exit s p.identity metadata code
]

-- The section of `maybe_finalize` under the locks, once the reader is done and the child has exited.
unfoldable pub finalize : Daemon → ℕ → Daemon
unfolding record_exit answer_all
finalize d code =
    let ended = answer_all d (stopped code) in
    record ended {
      server =
          (remove_session_if_same (record_exit d.server d.state code) d.state.session d.shared).1;
      state = record ended.state {
        lifecycle = removed;
        stop_driver_active = false;
        writes = close d.state.writes;
        owner = none;
      };
    }

unfoldable pub maybe_finalize : Daemon → Daemon
maybe_finalize d =
    if is_removed d.state.lifecycle || not d.state.reader_done
    then d
    else elim d.state.child_exit [ none ↦ d | some code ↦ finalize d code ]

pub data Event : Type 0 where
  stops : ℕ → ClientHandle → Stop → Event
  starts reader_ends finalizes : Event
  child_exits : ℕ → Event
  driver_returns : TerminationResult → Event
  fails : RejectCode → Event

unfoldable pub step : Daemon → Event → Daemon
step d (stops scope client request) = handle_stop_request d scope client request
step d starts = start_stop_if_needed d
step d reader_ends = record d { state = record d.state { reader_done = true } }
step d finalizes = maybe_finalize d
step d (child_exits code) = record d { state = record d.state { child_exit = some code } }
step d (driver_returns result) = driver_ends d result
step d (fails code) = fail_pending_stops d code

unfoldable pub run : Daemon → List Event → Daemon
run d [] = d
run d (x ∷ xs) = run (step d x) xs

-- The stops that are taken up, in order.
unfoldable pub takes : Daemon → Event → List ℕ
takes d (stops scope client request) = elim (stop_refusal d scope client request) [
  | some outcome ↦ []
  | none ↦ request.key ∷ []
]
takes d _ = []

unfoldable pub taken : Daemon → List Event → List ℕ
taken d [] = []
taken d (x ∷ xs) = takes d x ++ taken (step d x) xs
