-- ===== src/Daemon/Stop/Tests.antt =====
-- Stops at concrete inputs: one stop waits, and the pane ends.
use mult.Base.{◌≡◌, refl, false, true, none, some, [], ◌∷◌, ◌++◌}
use mult.Protocol.Ids.{SessionIdentity}
use mult.Daemon.Registry.{ServerState, SharedPane}
use mult.Daemon.Pane.{PaneState, stopping}
use mult.Daemon.Stop.{
  Daemon, maybe_finalize, Event, stops, starts, finalizes, driver_returns, term_failed, run, taken,
}
use mult.Daemon.Stop.Answered.{accounted, stops_answered_once}
use mult.Daemon.Stop.Removed.{IsGone, run-IsGone, maybe_finalize_lem}

abbrev one : SessionIdentity
one = record { namespace = 7; token = 1 }

abbrev shared : SharedPane
shared = record { handle = 11; identity = one; agent = none }

abbrev server : ServerState
server = record {
  sessions = (5, shared) ∷ [];
  session_by_identity = (one, 5) ∷ [];
  reserved_sessions = [];
  reserved_identities = [];
  agent_states = [];
  next_session_id = 6;
  next_client_id = 5;
  next_lease = some 10;
  is_shutting_down = false;
}

abbrev pane : PaneState
pane = record {
  session = 5;
  identity = one;
  agent = none;
  pane = 5;
  rows = 24;
  cols = 80;
  raw_history = record { chunks = []; front_offset = 0; len = 0 };
  history_start = 0;
  next_output = 0;
  writes = record { pending = []; queued_bytes = 0; is_closed = false; capacity = 64 };
  owner = some (record { scope = 1; lease = 9; client = 4 });
  lifecycle = stopping;
  reader_done = true;
  child_exit = some 3;
  stop_driver_active = true;
  pending_stops = 70 ∷ [];
}

abbrev ending : Daemon
ending = record { server = server; shared = shared; state = pane; answered = []; refused = [] }

abbrev again : Event
again =
    stops 1 (record { id = 4; is_active = true; queue = [] })
      (record { key = 71; identity = one; pane = 5; lease = 9 })

stops_answered_once_example :
    accounted (run ending (again ∷ starts ∷ finalizes ∷ again ∷ []))
    ≡ (70 ∷ []) ++ taken ending (again ∷ starts ∷ finalizes ∷ again ∷ [])
stops_answered_once_example = stops_answered_once ending (again ∷ starts ∷ finalizes ∷ again ∷ [])

run-IsGone_example :
    IsGone (run (maybe_finalize ending) (again ∷ driver_returns term_failed ∷ finalizes ∷ [])).state
run-IsGone_example =
    run-IsGone (maybe_finalize ending) (again ∷ driver_returns term_failed ∷ finalizes ∷ [])
      (maybe_finalize_lem ending 3 refl refl refl).1
