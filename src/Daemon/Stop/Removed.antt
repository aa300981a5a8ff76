-- ===== src/Daemon/Stop/Removed.antt =====
-- The end of a pane: it is final, and nothing waits for it any longer.
use mult.Base.{
  ℕ, ◌≡◌, refl, ap, inl, inr, Bool, true, false, Option, none, some, List, [], ◌∷◌, ◌++◌, map,
  arith, Option-cases,
}
use mult.Daemon.Client.{ClientHandle}
use mult.Daemon.WriteQueue.{close}
use mult.Daemon.Pane.{PaneState, removed}
use mult.Daemon.Stop.{
  Daemon, StopOutcome, stopped, Stop, stop_refusal, handle_stop_request, refuse,
  start_stop_if_needed, is_removed, is_over, driver_ends, TerminationResult, finalized, term_failed,
  kill_failed, timed_out, answer_all, fail_pending_stops, finalize, maybe_finalize, Event, stops,
  starts, reader_ends, finalizes, child_exits, driver_returns, fails, step, run,
}

-- A removed pane: nobody owns it, no input reaches it, and no stop waits for it.
pub record IsGone (p : PaneState) : Type 0 where
  pub lifecycle_removed : p.lifecycle ≡ removed
  pub nobody : p.owner ≡ none
  pub nothing_pending : p.pending_stops ≡ []
  pub queue_closed : p.writes.is_closed ≡ true

refusal_of_gone :
    (d : Daemon) (scope : ℕ) (client : ClientHandle) (request : Stop)
    → IsGone d.state
    → (o : StopOutcome) × (stop_refusal d scope client request ≡ some o)
unfolding stop_refusal
refusal_of_gone d scope client request g =
    elim (Option-cases (stop_refusal d scope client request)) [
      | inl none_ ↦ absurd (ground (arith, g.lifecycle_removed))
      | inr found ↦ found
    ]

stop-IsGone :
    (d : Daemon) (scope : ℕ) (client : ClientHandle) (request : Stop)
    → IsGone d.state
    → IsGone (handle_stop_request d scope client request).state
unfolding handle_stop_request refuse
stop-IsGone d scope client request g =
    let (o, e) = refusal_of_gone d scope client request g in rw (e, handle_stop_request) g

driver-IsGone :
    (d : Daemon) (r : TerminationResult) → IsGone d.state → IsGone (driver_ends d r).state
unfolding driver_ends
driver-IsGone d finalized g = g
driver-IsGone d term_failed g = record {
  lifecycle_removed = ground (arith, g.lifecycle_removed);
  nobody = g.nobody;
  nothing_pending = g.nothing_pending;
  queue_closed = g.queue_closed;
}
driver-IsGone d kill_failed g = record {
  lifecycle_removed = g.lifecycle_removed;
  nobody = g.nobody;
  nothing_pending = g.nothing_pending;
  queue_closed = g.queue_closed;
}
driver-IsGone d timed_out g = record {
  lifecycle_removed = g.lifecycle_removed;
  nobody = g.nobody;
  nothing_pending = g.nothing_pending;
  queue_closed = g.queue_closed;
}

still :
    (p : PaneState) (done : Bool) (exit_code : Option ℕ)
    → IsGone p
    → IsGone (record p { reader_done = done; child_exit = exit_code; pending_stops = [] })
still p done exit_code g = record {
  lifecycle_removed = g.lifecycle_removed;
  nobody = g.nobody;
  nothing_pending = refl;
  queue_closed = g.queue_closed;
}

step-IsGone : (d : Daemon) (x : Event) → IsGone d.state → IsGone (step d x).state
unfolding step
step-IsGone d (stops scope client request) g = stop-IsGone d scope client request g
step-IsGone d starts g =
    let over : is_over d.state.lifecycle ≡ true = ap (λ l. is_over l) g.lifecycle_removed in
    unfold start_stop_if_needed in simp over g
step-IsGone d reader_ends g = record {
  lifecycle_removed = g.lifecycle_removed;
  nobody = g.nobody;
  nothing_pending = g.nothing_pending;
  queue_closed = g.queue_closed;
}
step-IsGone d finalizes g =
    let over : is_removed d.state.lifecycle ≡ true = ap (λ l. is_removed l) g.lifecycle_removed in
    unfold maybe_finalize in simp over g
step-IsGone d (child_exits code) g = record {
  lifecycle_removed = g.lifecycle_removed;
  nobody = g.nobody;
  nothing_pending = g.nothing_pending;
  queue_closed = g.queue_closed;
}
step-IsGone d (driver_returns r) g = driver-IsGone d r g
step-IsGone d (fails code) g =
    unfold fail_pending_stops answer_all in still d.state d.state.reader_done d.state.child_exit g

-- A pane that is removed stays removed, whatever its threads still do: it has no owner, its write
-- queue is closed, and no stop waits for it.
pub run-IsGone : (d : Daemon) (xs : List Event) → IsGone d.state → IsGone (run d xs).state
unfolding run
run-IsGone d [] g = g
run-IsGone d (x ∷ xs) g = run-IsGone (step d x) xs (step-IsGone d x g)

-- Once the reader is done and the child has exited with a code, finalizing a pane that is not yet
-- removed answers every pending stop with that code, in order, and removes the pane.
pub maybe_finalize_lem :
    (d : Daemon) (code : ℕ)
    → is_removed d.state.lifecycle ≡ false
    → d.state.reader_done ≡ true
    → d.state.child_exit ≡ some code
    → ((maybe_finalize d).answered
        ≡ d.answered ++ map (λ key. (key, stopped code)) d.state.pending_stops)
      × IsGone (maybe_finalize d).state
unfolding maybe_finalize finalize answer_all close
maybe_finalize_lem d code here done exits =
    let e : maybe_finalize d ≡ finalize d code = simp (here, done, exits, maybe_finalize) refl in
    rw e (
      refl,
      record {
        lifecycle_removed = refl;
        nobody = refl;
        nothing_pending = refl;
        queue_closed = refl;
      },
    )
