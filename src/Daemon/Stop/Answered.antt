-- ===== src/Daemon/Stop/Answered.antt =====
-- Every stop that is taken up is answered once, in its turn, or still waits.
use mathlib.Core.List.{append-nil, append_assoc}
use mult.Base.{
  ℕ, ◌≡◌, refl, sym, ap, ◌∙◌, inl, inr, not, ◌||◌, List, [], ◌∷◌, ◌++◌, map, Bool-cases,
  Option-cases,
}
use mult.Daemon.Client.{ClientHandle}
use mult.Daemon.Stop.{
  Daemon, StopOutcome, Stop, stop_refusal, handle_stop_request, refuse, start_stop_if_needed,
  is_removed, is_over, driver_ends, TerminationResult, finalized, term_failed, kill_failed,
  timed_out, answer_all, fail_pending_stops, finalize, maybe_finalize, Event, stops, starts,
  reader_ends, finalizes, child_exits, driver_returns, fails, step, run, takes, taken,
}

-- The keys of the stops that were answered and that wait.
abbrev pub accounted : Daemon → List ℕ
accounted d = map (λ a. a.0) d.answered ++ d.state.pending_stops

map-append :
    (xs ys : List (ℕ × StopOutcome))
    → map (λ a. a.0) (xs ++ ys) ≡ map (λ a. a.0) xs ++ map (λ a. a.0) ys
map-append [] ys = refl
map-append (x ∷ xs) ys = ap (◌∷◌ x.0) (map-append xs ys)

keys :
    (o : StopOutcome) (xs : List ℕ)
    → map (λ (a : ℕ × StopOutcome). a.0) (map (λ key. (key, o)) xs) ≡ xs
keys o [] = refl
keys o (x ∷ xs) = ap (◌∷◌ x) (keys o xs)

answer_all-accounted : (d : Daemon) (o : StopOutcome) → accounted (answer_all d o) ≡ accounted d
unfolding answer_all
answer_all-accounted d o =
    append-nil (map (λ a. a.0) (d.answered ++ map (λ key. (key, o)) d.state.pending_stops))
    ∙ map-append d.answered (map (λ key. (key, o)) d.state.pending_stops)
    ∙ ap (◌++◌ (map (λ a. a.0) d.answered)) (keys o d.state.pending_stops)

stop-accounted :
    (d : Daemon) (scope : ℕ) (client : ClientHandle) (request : Stop)
    → accounted (handle_stop_request d scope client request)
      ≡ accounted d ++ takes d (stops scope client request)
unfolding handle_stop_request takes refuse
stop-accounted d scope client request = elim (Option-cases (stop_refusal d scope client request)) [
  | inl e ↦
      rw (e, handle_stop_request, takes)
        (sym (append_assoc (map (λ a. a.0) d.answered) d.state.pending_stops (request.key ∷ [])))
  | inr (outcome, e) ↦ rw (e, handle_stop_request, takes) (sym (append-nil (accounted d)))
]

driver_ends-accounted :
    (d : Daemon) (r : TerminationResult) → accounted (driver_ends d r) ≡ accounted d
unfolding driver_ends
driver_ends-accounted d finalized = refl
driver_ends-accounted d term_failed = refl
driver_ends-accounted d kill_failed = refl
driver_ends-accounted d timed_out = refl

finalize-accounted : (d : Daemon) → accounted (maybe_finalize d) ≡ accounted d
unfolding maybe_finalize finalize
finalize-accounted d = elim (Bool-cases (is_removed d.state.lifecycle || not d.state.reader_done)) [
  | inl waits ↦ simp (waits, maybe_finalize) refl
  | inr ready ↦ elim (Option-cases d.state.child_exit) [
    | inl running_on ↦ simp (ready, running_on, maybe_finalize) refl
    | inr (code, gone) ↦ simp (ready, gone, maybe_finalize) (answer_all-accounted d _)
  ]
]

starts-accounted : (d : Daemon) → accounted (start_stop_if_needed d) ≡ accounted d
unfolding start_stop_if_needed
starts-accounted d = elim (Bool-cases (is_over d.state.lifecycle || d.state.stop_driver_active)) [
  | inl nothing ↦ simp (nothing, start_stop_if_needed) refl
  | inr begins ↦ simp (begins, start_stop_if_needed) refl
]

step-accounted : (d : Daemon) (x : Event) → accounted (step d x) ≡ accounted d ++ takes d x
unfolding step takes
step-accounted d (stops scope client request) = stop-accounted d scope client request
step-accounted d starts = starts-accounted d ∙ sym (append-nil (accounted d))
step-accounted d reader_ends = sym (append-nil (accounted d))
step-accounted d finalizes = finalize-accounted d ∙ sym (append-nil (accounted d))
step-accounted d (child_exits code) = sym (append-nil (accounted d))
step-accounted d (driver_returns r) = driver_ends-accounted d r ∙ sym (append-nil (accounted d))
step-accounted d (fails code) =
    unfold fail_pending_stops in answer_all-accounted d _ ∙ sym (append-nil (accounted d))

-- Whatever the threads of a pane do, the stops that it has answered or that still wait for its end are
-- those from before and those that were taken up since, each once and in order: no stop is lost or
-- answered twice.
pub stops_answered_once :
    (d : Daemon) (xs : List Event) → accounted (run d xs) ≡ accounted d ++ taken d xs
unfolding run taken
stops_answered_once d [] = sym (append-nil (accounted d))
stops_answered_once d (x ∷ xs) =
    stops_answered_once (step d x) xs
    ∙ ap (λ t. t ++ taken (step d x) xs) (step-accounted d x)
    ∙ append_assoc (accounted d) (takes d x) (taken (step d x) xs)
