-- ===== src/Daemon/Leased.antt =====
-- src/bin/mult-server.rs: what the owner of a pane may do to it under its lease. `client` is the handle
-- of the connection that asks; an owner is of that connection if it has its number, so its handle is
-- then `client` too.
pub mod Refused
pub mod Others
pub mod Owner
pub mod Tests
use mult.Base.{
  ℕ, ◌≡◌, Bool, true, false, not, ◌||◌, ◌&&◌, Option, none, some, List, ◌==◌, if◌then◌else◌,
}
use mult.Base.Equality.{nat_eq}
use mult.Base.Map.{Map, get, put}
use mult.Base.Result.{Result, ok, err, ◌>>◌}
use mult.Protocol.Screen.{bounded_screen_dimensions}
use mult.Protocol.Reject.{
  LeaseOperation, resize, detach, LeaseRejectionReason, pane_missing, lease_not_owner, lease_stale,
  write_refused,
}
use mult.Daemon.WriteQueue.{PtyWriteQueue, enqueue}
use mult.Daemon.Client.{ClientHandle, try_enqueue, lease_rejected}
use mult.Daemon.Pane.{PaneState, AttachmentOwner, PaneLifecycle, running, is_running}

abbrev pub Checked : Type 0
Checked = Result LeaseRejectionReason (Unit {0})

unfoldable pub validate_lease : PaneState → ℕ → ClientHandle → ℕ → Checked
validate_lease p scope client lease = elim p.owner [
  | none ↦ err lease_not_owner
  | some owner ↦
      if not (owner.lease == lease)
      then err lease_stale
      else if not (owner.scope == scope) || not (owner.client == client.id) || not client.is_active
      then err lease_not_owner
      else ok tt
]

unfoldable pub validate_mutation_lease : PaneState → Bool → ℕ → ClientHandle → ℕ → Checked
validate_mutation_lease p is_shutting_down scope client lease =
    if is_shutting_down || not (is_running p.lifecycle)
    then err lease_not_owner
    else validate_lease p scope client lease

unfoldable pub validate_stop_lease : PaneState → ℕ → ClientHandle → ℕ → Checked
unfolding validate_lease
validate_stop_lease p scope client lease = validate_lease p scope client lease

-- The dimensions that the pane's terminal takes. The call that sets them is the operating system's, and
-- `is_set` is whether it succeeds.
unfoldable pub resize_pane : PaneState → Bool → ℕ → ℕ → PaneState
resize_pane p is_set rows cols =
    if is_set
    then record p {
      rows = (bounded_screen_dimensions rows cols).0;
      cols = (bounded_screen_dimensions rows cols).1;
    }
    else p

-- The panes, and the client that asks.
abbrev pub Answered : Type 0
Answered = Map ℕ PaneState × ClientHandle

unfoldable pub reject_lease :
    ClientHandle → ℕ → ℕ → LeaseOperation → LeaseRejectionReason → ClientHandle
reject_lease client pane lease operation reason =
    (try_enqueue client (lease_rejected pane lease operation reason)).1

-- A pane that may have been removed while a handler holds it.
unfoldable pub update_pane : ℕ → PaneState → Map ℕ PaneState → Map ℕ PaneState
update_pane pane p panes = elim (get pane panes) [ none ↦ panes | some q ↦ put pane p panes ]

-- The second section of `handle_leased_input`, without the locks: the bytes go to the queue of the pane
-- that was checked, whole or not at all. Nothing is checked again.
unfoldable pub enqueue_leased_input :
    Map ℕ PaneState → PaneState → ClientHandle → ℕ → ℕ → List ℕ → LeaseOperation → Answered
enqueue_leased_input panes held client pane lease bytes operation =
    elim (enqueue held.writes bytes).0 [
      | err refusal ↦ (panes, reject_lease client pane lease operation write_refused)
      | ok unit ↦
          (update_pane pane (record held { writes = (enqueue held.writes bytes).1 }) panes, client)
    ]

module _ (panes : Map ℕ PaneState) (is_shutting_down : Bool) (scope : ℕ) (client : ClientHandle)
    (pane : ℕ) (lease : ℕ) where
  -- The lookup and the check of the two handlers that stay under the locks, and what one does with the pane.
  unfoldable pub with_lease : LeaseOperation → (PaneState → Answered) → Answered
  with_lease operation action = elim (get pane panes) [
    | none ↦ (panes, reject_lease client pane lease operation pane_missing)
    | some p ↦ elim (validate_mutation_lease p is_shutting_down scope client lease) [
      | err reason ↦ (panes, reject_lease client pane lease operation reason)
      | ok unit ↦ action p
    ]
  ]

  -- The first section of `handle_leased_input`, under the locks: the pane whose queue the bytes are
  -- for, or the client with its rejection.
  unfoldable pub check_leased_input : LeaseOperation → Result ClientHandle PaneState
  check_leased_input operation = elim (get pane panes) [
    | none ↦ err (reject_lease client pane lease operation pane_missing)
    | some p ↦ elim (validate_mutation_lease p is_shutting_down scope client lease) [
      | err reason ↦ err (reject_lease client pane lease operation reason)
      | ok unit ↦ ok p
    ]
  ]

  -- The handler's two sections. Other threads run in between: `later` are the panes, `held` the pane
  -- that was checked and `now` the client, as they stand when the locks were released and the bytes
  -- come to the queue.
  unfoldable pub handle_leased_input :
      Map ℕ PaneState → PaneState → ClientHandle → List ℕ → LeaseOperation → Answered
  handle_leased_input later held now bytes operation = elim (check_leased_input operation) [
    | err refused ↦ (panes, refused)
    | ok p ↦ enqueue_leased_input later held now pane lease bytes operation
  ]

  unfoldable pub handle_leased_resize : Bool → ℕ → ℕ → Answered
  handle_leased_resize is_set rows cols =
      with_lease resize (λ p. (put pane (resize_pane p is_set rows cols) panes, client))

  unfoldable pub handle_leased_detach : Answered
  handle_leased_detach =
      with_lease detach (λ p. (put pane (record p { owner = none }) panes, client))
