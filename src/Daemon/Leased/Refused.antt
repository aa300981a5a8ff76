-- ===== src/Daemon/Leased/Refused.antt =====
-- A leased operation that is refused changes no pane, and says why.
use mult.Base.{ℕ, ◌≡◌, ◌⊎◌, refl, ap, inl, inr, Bool, none, some, List, arith, Option-cases}
use mult.Base.Equality.{nat_eq}
use mult.Base.Map.{Map, get, put, get-put_self}
use mult.Base.Result.{ok, err, Result-cases}
use mult.Protocol.Reject.{
  LeaseOperation, resize, detach, LeaseRejectionReason, pane_missing, lease_not_owner,
}
use mult.Daemon.Client.{ClientHandle}
use mult.Daemon.Pane.{PaneState}
use mult.Daemon.Leased.{
  validate_lease, validate_mutation_lease, with_lease, reject_lease, Answered, check_leased_input,
  handle_leased_input, handle_leased_resize, handle_leased_detach,
}
use mult.Daemon.Leased.Owner.{IsOwner, validate_mutation_lease-iff-IsOwner}

check_refused :
    (panes : Map ℕ PaneState) (down : Bool) (scope : ℕ) (client : ClientHandle) (pane lease : ℕ)
    (operation : LeaseOperation) (p : PaneState) {reason : LeaseRejectionReason}
    → get pane panes ≡ some p
    → validate_mutation_lease p down scope client lease ≡ err reason
    → check_leased_input panes down scope client pane lease operation
      ≡ err (reject_lease client pane lease operation reason)
unfolding check_leased_input
check_refused panes down scope client pane lease operation p there e =
    rw (there, e, check_leased_input) refl

refused_input :
    (panes : Map ℕ PaneState) (down : Bool) (scope : ℕ) (client : ClientHandle) (pane lease : ℕ)
    (later : Map ℕ PaneState) (held : PaneState) (now : ClientHandle) (operation : LeaseOperation)
    (bytes : List ℕ) (p : PaneState) {reason : LeaseRejectionReason}
    → get pane panes ≡ some p
    → validate_mutation_lease p down scope client lease ≡ err reason
    → handle_leased_input panes down scope client pane lease later held now bytes operation
      ≡ (panes, reject_lease client pane lease operation reason)
unfolding handle_leased_input
refused_input panes down scope client pane lease later held now operation bytes p there e =
    rw (check_refused panes down scope client pane lease operation p there e, handle_leased_input)
      refl

-- What the first section of an input finds.
pub check_leased_input-cases :
    (panes : Map ℕ PaneState) (down : Bool) (scope : ℕ) (client : ClientHandle) (pane lease : ℕ)
    (operation : LeaseOperation)
    → ((reason : LeaseRejectionReason) × (check_leased_input panes down scope client pane lease
            operation
          ≡ err (reject_lease client pane lease operation reason)))
      ⊎ ((p : PaneState) × (get pane panes ≡ some p)
          × IsOwner p down scope client lease
          × (check_leased_input panes down scope client pane lease operation ≡ ok p))
unfolding check_leased_input
check_leased_input-cases panes down scope client pane lease operation =
    elim (Option-cases (get pane panes)) [
      | inl missing ↦ inl (pane_missing, rw (missing, check_leased_input) refl)
      | inr (p, there) ↦ elim (Result-cases (validate_mutation_lease p down scope client lease)) [
        | inr (reason, refused) ↦ inl (reason, rw (there, refused, check_leased_input) refl)
        | inl (unit, passed) ↦ inr (
          p,
          there,
          (validate_mutation_lease-iff-IsOwner p down scope client lease).0 passed,
          rw (there, passed, check_leased_input) refl,
        )
      ]
    ]

no_owner :
    (p : PaneState) (down : Bool) (scope : ℕ) (client : ClientHandle) (lease : ℕ)
    → validate_mutation_lease (record p { owner = none }) down scope client lease
      ≡ err lease_not_owner
unfolding validate_mutation_lease validate_lease
no_owner p down scope client lease = ground arith

module _ (panes : Map ℕ PaneState) (down : Bool) (scope : ℕ) (client : ClientHandle) (pane : ℕ)
    (lease : ℕ) where
  abbrev Answer : (PaneState → Answered) → LeaseOperation → Answered → Type 0
  Answer action operation r =
      ((reason : LeaseRejectionReason) × (r
          ≡ (panes, reject_lease client pane lease operation reason)))
      ⊎ ((p : PaneState) × (get pane panes ≡ some p)
          × IsOwner p down scope client lease
          × (r ≡ action p))

  pub with_lease-cases :
      (operation : LeaseOperation) (action : PaneState → Answered)
      → Answer action operation (with_lease panes down scope client pane lease operation action)
  unfolding with_lease
  with_lease-cases operation action = elim (Option-cases (get pane panes)) [
    | inl missing ↦ inl (pane_missing, rw (missing, with_lease) refl)
    | inr (p, there) ↦ elim (Result-cases (validate_mutation_lease p down scope client lease)) [
      | inr (reason, refused) ↦ inl (reason, rw (there, refused, with_lease) refl)
      | inl (unit, passed) ↦ inr (
        p,
        there,
        (validate_mutation_lease-iff-IsOwner p down scope client lease).0 passed,
        rw (there, passed, with_lease) refl,
      )
    ]
  ]

  stranger_changes :
      (operation : LeaseOperation) (action : PaneState → Answered) (r : Answered)
      → ((p : PaneState) → get pane panes ≡ some p → ¬ IsOwner p down scope client lease)
      → Answer action operation r
      → r.0 ≡ panes
  stranger_changes operation action r stranger (inl (reason, e)) = ap (λ t. t.0) e
  stranger_changes operation action r stranger (inr (p, there, owner, e)) =
      absurd (stranger p there owner)

  -- Input, a resize or a detach changes no pane, if the pane that it names is not there or not owned
  -- by its sender (of this scope and connection, under this lease, running) when the lease is
  -- checked. For input, this is whatever other threads do after the check.
  pub stranger_changes_nothing :
      (later : Map ℕ PaneState) (held : PaneState) (now : ClientHandle) (operation : LeaseOperation)
      (bytes : List ℕ) (is_set : Bool) (rows cols : ℕ)
      → ((p : PaneState) → get pane panes ≡ some p → ¬ IsOwner p down scope client lease)
      → ((handle_leased_input panes down scope client pane lease later held now bytes operation).0
          ≡ panes)
        × ((handle_leased_resize panes down scope client pane lease is_set rows cols).0 ≡ panes)
        × ((handle_leased_detach panes down scope client pane lease).0 ≡ panes)
  unfolding handle_leased_input handle_leased_resize handle_leased_detach
  stranger_changes_nothing later held now operation bytes is_set rows cols stranger = (
    elim (check_leased_input-cases panes down scope client pane lease operation) [
      | inl (reason, refused) ↦ rw (refused, handle_leased_input) refl
      | inr (p, there, owner, passed) ↦ absurd (stranger p there owner)
    ],
    stranger_changes resize _ _ stranger (with_lease-cases resize _),
    stranger_changes detach _ _ stranger (with_lease-cases detach _),
  )

  owner_acts :
      (operation : LeaseOperation) (action : PaneState → Answered) (p : PaneState)
      → get pane panes ≡ some p
      → IsOwner p down scope client lease
      → with_lease panes down scope client pane lease operation action ≡ action p
  unfolding with_lease
  owner_acts operation action p there owner =
      rw
        (there, (validate_mutation_lease-iff-IsOwner p down scope client lease).1 owner, with_lease)
        refl

  -- After the owner detaches, its lease is worth nothing: input under it is rejected as not the
  -- owner's, and changes no pane.
  pub detach_then_input :
      (later : Map ℕ PaneState) (held : PaneState) (now : ClientHandle) (operation : LeaseOperation)
      (bytes : List ℕ) (p : PaneState)
      → get pane panes ≡ some p
      → IsOwner p down scope client lease
      → handle_leased_input
          (handle_leased_detach panes down scope client pane lease).0
          down
          scope
          client
          pane
          lease
          later
          held
          now
          bytes
          operation
        ≡ (
          (handle_leased_detach panes down scope client pane lease).0,
          reject_lease client pane lease operation lease_not_owner,
        )
  unfolding handle_leased_detach
  detach_then_input later held now operation bytes p there owner =
      rw (owner_acts detach _ p there owner) (
        refused_input (put pane (record p { owner = none }) panes) down scope client pane lease
          later held now operation bytes (record p { owner = none })
          (get-put_self pane (record p { owner = none }) panes)
          (no_owner p down scope client lease))
