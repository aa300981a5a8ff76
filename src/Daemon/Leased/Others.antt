-- ===== src/Daemon/Leased/Others.antt =====
-- A leased operation changes no pane but its own.
use mult.Base.{ℕ, ◌≡◌, ◌≢◌, refl, ap, ◌∙◌, inl, inr, Bool, none, List, arith, Option-cases}
use mult.Base.Equality.{nat_eq, =?-ne}
use mult.Base.Map.{Map, get, put, get-put}
use mult.Protocol.Reject.{LeaseOperation, resize, detach}
use mult.Daemon.WriteQueue.{enqueue}
use mult.Daemon.Client.{ClientHandle}
use mult.Daemon.Pane.{PaneState}
use mult.Daemon.Leased.{
  with_lease, Answered, update_pane, enqueue_leased_input, handle_leased_resize,
  handle_leased_detach, resize_pane,
}
use mult.Daemon.Leased.Refused.{with_lease-cases}

module _ (panes : Map ℕ PaneState) (down : Bool) (scope : ℕ) (client : ClientHandle)
    (pane lease other : ℕ) where
  with_lease-other :
      (operation : LeaseOperation) (action : PaneState → Answered)
      → ((p : PaneState) → get other (action p).0 ≡ get other panes)
      → get other (with_lease panes down scope client pane lease operation action).0
        ≡ get other panes
  with_lease-other operation action keeps =
      elim (with_lease-cases panes down scope client pane lease operation action) [
        | inl (reason, e) ↦ ap (λ t. get other t.0) e
        | inr (p, there, owner, e) ↦ ap (λ t. get other t.0) e ∙ keeps p
      ]

put_other :
    (panes : Map ℕ PaneState) (pane other : ℕ) (p : PaneState)
    → pane ≢ other
    → get other (put pane p panes) ≡ get other panes
put_other panes pane other p ne = get-put pane other p panes ∙ rw (=?-ne pane other ne) refl

update_other :
    (panes : Map ℕ PaneState) (pane other : ℕ) (p : PaneState)
    → pane ≢ other
    → get other (update_pane pane p panes) ≡ get other panes
unfolding update_pane
update_other panes pane other p ne = elim (Option-cases (get pane panes)) [
  | inl gone ↦ rw (gone, update_pane) refl
  | inr (q, there) ↦ rw (there, update_pane) (put_other panes pane other p ne)
]

-- An operation on one pane leaves the others as they are; the bytes of an input come to the queue in
-- a section of their own.
pub other_panes_kept :
    (panes : Map ℕ PaneState) (down : Bool) (scope : ℕ) (client : ClientHandle) (pane lease : ℕ)
    (held : PaneState) (operation : LeaseOperation) (bytes : List ℕ) (is_set : Bool)
    (rows cols other : ℕ)
    → pane ≢ other
    → (get other (enqueue_leased_input panes held client pane lease bytes operation).0
        ≡ get other panes)
      × (get other (handle_leased_resize panes down scope client pane lease is_set rows cols).0
          ≡ get other panes)
      × (get other (handle_leased_detach panes down scope client pane lease).0 ≡ get other panes)
unfolding enqueue_leased_input handle_leased_resize handle_leased_detach
other_panes_kept panes down scope client pane lease held operation bytes is_set rows cols other ne =
    (
      ground (
        arith,
        update_other panes pane other (record held { writes = (enqueue held.writes bytes).1 }) ne,
      ),
      with_lease-other panes down scope client pane lease other resize _
          (λ p. put_other panes pane other (resize_pane p is_set rows cols) ne),
      with_lease-other panes down scope client pane lease other detach _
          (λ p. put_other panes pane other (record p { owner = none }) ne),
    )
