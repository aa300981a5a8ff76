-- ===== src/Daemon/Attach/Leases.antt =====
-- The leases over a history: what happens to the panes and to who owns them, one locked section at a
-- time.
use mult.Base.{
  ℕ, ◌<◌, ◌≡◌, ◌⊎◌, refl, sym, ap, ◌∙◌, inl, inr, Bool, true, false, none, some, List, Option-clash,
  subst,
}
use mult.Base.Equality.{nat_eq}
use mult.Base.Map.{Map, get, put, put_inv}
use mult.Base.Result.{Result-cases}
use mult.Protocol.Reject.{LeaseOperation}
use mult.Daemon.Registry.{ServerState}
use mult.Daemon.WriteQueue.{enqueue}
use mult.Daemon.Client.{ClientHandle}
use mult.Daemon.Pane.{PaneState, AttachmentOwner}
use mult.Daemon.Leased.{
  with_lease, update_pane, enqueue_leased_input, handle_leased_resize, handle_leased_detach,
  resize_pane,
}
use mult.Daemon.Leased.Refused.{with_lease-cases}
use mult.Daemon.Attach.{Attach, handle_attach_request}

-- Who owns a pane afterwards owned it before, under the same lease.
unfoldable pub KeepsLeases : Map ℕ PaneState → Map ℕ PaneState → Type 0
KeepsLeases panes after =
    (k : ℕ) (q : PaneState) (o : AttachmentOwner)
    → get k after ≡ some q
    → q.owner ≡ some o
    → (p : PaneState) × (before : AttachmentOwner) × (get k panes ≡ some p)
      × (p.owner ≡ some before)
      × (before.lease ≡ o.lease)

-- What happens to the panes, one locked section at a time: an attach, bytes that come to a queue, a
-- resize, a detach, or anything else that hands out no lease (output, a stop, the end of a pane, a
-- new pane, the rebinding of a connection to its lease).
pub data Step : ServerState × Map ℕ PaneState → ServerState × Map ℕ PaneState → Type 0 where
  attaches :
      {s : ServerState} {panes : Map ℕ PaneState} (is_set : Bool) (request : Attach)
      (scope selected : ℕ)
      → Step (s, panes) (handle_attach_request s panes is_set request scope selected).1
  enqueues :
      {s : ServerState} {panes : Map ℕ PaneState} (held : PaneState) (client : ClientHandle)
      (pane lease : ℕ) (bytes : List ℕ) (operation : LeaseOperation)
      → get pane panes ≡ some held
      → Step (s, panes) (s, (enqueue_leased_input panes held client pane lease bytes operation).0)
  resizes :
      {s : ServerState} {panes : Map ℕ PaneState} (scope : ℕ) (client : ClientHandle)
      (pane lease : ℕ) (is_set : Bool) (rows cols : ℕ)
      → Step
          (s, panes)
          (
            s,
            (handle_leased_resize panes s.is_shutting_down scope client pane lease is_set rows
                cols).0,
          )
  detaches :
      {s : ServerState} {panes : Map ℕ PaneState} (scope : ℕ) (client : ClientHandle)
      (pane lease : ℕ)
      → Step
          (s, panes)
          (s, (handle_leased_detach panes s.is_shutting_down scope client pane lease).0)
  others :
      {s t : ServerState} {panes after : Map ℕ PaneState}
      → t.next_lease ≡ s.next_lease
      → KeepsLeases panes after
      → Step (s, panes) (t, after)

pub data Steps (x : ServerState × Map ℕ PaneState) : ServerState × Map ℕ PaneState → Type 0 where
  done : Steps x x
  more : {y z : ServerState × Map ℕ PaneState} → Steps x y → Step y z → Steps x z

-- The lease was handed out: no later one is it.
unfoldable pub IsSpent : ServerState → ℕ → Type 0
IsSpent s lease = (next : ℕ) → s.next_lease ≡ some next → lease < next

-- A lease that an owner holds afterwards is the one that was next, or was held before.
pub record Moves (s : ServerState) (panes : Map ℕ PaneState) (t : ServerState)
    (after : Map ℕ PaneState) : Type 0 where
  pub grows : (lease : ℕ) → IsSpent s lease → IsSpent t lease
  pub owners :
      (k : ℕ) (q : PaneState) (o : AttachmentOwner)
      → get k after ≡ some q
      → q.owner ≡ some o
      → ((s.next_lease ≡ some o.lease) × IsSpent t o.lease)
        ⊎ ((p : PaneState) × (before : AttachmentOwner) × (get k panes ≡ some p)
            × (p.owner ≡ some before)
            × (before.lease ≡ o.lease))

pub kept-Moves :
    (s t : ServerState) (panes after : Map ℕ PaneState)
    → t.next_lease ≡ s.next_lease
    → KeepsLeases panes after
    → Moves s panes t after
unfolding IsSpent KeepsLeases
kept-Moves s t panes after same keeps = record {
  grows = λ lease spent next e. spent next (sym same ∙ e);
  owners = λ k q o there owned. inr (keeps k q o there owned);
}

pub KeepsLeases-refl : (panes : Map ℕ PaneState) → KeepsLeases panes panes
unfolding KeepsLeases
KeepsLeases-refl panes k q o there owned = (q, o, there, owned, refl)

-- A pane written with the owner that it had, or with none.
pub put-KeepsLeases :
    (panes : Map ℕ PaneState) (pane : ℕ) (p q : PaneState)
    → get pane panes ≡ some p
    → ((q.owner ≡ none) ⊎ (q.owner ≡ p.owner))
    → KeepsLeases panes (put pane q panes)
unfolding KeepsLeases
put-KeepsLeases panes pane p q there how k x o found owned = elim (put_inv pane k q x panes found) [
  | inr (other, found_before) ↦ (x, o, found_before, owned, refl)
  | inl (same, written) ↦ (
    p,
    o,
    subst (λ n. get n panes ≡ some p) same there,
    was how (subst (λ y. y.owner ≡ some o) (sym written) owned),
    refl,
  )
]
  where
    was : ((q.owner ≡ none) ⊎ (q.owner ≡ p.owner)) → q.owner ≡ some o → p.owner ≡ some o
    was (inl nobody) e = absurd (Option-clash nobody e)
    was (inr same) e = sym same ∙ e

pub owner-resize_pane :
    (p : PaneState) (is_set : Bool) (rows cols : ℕ)
    → (resize_pane p is_set rows cols).owner ≡ p.owner
unfolding resize_pane
owner-resize_pane p true rows cols = refl
owner-resize_pane p false rows cols = refl

pub with_lease-KeepsLeases :
    (panes : Map ℕ PaneState) (down : Bool) (scope : ℕ) (client : ClientHandle) (pane lease : ℕ)
    (operation : LeaseOperation) (change : PaneState → PaneState)
    → ((p : PaneState) → ((change p).owner ≡ none) ⊎ ((change p).owner ≡ p.owner))
    → KeepsLeases panes
        (with_lease panes down scope client pane lease operation
          (λ p. (put pane (change p) panes, client))).0
with_lease-KeepsLeases panes down scope client pane lease operation change how =
    elim (with_lease-cases panes down scope client pane lease operation
      (λ p. (put pane (change p) panes, client))) [
        | inl (reason, e) ↦
            subst (KeepsLeases panes) (sym (ap (λ t. t.0) e)) (KeepsLeases-refl panes)
        | inr (p, there, owner, e) ↦
            subst (KeepsLeases panes) (sym (ap (λ t. t.0) e))
              (put-KeepsLeases panes pane p (change p) there (how p))
      ]

update_pane-KeepsLeases :
    (panes : Map ℕ PaneState) (pane : ℕ) (p q : PaneState)
    → get pane panes ≡ some p
    → q.owner ≡ p.owner
    → KeepsLeases panes (update_pane pane q panes)
unfolding update_pane
update_pane-KeepsLeases panes pane p q there same =
    rw (there, update_pane) (put-KeepsLeases panes pane p q there (inr same))

pub enqueue-KeepsLeases :
    (panes : Map ℕ PaneState) (held : PaneState) (client : ClientHandle) (pane lease : ℕ)
    (bytes : List ℕ) (operation : LeaseOperation)
    → get pane panes ≡ some held
    → KeepsLeases panes (enqueue_leased_input panes held client pane lease bytes operation).0
unfolding enqueue_leased_input
enqueue-KeepsLeases panes held client pane lease bytes operation there =
    elim (Result-cases (enqueue held.writes bytes).0) [
      | inl (unit, fits) ↦
          rw (fits, enqueue_leased_input)
            (update_pane-KeepsLeases panes pane held
              (record held { writes = (enqueue held.writes bytes).1 }) there refl)
      | inr (refusal, full) ↦ rw (full, enqueue_leased_input) (KeepsLeases-refl panes)
    ]
