-- ===== src/Daemon/Attach/Moves.antt =====
-- What a step does to the leases: an owner's lease is the next one, or one that was held.
use mult.Base.{
  ℕ, ◌≡◌, refl, sym, ap, ◌∙◌, inl, inr, Bool, true, false, not, ◌&&◌, none, some, arith, Bool-cases,
  Option-cases, subst, if◌then◌else◌,
}
use mathlib.Core.Option.{some_inj}
use mult.Base.Equality.{nat_eq}
use mult.Base.Map.{Map, get, put_inv}
use mult.Base.Result.{ok, Result-cases}
use mult.Protocol.Ids.{checked_next}
use mult.Protocol.Reject.{detach, resize}
use mult.Daemon.Registry.{ServerState, allocate_lease}
use mult.Daemon.Pane.{PaneState, AttachmentOwner, is_running}
use mult.Daemon.Leased.{handle_leased_resize, handle_leased_detach, resize_pane}
use mult.Daemon.Attach.{Attach, attach_target, bind_owner, handle_attach_request}
use mult.Daemon.Attach.Leases.{
  Step, attaches, enqueues, resizes, detaches, others, IsSpent, Moves, kept-Moves, KeepsLeases-refl,
  put-KeepsLeases, owner-resize_pane, with_lease-KeepsLeases, enqueue-KeepsLeases,
}

-- The pane that an attach finds.
pub attach_target-there :
    (down : Bool) (panes : Map ℕ PaneState) (request : Attach) (p : PaneState)
    → attach_target down panes request ≡ ok p
    → get request.session panes ≡ some p
unfolding attach_target
attach_target-there down panes request p e = elim (Option-cases (get request.session panes)) [
  | inl missing ↦ absurd (ground arith)
  | inr (q, there) ↦ there ∙ ap some (ground arith)
]

IsSpent-next :
    (s : ServerState) (lease n : ℕ)
    → s.next_lease ≡ some lease
    → IsSpent s n
    → IsSpent (record s { next_lease = checked_next lease }) n
unfolding IsSpent checked_next
IsSpent-next s lease n available spent next e = ground (arith, spent lease available)

IsSpent-self :
    (s : ServerState) (lease : ℕ) → IsSpent (record s { next_lease = checked_next lease }) lease
unfolding IsSpent checked_next
IsSpent-self s lease next e = ground arith

bind_owner-Moves :
    (s : ServerState) (panes : Map ℕ PaneState) (request : Attach) (scope selected : ℕ)
    (p q : PaneState)
    → get request.session panes ≡ some p
    → q.owner ≡ p.owner
    → Moves s panes
        (bind_owner s panes request scope selected q).1.0
        (bind_owner s panes request scope selected q).1.1
unfolding bind_owner allocate_lease
bind_owner-Moves s panes request scope selected p q there same = elim (Option-cases s.next_lease) [
  | inl exhausted ↦
      simp (exhausted, bind_owner, allocate_lease)
        (kept-Moves s s panes _ refl (put-KeepsLeases panes request.session p q there (inr same)))
  | inr (lease, available) ↦
      simp (available, bind_owner, allocate_lease)
        (record {
          grows = λ n spent. IsSpent-next s lease n available spent;
          owners = λ k x o found owned. elim (put_inv request.session k _ x panes found) [
            | inr (other, found_before) ↦ inr (x, o, found_before, owned, refl)
            | inl (here, written) ↦
                let eq : lease ≡ o.lease =
                  ap (λ (a : AttachmentOwner). a.lease)
                    (some_inj.0 (subst (λ y. y.owner ≡ some o) (sym written) owned)) in
                inl (available ∙ ap some eq, subst (IsSpent _) eq (IsSpent-self s lease))
          ];
        })
]

pub attach-Moves :
    (s : ServerState) (panes : Map ℕ PaneState) (is_set : Bool) (request : Attach)
    (scope selected : ℕ)
    → Moves s panes
        (handle_attach_request s panes is_set request scope selected).1.0
        (handle_attach_request s panes is_set request scope selected).1.1
unfolding handle_attach_request
attach-Moves s panes is_set request scope selected =
    elim (Result-cases (attach_target s.is_shutting_down panes request)) [
      | inr (x, refused) ↦
          rw (refused, handle_attach_request)
            (kept-Moves s s panes panes refl (KeepsLeases-refl panes))
      | inl (p, target) ↦ elim (Bool-cases (is_running p.lifecycle && not is_set)) [
        | inl failed ↦
            rw (target, failed, handle_attach_request)
              (kept-Moves s s panes panes refl (KeepsLeases-refl panes))
        | inr fine ↦
            rw (target, fine, handle_attach_request)
              (bind_owner-Moves s panes request scope selected p _
                (attach_target-there s.is_shutting_down panes request p target)
                (same_owner (is_running p.lifecycle) p))
      ]
    ]
  where
    same_owner :
        (runs : Bool) (p : PaneState)
        → (if runs then resize_pane p is_set request.rows request.cols else p).owner ≡ p.owner
    same_owner true p = owner-resize_pane p is_set request.rows request.cols
    same_owner false p = refl

pub Step-Moves : {x y : ServerState × Map ℕ PaneState} → Step x y → Moves x.0 x.1 y.0 y.1
unfolding handle_leased_resize handle_leased_detach
Step-Moves (attaches {s = s} {panes = panes} is_set request scope selected) =
    attach-Moves s panes is_set request scope selected
Step-Moves (enqueues {s = s} {panes = panes} held client pane lease bytes operation there) =
    kept-Moves s s panes _ refl
      (enqueue-KeepsLeases panes held client pane lease bytes operation there)
Step-Moves (resizes {s = s} {panes = panes} scope client pane lease is_set rows cols) =
    kept-Moves s s panes _ refl (
      with_lease-KeepsLeases panes s.is_shutting_down scope client pane lease resize
        (λ p. resize_pane p is_set rows cols) (λ p. inr (owner-resize_pane p is_set rows cols)))
Step-Moves (detaches {s = s} {panes = panes} scope client pane lease) =
    kept-Moves s s panes _ refl (
      with_lease-KeepsLeases panes s.is_shutting_down scope client pane lease detach
        (λ p. record p { owner = none }) (λ p. inl refl))
Step-Moves (others {s = s} {t = t} {panes = panes} {after = after} same keeps) =
    kept-Moves s t panes after same keeps
