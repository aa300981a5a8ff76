-- ===== src/Daemon/Attach/Overtaken.antt =====
-- Input that was checked before an attach and comes to the queue after it.
use mult.Base.{
  ℕ, ◌≡◌, refl, sym, ap, ◌∙◌, inl, inr, Bool, true, false, not, ◌&&◌, some, List, Bool-cases,
  Option-cases, subst, if◌then◌else◌,
}
use mathlib.Core.Option.{some_inj}
use mult.Base.Equality.{nat_eq}
use mult.Base.Map.{Map, get, put, get-put_self}
use mult.Base.Result.{ok, Result-cases}
use mult.Protocol.Reject.{LeaseOperation}
use mult.Daemon.Registry.{ServerState, allocate_lease}
use mult.Daemon.WriteQueue.{enqueue}
use mult.Daemon.Client.{ClientHandle}
use mult.Daemon.Pane.{PaneState, is_running}
use mult.Daemon.Leased.Owner.{IsOwner, validate_mutation_lease-iff-IsOwner}
use mult.Daemon.Leased.{
  handle_leased_input, check_leased_input, update_pane, enqueue_leased_input, resize_pane,
}
use mult.Daemon.Attach.{Attach, attach_target, bind_owner, handle_attach_request}
use mult.Daemon.Attach.Takeover.{Takes, attach-Takes}
use mult.Daemon.Attach.Moves.{attach_target-there}

writes-resize_pane :
    (p : PaneState) (is_set : Bool) (rows cols : ℕ)
    → (resize_pane p is_set rows cols).writes ≡ p.writes
unfolding resize_pane
writes-resize_pane p true rows cols = refl
writes-resize_pane p false rows cols = refl

bind_owner-writes :
    (s : ServerState) (panes : Map ℕ PaneState) (request : Attach) (scope selected : ℕ)
    (p q x : PaneState)
    → q.writes ≡ p.writes
    → get request.session (bind_owner s panes request scope selected q).1.1 ≡ some x
    → x.writes ≡ p.writes
unfolding bind_owner allocate_lease
bind_owner-writes s panes request scope selected p q x same found =
    elim (Option-cases s.next_lease) [
      | inl exhausted ↦
          ap (λ y. y.writes)
            (some_inj.0 (
              sym (simp (exhausted, bind_owner, allocate_lease) at found)
              ∙ get-put_self request.session q panes))
          ∙ same
      | inr (lease, available) ↦
          ap (λ y. y.writes)
            (some_inj.0 (
              sym (simp (available, bind_owner, allocate_lease) at found)
              ∙ get-put_self request.session
                  (record q {
                    owner = some (record { scope = scope; lease = lease; client = selected });
                  })
                  panes))
          ∙ same
    ]

-- An attach leaves the queue of the pane as it is.
attach-writes :
    (s : ServerState) (panes : Map ℕ PaneState) (is_set : Bool) (request : Attach)
    (scope selected : ℕ) (p x : PaneState)
    → get request.session panes ≡ some p
    → get request.session (handle_attach_request s panes is_set request scope selected).1.1 ≡ some x
    → x.writes ≡ p.writes
unfolding handle_attach_request
attach-writes s panes is_set request scope selected p x there found =
    elim (Result-cases (attach_target s.is_shutting_down panes request)) [
      | inr (e, refused) ↦ unchanged (simp (refused, handle_attach_request) at found)
      | inl (q, target) ↦ elim (Bool-cases (is_running q.lifecycle && not is_set)) [
        | inl failed ↦ unchanged (simp (target, failed, handle_attach_request) at found)
        | inr fine ↦
            bind_owner-writes s panes request scope selected p _ x
              (same_writes (is_running q.lifecycle) q
                ∙ ap (λ y. y.writes)
                    (some_inj.0 (
                      sym (attach_target-there s.is_shutting_down panes request q target) ∙ there)))
              (simp (target, fine, handle_attach_request) at found)
      ]
    ]
  where
    unchanged : get request.session panes ≡ some x → x.writes ≡ p.writes
    unchanged e = ap (λ y. y.writes) (some_inj.0 (sym e ∙ there))

    same_writes :
        (runs : Bool) (q : PaneState)
        → (if runs then resize_pane q is_set request.rows request.cols else q).writes ≡ q.writes
    same_writes true q = writes-resize_pane q is_set request.rows request.cols
    same_writes false q = refl

checked_owner :
    (panes : Map ℕ PaneState) (down : Bool) (scope : ℕ) (client : ClientHandle) (pane lease : ℕ)
    (operation : LeaseOperation) (p : PaneState)
    → get pane panes ≡ some p
    → IsOwner p down scope client lease
    → check_leased_input panes down scope client pane lease operation ≡ ok p
unfolding check_leased_input
checked_owner panes down scope client pane lease operation p there owner =
    rw
      (
        there,
        (validate_mutation_lease-iff-IsOwner p down scope client lease).1 owner,
        check_leased_input,
      )
      refl

enqueue_accepted :
    (panes : Map ℕ PaneState) (held q : PaneState) (client : ClientHandle) (pane lease : ℕ)
    (bytes : List ℕ) (operation : LeaseOperation)
    → get pane panes ≡ some q
    → (enqueue held.writes bytes).0 ≡ ok tt
    → enqueue_leased_input panes held client pane lease bytes operation
      ≡ (put pane (record held { writes = (enqueue held.writes bytes).1 }) panes, client)
unfolding enqueue_leased_input update_pane
enqueue_accepted panes held q client pane lease bytes operation there fits =
    rw (fits, enqueue_leased_input, there, update_pane) refl

-- The check of an input and its bytes are not one step: where the input of a pane's owner was
-- checked, an attach (by any connection) then succeeds and makes its own connection the owner, and
-- the queue has room, the bytes still go to the queue of the pane, under its new owner, and the
-- client that sent them hears of no rejection.
pub overtaken_input :
    (s t : ServerState) (panes after : Map ℕ PaneState) (is_set : Bool) (request : Attach)
    (scope selected lease : ℕ) (p : PaneState) (down : Bool) (old_scope : ℕ) (client : ClientHandle)
    (old : ℕ) (bytes : List ℕ) (operation : LeaseOperation)
    → get request.session panes ≡ some p
    → IsOwner p down old_scope client old
    → (enqueue p.writes bytes).0 ≡ ok tt
    → handle_attach_request s panes is_set request scope selected ≡ (ok lease, (t, after))
    → (k : Takes s request scope selected lease t after) × (handle_leased_input panes down old_scope
          client request.session old after k.pane client bytes operation
        ≡ (
          put request.session (record k.pane { writes = (enqueue p.writes bytes).1 }) after,
          client,
        ))
unfolding handle_leased_input
overtaken_input s t panes after is_set request scope selected lease p down old_scope client old
      bytes operation there owner fits e =
    let k = attach-Takes s t panes after is_set request scope selected lease e in
    let same : k.pane.writes ≡ p.writes =
      attach-writes s panes is_set request scope selected p k.pane there
        (subst (λ r. get request.session r.1.1 ≡ some k.pane) (sym e) k.there) in
    (
      k,
      subst
          (λ w.
            handle_leased_input panes down old_scope client request.session old after k.pane client
              bytes operation
            ≡ (put request.session (record k.pane { writes = (enqueue w bytes).1 }) after, client))
          same
          (rw
            (
              checked_owner panes down old_scope client request.session old operation p there owner,
              handle_leased_input,
            )
            (enqueue_accepted after k.pane k.pane client request.session old bytes operation k.there
              (subst (λ w. (enqueue w bytes).0 ≡ ok tt) (sym same) fits))),
    )
