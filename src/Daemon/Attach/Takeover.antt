-- ===== src/Daemon/Attach/Takeover.antt =====
-- An attach takes the pane over: the lease is fresh, and the selected connection owns the pane.
use mult.Base.{
  ℕ, ◌≡◌, refl, sym, ap, ◌∙◌, inl, inr, Bool, not, ◌&&◌, some, arith, Bool-cases, Option-cases,
}
use mult.Base.Equality.{nat_eq}
use mult.Base.Map.{Map, get, put, get-put_self}
use mult.Base.Result.{ok, Result-cases}
use mult.Protocol.Ids.{checked_next}
use mult.Daemon.Registry.{ServerState, allocate_lease}
use mult.Daemon.Pane.{PaneState, is_running}
use mult.Daemon.Attach.{Attach, attach_target, bind_owner, handle_attach_request}

-- What a successful attach leaves: the next lease, given to the owner that is now at the pane.
pub record Takes (s : ServerState) (request : Attach) (scope selected lease : ℕ) (t : ServerState)
    (panes : Map ℕ PaneState) : Type 0 where
  pub fresh : s.next_lease ≡ some lease
  pub counted : t.next_lease ≡ checked_next lease
  pub pane : PaneState
  pub there : get request.session panes ≡ some pane
  pub owned : pane.owner ≡ some (record { scope = scope; lease = lease; client = selected })

bind_owner-Takes :
    (s t : ServerState) (panes after : Map ℕ PaneState) (request : Attach)
    (scope selected lease : ℕ) (p : PaneState)
    → bind_owner s panes request scope selected p ≡ (ok lease, (t, after))
    → Takes s request scope selected lease t after
unfolding bind_owner allocate_lease
bind_owner-Takes s t panes after request scope selected lease p e =
    elim (Option-cases s.next_lease) [
      | inl exhausted ↦ absurd (ground arith)
      | inr (next, available) ↦
          let same : next ≡ lease = ground arith in
          let q : PaneState = record p {
            owner = some (record { scope = scope; lease = lease; client = selected });
          } in
          let left : put request.session q panes ≡ after = ground arith in
          record {
            fresh = available ∙ ap some same;
            counted = ground arith;
            pane = q;
            there = ap (get request.session) (sym left) ∙ get-put_self request.session q panes;
            owned = refl;
          }
    ]

pub attach-Takes :
    (s t : ServerState) (panes after : Map ℕ PaneState) (is_set : Bool) (request : Attach)
    (scope selected lease : ℕ)
    → handle_attach_request s panes is_set request scope selected ≡ (ok lease, (t, after))
    → Takes s request scope selected lease t after
unfolding handle_attach_request
attach-Takes s t panes after is_set request scope selected lease e =
    elim (Result-cases (attach_target s.is_shutting_down panes request)) [
      | inr (x, refused) ↦ absurd (ground arith)
      | inl (p, target) ↦ elim (Bool-cases (is_running p.lifecycle && not is_set)) [
        | inl failed ↦ absurd (ground arith)
        | inr fine ↦
            bind_owner-Takes s t panes after request scope selected lease _
              (simp (target, fine, handle_attach_request) at e)
      ]
    ]
