-- ===== src/Daemon/Attach.antt =====
-- src/bin/mult-server.rs, `handle_attach_request_with_hooks` for a new request, behind the request
-- journal and before the replay: which pane is attached to, and who owns it then.
pub mod Takeover
pub mod Leases
pub mod Moves
pub mod Displaced
pub mod Overtaken
pub mod Tests
use mult.Base.{ℕ, Bool, true, false, not, ◌||◌, ◌&&◌, Option, none, some, if◌then◌else◌}
use mult.Base.Equality.{nat_eq}
use mult.Base.Map.{Map, get, put}
use mult.Base.Result.{Result, ok, err}
use mult.Protocol.Ids.{SessionIdentity, identity_beq}
use mult.Protocol.Agent.{IdentityMismatch}
use mult.Protocol.Reject.{RejectCode, shutting_down, daemon_internal}
use mult.Daemon.Registry.{ServerState, allocate_lease}
use mult.Daemon.AgentStatus.{identity_mismatch}
use mult.Daemon.Pane.{PaneState, PaneLifecycle, stopping, AttachmentOwner, is_running}
use mult.Daemon.Leased.{resize_pane}

pub data AttachError : Type 0 where
  attach_collision attach_retry_expired superseded : AttachError
  session_missing : ℕ → AttachError
  attach_mismatch : ℕ → IdentityMismatch → AttachError
  attach_failed : RejectCode → AttachError

pub record Attach : Type 0 where
  pub identity : SessionIdentity
  pub session : ℕ
  pub rows : ℕ
  pub cols : ℕ

-- A stop whose driver gave up leaves the pane attachable.
abbrev pub is_recoverable : PaneState → Bool
is_recoverable p = elim p.lifecycle [ stopping ↦ not p.stop_driver_active | _ ↦ false ]

unfoldable pub attach_target : Bool → Map ℕ PaneState → Attach → Result AttachError PaneState
attach_target is_shutting_down panes request =
    if is_shutting_down
    then err (attach_failed shutting_down)
    else elim (get request.session panes) [
      | none ↦ err (session_missing request.session)
      | some p ↦
          if not (identity_beq p.identity request.identity)
          then err (attach_mismatch request.session (identity_mismatch p.identity request.identity))
          else if not (is_running p.lifecycle) && not (is_recoverable p)
          then err (session_missing request.session)
          else ok p
    ]

abbrev pub Attached : Type 0
Attached = Result AttachError ℕ × (ServerState × Map ℕ PaneState)

-- A fresh lease, and the owner under it; `selected` is the connection that waited last.
unfoldable pub bind_owner : ServerState → Map ℕ PaneState → Attach → ℕ → ℕ → PaneState → Attached
bind_owner s panes request scope selected p = elim (allocate_lease s).0 [
  | err code ↦ (err (attach_failed code), (s, put request.session p panes))
  | ok lease ↦ (
    ok lease,
    (
      (allocate_lease s).1,
      put request.session
          (record p { owner = some (record { scope = scope; lease = lease; client = selected }) })
          panes,
    ),
  )
]

-- `is_set` is whether the operating system sets the terminal's size.
unfoldable pub handle_attach_request :
    ServerState → Map ℕ PaneState → Bool → Attach → ℕ → ℕ → Attached
handle_attach_request s panes is_set request scope selected =
    elim (attach_target s.is_shutting_down panes request) [
      | err e ↦ (err e, (s, panes))
      | ok p ↦
          if is_running p.lifecycle && not is_set
          then (err (attach_failed daemon_internal), (s, panes))
          else bind_owner s panes request scope selected
              (if is_running p.lifecycle then resize_pane p is_set request.rows request.cols else p)
    ]
