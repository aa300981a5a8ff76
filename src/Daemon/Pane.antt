-- ===== src/Daemon/Pane.antt =====
-- src/bin/mult-server.rs, `PaneState`: one pane's retained output and its numbering, its owner, and
-- what the owner may do to it. The process behind the pane is left out, but for its exit code.
pub mod Sequence
pub mod Frames
pub mod Attach
pub mod Live
pub mod Tests
use mult.Base.{
  ℕ, ◌+◌, Bool, true, false, not, ◌||◌, ◌&&◌, Option, none, some, List, [], ◌∷◌, length, ltb, ◌==◌,
  if◌then◌else◌,
}
use mult.Base.Equality.{nat_eq}
use mult.Base.Map.{Map, get, put}
use mult.Base.Result.{Result, ok, err}
use mult.Protocol.Ids.{SessionIdentity, checked_add_bytes, checked_add}
use mult.Protocol.Agent.{AgentSessionMetadata}
use mult.Protocol.Screen.{bounded_screen_dimensions}
use mult.Protocol.Reject.{
  LeaseOperation, resize, detach, LeaseRejectionReason, pane_missing, lease_not_owner, lease_stale,
  write_refused,
}
use mult.Daemon.History.{RawHistory, append, replay_chunks, raw_history_max_bytes}
use mult.Daemon.WriteQueue.{PtyWriteQueue, enqueue}
use mult.Daemon.Client.{
  ClientHandle, ClientDelivery, ForegroundProcessInfo, try_enqueue, disconnect, replay_begin,
  replay, replay_end, foreground_process, output, lease_rejected,
}

pub record AttachmentOwner : Type 0 where
  pub scope : ℕ
  pub lease : ℕ
  pub client : ℕ

pub data PaneLifecycle : Type 0 where
  running stopping exited removed : PaneLifecycle

abbrev pub is_running : PaneLifecycle → Bool
is_running running = true
is_running _ = false

pub record PaneState : Type 0 where
  pub session : ℕ
  pub identity : SessionIdentity
  pub agent : Option AgentSessionMetadata
  pub pane : ℕ
  pub rows : ℕ
  pub cols : ℕ
  pub raw_history : RawHistory
  pub history_start : ℕ
  pub next_output : ℕ
  pub writes : PtyWriteQueue
  pub owner : Option AttachmentOwner
  pub lifecycle : PaneLifecycle
  pub reader_done : Bool
  pub child_exit : Option ℕ
  pub stop_driver_active : Bool
  pub pending_stops : List ℕ

pub data SequenceError : Type 0 where
  output_exhausted history_exhausted : SequenceError

-- The start of the history after bytes were dropped from its front.
unfoldable pub advance_start : ℕ → ℕ → Option ℕ
advance_start start dropped = if ltb 0 dropped then checked_add_bytes start dropped else some start

-- The number of the first new byte. An error leaves what was assigned before it.
unfoldable pub append_raw_history_with_limit :
    PaneState → List ℕ → ℕ → Result SequenceError ℕ × PaneState
append_raw_history_with_limit p bytes limit =
    elim (checked_add_bytes p.next_output (length bytes)) [
      | none ↦ (err output_exhausted, p)
      | some next ↦ elim (advance_start p.history_start (append p.raw_history bytes limit).1) [
        | none ↦ (
          err history_exhausted,
          record p { next_output = next; raw_history = (append p.raw_history bytes limit).0 },
        )
        | some start ↦ (
          ok p.next_output,
          record p {
            next_output = next;
            raw_history = (append p.raw_history bytes limit).0;
            history_start = start;
          },
        )
      ]
    ]

unfoldable pub append_raw_history : PaneState → List ℕ → Result SequenceError ℕ × PaneState
append_raw_history p bytes = append_raw_history_with_limit p bytes raw_history_max_bytes

-- One delivery to the owner; a failed one ends its connection.
unfoldable pub deliver_or_disconnect : ClientHandle → ClientDelivery → ClientHandle
deliver_or_disconnect client delivery =
    if (try_enqueue client delivery).0
    then (try_enqueue client delivery).1
    else disconnect (try_enqueue client delivery).1

-- `client` is the handle of the pane's owner, where it has one.
unfoldable pub publish_pty_output :
    PaneState → ClientHandle → List ℕ → Result SequenceError (Unit {0}) × (PaneState × ClientHandle)
publish_pty_output p client bytes = elim (append_raw_history p bytes).0 [
  | err e ↦ (err e, ((append_raw_history p bytes).1, client))
  | ok sequence ↦ elim p.owner [
    | none ↦ (ok tt, ((append_raw_history p bytes).1, client))
    | some owner ↦ (
      ok tt,
      (
        (append_raw_history p bytes).1,
        deliver_or_disconnect client (output p.pane owner.lease sequence bytes),
      ),
    )
  ]
]

-- The loop of `deliver_attach_transaction`, over the chunks that are left: whether all were accepted,
-- the next sequence number, and the client.
unfoldable pub replay_frames :
    List (List ℕ) → ℕ → ℕ → ℕ → ℕ → ClientHandle → Bool × ℕ × ClientHandle
replay_frames [] request_id pane lease sequence client = (true, sequence, client)
replay_frames (chunk ∷ chunks) request_id pane lease sequence client =
    let (accepted, queued) = try_enqueue client (replay request_id pane lease sequence chunk) in
    elim (checked_add_bytes sequence (length chunk)) [
      | none ↦ (false, sequence, queued)
      | some next ↦
          let rest = replay_frames chunks request_id pane lease next queued in
          if accepted then rest else (false, next, queued)
    ]

-- `&&` on deliveries: the second is tried if the first was accepted.
abbrev pub and_then :
    Bool × ClientHandle → (ClientHandle → Bool × ClientHandle) → Bool × ClientHandle
and_then (true, client) f = f client
and_then (false, client) f = (false, client)

-- The end of `deliver_attach_transaction`, after the loop.
unfoldable pub finish_replay :
    PaneState → ℕ → ℕ → ForegroundProcessInfo → Bool × ℕ × ClientHandle → Bool × ClientHandle
finish_replay p request_id lease foreground (accepted, sequence, client) =
    if accepted && (sequence == p.next_output)
    then and_then (try_enqueue client (replay_end request_id p.pane lease p.next_output))
        (λ c. try_enqueue c (foreground_process p.pane lease foreground))
    else (false, client)

unfoldable pub deliver_attach_transaction :
    ClientHandle → ClientDelivery → ℕ → ℕ → PaneState → ForegroundProcessInfo → Bool × ClientHandle
deliver_attach_transaction client response request_id lease p foreground =
    and_then
      (and_then (try_enqueue client response) (λ c.
        try_enqueue c
          (replay_begin request_id p.pane lease p.history_start p.next_output p.history_start)))
      (λ c.
        finish_replay p request_id lease foreground
          (replay_frames (replay_chunks p.raw_history) request_id p.pane lease p.history_start c))
