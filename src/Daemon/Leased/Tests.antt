-- ===== src/Daemon/Leased/Tests.antt =====
-- Leased operations at concrete inputs: one pane, its owner, and a stranger.
use mult.Base.{ℕ, ◌≡◌, refl, true, false, none, some, [], ◌∷◌, arith}
use mult.Base.Equality.{nat_eq}
use mult.Base.Map.{Map, get}
use mult.Protocol.Reject.{input, lease_not_owner}
use mult.Daemon.Client.{ClientHandle}
use mult.Daemon.Pane.{PaneState, AttachmentOwner, running}
use mult.Daemon.Leased.{
  reject_lease, handle_leased_input, handle_leased_resize, handle_leased_detach,
}
use mult.Daemon.Leased.Owner.{IsOwner}
use mult.Daemon.Leased.Refused.{stranger_changes_nothing, detach_then_input}

abbrev holder : AttachmentOwner
holder = record { scope = 1; lease = 9; client = 4 }

abbrev pane : PaneState
pane = record {
  session = 5;
  identity = record { namespace = 7; token = 1 };
  agent = none;
  pane = 5;
  rows = 24;
  cols = 80;
  raw_history = record { chunks = []; front_offset = 0; len = 0 };
  history_start = 0;
  next_output = 0;
  writes = record { pending = []; queued_bytes = 0; is_closed = false; capacity = 64 };
  owner = some holder;
  lifecycle = running;
  reader_done = false;
  child_exit = none;
  stop_driver_active = false;
  pending_stops = [];
}

abbrev panes : Map ℕ PaneState
panes = (5, pane) ∷ []

abbrev client : ClientHandle
client = record { id = 4; is_active = true; queue = [] }

abbrev stranger : ClientHandle
stranger = record { id = 6; is_active = true; queue = [] }

there : get 5 panes ≡ some pane
unfolding get
there = refl

holds : IsOwner pane false 1 client 9
holds = record {
  up = refl;
  runs = refl;
  owner = holder;
  owned = refl;
  same_lease = refl;
  same_scope = refl;
  same_client = refl;
  connected = refl;
}

not_mine : (p : PaneState) → get 5 panes ≡ some p → ¬ IsOwner p false 1 stranger 9
unfolding get
not_mine p e v = absurd (ground (arith, v.owned, v.same_client))

stranger_changes_nothing_example :
    ((handle_leased_input panes false 1 stranger 5 9 panes pane stranger (1 ∷ []) input).0 ≡ panes)
    × ((handle_leased_resize panes false 1 stranger 5 9 true 30 90).0 ≡ panes)
    × ((handle_leased_detach panes false 1 stranger 5 9).0 ≡ panes)
stranger_changes_nothing_example =
    stranger_changes_nothing panes false 1 stranger 5 9 panes pane stranger input (1 ∷ []) true 30
      90 not_mine

detach_then_input_example :
    handle_leased_input
      (handle_leased_detach panes false 1 client 5 9).0
      false
      1
      client
      5
      9
      panes
      pane
      client
      (1 ∷ [])
      input
    ≡ (
      (handle_leased_detach panes false 1 client 5 9).0,
      reject_lease client 5 9 input lease_not_owner,
    )
detach_then_input_example =
    detach_then_input panes false 1 client 5 9 panes pane client input (1 ∷ []) pane there holds
