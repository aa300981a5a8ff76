-- ===== src/Daemon/Pane/Tests.antt =====
-- A pane at concrete inputs: three bytes are retained of five, and a client attaches.
use mult.Base.{ℕ, ◌≡◌, refl, true, false, none, some, List, [], ◌∷◌, ◌++◌, length, arith}
use mult.Base.Result.{ok}
use mult.Daemon.History.{RawHistory, replay_chunks}
use mult.Daemon.Client.{ClientHandle, ForegroundProcessInfo, attach_result, output}
use mult.Daemon.Pane.{
  PaneState, AttachmentOwner, running, append_raw_history_with_limit, deliver_attach_transaction,
}
use mult.Daemon.Pane.Sequence.{IsSequenced, Appended, append_raw_history_with_limit-fits}
use mult.Daemon.Pane.Frames.{HasRoom, queued, Delivers, numbered}
use mult.Daemon.Pane.Attach.{transaction, deliver_attach_transaction-Delivers}
use mult.Daemon.Pane.Live.{Gets, publish_all, publish_all-Gets, attach_then_output}

abbrev history : RawHistory
history = record { chunks = (3 ∷ 4 ∷ []) ∷ (5 ∷ []) ∷ []; front_offset = 0; len = 3 }

abbrev owner : AttachmentOwner
owner = record { scope = 1; lease = 9; client = 4 }

abbrev pane : PaneState
pane = record {
  session = 5;
  identity = record { namespace = 7; token = 1 };
  agent = none;
  pane = 5;
  rows = 24;
  cols = 80;
  raw_history = history;
  history_start = 2;
  next_output = 5;
  writes = record { pending = []; queued_bytes = 0; is_closed = false; capacity = 64 };
  owner = some owner;
  lifecycle = running;
  reader_done = false;
  child_exit = none;
  stop_driver_active = false;
  pending_stops = [];
}

pane-IsSequenced : IsSequenced pane
pane-IsSequenced = record {
  history_valid = record { counted = refl; within = omega arith; framed = omega arith };
  numbered = refl;
  in_range = omega arith;
}

abbrev client : ClientHandle
client = record { id = 4; is_active = true; queue = [] }

abbrev process : ForegroundProcessInfo
process = record { root_pid = some 100; foreground_pid = none; command = none }

append_raw_history_with_limit-fits_example :
    (q : PaneState) × (append_raw_history_with_limit pane (6 ∷ 7 ∷ []) 4 ≡ (ok 5, q))
    × Appended pane (6 ∷ 7 ∷ []) 4 q
append_raw_history_with_limit-fits_example =
    append_raw_history_with_limit-fits pane (6 ∷ 7 ∷ []) 4 pane-IsSequenced (omega arith)

deliver_attach_transaction-Delivers_example :
    Delivers client
      (transaction 11 9 pane process (attach_result 11 9))
      (deliver_attach_transaction client (attach_result 11 9) 11 9 pane process)
deliver_attach_transaction-Delivers_example =
    deliver_attach_transaction-Delivers 11 9 pane process client (attach_result 11 9)
      pane-IsSequenced

abbrev reads : List (List ℕ)
reads = (6 ∷ []) ∷ (7 ∷ 8 ∷ []) ∷ []

publish_all-Gets_example :
    Gets client (numbered (output 5 9) 5 reads) (publish_all pane client reads).1
publish_all-Gets_example =
    publish_all-Gets pane owner client reads pane-IsSequenced refl (omega arith)

has_room :
    HasRoom client
      (length (transaction 11 9 pane process (attach_result 11 9) ++ numbered (output 5 9) 5 reads))
unfolding numbered replay_chunks
has_room = (refl, omega arith)

attach_then_output_example :
    (publish_all
      (record pane { owner = some owner })
      (deliver_attach_transaction client (attach_result 11 9) 11 9 pane process).1
      reads).1
    ≡ queued client
        (transaction 11 9 pane process (attach_result 11 9) ++ numbered (output 5 9) 5 reads)
attach_then_output_example =
    attach_then_output pane owner client reads 11 (attach_result 11 9) process pane-IsSequenced
      (omega arith) has_room
