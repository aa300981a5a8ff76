-- ===== src/Daemon/WriteQueue/Tests.antt =====
-- The write queue at concrete inputs.
use mult.Base.{ℕ, ◌≡◌, refl, false, List, [], ◌∷◌, ◌++◌, concat}
use mult.Daemon.WriteQueue.{
  Writer, spawn, with_capacity, enqueue, wait_for_writes, next_batch, write_next, write_one, Event,
  enqueues, closes, wakes, writes, step, run, accepted,
}
use mult.Daemon.WriteQueue.Order.{output-accepted_prefix, nothing_lost}
use mult.Daemon.WriteQueue.Drain.{repeat, writer_drains}

abbrev events : List Event
events = enqueues (1 ∷ 2 ∷ []) ∷ enqueues (3 ∷ []) ∷ wakes ∷ writes ∷ enqueues (4 ∷ []) ∷ []

output-accepted_prefix_example :
    (rest : List ℕ) × ((run spawn (events ++ (closes ∷ []))).output ++ rest
      ≡ accepted spawn (events ++ (closes ∷ [])))
output-accepted_prefix_example = output-accepted_prefix (events ++ (closes ∷ []))

stays_open : (run spawn events).queue.is_closed ≡ false
unfolding run spawn with_capacity step enqueue next_batch wait_for_writes write_next write_one
stays_open = refl

nothing_lost_example :
    (run spawn events).output
      ++ (concat (run spawn events).batch ++ concat (run spawn events).queue.pending)
    ≡ accepted spawn events
nothing_lost_example = nothing_lost events stays_open

abbrev busy : Writer
busy = record {
  queue = record { pending = (4 ∷ []) ∷ []; queued_bytes = 1; is_closed = false; capacity = 9 };
  batch = (3 ∷ []) ∷ [];
  is_done = false;
  output = 1 ∷ 2 ∷ [];
}

writer_drains_example :
    (run busy (repeat 1 writes ++ (wakes ∷ repeat 1 writes))).output
    ≡ (1 ∷ 2 ∷ []) ++ ((3 ∷ []) ++ (4 ∷ []))
writer_drains_example = writer_drains busy refl refl
