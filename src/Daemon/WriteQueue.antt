-- ===== src/Daemon/WriteQueue.antt =====
-- src/bin/mult-server.rs, `PtyWriteQueue` and `run_pty_writer`: the bytes that clients send to a
-- pane's terminal. Producers and the one writer thread are interleaved one queue operation or one
-- write at a time.
pub mod Bound
pub mod Accept
pub mod Order
pub mod Drain
pub mod Tests
use mult.Base.{
  ℕ, ◌+◌, ◌*◌, ◌-◌, ◌^◌, min, Bool, true, false, not, ◌&&◌, List, [], ◌∷◌, ◌++◌, length, is_empty,
  take, ltb, if◌then◌else◌,
}
use mult.Base.Result.{Result, ok, err}

-- `usize::saturating_add`
abbrev pub saturating_add : ℕ → ℕ → ℕ
saturating_add a b = min (a + b) (2 ^ 64 - 1)

abbrev pub pty_write_queue_max_bytes : ℕ
pty_write_queue_max_bytes = 1024 * 1024

pub data PtyWriteRefusal : Type 0 where
  closed queue_full : PtyWriteRefusal

pub record PtyWriteQueue : Type 0 where
  pub pending : List (List ℕ)
  pub queued_bytes : ℕ
  pub is_closed : Bool
  pub capacity : ℕ

unfoldable pub with_capacity : ℕ → PtyWriteQueue
with_capacity capacity = record {
  pending = [];
  queued_bytes = 0;
  is_closed = false;
  capacity = capacity;
}

unfoldable pub enqueue : PtyWriteQueue → List ℕ → Result PtyWriteRefusal (Unit {0}) × PtyWriteQueue
enqueue q bytes =
    if is_empty bytes
    then (ok tt, q)
    else if q.is_closed
    then (err closed, q)
    else if ltb q.capacity (saturating_add q.queued_bytes (length bytes))
    then (err queue_full, q)
    else (
      ok tt,
      record q {
        queued_bytes = q.queued_bytes + length bytes;
        pending = q.pending ++ (bytes ∷ []);
      },
    )

-- What one round of the loop of `wait_for_writes` finds: nothing to write yet, the end, or a batch.
pub data Wait : Type 0 where
  blocks ends : Wait
  takes : List (List ℕ) → Wait

unfoldable pub wait_for_writes : PtyWriteQueue → Wait × PtyWriteQueue
wait_for_writes q =
    if q.is_closed
    then (ends, q)
    else if is_empty q.pending
    then (blocks, q)
    else (takes q.pending, record q { queued_bytes = 0; pending = [] })

unfoldable pub close : PtyWriteQueue → PtyWriteQueue
close q = record q { is_closed = true; pending = []; queued_bytes = 0 }

-- The writer thread with the rest of its batch, and what has reached the terminal.
pub record Writer : Type 0 where
  pub queue : PtyWriteQueue
  pub batch : List (List ℕ)
  pub is_done : Bool
  pub output : List ℕ

unfoldable pub spawn : Writer
unfolding with_capacity
spawn = record {
  queue = with_capacity pty_write_queue_max_bytes;
  batch = [];
  is_done = false;
  output = [];
}

-- The head of the `while` of `run_pty_writer`.
unfoldable pub next_batch : Writer → Writer
next_batch w = elim (wait_for_writes w.queue).0 [
  | blocks ↦ w
  | ends ↦ record w { is_done = true }
  | takes batch ↦ record w { queue = (wait_for_writes w.queue).1; batch = batch }
]

-- One `write_all` of `run_pty_writer` that succeeds.
unfoldable pub write_one : Writer → List ℕ → List (List ℕ) → Writer
write_one w bytes rest = record w { output = w.output ++ bytes; batch = rest }

-- One that fails after `n` bytes: the queue is closed and the thread ends.
unfoldable pub write_failed : Writer → ℕ → List ℕ → Writer
write_failed w n bytes = record w {
  queue = close w.queue;
  output = w.output ++ take n bytes;
  batch = [];
  is_done = true;
}

pub data Event : Type 0 where
  enqueues : List ℕ → Event
  closes wakes writes : Event
  breaks : ℕ → Event

-- The writer's next write, if it has one.
unfoldable pub write_next : Writer → (List ℕ → List (List ℕ) → Writer) → Writer
write_next w action = elim w.batch [ [] ↦ w | bytes ∷ rest ↦ action bytes rest ]

-- The writer waits only between batches and until it ends.
unfoldable pub step : Writer → Event → Writer
step w (enqueues bytes) = record w { queue = (enqueue w.queue bytes).1 }
step w closes = record w { queue = close w.queue }
step w wakes = if is_empty w.batch && not w.is_done then next_batch w else w
step w writes = write_next w (write_one w)
step w (breaks n) = write_next w (λ bytes rest. write_failed w n bytes)

unfoldable pub run : Writer → List Event → Writer
run w [] = w
run w (x ∷ xs) = run (step w x) xs

unfoldable pub accepted_by : List ℕ → Result PtyWriteRefusal (Unit {0}) → List ℕ
accepted_by bytes (ok unit) = bytes
accepted_by bytes (err e) = []

-- The bytes that `enqueue` accepts.
unfoldable pub accepts : Writer → Event → List ℕ
accepts w (enqueues bytes) = accepted_by bytes (enqueue w.queue bytes).0
accepts w _ = []

unfoldable pub accepted : Writer → List Event → List ℕ
accepted w [] = []
accepted w (x ∷ xs) = accepts w x ++ accepted (step w x) xs
