-- ===== src/Daemon/WriteQueue/Bound.antt =====
-- The queue holds no more bytes than its capacity, and counts the ones that it holds.
use mathlib.Core.List.{append-nil}
use mult.Base.{
  ℕ, ◌≤◌, ◌≡◌, refl, List, [], ◌∷◌, arith, length, length-append, concat, concat-append,
}
use mult.Daemon.WriteQueue.{
  PtyWriteQueue, with_capacity, enqueue, close, wait_for_writes, Writer, spawn, next_batch,
  write_next, write_one, write_failed, Event, enqueues, closes, wakes, writes, breaks, step, run,
  pty_write_queue_max_bytes,
}

pub record IsValid (q : PtyWriteQueue) : Type 0 where
  pub counted : q.queued_bytes ≡ length (concat q.pending)
  pub bounded : q.queued_bytes ≤ q.capacity
  pub sized : q.capacity ≡ pty_write_queue_max_bytes

enqueue-IsValid : (q : PtyWriteQueue) (bytes : List ℕ) → IsValid q → IsValid (enqueue q bytes).1
unfolding enqueue
enqueue-IsValid q bytes v = record {
  counted = ground (
    arith,
    v.counted,
    concat-append q.pending (bytes ∷ []),
    append-nil bytes,
    length-append (concat q.pending) (concat (bytes ∷ [])),
  );
  bounded = ground (arith, v.bounded, v.sized);
  sized = ground (arith, v.sized);
}

close-IsValid : (q : PtyWriteQueue) → IsValid q → IsValid (close q)
unfolding close
close-IsValid q v = record { counted = refl; bounded = omega arith; sized = v.sized }

next_batch-IsValid : (w : Writer) → IsValid w.queue → IsValid (next_batch w).queue
unfolding next_batch wait_for_writes
next_batch-IsValid w v = record {
  counted = ground (arith, v.counted);
  bounded = ground (arith, v.bounded);
  sized = ground (arith, v.sized);
}

writes-IsValid : (w : Writer) → IsValid w.queue → IsValid (step w writes).queue
unfolding step write_next write_one
writes-IsValid w v = record {
  counted = ground (arith, v.counted);
  bounded = ground (arith, v.bounded);
  sized = ground (arith, v.sized);
}

breaks-IsValid : (w : Writer) (n : ℕ) → IsValid w.queue → IsValid (step w (breaks n)).queue
unfolding step write_next write_failed close
breaks-IsValid w n v = record {
  counted = ground (arith, v.counted);
  bounded = ground (arith, v.bounded);
  sized = ground (arith, v.sized);
}

step-IsValid : (w : Writer) (x : Event) → IsValid w.queue → IsValid (step w x).queue
step-IsValid w (enqueues bytes) v = unfold step in enqueue-IsValid w.queue bytes v
step-IsValid w closes v = unfold step in close-IsValid w.queue v
step-IsValid w wakes v = unfold step in ground (arith, next_batch-IsValid w v)
step-IsValid w writes v = writes-IsValid w v
step-IsValid w (breaks n) v = breaks-IsValid w n v

run-IsValid : (w : Writer) (xs : List Event) → IsValid w.queue → IsValid (run w xs).queue
unfolding run
run-IsValid w [] v = v
run-IsValid w (x ∷ xs) v = run-IsValid (step w x) xs (step-IsValid w x v)

-- However clients and the writer interleave, the queue counts exactly the bytes that it holds, and
-- they are no more than its capacity.
pub run-spawn-IsValid : (xs : List Event) → IsValid (run spawn xs).queue
run-spawn-IsValid xs =
    run-IsValid spawn xs
      (unfold spawn with_capacity in record { counted = refl; bounded = omega arith; sized = refl })
