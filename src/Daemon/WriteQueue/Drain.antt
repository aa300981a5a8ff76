-- ===== src/Daemon/WriteQueue/Drain.antt =====
-- An open queue drains: the writer's next steps write all that was accepted.
use mathlib.Core.List.{append-nil, append_assoc}
use mult.Base.{
  ℕ, zero, suc, ◌≡◌, refl, sym, ap, ◌∙◌, inl, inr, false, List, [], ◌∷◌, ◌++◌, arith, List-cases,
  length, concat,
}
use mult.Daemon.WriteQueue.{
  PtyWriteQueue, Writer, wait_for_writes, next_batch, write_next, write_one, Event, wakes, writes,
  step, run,
}

abbrev pub repeat : ℕ → Event → List Event
repeat zero x = []
repeat (suc n) x = x ∷ repeat n x

run-append : (w : Writer) (xs ys : List Event) → run w (xs ++ ys) ≡ run (run w xs) ys
unfolding run
run-append w [] ys = refl
run-append w (x ∷ xs) ys = run-append (step w x) xs ys

-- As many writes as the batch has entries write it.
write_batch :
    (w : Writer) (batch : List (List ℕ))
    → run (record w { batch = batch }) (repeat (length batch) writes)
      ≡ record w { batch = []; output = w.output ++ concat batch }
unfolding run step write_next write_one
write_batch w [] = ap (λ t. record w { batch = []; output = t }) (sym (append-nil w.output))
write_batch w (x ∷ xs) =
    write_batch (record w { output = w.output ++ x }) xs
    ∙ ap (λ t. record w { batch = []; output = t }) (append_assoc w.output x (concat xs))

-- Waking up takes what is pending.
woken :
    (w : Writer)
    → w.queue.is_closed ≡ false
    → w.is_done ≡ false
    → (q : PtyWriteQueue) × (step (record w { batch = [] }) wakes
        ≡ record w { queue = q; batch = w.queue.pending })
unfolding step next_batch wait_for_writes
woken w o d = elim (List-cases w.queue.pending) [
  | inl nothing ↦ (w.queue, ground arith)
  | inr (x, xs, some_) ↦ (record w.queue { queued_bytes = 0; pending = [] }, ground arith)
]

wake_up :
    (w : Writer)
    → w.queue.is_closed ≡ false
    → w.is_done ≡ false
    → (run (record w { batch = [] }) (wakes ∷ repeat (length w.queue.pending) writes)).output
      ≡ w.output ++ concat w.queue.pending
unfolding run
wake_up w o d =
    let (q, e) = woken w o d in
    ap (λ u. (run u (repeat (length w.queue.pending) writes)).output) e
    ∙ ap (λ u. u.output) (write_batch (record w { queue = q }) w.queue.pending)

-- While the queue is open and the writer runs, finishing its batch, waking up and writing what it
-- then takes brings to the terminal everything that was in the batch or pending, in this order.
pub writer_drains :
    (w : Writer)
    → w.queue.is_closed ≡ false
    → w.is_done ≡ false
    → (run w
        (repeat (length w.batch) writes ++ (wakes ∷ repeat (length w.queue.pending) writes))).output
      ≡ w.output ++ (concat w.batch ++ concat w.queue.pending)
writer_drains w o d =
    ap (λ u. u.output)
      (run-append w (repeat (length w.batch) writes)
          (wakes ∷ repeat (length w.queue.pending) writes)
        ∙ ap (λ u. run u (wakes ∷ repeat (length w.queue.pending) writes)) (write_batch w w.batch))
    ∙ wake_up (record w { output = w.output ++ concat w.batch }) o d
    ∙ append_assoc w.output (concat w.batch) (concat w.queue.pending)
