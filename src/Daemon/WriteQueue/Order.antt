-- ===== src/Daemon/WriteQueue/Order.antt =====
-- What reaches the terminal is what was accepted, in that order.
use mathlib.Core.List.{append-nil, append_assoc}
use mult.Base.{
  ℕ, ◌≡◌, refl, sym, ap, ◌∙◌, subst, inl, inr, true, false, List, [], ◌∷◌, ◌++◌, arith, Bool-cases,
  List-cases, Bool-clash, concat, is_empty, take, drop, take-append-drop,
}
use mult.Daemon.WriteQueue.{
  with_capacity, enqueue, close, wait_for_writes, Writer, spawn, next_batch, write_next, write_one,
  write_failed, Event, enqueues, closes, wakes, writes, breaks, step, run, accepts, accepted,
}
use mult.Daemon.WriteQueue.Accept.{
  Keeps, while_open, once_closed, same_bytes, result-Keeps, enqueue-Enqueues,
}

concat_empty : (xs : List (List ℕ)) → is_empty xs ≡ true → concat xs ≡ []
concat_empty [] e = refl
concat_empty (x ∷ xs) e = absurd (ground arith)

next_batch_open :
    (w : Writer)
    → w.queue.is_closed ≡ false
    → is_empty w.queue.pending ≡ false
    → next_batch w ≡ record w {
      queue = record w.queue { queued_bytes = 0; pending = [] };
      batch = w.queue.pending;
    }
unfolding next_batch wait_for_writes
next_batch_open w o some_ = ground arith

next_batch_closed :
    (w : Writer) → w.queue.is_closed ≡ true → next_batch w ≡ record w { is_done = true }
unfolding next_batch wait_for_writes
next_batch_closed w o = ground arith

next_batch_idle :
    (w : Writer) → w.queue.is_closed ≡ false → is_empty w.queue.pending ≡ true → next_batch w ≡ w
unfolding next_batch wait_for_writes
next_batch_idle w o nothing = ground arith

next_batch-Keeps :
    (w : Writer) (bytes : List ℕ)
    → is_empty w.batch ≡ true
    → Keeps w bytes
    → Keeps (next_batch w) bytes
next_batch-Keeps w bytes e (once_closed lost o h) =
    subst (λ u. Keeps u bytes) (sym (next_batch_closed w o)) (once_closed lost o h)
next_batch-Keeps w bytes e (while_open o h) = elim (Bool-cases (is_empty w.queue.pending)) [
  | inl nothing ↦ subst (λ u. Keeps u bytes) (sym (next_batch_idle w o nothing)) (while_open o h)
  | inr some_ ↦
      subst (λ u. Keeps u bytes) (sym (next_batch_open w o some_))
        (while_open o (
          ap (◌++◌ w.output) (
            append-nil (concat w.queue.pending)
            ∙ ap (λ t. t ++ concat w.queue.pending) (sym (concat_empty w.batch e)))
          ∙ h))
]

shift :
    (o x r p bytes : List ℕ) (batch : List (List ℕ))
    → concat batch ≡ x ++ r
    → o ++ (concat batch ++ p) ≡ bytes
    → (o ++ x) ++ (r ++ p) ≡ bytes
shift o x r p bytes batch e h =
    append_assoc o x (r ++ p)
    ∙ ap (◌++◌ o) (sym (append_assoc x r p) ∙ ap (λ t. t ++ p) (sym e))
    ∙ h

write-Keeps :
    (w : Writer) (bytes x : List ℕ) (rest : List (List ℕ))
    → w.batch ≡ x ∷ rest
    → Keeps w bytes
    → Keeps (write_one w x rest) bytes
unfolding write_one
write-Keeps w bytes x rest e (while_open o h) =
    while_open o
      (shift w.output x (concat rest) (concat w.queue.pending) bytes w.batch (ap concat e) h)
write-Keeps w bytes x rest e (once_closed lost o h) =
    once_closed lost o (shift w.output x (concat rest) lost bytes w.batch (ap concat e) h)

failed-Keeps :
    (w : Writer) (n : ℕ) (bytes x : List ℕ) (rest : List (List ℕ))
    → w.batch ≡ x ∷ rest
    → Keeps w bytes
    → Keeps (write_failed w n x) bytes
unfolding write_failed close
failed-Keeps w n bytes x rest e k =
    let (lost, h) = left_over k in
    once_closed (drop n x ++ (concat rest ++ lost)) refl (
      append_assoc w.output (take n x) (drop n x ++ (concat rest ++ lost))
      ∙ ap (◌++◌ w.output) (
          sym (append_assoc (take n x) (drop n x) (concat rest ++ lost))
          ∙ ap (λ t. t ++ (concat rest ++ lost)) (take-append-drop n x)
          ∙ sym (append_assoc x (concat rest) lost)
          ∙ ap (λ b. concat b ++ lost) (sym e))
      ∙ h)
  where
    left_over :
        {w : Writer} {bytes : List ℕ}
        → Keeps w bytes
        → (lost : List ℕ) × (w.output ++ (concat w.batch ++ lost) ≡ bytes)
    left_over (while_open o h) = (_, h)
    left_over (once_closed lost o h) = (lost, h)

close-Keeps : (w : Writer) (bytes : List ℕ) → Keeps w bytes → Keeps (step w closes) bytes
unfolding step close
close-Keeps w bytes (while_open o h) = once_closed (concat w.queue.pending) refl h
close-Keeps w bytes (once_closed lost o h) = once_closed lost refl h

wakes-Keeps : (w : Writer) (bytes : List ℕ) → Keeps w bytes → Keeps (step w wakes) bytes
unfolding step
wakes-Keeps w bytes k = elim (Bool-cases (is_empty w.batch)) [
  | inl e ↦ elim (Bool-cases w.is_done) [
    | inl done ↦ simp (e, done, step) k
    | inr more ↦ simp (e, more, step) (next_batch-Keeps w bytes e k)
  ]
  | inr e ↦ rw (e, step) k
]

taken_next :
    (w : Writer) (x : List ℕ) (rest : List (List ℕ)) (action : List ℕ → List (List ℕ) → Writer)
    → w.batch ≡ x ∷ rest
    → action x rest ≡ write_next w action
unfolding write_next
taken_next w x rest action e = simp (e, write_next) refl

writes-Keeps : (w : Writer) (bytes : List ℕ) → Keeps w bytes → Keeps (step w writes) bytes
unfolding step write_next
writes-Keeps w bytes k = elim (List-cases w.batch) [
  | inl e ↦ rw (e, step, write_next) k
  | inr (x, rest, e) ↦
      subst (λ u. Keeps u bytes) (taken_next w x rest (write_one w) e)
        (write-Keeps w bytes x rest e k)
]

breaks-Keeps :
    (w : Writer) (n : ℕ) (bytes : List ℕ) → Keeps w bytes → Keeps (step w (breaks n)) bytes
unfolding step write_next
breaks-Keeps w n bytes k = elim (List-cases w.batch) [
  | inl e ↦ simp (e, step, write_next) k
  | inr (x, rest, e) ↦
      subst (λ u. Keeps u bytes) (taken_next w x rest (λ b r. write_failed w n b) e)
        (failed-Keeps w n bytes x rest e k)
]

step-Keeps :
    (w : Writer) (x : Event) (bytes : List ℕ)
    → Keeps w bytes
    → Keeps (step w x) (bytes ++ accepts w x)
unfolding accepts
step-Keeps w (enqueues x) bytes k =
    unfold step in result-Keeps w x bytes (enqueue w.queue x) (enqueue-Enqueues w.queue x) k
step-Keeps w closes bytes k = same_bytes (step w closes) bytes (close-Keeps w bytes k)
step-Keeps w wakes bytes k = same_bytes (step w wakes) bytes (wakes-Keeps w bytes k)
step-Keeps w writes bytes k = same_bytes (step w writes) bytes (writes-Keeps w bytes k)
step-Keeps w (breaks n) bytes k = same_bytes (step w (breaks n)) bytes (breaks-Keeps w n bytes k)

run-Keeps :
    (w : Writer) (xs : List Event) (bytes : List ℕ)
    → Keeps w bytes
    → Keeps (run w xs) (bytes ++ accepted w xs)
unfolding run accepted
run-Keeps w [] bytes k = same_bytes w bytes k
run-Keeps w (x ∷ xs) bytes k =
    subst (Keeps (run (step w x) xs)) (append_assoc bytes (accepts w x) (accepted (step w x) xs))
      (run-Keeps (step w x) xs (bytes ++ accepts w x) (step-Keeps w x bytes k))

run-spawn-Keeps : (xs : List Event) → Keeps (run spawn xs) (accepted spawn xs)
run-spawn-Keeps xs = run-Keeps spawn xs [] (unfold spawn with_capacity in while_open refl refl)

-- However clients and the writer interleave, what has reached the terminal is a prefix of the bytes
-- that were accepted, in the order in which they were accepted.
pub output-accepted_prefix :
    (xs : List Event) → (rest : List ℕ) × ((run spawn xs).output ++ rest ≡ accepted spawn xs)
output-accepted_prefix xs = elim (run-spawn-Keeps xs) [
  | while_open o h ↦ (_, h)
  | once_closed lost o h ↦ (_, h)
]

-- While the queue is open, every accepted byte has reached the terminal, is in the batch that the
-- writer holds, or is pending, in this order.
pub nothing_lost :
    (xs : List Event)
    → (run spawn xs).queue.is_closed ≡ false
    → (run spawn xs).output ++ (concat (run spawn xs).batch ++ concat (run spawn xs).queue.pending)
      ≡ accepted spawn xs
nothing_lost xs open_ = elim (run-spawn-Keeps xs) [
  | while_open o h ↦ h
  | once_closed lost o h ↦ absurd (Bool-clash o open_)
]
