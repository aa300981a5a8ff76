-- ===== src/Daemon/WriteQueue/Accept.antt =====
-- What `enqueue` accepts, and where the accepted bytes are.
use mathlib.Core.List.{append-nil, append_assoc}
use mult.Base.{
  ℕ, ◌+◌, ◌≡◌, refl, sym, ap, ◌∙◌, subst, inl, inr, true, false, List, [], ◌∷◌, ◌++◌, arith,
  Bool-cases, Bool-clash, length, concat, concat-append, ltb,
}
use mult.Base.Result.{Result, ok, err}
use mult.Daemon.WriteQueue.{
  PtyWriteQueue, PtyWriteRefusal, enqueue, Writer, closed, queue_full, accepted_by, saturating_add,
}

-- Where the accepted bytes are: while the queue is open, written, in the batch or pending; once it
-- is closed, what was pending is gone.
pub data Keeps (w : Writer) (bytes : List ℕ) : Type 0 where
  while_open :
      w.queue.is_closed ≡ false
      → w.output ++ (concat w.batch ++ concat w.queue.pending) ≡ bytes
      → Keeps w bytes
  once_closed :
      (lost : List ℕ)
      → w.queue.is_closed ≡ true
      → w.output ++ (concat w.batch ++ lost) ≡ bytes
      → Keeps w bytes

snoc :
    (a b c d : List ℕ) (bytes : List ℕ) → a ++ (b ++ c) ≡ bytes → a ++ (b ++ (c ++ d)) ≡ bytes ++ d
snoc a b c d bytes h =
    ap (◌++◌ a) (sym (append_assoc b c d)) ∙ sym (append_assoc a (b ++ c) d) ∙ ap (λ t. t ++ d) h

unsnoc : (a b c : List ℕ) (bytes : List ℕ) → a ++ (b ++ c) ≡ bytes → (a ++ b) ++ c ≡ bytes
unsnoc a b c bytes h = append_assoc a b c ∙ h

-- What `enqueue` does: it accepts all the bytes, behind the ones that wait, or changes nothing.
pub data Enqueues (q : PtyWriteQueue) (bytes : List ℕ)
    : Result PtyWriteRefusal (Unit {0}) × PtyWriteQueue → Type 0 where
  has_nothing : bytes ≡ [] → Enqueues q bytes (ok tt, q)
  is_refused : (e : PtyWriteRefusal) → Enqueues q bytes (err e, q)
  is_accepted :
      q.is_closed ≡ false
      → Enqueues q bytes (
        ok tt,
        record q {
          queued_bytes = q.queued_bytes + length bytes;
          pending = q.pending ++ (bytes ∷ []);
        },
      )

pub enqueue-Enqueues : (q : PtyWriteQueue) (bytes : List ℕ) → Enqueues q bytes (enqueue q bytes)
unfolding enqueue
enqueue-Enqueues q [] = has_nothing refl
enqueue-Enqueues q (x ∷ xs) = elim (Bool-cases q.is_closed) [
  | inl shut ↦ simp (shut, enqueue) (is_refused closed)
  | inr open_ ↦
      elim (Bool-cases (ltb q.capacity (saturating_add q.queued_bytes (length (x ∷ xs))))) [
        | inl full ↦ simp (open_, full, enqueue) (is_refused queue_full)
        | inr fits ↦
            let e : enqueue q (x ∷ xs) ≡ (
              ok tt,
              record q {
                queued_bytes = q.queued_bytes + length (x ∷ xs);
                pending = q.pending ++ ((x ∷ xs) ∷ []);
              },
            ) =
              ground arith in
            subst (Enqueues q (x ∷ xs)) (sym e) (is_accepted open_)
      ]
]

pub same_bytes : (w : Writer) (bytes : List ℕ) → Keeps w bytes → Keeps w (bytes ++ [])
same_bytes w bytes (while_open o h) = while_open o (h ∙ sym (append-nil bytes))
same_bytes w bytes (once_closed lost o h) = once_closed lost o (h ∙ sym (append-nil bytes))

pub result-Keeps :
    (w : Writer) (x bytes : List ℕ) (r : Result PtyWriteRefusal (Unit {0}) × PtyWriteQueue)
    → Enqueues w.queue x r
    → Keeps w bytes
    → Keeps (record w { queue = r.1 }) (bytes ++ accepted_by x r.0)
unfolding accepted_by
result-Keeps w x bytes _ (has_nothing e) k = rw e (same_bytes w bytes k)
result-Keeps w x bytes _ (is_refused e) k = same_bytes w bytes k
result-Keeps w x bytes _ (is_accepted o) (while_open p h) = while_open o (
    ap (λ t. w.output ++ (concat w.batch ++ t))
      (concat-append w.queue.pending (x ∷ []) ∙ ap (◌++◌ (concat w.queue.pending)) (append-nil x))
    ∙ snoc w.output (concat w.batch) (concat w.queue.pending) x bytes h)
result-Keeps w x bytes _ (is_accepted o) (once_closed lost p h) = absurd (Bool-clash p o)
