-- ===== src/Daemon/History/Replay.antt =====
-- `RawHistory::replay_chunks` coalesces the retained chunks into frames of the chunk size.
use mathlib.Core.List.{append_assoc, append-nil}
use mult.Base.{
  ℕ, zero, suc, ◌+◌, ◌-◌, ◌≤◌, ◌<◌, min, ◌≡◌, refl, sym, ap, ◌∙◌, subst, inl, inr, true, false,
  ◌&&◌, List, [], ◌∷◌, ◌++◌, arith, Bool-cases, length, is_empty, take, drop, concat, ltb, ◌==◌,
  if◌then◌else◌, ==→eq, length-append, length-take, length-drop, take-append-drop, drop-append_le,
  All, ◌*◌,
}
use mult.Base.Chunks.{
  chunks_of, chunks_of-append, chunks_of-short, chunks_of-nil, IsPiece, concat-chunks_of,
  chunks_of-IsPiece, length-chunks_of,
}
use mult.Daemon.History.Append.{len-contents}
use mult.Daemon.History.{
  Bytes, RawHistory, raw_history_chunk_bytes, flush, fill, replay_loop, slices, replay_chunks,
  contents, IsWithin, IsValid,
}

module _ (size : ℕ) (p : 0 < size) where
  -- The bytes read so far are the frames sent and what is pending, whatever follows.
  record Framed (total : Bytes) (out : List Bytes) (pending : Bytes) : Type 0 where
    short : length pending < size
    frames :
        (rest : Bytes) → chunks_of size (total ++ rest) ≡ out ++ chunks_of size (pending ++ rest)

  Framed-eq :
      {total other pending : Bytes} {out : List Bytes}
      → total ≡ other
      → Framed total out pending
      → Framed other out pending
  Framed-eq {pending = pending} {out = out} e f = subst (λ t. Framed t out pending) e f

  Framed-nil : Framed [] [] []
  Framed-nil = record { short = p; frames = λ rest. refl }

  flush-cons :
      (pending : Bytes) (out : List Bytes)
      → 0 < length pending
      → flush pending out ≡ out ++ pending ∷ []
  unfolding flush
  flush-cons [] out h = absurd (omega arith)
  flush-cons (b ∷ pending) out h = refl

  -- More bytes, too few to fill the frame.
  Framed-extend :
      (total piece : Bytes) (out : List Bytes) (pending : Bytes)
      → Framed total out pending
      → length pending + length piece < size
      → Framed (total ++ piece) out (pending ++ piece)
  Framed-extend total piece out pending f h = record {
    short = omega (arith, length-append pending piece);
    frames = λ rest. rw (append_assoc, append_assoc) (f.frames (piece ++ rest));
  }

  -- More bytes, which fill the frame.
  Framed-full :
      (total piece : Bytes) (out : List Bytes) (pending : Bytes)
      → Framed total out pending
      → length (pending ++ piece) ≡ size
      → Framed (total ++ piece) (flush (pending ++ piece) out) []
  Framed-full total piece out pending f h = record {
    short = p;
    frames = λ rest.
        ap (chunks_of size) (append_assoc total piece rest)
        ∙ f.frames (piece ++ rest)
        ∙ ap (λ t. out ++ chunks_of size t) (sym (append_assoc pending piece rest))
        ∙ ap (◌++◌ out) (chunks_of-append size (pending ++ piece) rest p h)
        ∙ sym (append_assoc out ((pending ++ piece) ∷ []) (chunks_of size rest))
        ∙ ap (λ t. t ++ chunks_of size rest)
            (sym (flush-cons (pending ++ piece) out (omega arith)));
  }

  Framed-step :
      (total piece : Bytes) (out : List Bytes) (pending : Bytes)
      → Framed total out pending
      → length pending + length piece ≤ size
      → Framed
          (total ++ piece)
          (if length (pending ++ piece) == size then flush (pending ++ piece) out else out)
          (if length (pending ++ piece) == size then [] else pending ++ piece)
  Framed-step total piece out pending f h = elim (Bool-cases (length (pending ++ piece) == size)) [
    | inl full ↦ rw full (Framed-full total piece out pending f (==→eq _ _ full))
    | inr part ↦
        rw part (
          Framed-extend total piece out pending f
            (below_of_ne (length-append pending piece) h part))
  ]
    where
      below_of_ne : {a b c : ℕ} → a ≡ b → b ≤ c → (a == c) ≡ false → b < c
      below_of_ne e le ne = ground arith

  fill-Framed :
      (fuel : ℕ) (total pending rest : Bytes) (out : List Bytes)
      → length rest ≤ fuel
      → Framed total out pending
      → Framed
          (total ++ rest)
          (fill fuel size pending rest out).0
          (fill fuel size pending rest out).1
  unfolding fill
  fill-Framed zero total pending [] out h f = rw append-nil f
  fill-Framed zero total pending (b ∷ rest) out h f = absurd (omega arith)
  fill-Framed (suc fuel) total pending [] out h f = rw append-nil f
  fill-Framed (suc fuel) total pending (b ∷ rest) out h f =
      let n = min (size - length pending) (length (b ∷ rest)) in
      let d = length-drop n (b ∷ rest) in
      Framed-eq
        (append_assoc total (take n (b ∷ rest)) (drop n (b ∷ rest))
          ∙ ap (◌++◌ total) (take-append-drop n (b ∷ rest)))
        (fill-Framed fuel (total ++ take n (b ∷ rest)) _ (drop n (b ∷ rest)) _
          (omega (arith, d, f.short))
          (Framed-step total (take n (b ∷ rest)) out pending f
            (omega (arith, f.short, length-take n (b ∷ rest)))))

  flush-frames :
      (pending : Bytes) (out : List Bytes)
      → length pending < size
      → flush pending out ≡ out ++ chunks_of size (pending ++ [])
  unfolding flush
  flush-frames [] out h = sym (append-nil out) ∙ ap (◌++◌ out) (sym (chunks_of-nil size))
  flush-frames (b ∷ pending) out h =
      rw append-nil
        (ap (◌++◌ out) (sym (chunks_of-short size (b ∷ pending) (omega arith) (omega arith))))

  -- One slice of the outer loop, shared whole or copied.
  next-Framed :
      (slice total pending : Bytes) (out : List Bytes) (next : List Bytes × Bytes)
      → Framed total out pending
      → next ≡ (
          if is_empty pending && (length slice == size)
          then (out ++ slice ∷ [], pending)
          else fill (length slice) size pending slice out)
      → Framed (total ++ slice) next.0 next.1
  next-Framed slice total [] out next f e = elim (Bool-cases (length slice == size)) [
    | inl full ↦
        rw (e, full)
          (subst (λ t. Framed (total ++ slice) t [])
            (flush-cons slice out (omega (arith, ==→eq _ _ full)))
            (Framed-full total slice out [] f (==→eq _ _ full)))
    | inr part ↦ rw (e, part) (fill-Framed (length slice) total [] slice out (omega arith) f)
  ]
  next-Framed slice total (b ∷ pending) out next f e =
      rw e (fill-Framed (length slice) total (b ∷ pending) slice out (omega arith) f)

  replay_loop-Framed :
      (slices : List Bytes) (total pending : Bytes) (out : List Bytes)
      → Framed total out pending
      → replay_loop size slices pending out ≡ chunks_of size (total ++ concat slices)
  unfolding replay_loop
  replay_loop-Framed [] total pending out f = flush-frames pending out f.short ∙ sym (f.frames [])
  replay_loop-Framed (slice ∷ slices) total pending out f =
      replay_loop-Framed slices (total ++ slice) _ _ (next-Framed slice total pending out _ f refl)
      ∙ ap (chunks_of size) (append_assoc total slice (concat slices))

concat-slices :
    (offset : ℕ) (chunks : List Bytes)
    → IsWithin offset chunks
    → concat (slices offset chunks) ≡ drop offset (concat chunks)
unfolding slices
concat-slices offset [] w = rw w refl
concat-slices zero (front ∷ rest) w = refl
concat-slices (suc offset) (front ∷ rest) w =
    rw (trimmed offset) (sym (drop-append_le (suc offset) front (concat rest) (omega arith)))
  where
    trimmed : (n : ℕ) → ltb 0 (suc n) ≡ true
    trimmed n = ground arith

-- Whatever pieces the history was written in, the frames that a valid history replays are its
-- retained bytes cut every `raw_history_chunk_bytes`, only the last frame shorter.
pub replay_chunks-eq-chunks_of :
    (h : RawHistory) → IsValid h → replay_chunks h ≡ chunks_of raw_history_chunk_bytes (contents h)
unfolding replay_chunks contents
replay_chunks-eq-chunks_of h v =
    replay_loop-Framed raw_history_chunk_bytes (omega arith) (slices h.front_offset h.chunks) [] []
      [] (Framed-nil raw_history_chunk_bytes (omega arith))
    ∙ ap (chunks_of raw_history_chunk_bytes) (concat-slices h.front_offset h.chunks v.within)

-- The frames that a valid history replays hold exactly its retained bytes, none is empty or longer
-- than the chunk size, and there are as many as the retained bytes divided by it, rounded up.
pub replay_chunks_lem :
    (h : RawHistory)
    → IsValid h
    → (concat (replay_chunks h) ≡ contents h)
      × All (IsPiece raw_history_chunk_bytes) (replay_chunks h)
      × (h.len ≤ length (replay_chunks h) * raw_history_chunk_bytes)
      × (length (replay_chunks h) * raw_history_chunk_bytes < h.len + raw_history_chunk_bytes)
replay_chunks_lem h v = rw (replay_chunks-eq-chunks_of h v) (
  concat-chunks_of raw_history_chunk_bytes (contents h) (omega arith),
  chunks_of-IsPiece raw_history_chunk_bytes (contents h) (omega arith),
  omega (
    arith,
    len-contents h v,
    length-chunks_of raw_history_chunk_bytes (contents h) (omega arith),
  ),
  omega (
    arith,
    len-contents h v,
    length-chunks_of raw_history_chunk_bytes (contents h) (omega arith),
  ),
)
