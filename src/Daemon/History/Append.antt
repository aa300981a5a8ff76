-- ===== src/Daemon/History/Append.antt =====
-- `RawHistory::append` as a whole: the new bytes at the back, the oldest dropped beyond the limit.
use mult.Base.{
  ◌+◌, ◌-◌, ◌≤◌, ◌≡◌, sym, ap, subst, ◌∙◌, inl, inr, ◌++◌, [], ◌∷◌, arith, Bool-cases, length,
  is_empty, drop, leb, leb→le, if◌then◌else◌, length-drop, ℕ, concat,
}
use mathlib.Core.List.{append-nil}
use mult.Base.Chunks.{chunks_of, concat-chunks_of, chunks_of-IsPiece}
use mult.Daemon.History.{
  Bytes, RawHistory, raw_history_chunk_bytes, push_back, push_all, append, contents, IsValid,
}
use mult.Daemon.History.Trim.{Grows, push_back-Grows, push_all-Grows, trim_to-Trims}

-- `len` is the number of bytes that are retained.
pub len-contents : (h : RawHistory) → IsValid h → h.len ≡ length (contents h)
unfolding contents
len-contents h v = omega (arith, v.counted, length-drop h.front_offset (concat h.chunks))

whole-Grows :
    (h : RawHistory) (bytes : Bytes)
    → IsValid h
    → Grows h bytes (push_all h (chunks_of raw_history_chunk_bytes bytes))
whole-Grows h bytes v =
    subst (λ t. Grows h t (push_all h (chunks_of raw_history_chunk_bytes bytes)))
      (concat-chunks_of raw_history_chunk_bytes bytes (omega arith))
      (push_all-Grows h (chunks_of raw_history_chunk_bytes bytes) v
        (chunks_of-IsPiece raw_history_chunk_bytes bytes (omega arith)))

short-Grows :
    (h : RawHistory) (bytes : Bytes)
    → IsValid h
    → length bytes ≤ raw_history_chunk_bytes
    → Grows h bytes (if is_empty bytes then h else push_back h bytes)
short-Grows h [] v p = record {
  kept = sym (append-nil (contents h));
  count = omega arith;
  valid = v;
}
short-Grows h (b ∷ bytes) v p = push_back-Grows h (b ∷ bytes) v (omega arith, p)

extended-Grows :
    (h : RawHistory) (bytes : Bytes)
    → IsValid h
    → Grows h bytes (
        if leb (length bytes) raw_history_chunk_bytes
        then (if is_empty bytes then h else push_back h bytes)
        else push_all h (chunks_of raw_history_chunk_bytes bytes))
extended-Grows h bytes v = elim (Bool-cases (leb (length bytes) raw_history_chunk_bytes)) [
  | inl short ↦ rw short (short-Grows h bytes v (leb→le _ _ short))
  | inr long ↦ rw long (whole-Grows h bytes v)
]

-- Appending to a valid history keeps the suffix of what was retained and the new bytes that fits
-- the limit: the result says how many of the oldest bytes were dropped, which is exactly the
-- excess over the limit, and the history is valid again.
pub append-contents :
    (h : RawHistory) (bytes : Bytes) (limit : ℕ)
    → IsValid h
    → (contents (append h bytes limit).0 ≡ drop (append h bytes limit).1 (contents h ++ bytes))
      × ((append h bytes limit).1 ≡ h.len + length bytes - limit)
      × IsValid (append h bytes limit).0
unfolding append
append-contents h bytes limit v =
    let g = extended-Grows h bytes v in
    let t = trim_to-Trims _ limit g.valid in
    (
      t.kept ∙ ap (drop _) g.kept ∙ ap (λ k. drop k (contents h ++ bytes)) (omega (arith, t.count)),
      omega (arith, t.count, g.count),
      t.valid,
    )
