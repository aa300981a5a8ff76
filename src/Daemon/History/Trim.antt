-- ===== src/Daemon/History/Trim.antt =====
-- `RawHistory::append` and `trim_to` keep the newest bytes, up to the limit.
use mathlib.Core.List.{append_assoc, append-nil}
use mult.Base.{
  ℕ, ◌+◌, ◌-◌, ◌≤◌, ◌<◌, ◌≡◌, refl, sym, ap, ◌∙◌, inl, inr, List, [], ◌∷◌, ◌++◌, arith, Bool-cases,
  length, drop, concat, All, ltb, ◌==◌, ==→eq, ltb→lt, ltb_false→le, length-append, drop-drop,
  drop-append_le, drop-append_ge, concat-append, All-append,
}
use mult.Base.Chunks.{IsPiece}
use mult.Daemon.History.{
  Bytes, RawHistory, raw_history_chunk_bytes, push_back, push_all, trim_loop, trim_to, contents,
  IsWithin, IsValid,
}

-- What a round of dropping gives: the rest of the bytes, counted, in a valid history.
pub record Trims (before : Bytes) (remaining dropped : ℕ) (r : RawHistory × ℕ) : Type 0 where
  pub kept : contents r.0 ≡ drop remaining before
  pub count : r.1 ≡ dropped + remaining
  pub valid : IsValid r.0

abbrev State : List Bytes → ℕ → ℕ → RawHistory
State chunks offset len = record { chunks = chunks; front_offset = offset; len = len }

IsWithin-zero :
    (chunks : List Bytes) → All (IsPiece raw_history_chunk_bytes) chunks → IsWithin 0 chunks
IsWithin-zero [] a = refl
IsWithin-zero (front ∷ rest) a = a.0.0

module _ (front : Bytes) (rest : List Bytes) (offset len remaining dropped : ℕ)
    (v : IsValid (State (front ∷ rest) offset len)) (h : remaining ≤ len) where
  trim_none :
      remaining ≡ 0
      → Trims
          (contents (State (front ∷ rest) offset len))
          remaining
          dropped
          (State (front ∷ rest) offset len, dropped)
  trim_none e = record { kept = rw e refl; count = omega arith; valid = v }

  trim_part :
      remaining < length front - offset
      → Trims
          (contents (State (front ∷ rest) offset len))
          remaining
          dropped
          (State (front ∷ rest) (offset + remaining) (len - remaining), dropped + remaining)
  unfolding contents
  trim_part less = record {
    kept = sym (drop-drop remaining offset (front ++ concat rest));
    count = refl;
    valid = record { counted = omega arith; within = omega arith; framed = v.framed };
  }

  trim_rest :
      length front - offset ≤ remaining → IsValid (State rest 0 (len - (length front - offset)))
  trim_rest more = record {
    counted = omega (arith, length-append front (concat rest));
    within = IsWithin-zero rest v.framed.1;
    framed = v.framed.1;
  }

  trim_whole :
      (r : RawHistory × ℕ)
      → length front - offset ≤ remaining
      → Trims
          (contents (State rest 0 (len - (length front - offset))))
          (remaining - (length front - offset))
          (dropped + (length front - offset))
          r
      → Trims (contents (State (front ∷ rest) offset len)) remaining dropped r
  unfolding contents
  trim_whole r more t = record {
    kept =
        t.kept
        ∙ ap (λ k. drop k (concat rest)) (omega arith)
        ∙ sym (drop-append_ge (offset + remaining) front (concat rest) (omega arith))
        ∙ sym (drop-drop remaining offset (front ++ concat rest));
    count = omega (arith, t.count);
    valid = t.valid;
  }

trim_loop-Trims :
    (chunks : List Bytes) (offset len remaining dropped : ℕ)
    → IsValid (State chunks offset len)
    → remaining ≤ len
    → Trims
        (contents (State chunks offset len))
        remaining
        dropped
        (trim_loop chunks offset len remaining dropped)
unfolding trim_loop
trim_loop-Trims [] offset len remaining dropped v h = record {
  kept = let e : remaining ≡ 0 = omega arith in rw e refl;
  count = omega arith;
  valid = v;
}
trim_loop-Trims (front ∷ rest) offset len remaining dropped v h =
    elim (Bool-cases (remaining == 0)) [
      | inl none_left ↦
          rw none_left (trim_none front rest offset len remaining dropped v h (==→eq _ _ none_left))
      | inr more ↦ elim (Bool-cases (ltb remaining (length front - offset))) [
        | inl part ↦
            rw (more, part)
              (trim_part front rest offset len remaining dropped v h (ltb→lt _ _ part))
        | inr whole ↦
            let le = ltb_false→le _ _ whole in
            rw (more, whole)
              (trim_whole front rest offset len remaining dropped v h _ le (
                trim_loop-Trims rest 0 (len - (length front - offset))
                  (remaining - (length front - offset)) (dropped + (length front - offset))
                  (trim_rest front rest offset len remaining dropped v h le) (omega (arith, le))))
      ]
    ]

pub trim_to-Trims :
    (h : RawHistory) (limit : ℕ)
    → IsValid h
    → Trims (contents h) (h.len - limit) 0 (trim_to h limit)
unfolding trim_to
trim_to-Trims h limit v =
    trim_loop-Trims h.chunks h.front_offset h.len (h.len - limit) 0 v (omega arith)

-- Growing at the back: the bytes are appended, and the history stays valid.
pub record Grows (h : RawHistory) (bytes : Bytes) (g : RawHistory) : Type 0 where
  pub kept : contents g ≡ contents h ++ bytes
  pub count : g.len ≡ h.len + length bytes
  pub valid : IsValid g

offset_le :
    (chunks : List Bytes) (offset : ℕ) → IsWithin offset chunks → offset ≤ length (concat chunks)
offset_le [] offset w = omega arith
offset_le (front ∷ rest) offset w = omega (arith, length-append front (concat rest))

IsWithin-back :
    (chunks : List Bytes) (offset : ℕ) (piece : Bytes)
    → IsWithin offset chunks
    → 0 < length piece
    → IsWithin offset (chunks ++ piece ∷ [])
IsWithin-back [] offset piece w p = omega arith
IsWithin-back (front ∷ rest) offset piece w p = w

concat-back :
    (chunks : List Bytes) (piece : Bytes) → concat (chunks ++ piece ∷ []) ≡ concat chunks ++ piece
concat-back chunks piece =
    concat-append chunks (piece ∷ []) ∙ ap (◌++◌ (concat chunks)) (append-nil piece)

pub push_back-Grows :
    (h : RawHistory) (piece : Bytes)
    → IsValid h
    → IsPiece raw_history_chunk_bytes piece
    → Grows h piece (push_back h piece)
unfolding push_back contents
push_back-Grows h piece v p = record {
  kept = rw (concat-back h.chunks piece) (
      drop-append_le h.front_offset (concat h.chunks) piece
        (offset_le h.chunks h.front_offset v.within));
  count = refl;
  valid = record {
    counted = omega (
      arith,
      v.counted,
      ap length (concat-back h.chunks piece),
      length-append (concat h.chunks) piece,
    );
    within = IsWithin-back h.chunks h.front_offset piece v.within p.0;
    framed = All-append (IsPiece raw_history_chunk_bytes) h.chunks (piece ∷ []) v.framed (p, tt);
  };
}

pub push_all-Grows :
    (h : RawHistory) (pieces : List Bytes)
    → IsValid h
    → All (IsPiece raw_history_chunk_bytes) pieces
    → Grows h (concat pieces) (push_all h pieces)
unfolding push_all
push_all-Grows h [] v a = record { kept = sym (append-nil _); count = omega arith; valid = v }
push_all-Grows h (piece ∷ pieces) v a =
    let first = push_back-Grows h piece v a.0 in
    let others = push_all-Grows (push_back h piece) pieces first.valid a.1 in
    record {
      kept =
          others.kept
          ∙ ap (λ t. t ++ concat pieces) first.kept
          ∙ append_assoc (contents h) piece (concat pieces);
      count = omega (arith, others.count, first.count, length-append piece (concat pieces));
      valid = others.valid;
    }
