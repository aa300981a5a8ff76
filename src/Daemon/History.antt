-- ===== src/Daemon/History.antt =====
-- src/bin/mult-server.rs, `RawHistory`: the PTY output that a pane retains for attach replay, as a
-- deque of immutable chunks. A byte is a number; a deque is a list, its front first.
pub mod Trim
pub mod Append
pub mod Replay
pub mod Tests
use mult.Base.{
  ℕ, zero, suc, ◌+◌, ◌-◌, ◌*◌, ◌≤◌, ◌<◌, min, ◌≡◌, Bool, true, false, ◌&&◌, List, [], ◌∷◌, ◌++◌,
  length, is_empty, take, drop, concat, All, ltb, leb, ◌==◌, if◌then◌else◌,
}
use mult.Base.Chunks.{chunks_of, IsPiece}

abbrev pub Bytes : Type 0
Bytes = List ℕ

abbrev pub raw_history_scrollback_lines : ℕ
raw_history_scrollback_lines = 5000

abbrev pub raw_history_bytes_per_line : ℕ
raw_history_bytes_per_line = 512

abbrev pub raw_history_max_bytes : ℕ
raw_history_max_bytes = raw_history_scrollback_lines * raw_history_bytes_per_line

abbrev pub raw_history_chunk_bytes : ℕ
raw_history_chunk_bytes = 64 * 1024

pub record RawHistory : Type 0 where
  pub chunks : List Bytes
  pub front_offset : ℕ
  pub len : ℕ

unfoldable pub empty : RawHistory
empty = record { chunks = []; front_offset = 0; len = 0 }

pub push_back : RawHistory → Bytes → RawHistory
push_back h piece = record h { chunks = h.chunks ++ piece ∷ []; len = h.len + length piece }

pub push_all : RawHistory → List Bytes → RawHistory
push_all h [] = h
push_all h (piece ∷ pieces) = push_all (push_back h piece) pieces

-- The loop of `trim_to`, over the chunks, the offset, the length, and the counters.
pub trim_loop : List Bytes → ℕ → ℕ → ℕ → ℕ → RawHistory × ℕ
trim_loop [] offset len remaining dropped =
    (record { chunks = []; front_offset = offset; len = len }, dropped)
trim_loop (front ∷ rest) offset len remaining dropped =
    let available = length front - offset in
    if remaining == 0
    then (record { chunks = front ∷ rest; front_offset = offset; len = len }, dropped)
    else if ltb remaining available
    then (
      record { chunks = front ∷ rest; front_offset = offset + remaining; len = len - remaining },
      dropped + remaining,
    )
    else trim_loop rest 0 (len - available) (remaining - available) (dropped + available)

pub trim_to : RawHistory → ℕ → RawHistory × ℕ
unfolding trim_loop
trim_to h limit = trim_loop h.chunks h.front_offset h.len (h.len - limit) 0

-- The new history, and the number of bytes dropped.
pub append : RawHistory → Bytes → ℕ → RawHistory × ℕ
unfolding push_back push_all trim_to chunks_of
append h bytes limit =
    let extended =
      if leb (length bytes) raw_history_chunk_bytes
      then (if is_empty bytes then h else push_back h bytes)
      else push_all h (chunks_of raw_history_chunk_bytes bytes) in
    trim_to extended limit

pub flush : Bytes → List Bytes → List Bytes
flush pending out = if is_empty pending then out else out ++ pending ∷ []

-- The inner loop of `replay_chunks`. Each round takes one byte at least, so the length of `rest` is
-- fuel enough. The results are the frames and what is pending.
pub fill : ℕ → ℕ → Bytes → Bytes → List Bytes → List Bytes × Bytes
fill zero size pending rest out = (out, pending)
fill (suc fuel) size pending [] out = (out, pending)
fill (suc fuel) size pending (b ∷ rest) out =
    let n = min (size - length pending) (length (b ∷ rest)) in
    let extended = pending ++ take n (b ∷ rest) in
    let full = length extended == size in
    fill fuel size (if full then [] else extended) (drop n (b ∷ rest))
      (if full then flush extended out else out)

-- The outer loop, over the slices.
pub replay_loop : ℕ → List Bytes → Bytes → List Bytes → List Bytes
unfolding fill flush
replay_loop size [] pending out = flush pending out
replay_loop size (slice ∷ slices) pending out =
    let next : List Bytes × Bytes =
      if is_empty pending && (length slice == size)
      then (out ++ slice ∷ [], pending)
      else fill (length slice) size pending slice out in
    replay_loop size slices next.1 next.0

pub slices : ℕ → List Bytes → List Bytes
slices offset [] = []
slices offset (front ∷ rest) = (if ltb 0 offset then drop offset front else front) ∷ rest

unfoldable pub replay_chunks : RawHistory → List Bytes
unfolding slices replay_loop
replay_chunks h = replay_loop raw_history_chunk_bytes (slices h.front_offset h.chunks) [] []

-- The retained bytes, oldest first.
pub contents : RawHistory → Bytes
contents h = drop h.front_offset (concat h.chunks)

abbrev pub IsWithin : ℕ → List Bytes → Type 0
IsWithin offset [] = offset ≡ 0
IsWithin offset (front ∷ rest) = offset < length front

-- `len` counts the retained bytes, the offset falls in the front chunk, and each chunk is a frame.
pub record IsValid (h : RawHistory) : Type 0 where
  pub counted : h.front_offset + h.len ≡ length (concat h.chunks)
  pub within : IsWithin h.front_offset h.chunks
  pub framed : All (IsPiece raw_history_chunk_bytes) h.chunks
