-- ===== src/Daemon/History/Tests.antt =====
-- The retained history at concrete inputs.
use mult.Base.{◌+◌, ◌-◌, ◌≡◌, refl, [], ◌∷◌, ◌++◌, arith, drop}
use mult.Base.Chunks.{chunks_of}
use mult.Daemon.History.{
  RawHistory, Bytes, raw_history_chunk_bytes, append, contents, replay_chunks, IsValid,
}
use mult.Daemon.History.Append.{append-contents}
use mult.Daemon.History.Replay.{replay_chunks-eq-chunks_of}

-- Three chunks, the first byte of the front one already dropped.
abbrev pub sample : RawHistory
sample = record { chunks = (1 ∷ 2 ∷ []) ∷ (3 ∷ []) ∷ (4 ∷ 5 ∷ []) ∷ []; front_offset = 1; len = 4 }

pub sample-IsValid : IsValid sample
sample-IsValid = record { counted = refl; within = omega arith; framed = omega arith }

abbrev news : Bytes
news = 6 ∷ 7 ∷ []

append_runs :
    (append sample news 3).0
    ≡ record { chunks = (4 ∷ 5 ∷ []) ∷ (6 ∷ 7 ∷ []) ∷ []; front_offset = 1; len = 3 }
unfolding append
append_runs = refl

append-contents_example :
    (contents (append sample news 3).0 ≡ drop (append sample news 3).1 (contents sample ++ news))
    × ((append sample news 3).1 ≡ 4 + 2 - 3)
    × IsValid (append sample news 3).0
append-contents_example = append-contents sample news 3 sample-IsValid

replay_chunks-eq-chunks_of_example :
    replay_chunks sample ≡ chunks_of raw_history_chunk_bytes (contents sample)
replay_chunks-eq-chunks_of_example = replay_chunks-eq-chunks_of sample sample-IsValid
