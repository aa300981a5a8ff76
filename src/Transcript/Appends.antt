-- ===== src/Transcript/Appends.antt =====
-- src/transcript.rs, `append`: what a record that is stored leaves behind.
use mult.Base.{
  ℕ, ◌+◌, ◌≤◌, ◌<◌, ◌≡◌, refl, Option, none, some, List, [], ◌∷◌, ◌++◌, arith, length,
  length-append, inl, inr, Bool-cases, ltb,
}
use mult.Base.Find.{push}
use mult.Base.Result.{Result, ok, err}
use mult.Protocol.Ids.{SessionIdentity, checked_add}
use mult.Model.Data.{Text, ChatMessageRole}
use mult.Transcript.{
  TranscriptRecord, TranscriptJournal, TranscriptError, synced, not_encoded, oversized_record,
  storage_full, max_transcript_record_bytes, max_transcript_file_bytes, line_feed, recorded, write,
  append_encoded, new_record, append,
}
use mult.Transcript.Lines.{IsEntry, Written, Written-push, nothing, then_line}

-- The journal is what its file says.
module _ (encode : TranscriptRecord → Option (List ℕ))
    (decode : List ℕ → Option TranscriptRecord) where
  pub record IsJournal (j : TranscriptJournal) : Type 0 where
    pub on_file : Written encode decode j.identity 1 j.records j.file
    pub numbered : j.next_sequence ≡ 1 + length j.records
    pub measured : j.bytes ≡ length j.file
    pub in_bounds : length j.file ≤ max_transcript_file_bytes

  -- What an append of a record does, when its write and its sync succeed: it is refused for a reason
  -- that holds, and the journal is unchanged, or it is the last record of the journal.
  pub data Append (j : TranscriptJournal) (r : TranscriptRecord)
      : TranscriptJournal × Result TranscriptError ℕ → Type 0 where
    unencoded : encode r ≡ none → Append j r (j, err not_encoded)
    oversized :
        (b : List ℕ)
        → encode r ≡ some b
        → max_transcript_record_bytes < length b + 1
        → Append j r (j, err oversized_record)
    full :
        (b : List ℕ)
        → encode r ≡ some b
        → max_transcript_file_bytes < length j.file + (length b + 1)
        → Append j r (j, err storage_full)
    stored :
        (k : TranscriptJournal)
        → IsJournal k
        → k.records ≡ push r j.records
        → k.identity ≡ j.identity
        → Append j r (k, ok j.next_sequence)

  -- Every record takes a byte or more.
  Written-bounds :
      (owner : SessionIdentity) {expected : ℕ} {rs : List TranscriptRecord} {bytes : List ℕ}
      → Written encode decode owner expected rs bytes
      → length rs ≤ length bytes
  Written-bounds owner (nothing expected) = omega arith
  Written-bounds owner (then_line expected r b rs rest entry more) =
      omega (arith, Written-bounds owner more, length-append b (line_feed ∷ rest))

  -- The record that `append` makes may stand after the others.
  new_record-IsEntry :
      (j : TranscriptJournal) (author : ChatMessageRole) (words : Text) (b : List ℕ)
      → IsJournal j
      → encode (new_record j author words) ≡ some b
      → length b + 1 ≤ max_transcript_record_bytes
      → IsEntry encode decode j.identity (1 + length j.records) (new_record j author words) b
  new_record-IsEntry j author words b h there fits = record {
    version = refl;
    identity = refl;
    sequence = h.numbered;
    encoding = there;
    fits = fits;
    follows = ground (arith, Written-bounds j.identity h.on_file, h.in_bounds);
  }

  append_encoded-Append :
      (j : TranscriptJournal) (author : ChatMessageRole) (words : Text) (b : List ℕ)
      → IsJournal j
      → encode (new_record j author words) ≡ some b
      → Append j
          (new_record j author words)
          (append_encoded encode j (new_record j author words) (b ++ line_feed ∷ []) synced)
  unfolding append_encoded write recorded
  append_encoded-Append j author words b h there =
      let size = length-append b (line_feed ∷ []) in
      elim (Bool-cases (ltb max_transcript_record_bytes (length (b ++ line_feed ∷ [])))) [
        | inl big ↦ rw big (oversized b there (ground (arith, size)))
        | inr small ↦
            elim (Bool-cases
              (ltb max_transcript_file_bytes (j.bytes + length (b ++ line_feed ∷ [])))) [
                | inl big ↦
                    rw (small, added (ground arith), big)
                      (full b there (ground (arith, size, h.measured)))
                | inr room ↦
                    rw (small, added (ground arith), room, recorded, counted)
                      (stored _ (appended (ground (arith, size)) (ground (arith, size, h.measured)))
                        refl refl)
              ]
      ]
    where
      added :
          length (b ++ line_feed ∷ []) ≤ max_transcript_record_bytes
          → checked_add j.bytes (length (b ++ line_feed ∷ []))
            ≡ some (j.bytes + length (b ++ line_feed ∷ []))
      added small = ground (arith, h.measured, h.in_bounds)

      counted : checked_add j.next_sequence 1 ≡ some (j.next_sequence + 1)
      counted = ground (arith, h.numbered, h.in_bounds, Written-bounds j.identity h.on_file)

      appended :
          length b + 1 ≤ max_transcript_record_bytes
          → length j.file + (length b + 1) ≤ max_transcript_file_bytes
          → IsJournal (record j {
            file = j.file ++ (b ++ line_feed ∷ []);
            records = push (new_record j author words) j.records;
            next_sequence = j.next_sequence + 1;
            bytes = j.bytes + length (b ++ line_feed ∷ []);
          })
      appended small room = record {
        on_file =
            Written-push encode decode j.identity _ b h.on_file
              (new_record-IsEntry j author words b h there small);
        numbered =
            omega (arith, h.numbered, length-append j.records (new_record j author words ∷ []));
        measured = omega (arith, h.measured, length-append j.file (b ++ line_feed ∷ []));
        in_bounds = omega (
          arith,
          room,
          length-append j.file (b ++ line_feed ∷ []),
          length-append b (line_feed ∷ []),
        );
      }

  -- An append to a journal that is what its file says, whose write and sync succeed, is refused for
  -- the record's lack of an encoding, its size or the file's size, with the journal unchanged; or it
  -- returns the journal's next number, the new record is the last, the identity is kept, and the
  -- journal is again what its file says.
  pub append-Append :
      (j : TranscriptJournal) (author : ChatMessageRole) (words : Text)
      → IsJournal j
      → Append j (new_record j author words) (append encode j author words synced)
  unfolding append
  append-Append j author words h = by_encoding (encode (new_record j author words)) refl
    where
      by_encoding :
          (found : Option (List ℕ))
          → encode (new_record j author words) ≡ found
          → Append j (new_record j author words) (append encode j author words synced)
      by_encoding none there = rw (append, there) (unencoded there)
      by_encoding (some b) there =
          rw (append, there) (append_encoded-Append j author words b h there)
