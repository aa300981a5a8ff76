-- ===== src/Transcript/Reopen.antt =====
-- src/transcript.rs, `open_with_recovery`: opening a journal again after it was closed or cut short.
use mult.Base.{
  ◌-◌, take-append_exact, ℕ, ◌+◌, ◌≤◌, ◌≡◌, refl, sym, ◌∙◌, ap, subst, true, false, Option, List,
  [], ◌∷◌, ◌++◌, arith, length, is_empty, ◌==◌, if◌then◌else◌, length-append, inl, inr, ltb,
}
use mathlib.Core.List.{append-nil}
use mult.Base.OrdSet.{contains}
use mult.Base.Find.{last}
use mult.Base.Result.{ok, err}
use mult.Protocol.Ids.{SessionIdentity}
use mult.Transcript.{
  TranscriptRecord, TranscriptJournal, TranscriptRecovery, refuse, truncate_partial_tail,
  incomplete_record, max_transcript_file_bytes, line_feed, lines, recovered, read_and_recover,
  next_after, opened, open_with_recovery,
}
use mult.Transcript.Lines.{IsCodec, Written, Written-read, Written-last}
use mult.Transcript.Appends.{IsJournal}

module _ (encode : TranscriptRecord → Option (List ℕ))
    (decode : List ℕ → Option TranscriptRecord) where
  next_after-empty : next_after decode [] ≡ ok 1
  unfolding next_after last
  next_after-empty = refl

  next_after-Written :
      (owner : SessionIdentity) {rs : List TranscriptRecord} {bytes : List ℕ}
      → Written encode decode owner 1 rs bytes
      → next_after decode rs ≡ ok (1 + length rs)
  unfolding next_after
  next_after-Written owner {rs} written = elim (Written-last encode decode owner written) [
    | inl none_left ↦
        subst (λ l. next_after decode l ≡ ok (1 + length l)) (sym none_left) next_after-empty
    | inr (l, there, next) ↦ rw (next_after, there, next) refl
  ]

  -- Reading a file that begins with the journal's bytes.
  read_and_recover-tail :
      (j : TranscriptJournal) (tail : List ℕ)
      → IsCodec encode decode
      → IsJournal encode decode j
      → contains line_feed tail ≡ false
      → length (j.file ++ tail) ≤ max_transcript_file_bytes
      → (how : TranscriptRecovery)
      → read_and_recover decode (j.file ++ tail) j.identity how
        ≡ recovered decode (j.file ++ tail) how j.records (length j.file)
  unfolding read_and_recover
  read_and_recover-tail j tail codec h free small how =
      let (read, left) = Written-read encode decode j.identity tail codec free h.on_file in
      rw (in_size, read) (ap (recovered decode (j.file ++ tail) how j.records) (size left))
    where
      in_size : ltb max_transcript_file_bytes (length (j.file ++ tail)) ≡ false
      in_size = ground (arith, small)

      size :
          (lines (j.file ++ tail)).1 ≡ tail
          → length (j.file ++ tail) - length (lines (j.file ++ tail)).1 ≡ length j.file
      size left = rw left (omega (arith, length-append j.file tail))

  opened-records :
      (j : TranscriptJournal)
      → IsJournal encode decode j
      → opened decode j.identity (ok (j.records, length j.file), j.file) ≡ ok j
  unfolding opened
  opened-records j h =
      rw (next_after-Written j.identity h.on_file, sym h.numbered, sym h.measured) refl

  recovered-nothing :
      (file : List ℕ) (records : List TranscriptRecord) (how : TranscriptRecovery)
      → recovered decode (file ++ []) how records (length file) ≡ (ok (records, length file), file)
  unfolding recovered
  recovered-nothing file records how =
      subst (λ f. recovered decode f how records (length file) ≡ (ok (records, length file), file))
        (sym (append-nil file)) (rw itself refl)
    where
      itself : (length file == length file) ≡ true
      itself = ground arith

  longer : (file tail : List ℕ) (b : ℕ) → (length file == length (file ++ b ∷ tail)) ≡ false
  longer file tail b = ground (arith, length-append file (b ∷ tail))

  opened-truncated :
      (j : TranscriptJournal) (tail : List ℕ)
      → IsJournal encode decode j
      → opened decode j.identity
          (recovered decode (j.file ++ tail) truncate_partial_tail j.records (length j.file))
        ≡ ok j
  unfolding recovered
  opened-truncated j [] h =
      ap (opened decode j.identity) (recovered-nothing j.file j.records truncate_partial_tail)
      ∙ opened-records j h
  opened-truncated j (b ∷ tail) h =
      rw (longer j.file tail b, take-append_exact (length j.file) j.file (b ∷ tail) refl)
        (opened-records j h)

  opened-refused :
      (j : TranscriptJournal) (tail : List ℕ)
      → IsJournal encode decode j
      → opened decode j.identity
          (recovered decode (j.file ++ tail) refuse j.records (length j.file))
        ≡ (if is_empty tail then ok j else err incomplete_record)
  unfolding recovered opened
  opened-refused j [] h =
      ap (opened decode j.identity) (recovered-nothing j.file j.records refuse) ∙ opened-records j h
  opened-refused j (b ∷ tail) h = rw (longer j.file tail b) refl

  -- Take a codec whose encodings are decoded, are not empty and have no line feed, a journal that is
  -- what its file says, and the start of a record that was cut off after it: bytes without a line
  -- feed, with which the file is not over its bound. Opening the file with the partial tail truncated
  -- gives the journal back; opening it without gives the journal back when nothing was cut off, and
  -- is refused as incomplete otherwise.
  pub crash_recovers :
      (j : TranscriptJournal) (tail : List ℕ)
      → IsCodec encode decode
      → IsJournal encode decode j
      → contains line_feed tail ≡ false
      → length (j.file ++ tail) ≤ max_transcript_file_bytes
      → (open_with_recovery decode (j.file ++ tail) j.identity truncate_partial_tail ≡ ok j)
        × (open_with_recovery decode (j.file ++ tail) j.identity refuse
            ≡ (if is_empty tail then ok j else err incomplete_record))
  unfolding open_with_recovery
  crash_recovers j tail codec h free small = (
    ap (opened decode j.identity)
          (read_and_recover-tail j tail codec h free small truncate_partial_tail)
        ∙ opened-truncated j tail h,
    ap (opened decode j.identity) (read_and_recover-tail j tail codec h free small refuse)
        ∙ opened-refused j tail h,
  )
