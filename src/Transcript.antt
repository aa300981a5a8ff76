-- ===== src/Transcript.antt =====
-- src/transcript.rs: the append-only journal of a session's messages. A file is its bytes; the JSON
-- encoding of a record is a parameter. How a write or its sync ends is an argument of `append`.
pub mod Lines
pub mod Appends
pub mod Reopen
pub mod Tests
use mult.Base.{
  ℕ, suc, ◌+◌, ◌-◌, ◌*◌, Bool, true, false, not, ◌&&◌, ◌||◌, Option, none, some, List, [], ◌∷◌,
  ◌++◌, length, take, is_empty, ltb, ◌==◌, if◌then◌else◌,
}
use mult.Base.Find.{push, last}
use mult.Base.Result.{Result, ok, err, ◌>>=◌, ◌>>◌, ok_or}
use mult.Protocol.Ids.{SessionIdentity, identity_beq, checked_add}
use mult.Model.Data.{Text, ChatMessageRole}

abbrev pub transcript_record_version : ℕ
transcript_record_version = 1

abbrev pub max_transcript_record_bytes : ℕ
max_transcript_record_bytes = 1024 * 1024

abbrev pub max_transcript_file_bytes : ℕ
max_transcript_file_bytes = 64 * 1024 * 1024

pub record TranscriptRecord : Type 0 where
  pub version : ℕ
  pub identity : SessionIdentity
  pub sequence : ℕ
  pub role : ChatMessageRole
  pub text : Text

pub record TranscriptJournal : Type 0 where
  pub identity : SessionIdentity
  pub file : List ℕ
  pub records : List TranscriptRecord
  pub next_sequence : ℕ
  pub bytes : ℕ

pub data TranscriptRecovery : Type 0 where
  refuse : TranscriptRecovery
  truncate_partial_tail : TranscriptRecovery

pub data TranscriptError : Type 0 where
  not_encoded : TranscriptError
  oversized_record : TranscriptError
  size_overflow : TranscriptError
  storage_full : TranscriptError
  write_error : TranscriptError
  sequence_exhausted : TranscriptError
  oversized_file : TranscriptError
  empty_or_oversized : TranscriptError
  not_decoded : TranscriptError
  unsupported_version : TranscriptError
  other_identity : TranscriptError
  sequence_gap : TranscriptError
  incomplete_record : TranscriptError

-- How `write_all` and `sync_data` end: in full, after some bytes, or with the sync failed.
pub data WriteOutcome : Type 0 where
  synced : WriteOutcome
  write_failed : ℕ → WriteOutcome
  sync_failed : WriteOutcome

abbrev pub line_feed : ℕ
line_feed = 10

unfoldable pub ensure : Bool → TranscriptError → Result TranscriptError (Unit {0})
ensure true e = ok tt
ensure false e = err e

abbrev pub new_record : TranscriptJournal → ChatMessageRole → Text → TranscriptRecord
new_record j author words = record {
  version = transcript_record_version;
  identity = j.identity;
  sequence = j.next_sequence;
  role = author;
  text = words;
}

-- One byte before lines and a rest.
unfoldable pub with_byte : ℕ → List (List ℕ) × List ℕ → List (List ℕ) × List ℕ
with_byte b ([], tail) = if b == line_feed then ([] ∷ [], tail) else ([], b ∷ tail)
with_byte b (l ∷ ls, tail) = if b == line_feed then ([] ∷ l ∷ ls, tail) else ((b ∷ l) ∷ ls, tail)

-- The lines that a line feed ends, and the bytes after the last one.
unfoldable pub lines : List ℕ → List (List ℕ) × List ℕ
lines [] = ([], [])
lines (byte ∷ bytes) = with_byte byte (lines bytes)

module _ (encode : TranscriptRecord → Option (List ℕ)) where
  -- The end of `append`, when the record is in the file.
  unfoldable pub recorded :
      TranscriptJournal
      → TranscriptRecord
      → ℕ
      → List ℕ
      → TranscriptJournal × Result TranscriptError ℕ
  recorded j r new_size contents = elim (checked_add j.next_sequence 1) [
    | none ↦ (record j { file = contents; records = push r j.records }, err sequence_exhausted)
    | some next ↦ (
      record j {
        file = contents;
        records = push r j.records;
        next_sequence = next;
        bytes = new_size;
      },
      ok j.next_sequence,
    )
  ]

  unfoldable pub write :
      TranscriptJournal
      → TranscriptRecord
      → ℕ
      → List ℕ
      → WriteOutcome
      → TranscriptJournal × Result TranscriptError ℕ
  write j r new_size encoded synced = recorded j r new_size (j.file ++ encoded)
  write j r new_size encoded (write_failed written) =
      (record j { file = j.file ++ take written encoded }, err write_error)
  write j r new_size encoded sync_failed = (record j { file = j.file ++ encoded }, err write_error)

  -- The checks of sizes, in the source's order.
  unfoldable pub append_encoded :
      TranscriptJournal
      → TranscriptRecord
      → List ℕ
      → WriteOutcome
      → TranscriptJournal × Result TranscriptError ℕ
  append_encoded j r encoded outcome =
      if ltb max_transcript_record_bytes (length encoded)
      then (j, err oversized_record)
      else elim (checked_add j.bytes (length encoded)) [
        | none ↦ (j, err size_overflow)
        | some new_size ↦
            if ltb max_transcript_file_bytes new_size
            then (j, err storage_full)
            else write j r new_size encoded outcome
      ]

  unfoldable pub append :
      TranscriptJournal
      → ChatMessageRole
      → Text
      → WriteOutcome
      → TranscriptJournal × Result TranscriptError ℕ
  append j author words outcome = elim (encode (new_record j author words)) [
    | none ↦ (j, err not_encoded)
    | some encoded ↦
        append_encoded j (new_record j author words) (encoded ++ line_feed ∷ []) outcome
  ]

module _ (decode : List ℕ → Option TranscriptRecord) where
  -- The checks of one record, in the source's order, and the next sequence number.
  unfoldable pub check_record : SessionIdentity → ℕ → TranscriptRecord → Result TranscriptError ℕ
  check_record identity expected r =
      ensure (r.version == transcript_record_version) unsupported_version
      >> ensure (identity_beq r.identity identity) other_identity
      >> ensure (r.sequence == expected) sequence_gap
      >> ok_or (checked_add expected 1) sequence_exhausted

  unfoldable pub decode_line : List ℕ → Result TranscriptError TranscriptRecord
  decode_line encoded =
      if is_empty encoded || ltb max_transcript_record_bytes (length encoded + 1)
      then err empty_or_oversized
      else ok_or (decode encoded) not_decoded

  unfoldable pub read_records :
      SessionIdentity → ℕ → List (List ℕ) → Result TranscriptError (List TranscriptRecord)
  read_records identity expected [] = ok []
  read_records identity expected (encoded ∷ rest) = decode_line encoded >>= λ r.
      check_record identity expected r >>= λ next.
      read_records identity next rest >>= λ rs. ok (r ∷ rs)

  -- The records, the bytes that they take and the file that is left.
  unfoldable pub recovered :
      List ℕ
      → TranscriptRecovery
      → List TranscriptRecord
      → ℕ
      → Result TranscriptError (List TranscriptRecord × ℕ) × List ℕ
  recovered file recovery records last_complete =
      if last_complete == length file then (ok (records, last_complete), file) else elim recovery [
        | refuse ↦ (err incomplete_record, file)
        | truncate_partial_tail ↦ (ok (records, last_complete), take last_complete file)
      ]

  unfoldable pub read_and_recover :
      List ℕ
      → SessionIdentity
      → TranscriptRecovery
      → Result TranscriptError (List TranscriptRecord × ℕ) × List ℕ
  read_and_recover file identity recovery =
      if ltb max_transcript_file_bytes (length file)
      then (err oversized_file, file)
      else elim (read_records identity 1 (lines file).0) [
        | err e ↦ (err e, file)
        | ok records ↦ recovered file recovery records (length file - length (lines file).1)
      ]

  -- The next sequence number from the last record.
  unfoldable pub next_after : List TranscriptRecord → Result TranscriptError ℕ
  next_after records = elim (last records) [
    | none ↦ ok 1
    | some r ↦ ok_or (checked_add r.sequence 1) sequence_exhausted
  ]

  unfoldable pub opened :
      SessionIdentity
      → Result TranscriptError (List TranscriptRecord × ℕ) × List ℕ
      → Result TranscriptError TranscriptJournal
  opened owner (err e, contents) = err e
  opened owner (ok (rs, n), contents) = next_after rs >>= λ next.
      ok (record {
        identity = owner;
        file = contents;
        records = rs;
        next_sequence = next;
        bytes = n;
      })

  unfoldable pub open_with_recovery :
      List ℕ → SessionIdentity → TranscriptRecovery → Result TranscriptError TranscriptJournal
  open_with_recovery file identity recovery =
      opened identity (read_and_recover file identity recovery)
