-- ===== src/Transcript/Tests.antt =====
-- A journal of one message at concrete inputs, with a codec that writes each field as one byte.
use mult.Base.{
  ℕ, ◌+◌, ◌-◌, ◌≡◌, refl, ap, subst, false, Option, none, some, List, [], ◌∷◌, ◌++◌, map, arith,
  ◌==◌, if◌then◌else◌, is_empty,
}
use mult.Base.OrdSet.{contains}
use mult.Base.Result.{ok, err}
use mult.Model.Data.{ChatMessageRole, user, assistant, system, tool, failure}
use mult.Transcript.{
  TranscriptRecord, TranscriptJournal, refuse, truncate_partial_tail, incomplete_record, synced,
  line_feed, new_record, append, open_with_recovery,
}
use mult.Transcript.Lines.{IsCodec, nothing, then_line}
use mult.Transcript.Appends.{IsJournal, Append, append-Append}
use mult.Transcript.Reopen.{crash_recovers}

abbrev shifted : ℕ → ℕ
shifted n = n + 11

abbrev back : ℕ → ℕ
back n = n - 11

unfoldable role_byte : ChatMessageRole → ℕ
role_byte user = 1
role_byte assistant = 2
role_byte system = 3
role_byte tool = 4
role_byte failure = 5

abbrev role_of : ℕ → ChatMessageRole
role_of n =
    if n == 1
    then user
    else if n == 2
    then assistant
    else if n == 3
    then system
    else if n == 4
    then tool
    else failure

abbrev bytes_of : TranscriptRecord → List ℕ
bytes_of r =
    shifted r.version
    ∷ shifted r.identity.namespace
    ∷ shifted r.identity.token
    ∷ shifted r.sequence
    ∷ shifted (role_byte r.role)
    ∷ map shifted r.text

unfoldable encode_fields : TranscriptRecord → Option (List ℕ)
encode_fields r = some (bytes_of r)

unfoldable decode_fields : List ℕ → Option TranscriptRecord
decode_fields (a ∷ b ∷ c ∷ d ∷ e ∷ words) = some (record {
  version = back a;
  identity = record { namespace = back b; token = back c };
  sequence = back d;
  role = role_of (back e);
  text = map back words;
})
decode_fields _ = none

back-shifted : (n : ℕ) → back (shifted n) ≡ n
back-shifted n = omega arith

map-back : (words : List ℕ) → map back (map shifted words) ≡ words
map-back [] = refl
map-back (n ∷ words) = rw (map-back words) (ap (λ m. m ∷ words) (omega arith))

role_of-byte : (author : ChatMessageRole) → role_of (back (shifted (role_byte author))) ≡ author
unfolding role_byte
role_of-byte user = refl
role_of-byte assistant = refl
role_of-byte system = refl
role_of-byte tool = refl
role_of-byte failure = refl

no_line_feed : (words : List ℕ) → contains line_feed (map shifted words) ≡ false
unfolding contains
no_line_feed [] = refl
no_line_feed (n ∷ words) = ground (arith, no_line_feed words)

bytes_of-decoded : (r : TranscriptRecord) → decode_fields (bytes_of r) ≡ some r
unfolding decode_fields
bytes_of-decoded r =
    rw
      (
        back-shifted r.version,
        back-shifted r.identity.namespace,
        back-shifted r.identity.token,
        back-shifted r.sequence,
        role_of-byte r.role,
        map-back r.text,
      )
      refl

only_bytes : (r : TranscriptRecord) (b : List ℕ) → encode_fields r ≡ some b → bytes_of r ≡ b
unfolding encode_fields
only_bytes r b h = cc

encode_fields-IsCodec : IsCodec encode_fields decode_fields
unfolding contains
encode_fields-IsCodec = record {
  decoded = λ r b h. subst (λ l. decode_fields l ≡ some r) (only_bytes r b h) (bytes_of-decoded r);
  one_line = λ r b h.
      subst (λ l. contains line_feed l ≡ false) (only_bytes r b h)
        (ground (arith, no_line_feed r.text));
  nonempty = λ r b h. subst (λ l. is_empty l ≡ false) (only_bytes r b h) refl;
}

abbrev empty_journal : TranscriptJournal
empty_journal = record {
  identity = record { namespace = 3; token = 4 };
  file = [];
  records = [];
  next_sequence = 1;
  bytes = 0;
}

empty_journal-IsJournal : IsJournal encode_fields decode_fields empty_journal
empty_journal-IsJournal = record {
  on_file = nothing 1;
  numbered = refl;
  measured = refl;
  in_bounds = omega arith;
}

append-Append_example :
    Append encode_fields decode_fields empty_journal
      (new_record empty_journal user (104 ∷ []))
      (append encode_fields empty_journal user (104 ∷ []) synced)
append-Append_example =
    append-Append encode_fields decode_fields empty_journal user (104 ∷ []) empty_journal-IsJournal

abbrev greeting : TranscriptRecord
greeting = new_record empty_journal user (104 ∷ 105 ∷ [])

-- A journal that holds the one message.
abbrev one_message : TranscriptJournal
one_message = record {
  identity = record { namespace = 3; token = 4 };
  file = bytes_of greeting ++ line_feed ∷ [];
  records = greeting ∷ [];
  next_sequence = 2;
  bytes = 8;
}

one_message-IsJournal : IsJournal encode_fields decode_fields one_message
unfolding encode_fields
one_message-IsJournal = record {
  on_file =
      then_line 1 greeting (bytes_of greeting) [] []
        (record {
          version = refl;
          identity = refl;
          sequence = refl;
          encoding = refl;
          fits = omega arith;
          follows = refl;
        })
        (nothing 2);
  numbered = refl;
  measured = refl;
  in_bounds = omega arith;
}

crash_recovers_example :
    (open_with_recovery decode_fields
        (one_message.file ++ 12 ∷ 14 ∷ [])
        one_message.identity
        truncate_partial_tail
      ≡ ok one_message)
    × (open_with_recovery decode_fields
          (one_message.file ++ 12 ∷ 14 ∷ [])
          one_message.identity
          refuse
        ≡ err incomplete_record)
unfolding contains
crash_recovers_example =
    crash_recovers encode_fields decode_fields one_message (12 ∷ 14 ∷ []) encode_fields-IsCodec
      one_message-IsJournal refl (omega arith)
