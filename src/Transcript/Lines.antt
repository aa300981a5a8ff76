-- ===== src/Transcript/Lines.antt =====
-- src/transcript.rs, `read_and_recover`: reading back the lines of records.
use mult.Base.{
  ◌⊎◌, ℕ, ◌+◌, ◌≤◌, ◌≡◌, refl, sym, ◌∙◌, ap, subst, false, Option, some, List, [], ◌∷◌, ◌++◌, arith,
  length, is_empty, ◌==◌, inl, inr, Bool-cases,
}
use mathlib.Core.List.{append_assoc}
use mult.Base.OrdSet.{contains}
use mult.Base.Find.{last, push}
use mult.Base.Result.{ok}
use mult.Protocol.Ids.{SessionIdentity, identity_beq_iff, checked_add}
use mult.Transcript.{
  TranscriptRecord, transcript_record_version, max_transcript_record_bytes, line_feed, ensure,
  with_byte, lines, check_record, decode_line, read_records,
}

lines-tail : (tail : List ℕ) → contains line_feed tail ≡ false → lines tail ≡ ([], tail)
unfolding contains lines with_byte
lines-tail [] h = refl
lines-tail (b ∷ tail) h = elim (Bool-cases (b == line_feed)) [
  | inl feed ↦ absurd (ground arith)
  | inr other ↦ rw (lines-tail tail (ground arith), other) refl
]

lines-line :
    (b rest : List ℕ)
    → contains line_feed b ≡ false
    → lines (b ++ line_feed ∷ rest) ≡ (b ∷ (lines rest).0, (lines rest).1)
unfolding contains lines
lines-line [] rest h = fed (lines rest)
  where
    fed : (p : List (List ℕ) × List ℕ) → with_byte line_feed p ≡ ([] ∷ p.0, p.1)
    fed ([], tail) = unfold with_byte in refl
    fed (l ∷ ls, tail) = unfold with_byte in refl
lines-line (x ∷ b) rest h = elim (Bool-cases (x == line_feed)) [
  | inl feed ↦ absurd (ground arith)
  | inr other ↦ rw (lines-line b rest (ground arith)) (kept other)
]
  where
    kept :
        (x == line_feed) ≡ false
        → with_byte x (b ∷ (lines rest).0, (lines rest).1)
          ≡ ((x ∷ b) ∷ (lines rest).0, (lines rest).1)
    kept other = unfold with_byte in rw other refl

module _ (encode : TranscriptRecord → Option (List ℕ))
    (decode : List ℕ → Option TranscriptRecord) where
  -- What the journal relies on of `serde_json`: a record is decoded from its encoding, which is not
  -- empty and has no line feed.
  pub record IsCodec : Type 0 where
    pub decoded : (r : TranscriptRecord) (b : List ℕ) → encode r ≡ some b → decode b ≡ some r
    pub one_line :
        (r : TranscriptRecord) (b : List ℕ) → encode r ≡ some b → contains line_feed b ≡ false
    pub nonempty : (r : TranscriptRecord) (b : List ℕ) → encode r ≡ some b → is_empty b ≡ false

  -- A record that may stand at a sequence number, with its encoding.
  pub record IsEntry (owner : SessionIdentity) (expected : ℕ) (r : TranscriptRecord) (b : List ℕ)
      : Type 0 where
    pub version : r.version ≡ transcript_record_version
    pub identity : r.identity ≡ owner
    pub sequence : r.sequence ≡ expected
    pub encoding : encode r ≡ some b
    pub fits : length b + 1 ≤ max_transcript_record_bytes
    pub follows : checked_add expected 1 ≡ some (expected + 1)

  -- The records of an identity from a sequence number on, and the bytes that they are written as.
  pub data Written (owner : SessionIdentity) : ℕ → List TranscriptRecord → List ℕ → Type 0 where
    nothing : (expected : ℕ) → Written owner expected [] []
    then_line :
        (expected : ℕ) (r : TranscriptRecord) (b : List ℕ) (rs : List TranscriptRecord)
        (rest : List ℕ)
        → IsEntry owner expected r b
        → Written owner (expected + 1) rs rest
        → Written owner expected (r ∷ rs) (b ++ line_feed ∷ rest)

  check_record-ok :
      (owner : SessionIdentity) (expected : ℕ) (r : TranscriptRecord) (b : List ℕ)
      → IsEntry owner expected r b
      → check_record decode owner expected r ≡ ok (expected + 1)
  unfolding check_record ensure
  check_record-ok owner expected r b h =
      ground
        (arith, h.version, h.sequence, h.follows, (identity_beq_iff r.identity owner).1 h.identity)

  decode_line-ok :
      (owner : SessionIdentity) (expected : ℕ) (r : TranscriptRecord) (b : List ℕ)
      → IsCodec
      → IsEntry owner expected r b
      → decode_line decode b ≡ ok r
  unfolding decode_line
  decode_line-ok owner expected r b codec h =
      ground (arith, codec.decoded r b h.encoding, codec.nonempty r b h.encoding, h.fits)

  -- Reading back what was written, with a partial line after it.
  pub Written-read :
      (owner : SessionIdentity) {expected : ℕ} {rs : List TranscriptRecord} {bytes : List ℕ}
      (tail : List ℕ)
      → IsCodec
      → contains line_feed tail ≡ false
      → Written owner expected rs bytes
      → (read_records decode owner expected (lines (bytes ++ tail)).0 ≡ ok rs)
        × ((lines (bytes ++ tail)).1 ≡ tail)
  unfolding read_records
  Written-read owner tail codec h (nothing expected) = rw (lines-tail tail h) (refl, refl)
  Written-read owner tail codec h (then_line expected r b rs rest entry more) =
      let (records, left) = Written-read owner tail codec h more in
      rw
        (
          append_assoc b (line_feed ∷ rest) tail,
          lines-line b (rest ++ tail) (codec.one_line r b entry.encoding),
        )
        (
          rw
              (
                decode_line-ok owner expected r b codec entry,
                check_record-ok owner expected r b entry,
                records,
              )
              refl,
          left,
        )

  -- A record written after the others.
  pub Written-push :
      (owner : SessionIdentity) {expected : ℕ} {rs : List TranscriptRecord} {bytes : List ℕ}
      (r : TranscriptRecord) (b : List ℕ)
      → Written owner expected rs bytes
      → IsEntry owner (expected + length rs) r b
      → Written owner expected (push r rs) (bytes ++ (b ++ line_feed ∷ []))
  Written-push owner r b (nothing expected) entry =
      then_line expected r b [] [] (subst (λ n. IsEntry owner n r b) (omega arith) entry)
        (nothing _)
  Written-push owner r b (then_line expected x c rs rest first more) entry =
      subst (Written owner expected (x ∷ push r rs)) (sym (append_assoc c (line_feed ∷ rest) _)) (
        then_line expected x c (push r rs) _ first
          (Written-push owner r b more (subst (λ n. IsEntry owner n r b) (omega arith) entry)))

  -- The last record has the last number.
  pub Written-last :
      (owner : SessionIdentity) {expected : ℕ} {rs : List TranscriptRecord} {bytes : List ℕ}
      → Written owner expected rs bytes
      → (rs ≡ [])
        ⊎ ((r : TranscriptRecord) × (last rs ≡ some r)
            × (checked_add r.sequence 1 ≡ some (expected + length rs)))
  unfolding last
  Written-last owner (nothing expected) = inl refl
  Written-last owner (then_line expected r b [] rest entry more) = inr (
    r,
    refl,
    subst (λ n. checked_add n 1 ≡ some (expected + 1)) (sym entry.sequence) entry.follows,
  )
  Written-last owner (then_line expected r b (x ∷ rs) rest entry more) =
      elim (Written-last owner more) [
        | inl none_left ↦ absurd (ground (arith, ap length none_left))
        | inr (l, there, next) ↦ inr (l, there, next ∙ ap some (omega arith))
      ]
