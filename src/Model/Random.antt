-- ===== src/Model/Random.antt =====
-- src/model.rs, `generate_identity`: opaque identities, drawn from a source of 16 random bytes. The
-- source is a parameter; a draw is the number that its bytes spell, or the source's failure.
pub mod Drawn
use mult.Base.{ℕ, zero, suc, Bool, true, false, not, ◌==◌, if◌then◌else◌, ◌&&◌, Option, none, some}
use mult.Base.Result.{Result, ok, err}
use mult.Protocol.Ids.{from_bytes}

abbrev pub max_identity_attempts : ℕ
max_identity_attempts = 64

-- What the source failed with, or the error after the last attempt.
pub data IoError (Failure : Type 0) : Type 0 where
  source_failed : Failure → IoError Failure
  invalid_data : IoError Failure

-- `from_random_bytes(bytes).filter(|value| !collision(value))`
unfoldable pub acceptable : (ℕ → Bool) → ℕ → Option ℕ
acceptable collision bytes = elim (from_bytes bytes) [
  | none ↦ none
  | some identity ↦ if collision identity then none else some identity
]

-- One draw: its failure, its identity, or the next attempt on what is left of the source.
unfoldable pub settle :
    {Source Failure : Type 0}
    → (Source → Result (IoError Failure) ℕ × Source)
    → (ℕ → Bool)
    → Result Failure ℕ × Source
    → Result (IoError Failure) ℕ × Source
settle next collision (err failure, rest) = (err (source_failed failure), rest)
settle next collision (ok bytes, rest) = elim (acceptable collision bytes) [
  | some identity ↦ (ok identity, rest)
  | none ↦ next rest
]

module _ {Source Failure : Type 0} (fill_bytes : Source → Result Failure ℕ × Source) where
  unfoldable pub attempts : ℕ → (ℕ → Bool) → Source → Result (IoError Failure) ℕ × Source
  attempts zero collision source = (err invalid_data, source)
  attempts (suc left) collision source =
      settle (attempts left collision) collision (fill_bytes source)

  unfoldable pub generate_identity : (ℕ → Bool) → Source → Result (IoError Failure) ℕ × Source
  generate_identity collision source = attempts max_identity_attempts collision source
