-- ===== src/Model/Random/Drawn.antt =====
-- src/model.rs, `generate_identity`: which identity it draws, and when it fails.
use mult.Base.{
  ℕ, zero, suc, ◌<◌, ◌≡◌, ◌≢◌, refl, Bool, false, true, ◌⊎◌, ◌∙◌, ap, List, [], ◌∷◌, All, length,
  inl, inr, none, some, arith, Option-cases,
}
use mult.Base.Result.{Result, ok, err}
use mult.Model.Random.{
  acceptable, settle, attempts, generate_identity, max_identity_attempts, IoError, source_failed,
  invalid_data,
}

acceptable-some :
    (collision : ℕ → Bool) (bytes identity : ℕ)
    → acceptable collision bytes ≡ some identity
    → (identity ≢ 0) × (collision identity ≡ false)
unfolding acceptable mult.Protocol.Ids.from_bytes
acceptable-some collision bytes identity e = ground arith

acceptable-same :
    (collision : ℕ → Bool) (bytes identity : ℕ)
    → acceptable collision bytes ≡ some identity
    → bytes ≡ identity
unfolding acceptable mult.Protocol.Ids.from_bytes
acceptable-same collision bytes identity e = ground arith

-- A draw that is no new identity.
abbrev pub IsUnfit : (ℕ → Bool) → ℕ → Type 0
IsUnfit collision bytes = (bytes ≡ 0) ⊎ (collision bytes ≡ true)

acceptable-none :
    (collision : ℕ → Bool) (bytes : ℕ) → acceptable collision bytes ≡ none → IsUnfit collision bytes
unfolding acceptable mult.Protocol.Ids.from_bytes
acceptable-none collision bytes e = ground arith

module _ {Source Failure : Type 0} (fill_bytes : Source → Result Failure ℕ × Source) where
  -- The source gives these draws, one after another.
  pub data Yields : Source → List ℕ → Source → Type 0 where
    no_more : {source : Source} → Yields source [] source
    then_draw :
        {source next rest : Source} {bytes : ℕ} {draws : List ℕ}
        → fill_bytes source ≡ (ok bytes, next)
        → Yields next draws rest
        → Yields source (bytes ∷ draws) rest

  -- How the draws from a source end. An unfit draw is zero or in use; the identity is the first fit
  -- draw, within the limit and before the source fails.
  pub data Draws (collision : ℕ → Bool) (limit : ℕ) (source : Source)
      : Result (IoError Failure) ℕ × Source → Type 0 where
    generated :
        {next rest : Source} {draws : List ℕ} {identity : ℕ}
        → Yields source draws next
        → All (IsUnfit collision) draws
        → length draws < limit
        → fill_bytes next ≡ (ok identity, rest)
        → identity ≢ 0
        → collision identity ≡ false
        → Draws collision limit source (ok identity, rest)
    fails :
        {next rest : Source} {draws : List ℕ} {failure : Failure}
        → Yields source draws next
        → All (IsUnfit collision) draws
        → length draws < limit
        → fill_bytes next ≡ (err failure, rest)
        → Draws collision limit source (err (source_failed failure), rest)
    gives_up :
        {next : Source} {draws : List ℕ}
        → Yields source draws next
        → All (IsUnfit collision) draws
        → length draws ≡ limit
        → Draws collision limit source (err invalid_data, next)

  one_more :
      (collision : ℕ → Bool) (left : ℕ) {source next : Source} (bytes : ℕ)
      {answer : Result (IoError Failure) ℕ × Source}
      → fill_bytes source ≡ (ok bytes, next)
      → IsUnfit collision bytes
      → Draws collision left next answer
      → Draws collision (suc left) source answer
  one_more collision left bytes e bad (generated y all few d nonzero unused) =
      generated (then_draw e y) (bad, all) (omega arith) d nonzero unused
  one_more collision left bytes e bad (fails y all few d) =
      fails (then_draw e y) (bad, all) (omega arith) d
  one_more collision left bytes e bad (gives_up y all few) =
      gives_up (then_draw e y) (bad, all) (omega arith)

  settle-Draws :
      (collision : ℕ → Bool) (left : ℕ) (source : Source) (draw : Result Failure ℕ × Source)
      → fill_bytes source ≡ draw
      → ((next : Source) → Draws collision left next (attempts fill_bytes left collision next))
      → Draws collision
          (suc left)
          source
          (settle (attempts fill_bytes left collision) collision draw)
  unfolding settle
  settle-Draws collision left source (err failure, rest) e later = fails no_more tt (omega arith) e
  settle-Draws collision left source (ok bytes, rest) e later =
      elim (Option-cases (acceptable collision bytes)) [
        | inl refused ↦
            rw (refused, settle)
              (one_more collision left bytes e (acceptable-none collision bytes refused)
                (later rest))
        | inr (identity, a) ↦
            let (nonzero, unused) = acceptable-some collision bytes identity a in
            rw (a, settle)
              (generated no_more tt (omega arith)
                (e ∙ ap (λ n. (ok n, rest)) (acceptable-same collision bytes identity a)) nonzero
                unused)
      ]

  attempts-Draws :
      (collision : ℕ → Bool) (left : ℕ) (source : Source)
      → Draws collision left source (attempts fill_bytes left collision source)
  unfolding attempts
  attempts-Draws collision zero source = gives_up no_more tt refl
  attempts-Draws collision (suc left) source =
      settle-Draws collision left source (fill_bytes source) refl (attempts-Draws collision left)

  -- The identity that is generated is the first draw that is neither zero nor in use, if fewer
  -- than 64 draws stand before it and the source has not failed by then. Where the source fails
  -- first, its failure is the answer; where 64 draws are zero or in use, the answer is
  -- `invalid_data`. What is left of the source is what stands behind the last draw.
  pub generate_identity-Draws :
      (collision : ℕ → Bool) (source : Source)
      → Draws collision max_identity_attempts source (generate_identity fill_bytes collision source)
  unfolding generate_identity
  generate_identity-Draws collision source = attempts-Draws collision max_identity_attempts source

  settle-ok :
      (next : Source → Result (IoError Failure) ℕ × Source) (collision : ℕ → Bool) (identity : ℕ)
      (draw : Result Failure ℕ × Source)
      → ((source : Source)
          → (next source).0 ≡ ok identity
          → (identity ≢ 0) × (collision identity ≡ false))
      → (settle next collision draw).0 ≡ ok identity
      → (identity ≢ 0) × (collision identity ≡ false)
  unfolding settle
  settle-ok next collision identity (err failure, rest) later e = absurd (ground arith)
  settle-ok next collision identity (ok bytes, rest) later e =
      elim (Option-cases (acceptable collision bytes)) [
        | inl refused ↦ later rest (simp (refused, settle) at e)
        | inr (found, a) ↦ acceptable-some collision bytes identity (ground arith)
      ]

  attempts-ok :
      (collision : ℕ → Bool) (left : ℕ) (source : Source) (identity : ℕ)
      → (attempts fill_bytes left collision source).0 ≡ ok identity
      → (identity ≢ 0) × (collision identity ≡ false)
  unfolding attempts
  attempts-ok collision zero source identity e = absurd (ground arith)
  attempts-ok collision (suc left) source identity e =
      settle-ok (attempts fill_bytes left collision) collision identity (fill_bytes source)
        (λ rest. attempts-ok collision left rest identity) e

  -- An identity that is generated is not zero and not one of those in use.
  pub generate_identity-ok :
      (collision : ℕ → Bool) (source : Source) (identity : ℕ)
      → (generate_identity fill_bytes collision source).0 ≡ ok identity
      → (identity ≢ 0) × (collision identity ≡ false)
  unfolding generate_identity
  generate_identity-ok collision source identity e =
      attempts-ok collision max_identity_attempts source identity e
