-- ===== src/Daemon/Pane/Sequence.antt =====
-- The numbers of the retained output: the history ends where the next output starts.
use mult.Base.{
  ℕ, zero, suc, ◌+◌, ◌-◌, ◌≤◌, ◌<◌, ◌≡◌, refl, sym, ap, ◌∙◌, some, List, ◌++◌, arith, length,
  length-append, length-drop, drop,
}
use mult.Base.Result.{ok, err}
use mult.Protocol.Ids.{checked_add_bytes, u64_limit}
use mult.Daemon.History.{RawHistory, append, contents, raw_history_max_bytes}
use mult.Daemon.History as History
use mult.Daemon.History.Append.{append-contents, len-contents}
use mult.Daemon.Pane.{PaneState, output_exhausted, advance_start, append_raw_history_with_limit}

-- The retained bytes are those from `history_start` up to `next_output`.
pub record IsSequenced (p : PaneState) : Type 0 where
  pub history_valid : History.IsValid p.raw_history
  pub numbered : p.history_start + p.raw_history.len ≡ p.next_output
  pub in_range : p.next_output < u64_limit

-- What an append leaves.
pub record Appended (p : PaneState) (bytes : List ℕ) (limit : ℕ) (q : PaneState) : Type 0 where
  pub sequenced : IsSequenced q
  pub next : q.next_output ≡ p.next_output + length bytes
  pub kept :
      contents q.raw_history
      ≡ drop (q.history_start - p.history_start) (contents p.raw_history ++ bytes)
  pub same_owner : q.owner ≡ p.owner
  pub same_pane : q.pane ≡ p.pane

advance :
    (start dropped : ℕ)
    → start + dropped < u64_limit
    → advance_start start dropped ≡ some (start + dropped)
unfolding advance_start
advance start zero h = ap some (omega arith)
advance start (suc n) h = ground arith

module _ (p : PaneState) (bytes : List ℕ) (limit : ℕ) (s : IsSequenced p) where
  abbrev grown : RawHistory
  grown = (append p.raw_history bytes limit).0

  abbrev gone : ℕ
  gone = (append p.raw_history bytes limit).1

  grown-len :
      (gone ≤ p.raw_history.len + length bytes)
      × (grown.len + gone ≡ p.raw_history.len + length bytes)
  grown-len =
      let (kept, dropped, valid) = append-contents p.raw_history bytes limit s.history_valid in
      let few : gone ≤ p.raw_history.len + length bytes = omega (arith, dropped) in
      (
        few,
        omega (
          arith,
          few,
          len-contents grown valid,
          ap length kept,
          length-drop gone (contents p.raw_history ++ bytes),
          length-append (contents p.raw_history) bytes,
          len-contents p.raw_history s.history_valid,
        ),
      )

  abbrev after_append : PaneState
  after_append = record p {
    next_output = p.next_output + length bytes;
    raw_history = grown;
    history_start = p.history_start + gone;
  }

  after_append-Appended :
      p.next_output + length bytes < u64_limit → Appended p bytes limit after_append
  after_append-Appended fits =
      let (kept, dropped, valid) = append-contents p.raw_history bytes limit s.history_valid in
      let back : p.history_start + gone - p.history_start ≡ gone = omega arith in
      record {
        sequenced = record {
          history_valid = valid;
          numbered = omega (arith, grown-len, s.numbered);
          in_range = fits;
        };
        next = refl;
        kept = kept ∙ ap (λ k. drop k (contents p.raw_history ++ bytes)) (sym back);
        same_owner = refl;
        same_pane = refl;
      }

  -- With numbers left, appending PTY output numbers it from the old end, moves the end by its length
  -- and the start by what was dropped: the bytes that are retained keep their numbers.
  pub append_raw_history_with_limit-fits :
      p.next_output + length bytes < u64_limit
      → (q : PaneState) × (append_raw_history_with_limit p bytes limit ≡ (ok p.next_output, q))
        × Appended p bytes limit q
  unfolding append_raw_history_with_limit
  append_raw_history_with_limit-fits fits =
      let next : checked_add_bytes p.next_output (length bytes)
          ≡ some (p.next_output + length bytes) =
        ground arith in
      let start = advance p.history_start gone (omega (arith, grown-len, s.numbered)) in
      (
        after_append,
        rw (next, append_raw_history_with_limit) (rw (start, append_raw_history_with_limit) refl),
        after_append-Appended fits,
      )

  -- Without, it fails and changes nothing.
  pub append_raw_history_with_limit-exhausted :
      u64_limit ≤ p.next_output + length bytes
      → append_raw_history_with_limit p bytes limit ≡ (err output_exhausted, p)
  unfolding append_raw_history_with_limit
  append_raw_history_with_limit-exhausted over = ground arith
