-- ===== src/Model/Messages/Characters.antt =====
-- src/model.rs, `push_capped_message_text` on well-formed text: a text is cut between two
-- characters, and a message that was cut is full.
use mult.Base.{
  ℕ, zero, suc, ◌+◌, ◌-◌, ◌≤◌, ◌<◌, ◌≡◌, refl, sym, ◌∙◌, ap, subst, Bool, true, false, List, [],
  ◌∷◌, ◌++◌, arith, inl, inr, Bool-cases, ==→eq, Bool-clash, leb, leb→le, leb_false→lt, ◌==◌,
  length, take, drop, length-append, All, concat, concat-append, take-append_exact, drop-append_ge,
}
use mult.Model.Data.{Text}
use mult.Model.Messages.{
  chat_message_truncation_notice, content_limit, is_continuation, starts_character,
  is_char_boundary, push_capped_message_text,
}
use mult.Model.Messages.Capped.{Pushed, swallowed, whole, cut, push_capped-Pushed}

-- One UTF-8 character: a byte that begins it, and up to three that continue it.
abbrev pub IsCharacter : Text → Type 0
IsCharacter [] = ⊥
IsCharacter (byte ∷ rest) =
    (is_continuation byte ≡ false) × All (λ b. is_continuation b ≡ true) rest × (length rest ≤ 3)

drop_inside :
    (rest tail : Text) (i : ℕ)
    → All (λ b. is_continuation b ≡ true) rest
    → i < length rest
    → starts_character (drop i (rest ++ tail)) ≡ false
drop_inside [] tail i a h = absurd (omega arith)
drop_inside (b ∷ rest) tail zero a h = rw a.0 refl
drop_inside (b ∷ rest) tail (suc i) a h = drop_inside rest tail i a.1 (omega arith)

-- No boundary lies inside a character.
boundary_inside :
    (c tail : Text) (i : ℕ)
    → IsCharacter c
    → 1 ≤ i
    → i < length c
    → is_char_boundary (c ++ tail) i ≡ false
unfolding is_char_boundary
boundary_inside [] tail i h low high = absurd h
boundary_inside (b ∷ rest) tail zero h low high = absurd (omega arith)
boundary_inside (b ∷ rest) tail (suc i) h low high =
    ground (arith, drop_inside rest tail i h.1 (omega arith))

-- Beyond a character the boundaries are those of the text after it.
boundary_after :
    (c tail : Text) (i : ℕ)
    → IsCharacter c
    → length c ≤ i
    → 1 ≤ i - length c
    → is_char_boundary (c ++ tail) i ≡ is_char_boundary tail (i - length c)
unfolding is_char_boundary
boundary_after c tail i h low more =
    ground (arith, ap starts_character (drop-append_ge i c tail low), length-append c tail)

-- A boundary of a text stands between two of its characters.
boundary_splits :
    (cs : List Text) (i : ℕ)
    → All IsCharacter cs
    → is_char_boundary (concat cs) i ≡ true
    → i ≤ length (concat cs)
    → (kept : List Text) × (dropped : List Text) × (cs ≡ kept ++ dropped)
      × (i ≡ length (concat kept))
boundary_splits [] i a e h = ([], [], refl, omega arith)
boundary_splits (c ∷ cs) i a e h = elim (Bool-cases (i == 0)) [
  | inl start ↦ ([], c ∷ cs, refl, ==→eq i 0 start)
  | inr later ↦ elim (Bool-cases (leb (length c) i)) [
    | inl beyond ↦ elim (Bool-cases (i == length c)) [
      | inl end ↦ (c ∷ [], cs, refl, omega (arith, ==→eq i (length c) end, length-append c []))
      | inr past ↦
          let (kept, dropped, parts, place) =
            boundary_splits cs (i - length c) a.1
              (sym (boundary_after c (concat cs) i a.0 (ground arith) (ground arith)) ∙ e)
              (omega (arith, length-append c (concat cs), leb→le (length c) i beyond)) in
          (
            c ∷ kept,
            dropped,
            ap (λ l. c ∷ l) parts,
            omega (arith, place, length-append c (concat kept), leb→le (length c) i beyond),
          )
    ]
    | inr within ↦
        absurd (Bool-clash e (boundary_inside c (concat cs) i a.0 (ground arith) (ground arith)))
  ]
]

short : (c : Text) → IsCharacter c → (length c ≤ 4) × (1 ≤ length c)
short [] h = absurd h
short (b ∷ rest) h = (omega (arith, h.2), omega arith)

starts-concat : (cs : List Text) → All IsCharacter cs → starts_character (concat cs) ≡ true
starts-concat [] a = refl
starts-concat ([] ∷ cs) a = absurd a.0
starts-concat ((b ∷ rest) ∷ cs) a = rw a.0.0 refl

shifted :
    (c : Text) (cs : List Text) (j : ℕ)
    → IsCharacter c
    → All IsCharacter cs
    → is_char_boundary (concat cs) j ≡ true
    → is_char_boundary (c ++ concat cs) (length c + j) ≡ true
shifted c cs zero h a e = after c cs h (starts-concat cs a)
  where
    place : (c tail : Text) → drop (length c + 0) (c ++ tail) ≡ tail
    place c tail =
        drop-append_ge (length c + 0) c tail (omega arith)
        ∙ ap (λ n. drop n tail) {x = length c + 0 - length c} {y = 0} (omega arith)

    after :
        (c : Text) (cs : List Text)
        → IsCharacter c
        → starts_character (concat cs) ≡ true
        → is_char_boundary (c ++ concat cs) (length c + 0) ≡ true
    after c cs h s =
        unfold is_char_boundary in
        ground (
          arith,
          short c h,
          length-append c (concat cs),
          s,
          ap starts_character (place c (concat cs)),
        )
shifted c cs (suc j) h a e =
    boundary_after c (concat cs) (length c + suc j) h (omega arith) (omega arith)
    ∙ subst (λ n. is_char_boundary (concat cs) n ≡ true) (omega arith) e

-- Some boundary lies among any four places in a row.
boundary_near :
    (cs : List Text) (n : ℕ)
    → All IsCharacter cs
    → n ≤ length (concat cs)
    → (j : ℕ) × (j ≤ n) × (n < j + 4) × (is_char_boundary (concat cs) j ≡ true)
boundary_near [] n a h = (0, omega arith, omega arith, unfold is_char_boundary in refl)
boundary_near (c ∷ cs) n a h = elim (Bool-cases (leb (length c) n)) [
  | inl beyond ↦
      let (j, low, near, here) =
        boundary_near cs (n - length c) a.1
          (omega (arith, length-append c (concat cs), leb→le (length c) n beyond)) in
      (
        length c + j,
        omega (arith, low, leb→le (length c) n beyond),
        omega (arith, near, leb→le (length c) n beyond),
        shifted c cs j a.0 a.1 here,
      )
  | inr within ↦ (
    0,
    omega arith,
    omega (arith, short c a.0, leb_false→lt (length c) n within),
    unfold is_char_boundary in refl,
  )
]

-- A text that is cut keeps whole characters, and all but three bytes of the budget.
pub cut_characters :
    (existing : Text) (cs : List Text) (keep : ℕ)
    → All IsCharacter cs
    → content_limit < length existing + length (concat cs)
    → length existing + keep ≤ content_limit
    → is_char_boundary (concat cs) keep ≡ true
    → ((i : ℕ)
        → keep < i
        → length existing + i ≤ content_limit
        → is_char_boundary (concat cs) i ≡ false)
    → length existing ≤ content_limit
    → (content_limit < length existing + keep + 4)
      × (kept : List Text) × (dropped : List Text) × (cs ≡ kept ++ dropped)
      × (keep ≡ length (concat kept))
cut_characters existing cs keep a over within here later room =
    let (j, low, near, boundary) =
      boundary_near cs (content_limit - length existing) a (omega arith) in
    let close = reach j low boundary in
    let (kept, dropped, parts, place) = boundary_splits cs keep a here (omega arith) in
    (omega (arith, near, close), kept, dropped, parts, place)
  where
    reach :
        (j : ℕ)
        → j ≤ content_limit - length existing
        → is_char_boundary (concat cs) j ≡ true
        → j ≤ keep
    reach j low boundary = elim (Bool-cases (leb j keep)) [
      | inl fine ↦ leb→le j keep fine
      | inr past ↦
          absurd
            (Bool-clash boundary (later j (leb_false→lt j keep past) (omega (arith, low, room))))
    ]

take_kept :
    (cs kept dropped : List Text) (keep : ℕ)
    → cs ≡ kept ++ dropped
    → keep ≡ length (concat kept)
    → take keep (concat cs) ≡ concat kept
take_kept cs kept dropped keep parts place =
    ap (λ l. take keep (concat l)) parts
    ∙ ap (take keep) (concat-append kept dropped)
    ∙ take-append_exact keep (concat kept) (concat dropped) (sym place)

-- What an append of well-formed text does: nothing to a full message; all of a text that fits; or
-- the characters that fit and the notice, which leaves the message full.
pub data Appended (existing : Text) (cs : List Text) : Text × Bool → Type 0 where
  ignored : content_limit ≤ length existing → Appended existing cs (existing, false)
  complete :
      length existing + length (concat cs) ≤ content_limit
      → Appended existing cs (existing ++ concat cs, true)
  truncated :
      (kept dropped : List Text)
      → cs ≡ kept ++ dropped
      → length existing + length (concat kept) ≤ content_limit
      → content_limit < length existing + length (concat kept) + 4
      → content_limit < length existing + length (concat cs)
      → Appended existing cs (existing ++ concat kept ++ chat_message_truncation_notice, true)

Pushed-Appended :
    (existing text : Text) (cs : List Text) {r : Text × Bool}
    → text ≡ concat cs
    → All IsCharacter cs
    → Pushed existing text r
    → Appended existing cs r
Pushed-Appended existing text cs e a (swallowed full) = ignored full
Pushed-Appended existing text cs e a (whole room fits) =
    subst (λ t. Appended existing cs (existing ++ t, true)) (sym e)
      (complete (omega (arith, fits, ap length e)))
Pushed-Appended existing text cs e a (cut keep room over within here later) =
    let (near, kept, dropped, parts, place) =
      cut_characters existing cs keep a (omega (arith, over, ap length e)) within
        (subst (λ t. is_char_boundary t keep ≡ true) e here)
        (λ i low high. subst (λ t. is_char_boundary t i ≡ false) e (later i low high))
        (omega (arith, room)) in
    subst (λ t. Appended existing cs (existing ++ t ++ chat_message_truncation_notice, true))
      (sym (ap (take keep) e ∙ take_kept cs kept dropped keep parts place))
      (truncated kept dropped parts (omega (arith, within, place)) (omega (arith, near, place))
        (omega (arith, over, ap length e)))

-- Appending a text of whole characters leaves a full message as it is, appends a text that fits,
-- and else appends the characters that fit (all but three bytes of the room at most) and the
-- notice; no character is cut.
pub push_capped-Appended :
    (existing : Text) (cs : List Text)
    → All IsCharacter cs
    → Appended existing cs (push_capped_message_text existing (concat cs))
push_capped-Appended existing cs a =
    Pushed-Appended existing (concat cs) cs refl a (push_capped-Pushed existing (concat cs))

full_swallows :
    (existing more : Text) {r : Text × Bool}
    → content_limit ≤ length existing
    → Pushed existing more r
    → r ≡ (existing, false)
full_swallows existing more h (swallowed full) = refl
full_swallows existing more h (whole room fits) = absurd (omega (arith, h, room))
full_swallows existing more h (cut keep room over within here later) =
    absurd (omega (arith, h, room))

overflow_fills :
    (existing : Text) (cs : List Text) {r : Text × Bool}
    → content_limit < length existing + length (concat cs)
    → Appended existing cs r
    → content_limit ≤ length r.0
overflow_fills existing cs h (ignored full) = full
overflow_fills existing cs h (complete fits) = absurd (omega (arith, h, fits))
overflow_fills existing cs h (truncated kept dropped parts within near over) = omega (
  arith,
  near,
  length-append (existing ++ concat kept) chat_message_truncation_notice,
  length-append existing (concat kept),
)

-- After a text of whole characters that did not fit, every further append reports no change and
-- makes none.
pub push_capped-again :
    (existing more : Text) (cs : List Text)
    → All IsCharacter cs
    → content_limit < length existing + length (concat cs)
    → push_capped_message_text (push_capped_message_text existing (concat cs)).0 more
      ≡ ((push_capped_message_text existing (concat cs)).0, false)
push_capped-again existing more cs a h =
    full_swallows _ more (overflow_fills existing cs h (push_capped-Appended existing cs a))
      (push_capped-Pushed _ more)
