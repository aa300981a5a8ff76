-- ===== src/Model/Hex.antt =====
-- src/model.rs: the text of an identity, `Display` of `opaque_identity!` and `decode_identity`. Here an
-- identity is its 16 bytes and a text the bytes of its characters.
use mathlib.Core.Option.{some_inj}
use mult.Base.{
  ℕ, zero, suc, ◌+◌, ◌-◌, ◌*◌, ◌<◌, ◌≡◌, ◌↔◌, refl, sym, ap, Bool, true, false, not, ◌&&◌, ◌||◌,
  Option, none, some, List, [], ◌∷◌, arith, length, ◌==◌, leb, if◌then◌else◌, All, inl, inr,
  Bool-cases, ◌/◌, ◌%◌, subst,
}

abbrev pub identity_bytes : ℕ
identity_bytes = 16

-- One digit of `{:02x}`.
unfoldable hex_digit : ℕ → ℕ
hex_digit d = if leb d 9 then 48 + d else 87 + d

-- `Display::fmt`
pub fmt : List ℕ → List ℕ
fmt [] = []
fmt (b ∷ bytes) = hex_digit (b / 16) ∷ hex_digit (b % 16) ∷ fmt bytes

unfoldable decode_hex_digit : ℕ → Option ℕ
decode_hex_digit byte =
    if leb 48 byte && leb byte 57
    then some (byte - 48)
    else if leb 97 byte && leb byte 102
    then some (byte - 97 + 10)
    else none

-- The test of one character.
unfoldable is_hex : ℕ → Bool
is_hex byte = (leb 48 byte && leb byte 57) || (leb 97 byte && leb byte 102)

unfoldable any_other : List ℕ → Bool
any_other [] = false
any_other (byte ∷ encoded) = not (is_hex byte) || any_other encoded

-- One byte from its two digits, before the others.
unfoldable joined : Option ℕ → Option ℕ → Option (List ℕ) → Option (List ℕ)
joined (some high) (some low) (some decoded) = some ((high * 16 + low) ∷ decoded)
joined none low rest = none
joined (some high) none rest = none
joined (some high) (some low) none = none

-- The loop over the bytes to decode; the text has two characters for each.
unfoldable decode_bytes : ℕ → List ℕ → Option (List ℕ)
decode_bytes zero encoded = some []
decode_bytes (suc count) [] = none
decode_bytes (suc count) (h ∷ []) = none
decode_bytes (suc count) (h ∷ l ∷ encoded) =
    joined (decode_hex_digit h) (decode_hex_digit l) (decode_bytes count encoded)

pub decode_identity : List ℕ → Option (List ℕ)
decode_identity encoded =
    if not (length encoded == identity_bytes * 2) || any_other encoded
    then none
    else decode_bytes identity_bytes encoded

decode-hex_digit : (d : ℕ) → d < 16 → decode_hex_digit (hex_digit d) ≡ some d
unfolding decode_hex_digit hex_digit
decode-hex_digit d h = ground arith

is_hex-digit : (d : ℕ) → d < 16 → is_hex (hex_digit d) ≡ true
unfolding is_hex hex_digit
is_hex-digit d h = ground arith

hex_digit-decode : (c d : ℕ) → decode_hex_digit c ≡ some d → (hex_digit d ≡ c) × (d < 16)
unfolding decode_hex_digit hex_digit
hex_digit-decode c d h = (ground arith, ground arith)

length-fmt : (bytes : List ℕ) → length (fmt bytes) ≡ length bytes * 2
unfolding fmt
length-fmt [] = refl
length-fmt (b ∷ bytes) = omega (arith, length-fmt bytes)

any_other-fmt : (bytes : List ℕ) → All (λ b. b < 256) bytes → any_other (fmt bytes) ≡ false
unfolding fmt any_other
any_other-fmt [] h = refl
any_other-fmt (b ∷ bytes) (low, more) =
    rw
      (
        is_hex-digit (b / 16) (omega arith),
        is_hex-digit (b % 16) (omega arith),
        any_other-fmt bytes more,
      )
      refl

decode_bytes-fmt :
    (bytes : List ℕ)
    → All (λ b. b < 256) bytes
    → decode_bytes (length bytes) (fmt bytes) ≡ some bytes
unfolding fmt decode_bytes joined
decode_bytes-fmt [] h = refl
decode_bytes-fmt (b ∷ bytes) (low, more) =
    rw
      (
        decode-hex_digit (b / 16) (omega arith),
        decode-hex_digit (b % 16) (omega arith),
        decode_bytes-fmt bytes more,
      )
      (ap (λ n. some (n ∷ bytes)) (omega arith))

joined-some :
    (a b : Option ℕ) (c : Option (List ℕ)) (d : List ℕ)
    → joined a b c ≡ some d
    → (high : ℕ) × (low : ℕ) × (rest : List ℕ) × (a ≡ some high)
      × (b ≡ some low)
      × (c ≡ some rest)
      × ((high * 16 + low) ∷ rest ≡ d)
unfolding joined
joined-some (some high) (some low) (some rest) d h =
    (high, low, rest, refl, refl, refl, some_inj.0 h)
joined-some none b c d h = absurd cc
joined-some (some high) none c d h = absurd cc
joined-some (some high) (some low) none d h = absurd cc

halves :
    (high low : ℕ) → low < 16 → ((high * 16 + low) / 16 ≡ high) × ((high * 16 + low) % 16 ≡ low)
halves high low h = (omega arith, omega arith)

-- What was decoded is spelled by the text.
Spelled : List ℕ → List ℕ → ℕ → Type 0
Spelled bytes encoded count =
    (fmt bytes ≡ encoded) × (length bytes ≡ count) × All (λ b. b < 256) bytes

decode_bytes-Spelled :
    (count : ℕ) (encoded bytes : List ℕ)
    → length encoded ≡ count * 2
    → decode_bytes count encoded ≡ some bytes
    → Spelled bytes encoded count
unfolding decode_bytes Spelled fmt
decode_bytes-Spelled zero [] bytes size h =
    subst (λ l. Spelled l [] 0) (some_inj.0 h) (refl, refl, tt)
decode_bytes-Spelled zero (x ∷ encoded) bytes size h = absurd (omega arith)
decode_bytes-Spelled (suc count) [] bytes size h = absurd (omega arith)
decode_bytes-Spelled (suc count) (x ∷ []) bytes size h = absurd (omega arith)
decode_bytes-Spelled (suc count) (x ∷ y ∷ encoded) bytes size h =
    let (high, low, rest, a, b, c, e) = joined-some _ _ _ bytes h in
    let (spelled, counted, small) = decode_bytes-Spelled count encoded rest (omega arith) c in
    let (xs, x_low) = hex_digit-decode x high a in
    let (ys, y_low) = hex_digit-decode y low b in
    let (hi, lo) = halves high low y_low in
    subst (λ l. Spelled l (x ∷ y ∷ encoded) (suc count)) e
      (rw (hi, lo, xs, ys, spelled) refl, omega arith, (omega arith, small))

-- `decode_identity` undoes `Display`, and takes no other text: it gives some bytes for a text if and
-- only if these are 16 bytes, each below 256, and the text is what `Display` writes for them.
pub decode_identity_iff :
    (encoded bytes : List ℕ)
    → (decode_identity encoded ≡ some bytes)
      ↔ ((length bytes ≡ identity_bytes) × All (λ b. b < 256) bytes × (fmt bytes ≡ encoded))
unfolding decode_identity Spelled
decode_identity_iff encoded bytes = (decoded, encoded_back)
  where
    decoded :
        decode_identity encoded ≡ some bytes
        → (length bytes ≡ identity_bytes) × All (λ b. b < 256) bytes × (fmt bytes ≡ encoded)
    decoded h =
        elim (Bool-cases (not (length encoded == identity_bytes * 2) || any_other encoded)) [
          | inl bad ↦ (let refused = rw bad at h in absurd cc)
          | inr good ↦
              let (spelled, counted, small) =
                decode_bytes-Spelled identity_bytes encoded bytes (ground arith) (rw good at h) in
              (counted, small, spelled)
        ]

    size : length bytes ≡ identity_bytes → (length (fmt bytes) == identity_bytes * 2) ≡ true
    size counted = ground (arith, length-fmt bytes)

    encoded_back :
        (length bytes ≡ identity_bytes) × All (λ b. b < 256) bytes × (fmt bytes ≡ encoded)
        → decode_identity encoded ≡ some bytes
    encoded_back (counted, small, spelled) =
        subst (λ text. decode_identity text ≡ some bytes) spelled
          (rw (size counted, any_other-fmt bytes small)
            (rw (sym counted) (decode_bytes-fmt bytes small)))
