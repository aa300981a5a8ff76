-- ===== src/Protocol/Framing.antt =====
-- crates/protocol/src/lib.rs, `read_message` and `write_message`: length-prefixed frames. A stream
-- is the list of the bytes that are still to be read; a writer's output is a list of bytes. The
-- encoding of a message is the crate postcard's, a parameter here.
use mathlib.Core.List.{append_assoc, append-nil}
use mult.Base.{
  ℕ, ◌+◌, ◌*◌, ◌/◌, ◌%◌, ◌-◌, ◌^◌, ◌≤◌, ◌<◌, ◌≡◌, refl, ap, ◌∙◌, inl, inr, true, false, Option,
  none, some, List, [], ◌∷◌, ◌++◌, arith, Bool-cases, Option-cases, length, take, drop, is_empty,
  ltb, leb, if◌then◌else◌, length-take, length-append, take-append-drop, take-append_exact,
  drop-append_ge, ltb_false→le,
}
use mult.Base.Result.{Result, ok, err, ok_or, ◌>>=◌, Result-cases}

abbrev pub Bytes : Type 0
Bytes = List ℕ

abbrev pub max_message_bytes : ℕ
max_message_bytes = 16 * 1024 * 1024

-- `io::ErrorKind`
pub data IoError : Type 0 where
  unexpected_eof invalid_data invalid_input : IoError

-- `postcard::to_allocvec` and `postcard::take_from_bytes` at one message type: a value that was
-- encoded is read back from the front of what follows.
pub record Codec (M : Type 0) : Type 0 where
  pub to_allocvec : M → Option Bytes
  pub take_from_bytes : Bytes → Option (M × Bytes)
  pub takes_encoded :
      (m : M) (payload rest : Bytes)
      → to_allocvec m ≡ some payload
      → take_from_bytes (payload ++ rest) ≡ some (m, rest)

-- `u32::to_be_bytes` and `u32::from_be_bytes`
unfoldable pub to_be_bytes : ℕ → Bytes
to_be_bytes n = (n / 2 ^ 24 % 256) ∷ (n / 2 ^ 16 % 256) ∷ (n / 2 ^ 8 % 256) ∷ (n % 256) ∷ []

unfoldable pub from_be_bytes : Bytes → ℕ
from_be_bytes (a ∷ b ∷ c ∷ d ∷ []) = a * 2 ^ 24 + b * 2 ^ 16 + c * 2 ^ 8 + d
from_be_bytes _ = 0

-- `Read::read_exact`: the bytes read and those that are left.
unfoldable pub read_exact : ℕ → Bytes → Result IoError (Bytes × Bytes)
read_exact n stream =
    if leb n (length stream) then ok (take n stream, drop n stream) else err unexpected_eof

module _ {M : Type 0} (codec : Codec M) where
  open codec use {to_allocvec, take_from_bytes, takes_encoded}

  -- The payload as one message, and nothing behind it.
  unfoldable pub decode : Bytes → Result IoError M
  decode payload = do
    taken ← ok_or (take_from_bytes payload) invalid_data
    if is_empty taken.1 then ok taken.0 else err invalid_data

  -- The message and the bytes that are left.
  unfoldable pub read_message : Bytes → Result IoError (M × Bytes)
  read_message stream = do
    prefix ← read_exact 4 stream
    if ltb max_message_bytes (from_be_bytes prefix.0) then err invalid_data else do
      body ← read_exact (from_be_bytes prefix.0) prefix.1
      message ← decode body.0
      ok (message, body.1)

  -- The bytes written.
  unfoldable pub write_message : M → Result IoError Bytes
  write_message message = do
    payload ← ok_or (to_allocvec message) invalid_data
    if ltb max_message_bytes (length payload)
        then err invalid_input
        else if ltb (length payload) (2 ^ 32)
        then ok (to_be_bytes (length payload) ++ payload)
        else err invalid_input

from_be-to_be : (n : ℕ) → n < 2 ^ 32 → from_be_bytes (to_be_bytes n) ≡ n
unfolding from_be_bytes to_be_bytes
from_be-to_be n h = omega arith

read_exact-append : (a b : Bytes) (n : ℕ) → length a ≡ n → read_exact n (a ++ b) ≡ ok (a, b)
unfolding read_exact
read_exact-append a b n h =
    let fits : leb n (length (a ++ b)) ≡ true = ground (arith, length-append a b) in
    rw (fits, take-append_exact n a b h, drop-append_ge n a b (omega arith), h, minus_self n) refl
  where
    minus_self : (k : ℕ) → k - k ≡ 0
    minus_self k = omega arith

read_exact_inv :
    (n : ℕ) (stream a b : Bytes)
    → read_exact n stream ≡ ok (a, b)
    → (stream ≡ a ++ b) × (length a ≡ n)
unfolding read_exact
read_exact_inv n stream a b h = elim (Bool-cases (leb n (length stream))) [
  | inl fits ↦ (ground (arith, take-append-drop n stream), ground (arith, length-take n stream))
  | inr short ↦ absurd (ground arith)
]

module _ {M : Type 0} (codec : Codec M) where
  open codec use {to_allocvec, take_from_bytes, takes_encoded}

  -- A written frame is the payload behind its length, within the limit.
  write_inv :
      (m : M) (frame : Bytes)
      → write_message codec m ≡ ok frame
      → (payload : Bytes) × (to_allocvec m ≡ some payload)
        × (length payload ≤ max_message_bytes)
        × (frame ≡ to_be_bytes (length payload) ++ payload)
  unfolding write_message
  write_inv m frame h = elim (Option-cases (to_allocvec m)) [
    | inl e ↦ absurd (ground arith)
    | inr (payload, e) ↦ (payload, e, ground arith, ground arith)
  ]

  decode_encoded :
      (m : M) (payload : Bytes) → to_allocvec m ≡ some payload → decode codec payload ≡ ok m
  unfolding decode
  decode_encoded m payload e = let t = rw append-nil at (takes_encoded m payload [] e) in rw t refl

  read_steps :
      (stream head body tail rest : Bytes) (m : M)
      → read_exact 4 stream ≡ ok (head, tail)
      → from_be_bytes head ≤ max_message_bytes
      → read_exact (from_be_bytes head) tail ≡ ok (body, rest)
      → decode codec body ≡ ok m
      → read_message codec stream ≡ ok (m, rest)
  unfolding read_message
  read_steps stream head body tail rest m a h b d =
      let small : ltb max_message_bytes (from_be_bytes head) ≡ false = ground arith in
      rw (a, small, b, d) refl

  -- A message that was written is read back, and what follows in the stream is left for the next.
  pub read-write_message :
      (m : M) (frame rest : Bytes)
      → write_message codec m ≡ ok frame
      → read_message codec (frame ++ rest) ≡ ok (m, rest)
  read-write_message m frame rest h =
      let (payload, e, small, shape) = write_inv m frame h in
      let head = to_be_bytes (length payload) in
      let back = from_be-to_be (length payload) (omega arith) in
      read_steps (frame ++ rest) head payload (payload ++ rest) rest m
        (ap (λ t. read_exact 4 (t ++ rest)) shape
          ∙ ap (read_exact 4) (append_assoc head payload rest)
          ∙ read_exact-append head (payload ++ rest) 4 (unfold to_be_bytes in refl))
        (omega (arith, back)) (rw back (read_exact-append payload rest (length payload) refl))
        (decode_encoded m payload e)

  taken_inv :
      (taken : Option (M × Bytes)) (m : M)
      → (ok_or {E = IoError} taken invalid_data >>= λ t.
          if is_empty t.1 then ok t.0 else err invalid_data)
        ≡ ok m
      → taken ≡ some (m, [])
  taken_inv none m h = absurd (ground arith)
  taken_inv (some (n, [])) m h = ground arith
  taken_inv (some (n, b ∷ rest)) m h = absurd (ground arith)

  decode_inv :
      (payload : Bytes) (m : M)
      → decode codec payload ≡ ok m
      → take_from_bytes payload ≡ some (m, [])
  unfolding decode
  decode_inv payload m h = taken_inv (take_from_bytes payload) m h

  -- A message is accepted only from a whole frame: four bytes of length, as many bytes as they say,
  -- no more than `max_message_bytes`, which decode to the message with nothing left over. What is
  -- behind the frame stays in the stream.
  pub read_message_frame :
      (stream rest : Bytes) (m : M)
      → read_message codec stream ≡ ok (m, rest)
      → (head : Bytes) × (body : Bytes) × (stream ≡ head ++ (body ++ rest))
        × (length head ≡ 4)
        × (length body ≡ from_be_bytes head)
        × (length body ≤ max_message_bytes)
        × (take_from_bytes body ≡ some (m, []))
  unfolding read_message
  read_message_frame stream rest m h = elim (Result-cases (read_exact 4 stream)) [
    | inr (e, failed) ↦ absurd (ground arith)
    | inl ((head, tail), got) ↦ elim (Bool-cases (ltb max_message_bytes (from_be_bytes head))) [
      | inl large ↦ absurd (ground arith)
      | inr small ↦ elim (Result-cases (read_exact (from_be_bytes head) tail)) [
        | inr (e, failed) ↦ absurd (ground arith)
        | inl ((body, left), full) ↦ elim (Result-cases (decode codec body)) [
          | inr (e, failed) ↦ absurd (ground arith)
          | inl (n, decoded) ↦
              let same : (n ≡ m) × (left ≡ rest) = (ground arith, ground arith) in
              let (split, four) = read_exact_inv 4 stream head tail got in
              let (again, size) = read_exact_inv (from_be_bytes head) tail body left full in
              (
                head,
                body,
                split ∙ ap (◌++◌ head) (again ∙ ap (◌++◌ body) same.1),
                four,
                size,
                omega (arith, ltb_false→le _ _ small),
                decode_inv body n decoded ∙ ap (λ k. some (k, [])) same.0,
              )
        ]
      ]
    ]
  ]
