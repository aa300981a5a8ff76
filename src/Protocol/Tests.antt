-- ===== src/Protocol/Tests.antt =====
-- The protocol at concrete inputs; a message is one byte here.
use mult.Base.{ℕ, ◌≤◌, ◌≡◌, refl, Option, none, some, [], ◌∷◌, ◌++◌, arith, length}
use mult.Base.Result.{ok}
use mult.Protocol.Framing.{
  Bytes, Codec, from_be_bytes, to_be_bytes, read_exact, decode, read_message, write_message,
  read-write_message, read_message_frame, max_message_bytes,
}

abbrev take_byte : Bytes → Option (ℕ × Bytes)
take_byte [] = none
take_byte (b ∷ rest) = some (b, rest)

takes_byte :
    (m : ℕ) (payload rest : Bytes)
    → some (m ∷ []) ≡ some payload
    → take_byte (payload ++ rest) ≡ some (m, rest)
takes_byte m [] rest e = absurd (ground arith)
takes_byte m (b ∷ []) rest e = ground arith
takes_byte m (b ∷ c ∷ payload) rest e = absurd (ground arith)

abbrev byte_codec : Codec ℕ
byte_codec = record {
  to_allocvec = λ m. some (m ∷ []);
  take_from_bytes = take_byte;
  takes_encoded = takes_byte;
}

abbrev frame : Bytes
frame = 0 ∷ 0 ∷ 0 ∷ 1 ∷ 42 ∷ []

writes_42 : write_message byte_codec 42 ≡ ok frame
unfolding write_message to_be_bytes
writes_42 = refl

reads_42 : read_message byte_codec (frame ++ 7 ∷ []) ≡ ok (42, 7 ∷ [])
unfolding read_message read_exact from_be_bytes decode
reads_42 = refl

read-write_message_example : read_message byte_codec (frame ++ 7 ∷ []) ≡ ok (42, 7 ∷ [])
read-write_message_example = read-write_message byte_codec 42 frame (7 ∷ []) writes_42

read_message_frame_example :
    (head : Bytes) × (body : Bytes) × (frame ++ 7 ∷ [] ≡ head ++ (body ++ 7 ∷ []))
    × (length head ≡ 4)
    × (length body ≡ from_be_bytes head)
    × (length body ≤ max_message_bytes)
    × (take_byte body ≡ some (42, []))
read_message_frame_example = read_message_frame byte_codec (frame ++ 7 ∷ []) (7 ∷ []) 42 reads_42
