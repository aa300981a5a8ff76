-- ===== src/Protocol/Ids.antt =====
-- crates/protocol/src/lib.rs: identities and sequence numbers. A `u64` is a number below
-- `u64_limit`; 16 opaque bytes are the number that they spell.
use mult.Base.{
  ℕ, ◌+◌, ◌^◌, ◌≡◌, ◌↔◌, Bool, true, ◌&&◌, Option, none, some, arith, ltb, ◌==◌, if◌then◌else◌,
}
use mult.Base.Equality.{Eq}

abbrev pub u64_limit : ℕ
u64_limit = 2 ^ 64

-- `u64::checked_add`.
abbrev pub checked_add : ℕ → ℕ → Option ℕ
checked_add a b = if ltb (a + b) u64_limit then some (a + b) else none

-- `RequestId::new` and `AttachmentLease::new`: zero is refused.
abbrev pub nonzero : ℕ → Option ℕ
nonzero value = if value == 0 then none else some value

abbrev pub min_id : ℕ
min_id = 1

-- `checked_next` of both: the next ID, or none at the end of the space.
unfoldable pub checked_next : ℕ → Option ℕ
checked_next value = elim (checked_add value 1) [ none ↦ none | some next ↦ nonzero next ]

-- `OutputSequence::checked_add_bytes`.
abbrev pub checked_add_bytes : ℕ → ℕ → Option ℕ
checked_add_bytes sequence byte_count = checked_add sequence byte_count

-- `from_bytes` of an opaque non-zero identity.
unfoldable pub from_bytes : ℕ → Option ℕ
from_bytes bytes = if bytes == 0 then none else some bytes

pub record SessionIdentity : Type 0 where
  pub namespace : ℕ
  pub token : ℕ

unfoldable pub identity_beq : SessionIdentity → SessionIdentity → Bool
identity_beq a b = (a.namespace == b.namespace) && (a.token == b.token)

pub identity_beq_iff : (a b : SessionIdentity) → (identity_beq a b ≡ true) ↔ (a ≡ b)
unfolding identity_beq
identity_beq_iff a b = ground arith

instance abbrev pub identity_eq : Eq SessionIdentity
identity_eq = record { beq = identity_beq; beq_iff = identity_beq_iff }
