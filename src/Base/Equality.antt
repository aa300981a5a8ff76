-- ===== src/Base/Equality.antt =====
-- Derived `PartialEq`: a Boolean test that decides equality.
use mult.Base.{ℕ, ◌≡◌, refl, ◌↔◌, Bool, true, false, arith, ◌==◌, ◌≢◌, inl, inr, Bool-cases}

pub record Eq {ℓ} (A : Type ℓ) : Type ℓ where
  pub beq : A → A → Bool
  pub beq_iff : (x y : A) → (beq x y ≡ true) ↔ (x ≡ y)

infix 50 ◌=?◌
abbrev pub ◌=?◌ {ℓ} : {A : Type ℓ} ⦃e : Eq A⦄ → A → A → Bool
◌=?◌ ⦃e⦄ = e.beq

module _ {ℓ} {A : Type ℓ} ⦃e : Eq A⦄ where
  pub =?-self : (a : A) → (a =? a) ≡ true
  =?-self a = (e.beq_iff a a).1 refl

  pub =?-ne : (a b : A) → a ≢ b → (a =? b) ≡ false
  =?-ne a b h = elim (Bool-cases (a =? b)) [
    | inl same ↦ absurd (h ((e.beq_iff a b).0 same))
    | inr other ↦ other
  ]

  pub =?→eq : (a b : A) → (a =? b) ≡ true → a ≡ b
  =?→eq a b = (e.beq_iff a b).0

pub nat_beq_iff : (a b : ℕ) → ((a == b) ≡ true) ↔ (a ≡ b)
nat_beq_iff a b = ground arith

instance abbrev pub nat_eq : Eq ℕ
nat_eq = record { beq = ◌==◌; beq_iff = nat_beq_iff }
