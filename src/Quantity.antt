-- ===== src/Quantity.antt =====
-- `core/units.cppm`: volumes and the `double` that carries them. There are no floats here: the type
-- and its operations are a parameter, and so are the laws of exact arithmetic, for the statements
-- that speak of sums of volumes. A `Litre` stands for its number of millilitres.
pub mod Integers
pub mod Laws
use cocktail_maker.Prelude.{◌≡◌, Bool}

-- What the program does with a `double`.
pub record Double {ℓ} (Q : Type ℓ) : Type ℓ where
  pub nought : Q
  pub unit : Q
  pub hundred : Q
  pub epsilon : Q
  pub add : Q → Q → Q
  pub sub : Q → Q → Q
  pub mul : Q → Q → Q
  pub div : Q → Q → Q
  pub abs : Q → Q
  pub le : Q → Q → Bool
  pub lt : Q → Q → Bool

infixl 65 ◌⊕◌ ◌⊖◌
infixl 70 ◌⊗◌ ◌⊘◌
module _ {ℓ} {Q : Type ℓ} ⦃d : Double Q⦄ where
  abbrev pub ◌⊕◌ : Q → Q → Q
  ◌⊕◌ = d.add

  abbrev pub ◌⊖◌ : Q → Q → Q
  ◌⊖◌ = d.sub

  abbrev pub ◌⊗◌ : Q → Q → Q
  ◌⊗◌ = d.mul

  abbrev pub ◌⊘◌ : Q → Q → Q
  ◌⊘◌ = d.div

-- Sums and products are exact. Division is no part of this: where a quotient has to be exact, the
-- statement says so at that quotient.
pub record IsExact {ℓ} (Q : Type ℓ) ⦃d : Double Q⦄ : Type ℓ where
  pub add_comm : (a b : Q) → a ⊕ b ≡ b ⊕ a
  pub add_assoc : (a b c : Q) → a ⊕ b ⊕ c ≡ a ⊕ (b ⊕ c)
  pub add_nought : (a : Q) → a ⊕ d.nought ≡ a
  pub sub_add : (a b : Q) → a ⊖ b ⊕ b ≡ a
  pub mul_comm : (a b : Q) → a ⊗ b ≡ b ⊗ a
  pub mul_assoc : (a b c : Q) → a ⊗ b ⊗ c ≡ a ⊗ (b ⊗ c)
  pub mul_unit : (a : Q) → a ⊗ d.unit ≡ a
  pub mul_add : (a b c : Q) → a ⊗ (b ⊕ c) ≡ a ⊗ b ⊕ a ⊗ c
