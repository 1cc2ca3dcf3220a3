-- ===== src/Quantity/Laws.antt =====
-- Consequences of the laws of exact arithmetic.
use cocktail_maker.Prelude.{◌≡◌, sym, ap, ap₂, ◌∙◌}
use cocktail_maker.Quantity.{Double, IsExact, ◌⊕◌, ◌⊖◌, ◌⊗◌}

module _ {ℓ} {Q : Type ℓ} ⦃d : Double Q⦄ (exact : IsExact Q) where
  open exact use {add_comm, add_assoc, add_nought, sub_add, mul_comm, mul_unit, mul_add}

  pub nought_add : (a : Q) → d.nought ⊕ a ≡ a
  nought_add a = add_comm d.nought a ∙ add_nought a

  pub add_swap : (a b x y : Q) → a ⊕ b ⊕ (x ⊕ y) ≡ a ⊕ x ⊕ (b ⊕ y)
  add_swap a b x y =
      add_assoc a b (x ⊕ y)
      ∙ ap (◌⊕◌ a) (sym (add_assoc b x y) ∙ ap (λ t. t ⊕ y) (add_comm b x) ∙ add_assoc x b y)
      ∙ sym (add_assoc a x (b ⊕ y))

  -- Both sides of a sum may be cancelled.
  pub cancel_add : (a b c : Q) → a ⊕ c ≡ b ⊕ c → a ≡ b
  cancel_add a b c h = back a ∙ ap (λ t. t ⊕ (d.nought ⊖ c)) h ∙ sym (back b)
    where
      back : (x : Q) → x ≡ x ⊕ c ⊕ (d.nought ⊖ c)
      back x = sym (
          add_assoc x c (d.nought ⊖ c)
          ∙ ap (◌⊕◌ x) (add_comm c (d.nought ⊖ c) ∙ sub_add d.nought c)
          ∙ add_nought x)

  pub mul_nought : (a : Q) → a ⊗ d.nought ≡ d.nought
  mul_nought a = cancel_add (a ⊗ d.nought) d.nought (a ⊗ d.nought) (
      sym (mul_add a d.nought d.nought)
      ∙ ap (◌⊗◌ a) (add_nought d.nought)
      ∙ sym (nought_add (a ⊗ d.nought)))

  pub nought_mul : (a : Q) → d.nought ⊗ a ≡ d.nought
  nought_mul a = mul_comm d.nought a ∙ mul_nought a

  pub add_mul : (a b c : Q) → (a ⊕ b) ⊗ c ≡ a ⊗ c ⊕ b ⊗ c
  add_mul a b c = mul_comm (a ⊕ b) c ∙ mul_add c a b ∙ ap₂ ◌⊕◌ (mul_comm c a) (mul_comm c b)

  -- `v (1 + q) = v + v q`, and `v (1 - p) + v p = v`.
  pub mul_unit_add : (v q : Q) → v ⊗ (d.unit ⊕ q) ≡ v ⊕ v ⊗ q
  mul_unit_add v q = mul_add v d.unit q ∙ ap (λ t. t ⊕ v ⊗ q) (mul_unit v)

  pub mul_unit_sub : (v p : Q) → v ⊗ (d.unit ⊖ p) ⊕ v ⊗ p ≡ v
  mul_unit_sub v p = sym (mul_add v (d.unit ⊖ p) p) ∙ ap (◌⊗◌ v) (sub_add d.unit p) ∙ mul_unit v
