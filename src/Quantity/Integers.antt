-- ===== src/Quantity/Integers.antt =====
-- Whole millilitres: the laws of exact arithmetic can be met. Division rounds towards zero.
use mathlib.Core.Int.{
  ℤ, pos, negsuc, ◌+ℤ◌, ◌-ℤ◌, neg_ℤ, ◌*ℤ◌, nat_abs, +ℤ_assoc, +ℤ_comm, +ℤ_idl, +ℤ_invl, +ℤ_invr,
  -ℤ-+ℤ_cancel, neg_ℤ-+ℤ, *ℤ_comm,
}
use mathlib.Core.Nat.{ℕ, zero, suc}
use cocktail_maker.Prelude.{◌≡◌, refl, sym, ap, ap₂, ◌∙◌, Bool, true, false}
use cocktail_maker.Quantity.{Double, IsExact}

swap_middle : (x y a b : ℤ) → (x +ℤ y) +ℤ (a +ℤ b) ≡ (x +ℤ a) +ℤ (y +ℤ b)
swap_middle x y a b =
    +ℤ_assoc x y (a +ℤ b)
    ∙ ap (◌+ℤ◌ x) (sym (+ℤ_assoc y a b) ∙ ap (λ t. t +ℤ b) (+ℤ_comm y a) ∙ +ℤ_assoc a y b)
    ∙ sym (+ℤ_assoc x a (y +ℤ b))

add_times : (a b c : ℤ) → (a +ℤ b) *ℤ c ≡ a *ℤ c +ℤ b *ℤ c
add_times a b (pos zero) = refl
add_times a b (pos (suc n)) =
    ap (λ t. t +ℤ (a +ℤ b)) (add_times a b (pos n)) ∙ swap_middle (a *ℤ pos n) (b *ℤ pos n) a b
add_times a b (negsuc zero) = neg_ℤ-+ℤ a b
add_times a b (negsuc (suc n)) =
    ap₂ ◌+ℤ◌ (add_times a b (negsuc n)) (neg_ℤ-+ℤ a b)
    ∙ swap_middle (a *ℤ negsuc n) (b *ℤ negsuc n) (neg_ℤ a) (neg_ℤ b)

times_add : (a b c : ℤ) → a *ℤ (b +ℤ c) ≡ a *ℤ b +ℤ a *ℤ c
times_add a b c = *ℤ_comm a (b +ℤ c) ∙ add_times b c a ∙ ap₂ ◌+ℤ◌ (*ℤ_comm b a) (*ℤ_comm c a)

neg_of_add : (x y : ℤ) → x +ℤ y ≡ pos zero → y ≡ neg_ℤ x
neg_of_add x y h =
    sym (+ℤ_idl y)
    ∙ ap (λ t. t +ℤ y) (sym (+ℤ_invl x))
    ∙ +ℤ_assoc (neg_ℤ x) x y
    ∙ ap (◌+ℤ◌ (neg_ℤ x)) h

times_neg : (a b : ℤ) → a *ℤ neg_ℤ b ≡ neg_ℤ (a *ℤ b)
times_neg a b =
    neg_of_add (a *ℤ b) (a *ℤ neg_ℤ b) (sym (times_add a b (neg_ℤ b)) ∙ ap (◌*ℤ◌ a) (+ℤ_invr b))

times_assoc : (a b c : ℤ) → a *ℤ b *ℤ c ≡ a *ℤ (b *ℤ c)
times_assoc a b (pos zero) = refl
times_assoc a b (pos (suc n)) =
    ap (λ t. t +ℤ a *ℤ b) (times_assoc a b (pos n)) ∙ sym (times_add a (b *ℤ pos n) b)
times_assoc a b (negsuc zero) = sym (times_neg a b)
times_assoc a b (negsuc (suc n)) =
    ap₂ ◌+ℤ◌ (times_assoc a b (negsuc n)) (sym (times_neg a b))
    ∙ sym (times_add a (b *ℤ negsuc n) (neg_ℤ b))

abbrev is_negative : ℤ → Bool
is_negative (pos n) = false
is_negative (negsuc n) = true

abbrev is_nonnegative : ℤ → Bool
is_nonnegative (pos n) = true
is_nonnegative (negsuc n) = false

-- How often `b` fits into `a`, counting up to the first argument.
abbrev times_in : ℕ → ℤ → ℤ → ℕ
times_in zero a b = zero
times_in (suc fuel) a b = elim (a -ℤ b) [
  | negsuc _ ↦ zero
  | pos rest ↦ suc (times_in fuel (pos rest) b)
]

abbrev quotient : ℤ → ℤ → ℤ
quotient (pos a) (pos b) = pos (times_in a (pos a) (pos b))
quotient (pos a) (negsuc b) = neg_ℤ (pos (times_in a (pos a) (pos (suc b))))
quotient (negsuc a) (pos b) = neg_ℤ (pos (times_in (suc a) (pos (suc a)) (pos b)))
quotient (negsuc a) (negsuc b) = pos (times_in (suc a) (pos (suc a)) (pos (suc b)))

-- The least positive number is one.
instance abbrev pub ℤ_double : Double ℤ
ℤ_double = record {
  nought = pos zero;
  unit = pos (suc zero);
  hundred = pos 100;
  epsilon = pos (suc zero);
  add = ◌+ℤ◌;
  sub = ◌-ℤ◌;
  mul = ◌*ℤ◌;
  div = quotient;
  abs = λ a. pos (nat_abs a);
  le = λ a b. is_nonnegative (b -ℤ a);
  lt = λ a b. is_negative (a -ℤ b);
}

pub ℤ-IsExact : IsExact ℤ
ℤ-IsExact = record {
  add_comm = +ℤ_comm;
  add_assoc = +ℤ_assoc;
  add_nought = λ a. refl;
  sub_add = -ℤ-+ℤ_cancel;
  mul_comm = *ℤ_comm;
  mul_assoc = times_assoc;
  mul_unit = λ a. +ℤ_idl a;
  mul_add = times_add;
}
