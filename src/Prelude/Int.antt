-- ===== src/Prelude/Int.antt =====
-- Signed integers over the native numbers, for the values of type `int`, `int64_t` and of exact
-- arithmetic. Sums and orders go through the two parts of an integer, which `omega` reads.
use cocktail_maker.Prelude.{
  ℕ, suc, ◌+◌, ◌-◌, ◌*◌, ◌<◌, ◌≤◌, ◌≡◌, ◌↔◌, ◌%◌, ◌^◌, Bool, true, false, arith, Comparable, nat_eq,
  nat_eq_iff, ltb, leb, if◌then◌else◌,
}

-- `negsuc n` is -(n + 1).
pub data ℤ : Type 0 where
  pos : ℕ → ℤ
  negsuc : ℕ → ℤ

abbrev pub pos_part : ℤ → ℕ
pos_part (pos n) = n
pos_part (negsuc n) = 0

abbrev pub neg_part : ℤ → ℕ
neg_part (pos n) = 0
neg_part (negsuc n) = suc n

-- a - b, as an integer.
abbrev pub sub_ℕ : ℕ → ℕ → ℤ
sub_ℕ a b = if leb b a then pos (a - b) else negsuc (b - a - 1)

infixl 65 ◌+ℤ◌ ◌-ℤ◌
infixl 70 ◌*ℤ◌
infix 50 ◌≤ℤ◌
unfoldable pub ◌+ℤ◌ : ℤ → ℤ → ℤ
a +ℤ b = sub_ℕ (pos_part a + pos_part b) (neg_part a + neg_part b)

unfoldable pub ◌-ℤ◌ : ℤ → ℤ → ℤ
a -ℤ b = sub_ℕ (pos_part a + neg_part b) (neg_part a + pos_part b)

unfoldable pub ◌*ℤ◌ : ℤ → ℤ → ℤ
a *ℤ b =
    sub_ℕ (pos_part a * pos_part b + neg_part a * neg_part b)
      (pos_part a * neg_part b + neg_part a * pos_part b)

abbrev pub ◌≤ℤ◌ : ℤ → ℤ → Type 0
a ≤ℤ b = pos_part a + neg_part b ≤ pos_part b + neg_part a

abbrev pub ltb_ℤ : ℤ → ℤ → Bool
ltb_ℤ a b = ltb (pos_part a + neg_part b) (pos_part b + neg_part a)

-- One lemma for each operation lets `omega` work with the operations shut, at any depth.
pub +ℤ_parts :
    (a b : ℤ)
    → pos_part (a +ℤ b) + neg_part a + neg_part b ≡ neg_part (a +ℤ b) + pos_part a + pos_part b
unfolding ◌+ℤ◌
+ℤ_parts a b = ground arith

pub -ℤ_parts :
    (a b : ℤ)
    → pos_part (a -ℤ b) + neg_part a + pos_part b ≡ neg_part (a -ℤ b) + pos_part a + neg_part b
unfolding ◌-ℤ◌
-ℤ_parts a b = ground arith

pub eq_of_parts : (a b : ℤ) → pos_part a + neg_part b ≡ pos_part b + neg_part a → a ≡ b
eq_of_parts a b h = ground arith

pub ruleset int_laws = (arith, +ℤ_parts, -ℤ_parts, eq_of_parts)

abbrev pub equal_ℤ : ℤ → ℤ → Bool
equal_ℤ (pos a) (pos b) = nat_eq a b
equal_ℤ (negsuc a) (negsuc b) = nat_eq a b
equal_ℤ _ _ = false

pub equal_ℤ_iff : (a b : ℤ) → (equal_ℤ a b ≡ true) ↔ (a ≡ b)
equal_ℤ_iff (pos a) (pos b) = ground arith
equal_ℤ_iff (pos a) (negsuc b) = ground arith
equal_ℤ_iff (negsuc a) (pos b) = ground arith
equal_ℤ_iff (negsuc a) (negsuc b) = ground arith

instance abbrev pub ℤ_eq : Comparable ℤ
ℤ_eq = record { equal = equal_ℤ; equal_iff = equal_ℤ_iff }

-- The integer of 32 bits with the same low bits, in two's complement.
abbrev signed_32 : ℕ → ℤ
signed_32 low = if ltb low 2147483648 then pos low else negsuc (4294967295 - low)

unfoldable pub to_int32 : ℤ → ℤ
to_int32 (pos n) = signed_32 (n % 4294967296)
to_int32 (negsuc n) = signed_32 (4294967295 - n % 4294967296)

abbrev pub IsInt32 : ℤ → Type 0
IsInt32 z = (pos_part z < 2147483648) × (neg_part z ≤ 2147483648)

pub to_int32_small : (z : ℤ) → IsInt32 z → to_int32 z ≡ z
unfolding to_int32
to_int32_small (pos n) h = ground arith
to_int32_small (negsuc n) h = ground arith
