-- ===== src/Serial/Ansi/Laws.antt =====
-- The loop against a scanner with three modes, and what follows from it.
use cocktail_maker.Prelude.{
  ℕ, zero, suc, ◌≤◌, ◌≡◌, refl, sym, ap, ◌∙◌, true, false, [], ◌∷◌, arith, ◌==◌, ℕ_eq, length,
  Bool-cases, inl, inr,
}
use cocktail_maker.Serial.Ansi.{
  Bytes, escape, contains_escape, is_parameter_byte, is_final_byte, skip_parameters, after_final,
  after_escape, strip_from, strip_ansi,
}

-- Plain text; behind an escape byte; inside `ESC [ …`.
pub data Mode : Type 0 where
  plain escaped inside : Mode

-- What is shown of a line that is read byte by byte.
abbrev pub shown : Mode → Bytes → Bytes
shown plain [] = []
shown plain (c ∷ cs) = elim (c == escape) [ true ↦ shown escaped cs | false ↦ c ∷ shown plain cs ]
shown escaped [] = []
shown escaped (c ∷ cs) = elim (c == b'[') [
  | true ↦ shown inside cs
  | false ↦ elim (c == escape) [ true ↦ shown escaped cs | false ↦ c ∷ shown plain cs ]
]
shown inside [] = []
shown inside (c ∷ cs) = elim (is_parameter_byte c) [
  | true ↦ shown inside cs
  | false ↦ elim (is_final_byte c) [ true ↦ shown plain cs | false ↦ [] ]
]

length-skip_parameters : (l : Bytes) → length (skip_parameters l) ≤ length l
unfolding skip_parameters
length-skip_parameters [] = omega arith
length-skip_parameters (c ∷ cs) = ground (arith, length-skip_parameters cs)

length-after_final : (l : Bytes) → length (after_final l) ≤ length l
unfolding after_final
length-after_final [] = omega arith
length-after_final (c ∷ cs) = ground arith

shown_inside : (l : Bytes) → shown inside l ≡ shown plain (after_final (skip_parameters l))
unfolding skip_parameters after_final
shown_inside [] = refl
shown_inside (c ∷ cs) = ground (arith, shown_inside cs)

shown_escaped : (l : Bytes) → shown escaped l ≡ shown plain (after_escape l)
unfolding after_escape
shown_escaped [] = refl
shown_escaped (c ∷ cs) = ground (arith, shown_inside cs)

length-after_escape : (l : Bytes) → length (after_escape l) ≤ length l
unfolding after_escape
length-after_escape [] = omega arith
length-after_escape (c ∷ cs) =
    let inner : length (after_final (skip_parameters cs)) ≤ length cs =
      omega (arith, length-after_final (skip_parameters cs), length-skip_parameters cs) in
    ground (arith, inner)

strip_from-shown : (fuel : ℕ) (l : Bytes) → length l ≤ fuel → strip_from fuel l ≡ shown plain l
unfolding strip_from
strip_from-shown zero [] h = refl
strip_from-shown zero (c ∷ cs) h = absurd (omega arith)
strip_from-shown (suc fuel) [] h = refl
strip_from-shown (suc fuel) (c ∷ cs) h =
    let skipped : strip_from fuel (after_escape cs) ≡ shown plain (after_escape cs) =
      strip_from-shown fuel (after_escape cs) (omega (arith, length-after_escape cs)) in
    let kept : strip_from fuel cs ≡ shown plain cs = strip_from-shown fuel cs (omega arith) in
    elim (Bool-cases (c == escape)) [
      | inl e ↦ rw (e, shown) (skipped ∙ sym (shown_escaped cs))
      | inr n ↦ rw (n, shown) (ap (◌∷◌ c) kept)
    ]

shown_plain : (l : Bytes) → contains_escape l ≡ false → shown plain l ≡ l
unfolding contains_escape
shown_plain [] h = refl
shown_plain (c ∷ cs) h = ground (arith, shown_plain cs)

-- On every line, strip_ansi gives what a scanner with three modes (plain, behind an escape byte,
-- inside a sequence) shows.
pub strip_ansi-shown : (l : Bytes) → strip_ansi l ≡ shown plain l
unfolding strip_ansi
strip_ansi-shown l = elim (Bool-cases (contains_escape l)) [
  | inl some_escape ↦ rw some_escape (strip_from-shown (length l) l (omega arith))
  | inr no_escape ↦ rw no_escape (sym (shown_plain l no_escape))
]

contains_escape-shown : (m : Mode) (l : Bytes) → contains_escape (shown m l) ≡ false
unfolding contains_escape
contains_escape-shown plain [] = refl
contains_escape-shown escaped [] = refl
contains_escape-shown inside [] = refl
contains_escape-shown plain (c ∷ cs) =
    ground (arith, contains_escape-shown plain cs, contains_escape-shown escaped cs)
contains_escape-shown escaped (c ∷ cs) = ground (
  arith,
  contains_escape-shown plain cs,
  contains_escape-shown escaped cs,
  contains_escape-shown inside cs,
)
contains_escape-shown inside (c ∷ cs) =
    ground (arith, contains_escape-shown plain cs, contains_escape-shown inside cs)

-- No escape byte is left in a stripped line, so stripping it again changes nothing.
pub strip_ansi-clean :
    (l : Bytes)
    → (contains_escape (strip_ansi l) ≡ false) × (strip_ansi (strip_ansi l) ≡ strip_ansi l)
strip_ansi-clean l =
    let clean : contains_escape (strip_ansi l) ≡ false =
      ap contains_escape (strip_ansi-shown l) ∙ contains_escape-shown plain l in
    (clean, strip_ansi-shown (strip_ansi l) ∙ shown_plain (strip_ansi l) clean)
