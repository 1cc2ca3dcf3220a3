-- ===== src/Serial/Ansi.antt =====
-- `strip_ansi` of `cocktail-maker/serial.cppm`. A line is the list of its bytes.
pub mod Laws
use cocktail_maker.Prelude.{
  ℕ, zero, suc, Bool, true, false, ◌&&◌, List, [], ◌∷◌, leb, ◌==◌, ℕ_eq, if◌then◌else◌, length,
}

abbrev pub Bytes : Type 0
Bytes = List ℕ

abbrev pub escape : ℕ
escape = 0x1b

unfoldable pub contains_escape : Bytes → Bool
contains_escape [] = false
contains_escape (c ∷ cs) = let rest = contains_escape cs in if c == escape then true else rest

abbrev pub is_parameter_byte : ℕ → Bool
is_parameter_byte c = leb 0x20 c && leb c 0x3f

abbrev pub is_final_byte : ℕ → Bool
is_final_byte c = leb 0x40 c && leb c 0x7e

-- The inner loop: what follows the parameter bytes.
unfoldable pub skip_parameters : Bytes → Bytes
skip_parameters [] = []
skip_parameters (c ∷ cs) =
    let rest = skip_parameters cs in if is_parameter_byte c then rest else c ∷ cs

-- `end + 1`, or the end of the line where no final byte ends the sequence.
unfoldable pub after_final : Bytes → Bytes
after_final [] = []
after_final (c ∷ cs) = if is_final_byte c then cs else []

-- Where the loop goes on after an escape byte.
unfoldable pub after_escape : Bytes → Bytes
unfolding skip_parameters after_final
after_escape [] = []
after_escape (c ∷ cs) = if c == b'[' then after_final (skip_parameters cs) else c ∷ cs

-- The loop over `line`, from the byte at `i` on. Each round reads a byte, so the length of the line
-- is fuel enough.
unfoldable pub strip_from : ℕ → Bytes → Bytes
unfolding after_escape
strip_from zero line = []
strip_from (suc fuel) [] = []
strip_from (suc fuel) (c ∷ cs) =
    let skipped = strip_from fuel (after_escape cs) in
    let kept = strip_from fuel cs in if c == escape then skipped else c ∷ kept

unfoldable pub strip_ansi : Bytes → Bytes
unfolding contains_escape strip_from
strip_ansi line = if contains_escape line then strip_from (length line) line else line
