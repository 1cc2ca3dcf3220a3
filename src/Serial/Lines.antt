-- ===== src/Serial/Lines.antt =====
-- `LineAssembler` of `cocktail-maker/serial.cppm`.
pub mod Laws
use cocktail_maker.Prelude.{
  ℕ, Bool, List, [], ◌∷◌, ◌++◌, ltb, ◌==◌, ℕ_eq, if◌then◌else◌, length, map,
}
use cocktail_maker.Serial.Ansi.{Bytes}

pub record LineAssembler : Type 0 where
  pub max_line : ℕ
  pub pending : Bytes

abbrev pub k_max_log_line : ℕ
k_max_log_line = 4096

unfoldable pub new_assembler : ℕ → LineAssembler
new_assembler max_line = record { max_line = max_line; pending = [] }

-- `if (line.ends_with('\r')) line.remove_suffix(1)`
unfoldable pub trim_cr : Bytes → Bytes
trim_cr [] = []
trim_cr (c ∷ []) = if c == b'\r' then [] else c ∷ []
trim_cr (c ∷ d ∷ rest) = c ∷ trim_cr (d ∷ rest)

-- A byte in front of the first line, or of what is left where there is no line.
unfoldable pub put : ℕ → List Bytes × Bytes → List Bytes × Bytes
put c ([], rest) = ([], c ∷ rest)
put c (line ∷ lines, rest) = ((c ∷ line) ∷ lines, rest)

-- The loop over the newlines: the lines that end in one, and what follows the last.
unfoldable pub split_lines : Bytes → List Bytes × Bytes
unfolding put
split_lines [] = ([], [])
split_lines (c ∷ cs) =
    let (lines, rest) = split_lines cs in
    if c == b'\n' then ([] ∷ lines, rest) else put c (lines, rest)

-- The forced flush of an unterminated line that is too long.
unfoldable pub flush : LineAssembler → List Bytes → Bytes → LineAssembler × List Bytes
flush a lines rest =
    if ltb a.max_line (length rest)
    then (record a { pending = [] }, lines ++ (rest ∷ []))
    else (record a { pending = rest }, lines)

-- The new state, and the lines handed to `on_line` in order.
unfoldable pub feed : LineAssembler → Bytes → LineAssembler × List Bytes
unfolding split_lines flush trim_cr
feed a chunk =
    let (lines, rest) = split_lines (a.pending ++ chunk) in flush a (map trim_cr lines) rest
