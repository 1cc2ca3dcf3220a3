-- ===== src/Serial/FirmwareLine.antt =====
-- `parse_firmware_line` of `cocktail-maker/serial.cppm`.
pub mod Laws
use cocktail_maker.Prelude.{
  ℕ, zero, suc, ◌+◌, Bool, true, false, List, [], ◌∷◌, ◌++◌, Option, none, some, ◌==◌, ℕ_eq,
  if◌then◌else◌, length, take, drop, get_elem?,
}
use cocktail_maker.Serial.Ansi.{Bytes, strip_ansi}

pub data Level : Type 0 where
  debug : Level
  info : Level
  warn : Level
  error : Level

-- A tag `<abc>`.
abbrev pub tag_of : ℕ → ℕ → ℕ → Bytes
tag_of a b c = b'<' ∷ a ∷ b ∷ c ∷ b'>' ∷ []

abbrev pub k_zephyr_level_tags : List (Bytes × Level)
k_zephyr_level_tags =
    (tag_of b'e' b'r' b'r', error)
    ∷ (tag_of b'w' b'r' b'n', warn)
    ∷ (tag_of b'i' b'n' b'f', info)
    ∷ (tag_of b'd' b'b' b'g', debug)
    ∷ []

pub record FirmwareLine : Type 0 where
  pub level : Level
  pub text : Bytes

unfoldable pub starts_with : Bytes → Bytes → Bool
starts_with [] l = true
starts_with (c ∷ cs) [] = false
starts_with (c ∷ cs) (d ∷ ds) = if c == d then starts_with cs ds else false

-- `text.find(tag)`: where the tag starts first.
unfoldable pub find_text : Bytes → Bytes → Option ℕ
unfolding starts_with
find_text tag [] = if starts_with tag [] then some 0 else none
find_text tag (c ∷ cs) =
    let rest = find_text tag cs in
    if starts_with tag (c ∷ cs) then some 0 else elim rest [ some n ↦ some (suc n) | none ↦ none ]

-- `text.erase(pos, count)` for a position within the text.
abbrev pub erase_at : ℕ → ℕ → Bytes → Bytes
erase_at pos count text = take pos text ++ drop (pos + count) text

-- `if (pos < text.size() && text[pos] == ' ') text.erase(pos, 1)`
abbrev pub erase_space : ℕ → Bytes → Bytes
erase_space pos text = elim (get_elem? text pos) [
  | some c ↦ if c == b' ' then erase_at pos 1 text else text
  | none ↦ text
]

-- The loop over the tags: the first tag of the table that the text contains.
unfoldable pub match_tags : List (Bytes × Level) → Bytes → FirmwareLine
unfolding find_text
match_tags [] text = record { level = info; text = text }
match_tags ((tag, level) ∷ tags) text =
    let rest = match_tags tags text in
    elim (find_text tag text) [
      | none ↦ rest
      | some pos ↦ record { level = level; text = erase_space pos (erase_at pos (length tag) text) }
    ]

unfoldable pub parse_firmware_line : Bytes → FirmwareLine
unfolding match_tags
parse_firmware_line raw = match_tags k_zephyr_level_tags (strip_ansi raw)
