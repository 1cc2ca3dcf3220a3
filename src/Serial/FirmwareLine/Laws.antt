-- ===== src/Serial/FirmwareLine/Laws.antt =====
-- The tag of a line is found, and it and one space are taken out.
use cocktail_maker.Prelude.{
  ℕ, suc, ◌+◌, ◌≡◌, refl, ap, ap₂, ◌∙◌, Bool, true, false, [], ◌∷◌, ◌++◌, Option, none, some, ◌==◌,
  ℕ_eq, if◌then◌else◌, length, take, drop, get_elem?, arith,
}
use cocktail_maker.Serial.Ansi.{Bytes, strip_ansi, contains_escape}
use cocktail_maker.Serial.FirmwareLine.{
  Level, debug, info, warn, error, tag_of, k_zephyr_level_tags, starts_with, find_text, erase_at,
  erase_space, match_tags, parse_firmware_line,
}

-- A text without `<` and without an escape byte.
abbrev pub is_plain : Bytes → Bool
is_plain [] = true
is_plain (c ∷ cs) = if c == b'<' then false else if c == 0x1b then false else is_plain cs

abbrev shift : ℕ → Option ℕ → Option ℕ
shift k (some n) = some (k + n)
shift k none = none

find_text-none : (tag text : Bytes) → is_plain text ≡ true → find_text (b'<' ∷ tag) text ≡ none
unfolding find_text starts_with
find_text-none tag [] h = refl
find_text-none tag (c ∷ cs) h = ground (arith, find_text-none tag cs)

find_text-append :
    (tag pre text : Bytes)
    → is_plain pre ≡ true
    → find_text (b'<' ∷ tag) (pre ++ text) ≡ shift (length pre) (find_text (b'<' ∷ tag) text)
unfolding find_text starts_with
find_text-append tag [] text h = ground arith
find_text-append tag (c ∷ cs) text h = ground (arith, find_text-append tag cs text)

take-length : (xs ys : Bytes) → take (length xs) (xs ++ ys) ≡ xs
take-length [] ys = refl
take-length (x ∷ xs) ys = ap (◌∷◌ x) (take-length xs ys)

drop-length : (xs ys : Bytes) (n : ℕ) → drop (length xs + n) (xs ++ ys) ≡ drop n ys
drop-length [] ys n = ap (λ k. drop k ys) (omega arith)
drop-length (x ∷ xs) ys n =
    let e : suc (length xs) + n ≡ suc (length xs + n) = omega arith in
    ap (λ k. drop k (x ∷ (xs ++ ys))) e ∙ drop-length xs ys n

get_elem-length : (xs ys : Bytes) → get_elem? (xs ++ ys) (length xs) ≡ get_elem? ys 0
get_elem-length [] ys = refl
get_elem-length (x ∷ xs) ys = get_elem-length xs ys

erase_at-length : (pre ys : Bytes) (n : ℕ) → erase_at (length pre) n (pre ++ ys) ≡ pre ++ drop n ys
erase_at-length pre ys n = ap₂ (◌++◌) (take-length pre ys) (drop-length pre ys n)

erase_space-length :
    (pre post : Bytes) → erase_space (length pre) (pre ++ (b' ' ∷ post)) ≡ pre ++ post
erase_space-length pre post =
    rw (erase_space, get_elem-length pre (b' ' ∷ post)) (erase_at-length pre (b' ' ∷ post) 1)

-- The text of a tag.
abbrev pub level_tag : Level → Bytes
level_tag error = tag_of b'e' b'r' b'r'
level_tag warn = tag_of b'w' b'r' b'n'
level_tag info = tag_of b'i' b'n' b'f'
level_tag debug = tag_of b'd' b'b' b'g'

-- A line in which only the given tag occurs.
abbrev pub tagged : Bytes → Level → Bytes → Bytes
tagged pre l post = pre ++ (level_tag l ++ (b' ' ∷ post))

abbrev same : Level → Level → Bool
same error error = true
same warn warn = true
same info info = true
same debug debug = true
same t l = false

find_text-tag :
    (t l : Level) (post : Bytes)
    → is_plain post ≡ true
    → find_text (level_tag t) (level_tag l ++ (b' ' ∷ post)) ≡ (if same t l then some 0 else none)
unfolding find_text starts_with
find_text-tag error error post h = refl
find_text-tag error l post h = rw (find_text-none (b'e' ∷ b'r' ∷ b'r' ∷ b'>' ∷ []) post h) refl
find_text-tag warn warn post h = refl
find_text-tag warn l post h = rw (find_text-none (b'w' ∷ b'r' ∷ b'n' ∷ b'>' ∷ []) post h) refl
find_text-tag info info post h = refl
find_text-tag info l post h = rw (find_text-none (b'i' ∷ b'n' ∷ b'f' ∷ b'>' ∷ []) post h) refl
find_text-tag debug debug post h = refl
find_text-tag debug l post h = rw (find_text-none (b'd' ∷ b'b' ∷ b'g' ∷ b'>' ∷ []) post h) refl

contains_escape-plain : (l : Bytes) → is_plain l ≡ true → contains_escape l ≡ false
unfolding contains_escape
contains_escape-plain [] h = refl
contains_escape-plain (c ∷ cs) h = ground (arith, contains_escape-plain cs)

contains_escape-append :
    (pre ys : Bytes) → is_plain pre ≡ true → contains_escape (pre ++ ys) ≡ contains_escape ys
unfolding contains_escape
contains_escape-append [] ys h = refl
contains_escape-append (c ∷ cs) ys h = ground (arith, contains_escape-append cs ys)

strip_ansi-plain : (l : Bytes) → contains_escape l ≡ false → strip_ansi l ≡ l
unfolding strip_ansi
strip_ansi-plain l h = ground arith

contains_escape-tag :
    (l : Level) (post : Bytes)
    → contains_escape (level_tag l ++ (b' ' ∷ post)) ≡ contains_escape post
unfolding contains_escape
contains_escape-tag error post = refl
contains_escape-tag warn post = refl
contains_escape-tag info post = refl
contains_escape-tag debug post = refl

strip_ansi-tagged :
    (pre post : Bytes) (l : Level)
    → is_plain pre ≡ true
    → is_plain post ≡ true
    → strip_ansi (tagged pre l post) ≡ tagged pre l post
strip_ansi-tagged pre post l h g = strip_ansi-plain (tagged pre l post) (
    contains_escape-append pre (level_tag l ++ (b' ' ∷ post)) h
    ∙ contains_escape-tag l post
    ∙ contains_escape-plain post g)

shift-same :
    (t l : Level) (n : ℕ)
    → shift n (if same t l then some 0 else none) ≡ (if same t l then some n else none)
shift-same t l n = ground arith

drop-tag : (l : Level) (post : Bytes) → drop 5 (level_tag l ++ (b' ' ∷ post)) ≡ b' ' ∷ post
drop-tag error post = refl
drop-tag warn post = refl
drop-tag info post = refl
drop-tag debug post = refl

find_text-tagged :
    (pre post : Bytes) (t l : Level)
    → is_plain pre ≡ true
    → is_plain post ≡ true
    → find_text (level_tag t) (tagged pre l post) ≡ (if same t l then some (length pre) else none)
find_text-tagged pre post error l h g =
    find_text-append (b'e' ∷ b'r' ∷ b'r' ∷ b'>' ∷ []) pre (level_tag l ++ (b' ' ∷ post)) h
    ∙ ap (shift (length pre)) (find_text-tag error l post g)
    ∙ shift-same error l (length pre)
find_text-tagged pre post warn l h g =
    find_text-append (b'w' ∷ b'r' ∷ b'n' ∷ b'>' ∷ []) pre (level_tag l ++ (b' ' ∷ post)) h
    ∙ ap (shift (length pre)) (find_text-tag warn l post g)
    ∙ shift-same warn l (length pre)
find_text-tagged pre post info l h g =
    find_text-append (b'i' ∷ b'n' ∷ b'f' ∷ b'>' ∷ []) pre (level_tag l ++ (b' ' ∷ post)) h
    ∙ ap (shift (length pre)) (find_text-tag info l post g)
    ∙ shift-same info l (length pre)
find_text-tagged pre post debug l h g =
    find_text-append (b'd' ∷ b'b' ∷ b'g' ∷ b'>' ∷ []) pre (level_tag l ++ (b' ' ∷ post)) h
    ∙ ap (shift (length pre)) (find_text-tag debug l post g)
    ∙ shift-same debug l (length pre)

cut_tag :
    (pre post : Bytes) (l : Level)
    → erase_space (length pre) (erase_at (length pre) 5 (tagged pre l post)) ≡ pre ++ post
cut_tag pre post l =
    ap (erase_space (length pre))
      (erase_at-length pre (level_tag l ++ (b' ' ∷ post)) 5 ∙ ap (◌++◌ pre) (drop-tag l post))
    ∙ erase_space-length pre post

match_tags-tagged :
    (pre post : Bytes) (l : Level)
    → is_plain pre ≡ true
    → is_plain post ≡ true
    → match_tags k_zephyr_level_tags (tagged pre l post) ≡ record { level = l; text = pre ++ post }
unfolding match_tags
match_tags-tagged pre post error h g =
    rw (match_tags, find_text-tagged pre post error error h g)
      (ap (λ t. record { level = error; text = t }) (cut_tag pre post error))
match_tags-tagged pre post warn h g =
    rw
      (
        match_tags,
        find_text-tagged pre post error warn h g,
        find_text-tagged pre post warn warn h g,
      )
      (ap (λ t. record { level = warn; text = t }) (cut_tag pre post warn))
match_tags-tagged pre post info h g =
    rw
      (
        match_tags,
        find_text-tagged pre post error info h g,
        find_text-tagged pre post warn info h g,
        find_text-tagged pre post info info h g,
      )
      (ap (λ t. record { level = info; text = t }) (cut_tag pre post info))
match_tags-tagged pre post debug h g =
    rw
      (
        match_tags,
        find_text-tagged pre post error debug h g,
        find_text-tagged pre post warn debug h g,
        find_text-tagged pre post info debug h g,
        find_text-tagged pre post debug debug h g,
      )
      (ap (λ t. record { level = debug; text = t }) (cut_tag pre post debug))

-- Of a line with one level tag and a space behind it, and no other < and no escape byte,
-- parse_firmware_line gives the level and the text around the tag.
pub parse_firmware_line-tagged :
    (pre post : Bytes) (l : Level)
    → is_plain pre ≡ true
    → is_plain post ≡ true
    → parse_firmware_line (tagged pre l post) ≡ record { level = l; text = pre ++ post }
unfolding parse_firmware_line
parse_firmware_line-tagged pre post l h g =
    rw (strip_ansi-tagged pre post l h g) (match_tags-tagged pre post l h g)

match_tags-untagged :
    (raw : Bytes)
    → is_plain raw ≡ true
    → match_tags k_zephyr_level_tags raw ≡ record { level = info; text = raw }
unfolding match_tags
match_tags-untagged raw h =
    rw
      (
        match_tags,
        find_text-none (b'e' ∷ b'r' ∷ b'r' ∷ b'>' ∷ []) raw h,
        find_text-none (b'w' ∷ b'r' ∷ b'n' ∷ b'>' ∷ []) raw h,
        find_text-none (b'i' ∷ b'n' ∷ b'f' ∷ b'>' ∷ []) raw h,
        find_text-none (b'd' ∷ b'b' ∷ b'g' ∷ b'>' ∷ []) raw h,
      )
      refl

-- A line without a tag has the level info and keeps its text.
pub parse_firmware_line-untagged :
    (raw : Bytes)
    → is_plain raw ≡ true
    → parse_firmware_line raw ≡ record { level = info; text = raw }
unfolding parse_firmware_line
parse_firmware_line-untagged raw h =
    rw (strip_ansi-plain raw (contains_escape-plain raw h)) (match_tags-untagged raw h)
