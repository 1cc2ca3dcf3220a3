-- ===== src/Serial/Lines/Laws.antt =====
-- Lines do not depend on how the stream is cut into chunks, and little is held back.
use cocktail_maker.Prelude.{
  ℕ, ◌≤◌, ◌≡◌, refl, sym, ap, ◌∙◌, Bool, true, false, List, [], ◌∷◌, ◌++◌, arith, All, All-append,
  append_assoc, ltb, ◌==◌, ℕ_eq, if◌then◌else◌, length, map, Bool-cases, inl, inr,
}
use cocktail_maker.Serial.Ansi.{Bytes}
use cocktail_maker.Serial.Lines.{LineAssembler, trim_cr, put, split_lines, flush, feed}

-- One byte more in front, and text that follows.
abbrev step : ℕ → List Bytes × Bytes → List Bytes × Bytes
step c p = if c == b'\n' then ([] ∷ p.0, p.1) else put c p

abbrev followed : List Bytes × Bytes → Bytes → List Bytes × Bytes
followed p ys = (p.0 ++ (split_lines (p.1 ++ ys)).0, (split_lines (p.1 ++ ys)).1)

split_lines-put :
    (c : ℕ) (cs : Bytes) → (c == b'\n') ≡ false → split_lines (c ∷ cs) ≡ put c (split_lines cs)
unfolding split_lines
split_lines-put c cs n = rw n refl

step-followed :
    (c : ℕ) (p : List Bytes × Bytes) (ys : Bytes) → step c (followed p ys) ≡ followed (step c p) ys
unfolding split_lines put
step-followed c ([], rest) ys = elim (Bool-cases (c == b'\n')) [
  | inl e ↦ rw e
  | inr n ↦ rw n (ap (λ p. (p.0, p.1)) (sym (split_lines-put c (rest ++ ys) n)))
]
step-followed c (line ∷ lines, rest) ys = elim (Bool-cases (c == b'\n')) [
  | inl e ↦ rw e
  | inr n ↦ rw n
]

split_lines-append : (xs ys : Bytes) → split_lines (xs ++ ys) ≡ followed (split_lines xs) ys
unfolding split_lines
split_lines-append [] ys = refl
split_lines-append (x ∷ xs) ys =
    ap (step x) (split_lines-append xs ys) ∙ step-followed x (split_lines xs) ys

abbrev pub has_newline : Bytes → Bool
has_newline [] = false
has_newline (c ∷ cs) = if c == b'\n' then true else has_newline cs

abbrev AllWhole : List Bytes → Type 0
AllWhole = All (λ l. has_newline l ≡ false)

put-AllWhole :
    (c : ℕ) (p : List Bytes × Bytes)
    → (c == b'\n') ≡ false
    → AllWhole p.0 × (has_newline p.1 ≡ false)
    → AllWhole (put c p).0 × (has_newline (put c p).1 ≡ false)
unfolding put
put-AllWhole c ([], rest) n (lines, r) = (tt, rw n r)
put-AllWhole c (line ∷ lines, rest) n ((l, ls), r) = ((rw n l, ls), r)

split_lines-AllWhole :
    (l : Bytes) → AllWhole (split_lines l).0 × (has_newline (split_lines l).1 ≡ false)
unfolding split_lines
split_lines-AllWhole [] = (tt, refl)
split_lines-AllWhole (c ∷ cs) = elim (Bool-cases (c == b'\n')) [
  | inl e ↦ rw (e, split_lines) ((refl, (split_lines-AllWhole cs).0), (split_lines-AllWhole cs).1)
  | inr n ↦ rw (n, split_lines) (put-AllWhole c (split_lines cs) n (split_lines-AllWhole cs))
]

flush_short :
    (a : LineAssembler) (lines : List Bytes) (rest : Bytes)
    → length rest ≤ a.max_line
    → flush a lines rest ≡ (record a { pending = rest }, lines)
unfolding flush
flush_short a lines rest h = ground arith

flush-append :
    (a : LineAssembler) (xs ys : List Bytes) (held rest : Bytes)
    → flush a (xs ++ ys) rest ≡ (
      (flush (record a { pending = held }) ys rest).0,
      xs ++ (flush (record a { pending = held }) ys rest).1,
    )
unfolding flush
flush-append a xs ys held rest = elim (Bool-cases (ltb a.max_line (length rest))) [
  | inl long ↦ rw long (ap (λ l. (record a { pending = [] }, l)) (append_assoc xs ys (rest ∷ [])))
  | inr short ↦ rw short refl
]

map-append_lem : (xs ys : List Bytes) → map trim_cr (xs ++ ys) ≡ map trim_cr xs ++ map trim_cr ys
map-append_lem [] ys = refl
map-append_lem (x ∷ xs) ys = ap (◌∷◌ (trim_cr x)) (map-append_lem xs ys)

feed_lem :
    (a : LineAssembler) (xs : Bytes)
    → feed a xs
      ≡ flush a (map trim_cr (split_lines (a.pending ++ xs)).0) (split_lines (a.pending ++ xs)).1
unfolding feed
feed_lem a xs = refl

-- Two chunks fed one after the other give the lines and the state that the joined chunk gives, if
-- the unterminated text behind the first chunk is not longer than max_line.
pub feed-append :
    (a : LineAssembler) (xs ys : Bytes)
    → length (split_lines (a.pending ++ xs)).1 ≤ a.max_line
    → feed a (xs ++ ys) ≡ ((feed (feed a xs).0 ys).0, (feed a xs).1 ++ (feed (feed a xs).0 ys).1)
unfolding feed flush
feed-append a xs ys h =
    let first = split_lines (a.pending ++ xs) in
    let second = split_lines (first.1 ++ ys) in
    let joined : split_lines (a.pending ++ (xs ++ ys)) ≡ followed first ys =
      ap split_lines (sym (append_assoc a.pending xs ys))
      ∙ split_lines-append (a.pending ++ xs) ys in
    let short : feed a xs ≡ (record a { pending = first.1 }, map trim_cr first.0) =
      feed_lem a xs ∙ flush_short a (map trim_cr first.0) first.1 h in
    let whole : feed a (xs ++ ys) ≡ flush a (map trim_cr first.0 ++ map trim_cr second.0) second.1 =
      feed_lem a (xs ++ ys)
      ∙ ap (λ p. flush a (map trim_cr p.0) p.1) joined
      ∙ ap (λ l. flush a l second.1) (map-append_lem first.0 second.0) in
    let rest : flush a (map trim_cr first.0 ++ map trim_cr second.0) second.1 ≡ (
      (feed (record a { pending = first.1 }) ys).0,
      map trim_cr first.0 ++ (feed (record a { pending = first.1 }) ys).1,
    ) =
      flush-append a (map trim_cr first.0) (map trim_cr second.0) first.1 second.1 in
    whole ∙ rest ∙ ap (λ p. ((feed p.0 ys).0, p.1 ++ (feed p.0 ys).1)) (sym short)

has_newline-trim_cr : (l : Bytes) → has_newline l ≡ false → has_newline (trim_cr l) ≡ false
unfolding trim_cr
has_newline-trim_cr [] h = refl
has_newline-trim_cr (c ∷ []) h = ground arith
has_newline-trim_cr (c ∷ d ∷ rest) h = ground (arith, has_newline-trim_cr (d ∷ rest))

AllWhole-map : (ls : List Bytes) → AllWhole ls → AllWhole (map trim_cr ls)
AllWhole-map [] h = tt
AllWhole-map (l ∷ ls) h = (has_newline-trim_cr l h.0, AllWhole-map ls h.1)

flush_bounds :
    (a : LineAssembler) (lines : List Bytes) (rest : Bytes)
    → AllWhole lines
    → has_newline rest ≡ false
    → AllWhole (flush a lines rest).1
      × (length (flush a lines rest).0.pending ≤ a.max_line)
      × (has_newline (flush a lines rest).0.pending ≡ false)
unfolding flush
flush_bounds a lines rest whole r = elim (Bool-cases (ltb a.max_line (length rest))) [
  | inl long ↦
      rw long
        (All-append (λ l. has_newline l ≡ false) lines (rest ∷ []) whole (r, tt), omega arith, refl)
  | inr short ↦ rw short (whole, ground arith, r)
]

-- No line handed out by feed contains a newline; what is held back has none either and is not
-- longer than max_line.
pub feed_bounds :
    (a : LineAssembler) (chunk : Bytes)
    → All (λ l. has_newline l ≡ false) (feed a chunk).1
      × (length (feed a chunk).0.pending ≤ a.max_line)
      × (has_newline (feed a chunk).0.pending ≡ false)
feed_bounds a chunk =
    let (whole, r) = split_lines-AllWhole (a.pending ++ chunk) in
    let p = split_lines (a.pending ++ chunk) in
    rw (feed_lem a chunk) (flush_bounds a (map trim_cr p.0) p.1 (AllWhole-map p.0 whole) r)
