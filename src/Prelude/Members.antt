-- ===== src/Prelude/Members.antt =====
-- Lists of numbers as sets of handles and ids.
use cocktail_maker.Prelude.{
  ℕ, ◌≡◌, List, [], ◌∷◌, ◌++◌, Bool, true, false, ◌||◌, ◌&&◌, not, ◌==◌, ℕ_eq, if◌then◌else◌, arith,
  refl,
}

abbrev pub has : ℕ → List ℕ → Bool
has i [] = false
has i (j ∷ l) = if j == i then true else has i l

abbrev pub without : ℕ → List ℕ → List ℕ
without i [] = []
without i (j ∷ l) = if j == i then without i l else j ∷ without i l

pub has-append : (i : ℕ) (l m : List ℕ) → has i (l ++ m) ≡ (has i l || has i m)
has-append i [] m = refl
has-append i (j ∷ l) m = ground (arith, has-append i l m)

pub has-without : (i j : ℕ) (l : List ℕ) → has i (without j l) ≡ (has i l && not (j == i))
has-without i j [] = refl
has-without i j (k ∷ l) =
    ground (arith, has-without i j l, ℕ_eq.equal_iff k j, ℕ_eq.equal_iff k i, ℕ_eq.equal_iff j i)
