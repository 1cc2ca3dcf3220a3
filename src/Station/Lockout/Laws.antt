-- ===== src/Station/Lockout/Laws.antt =====
-- The countdown ends.
use cocktail_maker.Prelude.{
  ℕ, zero, suc, ◌+◌, ◌*◌, ◌≤◌, ◌≡◌, inl, inr, refl, false, some, arith, Bool-cases,
}
use cocktail_maker.OperatorAuth.{OperatorAuth, is_locked_out, lockout_remaining, second}
use cocktail_maker.Station.Screen.{Screen}
use cocktail_maker.Station.Lockout.{show_countdown, show_end, lockout_rounds}

-- The window shows no lockout and no seconds left, and the attempts are as they were.
abbrev pub IsOver : Screen → Screen → Type 0
IsOver before after =
    (after.operator_locked_out ≡ false)
    × ((after.operator_lockout_seconds_remaining ≡ 0)
        × (after.operator_auth ≡ before.operator_auth))

module _ (clock ui_clock : ℕ → ℕ) where
  unlocked_later :
      (auth : OperatorAuth) (now later : ℕ)
      → now ≤ later
      → is_locked_out auth now ≡ false
      → (is_locked_out auth later ≡ false) × (lockout_remaining auth later ≡ 0)
  unfolding is_locked_out lockout_remaining
  unlocked_later auth now later h l = ground arith

  not_locked_from :
      (auth : OperatorAuth) (until now : ℕ)
      → auth.locked_until ≡ some until
      → until ≤ now
      → is_locked_out auth now ≡ false
  unfolding is_locked_out
  not_locked_from auth until now e h = ground arith

  ends_here :
      (fuel n : ℕ) (s : Screen)
      → clock n ≤ ui_clock n
      → is_locked_out s.operator_auth (clock n) ≡ false
      → (after : Screen) × ((lockout_rounds clock ui_clock (suc fuel) n s ≡ some after)
          × IsOver s after)
  unfolding lockout_rounds show_end show_countdown
  ends_here fuel n s later over =
      let (shown, none_left) = unlocked_later s.operator_auth (clock n) (ui_clock n) later over in
      rw over (show_end s (ui_clock n), (refl, (shown, (none_left, refl))))

  -- Where every round takes a second at least and the closures run after the readings of their
  -- round, the countdown of a lockout ends in as many rounds as the lockout has seconds left,
  -- begun ones included, and one more, and the window then shows no lockout and no seconds left.
  pub lockout_rounds-end :
      (fuel n until : ℕ) (s : Screen)
      → s.operator_auth.locked_until ≡ some until
      → ((i : ℕ) → clock i + second ≤ clock (suc i))
      → ((i : ℕ) → clock i ≤ ui_clock i)
      → until ≤ clock n + fuel * second
      → (after : Screen) × ((lockout_rounds clock ui_clock (suc fuel) n s ≡ some after)
          × IsOver s after)
  unfolding lockout_rounds show_countdown
  lockout_rounds-end zero n until s e slow later far =
      ends_here 0 n s (later n) (not_locked_from s.operator_auth until (clock n) e (omega arith))
  lockout_rounds-end (suc fuel) n until s e slow later far =
      elim (Bool-cases (is_locked_out s.operator_auth (clock n))) [
        | inr over ↦ ends_here (suc fuel) n s (later n) over
        | inl locked ↦ rw locked (
            lockout_rounds-end fuel (suc n) until (show_countdown s (ui_clock n)) e slow later
              (omega (arith, slow n)))
      ]
