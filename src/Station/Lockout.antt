-- ===== src/Station/Lockout.antt =====
-- `async_handle_operator_lockout` of `gui/src/station_state_bridge.cpp`: the countdown that the window
-- shows while the operator is locked out. The steady clock is a parameter: `clock n` is what the loop
-- reads before round n, `ui_clock n` what the closure that round n posts reads. The object of the
-- attempts is as it is at the start, since it refuses every attempt during a lockout.
pub mod Laws
use cocktail_maker.Prelude.{ℕ, zero, suc, ◌+◌, Option, none, some, if◌then◌else◌}
use cocktail_maker.OperatorAuth.{is_locked_out, remaining_attempts, lockout_remaining}
use cocktail_maker.Station.Screen.{Screen}

unfoldable pub show_countdown : Screen → ℕ → Screen
unfolding lockout_remaining
show_countdown s now = record s {
  operator_lockout_seconds_remaining = lockout_remaining s.operator_auth now;
}

unfoldable pub show_end : Screen → ℕ → Screen
unfolding is_locked_out remaining_attempts lockout_remaining
show_end s now = record s {
  operator_locked_out = is_locked_out s.operator_auth now;
  operator_remaining_attempts = remaining_attempts s.operator_auth;
  operator_lockout_seconds_remaining = lockout_remaining s.operator_auth now;
}

module _ (clock ui_clock : ℕ → ℕ) where
  -- The loop from round `n` on, with fuel for the rounds; `none` means that it ran out.
  unfoldable pub lockout_rounds : ℕ → ℕ → Screen → Option Screen
  unfolding show_countdown show_end is_locked_out
  lockout_rounds zero n s = none
  lockout_rounds (suc fuel) n s =
      let rest = lockout_rounds fuel (suc n) (show_countdown s (ui_clock n)) in
      if is_locked_out s.operator_auth (clock n) then rest else some (show_end s (ui_clock n))
