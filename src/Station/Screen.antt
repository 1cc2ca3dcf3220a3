-- ===== src/Station/Screen.antt =====
-- The screens of `StationStateBridge` and the operator's PIN: `on_navigate_to` and
-- `on_submit_operator_pin` of `gui/src/station_state_bridge.cpp`. `Page` is that of `gui/ui/data.slint`.
pub mod Laws
use cocktail_maker.Prelude.{
  ℕ, ◌+◌, Bool, true, false, not, ◌&&◌, List, [], ◌∷◌, ◌++◌, String, if◌then◌else◌,
}
use cocktail_maker.OperatorAuth.{
  OperatorAuth, OperatorAuthConfig, new_auth, verify, is_locked_out, remaining_attempts,
  lockout_remaining,
}

pub data Page : Type 0 where
  cocktail_list_page : Page
  cocktail_detail_page : Page
  mix_page : Page
  mix_glass_selection_page : Page
  mix_error_page : Page
  mix_success_page : Page
  finished_page : Page
  boot_screen : Page
  admin_area_page : Page

abbrev pub is_admin : Page → Bool
is_admin admin_area_page = true
is_admin _ = false

-- The properties of the window that the bridge sets, and what it calls: the pages of
-- `invoke_navigated_to` in order, whether the PIN popup was told to close, and how many coroutines that
-- wait for the end of a lockout were spawned.
pub record Screen : Type 0 where
  pub operator_auth : OperatorAuth
  pub operator_authenticated : Bool
  pub active_screen : Page
  pub navigated : List (Page × Page)
  pub popup_closed : Bool
  pub operator_locked_out : Bool
  pub operator_remaining_attempts : ℕ
  pub operator_lockout_seconds_remaining : ℕ
  pub lockout_handlers : ℕ

unfoldable pub on_navigate_to : Screen → Page → Screen
on_navigate_to s target = if is_admin target && not s.operator_authenticated then s else record s {
  operator_authenticated = if is_admin target then s.operator_authenticated else false;
  active_screen = target;
  navigated = s.navigated ++ ((s.active_screen, target) ∷ []);
}

-- What the user does.
pub data UserEvent : Type 0 where
  navigate_to : Page → UserEvent
  submit_pin : String → ℕ → UserEvent

-- What the attempt sets on the window.
unfoldable pub show_attempt : Screen → OperatorAuth → Bool → ℕ → Screen
unfolding is_locked_out remaining_attempts lockout_remaining
show_attempt s auth accepted now = record s {
  operator_auth = auth;
  operator_authenticated = accepted;
  operator_locked_out = is_locked_out auth now;
  operator_remaining_attempts = remaining_attempts auth;
  operator_lockout_seconds_remaining = lockout_remaining auth now;
}

module _ (hash_pin : String → String → String) where
  -- `kSalt` and the configuration that the constructor gives.
  unfoldable pub station_auth : OperatorAuth
  unfolding new_auth
  station_auth = new_auth (record {
    pin_hash = hash_pin "000000" "static";
    salt = "static";
    max_attempts = 3;
    lockout_duration = 10;
  })

  unfoldable pub on_submit_operator_pin : Screen → String → ℕ → Screen
  unfolding verify show_attempt on_navigate_to is_locked_out
  on_submit_operator_pin s pin now =
      let attempt = verify hash_pin s.operator_auth pin now in
      let shown = show_attempt s attempt.0 attempt.1 now in
      let moved =
        if attempt.1
        then on_navigate_to (record shown { popup_closed = true }) admin_area_page
        else shown in
      if is_locked_out attempt.0 now
      then record moved { lockout_handlers = moved.lockout_handlers + 1 }
      else moved

  unfoldable pub on_user_event : Screen → UserEvent → Screen
  unfolding on_navigate_to on_submit_operator_pin
  on_user_event s (navigate_to page) = on_navigate_to s page
  on_user_event s (submit_pin pin now) = on_submit_operator_pin s pin now
