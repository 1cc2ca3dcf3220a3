-- ===== src/OperatorAuth.antt =====
-- `OperatorAuth` of `gui/src/operator_auth.cppm`. The keyed hash is a parameter. A point of time is the
-- number of nanoseconds of the steady clock, a duration in seconds is a number of seconds.
pub mod Laws
use cocktail_maker.Prelude.{
  ℕ, suc, ◌+◌, ◌-◌, ◌*◌, ◌/◌, Bool, true, false, ltb, leb, Option, none, some, String, ◌==◌,
  String_eq, if◌then◌else◌,
}

pub record OperatorAuthConfig : Type 0 where
  pub pin_hash : String
  pub salt : String
  pub max_attempts : ℕ
  pub lockout_duration : ℕ

pub record OperatorAuth : Type 0 where
  pub config : OperatorAuthConfig
  pub failed_attempts : ℕ
  pub locked_until : Option ℕ

abbrev pub second : ℕ
second = 1000000000

unfoldable pub new_auth : OperatorAuthConfig → OperatorAuth
new_auth config = record { config = config; failed_attempts = 0; locked_until = none }

unfoldable pub is_locked_out : OperatorAuth → ℕ → Bool
is_locked_out auth now = elim auth.locked_until [ none ↦ false | some until ↦ ltb now until ]

-- `std::max(0, max_attempts - failed_attempts)`: the subtraction of ℕ stops at 0.
unfoldable pub remaining_attempts : OperatorAuth → ℕ
remaining_attempts auth = auth.config.max_attempts - auth.failed_attempts

unfoldable pub lockout_remaining : OperatorAuth → ℕ → ℕ
unfolding is_locked_out
lockout_remaining auth now = elim auth.locked_until [
  | none ↦ 0
  | some until ↦ if ltb now until then (until - now) / second else 0
]

module _ (hash_pin : String → String → String) where
  unfoldable pub accept : OperatorAuth → OperatorAuth
  accept auth = record auth { failed_attempts = 0; locked_until = none }

  unfoldable pub reject : OperatorAuth → ℕ → OperatorAuth
  reject auth now =
      let failed = suc auth.failed_attempts in
      if leb auth.config.max_attempts failed
      then record auth {
        failed_attempts = failed;
        locked_until = some (now + auth.config.lockout_duration * second);
      }
      else record auth { failed_attempts = failed }

  unfoldable pub verify : OperatorAuth → String → ℕ → OperatorAuth × Bool
  unfolding accept reject
  verify auth pin now =
      if is_locked_out auth now
      then (auth, false)
      else if hash_pin pin auth.config.salt == auth.config.pin_hash
      then (accept auth, true)
      else (reject auth now, false)
