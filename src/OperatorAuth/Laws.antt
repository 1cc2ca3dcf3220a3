-- ===== src/OperatorAuth/Laws.antt =====
-- Which attempts are let in, and when the operator is locked out.
use cocktail_maker.Prelude.{
  ℕ, suc, ◌+◌, ◌*◌, ◌<◌, ◌≡◌, ◌↔◌, leb, refl, ap, ◌∙◌, if◌then◌else◌, Bool, true, false, List, [],
  ◌∷◌, Option, none, some, String, ◌==◌, String_eq, arith, All, length,
}
use cocktail_maker.OperatorAuth.{
  OperatorAuthConfig, OperatorAuth, second, new_auth, is_locked_out, remaining_attempts, accept,
  reject, verify,
}

-- The attempts in order: a PIN and the time it is entered.
abbrev pub verify_all : (String → String → String) → OperatorAuth → List (String × ℕ) → OperatorAuth
verify_all hash_pin auth [] = auth
verify_all hash_pin auth ((pin, now) ∷ rest) =
    verify_all hash_pin (verify hash_pin auth pin now).0 rest

abbrev pub is_set : Option ℕ → Bool
is_set none = false
is_set (some until) = true

-- A lockout is set, be it over or not, exactly while no attempt is left.
abbrev pub IsConsistent : OperatorAuth → Type 0
IsConsistent auth = is_set auth.locked_until ≡ leb auth.config.max_attempts auth.failed_attempts

module _ (hash_pin : String → String → String) where
  -- An attempt is let in exactly when no lockout runs and the hash of the PIN is the stored one.
  pub verify_iff :
      (auth : OperatorAuth) (pin : String) (now : ℕ)
      → ((verify hash_pin auth pin now).1 ≡ true) ↔ (
          (is_locked_out auth now ≡ false) × (hash_pin pin auth.config.salt ≡ auth.config.pin_hash))
  unfolding verify
  verify_iff auth pin now =
      ground (arith, String_eq.equal_iff (hash_pin pin auth.config.salt) auth.config.pin_hash)

  verify-IsConsistent :
      (auth : OperatorAuth) (pin : String) (now : ℕ)
      → 0 < auth.config.max_attempts
      → IsConsistent auth
      → IsConsistent (verify hash_pin auth pin now).0
        × ((verify hash_pin auth pin now).0.config ≡ auth.config)
  unfolding verify accept reject
  verify-IsConsistent auth pin now m h = ground arith

  -- After any attempts, where max_attempts is positive, a lockout is set, be it over or not,
  -- exactly while no attempt is left.
  pub verify_all-IsConsistent :
      (auth : OperatorAuth) (attempts : List (String × ℕ))
      → 0 < auth.config.max_attempts
      → IsConsistent auth
      → IsConsistent (verify_all hash_pin auth attempts)
  verify_all-IsConsistent auth [] m h = h
  verify_all-IsConsistent auth ((pin, now) ∷ rest) m h =
      let (c, e) = verify-IsConsistent auth pin now m h in
      verify_all-IsConsistent (verify hash_pin auth pin now).0 rest (rw e m) c

  -- An attempt with a wrong PIN.
  abbrev pub IsWrong : OperatorAuthConfig → String × ℕ → Type 0
  IsWrong config attempt = (hash_pin attempt.0 config.salt == config.pin_hash) ≡ false

  abbrev failing : OperatorAuthConfig → ℕ → Option ℕ → OperatorAuth
  failing config k until = record { config = config; failed_attempts = k; locked_until = until }

  verify_wrong :
      (config : OperatorAuthConfig) (k : ℕ) (pin : String) (now : ℕ)
      → IsWrong config (pin, now)
      → (verify hash_pin (failing config k none) pin now).0
        ≡ failing config (suc k) (
            if leb config.max_attempts (suc k)
            then some (now + config.lockout_duration * second)
            else none)
  unfolding verify reject is_locked_out
  verify_wrong config k pin now w = ground arith

  verify_all-wrong :
      (config : OperatorAuthConfig) (k : ℕ) (wrong : List (String × ℕ))
      → All (IsWrong config) wrong
      → k + length wrong < config.max_attempts
      → verify_all hash_pin (failing config k none) wrong ≡ failing config (k + length wrong) none
  verify_all-wrong config k [] ws room =
      let e : k ≡ k + 0 = omega arith in ap (λ n. failing config n none) e
  verify_all-wrong config k ((pin, now) ∷ rest) ws room =
      let e : suc k + length rest ≡ k + suc (length rest) = omega arith in
      let more : leb config.max_attempts (suc k) ≡ false = ground arith in
      let next : (verify hash_pin (failing config k none) pin now).0 ≡ failing config (suc k) none =
        rw (verify_wrong config k pin now ws.0, more) refl in
      ap (λ a. verify_all hash_pin a rest) next
      ∙ verify_all-wrong config (suc k) rest ws.1 (omega arith)
      ∙ ap (λ n. failing config n none) e

  verify_locked :
      (auth : OperatorAuth) (until : ℕ) (pin : String) (now : ℕ)
      → auth.locked_until ≡ some until
      → now < until
      → verify hash_pin auth pin now ≡ (auth, false)
  unfolding verify is_locked_out
  verify_locked auth until pin now h l = ground arith

  -- After max_attempts wrong PINs in a row from a fresh state, every PIN is refused, the right one
  -- as well, as long as the lockout lasts, and no attempt is left.
  pub verify_all-locks :
      (config : OperatorAuthConfig) (wrong : List (String × ℕ)) (pin : String) (now : ℕ)
      (other : String) (later : ℕ)
      → All (IsWrong config) wrong
      → IsWrong config (pin, now)
      → suc (length wrong) ≡ config.max_attempts
      → later < now + config.lockout_duration * second
      → let locked = (verify hash_pin (verify_all hash_pin (new_auth config) wrong) pin now).0 in
        (verify hash_pin locked other later ≡ (locked, false)) × (remaining_attempts locked ≡ 0)
  unfolding new_auth remaining_attempts
  verify_all-locks config wrong pin now other later ws w n l =
      let until = now + config.lockout_duration * second in
      let start : 0 + length wrong ≡ length wrong = omega arith in
      let full : leb config.max_attempts (suc (length wrong)) ≡ true = ground arith in
      let before : verify_all hash_pin (new_auth config) wrong
          ≡ failing config (length wrong) none =
        verify_all-wrong config 0 wrong ws (omega arith) ∙ ap (λ n. failing config n none) start in
      let locked : (verify hash_pin (verify_all hash_pin (new_auth config) wrong) pin now).0
          ≡ failing config (suc (length wrong)) (some until) =
        rw (before, verify_wrong config (length wrong) pin now w, full) refl in
      rw locked (
        verify_locked (failing config (suc (length wrong)) (some until)) until other later refl l,
        omega arith,
      )
