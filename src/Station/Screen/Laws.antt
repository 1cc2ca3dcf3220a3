-- ===== src/Station/Screen/Laws.antt =====
-- Who reaches the admin area.
use cocktail_maker.Prelude.{
  ℕ, ◌+◌, ◌*◌, ◌<◌, ◌≡◌, inl, inr, refl, ap, ◌∙◌, true, false, not, ◌&&◌, List, [], ◌∷◌, String,
  String_eq, arith, Bool-cases, All,
}
use cocktail_maker.OperatorAuth.{
  OperatorAuth, OperatorAuthConfig, new_auth, second, verify, accept, reject, is_locked_out,
}
use cocktail_maker.OperatorAuth.Laws.{verify_iff, verify_all, verify_all-locks, IsWrong}
use cocktail_maker.Station.Screen.{
  Screen, Page, is_admin, admin_area_page, on_navigate_to, on_submit_operator_pin, UserEvent,
  navigate_to, submit_pin, on_user_event, station_auth, show_attempt,
}

-- The operator is only authenticated while the admin area is shown.
abbrev pub IsGuarded : Screen → Type 0
IsGuarded s = (s.operator_authenticated && not (is_admin s.active_screen)) ≡ false

navigate-IsGuarded : (s : Screen) (page : Page) → IsGuarded s → IsGuarded (on_navigate_to s page)
unfolding on_navigate_to
navigate-IsGuarded s page g = ground arith

-- An entry of a PIN.
abbrev pub entry : String × ℕ → UserEvent
entry attempt = submit_pin attempt.0 attempt.1

abbrev pub IsBefore : ℕ → UserEvent → Type 0
IsBefore until (navigate_to page) = Unit
IsBefore until (submit_pin pin now) = now < until

-- The auth object and the screen behind an attempt.
module _ (hash_pin : String → String → String) where
  submit_accepted :
      (s : Screen) (pin : String) (now : ℕ)
      → (verify hash_pin s.operator_auth pin now).1 ≡ true
      → let after = on_submit_operator_pin hash_pin s pin now in
        (after.active_screen ≡ admin_area_page) × (after.operator_authenticated ≡ true)
  unfolding on_submit_operator_pin on_navigate_to show_attempt
  submit_accepted s pin now h = ground arith

  submit_refused :
      (s : Screen) (pin : String) (now : ℕ)
      → (verify hash_pin s.operator_auth pin now).1 ≡ false
      → let after = on_submit_operator_pin hash_pin s pin now in
        (after.active_screen ≡ s.active_screen) × (after.operator_authenticated ≡ false)
  unfolding on_submit_operator_pin on_navigate_to show_attempt
  submit_refused s pin now h = ground arith

  submit-operator_auth :
      (s : Screen) (pin : String) (now : ℕ)
      → (on_submit_operator_pin hash_pin s pin now).operator_auth
        ≡ (verify hash_pin s.operator_auth pin now).0
  unfolding on_submit_operator_pin on_navigate_to show_attempt
  submit-operator_auth s pin now = ground arith

  navigate-operator_auth :
      (s : Screen) (page : Page) → (on_navigate_to s page).operator_auth ≡ s.operator_auth
  unfolding on_navigate_to
  navigate-operator_auth s page = ground arith

  submit-IsGuarded :
      (s : Screen) (pin : String) (now : ℕ)
      → IsGuarded s
      → IsGuarded (on_submit_operator_pin hash_pin s pin now)
  submit-IsGuarded s pin now g = elim (Bool-cases (verify hash_pin s.operator_auth pin now).1) [
    | inl accepted ↦
        let (screen, auth) = submit_accepted s pin now accepted in rw (screen, auth) refl
    | inr refused ↦ let (screen, auth) = submit_refused s pin now refused in rw auth refl
  ]

  -- The events in order.
  abbrev pub on_user_events : Screen → List UserEvent → Screen
  on_user_events s [] = s
  on_user_events s (e ∷ events) = on_user_events (on_user_event hash_pin s e) events

  event-IsGuarded :
      (s : Screen) (e : UserEvent) → IsGuarded s → IsGuarded (on_user_event hash_pin s e)
  unfolding on_user_event
  event-IsGuarded s (navigate_to page) g = navigate-IsGuarded s page g
  event-IsGuarded s (submit_pin pin now) g = submit-IsGuarded s pin now g

  pub events-IsGuarded :
      (events : List UserEvent) (s : Screen) → IsGuarded s → IsGuarded (on_user_events s events)
  events-IsGuarded [] s g = g
  events-IsGuarded (e ∷ events) s g =
      events-IsGuarded events (on_user_event hash_pin s e) (event-IsGuarded s e g)

  navigate_outside :
      (s : Screen) (page : Page)
      → IsGuarded s
      → is_admin s.active_screen ≡ false
      → is_admin (on_navigate_to s page).active_screen ≡ false
  unfolding on_navigate_to
  navigate_outside s page g out = ground arith

  -- Right, and no lockout runs.
  abbrev pub IsLetIn : Screen → UserEvent → Type 0
  IsLetIn s (navigate_to page) = ⊥
  IsLetIn s (submit_pin pin now) =
      (is_locked_out s.operator_auth now ≡ false)
      × (hash_pin pin s.operator_auth.config.salt ≡ s.operator_auth.config.pin_hash)

  entered_by :
      (s : Screen) (e : UserEvent)
      → IsGuarded s
      → is_admin s.active_screen ≡ false
      → is_admin (on_user_event hash_pin s e).active_screen ≡ true
      → IsLetIn s e
  unfolding on_user_event
  entered_by s (navigate_to page) g out in_admin =
      let still = navigate_outside s page g out in absurd cc
  entered_by s (submit_pin pin now) g out in_admin =
      elim (Bool-cases (verify hash_pin s.operator_auth pin now).1) [
        | inl accepted ↦ (verify_iff hash_pin s.operator_auth pin now).0 accepted
        | inr refused ↦
            let still = (submit_refused s pin now refused).0 in
            absurd (ground (arith, still, out, in_admin))
      ]

  -- After any events on a screen that is guarded, the event that leads from another page to the
  -- admin area is the entry of a PIN with the stored hash while no lockout runs.
  pub admin_area_entered :
      (s : Screen) (events : List UserEvent) (e : UserEvent)
      → IsGuarded s
      → is_admin (on_user_events s events).active_screen ≡ false
      → is_admin (on_user_event hash_pin (on_user_events s events) e).active_screen ≡ true
      → IsLetIn (on_user_events s events) e
  admin_area_entered s events e g out in_admin =
      entered_by (on_user_events s events) e (events-IsGuarded events s g) out in_admin

  -- Every PIN is refused before the given time.
  abbrev Refuses : OperatorAuth → ℕ → Type 0
  Refuses auth until =
      (pin : String) (now : ℕ) → now < until → verify hash_pin auth pin now ≡ (auth, false)

  stays_outside :
      (until : ℕ) (events : List UserEvent) (s : Screen)
      → IsGuarded s
      → is_admin s.active_screen ≡ false
      → Refuses s.operator_auth until
      → All (IsBefore until) events
      → is_admin (on_user_events s events).active_screen ≡ false
  unfolding on_user_event
  stays_outside until [] s g out refuses early = out
  stays_outside until (navigate_to page ∷ events) s g out refuses early =
      stays_outside until events (on_navigate_to s page) (navigate-IsGuarded s page g)
        (navigate_outside s page g out) (rw (navigate-operator_auth s page) refuses) early.1
  stays_outside until (submit_pin pin now ∷ events) s g out refuses early =
      let attempt = refuses pin now early.0 in
      let (screen, auth) = submit_refused s pin now (ap (λ p. p.1) attempt) in
      stays_outside until events (on_submit_operator_pin hash_pin s pin now)
        (submit-IsGuarded s pin now g) (rw screen out)
        (rw (submit-operator_auth s pin now, ap (λ p. p.0) attempt) refuses) early.1

  verify-config :
      (auth : OperatorAuth) (pin : String) (now : ℕ)
      → (verify hash_pin auth pin now).0.config ≡ auth.config
  unfolding verify accept reject
  verify-config auth pin now = ground arith

  wrong_entry :
      (s : Screen) (config : OperatorAuthConfig) (attempt : String × ℕ)
      → s.operator_auth.config ≡ config
      → IsWrong hash_pin config attempt
      → IsGuarded s
      → is_admin s.active_screen ≡ false
      → let after = on_submit_operator_pin hash_pin s attempt.0 attempt.1 in
        (after.operator_auth.config ≡ config)
        × (IsGuarded after × (is_admin after.active_screen ≡ false))
  unfolding verify
  wrong_entry s config attempt same wrong g out =
      let refused : (verify hash_pin s.operator_auth attempt.0 attempt.1).1 ≡ false =
        ground (arith, same, wrong) in
      let (screen, auth) = submit_refused s attempt.0 attempt.1 refused in
      (
        ap (λ a. a.config) (submit-operator_auth s attempt.0 attempt.1)
            ∙ verify-config s.operator_auth attempt.0 attempt.1
            ∙ same,
        (submit-IsGuarded s attempt.0 attempt.1 g, rw screen out),
      )

  -- From the station's configuration on, three wrong PINs in a row keep the user out of the admin
  -- area: no event in the ten seconds after the third one leads there, the right PIN neither.
  pub three_wrong_pins :
      (s : Screen) (a b c : String × ℕ) (events : List UserEvent)
      → s.operator_auth ≡ station_auth hash_pin
      → IsGuarded s
      → is_admin s.active_screen ≡ false
      → All (IsWrong hash_pin (station_auth hash_pin).config) (a ∷ b ∷ c ∷ [])
      → All (IsBefore (c.1 + 10 * second)) events
      → is_admin
          (on_user_events
            (on_user_events s (entry a ∷ entry b ∷ entry c ∷ []))
            events).active_screen
        ≡ false
  unfolding station_auth on_user_event
  three_wrong_pins s a b c events start g out wrong early =
      let config = (station_auth hash_pin).config in
      let s1 = on_submit_operator_pin hash_pin s a.0 a.1 in
      let s2 = on_submit_operator_pin hash_pin s1 b.0 b.1 in
      let s3 = on_submit_operator_pin hash_pin s2 c.0 c.1 in
      let (k1, (g1, o1)) = wrong_entry s config a (ap (λ x. x.config) start) wrong.0 g out in
      let (k2, (g2, o2)) = wrong_entry s1 config b k1 wrong.1.0 g1 o1 in
      let (k3, (g3, o3)) = wrong_entry s2 config c k2 wrong.1.1.0 g2 o2 in
      let auth : s3.operator_auth
          ≡ (verify hash_pin (verify_all hash_pin (new_auth config) (a ∷ b ∷ [])) c.0 c.1).0 =
        rw
          (
            submit-operator_auth s2 c.0 c.1,
            submit-operator_auth s1 b.0 b.1,
            submit-operator_auth s a.0 a.1,
            start,
          )
          refl in
      stays_outside (c.1 + 10 * second) events s3 g3 o3
        (λ pin now soon. rw auth (
          (verify_all-locks hash_pin config (a ∷ b ∷ []) c.0 c.1 pin now (wrong.0, (wrong.1.0, tt))
            wrong.1.1.0 refl soon).0))
        early
