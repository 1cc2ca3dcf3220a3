-- ===== src/Retry/Laws.antt =====
-- How long an attempt may take, and which attempt decides.
use cocktail_maker.Prelude.{
  ℕ, zero, suc, ◌+◌, ◌*◌, ◌≤◌, ◌<◌, ◌≡◌, ◌≢◌, ◌⊎◌, sym, ap, ◌∙◌, nat_eq, leb, min, ltb, arith,
  Bool-cases, inl, inr,
}
use cocktail_maker.Retry.{
  ExponentialBackoffPolicy, grow, backoff, Attempt, timed_out, retry_from, retry_on_timeout,
}

-- The delay doubled once for each retry.
abbrev pub doubled : ℕ → ℕ → ℕ
doubled zero delay = delay
doubled (suc retry) delay = doubled retry (delay * 2)

doubled_grows : (n d : ℕ) → d ≤ doubled n d
doubled_grows zero d = omega arith
doubled_grows (suc n) d = omega (arith, doubled_grows n (d * 2))

grow_lem : (maximum n d : ℕ) → d ≤ maximum → grow maximum n d ≡ min (doubled n d) maximum
unfolding grow
grow_lem maximum zero d h = omega arith
grow_lem maximum (suc n) d h = elim (Bool-cases (ltb d maximum)) [
  | inl less ↦ rw less (
      let next = grow_lem maximum n (min (d * 2) maximum) (omega arith) in
      elim (Bool-cases (leb (d * 2) maximum)) [
        | inl fits ↦
            let e : min (d * 2) maximum ≡ d * 2 = ground arith in
            let there : grow maximum n (d * 2) ≡ min (doubled n (d * 2)) maximum = rw e at next in
            rw e there
        | inr over ↦
            let e : min (d * 2) maximum ≡ maximum = ground arith in
            let top : grow maximum n maximum ≡ min (doubled n maximum) maximum = rw e at next in
            rw e (ground (arith, top, over, doubled_grows n maximum, doubled_grows n (d * 2)))
      ])
  | inr full ↦ rw full (ground (arith, doubled_grows n (d * 2)))
]

-- Where the initial timeout is at most the maximum, the timeout of a retry is the initial one
-- doubled once for each retry, but not more than the maximum.
pub backoff_lem :
    (policy : ExponentialBackoffPolicy) (retry : ℕ)
    → policy.initial ≤ policy.maximum
    → backoff policy retry ≡ min (doubled retry policy.initial) policy.maximum
unfolding backoff
backoff_lem policy retry h = grow_lem policy.maximum retry policy.initial h

module _ {E A : Type 0} (policy : ℕ → ℕ) (f : ℕ → ℕ → Attempt E A) where
  one_attempt :
      (left r : ℕ) → f r (policy r) ≢ timed_out → retry_from policy f (suc left) r ≡ f r (policy r)
  unfolding retry_from
  one_attempt left r h = ground arith

  next_attempt :
      (left r : ℕ)
      → f r (policy r) ≡ timed_out
      → retry_from policy f (suc left) r ≡ retry_from policy f left (suc r)
  unfolding retry_from
  next_attempt left r h = ground arith

  retry_from_lem :
      (left r n : ℕ)
      → r ≤ n
      → n ≤ r + left
      → ((i : ℕ) → r ≤ i → i < n → f i (policy i) ≡ timed_out)
      → (f n (policy n) ≢ timed_out) ⊎ (n ≡ r + left)
      → retry_from policy f left r ≡ f n (policy n)
  unfolding retry_from
  retry_from_lem zero r n low high early last =
      let e : r ≡ n = omega arith in ap (λ k. f k (policy k)) e
  retry_from_lem (suc left) r n low high early last = elim (Bool-cases (nat_eq r n)) [
    | inl here ↦
        let e : r ≡ n = ground arith in
        elim last [
          | inl decides ↦
              one_attempt left r (λ t. decides (sym (ap (λ k. f k (policy k)) e) ∙ t))
              ∙ ap (λ k. f k (policy k)) e
          | inr end ↦ absurd (omega arith)
        ]
    | inr later ↦
        let apart : r < n = ground arith in
        let again : f r (policy r) ≡ timed_out = early r (omega arith) apart in
        let rest : retry_from policy f left (suc r) ≡ f n (policy n) =
          retry_from_lem left (suc r) n apart (omega arith) (λ i a b. early i (omega arith) b)
            (elim last [ inl d ↦ inl d | inr end ↦ inr (omega arith) ]) in
        next_attempt left r again ∙ rest
  ]

  -- Where the attempts in front of attempt n time out, n is at most max_retries, and n does not
  -- time out or is max_retries, retry_on_timeout ends as attempt n under its timeout does.
  pub retry_on_timeout_lem :
      (max_retries n : ℕ)
      → n ≤ max_retries
      → ((i : ℕ) → i < n → f i (policy i) ≡ timed_out)
      → (f n (policy n) ≢ timed_out) ⊎ (n ≡ max_retries)
      → retry_on_timeout policy f max_retries ≡ f n (policy n)
  unfolding retry_on_timeout
  retry_on_timeout_lem max_retries n high early last =
      retry_from_lem max_retries 0 n (omega arith) (omega arith) (λ i a b. early i b)
        (elim last [ inl d ↦ inl d | inr end ↦ inr (omega arith) ])
