-- ===== src/Pods/Protocol/Laws.antt =====
-- How a request ends.
use cocktail_maker.Prelude.{
  ℕ, ◌+◌, ◌%◌, ◌≡◌, ◌↔◌, refl, Bool, true, false, List, [], ◌∷◌, ◌++◌, Option, none, some, String,
  arith,
}
use cocktail_maker.Prelude.Expected.{Expected, value, unexpected}
use cocktail_maker.Prelude.Int.{ℤ}
use cocktail_maker.Errors.{
  Exception, pod_timeout_error, dispenser_empty_error, protocol_error, is_timeout,
  code_dispenser_empty,
}
use cocktail_maker.Pods.Protocol.{
  Outgoing, dispense, Incoming, ack, nak, dispense_finished, Connection, process_nak, rethrown,
  receive_matching, new_transaction,
}
use cocktail_maker.Pods.Protocol.Requests.{
  dispenser_env, exchange, accepted, send_with_ack, send_action_with_response,
}
use cocktail_maker.Pods.Protocol.Pod.{pod_dispense}

module _ {Q : Type 0} (ids : ℕ) (write : Outgoing Q → Option Exception)
    (answer : List (ℕ × Outgoing Q) → ℕ → Bool → ℕ → Option (Incoming Q)) (pod_id : String)
    (c : Connection Q) (d : ℤ) (volume : Q) where
  -- The transaction of the request, and what was sent up to it.
  abbrev pub transaction : ℕ
  transaction = (c.transaction_id_counter + 1) % ids

  abbrev pub sent : List (ℕ × Outgoing Q)
  sent = c.sent ++ ((transaction, dispense d volume) ∷ [])

  abbrev pub first : Option (Incoming Q)
  first = answer sent transaction false 100

  abbrev pub second : Option (Incoming Q)
  second = answer sent transaction true 30000

  -- The result of dispensing, by the two answers.
  abbrev pub outcome : Option (Incoming Q) → Option (Incoming Q) → Expected Exception Q
  outcome none _ = unexpected (pod_timeout_error pod_id)
  outcome (some (nak code)) _ = unexpected (process_nak code (dispenser_env pod_id d))
  outcome (some ack) none = unexpected (pod_timeout_error pod_id)
  outcome (some ack) (some (nak code)) = unexpected (process_nak code (dispenser_env pod_id d))
  outcome (some ack) (some (dispense_finished v)) = value v
  outcome _ _ =
      unexpected (protocol_error "Expected message doesn't match with received message id.")

  outcome_value :
      (v : Q) (one two : Option (Incoming Q))
      → outcome one two ≡ value v
      → (one ≡ some ack) × (two ≡ some (dispense_finished v))
  outcome_value v one two h = ground (arith, h)

  outcome_errors :
      (e : Exception) (one two : Option (Incoming Q))
      → outcome one two ≡ unexpected e
      → ((is_timeout e ≡ true) → e ≡ pod_timeout_error pod_id)
        × ((one ≡ some (nak code_dispenser_empty)) → e ≡ dispenser_empty_error pod_id d)
  unfolding process_nak
  outcome_errors e one two h = ground (arith, h)

  pub pod_dispense-outcome :
      write (dispense d volume) ≡ none
      → (pod_dispense ids write answer pod_id c d volume).1 ≡ outcome first second
  unfolding pod_dispense send_action_with_response send_with_ack exchange accepted rethrown
      receive_matching new_transaction process_nak
  pod_dispense-outcome ok = ground (arith, ok)

  -- Where the message can be sent, dispensing returns a volume exactly if the pod acknowledges
  -- within 100 ms and then reports that volume within 30 s under the same transaction.
  pub pod_dispense-value_iff :
      (v : Q)
      → write (dispense d volume) ≡ none
      → ((pod_dispense ids write answer pod_id c d volume).1 ≡ value v)
        ↔ ((first ≡ some ack) × (second ≡ some (dispense_finished v)))
  pod_dispense-value_iff v ok = (
    λ h. outcome_value v first second (rw (pod_dispense-outcome ok) at h),
    λ h. rw (pod_dispense-outcome ok, h.0, h.1) refl,
  )

  -- Where the message can be sent, a dispensing that runs into a timeout throws the timeout of this
  -- pod, and a pod that says it is empty makes it throw that this dispenser of this pod is empty.
  pub pod_dispense-errors :
      (e : Exception)
      → write (dispense d volume) ≡ none
      → (pod_dispense ids write answer pod_id c d volume).1 ≡ unexpected e
      → ((is_timeout e ≡ true) → e ≡ pod_timeout_error pod_id)
        × ((first ≡ some (nak code_dispenser_empty)) → e ≡ dispenser_empty_error pod_id d)
  pod_dispense-errors e ok h = outcome_errors e first second (rw (pod_dispense-outcome ok) at h)
