-- ===== src/Pods/Protocol/Requests.antt =====
-- `send_with_ack`, `send_and_receive`, `send_action_with_response` and the requests of `Pod` in
-- `cocktail-maker/pod.cpp`.
use cocktail_maker.Prelude.{
  ℕ, List, [], ◌∷◌, ◌++◌, Option, none, some, String, Bool, true, false, ◌||◌,
}
use cocktail_maker.Prelude.Expected.{Expected, value, unexpected}
use cocktail_maker.Prelude.Int.{ℤ, pos}
use cocktail_maker.Errors.{Exception}
use cocktail_maker.Pods.Protocol.{
  Outgoing, Incoming, nak, Connection, MessageEnvironment, process_nak, rethrown, is_ack, is_nak,
  receive_matching, new_transaction,
}

abbrev pub dispenser_env : String → ℤ → MessageEnvironment
dispenser_env pod_id dispenser_id = record {
  pod_id = pod_id;
  dispenser_id = dispenser_id;
  timeout = 100;
}

abbrev pub default_env : String → ℕ → MessageEnvironment
default_env pod_id timeout = record { pod_id = pod_id; dispenser_id = pos 0; timeout = timeout }

-- `write` is the exception with which sending a message fails, if it does. `answer` is the message that
-- arrives for a transaction within a timeout, given what was sent so far: the first one for a wait
-- that is the first of its transaction, the second one for the next wait.
module _ {Q : Type 0} (ids : ℕ) (write : Outgoing Q → Option Exception)
    (answer : List (ℕ × Outgoing Q) → ℕ → Bool → ℕ → Option (Incoming Q)) where
  -- A message is sent under a new transaction, and the first message for it is awaited.
  unfoldable pub exchange :
      Connection Q
      → Outgoing Q
      → (Incoming Q → Bool)
      → MessageEnvironment
      → Connection Q × (ℕ × Expected Exception (Incoming Q))
  unfolding new_transaction receive_matching rethrown
  exchange c msg expected env =
      let (next, id) = new_transaction ids c in
      elim (write msg) [
        | some e ↦ (next, (id, unexpected e))
        | none ↦
            let sent = next.sent ++ ((id, msg) ∷ []) in
            (
              record next { sent = sent },
              (
                id,
                elim (receive_matching expected (answer sent id false env.timeout)) [
                  | value m ↦ value m
                  | unexpected e ↦ unexpected (rethrown env e)
                ],
              ),
            )
      ]

  -- The message that ends a wait: a refusal throws.
  unfoldable pub accepted :
      MessageEnvironment → Expected Exception (Incoming Q) → Expected Exception (Incoming Q)
  unfolding process_nak
  accepted env (value (nak code)) = unexpected (process_nak code env)
  accepted env r = r

  unfoldable pub send_with_ack :
      Connection Q
      → Outgoing Q
      → MessageEnvironment
      → Connection Q × (ℕ × Expected Exception (Incoming Q))
  unfolding exchange accepted
  send_with_ack c msg env =
      let (next, (id, r)) = exchange c msg (λ m. is_ack m || is_nak m) env in
      (next, (id, accepted env r))

  unfoldable pub send_and_receive :
      Connection Q
      → Outgoing Q
      → (Incoming Q → Bool)
      → MessageEnvironment
      → Connection Q × Expected Exception (Incoming Q)
  unfolding exchange
  send_and_receive c msg expected env =
      let (next, (id, r)) = exchange c msg expected env in (next, r)

  -- After the acknowledgement the same transaction is awaited again.
  unfoldable pub send_action_with_response :
      Connection Q
      → Outgoing Q
      → (Incoming Q → Bool)
      → ℕ
      → MessageEnvironment
      → Connection Q × Expected Exception (Incoming Q)
  unfolding send_with_ack accepted receive_matching rethrown
  send_action_with_response c msg expected action_timeout env =
      let (next, (id, r)) = send_with_ack c msg env in
      elim r [
        | unexpected e ↦ (next, unexpected e)
        | value _ ↦ (
          next,
          elim (accepted env (
              receive_matching (λ m. expected m || is_nak m)
                (answer next.sent id true action_timeout))) [
                  | value m ↦ value m
                  | unexpected e ↦ unexpected (rethrown env e)
                ],
        )
      ]
