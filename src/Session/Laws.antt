-- ===== src/Session/Laws.antt =====
-- A response reaches the one who waits for it, and the read loop ends.
use cocktail_maker.Prelude.{
  ℕ, zero, suc, ◌-◌, ◌<◌, ◌≡◌, ◌≢◌, ◌⊎◌, inl, inr, refl, sym, ◌∙◌, List, [], ◌∷◌, ◌++◌, none, some,
  ◌==◌, ℕ_eq, if◌then◌else◌, arith, drop, length,
}
use cocktail_maker.Prelude.Assoc.{find, find-emplace, find-erase}
use cocktail_maker.Session.{
  Session, Read, not_enough_data, no_message, message, register_response, dispatch, at_least_one,
  read_messages, receive,
}

length-drop : (n : ℕ) (l : List ℕ) → length (drop n l) ≡ length l - n
length-drop zero l = omega arith
length-drop (suc n) [] = omega arith
length-drop (suc n) (x ∷ l) = omega (arith, length-drop n l)

Read-cases :
    {Msg : Type 0} (r : Read Msg)
    → (r ≡ not_enough_data)
      ⊎ (((n : ℕ) × (r ≡ no_message n)) ⊎ ((m : Msg) × (n : ℕ) × (r ≡ message m n)))
Read-cases not_enough_data = inl refl
Read-cases (no_message n) = inr (inl (n, refl))
Read-cases (message m n) = inr (inr (m, n, refl))

module _ {Msg : Type 0} where
  register_response_lem :
      (s : Session Msg) (id j : ℕ)
      → (find id (register_response s id).0.dispatch_map ≡ some (register_response s id).1)
        × ((register_response s id).0.mailbox ≡ s.mailbox)
        × (find j (register_response s id).0.dispatch_map
            ≡ (if id == j then some (register_response s id).1 else find j s.dispatch_map))
  unfolding register_response
  register_response_lem s id j = ground (
    arith,
    find-emplace id id s.next_channel s.dispatch_map,
    find-emplace id j s.next_channel s.dispatch_map,
  )

  dispatch_lem :
      (s : Session Msg) (id channel j : ℕ) (msg : Msg)
      → find id s.dispatch_map ≡ some channel
      → find channel s.mailbox ≡ none
      → (find channel (dispatch s id msg).mailbox ≡ some msg)
        × (find j (dispatch s id msg).dispatch_map
            ≡ (if id == j then none else find j s.dispatch_map))
  unfolding dispatch
  dispatch_lem s id channel j msg h free =
      ground
        (arith, h, free, find-emplace channel channel msg s.mailbox, find-erase id j s.dispatch_map)

  -- The response to a registered transaction whose channel is empty arrives in the channel of the
  -- registration; the transaction is no longer registered then, and every other one is as it was.
  pub dispatch-register_response :
      (s : Session Msg) (id j : ℕ) (msg : Msg)
      → find (register_response s id).1 s.mailbox ≡ none
      → let (waiting, channel) = register_response s id in
        (find channel (dispatch waiting id msg).mailbox ≡ some msg)
        × (find j (dispatch waiting id msg).dispatch_map
            ≡ (if id == j then none else find j s.dispatch_map))
  dispatch-register_response s id j msg free =
      let (waits, same, others) = register_response_lem s id j in
      let sent =
        dispatch_lem (register_response s id).0 id (register_response s id).1 j msg waits
          (rw same free) in
      (sent.0, ground (arith, sent.1, others))

  module _ (transaction_id : Msg → ℕ) (read : List ℕ → Read Msg) where
    not_empty :
        (buffer : List ℕ)
        → read [] ≡ not_enough_data
        → read buffer ≢ not_enough_data
        → 0 < length buffer
    not_empty [] e n = absurd (n e)
    not_empty (x ∷ l) e n = omega arith

    apart_no_message : (n : ℕ) → Path (Read Msg) (no_message n) not_enough_data → ⊥
    apart_no_message n p = cc

    apart_message : (m : Msg) (n : ℕ) → Path (Read Msg) (message m n) not_enough_data → ⊥
    apart_message m n p = cc

    -- Fuel above the number of bytes is enough.
    read_messages-stops :
        (fuel : ℕ) (s : Session Msg) (buffer : List ℕ)
        → read [] ≡ not_enough_data
        → ((b : List ℕ) (m : Msg) (n : ℕ) → read b ≡ message m n → 0 < n)
        → length buffer < fuel
        → read (read_messages transaction_id read fuel s buffer).1 ≡ not_enough_data
    unfolding read_messages
    read_messages-stops zero s buffer e c h = absurd (omega arith)
    read_messages-stops (suc fuel) s buffer e c h = elim (Read-cases (read buffer)) [
      | inl stop ↦ rw (read_messages, stop) stop
      | inr (inl (n, skip)) ↦
          let more = not_empty buffer e (λ p. apart_no_message n (sym skip ∙ p)) in
          rw (read_messages, skip)
            (read_messages-stops fuel s (drop (at_least_one n) buffer) e c
              (ground (arith, more, length-drop (at_least_one n) buffer)))
      | inr (inr (m, n, got)) ↦
          let more = not_empty buffer e (λ p. apart_message m n (sym got ∙ p)) in
          rw (read_messages, got)
            (read_messages-stops fuel (dispatch s (transaction_id m) m) (drop n buffer) e c
              (omega (arith, more, length-drop n buffer, c buffer m n got)))
    ]

    -- Where frame.read wants more data of an empty buffer and consumes bytes for each message, the
    -- inner loop ends on any bytes, and what it leaves in the buffer holds no whole frame.
    pub receive-stops :
        (s : Session Msg) (buffer bytes : List ℕ)
        → read [] ≡ not_enough_data
        → ((b : List ℕ) (m : Msg) (n : ℕ) → read b ≡ message m n → 0 < n)
        → read (receive transaction_id read s buffer bytes).1 ≡ not_enough_data
    unfolding receive
    receive-stops s buffer bytes e c =
        read_messages-stops (suc (length (buffer ++ bytes))) s (buffer ++ bytes) e c (omega arith)
