-- ===== src/Examples/Sessions.antt =====
-- Messages of one byte: the byte 0 is an error, any other byte a message with that transaction id.
use cocktail_maker.Prelude.{ℕ, zero, suc, ◌≡◌, ◌<◌, refl, List, [], ◌∷◌, none, some, ℕ_eq, arith}
use cocktail_maker.Prelude.Assoc.{find}
use cocktail_maker.Session.{
  Session, Read, not_enough_data, no_message, message, register_response, dispatch, receive,
}
use cocktail_maker.Session.Laws.{dispatch-register_response, receive-stops}

abbrev read_byte : List ℕ → Read ℕ
read_byte [] = not_enough_data
read_byte (zero ∷ l) = no_message 1
read_byte (suc n ∷ l) = message (suc n) 1

abbrev itself : ℕ → ℕ
itself n = n

abbrev idle : Session ℕ
idle = record { transaction_id_counter = 0; dispatch_map = []; mailbox = []; next_channel = 0 }

dispatch-register_response_example :
    let (waiting, channel) = register_response idle 5 in
    (find channel (dispatch waiting 5 77).mailbox ≡ some 77)
    × (find 5 (dispatch waiting 5 77).dispatch_map ≡ none)
unfolding find
dispatch-register_response_example = dispatch-register_response idle 5 5 77 refl

consumes : (b : List ℕ) (m n : ℕ) → read_byte b ≡ message m n → 0 < n
consumes [] m n h = absurd cc
consumes (zero ∷ l) m n h = absurd cc
consumes (suc k ∷ l) m n h = ground arith

receive-stops_example :
    read_byte (receive itself read_byte idle (3 ∷ []) (0 ∷ 4 ∷ [])).1 ≡ not_enough_data
receive-stops_example = receive-stops itself read_byte idle (3 ∷ []) (0 ∷ 4 ∷ []) refl consumes
