-- ===== src/Session.antt =====
-- `cocktail-maker/pod_protocol_session.cppm` and `.cpp`: the transactions that wait for a response, and
-- the messages read from the buffer. `frame.read` belongs to the protocol library and is a parameter;
-- so is the number of transaction ids. A response channel is a number, and `mailbox` holds what was
-- sent to a channel; the channels have room for one message.
pub mod Laws
use cocktail_maker.Prelude.{
  ℕ, zero, suc, ◌+◌, ◌%◌, List, [], ◌∷◌, Option, none, some, ◌==◌, ℕ_eq, if◌then◌else◌, drop,
  length, ◌++◌,
}
use cocktail_maker.Prelude.Assoc.{find, emplace, erase}

pub record Session (Msg : Type 0) : Type 0 where
  pub transaction_id_counter : ℕ
  pub dispatch_map : List (ℕ × ℕ)
  pub mailbox : List (ℕ × Msg)
  -- The next new channel.
  pub next_channel : ℕ

-- How `frame.read` ends, with the number of bytes it consumed. `no_message` stands for an error and for
-- a success without a message.
pub data Read (Msg : Type 0) : Type 0 where
  not_enough_data : Read Msg
  no_message : ℕ → Read Msg
  message : Msg → ℕ → Read Msg

-- `consumed != 0U ? consumed : 1U`
abbrev pub at_least_one : ℕ → ℕ
at_least_one consumed = if consumed == 0 then 1 else consumed

module _ {Msg : Type 0} where
  unfoldable pub generate_new_transaction_id : ℕ → Session Msg → Session Msg × ℕ
  generate_new_transaction_id ids s =
      let id = (s.transaction_id_counter + 1) % ids in
      (record s { transaction_id_counter = id }, id)

  -- The channel of the transaction: the one that waits already, or a new one.
  unfoldable pub register_response : Session Msg → ℕ → Session Msg × ℕ
  register_response s id = elim (find id s.dispatch_map) [
    | some channel ↦ (s, channel)
    | none ↦ (
      record s {
        dispatch_map = emplace id s.next_channel s.dispatch_map;
        next_channel = suc s.next_channel;
      },
      s.next_channel,
    )
  ]

  -- `~ResponseRegistration()`
  unfoldable pub drop_registration : Session Msg → ℕ → ℕ → Session Msg
  drop_registration s id channel = elim (find id s.dispatch_map) [
    | none ↦ s
    | some c ↦ if c == channel then record s { dispatch_map = erase id s.dispatch_map } else s
  ]

  -- The body of the read loop for a message with the given transaction id.
  unfoldable pub dispatch : Session Msg → ℕ → Msg → Session Msg
  dispatch s id msg = elim (find id s.dispatch_map) [
    | none ↦ s
    | some channel ↦ record s {
      dispatch_map = erase id s.dispatch_map;
      mailbox = emplace channel msg s.mailbox;
    }
  ]

  module _ (transaction_id : Msg → ℕ) (read : List ℕ → Read Msg) where
    -- The inner loop on the valid bytes of the buffer. Each round but the last consumes a byte.
    unfoldable pub read_messages : ℕ → Session Msg → List ℕ → Session Msg × List ℕ
    unfolding dispatch
    read_messages zero s buffer = (s, buffer)
    read_messages (suc fuel) s buffer = elim (read buffer) [
      | not_enough_data ↦ (s, buffer)
      | no_message consumed ↦ read_messages fuel s (drop (at_least_one consumed) buffer)
      | message msg consumed ↦
          read_messages fuel (dispatch s (transaction_id msg) msg) (drop consumed buffer)
    ]

    -- The bytes that arrive are put behind those that are left.
    unfoldable pub receive : Session Msg → List ℕ → List ℕ → Session Msg × List ℕ
    unfolding read_messages
    receive s buffer bytes =
        let valid = buffer ++ bytes in read_messages (suc (length valid)) s valid
