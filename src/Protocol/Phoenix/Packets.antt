-- ===== src/Protocol/Phoenix/Packets.antt =====
-- protocol/phoenix.rs: orders and cancellations, and the bytes of each instruction, a discriminator
-- followed by the arguments in Borsh.
pub mod Decoder
pub mod RoundTrip
use programs.Prelude.{
  ℕ, Bool, true, false, not, ◌&&◌, Option, none, some, List, [], ◌∷◌, ◌++◌, leb, ◌==◌,
}
use programs.Errors.{Result, ok, ◌>>=◌, ◌>>◌, validate, invalid_instruction_data}
use programs.Protocol.Phoenix.Discriminators
use programs.Bytes.{length}
use programs.Seeds.{to_le_bytes}
use programs.Protocol.Phoenix.{
  trader_pda_index, trader_subaccount_index, trader_max_positions, max_cancel_order_ids,
}

pub data PhoenixSide : Type 0 where
  bid ask : PhoenixSide

pub data PhoenixSelfTradeBehavior : Type 0 where
  abort cancel_provide decrement_take : PhoenixSelfTradeBehavior

pub data PhoenixOrderKind : Type 0 where
  market limit post_only : PhoenixOrderKind

pub record PhoenixCancelId : Type 0 where
  pub node_pointer : ℕ
  pub price_in_ticks : ℕ
  pub order_sequence_number : ℕ

pub record CancelUpToArgs : Type 0 where
  pub side : PhoenixSide
  pub num_orders_to_cancel : Option ℕ
  pub tick_limit : Option ℕ

pub data PhoenixCancelMode : Type 0 where
  all : PhoenixCancelMode
  up_to : CancelUpToArgs → PhoenixCancelMode
  by_id : List PhoenixCancelId → PhoenixCancelMode

-- The fields of each variant of `OrderPacket`.
pub record PostOnly : Type 0 where
  pub side : PhoenixSide
  pub price_in_ticks : ℕ
  pub num_base_lots : ℕ
  pub client_order_id : ℕ
  pub slide : Bool
  pub last_valid_slot : Option ℕ
  pub order_flags : ℕ
  pub cancel_existing : Bool

pub record Limit : Type 0 where
  pub side : PhoenixSide
  pub price_in_ticks : ℕ
  pub num_base_lots : ℕ
  pub self_trade_behavior : PhoenixSelfTradeBehavior
  pub match_limit : Option ℕ
  pub client_order_id : ℕ
  pub last_valid_slot : Option ℕ
  pub order_flags : ℕ
  pub cancel_existing : Bool

pub record ImmediateOrCancel : Type 0 where
  pub side : PhoenixSide
  pub price_in_ticks : Option ℕ
  pub num_base_lots : ℕ
  pub num_quote_lots : Option ℕ
  pub min_base_lots_to_fill : ℕ
  pub min_quote_lots_to_fill : ℕ
  pub self_trade_behavior : PhoenixSelfTradeBehavior
  pub match_limit : Option ℕ
  pub client_order_id : ℕ
  pub last_valid_slot : Option ℕ
  pub order_flags : ℕ
  pub cancel_existing : Bool

pub data OrderPacket : Type 0 where
  resting : PostOnly → OrderPacket
  limited : Limit → OrderPacket
  immediate : ImmediateOrCancel → OrderPacket

-- Borsh: an enum without data is its tag, an option a tag and the value, a list its length in four
-- bytes and the members.
unfoldable pub side_bytes : PhoenixSide → List ℕ
side_bytes bid = 0 ∷ []
side_bytes ask = 1 ∷ []

unfoldable pub behavior_bytes : PhoenixSelfTradeBehavior → List ℕ
behavior_bytes abort = 0 ∷ []
behavior_bytes cancel_provide = 1 ∷ []
behavior_bytes decrement_take = 2 ∷ []

unfoldable pub bool_bytes : Bool → List ℕ
bool_bytes false = 0 ∷ []
bool_bytes true = 1 ∷ []

unfoldable pub option_bytes : Option ℕ → List ℕ
option_bytes none = 0 ∷ []
option_bytes (some n) = 1 ∷ to_le_bytes 8 n

unfoldable pub cancel_id_bytes : PhoenixCancelId → List ℕ
cancel_id_bytes id =
    to_le_bytes 4 id.node_pointer
    ++ (to_le_bytes 8 id.price_in_ticks ++ to_le_bytes 8 id.order_sequence_number)

unfoldable pub cancel_ids_bytes : List PhoenixCancelId → List ℕ
cancel_ids_bytes [] = []
cancel_ids_bytes (id ∷ ids) = cancel_id_bytes id ++ cancel_ids_bytes ids

-- The serializer that `AnchorSerialize` derives for `OrderPacket`.
unfoldable pub packet_bytes : OrderPacket → List ℕ
packet_bytes (resting p) =
    0
    ∷ (side_bytes p.side
        ++ (to_le_bytes 8 p.price_in_ticks
            ++ (to_le_bytes 8 p.num_base_lots
                ++ (to_le_bytes 16 p.client_order_id
                    ++ (bool_bytes p.slide
                        ++ (option_bytes p.last_valid_slot
                            ++ (to_le_bytes 1 p.order_flags ++ bool_bytes p.cancel_existing)))))))
packet_bytes (limited p) =
    1
    ∷ (side_bytes p.side
        ++ (to_le_bytes 8 p.price_in_ticks
            ++ (to_le_bytes 8 p.num_base_lots
                ++ (behavior_bytes p.self_trade_behavior
                    ++ (option_bytes p.match_limit
                        ++ (to_le_bytes 16 p.client_order_id
                            ++ (option_bytes p.last_valid_slot
                                ++ (to_le_bytes 1 p.order_flags
                                    ++ bool_bytes p.cancel_existing))))))))
packet_bytes (immediate p) =
    2
    ∷ (side_bytes p.side
        ++ (option_bytes p.price_in_ticks
            ++ (to_le_bytes 8 p.num_base_lots
                ++ (option_bytes p.num_quote_lots
                    ++ (to_le_bytes 8 p.min_base_lots_to_fill
                        ++ (to_le_bytes 8 p.min_quote_lots_to_fill
                            ++ (behavior_bytes p.self_trade_behavior
                                ++ (option_bytes p.match_limit
                                    ++ (to_le_bytes 16 p.client_order_id
                                        ++ (option_bytes p.last_valid_slot
                                            ++ (to_le_bytes 1 p.order_flags
                                                ++ bool_bytes p.cancel_existing)))))))))))

unfoldable pub order_flags_of : Bool → ℕ
order_flags_of true = 128
order_flags_of false = 0

-- `instruction_data`, for a discriminator and serialized arguments.
abbrev pub instruction_data : List ℕ → List ℕ → List ℕ
instruction_data discriminator args = discriminator ++ args

-- `OrderPacket::instruction_data`
unfoldable pub order_data : OrderPacket → List ℕ
order_data (immediate p) =
    instruction_data Discriminators.place_market_order (packet_bytes (immediate p))
order_data (resting p) =
    instruction_data Discriminators.place_limit_order (packet_bytes (resting p))
order_data (limited p) =
    instruction_data Discriminators.place_limit_order (packet_bytes (limited p))

abbrev is_empty : List PhoenixCancelId → Bool
is_empty [] = true
is_empty (id ∷ ids) = false

-- `PhoenixCancelMode::instruction_data`
unfoldable pub cancel_data : PhoenixCancelMode → Result (List ℕ)
cancel_data all = ok Discriminators.cancel_all
cancel_data (up_to args) = ok (
    instruction_data Discriminators.cancel_up_to (
      side_bytes args.side
      ++ (option_bytes args.num_orders_to_cancel ++ option_bytes args.tick_limit)))
cancel_data (by_id orders) = do
  validate (not (is_empty orders) && leb (length orders) max_cancel_order_ids)
      invalid_instruction_data
  ok (
      instruction_data Discriminators.cancel_orders_by_id
        (to_le_bytes 4 (length orders) ++ cancel_ids_bytes orders))

unfoldable pub register_trader_data : List ℕ
register_trader_data = instruction_data Discriminators.register_trader (
    to_le_bytes 4 trader_max_positions
    ++ (to_le_bytes 4 0 ++ (trader_pda_index ∷ trader_subaccount_index ∷ [])))
