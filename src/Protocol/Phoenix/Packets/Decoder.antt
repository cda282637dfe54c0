-- ===== src/Protocol/Phoenix/Packets/Decoder.antt =====
-- Borsh, read independently of the program: how Phoenix reads an order packet back.
use programs.Prelude.{
  ℕ, Bool, true, false, Option, none, some, List, [], ◌∷◌, leb, ◌==◌, if◌then◌else◌,
}
use programs.Bytes.{length, take, drop, from_le_bytes}
use programs.Protocol.Phoenix.Packets.{
  PhoenixSide, bid, ask, PhoenixSelfTradeBehavior, abort, cancel_provide, decrement_take,
  OrderPacket, resting, limited, immediate,
}

infixl 5 ◌>>=◌
abbrev ◌>>=◌ {ℓ κ} : {A : Type ℓ} {B : Type κ} → Option A → (A → Option B) → Option B
none >>= next = none
some a >>= next = next a

unfoldable pub read_number : ℕ → List ℕ → Option (ℕ × List ℕ)
read_number w bs = if leb w (length bs) then some (from_le_bytes (take w bs), drop w bs) else none

unfoldable pub read_bool : List ℕ → Option (Bool × List ℕ)
read_bool [] = none
read_bool (b ∷ bs) = if b == 0 then some (false, bs) else if b == 1 then some (true, bs) else none

unfoldable pub read_side : List ℕ → Option (PhoenixSide × List ℕ)
read_side [] = none
read_side (b ∷ bs) = if b == 0 then some (bid, bs) else if b == 1 then some (ask, bs) else none

unfoldable pub read_behavior : List ℕ → Option (PhoenixSelfTradeBehavior × List ℕ)
read_behavior [] = none
read_behavior (b ∷ bs) =
    if b == 0
    then some (abort, bs)
    else if b == 1
    then some (cancel_provide, bs)
    else if b == 2
    then some (decrement_take, bs)
    else none

abbrev as_some : Option (ℕ × List ℕ) → Option (Option ℕ × List ℕ)
as_some none = none
as_some (some (n, bs)) = some (some n, bs)

unfoldable pub read_option : List ℕ → Option (Option ℕ × List ℕ)
read_option [] = none
read_option (b ∷ bs) =
    if b == 0 then some (none, bs) else if b == 1 then as_some (read_number 8 bs) else none

unfoldable pub read_resting : List ℕ → Option (OrderPacket × List ℕ)
read_resting bs = do
  (side, bs₁) ← read_side bs
  (price_in_ticks, bs₂) ← read_number 8 bs₁
  (num_base_lots, bs₃) ← read_number 8 bs₂
  (client_order_id, bs₄) ← read_number 16 bs₃
  (slide, bs₅) ← read_bool bs₄
  (last_valid_slot, bs₆) ← read_option bs₅
  (order_flags, bs₇) ← read_number 1 bs₆
  (cancel_existing, bs₈) ← read_bool bs₇
  some (
    resting (record {
      side = side;
      price_in_ticks = price_in_ticks;
      num_base_lots = num_base_lots;
      client_order_id = client_order_id;
      slide = slide;
      last_valid_slot = last_valid_slot;
      order_flags = order_flags;
      cancel_existing = cancel_existing;
    }),
    bs₈,
  )

unfoldable pub read_limited : List ℕ → Option (OrderPacket × List ℕ)
read_limited bs = do
  (side, bs₁) ← read_side bs
  (price_in_ticks, bs₂) ← read_number 8 bs₁
  (num_base_lots, bs₃) ← read_number 8 bs₂
  (self_trade_behavior, bs₄) ← read_behavior bs₃
  (match_limit, bs₅) ← read_option bs₄
  (client_order_id, bs₆) ← read_number 16 bs₅
  (last_valid_slot, bs₇) ← read_option bs₆
  (order_flags, bs₈) ← read_number 1 bs₇
  (cancel_existing, bs₉) ← read_bool bs₈
  some (
    limited (record {
      side = side;
      price_in_ticks = price_in_ticks;
      num_base_lots = num_base_lots;
      self_trade_behavior = self_trade_behavior;
      match_limit = match_limit;
      client_order_id = client_order_id;
      last_valid_slot = last_valid_slot;
      order_flags = order_flags;
      cancel_existing = cancel_existing;
    }),
    bs₉,
  )

unfoldable pub read_immediate : List ℕ → Option (OrderPacket × List ℕ)
read_immediate bs = do
  (side, bs₁) ← read_side bs
  (price_in_ticks, bs₂) ← read_option bs₁
  (num_base_lots, bs₃) ← read_number 8 bs₂
  (num_quote_lots, bs₄) ← read_option bs₃
  (min_base_lots_to_fill, bs₅) ← read_number 8 bs₄
  (min_quote_lots_to_fill, bs₆) ← read_number 8 bs₅
  (self_trade_behavior, bs₇) ← read_behavior bs₆
  (match_limit, bs₈) ← read_option bs₇
  (client_order_id, bs₉) ← read_number 16 bs₈
  (last_valid_slot, bsₐ) ← read_option bs₉
  (order_flags, bsₑ) ← read_number 1 bsₐ
  (cancel_existing, bsₒ) ← read_bool bsₑ
  some (
    immediate (record {
      side = side;
      price_in_ticks = price_in_ticks;
      num_base_lots = num_base_lots;
      num_quote_lots = num_quote_lots;
      min_base_lots_to_fill = min_base_lots_to_fill;
      min_quote_lots_to_fill = min_quote_lots_to_fill;
      self_trade_behavior = self_trade_behavior;
      match_limit = match_limit;
      client_order_id = client_order_id;
      last_valid_slot = last_valid_slot;
      order_flags = order_flags;
      cancel_existing = cancel_existing;
    }),
    bsₒ,
  )

unfoldable pub read_packet : List ℕ → Option (OrderPacket × List ℕ)
read_packet [] = none
read_packet (tag ∷ bs) =
    if tag == 0
    then read_resting bs
    else if tag == 1
    then read_limited bs
    else if tag == 2
    then read_immediate bs
    else none
