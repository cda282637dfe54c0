-- ===== src/Protocol/Phoenix/Packets/RoundTrip.antt =====
-- An order packet is what Phoenix reads back from its bytes.
use programs.Prelude.{
  ℕ, ◌^◌, ◌<◌, ◌≡◌, refl, arith, Bool, true, false, Option, none, some, List, [], ◌++◌, leb, le→leb,
}
use programs.Bytes.{length}
use programs.Bytes.Laws.{
  length-append, length-to_le_bytes, take-append, drop-append, from_le_bytes-to_le_bytes,
}
use programs.Seeds.{to_le_bytes}
use programs.Protocol.Phoenix.Packets.{
  PhoenixSide, bid, ask, PhoenixSelfTradeBehavior, abort, cancel_provide, decrement_take,
  OrderPacket, resting, limited, immediate, side_bytes, behavior_bytes, bool_bytes, option_bytes,
  packet_bytes,
}
use programs.Protocol.Phoenix.Packets.Decoder.{
  read_number, read_bool, read_side, read_behavior, read_option, read_resting, read_limited,
  read_immediate, read_packet,
}

read_number-to_le_bytes :
    (w n : ℕ) {rest : List ℕ}
    → n < 256 ^ w
    → read_number w (to_le_bytes w n ++ rest) ≡ some (n, rest)
unfolding read_number
read_number-to_le_bytes w n {rest} h =
    let size = length-to_le_bytes w n in
    let enough : leb w (length (to_le_bytes w n ++ rest)) ≡ true =
      le→leb _ _ (omega (arith, length-append (to_le_bytes w n) rest)) in
    rw
      (
        enough,
        take-append w (to_le_bytes w n) rest size,
        drop-append w (to_le_bytes w n) rest size,
        from_le_bytes-to_le_bytes w n h,
      )
      refl

read_side-side_bytes :
    (s : PhoenixSide) {rest : List ℕ} → read_side (side_bytes s ++ rest) ≡ some (s, rest)
unfolding read_side side_bytes
read_side-side_bytes bid = refl
read_side-side_bytes ask = refl

read_behavior-behavior_bytes :
    (s : PhoenixSelfTradeBehavior) {rest : List ℕ}
    → read_behavior (behavior_bytes s ++ rest) ≡ some (s, rest)
unfolding read_behavior behavior_bytes
read_behavior-behavior_bytes abort = refl
read_behavior-behavior_bytes cancel_provide = refl
read_behavior-behavior_bytes decrement_take = refl

read_bool-bool_bytes :
    (b : Bool) {rest : List ℕ} → read_bool (bool_bytes b ++ rest) ≡ some (b, rest)
unfolding read_bool bool_bytes
read_bool-bool_bytes false = refl
read_bool-bool_bytes true = refl

read_bool-last : (b : Bool) → read_bool (bool_bytes b) ≡ some (b, [])
unfolding read_bool bool_bytes
read_bool-last false = refl
read_bool-last true = refl

abbrev OptionFits : Option ℕ → Type 0
OptionFits none = Unit
OptionFits (some n) = n < 256 ^ 8

read_option-option_bytes :
    (o : Option ℕ) {rest : List ℕ}
    → OptionFits o
    → read_option (option_bytes o ++ rest) ≡ some (o, rest)
unfolding read_option option_bytes
read_option-option_bytes none h = refl
read_option-option_bytes (some n) {rest} h = rw (read_number-to_le_bytes 8 n {rest = rest} h) refl

-- The numbers of a packet fit the widths of their types.
abbrev pub PacketFits : OrderPacket → Type 0
PacketFits (resting p) =
    (p.price_in_ticks < 256 ^ 8)
    × (p.num_base_lots < 256 ^ 8)
    × (p.client_order_id < 256 ^ 16)
    × (OptionFits p.last_valid_slot)
    × (p.order_flags < 256 ^ 1)
PacketFits (limited p) =
    (p.price_in_ticks < 256 ^ 8)
    × (p.num_base_lots < 256 ^ 8)
    × (OptionFits p.match_limit)
    × (p.client_order_id < 256 ^ 16)
    × (OptionFits p.last_valid_slot)
    × (p.order_flags < 256 ^ 1)
PacketFits (immediate p) =
    (OptionFits p.price_in_ticks)
    × (p.num_base_lots < 256 ^ 8)
    × (OptionFits p.num_quote_lots)
    × (p.min_base_lots_to_fill < 256 ^ 8)
    × (p.min_quote_lots_to_fill < 256 ^ 8)
    × (OptionFits p.match_limit)
    × (p.client_order_id < 256 ^ 16)
    × (OptionFits p.last_valid_slot)
    × (p.order_flags < 256 ^ 1)

-- An order packet of any of the three kinds, whose numbers fit their widths, is what a Borsh
-- reader gets back from the bytes that the program writes, with no byte left over.
pub read_packet-packet_bytes :
    (p : OrderPacket) → PacketFits p → read_packet (packet_bytes p) ≡ some (p, [])
unfolding read_packet read_resting read_limited read_immediate packet_bytes
read_packet-packet_bytes (resting p) h =
    rw
      (
        read_side-side_bytes p.side,
        read_number-to_le_bytes 8 p.price_in_ticks h.0,
        read_number-to_le_bytes 8 p.num_base_lots h.1,
        read_number-to_le_bytes 16 p.client_order_id h.2,
        read_bool-bool_bytes p.slide,
        read_option-option_bytes p.last_valid_slot h.3,
        read_number-to_le_bytes 1 p.order_flags h.4,
        read_bool-last p.cancel_existing,
      )
      refl
read_packet-packet_bytes (limited p) h =
    rw
      (
        read_side-side_bytes p.side,
        read_number-to_le_bytes 8 p.price_in_ticks h.0,
        read_number-to_le_bytes 8 p.num_base_lots h.1,
        read_behavior-behavior_bytes p.self_trade_behavior,
        read_option-option_bytes p.match_limit h.2,
        read_number-to_le_bytes 16 p.client_order_id h.3,
        read_option-option_bytes p.last_valid_slot h.4,
        read_number-to_le_bytes 1 p.order_flags h.5,
        read_bool-last p.cancel_existing,
      )
      refl
read_packet-packet_bytes (immediate p) h =
    rw
      (
        read_side-side_bytes p.side,
        read_option-option_bytes p.price_in_ticks h.0,
        read_number-to_le_bytes 8 p.num_base_lots h.1,
        read_option-option_bytes p.num_quote_lots h.2,
        read_number-to_le_bytes 8 p.min_base_lots_to_fill h.3,
        read_number-to_le_bytes 8 p.min_quote_lots_to_fill h.4,
        read_behavior-behavior_bytes p.self_trade_behavior,
        read_option-option_bytes p.match_limit h.5,
        read_number-to_le_bytes 16 p.client_order_id h.6,
        read_option-option_bytes p.last_valid_slot h.7,
        read_number-to_le_bytes 1 p.order_flags h.8,
        read_bool-last p.cancel_existing,
      )
      refl
