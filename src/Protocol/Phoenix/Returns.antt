-- ===== src/Protocol/Phoenix/Returns.antt =====
-- protocol/phoenix.rs: what Phoenix returns of an order, and Hawkeye of the margin.
use programs.Prelude.{
  ℕ, ◌+◌, ◌-◌, ◌^◌, Bool, not, ◌&&◌, ◌||◌, Option, none, some, List, ltb, ◌==◌, if◌then◌else◌,
}
use programs.Errors.{Result, ok, err, custom, ◌>>=◌, ◌>>◌, validate, phoenix_return_data_invalid}
use programs.Bytes.{length, read_le, starts_with}
use programs.Vault.{Pubkey}
use programs.Protocol.Phoenix.Discriminators
use programs.Protocol.Phoenix.{phoenix_program_id}
use programs.Protocol.Phoenix.Accounts.{read_u16, read_u64}

pub record MatchingEngineResponse : Type 0 where
  pub price_in_ticks : ℕ
  pub sequence_number : ℕ
  pub num_quote_lots_in : ℕ
  pub num_base_lots_in : ℕ
  pub num_quote_lots_out : ℕ
  pub num_base_lots_out : ℕ
  pub num_quote_lots_posted : ℕ
  pub num_base_lots_posted : ℕ

-- `MatchingEngineResponse::parse`
unfoldable pub parse_response : List ℕ → Result MatchingEngineResponse
parse_response bs = do
  validate (length bs == 64) phoenix_return_data_invalid
  ok (record {
    price_in_ticks = read_u64 bs 0;
    sequence_number = read_u64 bs 8;
    num_quote_lots_in = read_u64 bs 16;
    num_base_lots_in = read_u64 bs 24;
    num_quote_lots_out = read_u64 bs 32;
    num_base_lots_out = read_u64 bs 40;
    num_quote_lots_posted = read_u64 bs 48;
    num_base_lots_posted = read_u64 bs 56;
  })

-- The bytes that a program returned, if it was the one asked.
unfoldable pub returned_by : Pubkey → Option (Pubkey × List ℕ) → Result (List ℕ)
returned_by program none = err (custom phoenix_return_data_invalid)
returned_by program (some (program_id, bs)) = do
  validate (program_id == program) phoenix_return_data_invalid
  ok bs

unfoldable pub from_return_data : Option (Pubkey × List ℕ) → Result MatchingEngineResponse
from_return_data returned = do bs ← returned_by phoenix_program_id returned; parse_response bs

-- `u64::saturating_add`
unfoldable pub saturating_add : ℕ → ℕ → ℕ
saturating_add a b = if ltb (a + b) (2 ^ 64) then a + b else 2 ^ 64 - 1

unfoldable pub base_lots_filled : MatchingEngineResponse → ℕ
base_lots_filled self = saturating_add self.num_base_lots_in self.num_base_lots_out

unfoldable pub quote_lots_filled : MatchingEngineResponse → ℕ
quote_lots_filled self = saturating_add self.num_quote_lots_in self.num_quote_lots_out

unfoldable pub order_sequence_number : MatchingEngineResponse → Option ℕ
order_sequence_number self =
    if not (self.price_in_ticks == 0) || not (self.sequence_number == 0)
    then some self.sequence_number
    else none

unfoldable pub parse_is_liquidatable : List ℕ → Result Bool
parse_is_liquidatable bs = do
  validate
      (length bs == 112
        && starts_with bs Discriminators.view_margin_return_magic
        && read_u16 bs 8 == 1)
      phoenix_return_data_invalid
  ok (not (read_le 1 bs 14 == 0))
