-- ===== src/Protocol/Phoenix/Accounts.antt =====
-- protocol/phoenix.rs: what is read of Phoenix's accounts, the global configuration, the arenas behind
-- it and the trader.
use programs.Prelude.{
  ℕ, ◌+◌, ◌-◌, ◌^◌, ◌&&◌, Option, none, some, List, [], ◌∷◌, leb, ltb, ◌==◌, min_of, if◌then◌else◌,
}
use programs.Prelude.Int.{ℤ, pos, negsuc, eqb_ℤ}
use programs.Errors.{
  Result, ok, err, custom, ◌>>=◌, ◌>>◌, validate, invalid_phoenix_account,
  invalid_phoenix_remaining_accounts, invalid_phoenix_trader, phoenix_trader_not_ready,
  phoenix_strategy_not_empty,
}
use Prim.Native.Nat.{bit_and}
use programs.Bytes.{length, drop, read_le, starts_with}
use programs.Vault.{Pubkey}
use programs.Runtime.{Ledger}
use programs.Protocol.Phoenix.Discriminators
use programs.Protocol.Phoenix.{
  phoenix_program_id, trader_pda_index, trader_subaccount_index, trader_ready_flags,
}

-- The readers, for an offset that the caller has tested against the length.
abbrev pub read_pubkey : List ℕ → ℕ → Pubkey
read_pubkey bs offset = read_le 32 bs offset

abbrev pub read_u16 : List ℕ → ℕ → ℕ
read_u16 bs offset = read_le 2 bs offset

abbrev pub read_u32 : List ℕ → ℕ → ℕ
read_u32 bs offset = read_le 4 bs offset

abbrev pub read_u64 : List ℕ → ℕ → ℕ
read_u64 bs offset = read_le 8 bs offset

-- Two's complement.
abbrev pub as_i64 : ℕ → ℤ
as_i64 n = if ltb n (2 ^ 63) then pos n else negsuc (2 ^ 64 - 1 - n)

abbrev pub read_i64 : List ℕ → ℕ → ℤ
read_i64 bs offset = as_i64 (read_le 8 bs offset)

-- A discriminator has eight bytes, so that it equals `data[..8]` when the data begins with it.
unfoldable pub validate_account_data : List ℕ → List ℕ → ℕ → Result (Unit {0})
validate_account_data bs discriminator min_len =
    validate (leb min_len (length bs) && starts_with bs discriminator) invalid_phoenix_account

unfoldable pub validate_owner : Ledger → Pubkey → Result (Unit {0})
validate_owner l account = validate (l.owner account == phoenix_program_id) invalid_phoenix_account

pub record PhoenixGlobalConfig : Type 0 where
  pub canonical_mint : Pubkey
  pub global_vault : Pubkey
  pub perp_asset_map : Pubkey
  pub global_trader_index : Pubkey
  pub active_trader_buffer : Pubkey
  pub withdraw_queue : Pubkey

-- `PhoenixGlobalConfig::parse`
unfoldable pub parse_global_config : List ℕ → Result PhoenixGlobalConfig
parse_global_config bs = do
  validate_account_data bs Discriminators.global_configuration 776
  ok (record {
    canonical_mint = read_pubkey bs 296;
    global_vault = read_pubkey bs 328;
    perp_asset_map = read_pubkey bs 360;
    global_trader_index = read_pubkey bs 392;
    active_trader_buffer = read_pubkey bs 424;
    withdraw_queue = read_pubkey bs 472;
  })

-- `PhoenixGlobalConfig::load`
unfoldable pub load_global_config : Ledger → Pubkey → Result PhoenixGlobalConfig
load_global_config l account = do
  validate_owner l account
  parse_global_config (l.account_data account)

-- `PhoenixGlobalConfig::validate_account`
unfoldable pub validate_account : Pubkey → Pubkey → Result (Unit {0})
validate_account expected key = validate (expected == key) invalid_phoenix_account

unfoldable pub parse_arena_count : List ℕ → List ℕ → Result ℕ
parse_arena_count bs discriminator = do
  validate_account_data bs discriminator 80
  let num_arenas = min_of (read_u16 bs 52) (read_u16 bs 54) in
      (do validate (ltb 0 num_arenas) invalid_phoenix_remaining_accounts; ok num_arenas)

unfoldable pub arena_count : Ledger → Option Pubkey → Pubkey → List ℕ → Result ℕ
arena_count l none expected_key discriminator = err (custom invalid_phoenix_remaining_accounts)
arena_count l (some header) expected_key discriminator = do
  validate (header == expected_key) invalid_phoenix_remaining_accounts
  validate_owner l header
  parse_arena_count (l.account_data header) discriminator

-- `first` of a slice; `get` is the first of what is left.
abbrev pub first : List Pubkey → Option Pubkey
first [] = none
first (k ∷ ks) = some k

unfoldable pub validate_trader_tail : PhoenixGlobalConfig → Ledger → List Pubkey → Result (Unit {0})
validate_trader_tail self l tail = do
  global_trader_index_count ←
      arena_count l (first tail) self.global_trader_index Discriminators.global_trader_index
  active_trader_buffer_count ←
      arena_count l (first (drop global_trader_index_count tail)) self.active_trader_buffer
        Discriminators.active_trader_buffer
  validate (length tail == global_trader_index_count + active_trader_buffer_count)
      invalid_phoenix_remaining_accounts

pub record PhoenixTrader : Type 0 where
  pub authority : Pubkey
  pub quote_lot_collateral : ℤ
  pub flags : ℕ
  pub withdraw_queue_node : ℕ
  pub pda_index : ℕ
  pub subaccount_index : ℕ
  pub position_count : ℕ

-- `PhoenixTrader::parse`
unfoldable pub parse_trader : List ℕ → Result PhoenixTrader
parse_trader bs = do
  validate_account_data bs Discriminators.trader 240
  ok (record {
    authority = read_pubkey bs 56;
    quote_lot_collateral = read_i64 bs 88;
    flags = read_u32 bs 96;
    withdraw_queue_node = read_u32 bs 108;
    pda_index = read_le 1 bs 154;
    subaccount_index = read_le 1 bs 155;
    position_count = read_u64 bs 224;
  })

-- `PhoenixTrader::load`
unfoldable pub load_trader : Ledger → Pubkey → Result PhoenixTrader
load_trader l account = do validate_owner l account; parse_trader (l.account_data account)

unfoldable pub validate_authority : PhoenixTrader → Pubkey → Result (Unit {0})
validate_authority self authority =
    validate
      (self.authority == authority
        && self.pda_index == trader_pda_index
        && self.subaccount_index == trader_subaccount_index)
      invalid_phoenix_trader

unfoldable pub is_ready : PhoenixTrader → Result (Unit {0})
is_ready self =
    validate (bit_and self.flags trader_ready_flags == trader_ready_flags) phoenix_trader_not_ready

unfoldable pub is_empty : PhoenixTrader → Result (Unit {0})
is_empty self =
    validate
      (eqb_ℤ self.quote_lot_collateral (pos 0)
        && self.position_count == 0
        && self.withdraw_queue_node == 0)
      phoenix_strategy_not_empty
