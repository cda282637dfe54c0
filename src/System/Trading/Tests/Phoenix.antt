-- ===== src/System/Trading/Tests/Phoenix.antt =====
-- The same vault on Phoenix: an order, a deposit and a withdrawal of collateral.
use programs.Prelude.{
  ℕ, ◌+◌, ◌≡◌, refl, arith, true, false, some, none, List, [], ◌∷◌, ◌++◌, ◌==◌, if◌then◌else◌,
}
use programs.Prelude.Int.{pos}
use programs.Errors.{ok, validate, constraint}
use programs.SafeMath.{safe_sub}
use programs.Accounts.{lookup, insert}
use programs.Bytes.{length, take, drop, slice, from_le_bytes, read_le, starts_with}
use programs.Vault
use programs.Vault.{Vault, is_vault_operational, is_vault_withdrawable}
use programs.Config.{is_protocol_operational, is_protocol_withdrawable}
use programs.Strategy
use programs.Strategy.{Strategy, record_action}
use programs.Seeds.{to_le_bytes, validate_pda, config_seeds, vault_seeds, strategy_seeds}
use programs.Runtime.{Runtime, Ledger, Instruction}
use programs.World.{World, load_config, load_vault}
use programs.Instructions.Migration.{zeros}
use programs.Protocol.Phoenix
use programs.Protocol.Phoenix.{
  phoenix_program_id, phoenix_log_authority, phoenix_global_configuration, hawkeye_program_id,
  ember_program_id,
}
use programs.Protocol.Phoenix.Discriminators
use programs.Protocol.Phoenix.Packets.{OrderPacket, immediate, bid, abort, packet_bytes}
use programs.Protocol.Phoenix.Packets.Decoder.{read_packet}
use programs.Protocol.Phoenix.Packets.RoundTrip.{read_packet-packet_bytes}
use programs.Protocol.Phoenix.Accounts.{
  validate_account_data, validate_owner, parse_global_config, load_global_config, validate_account,
  parse_arena_count, arena_count, validate_trader_tail, parse_trader, load_trader, is_ready,
}
use programs.Protocol.Phoenix.Accounts
use programs.Protocol.Phoenix.Returns.{
  parse_response, returned_by, from_return_data, saturating_add, base_lots_filled,
  parse_is_liquidatable,
}
use programs.Protocol.Phoenix.Calls.{
  prefix, spline_collection_address, validate_market, invoke_phoenix, market_action, place_order,
  is_liquidatable, deposit_funds, withdraw_funds, invoke_ember, ember_deposit,
}
use programs.Instructions.Strategies.{
  load_operational, load_withdrawable, validate_strategy, trader_account_of, check_phoenix_strategy,
}
use programs.Instructions.Strategies.Phoenix.{
  PhoenixTrading, PhoenixMarketOrderParams, check_phoenix_addresses, check_order_status,
  check_trading, check_margin, phoenix_place_market_order,
}
use programs.Instructions.Strategies.Phoenix.Funds.{
  EmberAccounts, PhoenixDepositFunds, PhoenixWithdrawFunds, check_ember, move_in, move_out,
  phoenix_deposit_funds, phoenix_withdraw_funds,
}
use programs.System.Tests.Addresses.{spelled, derived}
use programs.System.Tests.{rt, vault, ledger, before, clock}
use programs.System.Trading.Tests.{strategy_key, strategy}
use programs.System.Trading.Orders.{Filled, phoenix_place_market_order-Filled}
use programs.System.Trading.Funds.{
  Wrapped, phoenix_deposit_funds-Wrapped, Withdrawn, phoenix_withdraw_funds-Withdrawn,
}

abbrev params : PhoenixMarketOrderParams
params = record {
  side = bid;
  price_in_ticks = some 100;
  num_base_lots = 10;
  num_quote_lots = none;
  min_base_lots_to_fill = 5;
  min_quote_lots_to_fill = 0;
  self_trade_behavior = abort;
  match_limit = none;
  client_order_id = 1;
  last_valid_slot = none;
  reduce_only = true;
  cancel_existing = false;
}

abbrev packet : OrderPacket
packet = immediate (record {
  side = bid;
  price_in_ticks = some 100;
  num_base_lots = 10;
  num_quote_lots = none;
  min_base_lots_to_fill = 5;
  min_quote_lots_to_fill = 0;
  self_trade_behavior = abort;
  match_limit = none;
  client_order_id = 1;
  last_valid_slot = none;
  order_flags = 128;
  cancel_existing = false;
})

read_packet-packet_bytes_example : read_packet (packet_bytes packet) ≡ some (packet, [])
read_packet-packet_bytes_example =
    read_packet-packet_bytes packet
      (omega arith, omega arith, tt, omega arith, omega arith, tt, omega arith, tt, omega arith)

-- The accounts that Phoenix owns: its configuration, whose keys are 0 but that of the active trader
-- buffer, the headers of one arena each, and the trader 15 of the vault.
unfoldable account_bytes : ℕ → List ℕ
account_bytes key =
    if key == phoenix_global_configuration
    then Discriminators.global_configuration ++ (zeros 416 ++ (9 ∷ zeros 351))
    else if key == 0
    then Discriminators.global_trader_index ++ (zeros 44 ++ (1 ∷ 0 ∷ 1 ∷ 0 ∷ zeros 24))
    else if key == 9
    then Discriminators.active_trader_buffer ++ (zeros 44 ++ (1 ∷ 0 ∷ 1 ∷ 0 ∷ zeros 24))
    else Discriminators.trader ++ (zeros 48 ++ (254 ∷ (zeros 39 ++ (52 ∷ zeros 143))))

-- Six lots were filled, and the trader is not liquidatable.
unfoldable fill_bytes : List ℕ
fill_bytes = zeros 24 ++ (6 ∷ zeros 39)

unfoldable margin_bytes : List ℕ
margin_bytes = Discriminators.view_margin_return_magic ++ (1 ∷ zeros 103)

abbrev exchange : Ledger
exchange = record ledger { owner = λ key. phoenix_program_id; account_data = account_bytes }

-- Whoever is called answers; a withdrawal of 40 is paid at once.
unfoldable answer : Instruction → Ledger → Ledger
answer call l =
    if call.program_id == phoenix_program_id
    then record l {
      return_data = some (phoenix_program_id, fill_bytes);
      amount = λ account. if account == 267 then 540 else l.amount account;
    }
    else if call.program_id == hawkeye_program_id
    then record l { return_data = some (hawkeye_program_id, margin_bytes) }
    else record l { amount = λ account. if account == 267 then 500 else l.amount account }

abbrev phoenix_rt : Runtime
phoenix_rt = record rt { invoke_signed = λ call accounts seeds l. ok (answer call l) }

-- Phoenix takes what Ember wrapped.
abbrev still_rt : Runtime
still_rt = record rt { invoke_signed = λ call accounts seeds l. ok l }

abbrev on_phoenix : Strategy
on_phoenix = record strategy { strategy_type = Strategy.phoenix_perp 15 }

abbrev acted : Strategy
acted = record on_phoenix { last_action_ts = pos 43_200 }

abbrev open_world : World
open_world = record before {
  vaults = (254, record vault { status = Vault.reduce_only }) ∷ [];
  strategies = (strategy_key 15, on_phoenix) ∷ [];
  ledger = exchange;
}

abbrev trading : PhoenixTrading
trading = record {
  authority = 11;
  config = 253;
  vault = 254;
  strategy = strategy_key 15;
  trader_account = 15;
  perp_asset_map = 0;
  orderbook = 16;
  spline_collection = 16;
  global_config = phoenix_global_configuration;
  log_authority = phoenix_log_authority;
  phoenix_program = phoenix_program_id;
}

-- After the order: the return data is Hawkeye's.
abbrev ordered : World
ordered = record open_world {
  strategies = (strategy_key 15, acted) ∷ [];
  ledger = record exchange {
    return_data = some (hawkeye_program_id, margin_bytes);
    amount = λ account. if account == 267 then 540 else 500;
  };
}

order-runs :
    phoenix_place_market_order phoenix_rt trading hawkeye_program_id
      (0 ∷ 9 ∷ [])
      clock
      params
      open_world
    ≡ ok ordered
unfolding phoenix_place_market_order check_phoenix_addresses constraint load_config load_vault
    validate_pda derived spelled to_le_bytes validate Vault.validate_authority check_order_status
    is_protocol_withdrawable is_vault_withdrawable check_trading check_phoenix_strategy
    validate_strategy trader_account_of load_global_config validate_owner parse_global_config
    validate_account_data length starts_with read_le slice take drop from_le_bytes account_bytes
    zeros validate_market validate_account spline_collection_address validate_trader_tail
    arena_count parse_arena_count place_order market_action invoke_phoenix prefix answer
    from_return_data returned_by parse_response fill_bytes margin_bytes saturating_add
    base_lots_filled check_margin is_liquidatable parse_is_liquidatable record_action lookup insert
    config_seeds vault_seeds strategy_seeds
order-runs = refl

phoenix_place_market_order-Filled_example :
    Filled phoenix_rt trading hawkeye_program_id (0 ∷ 9 ∷ []) params open_world ordered
phoenix_place_market_order-Filled_example =
    phoenix_place_market_order-Filled phoenix_rt trading hawkeye_program_id (0 ∷ 9 ∷ []) clock
      params open_world ordered order-runs

abbrev ember : EmberAccounts
ember = record {
  usdc_mint = Phoenix.usdc_mint;
  canonical_mint = 0;
  vault_usdc_token_account = 254 + Phoenix.usdc_mint;
  vault_canonical_token_account = 254;
  ember_state = Phoenix.ember_state;
  ember_vault = Phoenix.ember_vault;
  ember_program = ember_program_id;
  token_program = 2;
}

abbrev deposit : PhoenixDepositFunds
deposit = record {
  authority = 11;
  config = 253;
  vault = 254;
  strategy = strategy_key 15;
  ember = ember;
  trader_account = 15;
  global_vault = 0;
  global_config = phoenix_global_configuration;
  log_authority = phoenix_log_authority;
  phoenix_program = phoenix_program_id;
}

abbrev normal_world : World
normal_world = record open_world { vaults = (254, vault) ∷ [] }

abbrev deposited : World
deposited = record normal_world { strategies = (strategy_key 15, acted) ∷ [] }

deposit-runs :
    phoenix_deposit_funds still_rt deposit (0 ∷ 9 ∷ []) clock 40 normal_world ≡ ok deposited
unfolding phoenix_deposit_funds check_ember constraint check_phoenix_addresses load_operational
    load_config load_vault validate_pda derived spelled to_le_bytes validate is_protocol_operational
    is_vault_operational Vault.validate_authority check_phoenix_strategy validate_strategy
    trader_account_of load_trader validate_owner parse_trader validate_account_data length
    starts_with read_le slice take drop from_le_bytes account_bytes zeros
    Accounts.validate_authority is_ready load_global_config parse_global_config validate_account
    validate_trader_tail arena_count parse_arena_count move_in ember_deposit invoke_ember
    deposit_funds invoke_phoenix prefix record_action lookup insert config_seeds vault_seeds
    strategy_seeds
deposit-runs = refl

phoenix_deposit_funds-Wrapped_example :
    Wrapped still_rt deposit (0 ∷ 9 ∷ []) 40 normal_world deposited
phoenix_deposit_funds-Wrapped_example =
    phoenix_deposit_funds-Wrapped still_rt deposit (0 ∷ 9 ∷ []) clock 40 normal_world deposited
      deposit-runs

abbrev withdraw : PhoenixWithdrawFunds
withdraw = record {
  authority = 11;
  config = 253;
  vault = 254;
  strategy = strategy_key 15;
  ember = ember;
  trader_account = 15;
  perp_asset_map = 0;
  withdraw_queue = 0;
  global_vault = 0;
  global_config = phoenix_global_configuration;
  log_authority = phoenix_log_authority;
  phoenix_program = phoenix_program_id;
}

-- Phoenix queues the withdrawal, in a vault that is being wound down.
abbrev queued : World
queued = record open_world { strategies = (strategy_key 15, acted) ∷ [] }

withdraw-runs :
    phoenix_withdraw_funds still_rt withdraw (0 ∷ 9 ∷ []) clock 40 open_world ≡ ok queued
unfolding phoenix_withdraw_funds check_ember constraint check_phoenix_addresses load_withdrawable
    load_config load_vault validate_pda derived spelled to_le_bytes validate
    is_protocol_withdrawable is_vault_withdrawable Vault.validate_authority check_phoenix_strategy
    validate_strategy trader_account_of validate_owner validate_account_data length starts_with
    read_le slice take drop from_le_bytes account_bytes zeros load_global_config parse_global_config
    validate_account validate_trader_tail arena_count parse_arena_count move_out withdraw_funds
    invoke_phoenix prefix safe_sub record_action lookup insert config_seeds vault_seeds
    strategy_seeds
withdraw-runs = refl

phoenix_withdraw_funds-Withdrawn_example :
    Withdrawn still_rt withdraw (0 ∷ 9 ∷ []) 40 open_world queued
phoenix_withdraw_funds-Withdrawn_example =
    phoenix_withdraw_funds-Withdrawn still_rt withdraw (0 ∷ 9 ∷ []) clock 40 open_world queued
      withdraw-runs
