-- ===== src/Instructions/Strategies/Phoenix.antt =====
-- instructions/phoenix_place_market_order.rs, phoenix_place_limit_order.rs, phoenix_cancel_orders.rs and
-- phoenix_initialize_strategy.rs. Funds has the instructions that move collateral.
pub mod Funds
use programs.Prelude.{
  ℕ, Bool, true, false, not, Option, some, none, List, [], leb, ◌==◌, if◌then◌else◌,
}
use programs.Errors.{
  Result, ok, ◌>>=◌, ◌>>◌, validate, constraint, phoenix_order_underfilled,
  phoenix_account_liquidatable, invalid_phoenix_deposit_mint, invalid_phoenix_trader,
}
use programs.Vault.{Pubkey, Vault, validate_authority, is_vault_operational, is_vault_withdrawable}
use programs.Config.{Config, is_protocol_operational, is_protocol_withdrawable}
use programs.Strategy
use programs.Strategy.{Strategy, record_action}
use programs.Seeds.{vault_seeds}
use programs.Runtime.{Runtime, Ledger, Clock}
use programs.World.{World, load, load_config, load_vault, init_token_account}
use programs.Protocol.Phoenix.{
  phoenix_program_id, phoenix_log_authority, phoenix_global_configuration, hawkeye_program_id,
  usdc_mint,
}
use programs.Protocol.Phoenix.Packets.{
  PhoenixSide, PhoenixSelfTradeBehavior, PhoenixOrderKind, PhoenixCancelMode, OrderPacket, resting,
  limited, immediate, order_flags_of,
}
use programs.Protocol.Phoenix.Packets
use programs.Protocol.Phoenix.Accounts.{
  load_global_config, validate_account, validate_trader_tail, load_trader,
}
use programs.Protocol.Phoenix.Accounts
use programs.Protocol.Phoenix.Returns.{MatchingEngineResponse, base_lots_filled}
use programs.Protocol.Phoenix.Calls.{
  PhoenixMarket, PhoenixCpi, validate_market, trader_address, place_order, cancel_orders,
  is_liquidatable, register_trader,
}
use programs.Instructions.Strategies.{
  load_operational, load_withdrawable, init_strategy, open_strategy, check_phoenix_strategy,
  set_strategy,
}

pub record PhoenixMarketOrderParams : Type 0 where
  pub side : PhoenixSide
  pub price_in_ticks : Option ℕ
  pub num_base_lots : ℕ
  pub num_quote_lots : Option ℕ
  pub min_base_lots_to_fill : ℕ
  pub min_quote_lots_to_fill : ℕ
  pub self_trade_behavior : PhoenixSelfTradeBehavior
  pub match_limit : Option ℕ
  pub client_order_id : ℕ
  pub last_valid_slot : Option ℕ
  pub reduce_only : Bool
  pub cancel_existing : Bool

-- `PhoenixMarketOrderParams::packet`
unfoldable pub market_packet : PhoenixMarketOrderParams → OrderPacket
market_packet self = immediate (record {
  side = self.side;
  price_in_ticks = self.price_in_ticks;
  num_base_lots = self.num_base_lots;
  num_quote_lots = self.num_quote_lots;
  min_base_lots_to_fill = self.min_base_lots_to_fill;
  min_quote_lots_to_fill = self.min_quote_lots_to_fill;
  self_trade_behavior = self.self_trade_behavior;
  match_limit = self.match_limit;
  client_order_id = self.client_order_id;
  last_valid_slot = self.last_valid_slot;
  order_flags = order_flags_of self.reduce_only;
  cancel_existing = self.cancel_existing;
})

pub record PhoenixLimitOrderParams : Type 0 where
  pub side : PhoenixSide
  pub price_in_ticks : ℕ
  pub num_base_lots : ℕ
  pub post_only : Bool
  pub slide : Bool
  pub self_trade_behavior : PhoenixSelfTradeBehavior
  pub match_limit : Option ℕ
  pub client_order_id : ℕ
  pub last_valid_slot : Option ℕ
  pub reduce_only : Bool
  pub cancel_existing : Bool

-- `PhoenixLimitOrderParams::kind`
unfoldable pub kind : PhoenixLimitOrderParams → PhoenixOrderKind
kind self = if self.post_only then Packets.post_only else Packets.limit

-- `PhoenixLimitOrderParams::packet`
unfoldable pub limit_packet : PhoenixLimitOrderParams → OrderPacket
limit_packet self =
    if self.post_only
    then resting (record {
      side = self.side;
      price_in_ticks = self.price_in_ticks;
      num_base_lots = self.num_base_lots;
      client_order_id = self.client_order_id;
      slide = self.slide;
      last_valid_slot = self.last_valid_slot;
      order_flags = order_flags_of self.reduce_only;
      cancel_existing = self.cancel_existing;
    })
    else limited (record {
      side = self.side;
      price_in_ticks = self.price_in_ticks;
      num_base_lots = self.num_base_lots;
      self_trade_behavior = self.self_trade_behavior;
      match_limit = self.match_limit;
      client_order_id = self.client_order_id;
      last_valid_slot = self.last_valid_slot;
      order_flags = order_flags_of self.reduce_only;
      cancel_existing = self.cancel_existing;
    })

-- The accounts of all three instructions on a market; an order names Hawkeye's program too.
pub record PhoenixTrading : Type 0 where
  pub authority : Pubkey
  pub config : Pubkey
  pub vault : Pubkey
  pub strategy : Pubkey
  pub trader_account : Pubkey
  pub perp_asset_map : Pubkey
  pub orderbook : Pubkey
  pub spline_collection : Pubkey
  pub global_config : Pubkey
  pub log_authority : Pubkey
  pub phoenix_program : Pubkey

pub record PhoenixInitializeStrategy : Type 0 where
  pub authority : Pubkey
  pub config : Pubkey
  pub vault : Pubkey
  pub strategy : Pubkey
  pub trader_account : Pubkey
  pub canonical_mint : Pubkey
  pub vault_canonical_token_account : Pubkey
  pub global_config : Pubkey
  pub log_authority : Pubkey
  pub phoenix_program : Pubkey
  pub token_program : Pubkey
  pub system_program : Pubkey

abbrev pub market_of : PhoenixTrading → PhoenixMarket
market_of a = record {
  perp_asset_map = a.perp_asset_map;
  orderbook = a.orderbook;
  spline_collection = a.spline_collection;
}

abbrev pub trading_cpi : PhoenixTrading → List Pubkey → PhoenixCpi
trading_cpi a tail = record {
  phoenix_program = a.phoenix_program;
  log_authority = a.log_authority;
  global_config = a.global_config;
  trader = a.vault;
  trader_account = a.trader_account;
  tail = tail;
}

-- The `address` attributes.
unfoldable pub check_phoenix_addresses :
    (global_config log_authority phoenix_program : Pubkey) → Result (Unit {0})
check_phoenix_addresses global_config log_authority phoenix_program = do
  constraint (global_config == phoenix_global_configuration)
  constraint (log_authority == phoenix_log_authority)
  constraint (phoenix_program == phoenix_program_id)

-- Whether a market order may run: one that only reduces is an exit.
unfoldable pub check_order_status : Bool → Config → Vault → Result (Unit {0})
check_order_status true config vault = do
  is_protocol_withdrawable config
  is_vault_withdrawable vault
check_order_status false config vault = do
  is_protocol_operational config
  is_vault_operational vault

module _ (rt : Runtime) where
  -- The strategy, the market and the tail of a trading instruction.
  unfoldable pub check_trading :
      PhoenixTrading → List Pubkey → Strategy → Ledger → Result (Unit {0})
  check_trading a tail strategy l = do
    check_phoenix_strategy rt strategy a.vault a.trader_account a.strategy
    phoenix_config ← load_global_config l a.global_config
    validate_market rt (market_of a) phoenix_config
    validate_trader_tail phoenix_config l tail

  -- After an order the trader must not be liquidatable.
  unfoldable pub check_margin :
      PhoenixTrading → List Pubkey → (hawkeye_program : Pubkey) → Ledger → Result Ledger
  check_margin a tail hawkeye_program l = do
    (liquidatable, l') ← is_liquidatable rt (trading_cpi a tail) hawkeye_program a.perp_asset_map l
    validate (not liquidatable) phoenix_account_liquidatable
    ok l'

  unfoldable pub phoenix_place_market_order :
      PhoenixTrading
      → (hawkeye_program : Pubkey) → List Pubkey
      → Clock
      → PhoenixMarketOrderParams
      → World
      → Result World
  phoenix_place_market_order a hawkeye_program tail clock params w = do
    strategy ← load w.strategies a.strategy
    check_phoenix_addresses a.global_config a.log_authority a.phoenix_program
    constraint (hawkeye_program == hawkeye_program_id)
    config ← load_config rt w a.config
    vault ← load_vault rt w a.vault
    validate_authority vault a.authority
    check_order_status params.reduce_only config vault
    check_trading a tail strategy w.ledger
    (response, l) ←
        place_order rt (trading_cpi a tail) (market_of a) (market_packet params)
          (vault_seeds vault.id vault.bump) w.ledger
    validate (leb params.min_base_lots_to_fill (base_lots_filled response))
        phoenix_order_underfilled
    l' ← check_margin a tail hawkeye_program l
    ok (record (set_strategy w a.strategy (record_action strategy clock.unix_timestamp)) {
      ledger = l';
    })

  unfoldable pub phoenix_place_limit_order :
      PhoenixTrading
      → (hawkeye_program : Pubkey) → List Pubkey
      → Clock
      → PhoenixLimitOrderParams
      → World
      → Result World
  phoenix_place_limit_order a hawkeye_program tail clock params w = do
    strategy ← load w.strategies a.strategy
    check_phoenix_addresses a.global_config a.log_authority a.phoenix_program
    constraint (hawkeye_program == hawkeye_program_id)
    (config, vault) ← load_operational rt w a.config a.vault a.authority
    check_trading a tail strategy w.ledger
    (response, l) ←
        place_order rt (trading_cpi a tail) (market_of a) (limit_packet params)
          (vault_seeds vault.id vault.bump) w.ledger
    l' ← check_margin a tail hawkeye_program l
    ok (record (set_strategy w a.strategy (record_action strategy clock.unix_timestamp)) {
      ledger = l';
    })

  unfoldable pub phoenix_cancel_orders :
      PhoenixTrading → List Pubkey → Clock → PhoenixCancelMode → World → Result World
  phoenix_cancel_orders a tail clock mode w = do
    strategy ← load w.strategies a.strategy
    check_phoenix_addresses a.global_config a.log_authority a.phoenix_program
    (config, vault) ← load_withdrawable rt w a.config a.vault a.authority
    check_trading a tail strategy w.ledger
    l ←
        cancel_orders rt (trading_cpi a tail) (market_of a) mode (vault_seeds vault.id vault.bump)
          w.ledger
    ok (record (set_strategy w a.strategy (record_action strategy clock.unix_timestamp)) {
      ledger = l;
    })

  -- A trader account without data is registered; another one must be the vault's own.
  unfoldable pub register_or_check : PhoenixInitializeStrategy → Ledger → Result Ledger
  register_or_check a l =
      if l.has_data a.trader_account
      then (do
        trader ← load_trader l a.trader_account
        Accounts.validate_authority trader a.vault
        ok l)
      else register_trader rt
          (record {
            phoenix_program = a.phoenix_program;
            log_authority = a.log_authority;
            global_config = a.global_config;
            trader = a.vault;
            trader_account = a.trader_account;
            tail = [];
          })
          a.authority a.system_program l

  unfoldable pub phoenix_initialize_strategy :
      PhoenixInitializeStrategy → Clock → World → Result World
  phoenix_initialize_strategy a clock w = do
    constraint (a.token_program == rt.token_id)
    l₁ ←
        init_strategy rt w a.authority a.vault a.trader_account a.strategy
          (Strategy.phoenix_perp a.trader_account)
    constraint (
        a.vault_canonical_token_account
        == rt.associated_token_address a.vault a.canonical_mint a.token_program)
    l₂ ←
        init_token_account rt a.authority a.vault_canonical_token_account a.vault a.canonical_mint
          a.token_program l₁
    check_phoenix_addresses a.global_config a.log_authority a.phoenix_program
    (config, vault) ← load_operational rt w a.config a.vault a.authority
    validate (vault.deposit_mint == usdc_mint) invalid_phoenix_deposit_mint
    validate (a.trader_account == trader_address rt a.vault) invalid_phoenix_trader
    phoenix_config ← load_global_config l₂ a.global_config
    validate_account phoenix_config.canonical_mint a.canonical_mint
    l₃ ← register_or_check a l₂
    open_strategy rt a.vault a.trader_account a.strategy vault
        (Strategy.phoenix_perp a.trader_account) clock.unix_timestamp l₃ w
