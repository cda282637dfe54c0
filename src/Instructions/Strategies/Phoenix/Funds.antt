-- ===== src/Instructions/Strategies/Phoenix/Funds.antt =====
-- instructions/phoenix_deposit_funds.rs, phoenix_withdraw_funds.rs and phoenix_ember_withdraw.rs.
use programs.Prelude.{ℕ, ◌||◌, none, some, List, ltb, ◌==◌, if◌then◌else◌}
use programs.Errors.{
  Result, ok, ◌>>=◌, ◌>>◌, validate, constraint, invalid_transfer_amount, phoenix_amount_mismatch,
}
use programs.SafeMath.{safe_sub}
use programs.Vault.{Pubkey}
use programs.Strategy.{record_action}
use programs.Seeds.{Seed, vault_seeds}
use programs.Runtime.{Runtime, Ledger, Clock}
use programs.World.{World, load}
use programs.Protocol.Phoenix.{phoenix_global_configuration, ember_program_id}
use programs.Protocol.Phoenix
use programs.Protocol.Phoenix.Accounts.{
  load_global_config, validate_account, validate_trader_tail, load_trader, validate_authority,
  is_ready,
}
use programs.Protocol.Phoenix.Calls.{
  PhoenixCpi, EmberCpi, deposit_funds, withdraw_funds, ember_deposit, ember_withdraw,
}
use programs.Instructions.Strategies.{
  trader_account_of, load_operational, load_withdrawable, validate_strategy, check_phoenix_strategy,
  set_strategy,
}
use programs.Instructions.Strategies.Phoenix.{check_phoenix_addresses}

-- What Ember needs, in each of the three instructions.
pub record EmberAccounts : Type 0 where
  pub usdc_mint : Pubkey
  pub canonical_mint : Pubkey
  pub vault_usdc_token_account : Pubkey
  pub vault_canonical_token_account : Pubkey
  pub ember_state : Pubkey
  pub ember_vault : Pubkey
  pub ember_program : Pubkey
  pub token_program : Pubkey

pub record PhoenixDepositFunds : Type 0 where
  pub authority : Pubkey
  pub config : Pubkey
  pub vault : Pubkey
  pub strategy : Pubkey
  pub ember : EmberAccounts
  pub trader_account : Pubkey
  pub global_vault : Pubkey
  pub global_config : Pubkey
  pub log_authority : Pubkey
  pub phoenix_program : Pubkey

pub record PhoenixWithdrawFunds : Type 0 where
  pub authority : Pubkey
  pub config : Pubkey
  pub vault : Pubkey
  pub strategy : Pubkey
  pub ember : EmberAccounts
  pub trader_account : Pubkey
  pub perp_asset_map : Pubkey
  pub withdraw_queue : Pubkey
  pub global_vault : Pubkey
  pub global_config : Pubkey
  pub log_authority : Pubkey
  pub phoenix_program : Pubkey

pub record PhoenixEmberWithdraw : Type 0 where
  pub authority : Pubkey
  pub config : Pubkey
  pub vault : Pubkey
  pub strategy : Pubkey
  pub ember : EmberAccounts
  pub global_config : Pubkey

abbrev pub ember_cpi : EmberAccounts → Pubkey → EmberCpi
ember_cpi e vault = record {
  ember_program = e.ember_program;
  trader = vault;
  ember_state = e.ember_state;
  usdc_mint = e.usdc_mint;
  canonical_mint = e.canonical_mint;
  trader_usdc_account = e.vault_usdc_token_account;
  trader_canonical_account = e.vault_canonical_token_account;
  ember_vault = e.ember_vault;
  token_program = e.token_program;
}

abbrev pub deposit_cpi : PhoenixDepositFunds → List Pubkey → PhoenixCpi
deposit_cpi a tail = record {
  phoenix_program = a.phoenix_program;
  log_authority = a.log_authority;
  global_config = a.global_config;
  trader = a.vault;
  trader_account = a.trader_account;
  tail = tail;
}

abbrev pub withdraw_cpi : PhoenixWithdrawFunds → List Pubkey → PhoenixCpi
withdraw_cpi a tail = record {
  phoenix_program = a.phoenix_program;
  log_authority = a.log_authority;
  global_config = a.global_config;
  trader = a.vault;
  trader_account = a.trader_account;
  tail = tail;
}

module _ (rt : Runtime) where
  -- The attributes of the accounts for Ember.
  unfoldable pub check_ember : EmberAccounts → Pubkey → Result (Unit {0})
  check_ember e vault = do
    constraint (e.usdc_mint == Phoenix.usdc_mint)
    constraint (
        e.vault_usdc_token_account == rt.associated_token_address vault e.usdc_mint e.token_program)
    constraint (
        e.vault_canonical_token_account
        == rt.associated_token_address vault e.canonical_mint e.token_program)
    constraint (e.ember_state == Phoenix.ember_state)
    constraint (e.ember_vault == Phoenix.ember_vault)
    constraint (e.ember_program == ember_program_id)
    constraint (e.token_program == rt.token_id)

  -- The two calls of a deposit; the wrapped balance ends where it began.
  unfoldable pub move_in :
      PhoenixDepositFunds → List Pubkey → ℕ → List Seed → Ledger → Result Ledger
  move_in a tail amount seeds l = do
    l₁ ← ember_deposit rt (ember_cpi a.ember a.vault) amount seeds l
    l₂ ←
        deposit_funds rt (deposit_cpi a tail) a.ember.vault_canonical_token_account a.global_vault
          a.ember.token_program amount seeds l₁
    validate
        (l₂.amount a.ember.vault_canonical_token_account
          == l.amount a.ember.vault_canonical_token_account)
        phoenix_amount_mismatch
    ok l₂

  unfoldable pub phoenix_deposit_funds :
      PhoenixDepositFunds → List Pubkey → Clock → ℕ → World → Result World
  phoenix_deposit_funds a tail clock amount w = do
    strategy ← load w.strategies a.strategy
    check_ember a.ember a.vault
    check_phoenix_addresses a.global_config a.log_authority a.phoenix_program
    (config, vault) ← load_operational rt w a.config a.vault a.authority
    check_phoenix_strategy rt strategy a.vault a.trader_account a.strategy
    validate (ltb 0 amount) invalid_transfer_amount
    trader ← load_trader w.ledger a.trader_account
    validate_authority trader a.vault
    is_ready trader
    phoenix_config ← load_global_config w.ledger a.global_config
    validate_account phoenix_config.canonical_mint a.ember.canonical_mint
    validate_account phoenix_config.global_vault a.global_vault
    validate_trader_tail phoenix_config w.ledger tail
    l ← move_in a tail amount (vault_seeds vault.id vault.bump) w.ledger
    ok (record (set_strategy w a.strategy (record_action strategy clock.unix_timestamp)) {
      ledger = l;
    })

  -- Phoenix pays all or queues all; what it paid is unwrapped.
  unfoldable pub move_out :
      PhoenixWithdrawFunds → List Pubkey → ℕ → List Seed → Ledger → Result Ledger
  move_out a tail amount seeds l = do
    l₁ ←
        withdraw_funds rt (withdraw_cpi a tail) a.perp_asset_map a.global_vault
          a.ember.vault_canonical_token_account a.ember.token_program a.withdraw_queue amount seeds
          l
    received ←
        safe_sub (l₁.amount a.ember.vault_canonical_token_account)
          (l.amount a.ember.vault_canonical_token_account)
    validate (received == amount || received == 0) phoenix_amount_mismatch
    if ltb 0 received
        then ember_withdraw rt (ember_cpi a.ember a.vault) (some received) seeds l₁
        else ok l₁

  unfoldable pub phoenix_withdraw_funds :
      PhoenixWithdrawFunds → List Pubkey → Clock → ℕ → World → Result World
  phoenix_withdraw_funds a tail clock amount w = do
    strategy ← load w.strategies a.strategy
    check_ember a.ember a.vault
    check_phoenix_addresses a.global_config a.log_authority a.phoenix_program
    (config, vault) ← load_withdrawable rt w a.config a.vault a.authority
    check_phoenix_strategy rt strategy a.vault a.trader_account a.strategy
    validate (ltb 0 amount) invalid_transfer_amount
    phoenix_config ← load_global_config w.ledger a.global_config
    validate_account phoenix_config.canonical_mint a.ember.canonical_mint
    validate_account phoenix_config.global_vault a.global_vault
    validate_account phoenix_config.perp_asset_map a.perp_asset_map
    validate_account phoenix_config.withdraw_queue a.withdraw_queue
    validate_trader_tail phoenix_config w.ledger tail
    l ← move_out a tail amount (vault_seeds vault.id vault.bump) w.ledger
    ok (record (set_strategy w a.strategy (record_action strategy clock.unix_timestamp)) {
      ledger = l;
    })

  unfoldable pub phoenix_ember_withdraw : PhoenixEmberWithdraw → Clock → World → Result World
  phoenix_ember_withdraw a clock w = do
    strategy ← load w.strategies a.strategy
    check_ember a.ember a.vault
    constraint (a.global_config == phoenix_global_configuration)
    (config, vault) ← load_withdrawable rt w a.config a.vault a.authority
    trader_account ← trader_account_of strategy.strategy_type
    validate_strategy rt strategy a.vault trader_account a.strategy
    phoenix_config ← load_global_config w.ledger a.global_config
    validate_account phoenix_config.canonical_mint a.ember.canonical_mint
    validate (ltb 0 (w.ledger.amount a.ember.vault_canonical_token_account)) invalid_transfer_amount
    l ←
        ember_withdraw rt (ember_cpi a.ember a.vault) none (vault_seeds vault.id vault.bump)
          w.ledger
    ok (record (set_strategy w a.strategy (record_action strategy clock.unix_timestamp)) {
      ledger = l;
    })
