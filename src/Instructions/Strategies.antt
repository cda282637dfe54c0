-- ===== src/Instructions/Strategies.antt =====
-- What the instructions on strategies share: who may trade for a vault, and how a strategy is opened
-- and found again. Jupiter, Phoenix and Meteora have the instructions of each protocol, Close the one
-- that ends a strategy.
pub mod Jupiter
pub mod Phoenix
pub mod Meteora
pub mod Close
use programs.Prelude.{ℕ, ◌+◌, Option, none, some, List, [], ◌∷◌, ◌==◌}
use programs.Prelude.Int.{ℤ}
use programs.Errors.{
  Result, ok, err, custom, constraint_violation, ◌>>=◌, ◌>>◌, validate, constraint,
  invalid_strategy_type, invalid_phoenix_trader,
}
use programs.Accounts.{lookup, insert}
use programs.Vault.{
  Pubkey, Vault, validate_authority, is_vault_operational, is_vault_withdrawable,
  increment_strategy_id, increment_open_strategies,
}
use programs.Config.{Config, is_protocol_operational, is_protocol_withdrawable}
use programs.Strategy
use programs.Strategy.{
  StrategyType, Strategy, space, init_space, record_action, jupiter_swap, meteora_dlmm,
  phoenix_perp,
}
use programs.Seeds.{strategy_tag, key_bytes, strategy_seeds, validate_strategy_address}
use programs.Runtime.{Runtime, Ledger}
use programs.World.{World, load, load_config, load_vault}

-- The `let ... else` of the handlers on the type of a strategy.
unfoldable pub target_mint_of : StrategyType → Result Pubkey
target_mint_of (jupiter_swap target_mint) = ok target_mint
target_mint_of (meteora_dlmm position) = err (custom invalid_strategy_type)
target_mint_of (phoenix_perp trader_account) = err (custom invalid_strategy_type)

unfoldable pub trader_account_of : StrategyType → Result Pubkey
trader_account_of (phoenix_perp trader_account) = ok trader_account
trader_account_of (jupiter_swap target_mint) = err (custom invalid_strategy_type)
trader_account_of (meteora_dlmm position) = err (custom invalid_strategy_type)

unfoldable pub position_of : StrategyType → Result Pubkey
position_of (meteora_dlmm position) = ok position
position_of (jupiter_swap target_mint) = err (custom invalid_strategy_type)
position_of (phoenix_perp trader_account) = err (custom invalid_strategy_type)

abbrev pub set_strategy : World → Pubkey → Strategy → World
set_strategy w key s = record w { strategies = insert key s w.strategies }

-- An account for `init` must not be there yet.
unfoldable pub vacant {ℓ} : {A : Type ℓ} → Option A → Result (Unit {0})
vacant none = ok tt
vacant (some a) = err constraint_violation

module _ (rt : Runtime) where
  -- How a handler on an exposure that may grow begins.
  unfoldable pub load_operational :
      World → (config vault authority : Pubkey) → Result (Config × Vault)
  load_operational w config_key vault_key authority = do
    config ← load_config rt w config_key
    is_protocol_operational config
    vault ← load_vault rt w vault_key
    validate_authority vault authority
    is_vault_operational vault
    ok (config, vault)

  -- How a handler on an exit path begins.
  unfoldable pub load_withdrawable :
      World → (config vault authority : Pubkey) → Result (Config × Vault)
  load_withdrawable w config_key vault_key authority = do
    config ← load_config rt w config_key
    is_protocol_withdrawable config
    vault ← load_vault rt w vault_key
    validate_authority vault authority
    is_vault_withdrawable vault
    ok (config, vault)

  -- The derived address of a vault's strategy on a protocol's account, and its bump.
  abbrev pub strategy_of : Pubkey → Pubkey → Pubkey × ℕ
  strategy_of vault protocol_account =
      rt.find_program_address (strategy_tag ∷ key_bytes vault ∷ key_bytes protocol_account ∷ [])

  -- The `init` attribute on a strategy.
  unfoldable pub init_strategy :
      World → (payer vault protocol_account key : Pubkey) → StrategyType → Result Ledger
  init_strategy w payer vault protocol_account key strategy_type = do
    constraint (key == (strategy_of vault protocol_account).0)
    vacant (lookup key w.strategies)
    rt.create_account payer key (8 + init_space + space strategy_type) w.ledger

  -- The record and the counters of a strategy that is opened.
  unfoldable pub open_strategy :
      (vault_key protocol_account key : Pubkey)
      → Vault
      → StrategyType
      → ℤ
      → Ledger
      → World
      → Result World
  open_strategy vault_key protocol_account key vault strategy_type now l w = do
    counted ← increment_strategy_id vault
    vault' ← increment_open_strategies counted
    ok (record w {
      vaults = insert vault_key vault' w.vaults;
      strategies =
          insert key
            (Strategy.new (record {
              vault = vault_key;
              id = vault.next_strategy_id;
              bump = (strategy_of vault_key protocol_account).1;
              created_ts = now;
              strategy_type = strategy_type;
            }))
            w.strategies;
      ledger = l;
    })

  -- The strategy of a vault on a protocol's account: its address.
  unfoldable pub validate_strategy :
      Strategy → (vault protocol_account key : Pubkey) → Result (Unit {0})
  validate_strategy strategy vault protocol_account key =
      validate_strategy_address rt.create_program_address
        (strategy_seeds vault protocol_account strategy.bump) key

  -- A Phoenix strategy, and the trader account that was passed with it.
  unfoldable pub check_phoenix_strategy : Strategy → (vault trader key : Pubkey) → Result (Unit {0})
  check_phoenix_strategy strategy vault trader key = do
    validate_strategy strategy vault trader key
    strategy_trader_account ← trader_account_of strategy.strategy_type
    validate (strategy_trader_account == trader) invalid_phoenix_trader
