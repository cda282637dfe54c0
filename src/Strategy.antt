-- ===== src/Strategy.antt =====
-- state/strategy.rs: the record of where a vault's funds are used. Padding and reserve are left out.
use programs.Prelude.{ℕ, ◌+◌, ◌*◌}
use programs.Prelude.Int.{ℤ}
use programs.Constants.{strategy_version}
use programs.Vault.{Pubkey}

pub data StrategyType : Type 0 where
  jupiter_swap meteora_dlmm phoenix_perp : Pubkey → StrategyType

-- The bytes that a strategy type takes in the account.
unfoldable pub space : StrategyType → ℕ
space (jupiter_swap target_mint) = 1 + 32
space (meteora_dlmm position) = 1 + 32
space (phoenix_perp trader_account) = 1 + 32

pub record NewStrategyArgs : Type 0 where
  pub vault : Pubkey
  pub id : ℕ
  pub bump : ℕ
  pub created_ts : ℤ
  pub strategy_type : StrategyType

pub record Strategy : Type 0 where
  pub vault : Pubkey
  pub created_ts : ℤ
  pub last_action_ts : ℤ
  pub id : ℕ
  pub bump : ℕ
  pub version : ℕ
  pub strategy_type : StrategyType

-- `Strategy::new`
unfoldable pub new : NewStrategyArgs → Strategy
new args = record {
  vault = args.vault;
  created_ts = args.created_ts;
  last_action_ts = args.created_ts;
  id = args.id;
  bump = args.bump;
  version = strategy_version;
  strategy_type = args.strategy_type;
}

unfoldable pub record_action : Strategy → ℤ → Strategy
record_action self now = record self { last_action_ts = now }

-- `Strategy::INIT_SPACE`
abbrev pub init_space : ℕ
init_space = 32 + 8 + 8 + 4 + 1 + 1 + 1 * 2 + 1 * 32
