-- ===== src/Instructions/Strategies/Close.antt =====
-- instructions/vault_close_strategy.rs.
use programs.Prelude.{◌||◌, List, [], ◌∷◌, ◌==◌, if◌then◌else◌}
use programs.Errors.{
  Result, ok, err, custom, ◌>>=◌, ◌>>◌, validate, invalid_strategy, invalid_remaining_accounts,
  invalid_position, invalid_program_id, invalid_token_program, invalid_target_mint_token_account,
  invalid_token_account_owner, invalid_phoenix_trader, invalid_phoenix_account,
}
use programs.Accounts.{insert, erase}
use programs.Vault.{Pubkey, decrement_open_strategies}
use programs.Strategy.{StrategyType, jupiter_swap, meteora_dlmm, phoenix_perp}
use programs.Seeds.{Seed, vault_seeds}
use programs.Runtime.{Runtime, Ledger}
use programs.Payout.{close}
use programs.World.{World, load, or_violation}
use programs.Protocol.Dlmm.{Dlmm, dlmm_id}
use programs.Protocol.Phoenix.{phoenix_global_configuration}
use programs.Protocol.Phoenix.Accounts.{load_trader, is_empty, load_global_config}
use programs.Instructions.Strategies.{load_withdrawable, validate_strategy}

pub record VaultCloseStrategy : Type 0 where
  pub authority : Pubkey
  pub config : Pubkey
  pub vault : Pubkey
  pub strategy : Pubkey

-- The account of the protocol that a strategy is on.
unfoldable pub protocol_account : StrategyType → Pubkey
protocol_account (meteora_dlmm position) = position
protocol_account (jupiter_swap target_mint) = target_mint
protocol_account (phoenix_perp trader_account) = trader_account

module _ (rt : Runtime) (dlmm : Dlmm) where
  -- The position, the program, its event authority.
  unfoldable pub close_meteora :
      VaultCloseStrategy → Pubkey → List Seed → List Pubkey → Ledger → Result Ledger
  close_meteora a position seeds (position_account ∷ dlmm_program ∷ dlmm_event_authority ∷ []) l =
      do
        validate (position_account == position) invalid_position
        validate (dlmm_program == dlmm_id) invalid_program_id
        dlmm.close_position2 position_account a.vault a.authority dlmm_event_authority seeds l
  close_meteora a position seeds _ l = err (custom invalid_remaining_accounts)

  -- A token account that exists must be the vault's and of the mint.
  unfoldable pub close_target :
      VaultCloseStrategy → (target_mint account token_program : Pubkey) → Ledger → Result Ledger
  close_target a target_mint account token_program l = do
    (mint, owner) ← or_violation (l.token_account account)
    validate (mint == target_mint) invalid_target_mint_token_account
    validate (owner == a.vault) invalid_token_account_owner
    rt.close_account token_program account a.authority a.vault l

  -- The vault's account of the target mint, and the token program.
  unfoldable pub close_jupiter : VaultCloseStrategy → Pubkey → List Pubkey → Ledger → Result Ledger
  close_jupiter a target_mint (account ∷ token_program ∷ []) l = do
    validate (token_program == rt.token_id || token_program == rt.token_2022_id)
        invalid_token_program
    validate (account == rt.associated_token_address a.vault target_mint token_program)
        invalid_target_mint_token_account
    if l.lamports account == 0 then ok l else close_target a target_mint account token_program l
  close_jupiter a target_mint _ l = err (custom invalid_remaining_accounts)

  -- The trader, the global configuration, the vault's account of the canonical mint, and the token
  -- program. Phoenix itself closes nothing.
  unfoldable pub close_phoenix : VaultCloseStrategy → Pubkey → List Pubkey → Ledger → Result Ledger
  close_phoenix a trader_account (trader ∷ global_config ∷ account ∷ token_program ∷ []) l = do
    validate (trader == trader_account) invalid_phoenix_trader
    validate (global_config == phoenix_global_configuration) invalid_phoenix_account
    validate (token_program == rt.token_id) invalid_token_program
    header ← load_trader l trader
    is_empty header
    phoenix_config ← load_global_config l global_config
    validate
        (account == rt.associated_token_address a.vault phoenix_config.canonical_mint token_program)
        invalid_phoenix_account
    if l.lamports account == 0
        then ok l
        else rt.close_account token_program account a.authority a.vault l
  close_phoenix a trader_account _ l = err (custom invalid_remaining_accounts)

  unfoldable pub close_protocol :
      VaultCloseStrategy → StrategyType → List Seed → List Pubkey → Ledger → Result Ledger
  close_protocol a (meteora_dlmm position) seeds remaining l =
      close_meteora a position seeds remaining l
  close_protocol a (jupiter_swap target_mint) seeds remaining l =
      close_jupiter a target_mint remaining l
  close_protocol a (phoenix_perp trader_account) seeds remaining l =
      close_phoenix a trader_account remaining l

  -- The record goes with the `close` attribute, as `Payout.close` does it, whatever the protocol did.
  unfoldable pub vault_close_strategy : VaultCloseStrategy → List Pubkey → World → Result World
  vault_close_strategy a remaining w = do
    strategy ← load w.strategies a.strategy
    (config, vault) ← load_withdrawable rt w a.config a.vault a.authority
    validate (strategy.vault == a.vault) invalid_strategy
    validate_strategy rt strategy a.vault (protocol_account strategy.strategy_type) a.strategy
    vault' ← decrement_open_strategies vault
    l ← close_protocol a strategy.strategy_type (vault_seeds vault.id vault.bump) remaining w.ledger
    closed ← close a.strategy a.authority l
    ok (record w {
      vaults = insert a.vault vault' w.vaults;
      strategies = erase a.strategy w.strategies;
      ledger = closed;
    })
