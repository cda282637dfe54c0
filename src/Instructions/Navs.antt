-- ===== src/Instructions/Navs.antt =====
-- instructions/nav_update.rs and nav_override.rs, vault_claim_manager_fee.rs and
-- config_claim_platform_fee.rs: who posts a NAV, and who takes the fee shares.
use programs.Prelude.{ℕ, Option, none, some, leb, ◌==◌}
use programs.Errors.{Result, ok, ◌>>=◌, ◌>>◌, validate, constraint, total_assets_below_idle_balance}
use programs.Vault.{
  Pubkey, NavUpdateArgs, validate_authority, validate_deposit_mint, validate_share_mint,
}
use programs.Vault.Nav.{update_nav}
use programs.Vault.Fees.{claim_manager_fee, claim_platform_fee}
use programs.Config.{Config, validate_nav_updater, validate_admin, validate_treasury_authority}
use programs.Runtime.{Runtime, Clock}
use programs.World.{World, set_vault, load_config, load_vault, init_token_account}

pub record NavUpdate : Type 0 where
  pub nav_updater : Pubkey
  pub config : Pubkey
  pub vault : Pubkey
  pub deposit_mint : Pubkey
  pub share_mint : Pubkey
  pub vault_token_account : Pubkey
  pub deposit_mint_token_program : Pubkey

pub record NavOverride : Type 0 where
  pub admin : Pubkey
  pub config : Pubkey
  pub vault : Pubkey
  pub deposit_mint : Pubkey
  pub share_mint : Pubkey
  pub vault_token_account : Pubkey
  pub deposit_mint_token_program : Pubkey

pub record VaultClaimManagerFee : Type 0 where
  pub authority : Pubkey
  pub vault : Pubkey
  pub share_mint : Pubkey
  pub authority_share_token_account : Pubkey

pub record ConfigClaimPlatformFee : Type 0 where
  pub treasury_authority : Pubkey
  pub config : Pubkey
  pub vault : Pubkey
  pub share_mint : Pubkey
  pub treasury_authority_share_token_account : Pubkey

-- What both NAV instructions pass to `update_nav`.
abbrev pub nav_args : Config → ℕ → ℕ → Option ℕ → Clock → NavUpdateArgs
nav_args config total_assets share_supply deviation clock = record {
  total_assets = total_assets;
  share_supply = share_supply;
  platform_performance_fee_bps = config.platform_performance_fee_bps;
  platform_management_fee_bps = config.platform_management_fee_bps;
  max_nav_deviation_bps = deviation;
  now = clock.unix_timestamp;
}

module _ (rt : Runtime) where
  unfoldable pub nav_update : NavUpdate → Clock → ℕ → World → Result World
  nav_update a clock total_assets w = do
    constraint (
        a.vault_token_account
        == rt.associated_token_address a.vault a.deposit_mint a.deposit_mint_token_program)
    config ← load_config rt w a.config
    validate_nav_updater config a.nav_updater
    vault ← load_vault rt w a.vault
    validate_deposit_mint vault a.deposit_mint
    validate_share_mint vault a.share_mint
    validate (leb (w.ledger.amount a.vault_token_account) total_assets)
        total_assets_below_idle_balance
    (vault', shares) ← update_nav vault (
        nav_args config total_assets (w.ledger.supply a.share_mint)
          (some config.max_nav_deviation_bps) clock)
    ok (set_vault w a.vault vault')

  unfoldable pub nav_override : NavOverride → Clock → ℕ → World → Result World
  nav_override a clock total_assets w = do
    constraint (
        a.vault_token_account
        == rt.associated_token_address a.vault a.deposit_mint a.deposit_mint_token_program)
    config ← load_config rt w a.config
    validate_admin config a.admin
    vault ← load_vault rt w a.vault
    validate_deposit_mint vault a.deposit_mint
    validate_share_mint vault a.share_mint
    validate (leb (w.ledger.amount a.vault_token_account) total_assets)
        total_assets_below_idle_balance
    (vault', shares) ←
        update_nav vault (nav_args config total_assets (w.ledger.supply a.share_mint) none clock)
    ok (set_vault w a.vault vault')

  unfoldable pub vault_claim_manager_fee : VaultClaimManagerFee → World → Result World
  vault_claim_manager_fee a w = do
    constraint (
        a.authority_share_token_account
        == rt.associated_token_address a.authority a.share_mint rt.token_id)
    l₁ ←
        init_token_account rt a.authority a.authority_share_token_account a.authority a.share_mint
          rt.token_id w.ledger
    vault ← load_vault rt w a.vault
    validate_authority vault a.authority
    validate_share_mint vault a.share_mint
    (vault', shares) ← claim_manager_fee vault
    l₂ ← rt.mint_to rt.token_id a.share_mint a.authority_share_token_account a.vault shares l₁
    ok (record (set_vault w a.vault vault') { ledger = l₂ })

  unfoldable pub config_claim_platform_fee : ConfigClaimPlatformFee → World → Result World
  config_claim_platform_fee a w = do
    constraint (
        a.treasury_authority_share_token_account
        == rt.associated_token_address a.treasury_authority a.share_mint rt.token_id)
    l₁ ←
        init_token_account rt a.treasury_authority a.treasury_authority_share_token_account
          a.treasury_authority a.share_mint rt.token_id w.ledger
    config ← load_config rt w a.config
    validate_treasury_authority config a.treasury_authority
    vault ← load_vault rt w a.vault
    validate_share_mint vault a.share_mint
    (vault', shares) ← claim_platform_fee vault
    l₂ ←
        rt.mint_to rt.token_id a.share_mint a.treasury_authority_share_token_account a.vault shares
          l₁
    ok (record (set_vault w a.vault vault') { ledger = l₂ })
