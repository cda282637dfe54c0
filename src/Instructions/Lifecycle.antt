-- ===== src/Instructions/Lifecycle.antt =====
-- instructions/config_initialize.rs, config_add_manager.rs, config_remove_manager.rs,
-- vault_initialize.rs and vault_close.rs: what begins and ends configurations, managers and vaults.
use programs.Prelude.{ℕ, ◌+◌, ◌&&◌, not, List, [], ◌∷◌, ltb, leb, ◌==◌}
use programs.Constants.{max_bps}
use programs.Errors.{
  Result, ok, ◌>>=◌, ◌>>◌, validate, constraint, invalid_pubkey, invalid_basis_points,
  invalid_minimum_amount, vault_has_outstanding_shares, vault_has_pending_requests,
  vault_has_unclaimed_fees, vault_has_open_strategies, vault_has_assets,
}
use programs.Accounts.{lookup, insert, erase, remove}
use programs.Vault
use programs.Vault.{Pubkey, Vault, validate_authority, validate_deposit_mint, validate_share_mint}
use programs.Config
use programs.Config.{
  Config, default_key, is_protocol_operational, validate_admin, increment_vault_id,
}
use programs.Manager
use programs.Manager.{Manager}
use programs.Seeds.{
  config_tag, manager_tag, vault_tag, share_mint_tag, key_bytes, to_le_bytes, manager_seeds,
  validate_manager_address,
}
use programs.Runtime.{Runtime, Ledger, Clock}
use programs.Payout.{validate_deposit_mint_extensions, close}
use programs.World.{
  World, load, load_config, load_vault, init_token_account, deposit_escrow_of, share_escrow_of,
}
use programs.Instructions.Strategies.{vacant}

pub record ConfigInitializeArgs : Type 0 where
  pub nav_updater : Pubkey
  pub treasury_authority : Pubkey
  pub guardian : Pubkey
  pub platform_performance_fee_bps : ℕ
  pub platform_management_fee_bps : ℕ
  pub max_nav_deviation_bps : ℕ
  pub max_epoch_outflow_bps : ℕ
  pub max_slippage_bps : ℕ

pub record ConfigInitialize : Type 0 where
  pub admin : Pubkey
  pub config : Pubkey

pub record ConfigAddManager : Type 0 where
  pub admin : Pubkey
  pub config : Pubkey
  pub authority : Pubkey
  pub manager : Pubkey

pub record ConfigRemoveManager : Type 0 where
  pub admin : Pubkey
  pub config : Pubkey
  pub manager : Pubkey

pub record VaultInitializeArgs : Type 0 where
  pub name : List ℕ
  pub performance_fee_bps : ℕ
  pub management_fee_bps : ℕ
  pub deposit_cap : ℕ
  pub min_deposit : ℕ
  pub min_withdrawal_shares : ℕ

pub record VaultInitialize : Type 0 where
  pub authority : Pubkey
  pub config : Pubkey
  pub manager : Pubkey
  pub vault : Pubkey
  pub deposit_mint : Pubkey
  pub share_mint : Pubkey
  pub vault_token_account : Pubkey
  pub deposit_escrow : Pubkey
  pub share_escrow : Pubkey
  pub deposit_mint_token_program : Pubkey
  pub share_token_program : Pubkey

pub record VaultClose : Type 0 where
  pub authority : Pubkey
  pub vault : Pubkey
  pub deposit_mint : Pubkey
  pub share_mint : Pubkey
  pub vault_token_account : Pubkey
  pub deposit_escrow : Pubkey
  pub share_escrow : Pubkey
  pub deposit_mint_token_program : Pubkey
  pub share_token_program : Pubkey

-- Discriminators and `INIT_SPACE` of each account.
abbrev pub config_space : ℕ
config_space = 8 + 344

abbrev manager_space : ℕ
manager_space = 8 + 65

abbrev vault_space : ℕ
vault_space = 8 + 416

-- The checks of the arguments of a new configuration.
unfoldable pub check_config_args : ConfigInitializeArgs → Result (Unit {0})
check_config_args args = do
  validate (not (args.nav_updater == default_key)) invalid_pubkey
  validate (not (args.treasury_authority == default_key)) invalid_pubkey
  validate (not (args.guardian == default_key)) invalid_pubkey
  validate (leb args.platform_performance_fee_bps max_bps) invalid_basis_points
  validate (leb args.platform_management_fee_bps max_bps) invalid_basis_points
  validate (leb args.max_nav_deviation_bps max_bps) invalid_basis_points
  validate (leb args.max_epoch_outflow_bps max_bps) invalid_basis_points
  validate (ltb 0 args.max_slippage_bps && leb args.max_slippage_bps max_bps) invalid_basis_points

-- The checks of the arguments of a new vault.
unfoldable pub check_vault_args : VaultInitializeArgs → Result (Unit {0})
check_vault_args args = do
  validate (leb args.performance_fee_bps max_bps) invalid_basis_points
  validate (leb args.management_fee_bps max_bps) invalid_basis_points
  validate (ltb 0 args.min_deposit && ltb 0 args.min_withdrawal_shares) invalid_minimum_amount

-- What a vault that is closed must not hold or owe.
unfoldable pub check_settled : Vault → (supply : ℕ) → Result (Unit {0})
check_settled vault supply = do
  validate (supply == 0) vault_has_outstanding_shares
  validate (vault.pending_deposits == 0 && vault.pending_withdrawal_shares == 0)
      vault_has_pending_requests
  validate (vault.unclaimed_manager_fee_shares == 0 && vault.unclaimed_platform_fee_shares == 0)
      vault_has_unclaimed_fees
  validate (vault.open_strategy_count == 0) vault_has_open_strategies
  validate (vault.total_assets == 0) vault_has_assets

module _ (rt : Runtime) where
  abbrev pub config_of : Pubkey × ℕ
  config_of = rt.find_program_address (config_tag ∷ [])

  abbrev pub manager_of : Pubkey → Pubkey × ℕ
  manager_of authority = rt.find_program_address (manager_tag ∷ key_bytes authority ∷ [])

  abbrev pub vault_of : ℕ → Pubkey × ℕ
  vault_of id = rt.find_program_address (vault_tag ∷ to_le_bytes 8 id ∷ [])

  unfoldable pub config_initialize : ConfigInitialize → ConfigInitializeArgs → World → Result World
  config_initialize a args w = do
    constraint (a.config == config_of.0)
    vacant (lookup a.config w.configs)
    l ← rt.create_account a.admin a.config config_space w.ledger
    check_config_args args
    ok (record w {
      configs =
          insert a.config
            (Config.new (record {
              admin = a.admin;
              nav_updater = args.nav_updater;
              treasury_authority = args.treasury_authority;
              guardian = args.guardian;
              platform_performance_fee_bps = args.platform_performance_fee_bps;
              platform_management_fee_bps = args.platform_management_fee_bps;
              max_nav_deviation_bps = args.max_nav_deviation_bps;
              max_epoch_outflow_bps = args.max_epoch_outflow_bps;
              max_slippage_bps = args.max_slippage_bps;
              bump = config_of.1;
            }))
            w.configs;
      ledger = l;
    })

  unfoldable pub config_add_manager : ConfigAddManager → World → Result World
  config_add_manager a w = do
    constraint (a.manager == (manager_of a.authority).0)
    vacant (lookup a.manager w.managers)
    l ← rt.create_account a.admin a.manager manager_space w.ledger
    config ← load_config rt w a.config
    validate_admin config a.admin
    ok (record w {
      managers =
          insert a.manager
            (Manager.new (record { authority = a.authority; bump = (manager_of a.authority).1 }))
            w.managers;
      ledger = l;
    })

  unfoldable pub config_remove_manager : ConfigRemoveManager → World → Result World
  config_remove_manager a w = do
    manager ← load w.managers a.manager
    config ← load_config rt w a.config
    validate_admin config a.admin
    validate_manager_address rt.create_program_address
        (manager_seeds manager.authority manager.bump) a.manager
    l ← close a.manager a.admin w.ledger
    ok (record w { managers = erase a.manager w.managers; ledger = l })

  -- The `init` attributes of the accounts of a new vault: the vault, its share mint, its token
  -- account and both escrows.
  unfoldable pub init_vault_accounts : VaultInitialize → Config → World → Result Ledger
  init_vault_accounts a config w = do
    constraint (a.vault == (vault_of config.next_vault_id).0)
    vacant (lookup a.vault w.vaults)
    l₁ ← rt.create_account a.authority a.vault vault_space w.ledger
    constraint
        (a.share_mint == (rt.find_program_address (share_mint_tag ∷ key_bytes a.vault ∷ [])).0)
    l₂ ←
        rt.create_mint a.authority a.share_mint (l₁.decimals a.deposit_mint) a.vault
          a.share_token_program l₁
    constraint (
        a.vault_token_account
        == rt.associated_token_address a.vault a.deposit_mint a.deposit_mint_token_program)
    l₃ ←
        init_token_account rt a.authority a.vault_token_account a.vault a.deposit_mint
          a.deposit_mint_token_program l₂
    constraint (a.deposit_escrow == deposit_escrow_of rt a.vault)
    l₄ ←
        rt.create_token_account a.authority a.deposit_escrow a.deposit_mint a.vault
          a.deposit_mint_token_program l₃
    constraint (a.share_escrow == share_escrow_of rt a.vault)
    l₅ ←
        rt.create_token_account a.authority a.share_escrow a.share_mint a.vault
          a.share_token_program l₄
    constraint (a.share_token_program == rt.token_id)
    ok l₅

  unfoldable pub vault_initialize :
      VaultInitialize → VaultInitializeArgs → Clock → World → Result World
  vault_initialize a args clock w = do
    manager ← load w.managers a.manager
    named ← load w.configs a.config
    l ← init_vault_accounts a named w
    config ← load_config rt w a.config
    is_protocol_operational config
    validate_manager_address rt.create_program_address (manager_seeds a.authority manager.bump)
        a.manager
    Manager.validate_authority manager a.authority
    check_vault_args args
    validate_deposit_mint_extensions rt l a.deposit_mint clock.epoch
    config' ← increment_vault_id config
    ok (record w {
      configs = insert a.config config' w.configs;
      vaults =
          insert a.vault
            (Vault.new (record {
              id = config.next_vault_id;
              authority = a.authority;
              name = args.name;
              deposit_mint = a.deposit_mint;
              share_mint = a.share_mint;
              deposit_cap = args.deposit_cap;
              min_deposit = args.min_deposit;
              min_withdrawal_shares = args.min_withdrawal_shares;
              performance_fee_bps = args.performance_fee_bps;
              management_fee_bps = args.management_fee_bps;
              current_ts = clock.unix_timestamp;
              bump = (vault_of config.next_vault_id).1;
            }))
            w.vaults;
      ledger = l;
    })

  -- The three token accounts, which must be empty for their program to close them.
  unfoldable pub close_vault_accounts : VaultClose → Ledger → Result Ledger
  close_vault_accounts a l = do
    l₁ ← rt.close_account a.deposit_mint_token_program a.vault_token_account a.authority a.vault l
    l₂ ← rt.close_account a.deposit_mint_token_program a.deposit_escrow a.authority a.vault l₁
    rt.close_account a.share_token_program a.share_escrow a.authority a.vault l₂

  unfoldable pub vault_close : VaultClose → World → Result World
  vault_close a w = do
    constraint (
        a.vault_token_account
        == rt.associated_token_address a.vault a.deposit_mint a.deposit_mint_token_program)
    constraint (a.deposit_escrow == deposit_escrow_of rt a.vault)
    constraint (a.share_escrow == share_escrow_of rt a.vault)
    constraint (a.share_token_program == rt.token_id)
    vault ← load_vault rt w a.vault
    validate_authority vault a.authority
    validate_deposit_mint vault a.deposit_mint
    validate_share_mint vault a.share_mint
    check_settled vault (w.ledger.supply a.share_mint)
    l ← close_vault_accounts a w.ledger
    closed ← close a.vault a.authority l
    ok (record w { vaults = remove a.vault w.vaults; ledger = closed })
