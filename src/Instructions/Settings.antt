-- ===== src/Instructions/Settings.antt =====
-- instructions/config_update.rs, config_pause.rs, admin_accept.rs, vault_update.rs and vault_pause.rs:
-- who holds a role, the settings, and the switches that stop the protocol or a vault.
use programs.Prelude.{
  ℕ, Bool, true, false, not, ◌&&◌, ◌||◌, Option, none, some, ltb, leb, ◌==◌, if◌then◌else◌,
}
use programs.Prelude.Int.{ℤ}
use programs.Constants.{max_bps}
use programs.Errors.{
  Result, ok, ◌>>=◌, ◌>>◌, validate, invalid_pubkey, invalid_basis_points, invalid_minimum_amount,
}
use programs.Vault
use programs.Vault.{Pubkey, Vault, VaultStatus, validate_authority}
use programs.Vault.Fees.{update_fees}
use programs.Config
use programs.Config.{
  Config, ProtocolStatus, default_key, validate_admin, validate_guardian, nominate_admin,
  accept_admin,
}
use programs.Runtime.{Runtime, Clock}
use programs.World.{World, load_config, load_vault, set_config, set_vault}

-- `if let Some(..)` around a write that may fail.
unfoldable pub set_if {ℓ κ} :
    {A : Type ℓ} {R : Type κ} → Option A → (A → R → Result R) → R → Result R
set_if none write r = ok r
set_if (some a) write r = write a r

abbrev pub is_some {ℓ} : {A : Type ℓ} → Option A → Bool
is_some none = false
is_some (some a) = true

-- `bool as u8`
abbrev pub as_u8 : Bool → ℕ
as_u8 false = 0
as_u8 true = 1

pub record ConfigUpdateArgs : Type 0 where
  pub pending_admin : Option Pubkey
  pub nav_updater : Option Pubkey
  pub treasury_authority : Option Pubkey
  pub guardian : Option Pubkey
  pub platform_performance_fee_bps : Option ℕ
  pub platform_management_fee_bps : Option ℕ
  pub max_nav_deviation_bps : Option ℕ
  pub max_epoch_outflow_bps : Option ℕ
  pub max_slippage_bps : Option ℕ
  pub status : Option ProtocolStatus

-- The two tests that the writes of `config_update` are under.
abbrev pub check_key : Pubkey → Result (Unit {0})
check_key k = validate (not (k == default_key)) invalid_pubkey

abbrev pub check_bps : ℕ → Result (Unit {0})
check_bps bps = validate (leb bps max_bps) invalid_basis_points

-- The writes of `config_update`, in their order.
unfoldable pub write_config : ConfigUpdateArgs → Config → Result Config
write_config args c₀ = do
  c₁ ← set_if args.pending_admin (λ k c. check_key k >> ok (nominate_admin c k)) c₀
  c₂ ← set_if args.nav_updater (λ k c. check_key k >> ok (record c { nav_updater = k })) c₁
  c₃ ←
      set_if args.treasury_authority
        (λ k c. check_key k >> ok (record c { treasury_authority = k })) c₂
  c₄ ← set_if args.guardian (λ k c. check_key k >> ok (record c { guardian = k })) c₃
  c₅ ←
      set_if args.platform_performance_fee_bps
        (λ n c. check_bps n >> ok (record c { platform_performance_fee_bps = n })) c₄
  c₆ ←
      set_if args.platform_management_fee_bps
        (λ n c. check_bps n >> ok (record c { platform_management_fee_bps = n })) c₅
  c₇ ←
      set_if args.max_nav_deviation_bps
        (λ n c. check_bps n >> ok (record c { max_nav_deviation_bps = n })) c₆
  c₈ ←
      set_if args.max_epoch_outflow_bps
        (λ n c. check_bps n >> ok (record c { max_epoch_outflow_bps = n })) c₇
  c₉ ←
      set_if args.max_slippage_bps
        (λ n c.
          validate (ltb 0 n && leb n max_bps) invalid_basis_points
          >> ok (record c { max_slippage_bps = n }))
        c₈
  set_if args.status (λ s c. ok (record c { status = s })) c₉

pub record VaultUpdateArgs : Type 0 where
  pub performance_fee_bps : Option ℕ
  pub management_fee_bps : Option ℕ
  pub deposit_cap : Option ℕ
  pub min_deposit : Option ℕ
  pub min_withdrawal_shares : Option ℕ
  pub status : Option VaultStatus
  pub deposit_paused : Option Bool
  pub withdrawal_paused : Option Bool

-- "only touch fees when asked, so a status-only update never restarts a pending delay"
unfoldable pub write_fees : VaultUpdateArgs → ℤ → Vault → Result Vault
write_fees args now vault =
    if is_some args.performance_fee_bps || is_some args.management_fee_bps
    then update_fees vault args.performance_fee_bps args.management_fee_bps now
    else ok vault

-- The writes of `vault_update`, in their order.
unfoldable pub write_vault : VaultUpdateArgs → ℤ → Vault → Result Vault
write_vault args now v₀ = do
  v₁ ← write_fees args now v₀
  v₂ ← set_if args.deposit_cap (λ n v. ok (record v { deposit_cap = n })) v₁
  v₃ ←
      set_if args.min_deposit
        (λ n v. validate (ltb 0 n) invalid_minimum_amount >> ok (record v { min_deposit = n })) v₂
  v₄ ←
      set_if args.min_withdrawal_shares
        (λ n v.
          validate (ltb 0 n) invalid_minimum_amount >> ok (record v { min_withdrawal_shares = n }))
        v₃
  v₅ ← set_if args.status (λ s v. ok (record v { status = s })) v₄
  v₆ ← set_if args.deposit_paused (λ b v. ok (record v { deposit_paused = as_u8 b })) v₅
  set_if args.withdrawal_paused (λ b v. ok (record v { withdrawal_paused = as_u8 b })) v₆

pub record ConfigUpdate : Type 0 where
  pub admin : Pubkey
  pub config : Pubkey

pub record ConfigPause : Type 0 where
  pub guardian : Pubkey
  pub config : Pubkey

pub record AdminAccept : Type 0 where
  pub pending_admin : Pubkey
  pub config : Pubkey

pub record VaultUpdate : Type 0 where
  pub authority : Pubkey
  pub vault : Pubkey

pub record VaultPause : Type 0 where
  pub guardian : Pubkey
  pub config : Pubkey
  pub vault : Pubkey

module _ (rt : Runtime) where
  unfoldable pub config_update : ConfigUpdate → ConfigUpdateArgs → World → Result World
  config_update a args w = do
    config ← load_config rt w a.config
    validate_admin config a.admin
    config' ← write_config args config
    ok (set_config w a.config config')

  unfoldable pub config_pause : ConfigPause → World → Result World
  config_pause a w = do
    config ← load_config rt w a.config
    validate_guardian config a.guardian
    ok (set_config w a.config (Config.pause config))

  unfoldable pub admin_accept : AdminAccept → World → Result World
  admin_accept a w = do
    config ← load_config rt w a.config
    config' ← accept_admin config a.pending_admin
    ok (set_config w a.config config')

  unfoldable pub vault_update : VaultUpdate → VaultUpdateArgs → Clock → World → Result World
  vault_update a args clock w = do
    vault ← load_vault rt w a.vault
    validate_authority vault a.authority
    vault' ← write_vault args clock.unix_timestamp vault
    ok (set_vault w a.vault vault')

  unfoldable pub vault_pause : VaultPause → World → Result World
  vault_pause a w = do
    config ← load_config rt w a.config
    validate_guardian config a.guardian
    vault ← load_vault rt w a.vault
    ok (set_vault w a.vault (Vault.pause vault))
