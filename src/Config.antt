-- ===== src/Config.antt =====
-- state/config.rs: the protocol's configuration, its authorities and its status. Padding and reserve
-- are left out.
use programs.Prelude.{ℕ, Bool, true, false, not, ◌&&◌, ◌==◌, if◌then◌else◌}
use programs.Constants.{config_version, default_max_slippage_bps}
use programs.SafeMath.{safe_add}
use programs.Errors.{
  Result, ok, ◌>>=◌, ◌>>◌, validate, invalid_admin, invalid_nav_updater, invalid_treasury_authority,
  invalid_guardian, invalid_pending_admin, protocol_not_operational, protocol_not_withdrawable,
}
use programs.Vault.{Pubkey}

pub data ProtocolStatus : Type 0 where
  normal paused reduce_only : ProtocolStatus

pub record NewConfigArgs : Type 0 where
  pub admin : Pubkey
  pub nav_updater : Pubkey
  pub treasury_authority : Pubkey
  pub guardian : Pubkey
  pub platform_performance_fee_bps : ℕ
  pub platform_management_fee_bps : ℕ
  pub max_nav_deviation_bps : ℕ
  pub max_epoch_outflow_bps : ℕ
  pub max_slippage_bps : ℕ
  pub bump : ℕ

pub record Config : Type 0 where
  pub admin : Pubkey
  pub nav_updater : Pubkey
  pub treasury_authority : Pubkey
  pub guardian : Pubkey
  pub next_vault_id : ℕ
  pub platform_performance_fee_bps : ℕ
  pub platform_management_fee_bps : ℕ
  pub max_nav_deviation_bps : ℕ
  pub max_epoch_outflow_bps : ℕ
  pub status : ProtocolStatus
  pub bump : ℕ
  pub version : ℕ
  pub pending_admin : Pubkey
  pub max_slippage_bps : ℕ

-- `Pubkey::default()`
abbrev pub default_key : Pubkey
default_key = 0

-- `Config::new`
unfoldable pub new : NewConfigArgs → Config
new args = record {
  admin = args.admin;
  nav_updater = args.nav_updater;
  treasury_authority = args.treasury_authority;
  guardian = args.guardian;
  next_vault_id = 0;
  platform_performance_fee_bps = args.platform_performance_fee_bps;
  platform_management_fee_bps = args.platform_management_fee_bps;
  max_nav_deviation_bps = args.max_nav_deviation_bps;
  max_epoch_outflow_bps = args.max_epoch_outflow_bps;
  status = paused;
  bump = args.bump;
  version = config_version;
  pending_admin = default_key;
  max_slippage_bps = args.max_slippage_bps;
}

-- `Config::max_slippage_bps`, the method.
unfoldable pub slippage_cap : Config → ℕ
slippage_cap self =
    if self.max_slippage_bps == 0 then default_max_slippage_bps else self.max_slippage_bps

unfoldable pub validate_admin : Config → Pubkey → Result (Unit {0})
unfolding validate
validate_admin self admin = validate (self.admin == admin) invalid_admin

unfoldable pub validate_nav_updater : Config → Pubkey → Result (Unit {0})
unfolding validate
validate_nav_updater self nav_updater =
    validate (self.nav_updater == nav_updater) invalid_nav_updater

unfoldable pub validate_treasury_authority : Config → Pubkey → Result (Unit {0})
unfolding validate
validate_treasury_authority self authority =
    validate (self.treasury_authority == authority) invalid_treasury_authority

unfoldable pub validate_guardian : Config → Pubkey → Result (Unit {0})
unfolding validate
validate_guardian self guardian = validate (self.guardian == guardian) invalid_guardian

unfoldable pub nominate_admin : Config → Pubkey → Config
nominate_admin self pending_admin = record self { pending_admin = pending_admin }

unfoldable pub accept_admin : Config → Pubkey → Result Config
unfolding validate
accept_admin self signer = do
  validate (not (self.pending_admin == default_key) && self.pending_admin == signer)
      invalid_pending_admin
  ok (record self { admin = signer; pending_admin = default_key })

unfoldable pub pause : Config → Config
pause self = record self { status = paused }

unfoldable pub migrate : Config → Config
migrate self = record self { version = config_version }

unfoldable pub increment_vault_id : Config → Result Config
increment_vault_id self = do
  n ← safe_add 64 self.next_vault_id 1
  ok (record self { next_vault_id = n })

abbrev pub is_normal : ProtocolStatus → Bool
is_normal normal = true
is_normal paused = false
is_normal reduce_only = false

abbrev pub is_paused : ProtocolStatus → Bool
is_paused normal = false
is_paused paused = true
is_paused reduce_only = false

unfoldable pub is_protocol_operational : Config → Result (Unit {0})
unfolding validate
is_protocol_operational self = validate (is_normal self.status) protocol_not_operational

unfoldable pub is_protocol_withdrawable : Config → Result (Unit {0})
unfolding validate
is_protocol_withdrawable self = validate (not (is_paused self.status)) protocol_not_withdrawable
