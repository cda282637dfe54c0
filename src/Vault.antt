-- ===== src/Vault.antt =====
-- state/vault.rs: the vault account, its checks and its counters. A `Pubkey` is the number that its
-- 32 bytes spell, the default key being 0. The reserved and padding fields, which the code only
-- ever writes as zeros, are left out.
pub mod Fees
pub mod Nav
pub mod Invariant
pub mod Requests
mod Tests
use programs.Prelude.{ℕ, zero, suc, Bool, true, false, not, List, ltb, leb, ◌==◌}
use programs.Prelude.Int.{ℤ, pos, negsuc}
use programs.Constants.{nav_precision, epoch_duration, vault_version}
use programs.Prelude.{◌+◌, ◌-◌, ◌/◌, ◌^◌, Option}
use programs.SafeMath.{safe_add, safe_sub}
use programs.Errors.{
  Result, ok, ◌>>=◌, ◌>>◌, validate, invalid_vault_authority, invalid_deposit_mint,
  invalid_share_mint, vault_not_operational, vault_not_withdrawable, vault_deposit_paused,
  vault_withdrawal_paused,
}

abbrev pub Pubkey : Type 0
Pubkey = ℕ

pub data VaultStatus : Type 0 where
  normal paused reduce_only : VaultStatus

pub record NewVaultArgs : Type 0 where
  pub id : ℕ
  pub authority : Pubkey
  pub name : List ℕ
  pub deposit_mint : Pubkey
  pub share_mint : Pubkey
  pub deposit_cap : ℕ
  pub min_deposit : ℕ
  pub min_withdrawal_shares : ℕ
  pub performance_fee_bps : ℕ
  pub management_fee_bps : ℕ
  pub current_ts : ℤ
  pub bump : ℕ

pub record NavFeeShares : Type 0 where
  pub manager_fee_shares : ℕ
  pub platform_fee_shares : ℕ

pub record NavUpdateArgs : Type 0 where
  pub total_assets : ℕ
  pub share_supply : ℕ
  pub platform_performance_fee_bps : ℕ
  pub platform_management_fee_bps : ℕ
  pub max_nav_deviation_bps : Option ℕ
  pub now : ℤ

pub record Vault : Type 0 where
  pub id : ℕ
  pub authority : Pubkey
  pub name : List ℕ
  pub deposit_mint : Pubkey
  pub share_mint : Pubkey
  pub deposit_cap : ℕ
  pub total_assets : ℕ
  pub nav_per_share : ℕ
  pub high_water_mark : ℕ
  pub nav_epoch : ℕ
  pub last_nav_ts : ℤ
  pub pending_deposits : ℕ
  pub pending_withdrawal_shares : ℕ
  pub unclaimed_manager_fee_shares : ℕ
  pub unclaimed_platform_fee_shares : ℕ
  pub epoch_outflow : ℕ
  pub next_strategy_id : ℕ
  pub performance_fee_bps : ℕ
  pub management_fee_bps : ℕ
  pub status : VaultStatus
  pub bump : ℕ
  pub version : ℕ
  pub deposit_paused : ℕ
  pub withdrawal_paused : ℕ
  pub min_deposit : ℕ
  pub min_withdrawal_shares : ℕ
  pub fee_effective_ts : ℤ
  pub pending_performance_fee_bps : ℕ
  pub pending_management_fee_bps : ℕ
  pub open_strategy_count : ℕ

-- `Vault::new`
unfoldable pub new : NewVaultArgs → Vault
new args = record {
  id = args.id;
  authority = args.authority;
  name = args.name;
  deposit_mint = args.deposit_mint;
  share_mint = args.share_mint;
  deposit_cap = args.deposit_cap;
  total_assets = 0;
  nav_per_share = nav_precision;
  high_water_mark = nav_precision;
  nav_epoch = 0;
  last_nav_ts = args.current_ts;
  pending_deposits = 0;
  pending_withdrawal_shares = 0;
  unclaimed_manager_fee_shares = 0;
  unclaimed_platform_fee_shares = 0;
  epoch_outflow = 0;
  next_strategy_id = 0;
  performance_fee_bps = args.performance_fee_bps;
  management_fee_bps = args.management_fee_bps;
  status = normal;
  bump = args.bump;
  version = vault_version;
  deposit_paused = 0;
  withdrawal_paused = 0;
  min_deposit = args.min_deposit;
  min_withdrawal_shares = args.min_withdrawal_shares;
  fee_effective_ts = pos 0;
  pending_performance_fee_bps = 0;
  pending_management_fee_bps = 0;
  open_strategy_count = 0;
}

-- `Vault::epoch`: the division rounds towards zero, and the cast reads a negative value modulo 2 ^ 64.
unfoldable pub epoch : ℤ → ℕ
epoch (pos n) = n / epoch_duration
epoch (negsuc n) = let q = (n + 1) / epoch_duration in elim q [ zero ↦ 0 | suc k ↦ 2 ^ 64 - suc k ]

unfoldable pub validate_authority : Vault → Pubkey → Result (Unit {0})
unfolding validate
validate_authority self authority = validate (authority == self.authority) invalid_vault_authority

unfoldable pub validate_deposit_mint : Vault → Pubkey → Result (Unit {0})
unfolding validate
validate_deposit_mint self deposit_mint =
    validate (deposit_mint == self.deposit_mint) invalid_deposit_mint

unfoldable pub validate_share_mint : Vault → Pubkey → Result (Unit {0})
unfolding validate
validate_share_mint self share_mint = validate (share_mint == self.share_mint) invalid_share_mint

unfoldable pub increment_strategy_id : Vault → Result Vault
increment_strategy_id self = do
  n ← safe_add 32 self.next_strategy_id 1
  ok (record self { next_strategy_id = n })

unfoldable pub increment_open_strategies : Vault → Result Vault
increment_open_strategies self = do
  n ← safe_add 32 self.open_strategy_count 1
  ok (record self { open_strategy_count = n })

unfoldable pub decrement_open_strategies : Vault → Result Vault
decrement_open_strategies self = do
  n ← safe_sub self.open_strategy_count 1
  ok (record self { open_strategy_count = n })

unfoldable pub pause : Vault → Vault
pause self = record self { status = paused }

abbrev pub is_normal : VaultStatus → Bool
is_normal normal = true
is_normal paused = false
is_normal reduce_only = false

abbrev pub is_paused : VaultStatus → Bool
is_paused normal = false
is_paused paused = true
is_paused reduce_only = false

unfoldable pub is_vault_operational : Vault → Result (Unit {0})
unfolding validate
is_vault_operational self = validate (is_normal self.status) vault_not_operational

unfoldable pub is_vault_withdrawable : Vault → Result (Unit {0})
unfolding validate
is_vault_withdrawable self = validate (not (is_paused self.status)) vault_not_withdrawable

abbrev pub is_deposit_paused : Vault → Bool
is_deposit_paused self = not (self.deposit_paused == 0)

abbrev pub is_withdrawal_paused : Vault → Bool
is_withdrawal_paused self = not (self.withdrawal_paused == 0)

unfoldable pub validate_deposit_not_paused : Vault → Result (Unit {0})
unfolding validate
validate_deposit_not_paused self = validate (not (is_deposit_paused self)) vault_deposit_paused

unfoldable pub validate_withdrawal_not_paused : Vault → Result (Unit {0})
unfolding validate
validate_withdrawal_not_paused self =
    validate (not (is_withdrawal_paused self)) vault_withdrawal_paused
