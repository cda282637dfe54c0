-- ===== src/System/Tests/Settings.antt =====
-- A manager lowers a fee and pauses deposits; the admin nominates another, who accepts.
use programs.Prelude.{◌≡◌, ◌≢◌, ◌⊎◌, inl, refl, arith, none, some, true}
use programs.Prelude.Int.{pos}
use programs.Errors.{validate}
use programs.Vault.{Vault}
use programs.Vault.Fees.{update_fees}
use programs.Vault.Invariant.{IsValid}
use programs.Config.{Config, nominate_admin, accept_admin}
use programs.Instructions.Settings.{
  ConfigUpdateArgs, VaultUpdateArgs, set_if, write_config, write_fees, write_vault,
}
use programs.System.Settings.{Sound, write_vault-Sound, takeover}
use programs.System.Tests.{config, vault}

abbrev vault_args : VaultUpdateArgs
vault_args = record {
  performance_fee_bps = some 1_000;
  management_fee_bps = none;
  deposit_cap = some 2_000_000;
  min_deposit = some 20;
  min_withdrawal_shares = none;
  status = none;
  deposit_paused = some true;
  withdrawal_paused = none;
}

abbrev settled : Vault
settled = record vault {
  performance_fee_bps = 1_000;
  deposit_cap = 2_000_000;
  min_deposit = 20;
  deposit_paused = 1;
}

vault-IsValid : IsValid vault
vault-IsValid = record {
  under_mark = omega arith;
  mark_floor = omega arith;
  performance = omega arith;
  management = omega arith;
  pending_performance = omega arith;
  pending_management = omega arith;
  stamped = inl refl;
}

write_vault-Sound_example : Sound vault settled
unfolding write_vault write_fees set_if update_fees validate
write_vault-Sound_example = write_vault-Sound vault_args (pos 43_200) vault vault-IsValid refl

abbrev nomination : ConfigUpdateArgs
nomination = record {
  pending_admin = some 31;
  nav_updater = none;
  treasury_authority = none;
  guardian = some 32;
  platform_performance_fee_bps = some 400;
  platform_management_fee_bps = none;
  max_nav_deviation_bps = none;
  max_epoch_outflow_bps = none;
  max_slippage_bps = some 200;
  status = none;
}

abbrev nominated : Config
nominated = record config {
  pending_admin = 31;
  guardian = 32;
  platform_performance_fee_bps = 400;
  max_slippage_bps = 200;
}

abbrev accepted : Config
accepted = record nominated { admin = 31; pending_admin = 0 }

takeover_example :
    (nominated.admin ≡ config.admin)
    × (accepted.admin ≡ 31)
    × (accepted.admin ≢ 0)
    × ((accepted.admin ≡ config.pending_admin) ⊎ (nomination.pending_admin ≡ some 31))
unfolding write_config set_if nominate_admin accept_admin validate
takeover_example = takeover nomination config 31 {c' = nominated} {c'' = accepted} refl refl
