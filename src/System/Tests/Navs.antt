-- ===== src/System/Tests/Navs.antt =====
-- A NAV posted by the keeper, and one by the admin.
use programs.Prelude.{◌≡◌, refl, [], ◌∷◌}
use programs.Prelude.Int.{pos, ◌-ℤ◌}
use programs.Errors.{ok, validate, constraint}
use programs.SafeMath.{
  safe_add, safe_sub, safe_mul, safe_div, safe_to_u64, saturating_sub_i64, cast_unsigned,
}
use programs.Accounts.{lookup, insert}
use programs.Vault.{epoch, validate_deposit_mint, validate_share_mint}
use programs.Vault.Nav.{
  management_fee, performance_fee, validate_nav_deviation, check_deviation, eligible_profit,
  party_fee, fee_shares, dilute, diluted_nav, assess_fees, accrue, counted_supply, settle,
  record_nav, update_nav,
}
use programs.Vault.Fees.{apply_pending_fees}
use programs.Config.{validate_nav_updater, validate_admin}
use programs.Seeds.{to_le_bytes, validate_pda, config_seeds, vault_seeds}
use programs.World.{World, load_config, load_vault}
use programs.Instructions.Navs.{NavUpdate, NavOverride, nav_update, nav_override}
use programs.System.Pricing.{NavPosted, nav_update-NavPosted}
use programs.System.Tests.{rt, vault, ledger, before, clock}
use programs.System.Tests.Addresses.{spelled, derived}

-- 480 shares, in a vault that holds 500.
abbrev sold : World
sold = record before { ledger = record ledger { supply = λ mint. 480 } }

abbrev post : NavUpdate
post = record {
  nav_updater = 22;
  config = 253;
  vault = 254;
  deposit_mint = 12;
  share_mint = 13;
  vault_token_account = 266;
  deposit_mint_token_program = 2;
}

abbrev priced : World
priced = record sold {
  vaults =
      (
        254,
        record vault {
          total_assets = 500;
          nav_per_share = 1_037_344_398;
          high_water_mark = 1_037_344_398;
          nav_epoch = 3;
          last_nav_ts = pos 43_200;
          unclaimed_manager_fee_shares = 2;
        },
      )
      ∷ [];
}

sold-priced : nav_update rt post clock 500 sold ≡ ok priced
unfolding nav_update constraint lookup insert validate_deposit_mint validate_share_mint
    validate_nav_updater to_le_bytes validate_pda config_seeds vault_seeds load_config load_vault
    spelled derived update_nav validate counted_supply settle accrue assess_fees record_nav safe_add
    safe_sub safe_mul safe_div safe_to_u64 saturating_sub_i64 cast_unsigned management_fee
    performance_fee validate_nav_deviation check_deviation eligible_profit party_fee fee_shares
    dilute diluted_nav apply_pending_fees epoch ◌-ℤ◌
sold-priced = refl

nav_update-NavPosted_example :
    NavPosted rt (λ c. c.nav_updater) sold 253 254 2 22 500 (epoch (pos 43_200)) priced
nav_update-NavPosted_example = nav_update-NavPosted rt post clock 500 sold sold-priced

abbrev overriding : NavOverride
overriding = record {
  admin = 21;
  config = 253;
  vault = 254;
  deposit_mint = 12;
  share_mint = 13;
  vault_token_account = 266;
  deposit_mint_token_program = 2;
}

sold-overridden : nav_override rt overriding clock 500 sold ≡ ok priced
unfolding nav_override constraint lookup insert validate_deposit_mint validate_share_mint
    validate_admin to_le_bytes validate_pda config_seeds vault_seeds load_config load_vault spelled
    derived update_nav validate counted_supply settle accrue assess_fees record_nav safe_add
    safe_sub safe_mul safe_div safe_to_u64 saturating_sub_i64 cast_unsigned management_fee
    performance_fee validate_nav_deviation check_deviation eligible_profit party_fee fee_shares
    dilute diluted_nav apply_pending_fees epoch ◌-ℤ◌
sold-overridden = refl
