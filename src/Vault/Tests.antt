-- ===== src/Vault/Tests.antt =====
-- Runs of the vault's operations on a vault with a 20% performance fee and a 1% management fee, of
-- which the manager's performance fee is about to be raised.
mod Settlement
use programs.Prelude.{ℕ, ◌+◌, ◌-◌, ◌*◌, ◌^◌, ◌≤◌, ◌<◌, ◌≡◌, refl, arith, none, some, inl, inr, []}
use programs.Prelude.Int.{pos, ◌+ℤ◌, ◌-ℤ◌}
use programs.Constants.{nav_precision, max_bps, fee_increase_delay}
use programs.Errors.{ok, err, custom, validate, nav_already_updated_this_epoch}
use programs.SafeMath.{
  safe_add, safe_sub, safe_mul, safe_div, safe_to_u64, safe_add_i64, saturating_sub_i64,
  cast_unsigned,
}
use programs.Vault.{Vault, normal, NewVaultArgs, NavUpdateArgs, NavFeeShares, new, epoch}
use programs.Vault.Fees.{update_fees, apply_pending_fees, claim_manager_fee, claim_platform_fee}
use programs.Vault.Nav.{
  management_fee, performance_fee, validate_nav_deviation, check_deviation, eligible_profit,
  party_fee, fee_shares, dilute, diluted_nav, assess_fees, accrue, counted_supply, settle,
  record_nav, update_nav,
}
use programs.Vault.Invariant.{IsValid, IsSolvent, new-IsValid}
use programs.Vault.Nav.Dilution.{Diluted, fee_shares_bounds, dilute-Diluted, diluted_nav_bounds}
use programs.Vault.Nav.Update.{
  update_nav-IsSolvent, update_nav-IsValid, update_nav_stamps, update_nav_once, update_nav_accrues,
  update_nav_deviation,
}
use programs.Vault.Fees.Schedule.{
  update_fees_schedules, update_fees-IsValid, update_fees_refuses, fee_update_arrives,
  fee_increase_waits, claim_manager_fee_once, claim_platform_fee_once,
}
use programs.Vault.Requests.Conversion.{
  resolve_deposit_moves, resolve_deposit-IsSolvent, resolve_withdrawal_moves,
  resolve_withdrawal-IsSolvent, deposit_round_trip, resolve_withdrawal_total,
}
use programs.Vault.Requests.Accounting.{
  request_deposit_iff, request_withdrawal_iff, cancel_deposit-request_deposit,
  cancel_withdrawal-request_withdrawal,
}
use programs.Errors.{invalid_basis_points, no_fee_to_claim}
use programs.Prelude.{◌↔◌, ◌⊎◌}
use programs.Prelude.Int.{◌≤ℤ◌}
use programs.Vault.Requests.{
  request_deposit, cancel_deposit, shares_for, resolve_deposit, request_withdrawal,
  cancel_withdrawal, amount_for, outflow_cap, resolve_withdrawal,
}

abbrev pub opening : NewVaultArgs
opening = record {
  id = 7;
  authority = 11;
  name = [];
  deposit_mint = 12;
  share_mint = 13;
  deposit_cap = 1_000_000_000;
  min_deposit = 10;
  min_withdrawal_shares = 5;
  performance_fee_bps = 2000;
  management_fee_bps = 100;
  current_ts = pos 0;
  bump = 254;
}

abbrev pub running : Vault
running = record {
  id = 7;
  authority = 11;
  name = [];
  deposit_mint = 12;
  share_mint = 13;
  deposit_cap = 1_000_000_000;
  total_assets = 100_000_000;
  nav_per_share = nav_precision;
  high_water_mark = nav_precision;
  nav_epoch = 0;
  last_nav_ts = pos 0;
  pending_deposits = 5_000_000;
  pending_withdrawal_shares = 3_000_000;
  unclaimed_manager_fee_shares = 500;
  unclaimed_platform_fee_shares = 100;
  epoch_outflow = 0;
  next_strategy_id = 0;
  performance_fee_bps = 2_000;
  management_fee_bps = 100;
  status = normal;
  bump = 254;
  version = 1;
  deposit_paused = 0;
  withdrawal_paused = 0;
  min_deposit = 10;
  min_withdrawal_shares = 5;
  fee_effective_ts = pos 0;
  pending_performance_fee_bps = 0;
  pending_management_fee_bps = 0;
  open_strategy_count = 0;
}

abbrev pub report : NavUpdateArgs
report = record {
  total_assets = 110_000_000;
  share_supply = 99_000_000;
  platform_performance_fee_bps = 500;
  platform_management_fee_bps = 50;
  max_nav_deviation_bps = some 1_500;
  now = pos 144_000;
}

abbrev pub updated : Vault
updated = record running {
  total_assets = 110_000_000;
  nav_per_share = 1_083_252_227;
  high_water_mark = 1_083_252_227;
  nav_epoch = 10;
  last_nav_ts = pos 144_000;
  unclaimed_manager_fee_shares = 2_035_945;
  unclaimed_platform_fee_shares = 510_119;
}

abbrev pub accrued : NavFeeShares
accrued = record { manager_fee_shares = 2_035_445; platform_fee_shares = 510_019 }

pub running-updated : update_nav running report ≡ ok (updated, accrued)
unfolding update_nav validate counted_supply settle accrue assess_fees record_nav safe_add safe_sub
    safe_mul safe_div safe_to_u64 saturating_sub_i64 cast_unsigned management_fee performance_fee
    validate_nav_deviation check_deviation eligible_profit party_fee fee_shares dilute diluted_nav
    apply_pending_fees epoch new ◌-ℤ◌
running-updated = refl

pub updated-IsSolvent : IsSolvent updated 99_000_000
updated-IsSolvent = omega arith

update_nav-IsSolvent_example : IsSolvent updated 99_000_000
unfolding epoch
update_nav-IsSolvent_example = update_nav-IsSolvent running report running-updated

pub running-IsValid : IsValid running
running-IsValid = record {
  under_mark = omega arith;
  mark_floor = omega arith;
  performance = omega arith;
  management = omega arith;
  pending_performance = omega arith;
  pending_management = omega arith;
  stamped = inl refl;
}

update_nav-IsValid_example : IsValid updated × (nav_precision ≤ 1_083_252_227)
update_nav-IsValid_example = update_nav-IsValid running report running-IsValid running-updated

update_nav_once_example :
    update_nav updated (record report { now = pos 158_399 })
    ≡ err (custom nav_already_updated_this_epoch)
unfolding epoch
update_nav_once_example =
    update_nav_once running report (record report { now = pos 158_399 }) running-updated refl

update_nav_deviation_example :
    (1_083_252_227 * max_bps ≤ nav_precision * (max_bps + 1_500))
    × (nav_precision * max_bps ≤ 1_083_252_227 * max_bps + nav_precision * 1_500)
update_nav_deviation_example =
    update_nav_deviation running report 1_500 refl (omega arith) running-updated

dilute-Diluted_example : Diluted 110_000_000 100_000_000 2_000_000 500_000 1_860_465 465_116
unfolding dilute validate safe_add safe_sub fee_shares safe_mul safe_div
dilute-Diluted_example = dilute-Diluted 110_000_000 100_000_000 2_000_000 500_000 refl
