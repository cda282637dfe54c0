-- ===== src/Vault/Tests/Settlement.antt =====
-- Runs of the requests, the fee schedule and the fee claims, on the vault after its first update.
use programs.Prelude.{ℕ, ◌+◌, ◌*◌, ◌^◌, ◌≤◌, ◌<◌, ◌≡◌, refl, arith, none, some}
use programs.Prelude.Int.{pos, ◌+ℤ◌}
use programs.Constants.{nav_precision, fee_increase_delay}
use programs.Errors.{ok, err, custom, validate}
use programs.SafeMath.{safe_add, safe_sub, safe_mul, safe_div, safe_to_u64, safe_add_i64}
use programs.Vault.{Vault}
use programs.Vault.Fees.{update_fees, apply_pending_fees, claim_manager_fee}
use programs.Vault.Invariant.{IsValid, IsSolvent}
use programs.Vault.Nav.Update.{update_nav-IsValid}
use programs.Vault.Fees.Schedule.{
  update_fees_schedules, update_fees-IsValid, fee_update_arrives, fee_increase_waits,
  claim_manager_fee_once,
}
use programs.Vault.Requests.Conversion.{
  resolve_deposit-IsSolvent, resolve_withdrawal-IsSolvent, deposit_round_trip,
  resolve_withdrawal_total,
}
use programs.Vault.Requests.Accounting.{
  request_deposit_iff, request_withdrawal_iff, cancel_deposit-request_deposit,
}
use programs.Errors.{no_fee_to_claim}
use programs.Prelude.{◌↔◌, ◌⊎◌}
use programs.Vault.Requests.{
  request_deposit, cancel_deposit, shares_for, resolve_deposit, request_withdrawal, amount_for,
  outflow_cap, resolve_withdrawal,
}
use programs.Vault.Tests.{
  running, report, updated, running-updated, running-IsValid, updated-IsSolvent,
}

-- Requests and their settlement

abbrev joined : Vault
joined = record updated { pending_deposits = 3_000_000; total_assets = 112_000_000 }

updated-joined : resolve_deposit updated 2_000_000 ≡ ok (joined, 1_846_292)
unfolding resolve_deposit validate shares_for safe_add safe_sub safe_mul safe_div safe_to_u64
updated-joined = refl

resolve_deposit-IsSolvent_example : IsSolvent joined (99_000_000 + 1_846_292)
resolve_deposit-IsSolvent_example =
    resolve_deposit-IsSolvent updated 2_000_000 99_000_000 updated-IsSolvent updated-joined

abbrev paid_out : Vault
paid_out = record updated {
  pending_withdrawal_shares = 2_000_000;
  epoch_outflow = 1_083_252;
  total_assets = 108_916_748;
}

updated-paid_out : resolve_withdrawal updated 1_000_000 500 ≡ ok (paid_out, 1_083_252)
unfolding resolve_withdrawal amount_for outflow_cap safe_add safe_sub safe_mul safe_div safe_to_u64
updated-paid_out = refl

resolve_withdrawal-IsSolvent_example : IsSolvent paid_out 98_000_000
resolve_withdrawal-IsSolvent_example =
    resolve_withdrawal-IsSolvent updated 1_000_000 500 98_000_000 updated-IsSolvent updated-paid_out

resolve_withdrawal_total_example :
    (w : Vault) × (amount : ℕ) × (resolve_withdrawal updated 1_000_000 500 ≡ ok (w, amount))
resolve_withdrawal_total_example =
    resolve_withdrawal_total updated 1_000_000 500 98_000_000 updated-IsSolvent (omega arith)
      (omega arith) (omega arith) (omega arith) (omega arith)

deposit_round_trip_example :
    (1_999_999 ≤ 2_000_000)
    × (2_000_000 * nav_precision < 1_999_999 * nav_precision + nav_precision + 1_083_252_227)
unfolding shares_for amount_for safe_mul safe_div safe_to_u64
deposit_round_trip_example = deposit_round_trip 2_000_000 1_083_252_227 refl refl

request_deposit_iff_example :
    (request_deposit updated 4_000_000 ≡ ok (record updated { pending_deposits = 9_000_000 })) ↔ (
      (0 < 1_083_252_227)
      × (10 ≤ 4_000_000)
      × (110_000_000 + (5_000_000 + 4_000_000) ≤ 1_000_000_000)
      × (110_000_000 + (5_000_000 + 4_000_000) < 2 ^ 64)
      × (record updated { pending_deposits = 9_000_000 }
          ≡ record updated { pending_deposits = 5_000_000 + 4_000_000 }))
request_deposit_iff_example =
    request_deposit_iff updated (record updated { pending_deposits = 9_000_000 }) 4_000_000

cancel_deposit-request_deposit_example :
    cancel_deposit (record updated { pending_deposits = 9_000_000 }) 4_000_000 ≡ ok updated
unfolding request_deposit validate safe_add
cancel_deposit-request_deposit_example = cancel_deposit-request_deposit updated 4_000_000 refl

-- The whole balance of the one who asks.
abbrev three : ℕ
three = 3

request_withdrawal_iff_example :
    (request_withdrawal updated 3 3 ≡ ok (record updated { pending_withdrawal_shares = 3_000_003 }))
    ↔ (((5 ≤ 3) ⊎ (three ≡ 3))
        × (3_000_000 + 3 < 2 ^ 64)
        × (record updated { pending_withdrawal_shares = 3_000_003 }
            ≡ record updated { pending_withdrawal_shares = 3_000_000 + 3 }))
request_withdrawal_iff_example =
    request_withdrawal_iff updated (record updated { pending_withdrawal_shares = 3_000_003 }) 3 3

-- Fees

abbrev raised : Vault
raised = record updated {
  pending_performance_fee_bps = 2_500;
  pending_management_fee_bps = 100;
  fee_effective_ts = pos 748_900;
}

updated-raised : update_fees updated (some 2_500) none (pos 144_100) ≡ ok raised
unfolding update_fees validate safe_add_i64 ◌+ℤ◌
updated-raised = refl

update_fees_schedules_example :
    (2_000 ≤ 2_000)
    × (100 ≤ 100)
    × ((raised.fee_effective_ts ≡ pos 0)
        ⊎ ((raised.fee_effective_ts ≡ pos 144_100 +ℤ fee_increase_delay)
            × (raised.performance_fee_bps ≡ 2_000)
            × (raised.management_fee_bps ≡ 100)))
update_fees_schedules_example =
    update_fees_schedules updated (some 2_500) none (pos 144_100) updated-raised

update_fees-IsValid_example : IsValid raised
update_fees-IsValid_example =
    update_fees-IsValid updated (some 2_500) none (pos 144_100)
      (update_nav-IsValid running report running-IsValid running-updated).0 updated-raised

fee_increase_waits_example :
    ((apply_pending_fees raised (pos 700_000)).performance_fee_bps ≤ 2_000)
    × ((apply_pending_fees raised (pos 700_000)).management_fee_bps ≤ 100)
unfolding ◌+ℤ◌
fee_increase_waits_example =
    fee_increase_waits updated (some 2_500) none (pos 144_100) (pos 700_000) updated-raised
      (λ late. omega arith)

updated-asked : update_fees updated (some 2_500) (some 100) (pos 144_100) ≡ ok raised
unfolding update_fees validate safe_add_i64 ◌+ℤ◌
updated-asked = refl

fee_update_arrives_example :
    ((apply_pending_fees raised (pos 750_000)).performance_fee_bps ≡ 2_500)
    × ((apply_pending_fees raised (pos 750_000)).management_fee_bps ≡ 100)
    × ((apply_pending_fees raised (pos 750_000)).fee_effective_ts ≡ pos 0)
unfolding ◌+ℤ◌
fee_update_arrives_example =
    fee_update_arrives updated 2_500 100 (pos 144_100) (pos 750_000) updated-asked
      (λ zero_due. ground arith) (omega arith)

claim_manager_fee_once_example :
    (updated.unclaimed_manager_fee_shares ≡ 2_035_945)
    × (record updated { unclaimed_manager_fee_shares = 0 }
        ≡ record updated { unclaimed_manager_fee_shares = 0 })
    × (claim_manager_fee (record updated { unclaimed_manager_fee_shares = 0 })
        ≡ err (custom no_fee_to_claim))
    × IsSolvent (record updated { unclaimed_manager_fee_shares = 0 }) (99_000_000 + 2_035_945)
unfolding claim_manager_fee validate
claim_manager_fee_once_example = claim_manager_fee_once updated 99_000_000 updated-IsSolvent refl
