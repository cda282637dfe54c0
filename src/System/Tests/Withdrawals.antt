-- ===== src/System/Tests/Withdrawals.antt =====
-- A withdrawal resolved, and one taken back.
use programs.Prelude.{ℕ, ◌-◌, ◌≡◌, refl, arith, [], ◌∷◌}
use programs.Prelude.Int.{pos}
use programs.Errors.{ok, validate, constraint}
use programs.SafeMath.{safe_add, safe_sub, safe_mul, safe_div, safe_to_u64}
use programs.Accounts.{lookup, insert, erase, total}
use programs.Vault.{
  validate_deposit_mint, validate_share_mint, is_vault_withdrawable, validate_withdrawal_not_paused,
}
use programs.Vault.Requests.{cancel_withdrawal, resolve_withdrawal, amount_for, outflow_cap}
use programs.Config.{is_protocol_withdrawable}
use programs.WithdrawalRequest
use programs.WithdrawalRequest.{WithdrawalRequest}
use programs.Seeds.{to_le_bytes, validate_pda, config_seeds, vault_seeds, withdrawal_request_seeds}
use programs.Payout.{create_payout_account, close}
use programs.World.{World, load_config, load_vault, init_token_account}
use programs.Instructions.Withdrawals.{
  WithdrawalRequestResolve, withdrawal_request_resolve, WithdrawalRequestCancel,
  withdrawal_request_cancel, check_withdrawal_request, pay_out,
}
use programs.System.Guards.{
  WithdrawalResolvable, WithdrawalCancellable, withdrawal_request_resolve-WithdrawalResolvable,
  withdrawal_request_cancel-WithdrawalCancellable,
}
use programs.System.Balanced.{IsBalanced}
use programs.System.Steps.Covered.{cancel_withdrawal-covered}
use programs.System.Tests.{rt, vault, before, request_key, closed}
use programs.System.Tests.Runs.{depositor-IsSigner}
use programs.System.Tests.Addresses.{spelled, derived}

-- A withdrawal of shares of the same signer.
abbrev redeemed : WithdrawalRequest
redeemed = record {
  authority = 77;
  vault = 254;
  shares = 30;
  epoch = 3;
  created_ts = pos 43_200;
  bump = 255;
  rent_escrow = 165;
}

-- The vault with assets, and 30 of its shares in a request, at an epoch.
abbrev redeeming : ℕ → World
redeeming e = record before {
  vaults =
      (254, record vault { nav_epoch = e; total_assets = 400; pending_withdrawal_shares = 30 })
      ∷ [];
  withdrawal_requests = (request_key, redeemed) ∷ [];
}

abbrev redeem : WithdrawalRequestResolve
redeem = record {
  resolver = 99;
  config = 253;
  vault = 254;
  withdrawer = 77;
  withdrawal_request = request_key;
  deposit_mint = 12;
  share_mint = 13;
  withdrawer_token_account = 89;
  vault_token_account = 266;
  share_escrow = 254;
  deposit_mint_token_program = 2;
}

abbrev paid : World
paid = record before {
  vaults = (254, record vault { nav_epoch = 4; total_assets = 370; epoch_outflow = 30 }) ∷ [];
  ledger = closed;
}

redeemed-paid : withdrawal_request_resolve rt redeem (redeeming 4) ≡ ok paid
unfolding withdrawal_request_resolve create_payout_account pay_out validate constraint safe_add
    safe_sub safe_mul safe_div safe_to_u64 lookup insert erase validate_deposit_mint
    validate_share_mint is_protocol_withdrawable is_vault_withdrawable
    validate_withdrawal_not_paused check_withdrawal_request WithdrawalRequest.validate_authority
    WithdrawalRequest.validate_vault WithdrawalRequest.is_resolvable resolve_withdrawal amount_for
    outflow_cap close to_le_bytes validate_pda config_seeds vault_seeds withdrawal_request_seeds
    load_config load_vault spelled derived
redeemed-paid = refl

withdrawal_request_resolve-WithdrawalResolvable_example : WithdrawalResolvable (redeeming 4) redeem
withdrawal_request_resolve-WithdrawalResolvable_example =
    withdrawal_request_resolve-WithdrawalResolvable rt redeem (redeeming 4) redeemed-paid

abbrev keep : WithdrawalRequestCancel
keep = record {
  withdrawer = 77;
  vault = 254;
  withdrawal_request = request_key;
  share_mint = 13;
  withdrawer_share_token_account = 90;
  share_escrow = 254;
}

abbrev kept : World
kept = record before {
  vaults = (254, record vault { nav_epoch = 3; total_assets = 400 }) ∷ [];
  ledger = closed;
}

redeeming-kept : withdrawal_request_cancel rt keep (redeeming 3) ≡ ok kept
unfolding withdrawal_request_cancel init_token_account validate constraint safe_sub lookup insert
    erase validate_share_mint check_withdrawal_request WithdrawalRequest.validate_authority
    WithdrawalRequest.validate_vault WithdrawalRequest.is_cancellable cancel_withdrawal close
    to_le_bytes validate_pda vault_seeds withdrawal_request_seeds load_vault spelled derived
redeeming-kept = refl

withdrawal_request_cancel-WithdrawalCancellable_example : WithdrawalCancellable (redeeming 3) keep
withdrawal_request_cancel-WithdrawalCancellable_example =
    withdrawal_request_cancel-WithdrawalCancellable rt keep (redeeming 3) redeeming-kept

redeeming-IsBalanced : IsBalanced rt (redeeming 3)
unfolding lookup total to_le_bytes spelled derived
redeeming-IsBalanced = record {
  deposits = λ k. ground arith;
  shares = λ k. ground arith;
  strategies = λ k. ground arith;
  deposits_filed = tt;
  withdrawals_filed =
      (record { at = refl; vault_key = omega arith; signer = depositor-IsSigner }, tt);
}

cancel_withdrawal-covered_example :
    cancel_withdrawal
      (record vault { nav_epoch = 3; total_assets = 400; pending_withdrawal_shares = 30 })
      30
    ≡ ok (record vault { nav_epoch = 3; total_assets = 400; pending_withdrawal_shares = 30 - 30 })
unfolding lookup
cancel_withdrawal-covered_example =
    cancel_withdrawal-covered rt (redeeming 3) request_key redeemed
      (record vault { nav_epoch = 3; total_assets = 400; pending_withdrawal_shares = 30 })
      redeeming-IsBalanced refl refl
