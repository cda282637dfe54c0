-- ===== src/System/Tests/Deposits.antt =====
-- A deposit resolved, and one taken back.
use programs.Prelude.{◌≡◌, ◌⊎◌, refl, arith, [], ◌∷◌}
use programs.Errors.{
  ok, err, custom, validate, constraint, request_not_resolvable, request_not_cancellable,
}
use programs.SafeMath.{safe_add, safe_sub, safe_mul, safe_div, safe_to_u64}
use programs.Accounts.{lookup, insert, erase}
use programs.Vault.{
  validate_deposit_mint, validate_share_mint, is_vault_operational, validate_deposit_not_paused,
}
use programs.Vault.Requests.{resolve_deposit, shares_for}
use programs.Config.{is_protocol_operational}
use programs.DepositRequest
use programs.DepositRequest.{DepositRequest}
use programs.Seeds.{to_le_bytes, validate_pda, config_seeds, vault_seeds, deposit_request_seeds}
use programs.Payout.{create_payout_account, close}
use programs.World.{World, load_config, load_vault}
use programs.Instructions.Deposits.{
  DepositRequestResolve, deposit_request_resolve, check_deposit_request,
}
use programs.System.Phases.{deposit_phases}
use programs.System.Guards.{
  DepositResolvable, DepositCancellable, deposit_request_resolve-DepositResolvable,
  deposit_request_cancel-DepositCancellable,
}
use programs.System.Tests.{rt, vault, before, request_key, request_of, with_request, cancel, closed}
use programs.System.Tests.Runs.{taken_back}
use programs.System.Tests.Addresses.{spelled, derived}

deposit_phases_example :
    ((DepositRequest.is_resolvable (request_of 100) 4 ≡ ok tt)
      × (DepositRequest.is_cancellable (request_of 100) 4 5 ≡ err (custom request_not_cancellable)))
    ⊎ ((DepositRequest.is_resolvable (request_of 100) 4 ≡ err (custom request_not_resolvable))
        × (DepositRequest.is_cancellable (request_of 100) 4 5 ≡ ok tt))
deposit_phases_example = deposit_phases (request_of 100) 4 5 (omega arith)

-- The world once a NAV was posted in epoch 4.
abbrev due : World
due = record (with_request 150) {
  vaults = (254, record vault { pending_deposits = 150; nav_epoch = 4 }) ∷ [];
}

abbrev resolve : DepositRequestResolve
resolve = record {
  resolver = 99;
  config = 253;
  vault = 254;
  depositor = 77;
  deposit_request = request_key;
  deposit_mint = 12;
  share_mint = 13;
  depositor_share_token_account = 90;
  vault_token_account = 266;
  deposit_escrow = 254;
  deposit_mint_token_program = 2;
}

abbrev bought : World
bought = record before {
  vaults = (254, record vault { nav_epoch = 4; total_assets = 150 }) ∷ [];
  ledger = closed;
}

resolved : deposit_request_resolve rt resolve due ≡ ok bought
unfolding deposit_request_resolve create_payout_account validate constraint safe_add safe_sub
    safe_mul safe_div safe_to_u64 lookup insert erase validate_deposit_mint validate_share_mint
    is_protocol_operational is_vault_operational validate_deposit_not_paused check_deposit_request
    DepositRequest.validate_authority DepositRequest.validate_vault DepositRequest.is_resolvable
    resolve_deposit shares_for close to_le_bytes validate_pda config_seeds vault_seeds
    deposit_request_seeds load_config load_vault spelled derived
resolved = refl

deposit_request_resolve-DepositResolvable_example : DepositResolvable due resolve
deposit_request_resolve-DepositResolvable_example =
    deposit_request_resolve-DepositResolvable rt resolve due resolved

deposit_request_cancel-DepositCancellable_example : DepositCancellable (with_request 150) cancel
deposit_request_cancel-DepositCancellable_example =
    deposit_request_cancel-DepositCancellable rt cancel (with_request 150) taken_back
