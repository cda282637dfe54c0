-- ===== src/System/Tests/Runs.antt =====
-- The three instructions on a deposit in turn, and the books after them.
use programs.Prelude.{◌-◌, ◌≡◌, refl, arith}
use programs.Errors.{ok, validate, constraint}
use programs.SafeMath.{safe_add, safe_sub}
use programs.Accounts.{lookup, insert, erase, total}
use programs.Vault.{
  epoch, validate_deposit_mint, validate_share_mint, is_vault_operational,
  validate_deposit_not_paused,
}
use programs.Vault.Requests.{request_deposit, cancel_deposit}
use programs.Config.{is_protocol_operational}
use programs.DepositRequest
use programs.DepositRequest.{DepositRequest}
use programs.Seeds.{
  to_le_bytes, validate_pda, config_seeds, vault_seeds, deposit_request_seeds, deposit_request_tag,
  withdrawal_request_tag,
}
use programs.Payout.{
  validate_deposit_mint_extensions, payout_account_len, escrow_payout_rent, close,
}
use programs.World.{World, load_config, load_vault, init_token_account}
use programs.Instructions.Deposits.{
  init_deposit_request, prepare_deposit_request, deposit_request_create, check_deposit_request,
  deposit_request_cancel,
}
use programs.System.Balanced.{IsSigner, IsBalanced}
use programs.Entry
use programs.Entry.{process}
use programs.System.Steps.{Step, Run, stop, step}
use programs.System.Steps.Invariant.{Step-IsBalanced, Run-IsBalanced}
use programs.Prelude.{some}
use programs.System.Ledgers.{apply, operation, settle_deposit, view}
use programs.System.Steps.Refinement.{process-Refines}
use programs.System.Steps.Covered.{cancel_deposit-covered}
use programs.System.Tests.Addresses.{spelled, derived, derived-Collisionless}
use programs.System.Tests.{
  rt, dlmm, vault, before, request_key, request_of, with_request, clock, create, cancel, closed,
}

created : deposit_request_create rt create clock 100 before ≡ ok (with_request 100)
unfolding deposit_request_create init_deposit_request prepare_deposit_request validate constraint
    safe_add lookup insert epoch validate_deposit_mint validate_share_mint is_vault_operational
    validate_deposit_not_paused request_deposit is_protocol_operational DepositRequest.new
    DepositRequest.add to_le_bytes validate_pda config_seeds vault_seeds deposit_request_seeds
    validate_deposit_mint_extensions payout_account_len escrow_payout_rent load_config load_vault
    spelled derived
created = refl

added_to : deposit_request_create rt create clock 50 (with_request 100) ≡ ok (with_request 150)
unfolding deposit_request_create init_deposit_request prepare_deposit_request validate constraint
    safe_add lookup insert epoch validate_deposit_mint validate_share_mint is_vault_operational
    validate_deposit_not_paused request_deposit is_protocol_operational DepositRequest.new
    DepositRequest.add to_le_bytes validate_pda config_seeds vault_seeds deposit_request_seeds
    validate_deposit_mint_extensions payout_account_len escrow_payout_rent load_config load_vault
    spelled derived
added_to = refl

abbrev after : World
after = record before { ledger = closed }

pub taken_back : deposit_request_cancel rt cancel (with_request 150) ≡ ok after
unfolding deposit_request_cancel init_token_account validate constraint safe_sub lookup insert erase
    validate_deposit_mint check_deposit_request DepositRequest.validate_authority
    DepositRequest.validate_vault DepositRequest.is_cancellable cancel_deposit close to_le_bytes
    validate_pda vault_seeds deposit_request_seeds load_vault spelled derived
taken_back = refl

pub before-IsBalanced : IsBalanced rt before
unfolding lookup total
before-IsBalanced = record {
  deposits = λ k. ground arith;
  shares = λ k. ground arith;
  strategies = λ k. ground arith;
  deposits_filed = tt;
  withdrawals_filed = tt;
}

pub depositor-IsSigner : IsSigner 77
depositor-IsSigner = record { key = omega arith; signs = λ e. omega arith }

before-Step : Step rt before (with_request 100)
unfolding process
before-Step = record {
  dlmm = dlmm;
  clock = clock;
  instruction = Entry.deposit_request_create create 100;
  signed = (omega arith, depositor-IsSigner);
  succeeds = created;
}

with_request-IsBalanced : IsBalanced rt (with_request 100)
with_request-IsBalanced =
    Step-IsBalanced rt (derived-Collisionless deposit_request_tag)
      (derived-Collisionless withdrawal_request_tag) before-IsBalanced before-Step

added-Step : Step rt (with_request 100) (with_request 150)
unfolding process
added-Step = record {
  dlmm = dlmm;
  clock = clock;
  instruction = Entry.deposit_request_create create 50;
  signed = (omega arith, depositor-IsSigner);
  succeeds = added_to;
}

taken-Step : Step rt (with_request 150) after
unfolding process
taken-Step = record {
  dlmm = dlmm;
  clock = clock;
  instruction = Entry.deposit_request_cancel cancel;
  signed = tt;
  succeeds = taken_back;
}

before-Run : Run rt before after
before-Run = step before-Step (step added-Step (step taken-Step stop))

Run-IsBalanced_example : IsBalanced rt after
Run-IsBalanced_example =
    Run-IsBalanced rt (derived-Collisionless deposit_request_tag)
      (derived-Collisionless withdrawal_request_tag) before-IsBalanced before-Run

cancel_deposit-covered_example :
    cancel_deposit (record vault { pending_deposits = 100 }) 100
    ≡ ok (record vault { pending_deposits = 100 - 100 })
unfolding lookup
cancel_deposit-covered_example =
    cancel_deposit-covered rt (with_request 100) request_key (request_of 100)
      (record vault { pending_deposits = 100 }) with_request-IsBalanced refl refl

process-Refines_example :
    apply (settle_deposit 254 150) (view (with_request 150)) ≡ some (view after)
unfolding process lookup operation
process-Refines_example =
    process-Refines rt dlmm clock (Entry.deposit_request_cancel cancel) (with_request 150) after tt
      taken_back
