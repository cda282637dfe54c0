-- ===== src/System/Tests/Closing.antt =====
-- A vault that holds and owes nothing is closed.
use programs.Prelude.{◌≡◌, ◌+◌, refl, false, []}
use programs.Errors.{ok, validate, constraint}
use programs.Accounts.{lookup, remove}
use programs.Vault.{validate_authority, validate_deposit_mint, validate_share_mint}
use programs.Seeds.{to_le_bytes, validate_pda, vault_seeds}
use programs.Runtime.{update}
use programs.Payout.{close}
use programs.World.{World, load_vault}
use programs.Instructions.Lifecycle.{VaultClose, check_settled, close_vault_accounts, vault_close}
use programs.System.Steps.Closing.{Gone, vault_close-Gone}
use programs.System.Tests.Addresses.{spelled, derived}
use programs.System.Tests.{rt, ledger, before}
use programs.System.Tests.Runs.{before-IsBalanced}

abbrev close_accounts : VaultClose
close_accounts = record {
  authority = 11;
  vault = 254;
  deposit_mint = 12;
  share_mint = 13;
  vault_token_account = 254 + 12;
  deposit_escrow = 254;
  share_escrow = 254;
  deposit_mint_token_program = 2;
  share_token_program = 2;
}

abbrev emptied : World
emptied = record before {
  vaults = [];
  ledger = record ledger {
    lamports = update (update ledger.lamports 11 2_000) 254 0;
    has_data = update ledger.has_data 254 false;
  };
}

closes : vault_close rt close_accounts before ≡ ok emptied
unfolding vault_close validate constraint lookup remove validate_authority validate_deposit_mint
    validate_share_mint to_le_bytes validate_pda vault_seeds close load_vault check_settled
    close_vault_accounts spelled derived
closes = refl

vault_close-Gone_example : Gone before emptied close_accounts
vault_close-Gone_example =
    vault_close-Gone rt close_accounts before emptied before-IsBalanced closes
