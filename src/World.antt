-- ===== src/World.antt =====
-- The state that an instruction runs on: the program's accounts by address, and the ledger of the
-- programs that it calls. An instruction returns the new state or an error, and after an error the
-- runtime keeps the old state.
use programs.Prelude.{ℕ, Option, none, some, List, [], ◌∷◌, if◌then◌else◌}
use programs.Errors.{Result, ok, err, ◌>>=◌, ◌>>◌, constraint_violation}
use programs.Accounts.{lookup, insert}
use programs.Vault.{Pubkey, Vault}
use programs.Config.{Config}
use programs.Manager.{Manager}
use programs.DepositRequest.{DepositRequest}
use programs.WithdrawalRequest.{WithdrawalRequest}
use programs.Strategy.{Strategy}
use programs.Runtime.{Runtime, Ledger}
use programs.Seeds.{
  config_seeds, vault_seeds, validate_config_address, validate_vault_address, key_bytes,
  deposit_escrow_tag, share_escrow_tag, deposit_request_tag, withdrawal_request_tag,
}

pub record World : Type 0 where
  pub configs : List (ℕ × Config)
  pub managers : List (ℕ × Manager)
  pub vaults : List (ℕ × Vault)
  pub deposit_requests : List (ℕ × DepositRequest)
  pub withdrawal_requests : List (ℕ × WithdrawalRequest)
  pub strategies : List (ℕ × Strategy)
  pub ledger : Ledger

abbrev pub or_violation {ℓ} : {A : Type ℓ} → Option A → Result A
or_violation none = err constraint_violation
or_violation (some a) = ok a

-- An account of the program's that is passed to an instruction: the framework checks that the program
-- owns it and that it is of the expected type.
abbrev pub load {ℓ} : {A : Type ℓ} → List (ℕ × A) → Pubkey → Result A
load m key = or_violation (lookup key m)

abbrev pub set_vault : World → Pubkey → Vault → World
set_vault w key v = record w { vaults = insert key v w.vaults }

abbrev pub set_config : World → Pubkey → Config → World
set_config w key c = record w { configs = insert key c w.configs }

module _ (rt : Runtime) where
  -- `init_if_needed` on an associated token account.
  unfoldable pub init_token_account :
      (payer account authority mint token_program : Pubkey) → Ledger → Result Ledger
  init_token_account payer account authority mint token_program l =
      if l.has_data account
      then ok l
      else rt.create_idempotent payer account authority mint token_program l

  -- How every handler begins with the configuration, and with the vault.
  unfoldable pub load_config : World → Pubkey → Result Config
  load_config w key = do
    config ← load w.configs key
    validate_config_address rt.create_program_address (config_seeds config.bump) key
    ok config

  unfoldable pub load_vault : World → Pubkey → Result Vault
  load_vault w key = do
    vault ← load w.vaults key
    validate_vault_address rt.create_program_address (vault_seeds vault.id vault.bump) key
    ok vault

  -- The derived addresses of a vault's escrows and of its requests, with their bumps.
  abbrev pub deposit_escrow_of : Pubkey → Pubkey
  deposit_escrow_of vault = (rt.find_program_address (deposit_escrow_tag ∷ key_bytes vault ∷ [])).0

  abbrev pub share_escrow_of : Pubkey → Pubkey
  share_escrow_of vault = (rt.find_program_address (share_escrow_tag ∷ key_bytes vault ∷ [])).0

  abbrev pub deposit_request_of : Pubkey → Pubkey → Pubkey × ℕ
  deposit_request_of vault authority =
      rt.find_program_address (deposit_request_tag ∷ key_bytes vault ∷ key_bytes authority ∷ [])

  abbrev pub withdrawal_request_of : Pubkey → Pubkey → Pubkey × ℕ
  withdrawal_request_of vault authority =
      rt.find_program_address (withdrawal_request_tag ∷ key_bytes vault ∷ key_bytes authority ∷ [])
