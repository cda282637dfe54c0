-- ===== src/Seeds.antt =====
-- utils/seeds.rs and the address check of utils/validate.rs: the seeds of each derived address, as
-- byte strings.
use Prim.Native.Char.{code}
use Prim.Native.String.{String}
use programs.Prelude.{ℕ, zero, suc, ◌/◌, ◌%◌, ◌==◌, Option, none, some, List, [], ◌∷◌}
use programs.Errors.{
  HedgeVaultError, panicked, Result, err, validate, invalid_config, invalid_manager, invalid_vault,
  invalid_strategy, invalid_request,
}
use programs.Vault.{Pubkey}

abbrev pub Seed : Type 0
Seed = List ℕ

-- The bytes of an ASCII literal.
abbrev pub bytes : String → Seed
bytes String.[] = []
bytes (String.◌∷◌ c s) = code c ∷ bytes s

-- The w low bytes of a number, least first: `to_le_bytes`, and `Pubkey::as_ref` at 32.
unfoldable pub to_le_bytes : ℕ → ℕ → Seed
to_le_bytes zero n = []
to_le_bytes (suc w) n = (n % 256) ∷ to_le_bytes w (n / 256)

abbrev pub key_bytes : Pubkey → Seed
key_bytes = to_le_bytes 32

abbrev pub config_tag : Seed
config_tag = bytes "config"

abbrev pub manager_tag : Seed
manager_tag = bytes "manager"

abbrev pub vault_tag : Seed
vault_tag = bytes "vault"

abbrev pub share_mint_tag : Seed
share_mint_tag = bytes "share_mint"

abbrev pub deposit_escrow_tag : Seed
deposit_escrow_tag = bytes "deposit_escrow"

abbrev pub share_escrow_tag : Seed
share_escrow_tag = bytes "share_escrow"

abbrev pub strategy_tag : Seed
strategy_tag = bytes "strategy"

abbrev pub deposit_request_tag : Seed
deposit_request_tag = bytes "deposit_request"

abbrev pub withdrawal_request_tag : Seed
withdrawal_request_tag = bytes "withdrawal_request"

unfoldable pub config_seeds : ℕ → List Seed
config_seeds bump = config_tag ∷ (bump ∷ []) ∷ []

unfoldable pub manager_seeds : Pubkey → ℕ → List Seed
manager_seeds authority bump = manager_tag ∷ key_bytes authority ∷ (bump ∷ []) ∷ []

unfoldable pub vault_seeds : ℕ → ℕ → List Seed
vault_seeds vault_id bump = vault_tag ∷ to_le_bytes 8 vault_id ∷ (bump ∷ []) ∷ []

unfoldable pub strategy_seeds : Pubkey → Pubkey → ℕ → List Seed
strategy_seeds vault protocol_account bump =
    strategy_tag ∷ key_bytes vault ∷ key_bytes protocol_account ∷ (bump ∷ []) ∷ []

unfoldable pub deposit_request_seeds : Pubkey → Pubkey → ℕ → List Seed
deposit_request_seeds vault authority bump =
    deposit_request_tag ∷ key_bytes vault ∷ key_bytes authority ∷ (bump ∷ []) ∷ []

unfoldable pub withdrawal_request_seeds : Pubkey → Pubkey → ℕ → List Seed
withdrawal_request_seeds vault authority bump =
    withdrawal_request_tag ∷ key_bytes vault ∷ key_bytes authority ∷ (bump ∷ []) ∷ []

abbrev pub key_matches : Option Pubkey → Pubkey → HedgeVaultError → Result (Unit {0})
unfolding validate
key_matches none key error = err panicked
key_matches (some pda) key error = validate (pda == key) error

-- `derive` is the runtime's `create_program_address` for this program; its failure is unwrapped.
unfoldable pub validate_pda :
    (List Seed → Option Pubkey) → List Seed → Pubkey → HedgeVaultError → Result (Unit {0})
validate_pda derive seeds key error = key_matches (derive seeds) key error

-- `Config::validate_address`, `Manager::validate_address`, `Vault::validate_address`,
-- `Strategy::validate_address`, and that of both requests.
module _ (derive : List Seed → Option Pubkey) (seeds : List Seed) (key : Pubkey) where
  abbrev pub validate_config_address : Result (Unit {0})
  validate_config_address = validate_pda derive seeds key invalid_config

  abbrev pub validate_manager_address : Result (Unit {0})
  validate_manager_address = validate_pda derive seeds key invalid_manager

  abbrev pub validate_vault_address : Result (Unit {0})
  validate_vault_address = validate_pda derive seeds key invalid_vault

  abbrev pub validate_strategy_address : Result (Unit {0})
  validate_strategy_address = validate_pda derive seeds key invalid_strategy

  abbrev pub validate_request_address : Result (Unit {0})
  validate_request_address = validate_pda derive seeds key invalid_request
