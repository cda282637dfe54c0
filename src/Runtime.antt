-- ===== src/Runtime.antt =====
-- What the program calls and does not implement: the runtime's address derivation and rent, the system
-- program, the token programs and the associated token program. Their state is a ledger that
-- the handlers read; their operations are fields of a record, of which nothing is assumed here.
use programs.Prelude.{ℕ, Bool, true, false, Option, List, ◌==◌, if◌then◌else◌}
use programs.Prelude.Int.{ℤ}
use programs.Errors.{Result}
use programs.Vault.{Pubkey}
use programs.Seeds.{Seed}

-- A mint's Token-2022 extensions, as `check_deposit_mint_extensions` tells them apart. The fee is a
-- number of basis points in each epoch, the hook a program or none, the default state frozen or not.
pub data MintExtension : Type 0 where
  transfer_fee_config : (ℕ → ℕ) → MintExtension
  transfer_hook : Option Pubkey → MintExtension
  default_account_state : Bool → MintExtension
  mint_close_authority confidential_transfer_mint : MintExtension
  confidential_transfer_fee_config interest_bearing_config permanent_delegate : MintExtension
  metadata_pointer token_metadata group_pointer token_group : MintExtension
  group_member_pointer token_group_member : MintExtension
  unsupported : MintExtension

-- Lamports by account; the amount of a token account; of a mint the supply, decimals, and extensions,
-- `none` where its data cannot be unpacked; mint and owner of a token account, if it is one; the program that owns an account; whether an account has
-- data, and the bytes; what the last called program returned, with its id.
pub record Ledger : Type 0 where
  pub lamports : Pubkey → ℕ
  pub amount : Pubkey → ℕ
  pub supply : Pubkey → ℕ
  pub decimals : Pubkey → ℕ
  pub owner : Pubkey → Pubkey
  pub extensions : Pubkey → Option (List MintExtension)
  pub token_account : Pubkey → Option (Pubkey × Pubkey)
  pub has_data : Pubkey → Bool
  pub account_data : Pubkey → List ℕ
  pub return_data : Option (Pubkey × List ℕ)

pub record Clock : Type 0 where
  pub epoch : ℕ
  pub unix_timestamp : ℤ

pub record AccountMeta : Type 0 where
  pub pubkey : Pubkey
  pub is_signer : Bool
  pub is_writable : Bool

-- A call of another program, with the accounts in its order.
pub record Instruction : Type 0 where
  pub program_id : Pubkey
  pub accounts : List AccountMeta
  pub instruction_data : List ℕ

pub record Runtime : Type 0 where
  pub token_id : Pubkey
  pub token_2022_id : Pubkey
  -- for this program's id
  pub create_program_address : List Seed → Option Pubkey
  pub find_program_address : List Seed → Pubkey × ℕ
  -- for another program's id
  pub find_address_under : Pubkey → List Seed → Pubkey
  -- of an owner, a mint and a token program
  pub associated_token_address : Pubkey → Pubkey → Pubkey → Pubkey
  pub minimum_balance : ℕ → ℕ
  -- `try_calculate_account_len` for the extensions that the mint's require, `ImmutableOwner` added
  pub extended_account_len : List MintExtension → Option ℕ
  -- payer, new account, space
  pub create_account : Pubkey → Pubkey → ℕ → Ledger → Result Ledger
  -- payer, new mint, decimals, authority, token program
  pub create_mint : Pubkey → Pubkey → ℕ → Pubkey → Pubkey → Ledger → Result Ledger
  -- payer, new account, mint, authority, token program
  pub create_token_account : Pubkey → Pubkey → Pubkey → Pubkey → Pubkey → Ledger → Result Ledger
  -- from, to, lamports
  pub transfer : Pubkey → Pubkey → ℕ → Ledger → Result Ledger
  -- token program, authority, from, mint, to, amount, decimals
  pub transfer_checked : Pubkey → Pubkey → Pubkey → Pubkey → Pubkey → ℕ → ℕ → Ledger → Result Ledger
  -- token program, mint, to, authority, amount
  pub mint_to : Pubkey → Pubkey → Pubkey → Pubkey → ℕ → Ledger → Result Ledger
  -- token program, mint, from, authority, amount
  pub burn : Pubkey → Pubkey → Pubkey → Pubkey → ℕ → Ledger → Result Ledger
  -- token program, account, destination, authority
  pub close_account : Pubkey → Pubkey → Pubkey → Pubkey → Ledger → Result Ledger
  -- payer, associated token account, authority, mint, token program
  pub create_idempotent : Pubkey → Pubkey → Pubkey → Pubkey → Pubkey → Ledger → Result Ledger
  -- the instruction, the accounts handed over, and the seeds of the signing address
  pub invoke_signed : Instruction → List Pubkey → List Seed → Ledger → Result Ledger
  -- the token account in the data of a Jupiter `TokenLedger`
  pub token_ledger_account : List ℕ → Result Pubkey

-- `AccountMeta::new` and `AccountMeta::new_readonly`
abbrev pub new : Pubkey → Bool → AccountMeta
new pubkey is_signer = record { pubkey = pubkey; is_signer = is_signer; is_writable = true }

abbrev pub new_readonly : Pubkey → Bool → AccountMeta
new_readonly pubkey is_signer = record {
  pubkey = pubkey;
  is_signer = is_signer;
  is_writable = false;
}

abbrev pub update {ℓ} : {A : Type ℓ} → (Pubkey → A) → Pubkey → A → Pubkey → A
update f k v j = if j == k then v else f j
