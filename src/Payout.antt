-- ===== src/Payout.antt =====
-- utils/payout.rs, utils/token.rs and utils/system.rs: the rent that a request holds for the account
-- of its payout, the check of a deposit mint's extensions, and the closing of an account.
use programs.Prelude.{
  ℕ, ◌+◌, ◌-◌, ◌^◌, Bool, true, false, not, Option, none, some, List, [], ◌∷◌, ltb, ◌==◌, max_of,
  min_of, if◌then◌else◌,
}
use programs.Errors.{
  Result, ok, err, custom, panicked, ◌>>=◌, ◌>>◌, validate, invalid_deposit_mint_extension,
}
use programs.Vault.{Pubkey}
use programs.Runtime.{
  Runtime, Ledger, MintExtension, update, transfer_fee_config, transfer_hook, default_account_state,
  mint_close_authority, confidential_transfer_mint, confidential_transfer_fee_config,
  interest_bearing_config, permanent_delegate, metadata_pointer, token_metadata, group_pointer,
  token_group, group_member_pointer, token_group_member, unsupported,
}

-- `spl_token::state::Account::LEN`, the classic 165 bytes
abbrev account_len : ℕ
account_len = 165

abbrev or_extension_error {ℓ} : {A : Type ℓ} → Option A → Result A
or_extension_error none = err (custom invalid_deposit_mint_extension)
or_extension_error (some a) = ok a

abbrev is_none {ℓ} : {A : Type ℓ} → Option A → Bool
is_none none = true
is_none (some a) = false

-- One round of the loop in `check_deposit_mint_extensions`.
unfoldable pub check_extension : MintExtension → ℕ → Result (Unit {0})
unfolding validate
check_extension (transfer_fee_config fee_bps) epoch =
    validate (fee_bps epoch == 0) invalid_deposit_mint_extension
check_extension (transfer_hook program) epoch =
    validate (is_none program) invalid_deposit_mint_extension
check_extension (default_account_state frozen) epoch =
    validate (not frozen) invalid_deposit_mint_extension
check_extension mint_close_authority epoch = ok tt
check_extension confidential_transfer_mint epoch = ok tt
check_extension confidential_transfer_fee_config epoch = ok tt
check_extension interest_bearing_config epoch = ok tt
check_extension permanent_delegate epoch = ok tt
check_extension metadata_pointer epoch = ok tt
check_extension token_metadata epoch = ok tt
check_extension group_pointer epoch = ok tt
check_extension token_group epoch = ok tt
check_extension group_member_pointer epoch = ok tt
check_extension token_group_member epoch = ok tt
check_extension unsupported epoch = err (custom invalid_deposit_mint_extension)

unfoldable pub check_each : List MintExtension → ℕ → Result (Unit {0})
check_each [] epoch = ok tt
check_each (x ∷ xs) epoch = check_extension x epoch >> check_each xs epoch

unfoldable pub check_deposit_mint_extensions : Option (List MintExtension) → ℕ → Result (Unit {0})
check_deposit_mint_extensions mint epoch = do
  extension_types ← or_extension_error mint
  check_each extension_types epoch

-- Moves lamports between accounts that the program holds. An overflow panics.
unfoldable pub move_lamports : (from to : Pubkey) → ℕ → Ledger → Result Ledger
move_lamports from to drawn l =
    let less = update l.lamports from (l.lamports from - drawn) in
    if ltb (less to + drawn) (2 ^ 64)
    then ok (record l { lamports = update less to (less to + drawn) })
    else err panicked

-- `close`: the account's lamports go to the destination, and its data is gone.
unfoldable pub close : (info sol_destination : Pubkey) → Ledger → Result Ledger
close info sol_destination l =
    if ltb (l.lamports sol_destination + l.lamports info) (2 ^ 64)
    then ok (record l {
      lamports =
          update (update l.lamports sol_destination (l.lamports sol_destination + l.lamports info))
            info 0;
      has_data = update l.has_data info false;
    })
    else err panicked

module _ (rt : Runtime) where
  unfoldable pub validate_deposit_mint_extensions : Ledger → Pubkey → ℕ → Result (Unit {0})
  validate_deposit_mint_extensions l mint epoch =
      if not (l.owner mint == rt.token_2022_id)
      then ok tt
      else check_deposit_mint_extensions (l.extensions mint) epoch

  unfoldable pub payout_account_len : Ledger → Pubkey → Result ℕ
  payout_account_len l mint = if not (l.owner mint == rt.token_2022_id) then ok account_len else (do
    extensions ← or_extension_error (l.extensions mint)
    or_extension_error (rt.extended_account_len extensions))

  -- The lamports escrowed, and the ledger after the transfer.
  unfoldable pub escrow_payout_rent :
      (payer request share_mint deposit_mint : Pubkey) → Ledger → Result (ℕ × Ledger)
  escrow_payout_rent payer request share_mint deposit_mint l = do
    a ← payout_account_len l share_mint
    b ← payout_account_len l deposit_mint
    let escrow = max_of (rt.minimum_balance a) (rt.minimum_balance b)
    l' ← rt.transfer payer request escrow l
    ok (escrow, l')

  -- The lamports drawn from the escrow, and the ledger with the payout account.
  unfoldable pub create_payout_account :
      (payer payout authority mint token_program escrow : Pubkey) → ℕ → Ledger → Result (ℕ × Ledger)
  create_payout_account payer payout authority mint token_program escrow escrow_lamports l =
      if l.has_data payout then ok (0, l) else (do
        len ← payout_account_len l mint
        let funded = rt.minimum_balance len - l.lamports payout
        l' ← rt.create_idempotent payer payout authority mint token_program l
        let drawn = min_of (min_of funded escrow_lamports) (l'.lamports escrow)
        l'' ← move_lamports escrow payer drawn l'
        ok (drawn, l''))
