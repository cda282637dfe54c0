-- ===== src/Instructions/Withdrawals.antt =====
-- instructions/withdrawal_request_{create,resolve,cancel,reject}.rs, in the terms of the deposits'.
use programs.Prelude.{ℕ, ◌+◌, Option, none, some, ltb, leb, ◌==◌, if◌then◌else◌}
use programs.Errors.{
  Result, ok, ◌>>=◌, ◌>>◌, validate, constraint, invalid_shares_amount, insufficient_funds,
}
use programs.Accounts.{lookup, insert, erase}
use programs.Vault
use programs.Vault.{
  Pubkey, Vault, validate_deposit_mint, validate_share_mint, is_vault_withdrawable,
  validate_withdrawal_not_paused,
}
use programs.Vault.Requests.{request_withdrawal, cancel_withdrawal, resolve_withdrawal}
use programs.Config.{default_key, is_protocol_withdrawable, validate_admin}
use programs.WithdrawalRequest
use programs.WithdrawalRequest.{
  WithdrawalRequest, add, zeroed, validate_authority, validate_vault, is_resolvable, is_cancellable,
}
use programs.Seeds.{withdrawal_request_seeds, validate_request_address}
use programs.Runtime.{Runtime, Ledger, Clock}
use programs.Payout.{escrow_payout_rent, create_payout_account, close}
use programs.World.{
  World, load, load_config, load_vault, init_token_account, share_escrow_of, withdrawal_request_of,
}

-- Discriminator and `INIT_SPACE`.
abbrev request_space : ℕ
request_space = 8 + 121

pub record WithdrawalRequestCreate : Type 0 where
  pub withdrawer : Pubkey
  pub config : Pubkey
  pub vault : Pubkey
  pub withdrawal_request : Pubkey
  pub deposit_mint : Pubkey
  pub share_mint : Pubkey
  pub withdrawer_share_token_account : Pubkey
  pub share_escrow : Pubkey

pub record WithdrawalRequestResolve : Type 0 where
  pub resolver : Pubkey
  pub config : Pubkey
  pub vault : Pubkey
  pub withdrawer : Pubkey
  pub withdrawal_request : Pubkey
  pub deposit_mint : Pubkey
  pub share_mint : Pubkey
  pub withdrawer_token_account : Pubkey
  pub vault_token_account : Pubkey
  pub share_escrow : Pubkey
  pub deposit_mint_token_program : Pubkey

pub record WithdrawalRequestCancel : Type 0 where
  pub withdrawer : Pubkey
  pub vault : Pubkey
  pub withdrawal_request : Pubkey
  pub share_mint : Pubkey
  pub withdrawer_share_token_account : Pubkey
  pub share_escrow : Pubkey

pub record WithdrawalRequestReject : Type 0 where
  pub admin : Pubkey
  pub config : Pubkey
  pub vault : Pubkey
  pub withdrawer : Pubkey
  pub withdrawal_request : Pubkey
  pub share_mint : Pubkey
  pub withdrawer_share_token_account : Pubkey
  pub share_escrow : Pubkey

module _ (rt : Runtime) where
  unfoldable pub init_withdrawal_request :
      Option WithdrawalRequest → (payer key : Pubkey) → Ledger → Result (WithdrawalRequest × Ledger)
  init_withdrawal_request (some request) payer key l = ok (request, l)
  init_withdrawal_request none payer key l = do
    l' ← rt.create_account payer key request_space l
    ok (zeroed, l')

  -- "conditionally initialize withdrawal request"
  unfoldable pub prepare_withdrawal_request :
      WithdrawalRequestCreate
      → Clock
      → WithdrawalRequest
      → Ledger
      → Result (WithdrawalRequest × Ledger)
  prepare_withdrawal_request a clock request l =
      if request.authority == default_key
      then (do
        (escrow, l') ←
            escrow_payout_rent rt a.withdrawer a.withdrawal_request a.share_mint a.deposit_mint l
        ok (
          record (WithdrawalRequest.new (record {
            authority = a.withdrawer;
            vault = a.vault;
            epoch = Vault.epoch clock.unix_timestamp;
            created_ts = clock.unix_timestamp;
            bump = (withdrawal_request_of rt a.vault a.withdrawer).1;
          })) { rent_escrow = escrow },
          l',
        ))
      else (do
        validate_request_address rt.create_program_address
            (withdrawal_request_seeds a.vault a.withdrawer request.bump) a.withdrawal_request
        ok (request, l))

  unfoldable pub withdrawal_request_create :
      WithdrawalRequestCreate → Clock → ℕ → World → Result World
  withdrawal_request_create a clock shares w = do
    constraint (a.withdrawal_request == (withdrawal_request_of rt a.vault a.withdrawer).0)
    (opened, l₁) ←
        init_withdrawal_request (lookup a.withdrawal_request w.withdrawal_requests) a.withdrawer
          a.withdrawal_request w.ledger
    constraint (
        a.withdrawer_share_token_account
        == rt.associated_token_address a.withdrawer a.share_mint rt.token_id)
    constraint (a.share_escrow == share_escrow_of rt a.vault)
    validate (ltb 0 shares) invalid_shares_amount
    config ← load_config rt w a.config
    is_protocol_withdrawable config
    vault ← load_vault rt w a.vault
    is_vault_withdrawable vault
    validate_withdrawal_not_paused vault
    validate_deposit_mint vault a.deposit_mint
    validate_share_mint vault a.share_mint
    (prepared, l₂) ← prepare_withdrawal_request a clock opened l₁
    request ← add prepared shares (Vault.epoch clock.unix_timestamp)
    vault' ← request_withdrawal vault shares (w.ledger.amount a.withdrawer_share_token_account)
    l₃ ←
        rt.transfer_checked rt.token_id a.withdrawer a.withdrawer_share_token_account a.share_mint
          a.share_escrow shares (l₂.decimals a.share_mint) l₂
    ok (record w {
      vaults = insert a.vault vault' w.vaults;
      withdrawal_requests = insert a.withdrawal_request request w.withdrawal_requests;
      ledger = l₃;
    })

  unfoldable pub check_withdrawal_request :
      WithdrawalRequest → (vault withdrawer key : Pubkey) → Result (Unit {0})
  check_withdrawal_request request vault withdrawer key = do
    validate_request_address rt.create_program_address
        (withdrawal_request_seeds vault withdrawer request.bump) key
    validate_authority request withdrawer
    validate_vault request vault

  -- The branch for a payout that is not zero: the account it goes to, and the transfer.
  unfoldable pub pay_out : WithdrawalRequestResolve → WithdrawalRequest → ℕ → Ledger → Result Ledger
  pay_out a request amount l =
      if ltb 0 amount
      then (do
        (drawn, l₁) ←
            create_payout_account rt a.resolver a.withdrawer_token_account a.withdrawer
              a.deposit_mint a.deposit_mint_token_program a.withdrawal_request request.rent_escrow l
        rt.transfer_checked a.deposit_mint_token_program a.vault a.vault_token_account
            a.deposit_mint a.withdrawer_token_account amount (l₁.decimals a.deposit_mint) l₁)
      else ok l

  unfoldable pub withdrawal_request_resolve : WithdrawalRequestResolve → World → Result World
  withdrawal_request_resolve a w = do
    request ← load w.withdrawal_requests a.withdrawal_request
    constraint (
        a.withdrawer_token_account
        == rt.associated_token_address a.withdrawer a.deposit_mint a.deposit_mint_token_program)
    constraint (
        a.vault_token_account
        == rt.associated_token_address a.vault a.deposit_mint a.deposit_mint_token_program)
    constraint (a.share_escrow == share_escrow_of rt a.vault)
    config ← load_config rt w a.config
    is_protocol_withdrawable config
    vault ← load_vault rt w a.vault
    is_vault_withdrawable vault
    validate_withdrawal_not_paused vault
    validate_deposit_mint vault a.deposit_mint
    validate_share_mint vault a.share_mint
    check_withdrawal_request request a.vault a.withdrawer a.withdrawal_request
    is_resolvable request vault.nav_epoch
    (vault', amount) ← resolve_withdrawal vault request.shares config.max_epoch_outflow_bps
    validate (leb amount (w.ledger.amount a.vault_token_account)) insufficient_funds
    l₁ ← rt.burn rt.token_id a.share_mint a.share_escrow a.vault request.shares w.ledger
    l₂ ← pay_out a request amount l₁
    l₃ ← close a.withdrawal_request a.withdrawer l₂
    ok (record w {
      vaults = insert a.vault vault' w.vaults;
      withdrawal_requests = erase a.withdrawal_request w.withdrawal_requests;
      ledger = l₃;
    })

  unfoldable pub withdrawal_request_cancel : WithdrawalRequestCancel → World → Result World
  withdrawal_request_cancel a w = do
    request ← load w.withdrawal_requests a.withdrawal_request
    constraint (
        a.withdrawer_share_token_account
        == rt.associated_token_address a.withdrawer a.share_mint rt.token_id)
    l₁ ←
        init_token_account rt a.withdrawer a.withdrawer_share_token_account a.withdrawer
          a.share_mint rt.token_id w.ledger
    constraint (a.share_escrow == share_escrow_of rt a.vault)
    vault ← load_vault rt w a.vault
    validate_share_mint vault a.share_mint
    check_withdrawal_request request a.vault a.withdrawer a.withdrawal_request
    is_cancellable request vault.nav_epoch
    vault' ← cancel_withdrawal vault request.shares
    l₂ ←
        rt.transfer_checked rt.token_id a.vault a.share_escrow a.share_mint
          a.withdrawer_share_token_account request.shares (l₁.decimals a.share_mint) l₁
    l₃ ← close a.withdrawal_request a.withdrawer l₂
    ok (record w {
      vaults = insert a.vault vault' w.vaults;
      withdrawal_requests = erase a.withdrawal_request w.withdrawal_requests;
      ledger = l₃;
    })

  unfoldable pub withdrawal_request_reject : WithdrawalRequestReject → World → Result World
  withdrawal_request_reject a w = do
    request ← load w.withdrawal_requests a.withdrawal_request
    constraint (
        a.withdrawer_share_token_account
        == rt.associated_token_address a.withdrawer a.share_mint rt.token_id)
    constraint (a.share_escrow == share_escrow_of rt a.vault)
    config ← load_config rt w a.config
    validate_admin config a.admin
    vault ← load_vault rt w a.vault
    validate_share_mint vault a.share_mint
    check_withdrawal_request request a.vault a.withdrawer a.withdrawal_request
    vault' ← cancel_withdrawal vault request.shares
    (drawn, l₁) ←
        create_payout_account rt a.admin a.withdrawer_share_token_account a.withdrawer a.share_mint
          rt.token_id a.withdrawal_request request.rent_escrow w.ledger
    l₂ ←
        rt.transfer_checked rt.token_id a.vault a.share_escrow a.share_mint
          a.withdrawer_share_token_account request.shares (l₁.decimals a.share_mint) l₁
    l₃ ← close a.withdrawal_request a.withdrawer l₂
    ok (record w {
      vaults = insert a.vault vault' w.vaults;
      withdrawal_requests = erase a.withdrawal_request w.withdrawal_requests;
      ledger = l₃;
    })
