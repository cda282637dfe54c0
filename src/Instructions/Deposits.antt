-- ===== src/Instructions/Deposits.antt =====
-- instructions/deposit_request_{create,resolve,cancel,reject}.rs. Each record lists the accounts that
-- the instruction names and the code reads. An `associated_token` attribute is checked by the
-- address; log events are left out.
use programs.Prelude.{ℕ, ◌+◌, Option, none, some, ltb, ◌==◌, if◌then◌else◌}
use programs.Errors.{Result, ok, ◌>>=◌, ◌>>◌, validate, constraint, invalid_transfer_amount}
use programs.Accounts.{lookup, insert, erase}
use programs.Vault
use programs.Vault.{
  Pubkey, Vault, validate_deposit_mint, validate_share_mint, is_vault_operational,
  validate_deposit_not_paused,
}
use programs.Vault.Requests.{request_deposit, cancel_deposit, resolve_deposit}
use programs.Config.{default_key, is_protocol_operational, validate_admin}
use programs.DepositRequest
use programs.DepositRequest.{
  DepositRequest, add, zeroed, validate_authority, validate_vault, is_resolvable, is_cancellable,
}
use programs.Seeds.{deposit_request_seeds, validate_request_address}
use programs.Runtime.{Runtime, Ledger, Clock}
use programs.Payout.{
  validate_deposit_mint_extensions, escrow_payout_rent, create_payout_account, close,
}
use programs.World.{
  World, load, load_config, load_vault, init_token_account, deposit_escrow_of, deposit_request_of,
}

-- Discriminator and `INIT_SPACE`.
abbrev request_space : ℕ
request_space = 8 + 121

pub record DepositRequestCreate : Type 0 where
  pub depositor : Pubkey
  pub config : Pubkey
  pub vault : Pubkey
  pub deposit_request : Pubkey
  pub deposit_mint : Pubkey
  pub share_mint : Pubkey
  pub depositor_token_account : Pubkey
  pub deposit_escrow : Pubkey
  pub deposit_mint_token_program : Pubkey

pub record DepositRequestResolve : Type 0 where
  pub resolver : Pubkey
  pub config : Pubkey
  pub vault : Pubkey
  pub depositor : Pubkey
  pub deposit_request : Pubkey
  pub deposit_mint : Pubkey
  pub share_mint : Pubkey
  pub depositor_share_token_account : Pubkey
  pub vault_token_account : Pubkey
  pub deposit_escrow : Pubkey
  pub deposit_mint_token_program : Pubkey

pub record DepositRequestCancel : Type 0 where
  pub depositor : Pubkey
  pub vault : Pubkey
  pub deposit_request : Pubkey
  pub deposit_mint : Pubkey
  pub depositor_token_account : Pubkey
  pub deposit_escrow : Pubkey
  pub deposit_mint_token_program : Pubkey

pub record DepositRequestReject : Type 0 where
  pub admin : Pubkey
  pub config : Pubkey
  pub vault : Pubkey
  pub depositor : Pubkey
  pub deposit_request : Pubkey
  pub deposit_mint : Pubkey
  pub depositor_token_account : Pubkey
  pub deposit_escrow : Pubkey
  pub deposit_mint_token_program : Pubkey

module _ (rt : Runtime) where
  -- `init_if_needed` on a request: an account that is not there is created, and reads as zeros.
  unfoldable pub init_deposit_request :
      Option DepositRequest → (payer key : Pubkey) → Ledger → Result (DepositRequest × Ledger)
  init_deposit_request (some request) payer key l = ok (request, l)
  init_deposit_request none payer key l = do
    l' ← rt.create_account payer key request_space l
    ok (zeroed, l')

  -- "conditionally initialize deposit request"
  unfoldable pub prepare_deposit_request :
      DepositRequestCreate → Clock → DepositRequest → Ledger → Result (DepositRequest × Ledger)
  prepare_deposit_request a clock request l =
      if request.authority == default_key
      then (do
        (escrow, l') ←
            escrow_payout_rent rt a.depositor a.deposit_request a.share_mint a.deposit_mint l
        ok (
          record (DepositRequest.new (record {
            authority = a.depositor;
            vault = a.vault;
            epoch = Vault.epoch clock.unix_timestamp;
            created_ts = clock.unix_timestamp;
            bump = (deposit_request_of rt a.vault a.depositor).1;
          })) { rent_escrow = escrow },
          l',
        ))
      else (do
        validate_request_address rt.create_program_address
            (deposit_request_seeds a.vault a.depositor request.bump) a.deposit_request
        ok (request, l))

  unfoldable pub deposit_request_create : DepositRequestCreate → Clock → ℕ → World → Result World
  deposit_request_create a clock amount w = do
    constraint (a.deposit_request == (deposit_request_of rt a.vault a.depositor).0)
    (opened, l₁) ←
        init_deposit_request (lookup a.deposit_request w.deposit_requests) a.depositor
          a.deposit_request w.ledger
    constraint (
        a.depositor_token_account
        == rt.associated_token_address a.depositor a.deposit_mint a.deposit_mint_token_program)
    constraint (a.deposit_escrow == deposit_escrow_of rt a.vault)
    validate (ltb 0 amount) invalid_transfer_amount
    config ← load_config rt w a.config
    is_protocol_operational config
    vault ← load_vault rt w a.vault
    is_vault_operational vault
    validate_deposit_not_paused vault
    validate_deposit_mint vault a.deposit_mint
    validate_share_mint vault a.share_mint
    validate_deposit_mint_extensions rt l₁ a.deposit_mint clock.epoch
    (prepared, l₂) ← prepare_deposit_request a clock opened l₁
    request ← add prepared amount (Vault.epoch clock.unix_timestamp)
    vault' ← request_deposit vault amount
    l₃ ←
        rt.transfer_checked a.deposit_mint_token_program a.depositor a.depositor_token_account
          a.deposit_mint a.deposit_escrow amount (l₂.decimals a.deposit_mint) l₂
    ok (record w {
      vaults = insert a.vault vault' w.vaults;
      deposit_requests = insert a.deposit_request request w.deposit_requests;
      ledger = l₃;
    })

  -- The three checks of a request that every settlement makes.
  unfoldable pub check_deposit_request :
      DepositRequest → (vault depositor key : Pubkey) → Result (Unit {0})
  check_deposit_request request vault depositor key = do
    validate_request_address rt.create_program_address
        (deposit_request_seeds vault depositor request.bump) key
    validate_authority request depositor
    validate_vault request vault

  unfoldable pub deposit_request_resolve : DepositRequestResolve → World → Result World
  deposit_request_resolve a w = do
    request ← load w.deposit_requests a.deposit_request
    constraint (
        a.depositor_share_token_account
        == rt.associated_token_address a.depositor a.share_mint rt.token_id)
    constraint (
        a.vault_token_account
        == rt.associated_token_address a.vault a.deposit_mint a.deposit_mint_token_program)
    constraint (a.deposit_escrow == deposit_escrow_of rt a.vault)
    config ← load_config rt w a.config
    is_protocol_operational config
    vault ← load_vault rt w a.vault
    is_vault_operational vault
    validate_deposit_not_paused vault
    validate_deposit_mint vault a.deposit_mint
    validate_share_mint vault a.share_mint
    check_deposit_request request a.vault a.depositor a.deposit_request
    is_resolvable request vault.nav_epoch
    (vault', shares) ← resolve_deposit vault request.amount
    (drawn, l₁) ←
        create_payout_account rt a.resolver a.depositor_share_token_account a.depositor a.share_mint
          rt.token_id a.deposit_request request.rent_escrow w.ledger
    l₂ ←
        rt.transfer_checked a.deposit_mint_token_program a.vault a.deposit_escrow a.deposit_mint
          a.vault_token_account request.amount (l₁.decimals a.deposit_mint) l₁
    l₃ ← rt.mint_to rt.token_id a.share_mint a.depositor_share_token_account a.vault shares l₂
    l₄ ← close a.deposit_request a.depositor l₃
    ok (record w {
      vaults = insert a.vault vault' w.vaults;
      deposit_requests = erase a.deposit_request w.deposit_requests;
      ledger = l₄;
    })

  unfoldable pub deposit_request_cancel : DepositRequestCancel → World → Result World
  deposit_request_cancel a w = do
    request ← load w.deposit_requests a.deposit_request
    constraint (
        a.depositor_token_account
        == rt.associated_token_address a.depositor a.deposit_mint a.deposit_mint_token_program)
    l₁ ←
        init_token_account rt a.depositor a.depositor_token_account a.depositor a.deposit_mint
          a.deposit_mint_token_program w.ledger
    constraint (a.deposit_escrow == deposit_escrow_of rt a.vault)
    vault ← load_vault rt w a.vault
    validate_deposit_mint vault a.deposit_mint
    check_deposit_request request a.vault a.depositor a.deposit_request
    is_cancellable request vault.nav_epoch vault.nav_per_share
    vault' ← cancel_deposit vault request.amount
    l₂ ←
        rt.transfer_checked a.deposit_mint_token_program a.vault a.deposit_escrow a.deposit_mint
          a.depositor_token_account request.amount (l₁.decimals a.deposit_mint) l₁
    l₃ ← close a.deposit_request a.depositor l₂
    ok (record w {
      vaults = insert a.vault vault' w.vaults;
      deposit_requests = erase a.deposit_request w.deposit_requests;
      ledger = l₃;
    })

  unfoldable pub deposit_request_reject : DepositRequestReject → World → Result World
  deposit_request_reject a w = do
    request ← load w.deposit_requests a.deposit_request
    constraint (
        a.depositor_token_account
        == rt.associated_token_address a.depositor a.deposit_mint a.deposit_mint_token_program)
    constraint (a.deposit_escrow == deposit_escrow_of rt a.vault)
    config ← load_config rt w a.config
    validate_admin config a.admin
    vault ← load_vault rt w a.vault
    validate_deposit_mint vault a.deposit_mint
    check_deposit_request request a.vault a.depositor a.deposit_request
    vault' ← cancel_deposit vault request.amount
    (drawn, l₁) ←
        create_payout_account rt a.admin a.depositor_token_account a.depositor a.deposit_mint
          a.deposit_mint_token_program a.deposit_request request.rent_escrow w.ledger
    l₂ ←
        rt.transfer_checked a.deposit_mint_token_program a.vault a.deposit_escrow a.deposit_mint
          a.depositor_token_account request.amount (l₁.decimals a.deposit_mint) l₁
    l₃ ← close a.deposit_request a.depositor l₂
    ok (record w {
      vaults = insert a.vault vault' w.vaults;
      deposit_requests = erase a.deposit_request w.deposit_requests;
      ledger = l₃;
    })
