-- ===== src/System/Effects.antt =====
-- What a successful instruction on deposit requests did to the accounts: the request and the vault that
-- it found, and what it wrote.
pub mod Withdrawals
pub mod Navs
pub mod Strategies
pub mod Lifecycle
pub mod Actions
pub mod Positions
pub mod FiledDeposit
pub mod FiledWithdrawal
use programs.Prelude.{ℕ, ◌+◌, ◌-◌, ◌≤◌, ◌≡◌, refl, sym, subst, ◌==◌, arith, Option, some}
use programs.Errors.{ok, constraint, bind-elim, then-elim, ok-injective}
use programs.Accounts.{lookup, insert, erase}
use programs.Vault.{
  Pubkey, Vault, is_vault_operational, validate_deposit_not_paused, validate_deposit_mint,
  validate_share_mint,
}
use programs.Vault.Requests.{cancel_deposit, resolve_deposit}
use programs.Vault.Requests.Accounting.{cancel_deposit_moves}
use programs.Vault.Requests.Conversion.{resolve_deposit_moves}
use programs.Config.{Config, is_protocol_operational, validate_admin}
use programs.DepositRequest
use programs.DepositRequest.{DepositRequest}
use programs.Runtime.{Runtime, Ledger}
use programs.Payout.{create_payout_account, close}
use programs.World.{World, or_violation, load_config, load_vault, init_token_account}
use programs.Instructions.Deposits.{
  DepositRequestResolve, DepositRequestCancel, DepositRequestReject, deposit_request_resolve,
  deposit_request_cancel, deposit_request_reject, check_deposit_request,
}

pub or_violation-eq-ok {ℓ} :
    {A : Type ℓ} (o : Option A) {a : A} → or_violation o ≡ ok a → o ≡ some a
or_violation-eq-ok o h = ground arith

pub constraint_holds : {a b : ℕ} → constraint (a == b) ≡ ok tt → a ≡ b
unfolding constraint
constraint_holds {a} {b} h = ground arith

pub load_vault-lookup :
    (rt : Runtime) (w : World) (key : Pubkey) {v : Vault}
    → load_vault rt w key ≡ ok v
    → lookup key w.vaults ≡ some v
unfolding load_vault
load_vault-lookup rt w key h = ground arith

check_deposit_request-vault :
    (rt : Runtime) (request : DepositRequest) (vault depositor key : Pubkey)
    → check_deposit_request rt request vault depositor key ≡ ok tt
    → vault ≡ request.vault
unfolding check_deposit_request DepositRequest.validate_authority DepositRequest.validate_vault
check_deposit_request-vault rt request vault depositor key h = ground arith

-- A vault whose pending deposits fell by an amount that they covered.
pub record DepositTaken (v v' : Vault) (amount : ℕ) : Type 0 where
  pub covered : amount ≤ v.pending_deposits
  pub taken : v'.pending_deposits ≡ v.pending_deposits - amount
  pub kept : v'.pending_withdrawal_shares ≡ v.pending_withdrawal_shares
  pub counted : v'.open_strategy_count ≡ v.open_strategy_count

resolve_deposit-DepositTaken :
    (v : Vault) (amount : ℕ) {w : Vault} {shares : ℕ}
    → resolve_deposit v amount ≡ ok (w, shares)
    → DepositTaken v w amount
resolve_deposit-DepositTaken v amount h =
    let (covered, _, _, e) = resolve_deposit_moves v amount h in
    record { covered = covered; taken = ground arith; kept = ground arith; counted = ground arith }

cancel_deposit-DepositTaken :
    (v : Vault) (amount : ℕ) {w : Vault} → cancel_deposit v amount ≡ ok w → DepositTaken v w amount
cancel_deposit-DepositTaken v amount h =
    let (covered, e) = cancel_deposit_moves v amount h in
    record { covered = covered; taken = ground arith; kept = ground arith; counted = ground arith }

-- A deposit request left the books: it was one of the vault's, and is gone from both.
pub record DepositSettled (w : World) (vault_key request_key : Pubkey) (w' : World) : Type 0 where
  pub request : DepositRequest
  pub vault : Vault
  pub vault' : Vault
  pub ledger : Ledger
  pub request_found : lookup request_key w.deposit_requests ≡ some request
  pub vault_found : lookup vault_key w.vaults ≡ some vault
  pub of_vault : vault_key ≡ request.vault
  pub taken : DepositTaken vault vault' request.amount
  pub final :
      record w {
        vaults = insert vault_key vault' w.vaults;
        deposit_requests = erase request_key w.deposit_requests;
        ledger = ledger;
      }
      ≡ w'

module _ (rt : Runtime) where
  pub deposit_request_resolve-DepositSettled :
      (a : DepositRequestResolve) (w : World) {w' : World}
      → deposit_request_resolve rt a w ≡ ok w'
      → DepositSettled w a.vault a.deposit_request w'
  unfolding deposit_request_resolve
  deposit_request_resolve-DepositSettled a w h = bind-elim _ _ h λ request er h₁.
      then-elim (constraint _) _ h₁ λ _ h₂. then-elim (constraint _) _ h₂ λ _ h₃.
        then-elim (constraint _) _ h₃ λ _ h₄. bind-elim (load_config _ _ _) _ h₄ λ config _ h₅.
          then-elim (is_protocol_operational _) _ h₅ λ _ h₆.
            bind-elim (load_vault _ _ _) _ h₆ λ vault ev h₇.
              then-elim (is_vault_operational _) _ h₇ λ _ h₈.
                then-elim (validate_deposit_not_paused _) _ h₈ λ _ h₉.
                  then-elim (validate_deposit_mint _ _) _ h₉ λ _ h₁₀.
                    then-elim (validate_share_mint _ _) _ h₁₀ λ _ h₁₁.
                      then-elim (check_deposit_request _ _ _ _ _) _ h₁₁ λ ec h₁₂.
                        then-elim (DepositRequest.is_resolvable _ _) _ h₁₂ λ _ h₁₃.
                          bind-elim (resolve_deposit _ _) _ h₁₃ λ r et h₁₄.
                            bind-elim (create_payout_account _ _ _ _ _ _ _ _ _) _ h₁₄ λ _ _ h₁₅.
                              bind-elim (rt.transfer_checked _ _ _ _ _ _ _ _) _ h₁₅ λ _ _ h₁₆.
                                bind-elim (rt.mint_to _ _ _ _ _ _) _ h₁₆ λ _ _ h₁₇.
                                  bind-elim (close _ _ _) _ h₁₇ λ _ _ h₁₈. record {
                                    request = request;
                                    vault = vault;
                                    vault' = r.0;
                                    ledger = _;
                                    request_found = or_violation-eq-ok _ er;
                                    vault_found = load_vault-lookup rt w a.vault ev;
                                    of_vault = check_deposit_request-vault rt _ _ _ _ ec;
                                    taken = resolve_deposit-DepositTaken _ _ et;
                                    final = ok-injective h₁₈;
                                  }

  pub deposit_request_cancel-DepositSettled :
      (a : DepositRequestCancel) (w : World) {w' : World}
      → deposit_request_cancel rt a w ≡ ok w'
      → DepositSettled w a.vault a.deposit_request w'
  unfolding deposit_request_cancel
  deposit_request_cancel-DepositSettled a w h = bind-elim _ _ h λ request er h₁.
      then-elim (constraint _) _ h₁ λ _ h₂.
        bind-elim (init_token_account _ _ _ _ _ _ _) _ h₂ λ _ _ h₃.
          then-elim (constraint _) _ h₃ λ _ h₄. bind-elim (load_vault _ _ _) _ h₄ λ vault ev h₅.
            then-elim (validate_deposit_mint _ _) _ h₅ λ _ h₆.
              then-elim (check_deposit_request _ _ _ _ _) _ h₆ λ ec h₇.
                then-elim (DepositRequest.is_cancellable _ _ _) _ h₇ λ _ h₈.
                  bind-elim (cancel_deposit _ _) _ h₈ λ v' et h₉.
                    bind-elim (rt.transfer_checked _ _ _ _ _ _ _ _) _ h₉ λ _ _ h₁₀.
                      bind-elim (close _ _ _) _ h₁₀ λ _ _ h₁₁. record {
                        request = request;
                        vault = vault;
                        vault' = v';
                        ledger = _;
                        request_found = or_violation-eq-ok _ er;
                        vault_found = load_vault-lookup rt w a.vault ev;
                        of_vault = check_deposit_request-vault rt _ _ _ _ ec;
                        taken = cancel_deposit-DepositTaken _ _ et;
                        final = ok-injective h₁₁;
                      }

  pub deposit_request_reject-DepositSettled :
      (a : DepositRequestReject) (w : World) {w' : World}
      → deposit_request_reject rt a w ≡ ok w'
      → DepositSettled w a.vault a.deposit_request w'
  unfolding deposit_request_reject
  deposit_request_reject-DepositSettled a w h = bind-elim _ _ h λ request er h₁.
      then-elim (constraint _) _ h₁ λ _ h₂. then-elim (constraint _) _ h₂ λ _ h₃.
        bind-elim (load_config _ _ _) _ h₃ λ config _ h₄.
          then-elim (validate_admin _ _) _ h₄ λ _ h₅.
            bind-elim (load_vault _ _ _) _ h₅ λ vault ev h₆.
              then-elim (validate_deposit_mint _ _) _ h₆ λ _ h₇.
                then-elim (check_deposit_request _ _ _ _ _) _ h₇ λ ec h₈.
                  bind-elim (cancel_deposit _ _) _ h₈ λ v' et h₉.
                    bind-elim (create_payout_account _ _ _ _ _ _ _ _ _) _ h₉ λ _ _ h₁₀.
                      bind-elim (rt.transfer_checked _ _ _ _ _ _ _ _) _ h₁₀ λ _ _ h₁₁.
                        bind-elim (close _ _ _) _ h₁₁ λ _ _ h₁₂. record {
                          request = request;
                          vault = vault;
                          vault' = v';
                          ledger = _;
                          request_found = or_violation-eq-ok _ er;
                          vault_found = load_vault-lookup rt w a.vault ev;
                          of_vault = check_deposit_request-vault rt _ _ _ _ ec;
                          taken = cancel_deposit-DepositTaken _ _ et;
                          final = ok-injective h₁₂;
                        }
