-- ===== src/System/Effects/Withdrawals.antt =====
-- What a successful instruction on withdrawal requests did to the accounts.
use programs.Prelude.{ℕ, ◌-◌, ◌≤◌, ◌≡◌, arith, some}
use programs.Errors.{ok, constraint, validate, bind-elim, then-elim, ok-injective}
use programs.Accounts.{lookup, insert, erase}
use programs.Vault.{
  Pubkey, Vault, is_vault_withdrawable, validate_withdrawal_not_paused, validate_deposit_mint,
  validate_share_mint,
}
use programs.Vault.Requests.{cancel_withdrawal, resolve_withdrawal}
use programs.Vault.Requests.Accounting.{cancel_withdrawal_moves}
use programs.Vault.Requests.Conversion.{resolve_withdrawal_moves}
use programs.Config.{is_protocol_withdrawable, validate_admin}
use programs.WithdrawalRequest
use programs.WithdrawalRequest.{WithdrawalRequest}
use programs.Runtime.{Runtime, Ledger}
use programs.Payout.{create_payout_account, close}
use programs.World.{World, load_config, load_vault, init_token_account}
use programs.Instructions.Withdrawals.{
  WithdrawalRequestResolve, WithdrawalRequestCancel, WithdrawalRequestReject,
  withdrawal_request_resolve, withdrawal_request_cancel, withdrawal_request_reject,
  check_withdrawal_request, pay_out,
}
use programs.System.Effects.{or_violation-eq-ok, load_vault-lookup}

check_withdrawal_request-vault :
    (rt : Runtime) (request : WithdrawalRequest) (vault withdrawer key : Pubkey)
    → check_withdrawal_request rt request vault withdrawer key ≡ ok tt
    → vault ≡ request.vault
unfolding check_withdrawal_request WithdrawalRequest.validate_authority
    WithdrawalRequest.validate_vault
check_withdrawal_request-vault rt request vault withdrawer key h = ground arith

-- A vault whose pending shares fell by a number that they covered.
pub record WithdrawalTaken (v v' : Vault) (shares : ℕ) : Type 0 where
  pub covered : shares ≤ v.pending_withdrawal_shares
  pub taken : v'.pending_withdrawal_shares ≡ v.pending_withdrawal_shares - shares
  pub kept : v'.pending_deposits ≡ v.pending_deposits
  pub counted : v'.open_strategy_count ≡ v.open_strategy_count

resolve_withdrawal-WithdrawalTaken :
    (v : Vault) (shares bps : ℕ) {w : Vault} {amount : ℕ}
    → resolve_withdrawal v shares bps ≡ ok (w, amount)
    → WithdrawalTaken v w shares
resolve_withdrawal-WithdrawalTaken v shares bps h =
    let (covered, _, _, e) = resolve_withdrawal_moves v shares bps h in
    record { covered = covered; taken = ground arith; kept = ground arith; counted = ground arith }

cancel_withdrawal-WithdrawalTaken :
    (v : Vault) (shares : ℕ) {w : Vault}
    → cancel_withdrawal v shares ≡ ok w
    → WithdrawalTaken v w shares
cancel_withdrawal-WithdrawalTaken v shares h =
    let (covered, e) = cancel_withdrawal_moves v shares h in
    record { covered = covered; taken = ground arith; kept = ground arith; counted = ground arith }

-- A withdrawal request left the books: it was one of the vault's, and is gone from both.
pub record WithdrawalSettled (w : World) (vault_key request_key : Pubkey) (w' : World)
    : Type 0 where
  pub request : WithdrawalRequest
  pub vault : Vault
  pub vault' : Vault
  pub ledger : Ledger
  pub request_found : lookup request_key w.withdrawal_requests ≡ some request
  pub vault_found : lookup vault_key w.vaults ≡ some vault
  pub of_vault : vault_key ≡ request.vault
  pub taken : WithdrawalTaken vault vault' request.shares
  pub final :
      record w {
        vaults = insert vault_key vault' w.vaults;
        withdrawal_requests = erase request_key w.withdrawal_requests;
        ledger = ledger;
      }
      ≡ w'

module _ (rt : Runtime) where
  pub withdrawal_request_resolve-WithdrawalSettled :
      (a : WithdrawalRequestResolve) (w : World) {w' : World}
      → withdrawal_request_resolve rt a w ≡ ok w'
      → WithdrawalSettled w a.vault a.withdrawal_request w'
  unfolding withdrawal_request_resolve
  withdrawal_request_resolve-WithdrawalSettled a w h = bind-elim _ _ h λ request er h₁.
      then-elim (constraint _) _ h₁ λ _ h₂. then-elim (constraint _) _ h₂ λ _ h₃.
        then-elim (constraint _) _ h₃ λ _ h₄. bind-elim (load_config _ _ _) _ h₄ λ config _ h₅.
          then-elim (is_protocol_withdrawable _) _ h₅ λ _ h₆.
            bind-elim (load_vault _ _ _) _ h₆ λ vault ev h₇.
              then-elim (is_vault_withdrawable _) _ h₇ λ _ h₈.
                then-elim (validate_withdrawal_not_paused _) _ h₈ λ _ h₉.
                  then-elim (validate_deposit_mint _ _) _ h₉ λ _ h₁₀.
                    then-elim (validate_share_mint _ _) _ h₁₀ λ _ h₁₁.
                      then-elim (check_withdrawal_request _ _ _ _ _) _ h₁₁ λ ec h₁₂.
                        then-elim (WithdrawalRequest.is_resolvable _ _) _ h₁₂ λ _ h₁₃.
                          bind-elim (resolve_withdrawal _ _ _) _ h₁₃ λ r et h₁₄.
                            then-elim (validate _ _) _ h₁₄ λ _ h₁₅.
                              bind-elim (rt.burn _ _ _ _ _ _) _ h₁₅ λ _ _ h₁₆.
                                bind-elim (pay_out _ _ _ _ _) _ h₁₆ λ _ _ h₁₇.
                                  bind-elim (close _ _ _) _ h₁₇ λ _ _ h₁₈. record {
                                    request = request;
                                    vault = vault;
                                    vault' = r.0;
                                    ledger = _;
                                    request_found = or_violation-eq-ok _ er;
                                    vault_found = load_vault-lookup rt w a.vault ev;
                                    of_vault = check_withdrawal_request-vault rt _ _ _ _ ec;
                                    taken = resolve_withdrawal-WithdrawalTaken _ _ _ et;
                                    final = ok-injective h₁₈;
                                  }

  pub withdrawal_request_cancel-WithdrawalSettled :
      (a : WithdrawalRequestCancel) (w : World) {w' : World}
      → withdrawal_request_cancel rt a w ≡ ok w'
      → WithdrawalSettled w a.vault a.withdrawal_request w'
  unfolding withdrawal_request_cancel
  withdrawal_request_cancel-WithdrawalSettled a w h = bind-elim _ _ h λ request er h₁.
      then-elim (constraint _) _ h₁ λ _ h₂.
        bind-elim (init_token_account _ _ _ _ _ _ _) _ h₂ λ _ _ h₃.
          then-elim (constraint _) _ h₃ λ _ h₄. bind-elim (load_vault _ _ _) _ h₄ λ vault ev h₅.
            then-elim (validate_share_mint _ _) _ h₅ λ _ h₆.
              then-elim (check_withdrawal_request _ _ _ _ _) _ h₆ λ ec h₇.
                then-elim (WithdrawalRequest.is_cancellable _ _) _ h₇ λ _ h₈.
                  bind-elim (cancel_withdrawal _ _) _ h₈ λ v' et h₉.
                    bind-elim (rt.transfer_checked _ _ _ _ _ _ _ _) _ h₉ λ _ _ h₁₀.
                      bind-elim (close _ _ _) _ h₁₀ λ _ _ h₁₁. record {
                        request = request;
                        vault = vault;
                        vault' = v';
                        ledger = _;
                        request_found = or_violation-eq-ok _ er;
                        vault_found = load_vault-lookup rt w a.vault ev;
                        of_vault = check_withdrawal_request-vault rt _ _ _ _ ec;
                        taken = cancel_withdrawal-WithdrawalTaken _ _ et;
                        final = ok-injective h₁₁;
                      }

  pub withdrawal_request_reject-WithdrawalSettled :
      (a : WithdrawalRequestReject) (w : World) {w' : World}
      → withdrawal_request_reject rt a w ≡ ok w'
      → WithdrawalSettled w a.vault a.withdrawal_request w'
  unfolding withdrawal_request_reject
  withdrawal_request_reject-WithdrawalSettled a w h = bind-elim _ _ h λ request er h₁.
      then-elim (constraint _) _ h₁ λ _ h₂. then-elim (constraint _) _ h₂ λ _ h₃.
        bind-elim (load_config _ _ _) _ h₃ λ config _ h₄.
          then-elim (validate_admin _ _) _ h₄ λ _ h₅.
            bind-elim (load_vault _ _ _) _ h₅ λ vault ev h₆.
              then-elim (validate_share_mint _ _) _ h₆ λ _ h₇.
                then-elim (check_withdrawal_request _ _ _ _ _) _ h₇ λ ec h₈.
                  bind-elim (cancel_withdrawal _ _) _ h₈ λ v' et h₉.
                    bind-elim (create_payout_account _ _ _ _ _ _ _ _ _) _ h₉ λ _ _ h₁₀.
                      bind-elim (rt.transfer_checked _ _ _ _ _ _ _ _) _ h₁₀ λ _ _ h₁₁.
                        bind-elim (close _ _ _) _ h₁₁ λ _ _ h₁₂. record {
                          request = request;
                          vault = vault;
                          vault' = v';
                          ledger = _;
                          request_found = or_violation-eq-ok _ er;
                          vault_found = load_vault-lookup rt w a.vault ev;
                          of_vault = check_withdrawal_request-vault rt _ _ _ _ ec;
                          taken = cancel_withdrawal-WithdrawalTaken _ _ et;
                          final = ok-injective h₁₂;
                        }
