-- ===== src/System/Guards.antt =====
-- Who may run an instruction, and in which state of the protocol, the vault and the request.
use programs.Prelude.{ℕ, ◌≤◌, ◌<◌, ◌≡◌, ◌⊎◌, arith, some}
use programs.Errors.{ok, constraint, validate, bind-elim, then-elim}
use programs.Accounts.{lookup}
use programs.Vault
use programs.Vault.{
  Pubkey, Vault, is_vault_operational, validate_deposit_not_paused, validate_deposit_mint,
  validate_share_mint, is_vault_withdrawable, validate_withdrawal_not_paused,
}
use programs.Config
use programs.Config.{Config, is_protocol_operational, is_protocol_withdrawable, validate_admin}
use programs.DepositRequest
use programs.DepositRequest.{DepositRequest}
use programs.WithdrawalRequest
use programs.WithdrawalRequest.{WithdrawalRequest}
use programs.Runtime.{Runtime}
use programs.World.{World, load_config, load_vault, init_token_account}
use programs.Instructions.Deposits.{
  DepositRequestResolve, DepositRequestCancel, deposit_request_resolve, deposit_request_cancel,
  check_deposit_request,
}
use programs.Instructions.Withdrawals.{
  WithdrawalRequestResolve, WithdrawalRequestCancel, withdrawal_request_resolve,
  withdrawal_request_cancel, check_withdrawal_request,
}
use programs.System.Effects.{or_violation-eq-ok, load_vault-lookup}

pub load_config-lookup :
    (rt : Runtime) (w : World) (key : Pubkey) {c : Config}
    → load_config rt w key ≡ ok c
    → lookup key w.configs ≡ some c
unfolding load_config
load_config-lookup rt w key h = ground arith

pub protocol_is_normal : (c : Config) → is_protocol_operational c ≡ ok tt → c.status ≡ Config.normal
unfolding is_protocol_operational validate
protocol_is_normal c h = ground arith

pub vault_is_normal : (v : Vault) → is_vault_operational v ≡ ok tt → v.status ≡ Vault.normal
unfolding is_vault_operational validate
vault_is_normal v h = ground arith

deposits_run : (v : Vault) → validate_deposit_not_paused v ≡ ok tt → v.deposit_paused ≡ 0
unfolding validate_deposit_not_paused validate
deposits_run v h = ground arith

withdrawals_run : (v : Vault) → validate_withdrawal_not_paused v ≡ ok tt → v.withdrawal_paused ≡ 0
unfolding validate_withdrawal_not_paused validate
withdrawals_run v h = ground arith

deposit_is_due :
    (r : DepositRequest) (e : ℕ) → DepositRequest.is_resolvable r e ≡ ok tt → r.epoch < e
unfolding DepositRequest.is_resolvable validate
deposit_is_due r e h = ground arith

withdrawal_is_due :
    (r : WithdrawalRequest) (e : ℕ) → WithdrawalRequest.is_resolvable r e ≡ ok tt → r.epoch < e
unfolding WithdrawalRequest.is_resolvable validate
withdrawal_is_due r e h = ground arith

deposit_is_early :
    (r : DepositRequest) (e nav : ℕ)
    → DepositRequest.is_cancellable r e nav ≡ ok tt
    → (nav ≡ 0) ⊎ (e ≤ r.epoch)
unfolding DepositRequest.is_cancellable validate
deposit_is_early r e nav h = ground arith

withdrawal_is_early :
    (r : WithdrawalRequest) (e : ℕ) → WithdrawalRequest.is_cancellable r e ≡ ok tt → e ≤ r.epoch
unfolding WithdrawalRequest.is_cancellable validate
withdrawal_is_early r e h = ground arith

check_deposit_request-authority :
    (rt : Runtime) (r : DepositRequest) (vault depositor key : Pubkey)
    → check_deposit_request rt r vault depositor key ≡ ok tt
    → depositor ≡ r.authority
unfolding check_deposit_request DepositRequest.validate_authority DepositRequest.validate_vault
    validate
check_deposit_request-authority rt r vault depositor key h = ground arith

check_withdrawal_request-authority :
    (rt : Runtime) (r : WithdrawalRequest) (vault withdrawer key : Pubkey)
    → check_withdrawal_request rt r vault withdrawer key ≡ ok tt
    → withdrawer ≡ r.authority
unfolding check_withdrawal_request WithdrawalRequest.validate_authority
    WithdrawalRequest.validate_vault validate
check_withdrawal_request-authority rt r vault withdrawer key h = ground arith

-- The request, the vault and the configuration that a resolution reads.
pub record DepositResolvable (w : World) (a : DepositRequestResolve) : Type 0 where
  pub request : DepositRequest
  pub vault : Vault
  pub config : Config
  pub request_found : lookup a.deposit_request w.deposit_requests ≡ some request
  pub vault_found : lookup a.vault w.vaults ≡ some vault
  pub config_found : lookup a.config w.configs ≡ some config
  pub protocol_normal : config.status ≡ Config.normal
  pub vault_normal : vault.status ≡ Vault.normal
  pub running : vault.deposit_paused ≡ 0
  pub of_depositor : a.depositor ≡ request.authority
  pub priced_later : request.epoch < vault.nav_epoch

pub record WithdrawalResolvable (w : World) (a : WithdrawalRequestResolve) : Type 0 where
  pub request : WithdrawalRequest
  pub vault : Vault
  pub request_found : lookup a.withdrawal_request w.withdrawal_requests ≡ some request
  pub vault_found : lookup a.vault w.vaults ≡ some vault
  pub running : vault.withdrawal_paused ≡ 0
  pub of_withdrawer : a.withdrawer ≡ request.authority
  pub priced_later : request.epoch < vault.nav_epoch

pub record DepositCancellable (w : World) (a : DepositRequestCancel) : Type 0 where
  pub request : DepositRequest
  pub vault : Vault
  pub request_found : lookup a.deposit_request w.deposit_requests ≡ some request
  pub vault_found : lookup a.vault w.vaults ≡ some vault
  pub own : a.depositor ≡ request.authority
  pub not_priced : (vault.nav_per_share ≡ 0) ⊎ (vault.nav_epoch ≤ request.epoch)

pub record WithdrawalCancellable (w : World) (a : WithdrawalRequestCancel) : Type 0 where
  pub request : WithdrawalRequest
  pub vault : Vault
  pub request_found : lookup a.withdrawal_request w.withdrawal_requests ≡ some request
  pub vault_found : lookup a.vault w.vaults ≡ some vault
  pub own : a.withdrawer ≡ request.authority
  pub not_priced : vault.nav_epoch ≤ request.epoch

module _ (rt : Runtime) where
  -- A successful deposit_request_resolve found a request of the named depositor, from an epoch
  -- before that of the last NAV of the vault, while the protocol and the vault had their normal
  -- status and deposits were not paused.
  pub deposit_request_resolve-DepositResolvable :
      (a : DepositRequestResolve) (w : World) {w' : World}
      → deposit_request_resolve rt a w ≡ ok w'
      → DepositResolvable w a
  unfolding deposit_request_resolve
  deposit_request_resolve-DepositResolvable a w h = bind-elim _ _ h λ request er h₁.
      then-elim (constraint _) _ h₁ λ _ h₂. then-elim (constraint _) _ h₂ λ _ h₃.
        then-elim (constraint _) _ h₃ λ _ h₄. bind-elim (load_config _ _ _) _ h₄ λ config ecf h₅.
          then-elim (is_protocol_operational _) _ h₅ λ eo h₆.
            bind-elim (load_vault _ _ _) _ h₆ λ vault ev h₇.
              then-elim (is_vault_operational _) _ h₇ λ en h₈.
                then-elim (validate_deposit_not_paused _) _ h₈ λ ep h₉.
                  then-elim (validate_deposit_mint _ _) _ h₉ λ _ h₁₀.
                    then-elim (validate_share_mint _ _) _ h₁₀ λ _ h₁₁.
                      then-elim (check_deposit_request _ _ _ _ _) _ h₁₁ λ ec h₁₂.
                        then-elim (DepositRequest.is_resolvable _ _) _ h₁₂ λ ed h₁₃. record {
                          config = config;
                          config_found = load_config-lookup rt w a.config ecf;
                          request = request;
                          vault = vault;
                          request_found = or_violation-eq-ok _ er;
                          vault_found = load_vault-lookup rt w a.vault ev;
                          protocol_normal = protocol_is_normal _ eo;
                          vault_normal = vault_is_normal _ en;
                          running = deposits_run _ ep;
                          of_depositor = check_deposit_request-authority rt _ _ _ _ ec;
                          priced_later = deposit_is_due _ _ ed;
                        }

  -- A successful withdrawal_request_resolve found a request of the named withdrawer, from an epoch
  -- before that of the last NAV of the vault, while withdrawals were not paused.
  pub withdrawal_request_resolve-WithdrawalResolvable :
      (a : WithdrawalRequestResolve) (w : World) {w' : World}
      → withdrawal_request_resolve rt a w ≡ ok w'
      → WithdrawalResolvable w a
  unfolding withdrawal_request_resolve
  withdrawal_request_resolve-WithdrawalResolvable a w h = bind-elim _ _ h λ request er h₁.
      then-elim (constraint _) _ h₁ λ _ h₂. then-elim (constraint _) _ h₂ λ _ h₃.
        then-elim (constraint _) _ h₃ λ _ h₄. bind-elim (load_config _ _ _) _ h₄ λ config ecf h₅.
          then-elim (is_protocol_withdrawable _) _ h₅ λ _ h₆.
            bind-elim (load_vault _ _ _) _ h₆ λ vault ev h₇.
              then-elim (is_vault_withdrawable _) _ h₇ λ _ h₈.
                then-elim (validate_withdrawal_not_paused _) _ h₈ λ ep h₉.
                  then-elim (validate_deposit_mint _ _) _ h₉ λ _ h₁₀.
                    then-elim (validate_share_mint _ _) _ h₁₀ λ _ h₁₁.
                      then-elim (check_withdrawal_request _ _ _ _ _) _ h₁₁ λ ec h₁₂.
                        then-elim (WithdrawalRequest.is_resolvable _ _) _ h₁₂ λ ed h₁₃. record {
                          request = request;
                          vault = vault;
                          request_found = or_violation-eq-ok _ er;
                          vault_found = load_vault-lookup rt w a.vault ev;
                          running = withdrawals_run _ ep;
                          of_withdrawer = check_withdrawal_request-authority rt _ _ _ _ ec;
                          priced_later = withdrawal_is_due _ _ ed;
                        }

  -- A successful deposit_request_cancel found a request of its signer, for which no NAV was posted
  -- yet unless the NAV is zero.
  pub deposit_request_cancel-DepositCancellable :
      (a : DepositRequestCancel) (w : World) {w' : World}
      → deposit_request_cancel rt a w ≡ ok w'
      → DepositCancellable w a
  unfolding deposit_request_cancel
  deposit_request_cancel-DepositCancellable a w h = bind-elim _ _ h λ request er h₁.
      then-elim (constraint _) _ h₁ λ _ h₂.
        bind-elim (init_token_account _ _ _ _ _ _ _) _ h₂ λ _ _ h₃.
          then-elim (constraint _) _ h₃ λ _ h₄. bind-elim (load_vault _ _ _) _ h₄ λ vault ev h₅.
            then-elim (validate_deposit_mint _ _) _ h₅ λ _ h₆.
              then-elim (check_deposit_request _ _ _ _ _) _ h₆ λ ec h₇.
                then-elim (DepositRequest.is_cancellable _ _ _) _ h₇ λ ed h₈. record {
                  request = request;
                  vault = vault;
                  request_found = or_violation-eq-ok _ er;
                  vault_found = load_vault-lookup rt w a.vault ev;
                  own = check_deposit_request-authority rt _ _ _ _ ec;
                  not_priced = deposit_is_early _ _ _ ed;
                }

  -- A successful withdrawal_request_cancel found a request of its signer, for which no NAV was
  -- posted yet.
  pub withdrawal_request_cancel-WithdrawalCancellable :
      (a : WithdrawalRequestCancel) (w : World) {w' : World}
      → withdrawal_request_cancel rt a w ≡ ok w'
      → WithdrawalCancellable w a
  unfolding withdrawal_request_cancel
  withdrawal_request_cancel-WithdrawalCancellable a w h = bind-elim _ _ h λ request er h₁.
      then-elim (constraint _) _ h₁ λ _ h₂.
        bind-elim (init_token_account _ _ _ _ _ _ _) _ h₂ λ _ _ h₃.
          then-elim (constraint _) _ h₃ λ _ h₄. bind-elim (load_vault _ _ _) _ h₄ λ vault ev h₅.
            then-elim (validate_share_mint _ _) _ h₅ λ _ h₆.
              then-elim (check_withdrawal_request _ _ _ _ _) _ h₆ λ ec h₇.
                then-elim (WithdrawalRequest.is_cancellable _ _) _ h₇ λ ed h₈. record {
                  request = request;
                  vault = vault;
                  request_found = or_violation-eq-ok _ er;
                  vault_found = load_vault-lookup rt w a.vault ev;
                  own = check_withdrawal_request-authority rt _ _ _ _ ec;
                  not_priced = withdrawal_is_early _ _ ed;
                }
