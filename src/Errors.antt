-- ===== src/Errors.antt =====
-- The error codes of programs/hedge_vault/src/error.rs, the results of fallible code, and the
-- `validate!` macro of utils/validate.rs.
use mathlib.Core.Path.{◌≡◌, refl}
use mathlib.Core.Bool.{Bool, true, false}

-- `HedgeVaultError`, constructor by constructor. Below it stand what else a handler may end with.
pub data HedgeVaultError : Type 0 where
  invalid_program_id invalid_pubkey invalid_transfer_amount math_overflow : HedgeVaultError
  conversion_failed invalid_basis_points invalid_remaining_accounts invalid_instruction_data :
      HedgeVaultError
  invalid_minimum_amount invalid_token_account_mint invalid_token_account_owner insufficient_funds :
      HedgeVaultError
  invalid_token_program invalid_config invalid_config_version invalid_admin : HedgeVaultError
  invalid_nav_updater invalid_treasury_authority invalid_guardian invalid_pending_admin :
      HedgeVaultError
  protocol_not_operational protocol_not_withdrawable invalid_manager invalid_manager_authority :
      HedgeVaultError
  invalid_vault invalid_vault_authority vault_not_operational vault_not_withdrawable :
      HedgeVaultError
  deposit_cap_reached invalid_deposit_mint invalid_share_mint vault_has_outstanding_shares :
      HedgeVaultError
  vault_has_pending_requests vault_has_unclaimed_fees vault_has_open_strategies vault_has_assets :
      HedgeVaultError
  invalid_shares_amount no_fee_to_claim invalid_deposit_mint_extension vault_nav_is_zero :
      HedgeVaultError
  deposit_below_minimum withdrawal_below_minimum nav_already_updated_this_epoch
        fee_exceeds_total_assets :
      HedgeVaultError
  nav_deviation_exceeded total_assets_below_idle_balance epoch_outflow_cap_reached invalid_request :
      HedgeVaultError
  invalid_request_authority invalid_request_vault pending_request_not_resolved
        request_not_resolvable :
      HedgeVaultError
  request_not_cancellable zero_shares_minted invalid_strategy invalid_strategy_type :
      HedgeVaultError
  invalid_target_mint invalid_strategy_mint invalid_target_mint_token_account invalid_swap_mints :
      HedgeVaultError
  slippage_exceeds_cap swap_output_below_minimum invalid_position vault_deposit_paused :
      HedgeVaultError
  vault_withdrawal_paused invalid_phoenix_deposit_mint invalid_phoenix_trader
        invalid_phoenix_account :
      HedgeVaultError
  invalid_phoenix_remaining_accounts phoenix_trader_not_ready phoenix_amount_mismatch
        phoenix_return_data_invalid :
      HedgeVaultError
  phoenix_account_liquidatable phoenix_order_underfilled phoenix_strategy_not_empty
        invalid_position_bin_range :
      HedgeVaultError

-- An instruction fails with a code of its own, with an error of the framework's account checks, with
-- the code that a called program returned, or by a panic. In each case the runtime discards
-- what the instruction wrote.
pub data Error : Type 0 where
  custom : HedgeVaultError → Error
  constraint_violation : Error
  require_violation : Error
  invalid_instruction : Error
  called_program_failed : Error
  panicked : Error

pub data Result {ℓ} (T : Type ℓ) : Type ℓ where
  err : Error → Result T
  ok : T → Result T

-- The `?` operator.
infixl 5 ◌>>=◌
abbrev pub ◌>>=◌ {ℓ ι} : {T : Type ℓ} {U : Type ι} → Result T → (T → Result U) → Result U
err e >>= next = err e
ok t >>= next = next t

-- A check, which has no value, before the rest.
infixl 5 ◌>>◌
abbrev pub ◌>>◌ {ℓ} : {U : Type ℓ} → Result (Unit {0}) → Result U → Result U
check >> rest = check >>= λ done. rest

-- What a successful bind went through, handed to the rest of a proof.
pub bind-elim {ℓ κ ι} :
    {A : Type ℓ} {B : Type κ} {P : Type ι} (m : Result A) (f : A → Result B) {b : B}
    → (m >>= f) ≡ ok b
    → ((a : A) → m ≡ ok a → f a ≡ ok b → P)
    → P
bind-elim (ok a) f h k = k a refl h
bind-elim (err e) f h k = cc

pub then-elim {ℓ ι} :
    {B : Type ℓ} {P : Type ι} (m : Result (Unit {0})) (k : Result B) {b : B}
    → (m >> k) ≡ ok b
    → (m ≡ ok tt → k ≡ ok b → P)
    → P
then-elim (ok u) k h c = c refl h
then-elim (err e) k h c = cc

-- The first `validate!` rule; its second differs by a log line.
unfoldable pub validate : Bool → HedgeVaultError → Result (Unit {0})
validate true e = ok tt
validate false e = err (custom e)

-- A check that the framework makes for an `#[account(...)]` attribute.
unfoldable pub constraint : Bool → Result (Unit {0})
constraint true = ok tt
constraint false = err constraint_violation

-- `require_eq!` and `require_gte!`, whose errors are the framework's.
unfoldable pub require : Bool → Result (Unit {0})
require true = ok tt
require false = err require_violation

pub ok-injective {ℓ} : {A : Type ℓ} {a b : A} → ok a ≡ ok b → a ≡ b
ok-injective h = cc
