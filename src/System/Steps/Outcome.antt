-- ===== src/System/Steps/Outcome.antt =====
-- What each instruction did to the accounts, in a few kinds, and the abstract operation that it
-- amounts to.
use programs.Prelude.{none, ◌≡◌, some}
use programs.Errors.{ok}
use programs.Runtime.{Runtime}
use programs.World.{World}
use programs.System.Effects.{
  deposit_request_resolve-DepositSettled, deposit_request_cancel-DepositSettled,
  deposit_request_reject-DepositSettled,
}
use programs.System.Effects.Withdrawals.{
  withdrawal_request_resolve-WithdrawalSettled, withdrawal_request_cancel-WithdrawalSettled,
  withdrawal_request_reject-WithdrawalSettled,
}
use programs.System.Effects.FiledDeposit.{deposit_request_create-DepositRequested}
use programs.System.Effects.FiledWithdrawal.{withdrawal_request_create-WithdrawalRequested}
use programs.System.Effects.Navs.{
  nav_update-VaultTouched, nav_override-VaultTouched, vault_claim_manager_fee-VaultTouched,
  config_claim_platform_fee-VaultTouched,
}
use programs.System.Settings.Effects.{
  vault_update-VaultTouched, vault_pause-VaultTouched, config_update-ConfigTouched,
  config_pause-ConfigTouched, admin_accept-ConfigTouched,
}
use programs.System.Effects.Strategies.{
  jupiter_initialize_strategy-StrategyOpened, phoenix_initialize_strategy-StrategyOpened,
  meteora_dlmm_initialize_position-StrategyOpened, vault_close_strategy-StrategyClosed,
}
use programs.System.Effects.Actions.{
  jupiter_swap-StrategyActed, phoenix_deposit_funds-StrategyActed,
  phoenix_withdraw_funds-StrategyActed, phoenix_ember_withdraw-StrategyActed,
  phoenix_place_market_order-StrategyActed, phoenix_place_limit_order-StrategyActed,
  phoenix_cancel_orders-StrategyActed,
}
use programs.System.Effects.Positions.{
  meteora_dlmm_add_liquidity-StrategyActed, meteora_dlmm_remove_liquidity-StrategyActed,
  meteora_dlmm_claim_fee-StrategyActed,
}
use programs.System.Effects.Lifecycle.{
  meteora_dlmm_extend_position-RolesTouched, config_initialize-RolesTouched,
  config_migrate-RolesTouched, config_add_manager-RolesTouched, config_remove_manager-RolesTouched,
  vault_initialize-VaultOpened, vault_close-VaultClosed,
}
use programs.Protocol.Dlmm.{Dlmm}
use programs.Entry
use programs.Entry.{Instruction, process}
use programs.Runtime.{Clock}
use programs.System.Effects.{DepositSettled}
use programs.System.Effects.Withdrawals.{WithdrawalSettled}
use programs.System.Effects.FiledDeposit.{DepositRequested}
use programs.System.Effects.FiledWithdrawal.{WithdrawalRequested}
use programs.System.Effects.Navs.{VaultTouched}
use programs.System.Settings.Effects.{ConfigTouched}
use programs.System.Effects.Strategies.{StrategyOpened, StrategyClosed}
use programs.System.Effects.Actions.{StrategyActed}
use programs.System.Effects.Lifecycle.{RolesTouched, VaultOpened, VaultClosed}
use programs.Vault.{Pubkey}
use programs.Prelude.{ℕ}
use programs.Instructions.Lifecycle.{VaultClose}
use programs.System.Balanced.{IsKey, IsSigner, deposit_address, withdrawal_address}
use programs.System.Ledgers.{
  Operation, file_deposit, settle_deposit, file_withdrawal, settle_withdrawal, begin_strategy,
  end_strategy, idle, asked_amount, asked_shares, operation,
}
use programs.System.Steps.{IsSigned}

pub data Outcome (rt : Runtime) (w w' : World) : Operation → Type 0 where
  deposit_requested :
      (vault authority key : Pubkey) (amount : ℕ)
      → IsKey vault
      → IsSigner authority
      → key ≡ deposit_address rt vault authority
      → DepositRequested w vault authority key amount w'
      → Outcome rt w w' (file_deposit vault amount)
  deposit_settled :
      (vault key : Pubkey)
      → DepositSettled w vault key w'
      → Outcome rt w w' (settle_deposit vault (asked_amount w key))
  withdrawal_requested :
      (vault authority key : Pubkey) (shares : ℕ)
      → IsKey vault
      → IsSigner authority
      → key ≡ withdrawal_address rt vault authority
      → WithdrawalRequested w vault authority key shares w'
      → Outcome rt w w' (file_withdrawal vault shares)
  withdrawal_settled :
      (vault key : Pubkey)
      → WithdrawalSettled w vault key w'
      → Outcome rt w w' (settle_withdrawal vault (asked_shares w key))
  strategy_opened :
      (vault key : Pubkey) → StrategyOpened w vault key w' → Outcome rt w w' (begin_strategy vault)
  strategy_closed :
      (vault key : Pubkey) → StrategyClosed w vault key w' → Outcome rt w w' (end_strategy vault)
  strategy_acted : (key : Pubkey) → StrategyActed w key w' → Outcome rt w w' idle
  vault_touched : (vault : Pubkey) → VaultTouched w vault w' → Outcome rt w w' idle
  config_touched : ConfigTouched w w' → Outcome rt w w' idle
  roles_touched : RolesTouched w w' → Outcome rt w w' idle
  vault_opened : (vault : Pubkey) → VaultOpened w vault w' → Outcome rt w w' idle
  vault_closed : (a : VaultClose) → VaultClosed w a w' → Outcome rt w w' idle

module _ (rt : Runtime) (dlmm : Dlmm) (clock : Clock) (w w' : World) where
  pub process-Outcome :
      (e : Instruction)
      → IsSigned e
      → process rt dlmm clock e w ≡ ok w'
      → Outcome rt w w' (operation e w)
  unfolding process operation
  process-Outcome (Entry.config_initialize a args) signed h =
      roles_touched (config_initialize-RolesTouched rt a args w h)
  process-Outcome (Entry.config_update a args) signed h =
      config_touched (config_update-ConfigTouched rt a args w h)
  process-Outcome (Entry.config_add_manager a) signed h =
      roles_touched (config_add_manager-RolesTouched rt a w h)
  process-Outcome (Entry.config_remove_manager a) signed h =
      roles_touched (config_remove_manager-RolesTouched rt a w h)
  process-Outcome (Entry.config_claim_platform_fee a) signed h =
      vault_touched a.vault (config_claim_platform_fee-VaultTouched rt a w h)
  process-Outcome (Entry.config_migrate a) signed h =
      roles_touched (config_migrate-RolesTouched rt a w h)
  process-Outcome (Entry.nav_override a total_assets) signed h =
      vault_touched a.vault (nav_override-VaultTouched rt a clock total_assets w h)
  process-Outcome (Entry.deposit_request_reject a) signed h =
      deposit_settled a.vault a.deposit_request (deposit_request_reject-DepositSettled rt a w h)
  process-Outcome (Entry.withdrawal_request_reject a) signed h =
      withdrawal_settled a.vault a.withdrawal_request
        (withdrawal_request_reject-WithdrawalSettled rt a w h)
  process-Outcome (Entry.config_pause a) signed h =
      config_touched (config_pause-ConfigTouched rt a w h)
  process-Outcome (Entry.vault_pause a) signed h =
      vault_touched a.vault (vault_pause-VaultTouched rt a w h)
  process-Outcome (Entry.admin_accept a) signed h =
      config_touched (admin_accept-ConfigTouched rt a w h)
  process-Outcome (Entry.nav_update a total_assets) signed h =
      vault_touched a.vault (nav_update-VaultTouched rt a clock total_assets w h)
  process-Outcome (Entry.vault_initialize a args) signed h =
      vault_opened a.vault (vault_initialize-VaultOpened rt a args clock w h)
  process-Outcome (Entry.vault_update a args) signed h =
      vault_touched a.vault (vault_update-VaultTouched rt a args clock w h)
  process-Outcome (Entry.vault_close a) signed h = vault_closed a (vault_close-VaultClosed rt a w h)
  process-Outcome (Entry.vault_close_strategy a remaining) signed h =
      strategy_closed a.vault a.strategy
        (vault_close_strategy-StrategyClosed rt dlmm a remaining w h)
  process-Outcome (Entry.vault_claim_manager_fee a) signed h =
      vault_touched a.vault (vault_claim_manager_fee-VaultTouched rt a w h)
  process-Outcome (Entry.deposit_request_create a amount) signed h =
      let (requested, at) = deposit_request_create-DepositRequested rt a clock amount w h in
      deposit_requested a.vault a.depositor a.deposit_request amount signed.0 signed.1 at requested
  process-Outcome (Entry.deposit_request_cancel a) signed h =
      deposit_settled a.vault a.deposit_request (deposit_request_cancel-DepositSettled rt a w h)
  process-Outcome (Entry.deposit_request_resolve a) signed h =
      deposit_settled a.vault a.deposit_request (deposit_request_resolve-DepositSettled rt a w h)
  process-Outcome (Entry.withdrawal_request_create a shares) signed h =
      let (requested, at) = withdrawal_request_create-WithdrawalRequested rt a clock shares w h in
      withdrawal_requested a.vault a.withdrawer a.withdrawal_request shares signed.0 signed.1 at
        requested
  process-Outcome (Entry.withdrawal_request_cancel a) signed h =
      withdrawal_settled a.vault a.withdrawal_request
        (withdrawal_request_cancel-WithdrawalSettled rt a w h)
  process-Outcome (Entry.withdrawal_request_resolve a) signed h =
      withdrawal_settled a.vault a.withdrawal_request
        (withdrawal_request_resolve-WithdrawalSettled rt a w h)
  process-Outcome (Entry.jupiter_initialize_strategy a) signed h =
      strategy_opened a.vault a.strategy (jupiter_initialize_strategy-StrategyOpened rt a clock w h)
  process-Outcome (Entry.jupiter_swap a remaining swap_data amount slippage_bps) signed h =
      strategy_acted a.strategy
        (jupiter_swap-StrategyActed rt a clock swap_data remaining amount slippage_bps w h)
  process-Outcome (Entry.meteora_dlmm_initialize_position a lower_bin_id upper_bin_id) signed h =
      strategy_opened a.vault a.strategy (
        meteora_dlmm_initialize_position-StrategyOpened rt dlmm a clock lower_bin_id upper_bin_id w
          h)
  process-Outcome (Entry.meteora_dlmm_extend_position a bins_to_add) signed h =
      roles_touched (meteora_dlmm_extend_position-RolesTouched rt dlmm a bins_to_add w h)
  process-Outcome
        (Entry.meteora_dlmm_add_liquidity a remaining liquidity_parameter remaining_accounts_info)
        signed h =
      strategy_acted a.strategy (
        meteora_dlmm_add_liquidity-StrategyActed rt dlmm a clock remaining liquidity_parameter
          remaining_accounts_info w h)
  process-Outcome
        (Entry.meteora_dlmm_remove_liquidity a remaining bps_to_remove remaining_accounts_info)
        signed h =
      strategy_acted a.strategy (
        meteora_dlmm_remove_liquidity-StrategyActed rt dlmm a clock remaining bps_to_remove
          remaining_accounts_info none w h)
  process-Outcome
        (Entry.meteora_dlmm_remove_liquidity_range a remaining bps_to_remove remaining_accounts_info
          from_bin_id to_bin_id)
        signed h =
      strategy_acted a.strategy (
        meteora_dlmm_remove_liquidity-StrategyActed rt dlmm a clock remaining bps_to_remove
          remaining_accounts_info (some (from_bin_id, to_bin_id)) w h)
  process-Outcome (Entry.meteora_dlmm_claim_fee a treasury remaining remaining_accounts_info) signed
        h =
      strategy_acted a.strategy (
        meteora_dlmm_claim_fee-StrategyActed rt dlmm a treasury clock remaining
          remaining_accounts_info none w h)
  process-Outcome
        (Entry.meteora_dlmm_claim_fee_range a treasury remaining remaining_accounts_info from_bin_id
          to_bin_id)
        signed h =
      strategy_acted a.strategy (
        meteora_dlmm_claim_fee-StrategyActed rt dlmm a treasury clock remaining
          remaining_accounts_info (some (from_bin_id, to_bin_id)) w h)
  process-Outcome (Entry.phoenix_initialize_strategy a) signed h =
      strategy_opened a.vault a.strategy (phoenix_initialize_strategy-StrategyOpened rt a clock w h)
  process-Outcome (Entry.phoenix_deposit_funds a tail amount) signed h =
      strategy_acted a.strategy (phoenix_deposit_funds-StrategyActed rt a tail clock amount w h)
  process-Outcome (Entry.phoenix_place_market_order a hawkeye_program tail params) signed h =
      strategy_acted a.strategy
        (phoenix_place_market_order-StrategyActed rt a hawkeye_program tail clock params w h)
  process-Outcome (Entry.phoenix_place_limit_order a hawkeye_program tail params) signed h =
      strategy_acted a.strategy
        (phoenix_place_limit_order-StrategyActed rt a hawkeye_program tail clock params w h)
  process-Outcome (Entry.phoenix_cancel_orders a tail mode) signed h =
      strategy_acted a.strategy (phoenix_cancel_orders-StrategyActed rt a tail clock mode w h)
  process-Outcome (Entry.phoenix_withdraw_funds a tail amount) signed h =
      strategy_acted a.strategy (phoenix_withdraw_funds-StrategyActed rt a tail clock amount w h)
  process-Outcome (Entry.phoenix_ember_withdraw a) signed h =
      strategy_acted a.strategy (phoenix_ember_withdraw-StrategyActed rt a clock w h)
