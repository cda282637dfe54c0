-- ===== src/Entry.antt =====
-- lib.rs: the entry points of the program, each with its accounts and its arguments, and the handler
-- that it goes to. The accounts that follow the declared ones are `tail`, `remaining`, `treasury` and
-- `hawkeye_program`.
use programs.Prelude.{ℕ, none, some, List}
use programs.Prelude.Int.{ℤ}
use programs.Errors.{Result}
use programs.Vault.{Pubkey}
use programs.Runtime.{Runtime, Clock, AccountMeta}
use programs.World.{World}
use programs.Protocol.Dlmm.{Dlmm}
use programs.Protocol.Phoenix.Packets.{PhoenixCancelMode}
use programs.Instructions.Lifecycle
use programs.Instructions.Lifecycle.{
  ConfigInitialize, ConfigInitializeArgs, ConfigAddManager, ConfigRemoveManager, VaultInitialize,
  VaultInitializeArgs, VaultClose,
}
use programs.Instructions.Settings
use programs.Instructions.Settings.{
  ConfigUpdate, ConfigUpdateArgs, ConfigPause, VaultPause, AdminAccept, VaultUpdate,
  VaultUpdateArgs,
}
use programs.Instructions.Navs
use programs.Instructions.Navs.{
  ConfigClaimPlatformFee, NavOverride, NavUpdate, VaultClaimManagerFee,
}
use programs.Instructions.Migration
use programs.Instructions.Migration.{ConfigMigrate}
use programs.Instructions.Deposits
use programs.Instructions.Deposits.{
  DepositRequestReject, DepositRequestCreate, DepositRequestCancel, DepositRequestResolve,
}
use programs.Instructions.Withdrawals
use programs.Instructions.Withdrawals.{
  WithdrawalRequestReject, WithdrawalRequestCreate, WithdrawalRequestCancel,
  WithdrawalRequestResolve,
}
use programs.Instructions.Strategies.Close
use programs.Instructions.Strategies.Close.{VaultCloseStrategy}
use programs.Instructions.Strategies.Jupiter
use programs.Instructions.Strategies.Jupiter.{JupiterInitializeStrategy, JupiterSwap}
use programs.Instructions.Strategies.Meteora
use programs.Instructions.Strategies.Meteora.{
  MeteoraDlmmInitializePosition, MeteoraDlmmExtendPosition, MeteoraDlmmLiquidity, Treasury,
}
use programs.Instructions.Strategies.Phoenix
use programs.Instructions.Strategies.Phoenix.{
  PhoenixInitializeStrategy, PhoenixTrading, PhoenixMarketOrderParams, PhoenixLimitOrderParams,
}
use programs.Instructions.Strategies.Phoenix.Funds
use programs.Instructions.Strategies.Phoenix.Funds.{
  PhoenixDepositFunds, PhoenixWithdrawFunds, PhoenixEmberWithdraw,
}

-- What a transaction asks of the program.
pub data Instruction : Type 0 where
  config_initialize : (a : ConfigInitialize) (args : ConfigInitializeArgs) → Instruction
  config_update : (a : ConfigUpdate) (args : ConfigUpdateArgs) → Instruction
  config_add_manager : (a : ConfigAddManager) → Instruction
  config_remove_manager : (a : ConfigRemoveManager) → Instruction
  config_claim_platform_fee : (a : ConfigClaimPlatformFee) → Instruction
  config_migrate : (a : ConfigMigrate) → Instruction
  nav_override : (a : NavOverride) (total_assets : ℕ) → Instruction
  deposit_request_reject : (a : DepositRequestReject) → Instruction
  withdrawal_request_reject : (a : WithdrawalRequestReject) → Instruction
  config_pause : (a : ConfigPause) → Instruction
  vault_pause : (a : VaultPause) → Instruction
  admin_accept : (a : AdminAccept) → Instruction
  nav_update : (a : NavUpdate) (total_assets : ℕ) → Instruction
  vault_initialize : (a : VaultInitialize) (args : VaultInitializeArgs) → Instruction
  vault_update : (a : VaultUpdate) (args : VaultUpdateArgs) → Instruction
  vault_close : (a : VaultClose) → Instruction
  vault_close_strategy : (a : VaultCloseStrategy) (remaining : List Pubkey) → Instruction
  vault_claim_manager_fee : (a : VaultClaimManagerFee) → Instruction
  deposit_request_create : (a : DepositRequestCreate) (amount : ℕ) → Instruction
  deposit_request_cancel : (a : DepositRequestCancel) → Instruction
  deposit_request_resolve : (a : DepositRequestResolve) → Instruction
  withdrawal_request_create : (a : WithdrawalRequestCreate) (shares : ℕ) → Instruction
  withdrawal_request_cancel : (a : WithdrawalRequestCancel) → Instruction
  withdrawal_request_resolve : (a : WithdrawalRequestResolve) → Instruction
  jupiter_initialize_strategy : (a : JupiterInitializeStrategy) → Instruction
  jupiter_swap :
      (a : JupiterSwap) (remaining : List AccountMeta) (swap_data : List ℕ) (amount : ℕ)
      (slippage_bps : ℕ)
      → Instruction
  meteora_dlmm_initialize_position :
      (a : MeteoraDlmmInitializePosition) (lower_bin_id : ℤ) (upper_bin_id : ℤ) → Instruction
  meteora_dlmm_extend_position : (a : MeteoraDlmmExtendPosition) (bins_to_add : ℕ) → Instruction
  meteora_dlmm_add_liquidity :
      (a : MeteoraDlmmLiquidity) (remaining : List AccountMeta) (liquidity_parameter : List ℕ)
      (remaining_accounts_info : List ℕ)
      → Instruction
  meteora_dlmm_remove_liquidity :
      (a : MeteoraDlmmLiquidity) (remaining : List AccountMeta) (bps_to_remove : ℕ)
      (remaining_accounts_info : List ℕ)
      → Instruction
  meteora_dlmm_remove_liquidity_range :
      (a : MeteoraDlmmLiquidity) (remaining : List AccountMeta) (bps_to_remove : ℕ)
      (remaining_accounts_info : List ℕ) (from_bin_id : ℤ) (to_bin_id : ℤ)
      → Instruction
  meteora_dlmm_claim_fee :
      (a : MeteoraDlmmLiquidity) (treasury : Treasury) (remaining : List AccountMeta)
      (remaining_accounts_info : List ℕ)
      → Instruction
  meteora_dlmm_claim_fee_range :
      (a : MeteoraDlmmLiquidity) (treasury : Treasury) (remaining : List AccountMeta)
      (remaining_accounts_info : List ℕ) (from_bin_id : ℤ) (to_bin_id : ℤ)
      → Instruction
  phoenix_initialize_strategy : (a : PhoenixInitializeStrategy) → Instruction
  phoenix_deposit_funds : (a : PhoenixDepositFunds) (tail : List Pubkey) (amount : ℕ) → Instruction
  phoenix_place_market_order :
      (a : PhoenixTrading) (hawkeye_program : Pubkey) (tail : List Pubkey)
      (params : PhoenixMarketOrderParams)
      → Instruction
  phoenix_place_limit_order :
      (a : PhoenixTrading) (hawkeye_program : Pubkey) (tail : List Pubkey)
      (params : PhoenixLimitOrderParams)
      → Instruction
  phoenix_cancel_orders :
      (a : PhoenixTrading) (tail : List Pubkey) (mode : PhoenixCancelMode) → Instruction
  phoenix_withdraw_funds :
      (a : PhoenixWithdrawFunds) (tail : List Pubkey) (amount : ℕ) → Instruction
  phoenix_ember_withdraw : (a : PhoenixEmberWithdraw) → Instruction

-- The clock is the one that the handler reads; a handler that needs none does not.
module _ (rt : Runtime) (dlmm : Dlmm) (clock : Clock) where
  unfoldable pub process : Instruction → World → Result World
  process (config_initialize a args) w = Lifecycle.config_initialize rt a args w
  process (config_update a args) w = Settings.config_update rt a args w
  process (config_add_manager a) w = Lifecycle.config_add_manager rt a w
  process (config_remove_manager a) w = Lifecycle.config_remove_manager rt a w
  process (config_claim_platform_fee a) w = Navs.config_claim_platform_fee rt a w
  process (config_migrate a) w = Migration.config_migrate rt a w
  process (nav_override a total_assets) w = Navs.nav_override rt a clock total_assets w
  process (deposit_request_reject a) w = Deposits.deposit_request_reject rt a w
  process (withdrawal_request_reject a) w = Withdrawals.withdrawal_request_reject rt a w
  process (config_pause a) w = Settings.config_pause rt a w
  process (vault_pause a) w = Settings.vault_pause rt a w
  process (admin_accept a) w = Settings.admin_accept rt a w
  process (nav_update a total_assets) w = Navs.nav_update rt a clock total_assets w
  process (vault_initialize a args) w = Lifecycle.vault_initialize rt a args clock w
  process (vault_update a args) w = Settings.vault_update rt a args clock w
  process (vault_close a) w = Lifecycle.vault_close rt a w
  process (vault_close_strategy a remaining) w = Close.vault_close_strategy rt dlmm a remaining w
  process (vault_claim_manager_fee a) w = Navs.vault_claim_manager_fee rt a w
  process (deposit_request_create a amount) w = Deposits.deposit_request_create rt a clock amount w
  process (deposit_request_cancel a) w = Deposits.deposit_request_cancel rt a w
  process (deposit_request_resolve a) w = Deposits.deposit_request_resolve rt a w
  process (withdrawal_request_create a shares) w =
      Withdrawals.withdrawal_request_create rt a clock shares w
  process (withdrawal_request_cancel a) w = Withdrawals.withdrawal_request_cancel rt a w
  process (withdrawal_request_resolve a) w = Withdrawals.withdrawal_request_resolve rt a w
  process (jupiter_initialize_strategy a) w = Jupiter.jupiter_initialize_strategy rt a clock w
  process (jupiter_swap a remaining swap_data amount slippage_bps) w =
      Jupiter.jupiter_swap rt a clock swap_data remaining amount slippage_bps w
  process (meteora_dlmm_initialize_position a lower_bin_id upper_bin_id) w =
      Meteora.meteora_dlmm_initialize_position rt dlmm a clock lower_bin_id upper_bin_id w
  process (meteora_dlmm_extend_position a bins_to_add) w =
      Meteora.meteora_dlmm_extend_position rt dlmm a bins_to_add w
  process (meteora_dlmm_add_liquidity a remaining liquidity_parameter remaining_accounts_info) w =
      Meteora.meteora_dlmm_add_liquidity rt dlmm a clock remaining liquidity_parameter
        remaining_accounts_info w
  process (meteora_dlmm_remove_liquidity a remaining bps_to_remove remaining_accounts_info) w =
      Meteora.meteora_dlmm_remove_liquidity rt dlmm a clock remaining bps_to_remove
        remaining_accounts_info none w
  process
        (meteora_dlmm_remove_liquidity_range a remaining bps_to_remove remaining_accounts_info
          from_bin_id to_bin_id)
        w =
      Meteora.meteora_dlmm_remove_liquidity rt dlmm a clock remaining bps_to_remove
        remaining_accounts_info (some (from_bin_id, to_bin_id)) w
  process (meteora_dlmm_claim_fee a treasury remaining remaining_accounts_info) w =
      Meteora.meteora_dlmm_claim_fee rt dlmm a treasury clock remaining remaining_accounts_info none
        w
  process
        (meteora_dlmm_claim_fee_range a treasury remaining remaining_accounts_info from_bin_id
          to_bin_id)
        w =
      Meteora.meteora_dlmm_claim_fee rt dlmm a treasury clock remaining remaining_accounts_info
        (some (from_bin_id, to_bin_id)) w
  process (phoenix_initialize_strategy a) w = Phoenix.phoenix_initialize_strategy rt a clock w
  process (phoenix_deposit_funds a tail amount) w =
      Funds.phoenix_deposit_funds rt a tail clock amount w
  process (phoenix_place_market_order a hawkeye_program tail params) w =
      Phoenix.phoenix_place_market_order rt a hawkeye_program tail clock params w
  process (phoenix_place_limit_order a hawkeye_program tail params) w =
      Phoenix.phoenix_place_limit_order rt a hawkeye_program tail clock params w
  process (phoenix_cancel_orders a tail mode) w =
      Phoenix.phoenix_cancel_orders rt a tail clock mode w
  process (phoenix_withdraw_funds a tail amount) w =
      Funds.phoenix_withdraw_funds rt a tail clock amount w
  process (phoenix_ember_withdraw a) w = Funds.phoenix_ember_withdraw rt a clock w
