-- ===== src/System/Effects/Actions.antt =====
-- What a successful instruction that uses a strategy did to the accounts.
use programs.Prelude.{ℕ, ◌≡◌, refl, some, List}
use programs.Prelude.Int.{ℤ}
use programs.Errors.{ok, validate, constraint, bind-elim, then-elim, ok-injective}
use programs.Accounts.{lookup, insert}
use programs.Vault
use programs.Vault.{Pubkey, is_vault_withdrawable}
use programs.Strategy.{Strategy, record_action}
use programs.Runtime.{Runtime, Ledger, Clock, AccountMeta}
use programs.World.{World, load, load_config, load_vault}
use programs.Protocol.Phoenix.Accounts.{
  load_trader, load_global_config, validate_account, validate_authority, is_ready,
  validate_trader_tail,
}
use programs.Protocol.Phoenix.Packets.{PhoenixCancelMode}
use programs.Protocol.Phoenix.Calls.{place_order, cancel_orders, ember_withdraw}
use programs.Instructions.Strategies.{
  load_operational, load_withdrawable, validate_strategy, target_mint_of, trader_account_of,
  check_phoenix_strategy,
}
use programs.Instructions.Strategies.Jupiter.{
  JupiterSwap, init_swap_accounts, swap_target, run_swap, jupiter_swap,
}
use programs.Instructions.Strategies.Phoenix.{
  PhoenixTrading, PhoenixMarketOrderParams, PhoenixLimitOrderParams, check_phoenix_addresses,
  check_order_status, check_trading, check_margin, phoenix_place_market_order,
  phoenix_place_limit_order, phoenix_cancel_orders,
}
use programs.Instructions.Strategies.Phoenix.Funds.{
  PhoenixDepositFunds, PhoenixWithdrawFunds, PhoenixEmberWithdraw, check_ember, move_in, move_out,
  phoenix_deposit_funds, phoenix_withdraw_funds, phoenix_ember_withdraw,
}
use programs.System.Effects.Strategies.{load-lookup}

-- A strategy took part in an action: its vault is the same one, and only it and the ledger changed.
pub record StrategyActed (w : World) (key : Pubkey) (w' : World) : Type 0 where
  pub strategy : Strategy
  pub strategy' : Strategy
  pub ledger : Ledger
  pub strategy_found : lookup key w.strategies ≡ some strategy
  pub same_vault : strategy'.vault ≡ strategy.vault
  pub final : record w { strategies = insert key strategy' w.strategies; ledger = ledger } ≡ w'

pub record_action-StrategyActed :
    (key : Pubkey) (s : Strategy) (now : ℤ) (l : Ledger) (w : World) {w' : World}
    → load w.strategies key ≡ ok s
    → record w { strategies = insert key (record_action s now) w.strategies; ledger = l } ≡ w'
    → StrategyActed w key w'
unfolding record_action
record_action-StrategyActed key s now l w found final = record {
  strategy = s;
  strategy' = record_action s now;
  ledger = l;
  strategy_found = load-lookup w.strategies key found;
  same_vault = refl;
  final = final;
}

module _ (rt : Runtime) where
  pub jupiter_swap-StrategyActed :
      (a : JupiterSwap) (clock : Clock) (swap_data : List ℕ) (remaining : List AccountMeta)
      (amount slippage_bps : ℕ) (w : World) {w' : World}
      → jupiter_swap rt a clock swap_data remaining amount slippage_bps w ≡ ok w'
      → StrategyActed w a.strategy w'
  unfolding jupiter_swap
  jupiter_swap-StrategyActed a clock swap_data remaining amount slippage_bps w h =
      bind-elim (load _ _) _ h λ _ found h₁. bind-elim (init_swap_accounts rt _ _) _ h₁ λ _ _ h₂.
        bind-elim (load_operational rt _ _ _ _) _ h₂ λ _ _ h₃. then-elim (validate _ _) _ h₃ λ _ h₄.
          then-elim (validate _ _) _ h₄ λ _ h₅. bind-elim (swap_target _ _ _) _ h₅ λ _ _ h₆.
            then-elim (validate_strategy rt _ _ _ _) _ h₆ λ _ h₇.
              bind-elim (target_mint_of _) _ h₇ λ _ _ h₈. then-elim (validate _ _) _ h₈ λ _ h₉.
                bind-elim (run_swap rt _ _ _ _ _ _ _ _) _ h₉
                  λ _ _ last. record_action-StrategyActed _ _ _ _ w found (ok-injective last)

  pub phoenix_place_market_order-StrategyActed :
      (a : PhoenixTrading) (hawkeye_program : Pubkey) (tail : List Pubkey) (clock : Clock)
      (params : PhoenixMarketOrderParams) (w : World) {w' : World}
      → phoenix_place_market_order rt a hawkeye_program tail clock params w ≡ ok w'
      → StrategyActed w a.strategy w'
  unfolding phoenix_place_market_order
  phoenix_place_market_order-StrategyActed a hawkeye_program tail clock params w h =
      bind-elim (load _ _) _ h λ _ found h₁. then-elim (check_phoenix_addresses _ _ _) _ h₁ λ _ h₂.
        then-elim (constraint _) _ h₂ λ _ h₃. bind-elim (load_config rt _ _) _ h₃ λ _ _ h₄.
          bind-elim (load_vault rt _ _) _ h₄ λ _ _ h₅.
            then-elim (Vault.validate_authority _ _) _ h₅ λ _ h₆.
              then-elim (check_order_status _ _ _) _ h₆ λ _ h₇.
                then-elim (check_trading rt _ _ _ _) _ h₇ λ _ h₈.
                  bind-elim (place_order rt _ _ _ _ _) _ h₈ λ _ _ h₉.
                    then-elim (validate _ _) _ h₉ λ _ h₁₀.
                      bind-elim (check_margin rt _ _ _ _) _ h₁₀
                        λ _ _ last. record_action-StrategyActed _ _ _ _ w found (ok-injective last)

  pub phoenix_place_limit_order-StrategyActed :
      (a : PhoenixTrading) (hawkeye_program : Pubkey) (tail : List Pubkey) (clock : Clock)
      (params : PhoenixLimitOrderParams) (w : World) {w' : World}
      → phoenix_place_limit_order rt a hawkeye_program tail clock params w ≡ ok w'
      → StrategyActed w a.strategy w'
  unfolding phoenix_place_limit_order
  phoenix_place_limit_order-StrategyActed a hawkeye_program tail clock params w h =
      bind-elim (load _ _) _ h λ _ found h₁. then-elim (check_phoenix_addresses _ _ _) _ h₁ λ _ h₂.
        then-elim (constraint _) _ h₂ λ _ h₃. bind-elim (load_operational rt _ _ _ _) _ h₃ λ _ _ h₄.
          then-elim (check_trading rt _ _ _ _) _ h₄ λ _ h₅.
            bind-elim (place_order rt _ _ _ _ _) _ h₅ λ _ _ h₆.
              bind-elim (check_margin rt _ _ _ _) _ h₆
                λ _ _ last. record_action-StrategyActed _ _ _ _ w found (ok-injective last)

  pub phoenix_cancel_orders-StrategyActed :
      (a : PhoenixTrading) (tail : List Pubkey) (clock : Clock) (mode : PhoenixCancelMode)
      (w : World) {w' : World}
      → phoenix_cancel_orders rt a tail clock mode w ≡ ok w'
      → StrategyActed w a.strategy w'
  unfolding phoenix_cancel_orders
  phoenix_cancel_orders-StrategyActed a tail clock mode w h = bind-elim (load _ _) _ h λ _ found h₁.
      then-elim (check_phoenix_addresses _ _ _) _ h₁ λ _ h₂.
        bind-elim (load_withdrawable rt _ _ _ _) _ h₂ λ _ _ h₃.
          then-elim (check_trading rt _ _ _ _) _ h₃ λ _ h₄.
            bind-elim (cancel_orders rt _ _ _ _ _) _ h₄
              λ _ _ last. record_action-StrategyActed _ _ _ _ w found (ok-injective last)

  pub phoenix_deposit_funds-StrategyActed :
      (a : PhoenixDepositFunds) (tail : List Pubkey) (clock : Clock) (amount : ℕ) (w : World)
      {w' : World}
      → phoenix_deposit_funds rt a tail clock amount w ≡ ok w'
      → StrategyActed w a.strategy w'
  unfolding phoenix_deposit_funds
  phoenix_deposit_funds-StrategyActed a tail clock amount w h =
      bind-elim (load _ _) _ h λ _ found h₁. then-elim (check_ember rt _ _) _ h₁ λ _ h₂.
        then-elim (check_phoenix_addresses _ _ _) _ h₂ λ _ h₃.
          bind-elim (load_operational rt _ _ _ _) _ h₃ λ _ _ h₄.
            then-elim (check_phoenix_strategy rt _ _ _ _) _ h₄ λ _ h₅.
              then-elim (validate _ _) _ h₅ λ _ h₆. bind-elim (load_trader _ _) _ h₆ λ _ _ h₇.
                then-elim (validate_authority _ _) _ h₇ λ _ h₈. then-elim (is_ready _) _ h₈ λ _ h₉.
                  bind-elim (load_global_config _ _) _ h₉ λ _ _ h₁₀.
                    then-elim (validate_account _ _) _ h₁₀ λ _ h₁₁.
                      then-elim (validate_account _ _) _ h₁₁ λ _ h₁₂.
                        then-elim (validate_trader_tail _ _ _) _ h₁₂ λ _ h₁₃.
                          bind-elim (move_in rt _ _ _ _ _) _ h₁₃ λ _ _ last.
                            record_action-StrategyActed _ _ _ _ w found (ok-injective last)

  pub phoenix_withdraw_funds-StrategyActed :
      (a : PhoenixWithdrawFunds) (tail : List Pubkey) (clock : Clock) (amount : ℕ) (w : World)
      {w' : World}
      → phoenix_withdraw_funds rt a tail clock amount w ≡ ok w'
      → StrategyActed w a.strategy w'
  unfolding phoenix_withdraw_funds
  phoenix_withdraw_funds-StrategyActed a tail clock amount w h =
      bind-elim (load _ _) _ h λ _ found h₁. then-elim (check_ember rt _ _) _ h₁ λ _ h₂.
        then-elim (check_phoenix_addresses _ _ _) _ h₂ λ _ h₃.
          bind-elim (load_withdrawable rt _ _ _ _) _ h₃ λ _ _ h₄.
            then-elim (check_phoenix_strategy rt _ _ _ _) _ h₄ λ _ h₅.
              then-elim (validate _ _) _ h₅ λ _ h₆.
                bind-elim (load_global_config _ _) _ h₆ λ _ _ h₇.
                  then-elim (validate_account _ _) _ h₇ λ _ h₈.
                    then-elim (validate_account _ _) _ h₈ λ _ h₉.
                      then-elim (validate_account _ _) _ h₉ λ _ h₁₀.
                        then-elim (validate_account _ _) _ h₁₀ λ _ h₁₁.
                          then-elim (validate_trader_tail _ _ _) _ h₁₁ λ _ h₁₂.
                            bind-elim (move_out rt _ _ _ _ _) _ h₁₂ λ _ _ last.
                              record_action-StrategyActed _ _ _ _ w found (ok-injective last)

  pub phoenix_ember_withdraw-StrategyActed :
      (a : PhoenixEmberWithdraw) (clock : Clock) (w : World) {w' : World}
      → phoenix_ember_withdraw rt a clock w ≡ ok w'
      → StrategyActed w a.strategy w'
  unfolding phoenix_ember_withdraw
  phoenix_ember_withdraw-StrategyActed a clock w h = bind-elim (load _ _) _ h λ _ found h₁.
      then-elim (check_ember rt _ _) _ h₁ λ _ h₂. then-elim (constraint _) _ h₂ λ _ h₃.
        bind-elim (load_withdrawable rt _ _ _ _) _ h₃ λ _ _ h₄.
          bind-elim (trader_account_of _) _ h₄ λ _ _ h₅.
            then-elim (validate_strategy rt _ _ _ _) _ h₅ λ _ h₆.
              bind-elim (load_global_config _ _) _ h₆ λ _ _ h₇.
                then-elim (validate_account _ _) _ h₇ λ _ h₈. then-elim (validate _ _) _ h₈ λ _ h₉.
                  bind-elim (ember_withdraw rt _ _ _ _) _ h₉
                    λ _ _ last. record_action-StrategyActed _ _ _ _ w found (ok-injective last)
