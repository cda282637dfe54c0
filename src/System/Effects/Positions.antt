-- ===== src/System/Effects/Positions.antt =====
-- What a successful instruction on the liquidity of a Meteora position did to the accounts.
use programs.Prelude.{ℕ, ◌≡◌, Option, List}
use programs.Prelude.Int.{ℤ}
use programs.Errors.{ok, bind-elim, then-elim, ok-injective}
use programs.SafeMath.{safe_sub}
use programs.Vault
use programs.Vault.{Pubkey, is_vault_withdrawable}
use programs.Config.{is_protocol_operational, validate_treasury_authority}
use programs.Runtime.{Runtime, Clock, AccountMeta}
use programs.World.{World, load, load_config, load_vault, init_token_account}
use programs.Protocol.Dlmm.{Dlmm}
use programs.Instructions.Strategies.{load_operational}
use programs.Instructions.Strategies.Meteora.{
  MeteoraDlmmLiquidity, Treasury, check_position, check_token_accounts, init_treasury, run_claim,
  meteora_dlmm_add_liquidity, meteora_dlmm_remove_liquidity, meteora_dlmm_claim_fee,
}
use programs.Instructions.Strategies.Meteora.Bins.{checked_bin_range}
use programs.System.Effects.Actions.{StrategyActed, record_action-StrategyActed}

abbrev Range : Type 0
Range = Option (ℤ × ℤ)

module _ (rt : Runtime) where
  pub meteora_dlmm_add_liquidity-StrategyActed :
      (dlmm : Dlmm) (a : MeteoraDlmmLiquidity) (clock : Clock) (remaining : List AccountMeta)
      (parameter info : List ℕ) (w : World) {w' : World}
      → meteora_dlmm_add_liquidity rt dlmm a clock remaining parameter info w ≡ ok w'
      → StrategyActed w a.strategy w'
  unfolding meteora_dlmm_add_liquidity
  meteora_dlmm_add_liquidity-StrategyActed dlmm a clock remaining parameter info w h =
      bind-elim (load _ _) _ h λ _ found h₁. then-elim (check_token_accounts rt dlmm _) _ h₁ λ _ h₂.
        bind-elim (load_operational rt _ _ _ _) _ h₂ λ _ _ h₃.
          then-elim (check_position rt dlmm _ _) _ h₃ λ _ h₄.
            bind-elim (dlmm.add_liquidity_by_strategy2 _ _ _ _ _ _) _ h₄ λ _ _ h₅.
              bind-elim (safe_sub _ _) _ h₅ λ _ _ h₆.
                bind-elim (safe_sub _ _) _ h₆
                  λ _ _ last. record_action-StrategyActed _ _ _ _ w found (ok-injective last)

  pub meteora_dlmm_remove_liquidity-StrategyActed :
      (dlmm : Dlmm) (a : MeteoraDlmmLiquidity) (clock : Clock) (remaining : List AccountMeta)
      (bps : ℕ) (info : List ℕ) (range : Range) (w : World) {w' : World}
      → meteora_dlmm_remove_liquidity rt dlmm a clock remaining bps info range w ≡ ok w'
      → StrategyActed w a.strategy w'
  unfolding meteora_dlmm_remove_liquidity
  meteora_dlmm_remove_liquidity-StrategyActed dlmm a clock remaining bps info range w h =
      bind-elim (load _ _) _ h λ _ found h₁. then-elim (check_token_accounts rt dlmm _) _ h₁ λ _ h₂.
        bind-elim (init_token_account _ _ _ _ _ _ _) _ h₂ λ _ _ h₃.
          bind-elim (init_token_account _ _ _ _ _ _ _) _ h₃ λ _ _ h₄.
            bind-elim (dlmm.load_position _ _) _ h₄ λ _ _ h₅.
              bind-elim (load_config rt _ _) _ h₅ λ _ _ h₆.
                then-elim (is_protocol_operational _) _ h₆ λ _ h₇.
                  bind-elim (load_vault rt _ _) _ h₇ λ _ _ h₈.
                    then-elim (Vault.validate_authority _ _) _ h₈ λ _ h₉.
                      then-elim (is_vault_withdrawable _) _ h₉ λ _ h₁₀.
                        then-elim (check_position rt dlmm _ _) _ h₁₀ λ _ h₁₁.
                          bind-elim (checked_bin_range _ _ _) _ h₁₁ λ _ _ h₁₂.
                            bind-elim (dlmm.remove_liquidity_by_range2 _ _ _ _ _ _ _ _) _ h₁₂
                              λ _ _ h₁₃. bind-elim (safe_sub _ _) _ h₁₃ λ _ _ h₁₄.
                                bind-elim (safe_sub _ _) _ h₁₄ λ _ _ last.
                                  record_action-StrategyActed _ _ _ _ w found (ok-injective last)

  pub meteora_dlmm_claim_fee-StrategyActed :
      (dlmm : Dlmm) (a : MeteoraDlmmLiquidity) (treasury : Treasury) (clock : Clock)
      (remaining : List AccountMeta) (info : List ℕ) (range : Range) (w : World) {w' : World}
      → meteora_dlmm_claim_fee rt dlmm a treasury clock remaining info range w ≡ ok w'
      → StrategyActed w a.strategy w'
  unfolding meteora_dlmm_claim_fee
  meteora_dlmm_claim_fee-StrategyActed dlmm a treasury clock remaining info range w h =
      bind-elim (load _ _) _ h λ _ found h₁. then-elim (check_token_accounts rt dlmm _) _ h₁ λ _ h₂.
        bind-elim (init_treasury rt dlmm _ _ _) _ h₂ λ _ _ h₃.
          bind-elim (dlmm.load_position _ _) _ h₃ λ _ _ h₄.
            bind-elim (load_config rt _ _) _ h₄ λ _ _ h₅.
              then-elim (is_protocol_operational _) _ h₅ λ _ h₆.
                then-elim (validate_treasury_authority _ _) _ h₆ λ _ h₇.
                  bind-elim (load_vault rt _ _) _ h₇ λ _ _ h₈.
                    then-elim (Vault.validate_authority _ _) _ h₈ λ _ h₉.
                      then-elim (is_vault_withdrawable _) _ h₉ λ _ h₁₀.
                        then-elim (check_position rt dlmm _ _) _ h₁₀ λ _ h₁₁.
                          bind-elim (checked_bin_range _ _ _) _ h₁₁ λ _ _ h₁₂.
                            bind-elim (run_claim rt dlmm _ _ _ _ _ _ _ _) _ h₁₂ λ _ _ last.
                              record_action-StrategyActed _ _ _ _ w found (ok-injective last)
