-- ===== src/System/Effects/Strategies.antt =====
-- What a successful instruction that opens or ends a strategy did to the accounts.
use programs.Prelude.{ℕ, ◌+◌, ◌-◌, ◌≤◌, ◌≡◌, refl, arith, Option, none, some, List, ◌==◌}
use programs.Prelude.Int.{ℤ}
use programs.Errors.{HedgeVaultError, ok, validate, constraint, bind-elim, then-elim, ok-injective}
use programs.SafeMath.{safe_add, safe_sub}
use programs.Accounts.{lookup, insert, erase}
use programs.Vault.{
  Pubkey, Vault, increment_strategy_id, increment_open_strategies, decrement_open_strategies,
}
use programs.Strategy
use programs.Strategy.{Strategy, StrategyType}
use programs.Runtime.{Runtime, Ledger, Clock}
use programs.Payout.{close}
use programs.World.{World, load, init_token_account}
use programs.Protocol.Dlmm.{Dlmm}
use programs.Instructions.Strategies.{
  vacant, load_operational, load_withdrawable, init_strategy, open_strategy, validate_strategy,
}
use programs.Instructions.Strategies.Jupiter.{
  JupiterInitializeStrategy, jupiter_initialize_strategy,
}
use programs.Instructions.Strategies.Phoenix.{
  PhoenixInitializeStrategy, register_or_check, check_phoenix_addresses,
  phoenix_initialize_strategy,
}
use programs.Protocol.Phoenix.Accounts.{load_global_config, validate_account}
use programs.Instructions.Strategies.Meteora.{
  MeteoraDlmmInitializePosition, meteora_dlmm_initialize_position,
}
use programs.Instructions.Strategies.Meteora.Bins.{initial_width}
use programs.Instructions.Strategies.Close.{
  VaultCloseStrategy, close_protocol, vault_close_strategy,
}
use programs.System.Trading.{load_operational-Operational, load_withdrawable-Leaving}

-- A vault that counts one strategy more and owes as before.
pub record CountRaised (v v' : Vault) : Type 0 where
  pub deposits : v'.pending_deposits ≡ v.pending_deposits
  pub shares : v'.pending_withdrawal_shares ≡ v.pending_withdrawal_shares
  pub counted : v'.open_strategy_count ≡ v.open_strategy_count + 1

-- A vault that counts one strategy less and owes as before.
pub record CountLowered (v v' : Vault) : Type 0 where
  pub deposits : v'.pending_deposits ≡ v.pending_deposits
  pub shares : v'.pending_withdrawal_shares ≡ v.pending_withdrawal_shares
  pub covered : 1 ≤ v.open_strategy_count
  pub counted : v'.open_strategy_count ≡ v.open_strategy_count - 1

-- A new strategy of a vault.
pub record StrategyOpened (w : World) (vault_key key : Pubkey) (w' : World) : Type 0 where
  pub vault : Vault
  pub vault' : Vault
  pub strategy : Strategy
  pub ledger : Ledger
  pub vault_found : lookup vault_key w.vaults ≡ some vault
  pub free : lookup key w.strategies ≡ none
  pub of_vault : strategy.vault ≡ vault_key
  pub raised : CountRaised vault vault'
  pub final :
      record w {
        vaults = insert vault_key vault' w.vaults;
        strategies = insert key strategy w.strategies;
        ledger = ledger;
      }
      ≡ w'

-- A strategy of a vault is gone.
pub record StrategyClosed (w : World) (vault_key key : Pubkey) (w' : World) : Type 0 where
  pub vault : Vault
  pub vault' : Vault
  pub strategy : Strategy
  pub ledger : Ledger
  pub vault_found : lookup vault_key w.vaults ≡ some vault
  pub strategy_found : lookup key w.strategies ≡ some strategy
  pub of_vault : vault_key ≡ strategy.vault
  pub lowered : CountLowered vault vault'
  pub final :
      record w {
        vaults = insert vault_key vault' w.vaults;
        strategies = erase key w.strategies;
        ledger = ledger;
      }
      ≡ w'

increments-CountRaised :
    (v v₁ v₂ : Vault)
    → increment_strategy_id v ≡ ok v₁
    → increment_open_strategies v₁ ≡ ok v₂
    → CountRaised v v₂
unfolding increment_strategy_id increment_open_strategies safe_add
increments-CountRaised v v₁ v₂ h₁ h₂ = record {
  deposits = ground arith;
  shares = ground arith;
  counted = ground arith;
}

decrement-CountLowered : (v v' : Vault) → decrement_open_strategies v ≡ ok v' → CountLowered v v'
unfolding decrement_open_strategies safe_sub
decrement-CountLowered v v' h = record {
  deposits = ground arith;
  shares = ground arith;
  covered = ground arith;
  counted = ground arith;
}

pub vacant-none {ℓ} : {A : Type ℓ} (o : Option A) → vacant o ≡ ok tt → o ≡ none
unfolding vacant
vacant-none none h = refl
vacant-none (some a) h = cc

new-vault : (args : Strategy.NewStrategyArgs) → (Strategy.new args).vault ≡ args.vault
unfolding Strategy.new
new-vault args = refl

validate-same : (a b : ℕ) (e : HedgeVaultError) → validate (a == b) e ≡ ok tt → b ≡ a
unfolding validate
validate-same a b e h = ground arith

-- What a loaded strategy is.
pub load-lookup {ℓ} :
    {A : Type ℓ} (m : List (ℕ × A)) (key : Pubkey) {a : A}
    → load m key ≡ ok a
    → lookup key m ≡ some a
load-lookup m key h = ground arith

module _ (rt : Runtime) where
  init_strategy-none :
      (w : World) (payer vault protocol_account key : Pubkey) (t : StrategyType) {l : Ledger}
      → init_strategy rt w payer vault protocol_account key t ≡ ok l
      → lookup key w.strategies ≡ none
  unfolding init_strategy
  init_strategy-none w payer vault protocol_account key t h =
      then-elim (constraint _) _ h λ _ h₁. then-elim (vacant _) _ h₁ λ free _. vacant-none _ free

  open_strategy-StrategyOpened :
      (vault_key protocol_account key : Pubkey) (vault : Vault) (t : StrategyType) (now : ℤ)
      (l : Ledger) (w w' : World)
      → lookup vault_key w.vaults ≡ some vault
      → lookup key w.strategies ≡ none
      → open_strategy rt vault_key protocol_account key vault t now l w ≡ ok w'
      → StrategyOpened w vault_key key w'
  unfolding open_strategy
  open_strategy-StrategyOpened vault_key protocol_account key vault t now l w w' held free h =
      bind-elim (increment_strategy_id _) _ h λ v₁ e₁ h₁.
        bind-elim (increment_open_strategies _) _ h₁ λ v₂ e₂ h₂. record {
          vault = vault;
          vault' = v₂;
          strategy = _;
          ledger = l;
          vault_found = held;
          free = free;
          of_vault = new-vault _;
          raised = increments-CountRaised _ _ _ e₁ e₂;
          final = ok-injective h₂;
        }

  pub jupiter_initialize_strategy-StrategyOpened :
      (a : JupiterInitializeStrategy) (clock : Clock) (w : World) {w' : World}
      → jupiter_initialize_strategy rt a clock w ≡ ok w'
      → StrategyOpened w a.vault a.strategy w'
  unfolding jupiter_initialize_strategy
  jupiter_initialize_strategy-StrategyOpened a clock w h =
      bind-elim (init_strategy rt _ _ _ _ _ _) _ h λ l init h₁.
        bind-elim (load_operational rt _ _ _ _) _ h₁ λ both allowed h₂.
          then-elim (validate _ _) _ h₂ λ _ h₃.
            open_strategy-StrategyOpened _ _ _ _ _ _ _ w _
              (load_operational-Operational rt w _ _ _ allowed).held
              (init_strategy-none w _ _ _ _ _ init) h₃

  pub phoenix_initialize_strategy-StrategyOpened :
      (a : PhoenixInitializeStrategy) (clock : Clock) (w : World) {w' : World}
      → phoenix_initialize_strategy rt a clock w ≡ ok w'
      → StrategyOpened w a.vault a.strategy w'
  unfolding phoenix_initialize_strategy
  phoenix_initialize_strategy-StrategyOpened a clock w h = then-elim (constraint _) _ h λ _ h₁.
      bind-elim (init_strategy rt _ _ _ _ _ _) _ h₁ λ l init h₂.
        then-elim (constraint _) _ h₂ λ _ h₃.
          bind-elim (init_token_account _ _ _ _ _ _ _) _ h₃ λ _ _ h₄.
            then-elim (check_phoenix_addresses _ _ _) _ h₄ λ _ h₅.
              bind-elim (load_operational rt _ _ _ _) _ h₅ λ both allowed h₆.
                then-elim (validate _ _) _ h₆ λ _ h₇. then-elim (validate _ _) _ h₇ λ _ h₈.
                  bind-elim (load_global_config _ _) _ h₈ λ _ _ h₉.
                    then-elim (validate_account _ _) _ h₉ λ _ h₁₀.
                      bind-elim (register_or_check _ _ _) _ h₁₀ λ _ _ h₁₁.
                        open_strategy-StrategyOpened _ _ _ _ _ _ _ w _
                          (load_operational-Operational rt w _ _ _ allowed).held
                          (init_strategy-none w _ _ _ _ _ init) h₁₁

  pub meteora_dlmm_initialize_position-StrategyOpened :
      (dlmm : Dlmm) (a : MeteoraDlmmInitializePosition) (clock : Clock) (lower upper : ℤ)
      (w : World) {w' : World}
      → meteora_dlmm_initialize_position rt dlmm a clock lower upper w ≡ ok w'
      → StrategyOpened w a.vault a.strategy w'
  unfolding meteora_dlmm_initialize_position
  meteora_dlmm_initialize_position-StrategyOpened dlmm a clock lower upper w h =
      bind-elim (init_strategy rt _ _ _ _ _ _) _ h λ l init h₁.
        then-elim (constraint _) _ h₁ λ _ h₂.
          bind-elim (load_operational rt _ _ _ _) _ h₂ λ both allowed h₃.
            bind-elim (initial_width _ _) _ h₃ λ _ _ h₄.
              bind-elim (dlmm.initialize_position2 _ _ _ _ _) _ h₄ λ _ _ h₅.
                open_strategy-StrategyOpened _ _ _ _ _ _ _ w _
                  (load_operational-Operational rt w _ _ _ allowed).held
                  (init_strategy-none w _ _ _ _ _ init) h₅

  pub vault_close_strategy-StrategyClosed :
      (dlmm : Dlmm) (a : VaultCloseStrategy) (remaining : List Pubkey) (w : World) {w' : World}
      → vault_close_strategy rt dlmm a remaining w ≡ ok w'
      → StrategyClosed w a.vault a.strategy w'
  unfolding vault_close_strategy
  vault_close_strategy-StrategyClosed dlmm a remaining w h =
      bind-elim (load _ _) _ h λ strategy found h₁.
        bind-elim (load_withdrawable rt _ _ _ _) _ h₁ λ both allowed h₂.
          then-elim (validate _ _) _ h₂ λ same h₃.
            then-elim (validate_strategy rt _ _ _ _) _ h₃ λ _ h₄.
              bind-elim (decrement_open_strategies _) _ h₄ λ v' e h₅.
                bind-elim (close_protocol rt dlmm _ _ _ _ _) _ h₅ λ _ _ h₆.
                  bind-elim (close _ _ _) _ h₆ λ l _ h₇. record {
                    vault = both.1;
                    vault' = v';
                    strategy = strategy;
                    ledger = l;
                    vault_found = (load_withdrawable-Leaving rt w _ _ _ allowed).held;
                    strategy_found = load-lookup w.strategies a.strategy found;
                    of_vault = validate-same _ _ _ same;
                    lowered = decrement-CountLowered _ _ e;
                    final = ok-injective h₇;
                  }
