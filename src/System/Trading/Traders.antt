-- ===== src/System/Trading/Traders.antt =====
-- Which trader, which token account and which part of the state an instruction on Phoenix is about.
use programs.Prelude.{ℕ, ◌≡◌, ◌∙◌, sym, ap, subst, some, arith, ◌==◌}
use programs.Errors.{HedgeVaultError, ok, validate, constraint, bind-elim, then-elim}
use programs.Accounts.{lookup}
use programs.Vault.{Pubkey}
use programs.Strategy
use programs.Strategy.{StrategyType, Strategy}
use programs.Seeds.{strategy_seeds, validate_pda}
use programs.Runtime.{Runtime, Ledger}
use programs.World.{World, load}
use programs.Protocol.Phoenix.{phoenix_global_configuration}
use programs.Protocol.Phoenix.Accounts.{PhoenixGlobalConfig, load_global_config, validate_account}
use programs.Instructions.Strategies.{trader_account_of, validate_strategy, check_phoenix_strategy}
use programs.Instructions.Strategies.Phoenix.{check_phoenix_addresses}
use programs.Instructions.Strategies.Phoenix.Funds.{EmberAccounts, check_ember}
use programs.System.Effects.Strategies.{load-lookup}

-- Only strategies and the ledger are written.
abbrev pub WithinTrading : World → World → Type 0
WithinTrading w w' = record w { strategies = w'.strategies; ledger = w'.ledger } ≡ w'

-- A stored strategy of the vault is on the trader account, and stands at the address derived from
-- the two.
pub record TraderOf (rt : Runtime) (w : World) (vault key trader_account : Pubkey) : Type 0 where
  pub strategy : Strategy
  pub found : lookup key w.strategies ≡ some strategy
  pub named : strategy.strategy_type ≡ Strategy.phoenix_perp trader_account
  pub derived :
      rt.create_program_address (strategy_seeds vault trader_account strategy.bump) ≡ some key

-- The vault's own account of the canonical mint that Phoenix's configuration names.
pub record CanonicalOf (rt : Runtime) (l : Ledger) (phoenix_config : PhoenixGlobalConfig)
    (vault account : Pubkey) : Type 0 where
  pub configured : load_global_config l phoenix_global_configuration ≡ ok phoenix_config
  pub at : account ≡ rt.associated_token_address vault phoenix_config.canonical_mint rt.token_id

pub validate-same : (a b : ℕ) (e : HedgeVaultError) → validate (a == b) e ≡ ok tt → a ≡ b
unfolding validate
validate-same a b e h = ground arith

pub constraint-same : (a b : ℕ) → constraint (a == b) ≡ ok tt → a ≡ b
unfolding constraint
constraint-same a b h = ground arith

trader_account_of-phoenix :
    (t : StrategyType) (k : Pubkey) → trader_account_of t ≡ ok k → t ≡ Strategy.phoenix_perp k
unfolding trader_account_of
trader_account_of-phoenix (Strategy.jupiter_swap x) k h = cc
trader_account_of-phoenix (Strategy.meteora_dlmm x) k h = cc
trader_account_of-phoenix (Strategy.phoenix_perp x) k h = cc

pub account_is : (expected k : Pubkey) → validate_account expected k ≡ ok tt → expected ≡ k
unfolding validate_account
account_is expected k h = validate-same _ _ _ h

module _ (rt : Runtime) where
  validate_strategy-derived :
      (s : Strategy) (vault account key : Pubkey)
      → validate_strategy rt s vault account key ≡ ok tt
      → rt.create_program_address (strategy_seeds vault account s.bump) ≡ some key
  unfolding validate_strategy validate_pda validate
  validate_strategy-derived s vault account key h = ground arith

  pub check_phoenix_strategy-TraderOf :
      (w : World) (s : Strategy) (vault trader key : Pubkey)
      → load w.strategies key ≡ ok s
      → check_phoenix_strategy rt s vault trader key ≡ ok tt
      → TraderOf rt w vault key trader
  unfolding check_phoenix_strategy
  check_phoenix_strategy-TraderOf w s vault trader key found h =
      then-elim (validate_strategy rt _ _ _ _) _ h λ at h₁.
        bind-elim (trader_account_of _) _ h₁ λ k is same. record {
          strategy = s;
          found = load-lookup w.strategies key found;
          named =
              trader_account_of-phoenix _ _ is
              ∙ ap (λ k. Strategy.phoenix_perp k) (validate-same _ _ _ same);
          derived = validate_strategy-derived s vault trader key at;
        }

  check_ember-canonical :
      (e : EmberAccounts) (vault : Pubkey)
      → check_ember rt e vault ≡ ok tt
      → e.vault_canonical_token_account
        ≡ rt.associated_token_address vault e.canonical_mint rt.token_id
  unfolding check_ember
  check_ember-canonical e vault h = then-elim (constraint _) _ h λ _ h₁.
      then-elim (constraint _) _ h₁ λ _ h₂. then-elim (constraint _) _ h₂ λ at h₃.
        then-elim (constraint _) _ h₃ λ _ h₄. then-elim (constraint _) _ h₄ λ _ h₅.
          then-elim (constraint _) _ h₅ λ _ program.
            constraint-same _ _ at
            ∙ ap (λ p. rt.associated_token_address vault e.canonical_mint p)
                (constraint-same _ _ program)

  check_phoenix_addresses-config :
      (global_config log_authority phoenix_program : Pubkey)
      → check_phoenix_addresses global_config log_authority phoenix_program ≡ ok tt
      → global_config ≡ phoenix_global_configuration
  unfolding check_phoenix_addresses
  check_phoenix_addresses-config global_config log_authority phoenix_program h =
      then-elim (constraint _) _ h λ at _. constraint-same _ _ at

  pub checked-CanonicalOf :
      (e : EmberAccounts) (vault config_key log_authority phoenix_program : Pubkey) (l : Ledger)
      (c : PhoenixGlobalConfig)
      → check_ember rt e vault ≡ ok tt
      → check_phoenix_addresses config_key log_authority phoenix_program ≡ ok tt
      → load_global_config l config_key ≡ ok c
      → validate_account c.canonical_mint e.canonical_mint ≡ ok tt
      → CanonicalOf rt l c vault e.vault_canonical_token_account
  checked-CanonicalOf e vault config_key log_authority phoenix_program l c ember at loaded mint =
      record {
        configured =
            subst (λ k. load_global_config l k ≡ ok c) (check_phoenix_addresses-config _ _ _ at)
              loaded;
        at =
            check_ember-canonical e vault ember
            ∙ ap (λ m. rt.associated_token_address vault m rt.token_id) (sym (account_is _ _ mint));
      }
