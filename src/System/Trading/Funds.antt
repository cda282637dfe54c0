-- ===== src/System/Trading/Funds.antt =====
-- Collateral that moves to Phoenix and back.
use programs.Prelude.{
  ℕ, refl, ◌+◌, ◌<◌, ◌≡◌, ◌⊎◌, inl, inr, arith, ap, subst, some, true, false, ◌||◌, List, ltb, ◌==◌,
}
use programs.Errors.{HedgeVaultError, ok, validate, bind-elim, then-elim, ok-injective}
use programs.SafeMath.{safe_sub}
use programs.Vault.{Pubkey, Vault}
use programs.Config.{Config}
use programs.Seeds.{Seed, vault_seeds}
use programs.Runtime.{Runtime, Ledger, Clock}
use programs.World.{World, load}
use programs.Protocol.Phoenix.Accounts.{
  PhoenixTrader, PhoenixGlobalConfig, load_global_config, validate_account, validate_trader_tail,
  load_trader, validate_authority, is_ready,
}
use programs.Protocol.Phoenix.Calls.{deposit_funds, withdraw_funds, ember_deposit, ember_withdraw}
use programs.Instructions.Strategies.{load_operational, load_withdrawable, check_phoenix_strategy}
use programs.Instructions.Strategies.Phoenix.{check_phoenix_addresses}
use programs.Instructions.Strategies.Phoenix.Funds.{
  PhoenixDepositFunds, PhoenixWithdrawFunds, check_ember, move_in, move_out, ember_cpi, deposit_cpi,
  withdraw_cpi, phoenix_deposit_funds, phoenix_withdraw_funds,
}
use programs.System.Trading.Traders.{
  WithinTrading, TraderOf, CanonicalOf, check_phoenix_strategy-TraderOf, checked-CanonicalOf,
  account_is, validate-same,
}
use programs.System.Trading.{
  Operational, load_operational-Operational, Leaving, load_withdrawable-Leaving,
}

-- Collateral on its way in: Ember wraps the amount, Phoenix takes it from the account of the vault,
-- and nothing is left between them.
pub record MovedIn (rt : Runtime) (a : PhoenixDepositFunds) (tail : List Pubkey) (amount : ℕ)
    (seeds : List Seed) (l l' : Ledger) : Type 0 where
  pub wrapped : Ledger
  pub wraps : ember_deposit rt (ember_cpi a.ember a.vault) amount seeds l ≡ ok wrapped
  pub deposits :
      deposit_funds rt
        (deposit_cpi a tail)
        a.ember.vault_canonical_token_account
        a.global_vault
        a.ember.token_program
        amount
        seeds
        wrapped
      ≡ ok l'
  pub nothing_left :
      l'.amount a.ember.vault_canonical_token_account
      ≡ l.amount a.ember.vault_canonical_token_account

move_in-MovedIn :
    (rt : Runtime) (a : PhoenixDepositFunds) (tail : List Pubkey) (amount : ℕ) (seeds : List Seed)
    (l l' : Ledger)
    → move_in rt a tail amount seeds l ≡ ok l'
    → MovedIn rt a tail amount seeds l l'
unfolding move_in
move_in-MovedIn rt a tail amount seeds l l' h =
    bind-elim (ember_deposit rt _ _ _ _) _ h λ wrapped wraps h₁.
      bind-elim (deposit_funds rt _ _ _ _ _ _ _) _ h₁ λ after deposits h₂.
        then-elim (validate _ _) _ h₂ λ same h₃.
          subst (λ l'. MovedIn rt a tail amount seeds l l') (ok-injective h₃)
            (record {
              wrapped = wrapped;
              wraps = wraps;
              deposits = deposits;
              nothing_left = validate-same _ _ _ same;
            })

-- A deposit of collateral that went through.
pub record Wrapped (rt : Runtime) (a : PhoenixDepositFunds) (tail : List Pubkey) (amount : ℕ)
    (w w' : World) : Type 0 where
  pub config : Config
  pub vault : Vault
  pub trader : PhoenixTrader
  pub allowed : Operational w a.config a.vault a.authority config vault
  pub positive : 0 < amount
  pub named : TraderOf rt w a.vault a.strategy a.trader_account
  pub found : load_trader w.ledger a.trader_account ≡ ok trader
  pub owned : trader.authority ≡ a.vault
  pub ready : is_ready trader ≡ ok tt
  pub phoenix_config : PhoenixGlobalConfig
  pub canonical :
      CanonicalOf rt w.ledger phoenix_config a.vault a.ember.vault_canonical_token_account
  pub pooled : phoenix_config.global_vault ≡ a.global_vault
  pub moved : MovedIn rt a tail amount (vault_seeds vault.id vault.bump) w.ledger w'.ledger
  pub within : WithinTrading w w'

validate-positive : (n : ℕ) (e : HedgeVaultError) → validate (ltb 0 n) e ≡ ok tt → 0 < n
unfolding validate
validate-positive n e h = ground arith

trader_owned : (t : PhoenixTrader) (k : Pubkey) → validate_authority t k ≡ ok tt → t.authority ≡ k
unfolding validate_authority validate
trader_owned t k h = ground arith

-- A successful phoenix_deposit_funds, of an amount that is not zero, was signed by the authority
-- of the vault, with the protocol and the vault in their normal status. The trader account is that
-- of a stored strategy of the vault, names the vault as its authority and has all flags of an
-- onboarded trader. Ember was called to wrap the amount, and Phoenix, on the ledger that Ember
-- left, to take the same amount for the trader account out of the vault's own account of the
-- canonical mint of its configuration, into the global vault of that configuration; the ledger
-- that Phoenix left is the final one, and the balance of that account is in it as it was at first.
-- Besides the ledger only strategies were written.
pub phoenix_deposit_funds-Wrapped :
    (rt : Runtime) (a : PhoenixDepositFunds) (tail : List Pubkey) (clock : Clock) (amount : ℕ)
    (w w' : World)
    → phoenix_deposit_funds rt a tail clock amount w ≡ ok w'
    → Wrapped rt a tail amount w w'
unfolding phoenix_deposit_funds
phoenix_deposit_funds-Wrapped rt a tail clock amount w w' h =
    bind-elim (load _ _) _ h λ strategy found h₁. then-elim (check_ember rt _ _) _ h₁ λ wraps h₂.
      then-elim (check_phoenix_addresses _ _ _) _ h₂ λ addressed h₃.
        bind-elim (load_operational rt _ _ _ _) _ h₃ λ both allowed h₄.
          then-elim (check_phoenix_strategy rt _ _ _ _) _ h₄ λ at h₅.
            then-elim (validate _ _) _ h₅ λ positive h₆.
              bind-elim (load_trader _ _) _ h₆ λ trader loaded h₇.
                then-elim (validate_authority _ _) _ h₇ λ owned h₈.
                  then-elim (is_ready _) _ h₈ λ ready h₉.
                    bind-elim (load_global_config _ _) _ h₉ λ phoenix_config configured h₁₀.
                      then-elim (validate_account _ _) _ h₁₀ λ canonical h₁₁.
                        then-elim (validate_account _ _) _ h₁₁ λ global h₁₂.
                          then-elim (validate_trader_tail _ _ _) _ h₁₂ λ tailed h₁₃.
                            bind-elim (move_in rt _ _ _ _ _) _ h₁₃ λ after moved last. record {
                              config = both.0;
                              vault = both.1;
                              trader = trader;
                              allowed = load_operational-Operational rt w _ _ _ allowed;
                              positive = validate-positive _ _ positive;
                              named = check_phoenix_strategy-TraderOf rt w strategy _ _ _ found at;
                              found = loaded;
                              owned = trader_owned _ _ owned;
                              ready = ready;
                              phoenix_config = phoenix_config;
                              pooled = account_is _ _ global;
                              canonical =
                                  checked-CanonicalOf rt a.ember _ _ _ _ w.ledger _ wraps addressed
                                    configured canonical;
                              moved =
                                  subst
                                    (λ l.
                                      MovedIn rt a tail amount (vault_seeds both.1.id both.1.bump)
                                        w.ledger l)
                                    (ap (λ v. v.ledger) (ok-injective last))
                                    (move_in-MovedIn rt a tail _ _ _ _ moved);
                              within = subst (WithinTrading w) (ok-injective last) refl;
                            }

-- A withdrawal. `asked` is the ledger that Phoenix leaves when it is asked for the amount: it paid all
-- of it, which was then unwrapped, or queued all of it, and then its call is all that was done.
pub record Paid (rt : Runtime) (a : PhoenixWithdrawFunds) (tail : List Pubkey) (amount : ℕ)
    (seeds : List Seed) (l l' : Ledger) : Type 0 where
  pub asked : Ledger
  pub asks :
      withdraw_funds rt
        (withdraw_cpi a tail)
        a.perp_asset_map
        a.global_vault
        a.ember.vault_canonical_token_account
        a.ember.token_program
        a.withdraw_queue
        amount
        seeds
        l
      ≡ ok asked
  pub all_or_nothing :
      ((asked.amount a.ember.vault_canonical_token_account
          ≡ l.amount a.ember.vault_canonical_token_account + amount)
        × (ember_withdraw rt (ember_cpi a.ember a.vault) (some amount) seeds asked ≡ ok l'))
      ⊎ ((asked.amount a.ember.vault_canonical_token_account
            ≡ l.amount a.ember.vault_canonical_token_account)
          × (asked ≡ l'))

received_cases :
    (a b received amount : ℕ) (e : HedgeVaultError)
    → safe_sub a b ≡ ok received
    → validate (received == amount || received == 0) e ≡ ok tt
    → 0 < amount
    → ((a ≡ b + amount) × (received ≡ amount) × (ltb 0 received ≡ true))
      ⊎ ((a ≡ b) × (ltb 0 received ≡ false))
unfolding safe_sub validate
received_cases a b received amount e h k p = ground arith

pub move_out-Paid :
    (rt : Runtime) (a : PhoenixWithdrawFunds) (tail : List Pubkey) (amount : ℕ) (seeds : List Seed)
    (l l' : Ledger)
    → 0 < amount
    → move_out rt a tail amount seeds l ≡ ok l'
    → Paid rt a tail amount seeds l l'
unfolding move_out
move_out-Paid rt a tail amount seeds l l' p h =
    bind-elim (withdraw_funds rt _ _ _ _ _ _ _ _ _) _ h λ after asks h₁.
      bind-elim (safe_sub _ _) _ h₁ λ received gain h₂. then-elim (validate _ _) _ h₂ λ whole h₃.
        elim (received_cases _ _ received amount _ gain whole p) [
          | inl full ↦ record {
            asked = after;
            asks = asks;
            all_or_nothing = inl (
              full.0,
              subst
                  (λ n. ember_withdraw rt (ember_cpi a.ember a.vault) (some n) seeds after ≡ ok l')
                  full.1 (rw full.2 at h₃),
            );
          }
          | inr queued ↦ record {
            asked = after;
            asks = asks;
            all_or_nothing = inr (queued.0, ok-injective (rw queued.1 at h₃));
          }
        ]

-- Collateral that was asked back, under the statuses of an exit.
pub record Withdrawn (rt : Runtime) (a : PhoenixWithdrawFunds) (tail : List Pubkey) (amount : ℕ)
    (w w' : World) : Type 0 where
  pub config : Config
  pub vault : Vault
  pub allowed : Leaving w a.config a.vault a.authority config vault
  pub positive : 0 < amount
  pub named : TraderOf rt w a.vault a.strategy a.trader_account
  pub phoenix_config : PhoenixGlobalConfig
  pub canonical :
      CanonicalOf rt w.ledger phoenix_config a.vault a.ember.vault_canonical_token_account
  pub pooled : phoenix_config.global_vault ≡ a.global_vault
  pub queued : phoenix_config.withdraw_queue ≡ a.withdraw_queue
  pub settled : Paid rt a tail amount (vault_seeds vault.id vault.bump) w.ledger w'.ledger
  pub within : WithinTrading w w'

-- A successful phoenix_withdraw_funds, of an amount that is not zero, was signed by the authority
-- of the vault, with neither the protocol nor the vault paused. It is about the trader account of
-- a stored strategy of the vault, the vault's own account of the canonical mint of the
-- configuration of Phoenix, and the global vault and the withdraw queue of that configuration.
-- Phoenix was asked for the amount; in the ledger that it left, either that account rose by the
-- full amount, and the final ledger is the one after Ember was asked to unwrap exactly that
-- amount, or the balance is as before, and the ledger that Phoenix left is the final one. Besides
-- the ledger only strategies were written.
pub phoenix_withdraw_funds-Withdrawn :
    (rt : Runtime) (a : PhoenixWithdrawFunds) (tail : List Pubkey) (clock : Clock) (amount : ℕ)
    (w w' : World)
    → phoenix_withdraw_funds rt a tail clock amount w ≡ ok w'
    → Withdrawn rt a tail amount w w'
unfolding phoenix_withdraw_funds
phoenix_withdraw_funds-Withdrawn rt a tail clock amount w w' h =
    bind-elim (load _ _) _ h λ strategy found h₁. then-elim (check_ember rt _ _) _ h₁ λ wraps h₂.
      then-elim (check_phoenix_addresses _ _ _) _ h₂ λ addressed h₃.
        bind-elim (load_withdrawable rt _ _ _ _) _ h₃ λ both allowed h₄.
          then-elim (check_phoenix_strategy rt _ _ _ _) _ h₄ λ at h₅.
            then-elim (validate _ _) _ h₅ λ positive h₆.
              bind-elim (load_global_config _ _) _ h₆ λ phoenix_config configured h₇.
                then-elim (validate_account _ _) _ h₇ λ canonical h₈.
                  then-elim (validate_account _ _) _ h₈ λ global h₉.
                    then-elim (validate_account _ _) _ h₉ λ map h₁₀.
                      then-elim (validate_account _ _) _ h₁₀ λ queue h₁₁.
                        then-elim (validate_trader_tail _ _ _) _ h₁₁ λ tailed h₁₂.
                          bind-elim (move_out rt _ _ _ _ _) _ h₁₂ λ after moved last. record {
                            config = both.0;
                            vault = both.1;
                            allowed = load_withdrawable-Leaving rt w _ _ _ allowed;
                            positive = validate-positive _ _ positive;
                            named = check_phoenix_strategy-TraderOf rt w strategy _ _ _ found at;
                            phoenix_config = phoenix_config;
                            pooled = account_is _ _ global;
                            queued = account_is _ _ queue;
                            canonical =
                                checked-CanonicalOf rt a.ember _ _ _ _ w.ledger _ wraps addressed
                                  configured canonical;
                            settled =
                                subst
                                  (λ l.
                                    Paid rt a tail amount (vault_seeds both.1.id both.1.bump)
                                      w.ledger l)
                                  (ap (λ v. v.ledger) (ok-injective last))
                                  (move_out-Paid rt a tail _ _ _ _ (validate-positive _ _ positive)
                                    moved);
                            within = subst (WithinTrading w) (ok-injective last) refl;
                          }
