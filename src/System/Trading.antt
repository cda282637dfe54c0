-- ===== src/System/Trading.antt =====
-- What an instruction on a strategy that succeeds went through: the states it asked for, and what it
-- measured around the calls of other programs.
pub mod Traders
pub mod Swaps
pub mod Orders
pub mod Funds
mod Tests
use programs.Prelude.{ℕ, ◌≡◌, ◌≢◌, arith, some, subst}
use programs.Errors.{ok, validate, bind-elim, then-elim, ok-injective}
use programs.Accounts.{lookup}
use programs.Vault
use programs.Vault.{Pubkey, Vault, validate_authority, is_vault_operational, is_vault_withdrawable}
use programs.Config
use programs.Config.{Config, is_protocol_operational, is_protocol_withdrawable}
use programs.Runtime.{Runtime}
use programs.World.{World, load_config, load_vault}
use programs.Instructions.Strategies.{load_operational, load_withdrawable}
use programs.System.Effects.{load_vault-lookup}
use programs.System.Guards.{load_config-lookup, protocol_is_normal, vault_is_normal}

-- The signer is the vault's authority, and the protocol and the vault run normally.
pub record Operational (w : World) (config_key vault_key authority : Pubkey) (c : Config)
    (v : Vault) : Type 0 where
  pub configured : lookup config_key w.configs ≡ some c
  pub held : lookup vault_key w.vaults ≡ some v
  pub protocol_runs : c.status ≡ Config.normal
  pub vault_runs : v.status ≡ Vault.normal
  pub signed : authority ≡ v.authority

pub authority_signs : (v : Vault) (k : Pubkey) → validate_authority v k ≡ ok tt → k ≡ v.authority
unfolding validate_authority validate
authority_signs v k h = ground arith

pub load_operational-Operational :
    (rt : Runtime) (w : World) (config_key vault_key authority : Pubkey) {c : Config} {v : Vault}
    → load_operational rt w config_key vault_key authority ≡ ok (c, v)
    → Operational w config_key vault_key authority c v
unfolding load_operational
load_operational-Operational rt w config_key vault_key authority {c} {v} h =
    bind-elim (load_config rt w _) _ h λ config found h₁.
      then-elim (is_protocol_operational _) _ h₁ λ runs h₂.
        bind-elim (load_vault rt w _) _ h₂ λ vault held h₃.
          then-elim (validate_authority _ _) _ h₃ λ signed h₄.
            then-elim (is_vault_operational _) _ h₄ λ active h₅.
              let same_config : config ≡ c = cc (ok-injective h₅) in
              let same_vault : vault ≡ v = cc (ok-injective h₅) in
              subst (λ c. Operational w config_key vault_key authority c v) same_config
                (subst (λ v. Operational w config_key vault_key authority config v) same_vault
                  (record {
                    configured = load_config-lookup rt w _ found;
                    held = load_vault-lookup rt w _ held;
                    protocol_runs = protocol_is_normal _ runs;
                    vault_runs = vault_is_normal _ active;
                    signed = authority_signs _ _ signed;
                  }))

-- The signer is the vault's authority, and neither the protocol nor the vault is paused.
pub record Leaving (w : World) (config_key vault_key authority : Pubkey) (c : Config) (v : Vault)
    : Type 0 where
  pub configured : lookup config_key w.configs ≡ some c
  pub held : lookup vault_key w.vaults ≡ some v
  pub protocol_open : c.status ≢ Config.paused
  pub vault_open : v.status ≢ Vault.paused
  pub signed : authority ≡ v.authority

protocol_is_open : (c : Config) → is_protocol_withdrawable c ≡ ok tt → c.status ≢ Config.paused
unfolding is_protocol_withdrawable validate
protocol_is_open c h = ground arith

vault_is_open : (v : Vault) → is_vault_withdrawable v ≡ ok tt → v.status ≢ Vault.paused
unfolding is_vault_withdrawable validate
vault_is_open v h = ground arith

pub load_withdrawable-Leaving :
    (rt : Runtime) (w : World) (config_key vault_key authority : Pubkey) {c : Config} {v : Vault}
    → load_withdrawable rt w config_key vault_key authority ≡ ok (c, v)
    → Leaving w config_key vault_key authority c v
unfolding load_withdrawable
load_withdrawable-Leaving rt w config_key vault_key authority {c} {v} h =
    bind-elim (load_config rt w _) _ h λ config found h₁.
      then-elim (is_protocol_withdrawable _) _ h₁ λ runs h₂.
        bind-elim (load_vault rt w _) _ h₂ λ vault held h₃.
          then-elim (validate_authority _ _) _ h₃ λ signed h₄.
            then-elim (is_vault_withdrawable _) _ h₄ λ active h₅.
              let same_config : config ≡ c = cc (ok-injective h₅) in
              let same_vault : vault ≡ v = cc (ok-injective h₅) in
              subst (λ c. Leaving w config_key vault_key authority c v) same_config
                (subst (λ v. Leaving w config_key vault_key authority config v) same_vault
                  (record {
                    configured = load_config-lookup rt w _ found;
                    held = load_vault-lookup rt w _ held;
                    protocol_open = protocol_is_open _ runs;
                    vault_open = vault_is_open _ active;
                    signed = authority_signs _ _ signed;
                  }))
