-- ===== src/System/Settings/Effects.antt =====
-- What a successful instruction on the settings did to the accounts.
use programs.Prelude.{ℕ, ◌≡◌, refl}
use programs.Errors.{ok, bind-elim, ok-injective}
use programs.Vault
use programs.Runtime.{Runtime, Clock}
use programs.World.{World, load_config, load_vault}
use programs.Vault.{validate_authority}
use programs.Config.{validate_admin, validate_guardian}
use programs.System.Effects.{load_vault-lookup}
use programs.System.Effects.Navs.{VaultTouched}
use programs.Instructions.Settings.{
  ConfigUpdate, ConfigPause, AdminAccept, VaultUpdate, VaultPause, config_update, config_pause,
  admin_accept, vault_update, vault_pause,
}
use programs.Prelude.{List}
use programs.Errors.{then-elim}
use programs.Vault.{Pubkey, Vault}
use programs.Config.{Config, accept_admin}
use programs.Instructions.Settings.{ConfigUpdateArgs, VaultUpdateArgs, write_config, write_vault}
use programs.System.Effects.Navs.{OwesAlike}
use programs.System.Settings.{write_vault-OwesAlike}

-- Only the configurations changed.
pub record ConfigTouched (w w' : World) : Type 0 where
  pub configs : List (ℕ × Config)
  pub final : record w { configs = configs } ≡ w'

pause-OwesAlike : (v : Vault) → OwesAlike v (Vault.pause v)
unfolding Vault.pause
pause-OwesAlike v = record { deposits = refl; shares = refl; counted = refl }

module _ (rt : Runtime) where
  pub config_update-ConfigTouched :
      (a : ConfigUpdate) (args : ConfigUpdateArgs) (w : World) {w' : World}
      → config_update rt a args w ≡ ok w'
      → ConfigTouched w w'
  unfolding config_update
  config_update-ConfigTouched a args w h = bind-elim (load_config _ _ _) _ h λ _ _ h₁.
      then-elim (validate_admin _ _) _ h₁ λ _ h₂.
        bind-elim (write_config _ _) _ h₂ λ _ _ h₃. record { configs = _; final = ok-injective h₃ }

  pub config_pause-ConfigTouched :
      (a : ConfigPause) (w : World) {w' : World} → config_pause rt a w ≡ ok w' → ConfigTouched w w'
  unfolding config_pause
  config_pause-ConfigTouched a w h = bind-elim (load_config _ _ _) _ h λ _ _ h₁.
      then-elim (validate_guardian _ _) _ h₁ λ _ h₂. record { configs = _; final = ok-injective h₂ }

  pub admin_accept-ConfigTouched :
      (a : AdminAccept) (w : World) {w' : World} → admin_accept rt a w ≡ ok w' → ConfigTouched w w'
  unfolding admin_accept
  admin_accept-ConfigTouched a w h = bind-elim (load_config _ _ _) _ h λ _ _ h₁.
      bind-elim (accept_admin _ _) _ h₁ λ _ _ h₂. record { configs = _; final = ok-injective h₂ }

  pub vault_update-VaultTouched :
      (a : VaultUpdate) (args : VaultUpdateArgs) (clock : Clock) (w : World) {w' : World}
      → vault_update rt a args clock w ≡ ok w'
      → VaultTouched w a.vault w'
  unfolding vault_update
  vault_update-VaultTouched a args clock w h = bind-elim (load_vault _ _ _) _ h λ vault ev h₁.
      then-elim (validate_authority _ _) _ h₁ λ _ h₂. bind-elim (write_vault _ _ _) _ h₂ λ v' eu h₃.
        record {
          vault = vault;
          vault' = v';
          ledger = w.ledger;
          vault_found = load_vault-lookup rt w a.vault ev;
          owes = write_vault-OwesAlike args _ vault eu;
          final = ok-injective h₃;
        }

  pub vault_pause-VaultTouched :
      (a : VaultPause) (w : World) {w' : World}
      → vault_pause rt a w ≡ ok w'
      → VaultTouched w a.vault w'
  unfolding vault_pause
  vault_pause-VaultTouched a w h = bind-elim (load_config _ _ _) _ h λ _ _ h₁.
      then-elim (validate_guardian _ _) _ h₁ λ _ h₂.
        bind-elim (load_vault _ _ _) _ h₂ λ vault ev h₃. record {
          vault = vault;
          vault' = Vault.pause vault;
          ledger = w.ledger;
          vault_found = load_vault-lookup rt w a.vault ev;
          owes = pause-OwesAlike vault;
          final = ok-injective h₃;
        }
