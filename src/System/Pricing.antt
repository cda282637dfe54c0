-- ===== src/System/Pricing.antt =====
-- What posting a NAV guarantees of the world after it.
use programs.Prelude.{ℕ, ◌≤◌, ◌<◌, ◌≡◌, subst, arith, some, leb, ◌==◌}
use programs.Errors.{ok, constraint, validate, HedgeVaultError, bind-elim, then-elim, ok-injective}
use programs.Accounts.{lookup, lookup-insert_same}
use programs.Vault.{Pubkey, Vault, epoch, validate_deposit_mint, validate_share_mint}
use programs.Vault.Nav.{update_nav}
use programs.Vault.Nav.Update.{update_nav-IsSolvent, update_nav_stamps}
use programs.Vault.Invariant.{IsSolvent}
use programs.Config.{Config, validate_admin, validate_nav_updater}
use programs.Runtime.{Runtime, Clock}
use programs.World.{World, load_config, load_vault}
use programs.Instructions.Navs.{NavUpdate, NavOverride, nav_update, nav_override}
use programs.System.Effects.{load_vault-lookup}
use programs.System.Guards.{load_config-lookup}

validate-holds : (a b : ℕ) (e : HedgeVaultError) → validate (leb a b) e ≡ ok tt → a ≤ b
unfolding validate
validate-holds a b e h = ground arith

nav_updater_signs : (c : Config) (k : Pubkey) → validate_nav_updater c k ≡ ok tt → k ≡ c.nav_updater
unfolding validate_nav_updater validate
nav_updater_signs c k h = ground arith

admin_signs : (c : Config) (k : Pubkey) → validate_admin c k ≡ ok tt → k ≡ c.admin
unfolding validate_admin validate
admin_signs c k h = ground arith

idle_account : (k j : Pubkey) → constraint (k == j) ≡ ok tt → k ≡ j
unfolding constraint
idle_account k j h = ground arith

deposit_mint_matches :
    (v : Vault) (k : Pubkey) → validate_deposit_mint v k ≡ ok tt → k ≡ v.deposit_mint
unfolding validate_deposit_mint validate
deposit_mint_matches v k h = ground arith

share_mint_matches : (v : Vault) (k : Pubkey) → validate_share_mint v k ≡ ok tt → k ≡ v.share_mint
unfolding validate_share_mint validate
share_mint_matches v k h = ground arith

-- The vault before and after, and what its own accounts, its share mint and the clock said.
pub record NavPosted (rt : Runtime) (signer : Config → Pubkey) (w : World)
    (config_key vault_key token_program who : Pubkey) (total_assets now_epoch : ℕ) (w' : World)
    : Type 0 where
  pub config : Config
  pub vault : Vault
  pub vault' : Vault
  pub config_found : lookup config_key w.configs ≡ some config
  pub allowed : who ≡ signer config
  pub vault_found : lookup vault_key w.vaults ≡ some vault
  pub vault_after : lookup vault_key w'.vaults ≡ some vault'
  pub solvent : IsSolvent vault' (w.ledger.supply vault.share_mint)
  pub reported : vault'.total_assets ≡ total_assets
  pub idle_counted :
      w.ledger.amount (rt.associated_token_address vault_key vault.deposit_mint token_program)
      ≤ total_assets
  pub later : vault.nav_epoch < vault'.nav_epoch
  pub stamped : vault'.nav_epoch ≡ now_epoch

module _ (rt : Runtime) where
  -- A successful nav_update was signed by the NAV updater of the named configuration, reports at
  -- least the balance of the vault's own associated account of its deposit mint, for the token
  -- program passed, and leaves under the address of the vault one that is solvent for the supply
  -- of the vault's share mint, with the reported assets, in a later epoch than before, that of the
  -- clock.
  pub nav_update-NavPosted :
      (a : NavUpdate) (clock : Clock) (total_assets : ℕ) (w : World) {w' : World}
      → nav_update rt a clock total_assets w ≡ ok w'
      → NavPosted rt
          (λ c. c.nav_updater)
          w
          a.config
          a.vault
          a.deposit_mint_token_program
          a.nav_updater
          total_assets
          (epoch clock.unix_timestamp)
          w'
  unfolding nav_update
  nav_update-NavPosted a clock total_assets w h = then-elim (constraint _) _ h λ placed h₁.
      bind-elim (load_config _ _ _) _ h₁ λ config ecf h₂.
        then-elim (validate_nav_updater _ _) _ h₂ λ ea h₃.
          bind-elim (load_vault _ _ _) _ h₃ λ vault ev h₄.
            then-elim (validate_deposit_mint _ _) _ h₄ λ mint h₅.
              then-elim (validate_share_mint _ _) _ h₅ λ shares h₆.
                then-elim (validate _ _) _ h₆ λ el h₇. bind-elim (update_nav _ _) _ h₇ λ r eu h₈.
                  let stamps = update_nav_stamps vault _ eu in
                  record {
                    config = config;
                    vault = vault;
                    vault' = r.0;
                    config_found = load_config-lookup rt w a.config ecf;
                    allowed = nav_updater_signs _ _ ea;
                    vault_found = load_vault-lookup rt w a.vault ev;
                    vault_after =
                        subst (λ (u : World). lookup a.vault u.vaults ≡ some r.0) (ok-injective h₈)
                          (lookup-insert_same a.vault r.0 w.vaults);
                    solvent =
                        subst (λ m. IsSolvent r.0 (w.ledger.supply m))
                          (share_mint_matches _ _ shares) (update_nav-IsSolvent vault _ eu);
                    reported = stamps.3;
                    idle_counted =
                        subst
                          (λ m.
                            w.ledger.amount
                              (rt.associated_token_address a.vault m a.deposit_mint_token_program)
                            ≤ total_assets)
                          (deposit_mint_matches _ _ mint)
                          (subst (λ k. w.ledger.amount k ≤ total_assets) (idle_account _ _ placed)
                            (validate-holds _ _ _ el));
                    later = stamps.0;
                    stamped = stamps.1;
                  }

  -- A successful nav_override was signed by the configured admin, reports at least the idle
  -- balance of the vault, and leaves under the address of the vault one that is solvent for the
  -- share supply of the mint, with the reported assets, in a later epoch than before, that of the
  -- clock.
  pub nav_override-NavPosted :
      (a : NavOverride) (clock : Clock) (total_assets : ℕ) (w : World) {w' : World}
      → nav_override rt a clock total_assets w ≡ ok w'
      → NavPosted rt
          (λ c. c.admin)
          w
          a.config
          a.vault
          a.deposit_mint_token_program
          a.admin
          total_assets
          (epoch clock.unix_timestamp)
          w'
  unfolding nav_override
  nav_override-NavPosted a clock total_assets w h = then-elim (constraint _) _ h λ placed h₁.
      bind-elim (load_config _ _ _) _ h₁ λ config ecf h₂.
        then-elim (validate_admin _ _) _ h₂ λ ea h₃.
          bind-elim (load_vault _ _ _) _ h₃ λ vault ev h₄.
            then-elim (validate_deposit_mint _ _) _ h₄ λ mint h₅.
              then-elim (validate_share_mint _ _) _ h₅ λ shares h₆.
                then-elim (validate _ _) _ h₆ λ el h₇. bind-elim (update_nav _ _) _ h₇ λ r eu h₈.
                  let stamps = update_nav_stamps vault _ eu in
                  record {
                    config = config;
                    vault = vault;
                    vault' = r.0;
                    config_found = load_config-lookup rt w a.config ecf;
                    allowed = admin_signs _ _ ea;
                    vault_found = load_vault-lookup rt w a.vault ev;
                    vault_after =
                        subst (λ (u : World). lookup a.vault u.vaults ≡ some r.0) (ok-injective h₈)
                          (lookup-insert_same a.vault r.0 w.vaults);
                    solvent =
                        subst (λ m. IsSolvent r.0 (w.ledger.supply m))
                          (share_mint_matches _ _ shares) (update_nav-IsSolvent vault _ eu);
                    reported = stamps.3;
                    idle_counted =
                        subst
                          (λ m.
                            w.ledger.amount
                              (rt.associated_token_address a.vault m a.deposit_mint_token_program)
                            ≤ total_assets)
                          (deposit_mint_matches _ _ mint)
                          (subst (λ k. w.ledger.amount k ≤ total_assets) (idle_account _ _ placed)
                            (validate-holds _ _ _ el));
                    later = stamps.0;
                    stamped = stamps.1;
                  }
