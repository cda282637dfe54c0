-- ===== src/System/Effects/Navs.antt =====
-- What a successful NAV instruction or fee claim did to the accounts.
use programs.Prelude.{ℕ, ◌≡◌, inl, inr, some, arith}
use programs.Errors.{ok, constraint, validate, bind-elim, then-elim, ok-injective}
use programs.Accounts.{lookup, insert}
use programs.Vault
use programs.Vault.{
  Pubkey, Vault, NavUpdateArgs, NavFeeShares, validate_deposit_mint, validate_share_mint,
}
use programs.Vault.Fees.{apply_pending_fees, claim_manager_fee, claim_platform_fee}
use programs.Vault.Nav.{record_nav, update_nav}
use programs.Vault.Nav.Update.{update_nav-Updated}
use programs.Config.{validate_admin, validate_nav_updater, validate_treasury_authority}
use programs.Runtime.{Runtime, Ledger, Clock}
use programs.World.{World, load_config, load_vault, init_token_account}
use programs.Instructions.Navs.{
  NavUpdate, NavOverride, VaultClaimManagerFee, ConfigClaimPlatformFee, nav_update, nav_override,
  vault_claim_manager_fee, config_claim_platform_fee,
}
use programs.System.Effects.{load_vault-lookup}

-- Two states of a vault that owe the same to pending requests.
pub record OwesAlike (v v' : Vault) : Type 0 where
  pub deposits : v'.pending_deposits ≡ v.pending_deposits
  pub shares : v'.pending_withdrawal_shares ≡ v.pending_withdrawal_shares
  pub counted : v'.open_strategy_count ≡ v.open_strategy_count

update_nav-OwesAlike :
    (v : Vault) (args : NavUpdateArgs) {r : Vault × NavFeeShares}
    → update_nav v args ≡ ok r
    → OwesAlike v r.0
unfolding record_nav apply_pending_fees
update_nav-OwesAlike v args {r} h =
    let up = update_nav-Updated v args {w = r.0} {s = r.1} h in
    elim up.settled [
      | inl (_, e, _) ↦ record {
        deposits = ground (arith, up.recorded);
        shares = ground (arith, up.recorded);
        counted = ground (arith, up.recorded);
      }
      | inr (_, acc) ↦ record {
        deposits = ground (arith, up.recorded, acc.changed);
        shares = ground (arith, up.recorded, acc.changed);
        counted = ground (arith, up.recorded, acc.changed);
      }
    ]

claim_manager_fee-OwesAlike :
    (v : Vault) {r : Vault × ℕ} → claim_manager_fee v ≡ ok r → OwesAlike v r.0
unfolding claim_manager_fee
claim_manager_fee-OwesAlike v h = record {
  deposits = ground arith;
  shares = ground arith;
  counted = ground arith;
}

claim_platform_fee-OwesAlike :
    (v : Vault) {r : Vault × ℕ} → claim_platform_fee v ≡ ok r → OwesAlike v r.0
unfolding claim_platform_fee
claim_platform_fee-OwesAlike v h = record {
  deposits = ground arith;
  shares = ground arith;
  counted = ground arith;
}

-- Only a vault and the ledger changed, and the vault owes as before.
pub record VaultTouched (w : World) (vault_key : Pubkey) (w' : World) : Type 0 where
  pub vault : Vault
  pub vault' : Vault
  pub ledger : Ledger
  pub vault_found : lookup vault_key w.vaults ≡ some vault
  pub owes : OwesAlike vault vault'
  pub final : record w { vaults = insert vault_key vault' w.vaults; ledger = ledger } ≡ w'

module _ (rt : Runtime) where
  pub nav_update-VaultTouched :
      (a : NavUpdate) (clock : Clock) (total_assets : ℕ) (w : World) {w' : World}
      → nav_update rt a clock total_assets w ≡ ok w'
      → VaultTouched w a.vault w'
  unfolding nav_update
  nav_update-VaultTouched a clock total_assets w h = then-elim (constraint _) _ h λ _ h₁.
      bind-elim (load_config _ _ _) _ h₁ λ config _ h₂.
        then-elim (validate_nav_updater _ _) _ h₂ λ _ h₃.
          bind-elim (load_vault _ _ _) _ h₃ λ vault ev h₄.
            then-elim (validate_deposit_mint _ _) _ h₄ λ _ h₅.
              then-elim (validate_share_mint _ _) _ h₅ λ _ h₆. then-elim (validate _ _) _ h₆ λ _ h₇.
                bind-elim (update_nav _ _) _ h₇ λ r eu h₈. record {
                  vault = vault;
                  vault' = r.0;
                  ledger = _;
                  vault_found = load_vault-lookup rt w a.vault ev;
                  owes = update_nav-OwesAlike _ _ eu;
                  final = ok-injective h₈;
                }

  pub nav_override-VaultTouched :
      (a : NavOverride) (clock : Clock) (total_assets : ℕ) (w : World) {w' : World}
      → nav_override rt a clock total_assets w ≡ ok w'
      → VaultTouched w a.vault w'
  unfolding nav_override
  nav_override-VaultTouched a clock total_assets w h = then-elim (constraint _) _ h λ _ h₁.
      bind-elim (load_config _ _ _) _ h₁ λ config _ h₂. then-elim (validate_admin _ _) _ h₂ λ _ h₃.
        bind-elim (load_vault _ _ _) _ h₃ λ vault ev h₄.
          then-elim (validate_deposit_mint _ _) _ h₄ λ _ h₅.
            then-elim (validate_share_mint _ _) _ h₅ λ _ h₆. then-elim (validate _ _) _ h₆ λ _ h₇.
              bind-elim (update_nav _ _) _ h₇ λ r eu h₈. record {
                vault = vault;
                vault' = r.0;
                ledger = _;
                vault_found = load_vault-lookup rt w a.vault ev;
                owes = update_nav-OwesAlike _ _ eu;
                final = ok-injective h₈;
              }

  pub vault_claim_manager_fee-VaultTouched :
      (a : VaultClaimManagerFee) (w : World) {w' : World}
      → vault_claim_manager_fee rt a w ≡ ok w'
      → VaultTouched w a.vault w'
  unfolding vault_claim_manager_fee
  vault_claim_manager_fee-VaultTouched a w h = then-elim (constraint _) _ h λ _ h₁.
      bind-elim (init_token_account _ _ _ _ _ _ _) _ h₁ λ _ _ h₂.
        bind-elim (load_vault _ _ _) _ h₂ λ vault ev h₃.
          then-elim (Vault.validate_authority _ _) _ h₃ λ _ h₄.
            then-elim (validate_share_mint _ _) _ h₄ λ _ h₅.
              bind-elim (claim_manager_fee _) _ h₅ λ r eu h₆.
                bind-elim (rt.mint_to _ _ _ _ _ _) _ h₆ λ _ _ h₇. record {
                  vault = vault;
                  vault' = r.0;
                  ledger = _;
                  vault_found = load_vault-lookup rt w a.vault ev;
                  owes = claim_manager_fee-OwesAlike _ eu;
                  final = ok-injective h₇;
                }

  pub config_claim_platform_fee-VaultTouched :
      (a : ConfigClaimPlatformFee) (w : World) {w' : World}
      → config_claim_platform_fee rt a w ≡ ok w'
      → VaultTouched w a.vault w'
  unfolding config_claim_platform_fee
  config_claim_platform_fee-VaultTouched a w h = then-elim (constraint _) _ h λ _ h₁.
      bind-elim (init_token_account _ _ _ _ _ _ _) _ h₁ λ _ _ h₂.
        bind-elim (load_config _ _ _) _ h₂ λ config _ h₃.
          then-elim (validate_treasury_authority _ _) _ h₃ λ _ h₄.
            bind-elim (load_vault _ _ _) _ h₄ λ vault ev h₅.
              then-elim (validate_share_mint _ _) _ h₅ λ _ h₆.
                bind-elim (claim_platform_fee _) _ h₆ λ r eu h₇.
                  bind-elim (rt.mint_to _ _ _ _ _ _) _ h₇ λ _ _ h₈. record {
                    vault = vault;
                    vault' = r.0;
                    ledger = _;
                    vault_found = load_vault-lookup rt w a.vault ev;
                    owes = claim_platform_fee-OwesAlike _ eu;
                    final = ok-injective h₈;
                  }
