-- ===== src/System/Effects/Lifecycle.antt =====
-- What a successful instruction that begins or ends a configuration, a manager or a vault did to the
-- accounts.
use programs.Prelude.{ℕ, ◌≡◌, refl, some, none, arith, List}
use programs.Errors.{ok, validate, constraint, bind-elim, then-elim, ok-injective}
use programs.Accounts.{lookup, insert, remove}
use programs.Vault
use programs.Vault.{Pubkey, Vault, validate_authority, validate_deposit_mint, validate_share_mint}
use programs.Config.{Config, is_protocol_operational, validate_admin, increment_vault_id}
use programs.Manager
use programs.Manager.{Manager}
use programs.Seeds.{validate_manager_address}
use programs.Runtime.{Runtime, Ledger, Clock}
use programs.Payout.{validate_deposit_mint_extensions, close}
use programs.World.{World, load, load_config, load_vault}
use programs.Protocol.Dlmm.{Dlmm}
use programs.Instructions.Strategies.{vacant, load_operational, validate_strategy}
use programs.Instructions.Strategies.Meteora.{
  MeteoraDlmmExtendPosition, is_position, meteora_dlmm_extend_position,
}
use programs.Instructions.Strategies.Meteora.Bins.{validate_extension}
use programs.Instructions.Lifecycle.{
  ConfigInitialize, ConfigInitializeArgs, ConfigAddManager, ConfigRemoveManager, VaultInitialize,
  VaultInitializeArgs, VaultClose, check_config_args, check_vault_args, check_settled,
  init_vault_accounts, close_vault_accounts, config_initialize, config_add_manager,
  config_remove_manager, vault_initialize, vault_close,
}
use programs.Instructions.Migration.{ConfigMigrate, check_v1, pay_rent, from_bytes, config_migrate}
use programs.System.Effects.{load_vault-lookup}
use programs.System.Effects.Strategies.{vacant-none}

-- No vault, request or strategy changed.
pub record RolesTouched (w w' : World) : Type 0 where
  pub configs : List (ℕ × Config)
  pub managers : List (ℕ × Manager)
  pub ledger : Ledger
  pub final : record w { configs = configs; managers = managers; ledger = ledger } ≡ w'

-- A new vault, which owes nothing and counts no strategy.
pub record VaultOpened (w : World) (vault_key : Pubkey) (w' : World) : Type 0 where
  pub configs : List (ℕ × Config)
  pub vault : Vault
  pub ledger : Ledger
  pub free : lookup vault_key w.vaults ≡ none
  pub deposits : vault.pending_deposits ≡ 0
  pub shares : vault.pending_withdrawal_shares ≡ 0
  pub counted : vault.open_strategy_count ≡ 0
  pub final :
      record w { configs = configs; vaults = insert vault_key vault w.vaults; ledger = ledger } ≡ w'

-- What a vault holds and owes when it is closed: nothing.
pub record Settled (v : Vault) (supply : ℕ) : Type 0 where
  pub no_supply : supply ≡ 0
  pub deposits : v.pending_deposits ≡ 0
  pub shares : v.pending_withdrawal_shares ≡ 0
  pub manager_fees : v.unclaimed_manager_fee_shares ≡ 0
  pub platform_fees : v.unclaimed_platform_fee_shares ≡ 0
  pub counted : v.open_strategy_count ≡ 0
  pub no_assets : v.total_assets ≡ 0

-- A vault is gone.
pub record VaultClosed (w : World) (a : VaultClose) (w' : World) : Type 0 where
  pub vault : Vault
  pub ledger : Ledger
  pub vault_found : lookup a.vault w.vaults ≡ some vault
  pub signed : a.authority ≡ vault.authority
  pub share_mint : a.share_mint ≡ vault.share_mint
  pub settled : Settled vault (w.ledger.supply a.share_mint)
  pub final : record w { vaults = remove a.vault w.vaults; ledger = ledger } ≡ w'

check_settled-Settled : (v : Vault) (supply : ℕ) → check_settled v supply ≡ ok tt → Settled v supply
unfolding check_settled validate
check_settled-Settled v supply h = record {
  no_supply = ground arith;
  deposits = ground arith;
  shares = ground arith;
  manager_fees = ground arith;
  platform_fees = ground arith;
  counted = ground arith;
  no_assets = ground arith;
}

authority_signs : (v : Vault) (k : Pubkey) → validate_authority v k ≡ ok tt → k ≡ v.authority
unfolding validate_authority validate
authority_signs v k h = ground arith

share_mint_matches : (v : Vault) (k : Pubkey) → validate_share_mint v k ≡ ok tt → k ≡ v.share_mint
unfolding validate_share_mint validate
share_mint_matches v k h = ground arith

-- What a new vault starts with.
record Fresh (v : Vault) : Type 0 where
  deposits : v.pending_deposits ≡ 0
  shares : v.pending_withdrawal_shares ≡ 0
  counted : v.open_strategy_count ≡ 0

new-Fresh : (args : Vault.NewVaultArgs) → Fresh (Vault.new args)
unfolding Vault.new
new-Fresh args = record { deposits = refl; shares = refl; counted = refl }

module _ (rt : Runtime) where
  pub config_initialize-RolesTouched :
      (a : ConfigInitialize) (args : ConfigInitializeArgs) (w : World) {w' : World}
      → config_initialize rt a args w ≡ ok w'
      → RolesTouched w w'
  unfolding config_initialize
  config_initialize-RolesTouched a args w h = then-elim (constraint _) _ h λ _ h₁.
      then-elim (vacant _) _ h₁ λ _ h₂. bind-elim (rt.create_account _ _ _ _) _ h₂ λ _ _ h₃.
        then-elim (check_config_args _) _ h₃
          λ _ h₄. record { configs = _; managers = w.managers; ledger = _; final = ok-injective h₄ }

  pub config_add_manager-RolesTouched :
      (a : ConfigAddManager) (w : World) {w' : World}
      → config_add_manager rt a w ≡ ok w'
      → RolesTouched w w'
  unfolding config_add_manager
  config_add_manager-RolesTouched a w h = then-elim (constraint _) _ h λ _ h₁.
      then-elim (vacant _) _ h₁ λ _ h₂. bind-elim (rt.create_account _ _ _ _) _ h₂ λ _ _ h₃.
        bind-elim (load_config rt _ _) _ h₃ λ _ _ h₄.
          then-elim (validate_admin _ _) _ h₄ λ _ h₅. record {
            configs = w.configs;
            managers = _;
            ledger = _;
            final = ok-injective h₅;
          }

  pub config_remove_manager-RolesTouched :
      (a : ConfigRemoveManager) (w : World) {w' : World}
      → config_remove_manager rt a w ≡ ok w'
      → RolesTouched w w'
  unfolding config_remove_manager
  config_remove_manager-RolesTouched a w h = bind-elim (load _ _) _ h λ _ _ h₁.
      bind-elim (load_config rt _ _) _ h₁ λ _ _ h₂. then-elim (validate_admin _ _) _ h₂ λ _ h₃.
        then-elim (validate_manager_address _ _ _) _ h₃ λ _ h₄.
          bind-elim (close _ _ _) _ h₄ λ _ _ h₅. record {
            configs = w.configs;
            managers = _;
            ledger = _;
            final = ok-injective h₅;
          }

  pub config_migrate-RolesTouched :
      (a : ConfigMigrate) (w : World) {w' : World}
      → config_migrate rt a w ≡ ok w'
      → RolesTouched w w'
  unfolding config_migrate
  config_migrate-RolesTouched a w h = then-elim (constraint _) _ h λ _ h₁.
      then-elim (check_v1 _ _ _) _ h₁ λ _ h₂. bind-elim (pay_rent rt _ _) _ h₂ λ _ _ h₃.
        bind-elim (from_bytes _) _ h₃ λ _ _ h₄. record {
          configs = _;
          managers = w.managers;
          ledger = _;
          final = ok-injective h₄;
        }

  pub meteora_dlmm_extend_position-RolesTouched :
      (dlmm : Dlmm) (a : MeteoraDlmmExtendPosition) (bins : ℕ) (w : World) {w' : World}
      → meteora_dlmm_extend_position rt dlmm a bins w ≡ ok w'
      → RolesTouched w w'
  unfolding meteora_dlmm_extend_position
  meteora_dlmm_extend_position-RolesTouched dlmm a bins w h = bind-elim (load _ _) _ h λ _ _ h₁.
      bind-elim (dlmm.load_position _ _) _ h₁ λ _ _ h₂. then-elim (constraint _) _ h₂ λ _ h₃.
        bind-elim (load_operational rt _ _ _ _) _ h₃ λ _ _ h₄.
          then-elim (validate_strategy rt _ _ _ _) _ h₄ λ _ h₅.
            then-elim (is_position _ _) _ h₅ λ _ h₆. then-elim (validate _ _) _ h₆ λ _ h₇.
              then-elim (validate _ _) _ h₇ λ _ h₈.
                then-elim (validate_extension _ _ _) _ h₈ λ _ h₉.
                  bind-elim (dlmm.increase_position_length _ _ _ _ _) _ h₉ λ _ _ last. record {
                    configs = w.configs;
                    managers = w.managers;
                    ledger = _;
                    final = ok-injective last;
                  }

  init_vault_accounts-none :
      (a : VaultInitialize) (c : Config) (w : World) {l : Ledger}
      → init_vault_accounts rt a c w ≡ ok l
      → lookup a.vault w.vaults ≡ none
  unfolding init_vault_accounts
  init_vault_accounts-none a c w h =
      then-elim (constraint _) _ h λ _ h₁. then-elim (vacant _) _ h₁ λ free _. vacant-none _ free

  pub vault_initialize-VaultOpened :
      (a : VaultInitialize) (args : VaultInitializeArgs) (clock : Clock) (w : World) {w' : World}
      → vault_initialize rt a args clock w ≡ ok w'
      → VaultOpened w a.vault w'
  unfolding vault_initialize
  vault_initialize-VaultOpened a args clock w h = bind-elim (load _ _) _ h λ _ _ h₁.
      bind-elim (load _ _) _ h₁ λ _ _ h₂. bind-elim (init_vault_accounts rt _ _ _) _ h₂ λ _ init h₃.
        bind-elim (load_config rt _ _) _ h₃ λ _ _ h₄.
          then-elim (is_protocol_operational _) _ h₄ λ _ h₅.
            then-elim (validate_manager_address _ _ _) _ h₅ λ _ h₆.
              then-elim (Manager.validate_authority _ _) _ h₆ λ _ h₇.
                then-elim (check_vault_args _) _ h₇ λ _ h₈.
                  then-elim (validate_deposit_mint_extensions rt _ _ _) _ h₈ λ _ h₉.
                    bind-elim (increment_vault_id _) _ h₉ λ _ _ last.
                      let fresh = new-Fresh _ in
                      record {
                        configs = _;
                        vault = _;
                        ledger = _;
                        free = init_vault_accounts-none a _ w init;
                        deposits = fresh.deposits;
                        shares = fresh.shares;
                        counted = fresh.counted;
                        final = ok-injective last;
                      }

  pub vault_close-VaultClosed :
      (a : VaultClose) (w : World) {w' : World} → vault_close rt a w ≡ ok w' → VaultClosed w a w'
  unfolding vault_close
  vault_close-VaultClosed a w h = then-elim (constraint _) _ h λ _ h₁.
      then-elim (constraint _) _ h₁ λ _ h₂. then-elim (constraint _) _ h₂ λ _ h₃.
        then-elim (constraint _) _ h₃ λ _ h₄. bind-elim (load_vault rt _ _) _ h₄ λ vault found h₅.
          then-elim (validate_authority _ _) _ h₅ λ signed h₆.
            then-elim (validate_deposit_mint _ _) _ h₆ λ _ h₇.
              then-elim (validate_share_mint _ _) _ h₇ λ mint h₈.
                then-elim (check_settled _ _) _ h₈ λ settled h₉.
                  bind-elim (close_vault_accounts rt _ _) _ h₉ λ _ _ h₁₀.
                    bind-elim (close _ _ _) _ h₁₀ λ l _ last. record {
                      vault = vault;
                      ledger = l;
                      vault_found = load_vault-lookup rt w a.vault found;
                      signed = authority_signs _ _ signed;
                      share_mint = share_mint_matches _ _ mint;
                      settled = check_settled-Settled _ _ settled;
                      final = ok-injective last;
                    }
