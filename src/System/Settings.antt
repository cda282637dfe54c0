-- ===== src/System/Settings.antt =====
-- What an update of the settings can change: the vault stays valid and owes as before, and the role
-- of the admin passes only to a nominee who accepts it.
pub mod Effects
use programs.Prelude.{
  ℕ, ◌≡◌, ◌≢◌, ◌⊎◌, ◌∙◌, inl, inr, refl, sym, subst, arith, Option, none, some, ◌||◌, Bool-cases,
}
use programs.Prelude.Int.{ℤ}
use programs.Errors.{Result, ok, ◌>>◌, validate, bind-elim, ok-injective}
use programs.SafeMath.{safe_add_i64}
use programs.Vault
use programs.Runtime.{Runtime, Clock}
use programs.World.{World, load_config, load_vault}
use programs.Vault.{validate_authority}
use programs.Config.{validate_admin, validate_guardian}
use programs.System.Effects.{load_vault-lookup}
use programs.System.Effects.Navs.{VaultTouched}
use programs.Instructions.Settings.{
  ConfigUpdate, ConfigPause, AdminAccept, VaultUpdate, VaultPause, config_update, config_pause,
  admin_accept, vault_update, vault_pause,
}
use programs.Prelude.{List}
use programs.Errors.{then-elim}
use programs.Vault.{Pubkey, Vault}
use programs.Vault.Fees.{update_fees}
use programs.Vault.Fees.Schedule.{update_fees-IsValid}
use programs.Vault.Invariant.{IsValid}
use programs.Config.{Config, default_key, nominate_admin, accept_admin}
use programs.Instructions.Settings.{
  ConfigUpdateArgs, VaultUpdateArgs, check_key, is_some, set_if, write_config, write_fees,
  write_vault,
}
use programs.System.Effects.Navs.{OwesAlike}

-- What every write keeps, the update keeps.
set_if-keeps {ℓ κ ι} :
    {A : Type ℓ} {R : Type κ} (P : R → Type ι) (o : Option A) (write : A → R → Result R) (r : R)
    {r' : R}
    → ((a : A) → (x : R) → (y : R) → P x → write a x ≡ ok y → P y)
    → P r
    → set_if o write r ≡ ok r'
    → P r'
unfolding set_if
set_if-keeps P none write r keeps p h = subst P (ok-injective h) p
set_if-keeps P (some a) write r keeps p h = keeps a r _ p h

-- A vault that is valid and owes what another one does.
pub record Sound (v : Vault) (w : Vault) : Type 0 where
  pub valid : IsValid w
  pub owes : OwesAlike v w

update_fees-Sound :
    (v : Vault) (p m : Option ℕ) (now : ℤ) {w : Vault}
    → IsValid v
    → update_fees v p m now ≡ ok w
    → Sound v w
unfolding update_fees safe_add_i64
update_fees-Sound v p m now i h = record {
  valid = update_fees-IsValid v p m now i h;
  owes = record { deposits = ground arith; shares = ground arith; counted = ground arith };
}

-- A write of a setting that neither the invariant nor the books read.
abbrev Plain : Vault → Vault → Type 0
Plain x y = y ≡ record x {
  deposit_cap = y.deposit_cap;
  min_deposit = y.min_deposit;
  min_withdrawal_shares = y.min_withdrawal_shares;
  status = y.status;
  deposit_paused = y.deposit_paused;
  withdrawal_paused = y.withdrawal_paused;
}

alike : (v x y : Vault) → Sound v x → Plain x y → Sound v y
alike v x y s e = subst (Sound v) (sym e) (record {
  valid = record {
    under_mark = s.valid.under_mark;
    mark_floor = s.valid.mark_floor;
    performance = s.valid.performance;
    management = s.valid.management;
    pending_performance = s.valid.pending_performance;
    pending_management = s.valid.pending_management;
    stamped = s.valid.stamped;
  };
  owes = record { deposits = s.owes.deposits; shares = s.owes.shares; counted = s.owes.counted };
})

write_fees-Sound :
    (args : VaultUpdateArgs) (now : ℤ) (v : Vault) {w : Vault}
    → IsValid v
    → write_fees args now v ≡ ok w
    → Sound v w
unfolding write_fees
write_fees-Sound args now v i h =
    elim (Bool-cases (is_some args.performance_fee_bps || is_some args.management_fee_bps)) [
      | inl asked ↦
          update_fees-Sound v args.performance_fee_bps args.management_fee_bps now i (ground arith)
      | inr idle ↦ record {
        valid = ground arith;
        owes = record { deposits = ground arith; shares = ground arith; counted = ground arith };
      }
    ]

-- What plain writes keep, and the update of the fees brings about, holds after the update.
write_vault-keeps {ℓ} :
    (P : Vault → Type ℓ) (args : VaultUpdateArgs) (now : ℤ) (v : Vault) {w : Vault}
    → ((x : Vault) → (y : Vault) → P x → Plain x y → P y)
    → ((y : Vault) → write_fees args now v ≡ ok y → P y)
    → write_vault args now v ≡ ok w
    → P w
unfolding write_vault validate
write_vault-keeps P args now v plain fees h = bind-elim (write_fees args now v) _ h λ v₁ e₁ h₁.
    bind-elim (set_if _ _ _) _ h₁ λ v₂ e₂ h₂. bind-elim (set_if _ _ _) _ h₂ λ v₃ e₃ h₃.
      bind-elim (set_if _ _ _) _ h₃ λ v₄ e₄ h₄. bind-elim (set_if _ _ _) _ h₄ λ v₅ e₅ h₅.
        bind-elim (set_if _ _ _) _ h₅ λ v₆ e₆ h₆.
          let p₁ = fees v₁ e₁ in
          let p₂ =
            set_if-keeps P args.deposit_cap _ v₁ (λ n x y s e. plain x y s (ground arith)) p₁ e₂ in
          let p₃ =
            set_if-keeps P args.min_deposit _ v₂ (λ n x y s e. plain x y s (ground arith)) p₂ e₃ in
          let p₄ =
            set_if-keeps P args.min_withdrawal_shares _ v₃ (λ n x y s e. plain x y s (ground arith))
              p₃ e₄ in
          let p₅ =
            set_if-keeps P args.status _ v₄ (λ n x y s e. plain x y s (ground arith)) p₄ e₅ in
          let p₆ =
            set_if-keeps P args.deposit_paused _ v₅ (λ n x y s e. plain x y s (ground arith)) p₅
              e₆ in
          set_if-keeps P args.withdrawal_paused _ v₆ (λ n x y s e. plain x y s (ground arith)) p₆ h₆

-- The writes of a successful vault_update to a valid vault leave it valid, with the same pending
-- deposits and pending withdrawal shares.
pub write_vault-Sound :
    (args : VaultUpdateArgs) (now : ℤ) (v : Vault) {w : Vault}
    → IsValid v
    → write_vault args now v ≡ ok w
    → Sound v w
write_vault-Sound args now v i h =
    write_vault-keeps (Sound v) args now v (alike v) (λ y e. write_fees-Sound args now v i e) h

write_fees-OwesAlike :
    (args : VaultUpdateArgs) (now : ℤ) (v : Vault) {w : Vault}
    → write_fees args now v ≡ ok w
    → OwesAlike v w
unfolding write_fees update_fees safe_add_i64
write_fees-OwesAlike args now v h =
    elim (Bool-cases (is_some args.performance_fee_bps || is_some args.management_fee_bps)) [
      | inl asked ↦ record {
        deposits = ground arith;
        shares = ground arith;
        counted = ground arith;
      }
      | inr idle ↦ record { deposits = ground arith; shares = ground arith; counted = ground arith }
    ]

owes_on : (v x y : Vault) → OwesAlike v x → Plain x y → OwesAlike v y
owes_on v x y s e =
    subst (OwesAlike v) (sym e)
      (record { deposits = s.deposits; shares = s.shares; counted = s.counted })

pub write_vault-OwesAlike :
    (args : VaultUpdateArgs) (now : ℤ) (v : Vault) {w : Vault}
    → write_vault args now v ≡ ok w
    → OwesAlike v w
write_vault-OwesAlike args now v h =
    write_vault-keeps (OwesAlike v) args now v (owes_on v)
      (λ y e. write_fees-OwesAlike args now v e) h

-- The nominee after an update, and the admin.
record Nominated (args : ConfigUpdateArgs) (c u : Config) : Type 0 where
  same : u.admin ≡ c.admin
  nominee : (u.pending_admin ≡ c.pending_admin) ⊎ (args.pending_admin ≡ some u.pending_admin)

seconded :
    (args : ConfigUpdateArgs) (c x y : Config)
    → Nominated args c x
    → y.admin ≡ x.admin
    → y.pending_admin ≡ x.pending_admin
    → Nominated args c y
seconded args c x y s e e' = record {
  same = e ∙ s.same;
  nominee = elim s.nominee [ inl p ↦ inl (e' ∙ p) | inr p ↦ inr (ground arith) ];
}

nominated :
    (args : ConfigUpdateArgs) (c : Config) (o : Option Pubkey) {u : Config}
    → args.pending_admin ≡ o
    → set_if o (λ k c. check_key k >> ok (nominate_admin c k)) c ≡ ok u
    → Nominated args c u
unfolding set_if nominate_admin validate
nominated args c none e h = record { same = ground arith; nominee = inl (ground arith) }
nominated args c (some k) e h = record { same = ground arith; nominee = inr (e ∙ (ground arith)) }

write_config-Nominated :
    (args : ConfigUpdateArgs) (c : Config) {w : Config}
    → write_config args c ≡ ok w
    → Nominated args c w
unfolding write_config validate
write_config-Nominated args c h = bind-elim (set_if args.pending_admin _ c) _ h λ c₁ e₁ h₁.
    bind-elim (set_if _ _ _) _ h₁ λ c₂ e₂ h₂. bind-elim (set_if _ _ _) _ h₂ λ c₃ e₃ h₃.
      bind-elim (set_if _ _ _) _ h₃ λ c₄ e₄ h₄. bind-elim (set_if _ _ _) _ h₄ λ c₅ e₅ h₅.
        bind-elim (set_if _ _ _) _ h₅ λ c₆ e₆ h₆. bind-elim (set_if _ _ _) _ h₆ λ c₇ e₇ h₇.
          bind-elim (set_if _ _ _) _ h₇ λ c₈ e₈ h₈. bind-elim (set_if _ _ _) _ h₈ λ c₉ e₉ h₉.
            let p₁ = nominated args c args.pending_admin refl e₁ in
            let p₂ =
              set_if-keeps (Nominated args c) args.nav_updater _ c₁
                (λ n x y s e. seconded args c x y s (ground arith) (ground arith)) p₁ e₂ in
            let p₃ =
              set_if-keeps (Nominated args c) args.treasury_authority _ c₂
                (λ n x y s e. seconded args c x y s (ground arith) (ground arith)) p₂ e₃ in
            let p₄ =
              set_if-keeps (Nominated args c) args.guardian _ c₃
                (λ n x y s e. seconded args c x y s (ground arith) (ground arith)) p₃ e₄ in
            let p₅ =
              set_if-keeps (Nominated args c) args.platform_performance_fee_bps _ c₄
                (λ n x y s e. seconded args c x y s (ground arith) (ground arith)) p₄ e₅ in
            let p₆ =
              set_if-keeps (Nominated args c) args.platform_management_fee_bps _ c₅
                (λ n x y s e. seconded args c x y s (ground arith) (ground arith)) p₅ e₆ in
            let p₇ =
              set_if-keeps (Nominated args c) args.max_nav_deviation_bps _ c₆
                (λ n x y s e. seconded args c x y s (ground arith) (ground arith)) p₆ e₇ in
            let p₈ =
              set_if-keeps (Nominated args c) args.max_epoch_outflow_bps _ c₇
                (λ n x y s e. seconded args c x y s (ground arith) (ground arith)) p₇ e₈ in
            let p₉ =
              set_if-keeps (Nominated args c) args.max_slippage_bps _ c₈
                (λ n x y s e. seconded args c x y s (ground arith) (ground arith)) p₈ e₉ in
            set_if-keeps (Nominated args c) args.status _ c₉
              (λ n x y s e. seconded args c x y s (ground arith) (ground arith)) p₉ h₉

-- When the admin role is accepted after the writes of a config_update, those writes left the admin
-- as it was, and the new admin is the signer, not the default key, who was the nominee before the
-- update or was nominated by it.
pub takeover :
    (args : ConfigUpdateArgs) (c : Config) (k : Pubkey) {c' c'' : Config}
    → write_config args c ≡ ok c'
    → accept_admin c' k ≡ ok c''
    → (c'.admin ≡ c.admin)
      × (c''.admin ≡ k)
      × (k ≢ default_key)
      × ((k ≡ c.pending_admin) ⊎ (args.pending_admin ≡ some k))
unfolding accept_admin validate
takeover args c k h h' =
    let n = write_config-Nominated args c h in
    (n.same, ground arith, λ z. ground arith, ground (arith, n.nominee))
