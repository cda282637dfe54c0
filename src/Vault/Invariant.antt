-- ===== src/Vault/Invariant.antt =====
-- What holds of every vault account, and what makes its shares worth their price.
use programs.Prelude.{ℕ, ◌+◌, ◌*◌, ◌≤◌, ◌≡◌, ◌⊎◌, inl, refl, arith}
use programs.Constants.{nav_precision, max_bps}
use programs.Vault.{Vault, NewVaultArgs, new, epoch}

-- The NAV never stands above the high water mark, the mark never below its start, and every fee
-- rate, live or scheduled, is at most 100%. The epoch is that of the last update, if there was one.
pub record IsValid (v : Vault) : Type 0 where
  pub under_mark : v.nav_per_share ≤ v.high_water_mark
  pub mark_floor : nav_precision ≤ v.high_water_mark
  pub performance : v.performance_fee_bps ≤ max_bps
  pub management : v.management_fee_bps ≤ max_bps
  pub pending_performance : v.pending_performance_fee_bps ≤ max_bps
  pub pending_management : v.pending_management_fee_bps ≤ max_bps
  pub stamped : (v.nav_epoch ≡ 0) ⊎ (v.nav_epoch ≡ epoch v.last_nav_ts)

-- The shares that the NAV prices: those in circulation and the fee shares not yet claimed.
abbrev pub claims : Vault → ℕ → ℕ
claims v share_supply =
    share_supply + v.unclaimed_manager_fee_shares + v.unclaimed_platform_fee_shares

-- At the recorded NAV the shares are worth no more than the recorded assets.
abbrev pub IsSolvent : Vault → ℕ → Type 0
IsSolvent v share_supply = v.nav_per_share * claims v share_supply ≤ v.total_assets * nav_precision

-- A new vault with fee rates of at most 100% is valid, and solvent with no shares.
pub new-IsValid :
    (args : NewVaultArgs)
    → args.performance_fee_bps ≤ max_bps
    → args.management_fee_bps ≤ max_bps
    → IsValid (new args) × IsSolvent (new args) 0
unfolding new
new-IsValid args p m = (
  record {
    under_mark = omega arith;
    mark_floor = omega arith;
    performance = p;
    management = m;
    pending_performance = omega arith;
    pending_management = omega arith;
    stamped = inl refl;
  },
  omega arith,
)
