-- ===== src/Vault/Nav.antt =====
-- state/vault.rs, section "NAV": fees are settled as share dilution and the new NAV is recorded.
pub mod Dilution
pub mod Update
use programs.Prelude.{
  ℕ, ◌-◌, Bool, true, false, ◌||◌, Option, none, some, ltb, leb, ◌==◌, if◌then◌else◌,
}
use programs.Prelude.Int.{ℤ}
use programs.Constants.{max_bps, nav_precision, seconds_per_year}
use programs.SafeMath.{
  safe_add, safe_sub, safe_mul, safe_div, safe_to_u64, saturating_sub_i64, cast_unsigned,
}
use programs.Errors.{
  Result, ok, ◌>>=◌, ◌>>◌, validate, nav_already_updated_this_epoch, fee_exceeds_total_assets,
  nav_deviation_exceeded,
}
use programs.Vault.{Vault, NavUpdateArgs, NavFeeShares, epoch}
use programs.Vault.Fees.{apply_pending_fees}

unfoldable pub management_fee : ℕ → ℕ → ℕ → Result ℕ
management_fee total_assets fee_bps elapsed = do
  a ← safe_mul 128 total_assets fee_bps
  b ← safe_mul 128 a elapsed
  c ← safe_mul 128 seconds_per_year max_bps
  safe_div b c

unfoldable pub performance_fee : ℕ → ℕ → Result ℕ
performance_fee eligible_profit fee_bps = do
  a ← safe_mul 128 eligible_profit fee_bps
  safe_div a max_bps

-- `u64::abs_diff`
abbrev pub abs_diff : ℕ → ℕ → ℕ
abs_diff a b = if ltb a b then b - a else a - b

unfoldable pub validate_nav_deviation : Vault → ℕ → ℕ → Result (Unit {0})
unfolding validate
validate_nav_deviation self nav_per_share max_nav_deviation_bps = do
  let deviation = abs_diff nav_per_share self.nav_per_share
  a ← safe_mul 128 self.nav_per_share max_nav_deviation_bps
  max_deviation ← safe_div a max_bps
  validate (leb deviation max_deviation) nav_deviation_exceeded

-- The test under `if let Some(..)`.
unfoldable pub check_deviation : Vault → ℕ → Option ℕ → Result (Unit {0})
check_deviation self nav_per_share none = ok tt
check_deviation self nav_per_share (some bps) = validate_nav_deviation self nav_per_share bps

-- Profit above the high water mark, in deposit mint.
unfoldable pub eligible_profit : ℕ → ℕ → ℕ → Result ℕ
eligible_profit gross_nav high_water_mark supply =
    if ltb high_water_mark gross_nav
    then (do
      gain ← safe_sub gross_nav high_water_mark
      scaled ← safe_mul 128 gain supply
      safe_div scaled nav_precision)
    else ok 0

-- One party's fee: its management fee and its performance fee.
unfoldable pub party_fee : ℕ → ℕ → ℕ → ℕ → ℕ → Result ℕ
party_fee total_assets profit management_bps performance_bps elapsed = do
  m ← management_fee total_assets management_bps elapsed
  p ← performance_fee profit performance_bps
  safe_add 128 m p

-- One party's fee shares.
unfoldable pub fee_shares : ℕ → ℕ → ℕ → Result ℕ
fee_shares fee supply net_assets = do a ← safe_mul 128 fee supply; safe_div a net_assets

-- Both parties' shares for their fees on the assets.
unfoldable pub dilute : ℕ → ℕ → ℕ → ℕ → Result (ℕ × ℕ)
unfolding validate
dilute total_assets supply manager_fee platform_fee = do
  total_fee ← safe_add 128 manager_fee platform_fee
  validate (total_fee == 0 || ltb total_fee total_assets) fee_exceeds_total_assets
  net_assets ← safe_sub total_assets total_fee
  if ltb 0 total_fee
      then (do
        m ← fee_shares manager_fee supply net_assets
        p ← fee_shares platform_fee supply net_assets
        ok (m, p))
      else ok (0, 0)

-- The price of a share once the fee shares count as supply.
unfoldable pub diluted_nav : ℕ → ℕ → ℕ → ℕ → Result ℕ
diluted_nav total_assets supply manager_shares platform_shares = do
  a ← safe_add 128 supply manager_shares
  new_supply ← safe_add 128 a platform_shares
  b ← safe_mul 128 total_assets nav_precision
  c ← safe_div b new_supply
  safe_to_u64 c

-- The branch of `update_nav` for a supply that is not zero, up to the fee shares.
unfoldable pub assess_fees : Vault → NavUpdateArgs → ℕ → Result (ℕ × ℕ)
assess_fees self args supply = do
  let elapsed = cast_unsigned 128 (saturating_sub_i64 args.now self.last_nav_ts)
  scaled ← safe_mul 128 args.total_assets nav_precision
  gross_nav ← safe_div scaled supply
  profit ← eligible_profit gross_nav self.high_water_mark supply
  manager_fee ←
      party_fee args.total_assets profit self.management_fee_bps self.performance_fee_bps elapsed
  platform_fee ←
      party_fee args.total_assets profit args.platform_management_fee_bps
        args.platform_performance_fee_bps elapsed
  dilute args.total_assets supply manager_fee platform_fee

-- The whole of that branch.
unfoldable pub accrue : Vault → NavUpdateArgs → ℕ → Result (Vault × NavFeeShares)
accrue self args supply = do
  (manager, platform) ← assess_fees self args supply
  nav_per_share ← diluted_nav args.total_assets supply manager platform
  check_deviation self nav_per_share args.max_nav_deviation_bps
  manager_fee_shares ← safe_to_u64 manager
  platform_fee_shares ← safe_to_u64 platform
  unclaimed_manager ← safe_add 64 self.unclaimed_manager_fee_shares manager_fee_shares
  unclaimed_platform ← safe_add 64 self.unclaimed_platform_fee_shares platform_fee_shares
  ok (
    record self {
      unclaimed_manager_fee_shares = unclaimed_manager;
      unclaimed_platform_fee_shares = unclaimed_platform;
      nav_per_share = nav_per_share;
      high_water_mark =
          if ltb self.high_water_mark nav_per_share then nav_per_share else self.high_water_mark;
    },
    record { manager_fee_shares = manager_fee_shares; platform_fee_shares = platform_fee_shares },
  )

-- Shares in circulation and fee shares not yet claimed.
unfoldable pub counted_supply : Vault → ℕ → Result ℕ
counted_supply self share_supply = do
  a ← safe_add 64 share_supply self.unclaimed_manager_fee_shares
  safe_add 64 a self.unclaimed_platform_fee_shares

unfoldable pub settle : Vault → NavUpdateArgs → ℕ → Result (Vault × NavFeeShares)
settle self args supply =
    if supply == 0
    then ok (
      record self { nav_per_share = nav_precision },
      record { manager_fee_shares = 0; platform_fee_shares = 0 },
    )
    else accrue self args supply

-- The last writes of `update_nav`.
unfoldable pub record_nav : Vault → NavUpdateArgs → Vault
record_nav self args = record (apply_pending_fees self args.now) {
  total_assets = args.total_assets;
  nav_epoch = epoch args.now;
  last_nav_ts = args.now;
  epoch_outflow = 0;
}

unfoldable pub update_nav : Vault → NavUpdateArgs → Result (Vault × NavFeeShares)
unfolding validate
update_nav self args = do
  validate (ltb self.nav_epoch (epoch args.now)) nav_already_updated_this_epoch
  supply ← counted_supply self args.share_supply
  (settled, shares) ← settle self args supply
  ok (record_nav settled args, shares)
