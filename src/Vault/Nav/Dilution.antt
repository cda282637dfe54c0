-- ===== src/Vault/Nav/Dilution.antt =====
-- What settling a fee by dilution does to the holders, and how the new NAV is rounded.
use programs.SafeMath.{safe_add, safe_sub, safe_mul, safe_div, safe_to_u64}
use programs.Prelude.{ℕ, ◌+◌, ◌-◌, ◌*◌, ◌^◌, ◌≤◌, ◌<◌, ◌≡◌, ◌⊎◌, arith}
use programs.Constants.{nav_precision, max_bps}
use programs.Errors.{ok}
use programs.SafeMath.Laws.{quotient_bounds}
use programs.Vault.{Vault}
use programs.Vault.Nav.{fee_shares, dilute, diluted_nav, validate_nav_deviation}

-- The fee shares of one party, at the price of the net assets over the old supply, are worth no
-- more than its fee, and short of it by less than one share.
pub fee_shares_bounds :
    (fee supply net : ℕ) {s : ℕ}
    → fee_shares fee supply net ≡ ok s
    → (s * net ≤ fee * supply) × (fee * supply < s * net + net)
unfolding fee_shares safe_mul safe_div
fee_shares_bounds fee supply net h = ground (arith, quotient_bounds (fee * supply) net)

-- What `dilute` guarantees of its two results.
pub record Diluted (total supply manager platform m p : ℕ) : Type 0 where
  pub covered : manager + platform ≤ total
  pub below : (manager + platform ≡ 0) ⊎ (manager + platform < total)
  pub manager_within : m * (total - (manager + platform)) ≤ manager * supply
  pub platform_within : p * (total - (manager + platform)) ≤ platform * supply

-- When settling two fees succeeds, they are within the assets, and less than the assets unless
-- both are zero; and each party receives shares that, at the price of the assets left over the old
-- supply, are worth no more than its fee.
pub dilute-Diluted :
    (total supply manager platform : ℕ) {m p : ℕ}
    → dilute total supply manager platform ≡ ok (m, p)
    → Diluted total supply manager platform m p
unfolding dilute safe_add safe_sub fee_shares safe_mul safe_div
dilute-Diluted total supply manager platform h = ground (
  arith,
  quotient_bounds (manager * supply) (total - (manager + platform)),
  quotient_bounds (platform * supply) (total - (manager + platform)),
)

-- The supply after dilution is worth no more at the net price than the whole assets.
pub net-dilute :
    (total supply manager platform m p : ℕ)
    → Diluted total supply manager platform m p
    → (total - (manager + platform)) * (supply + m + p) ≤ supply * total
net-dilute total supply manager platform m p d =
    net-split (total - (manager + platform)) supply manager platform m p total
      (omega (arith, d.covered)) d.manager_within d.platform_within
  where
    net-split :
        (net s f g m p t : ℕ)
        → t ≡ net + f + g
        → m * net ≤ f * s
        → p * net ≤ g * s
        → net * (s + m + p) ≤ s * t
    net-split net s f g m p t e h k = rw e (omega arith)

-- At the NAV computed after the fee shares are added, all shares are worth no more than the
-- assets, and less than one unit of precision a share short of them; the NAV fits a u64.
pub diluted_nav_bounds :
    (total supply m p : ℕ) {nav : ℕ}
    → diluted_nav total supply m p ≡ ok nav
    → (nav * (supply + m + p) ≤ total * nav_precision)
      × (total * nav_precision < nav * (supply + m + p) + (supply + m + p))
      × (nav < 2 ^ 64)
unfolding diluted_nav safe_add safe_mul safe_div safe_to_u64
diluted_nav_bounds total supply m p h =
    ground (arith, quotient_bounds (total * nav_precision) (supply + m + p))

-- An update that passes the deviation test moves the NAV by at most the allowed share of it.
pub validate_nav_deviation_bounds :
    (v : Vault) (nav bps : ℕ)
    → validate_nav_deviation v nav bps ≡ ok tt
    → (nav * max_bps ≤ v.nav_per_share * (max_bps + bps))
      × (v.nav_per_share * max_bps ≤ nav * max_bps + v.nav_per_share * bps)
unfolding validate_nav_deviation safe_mul safe_div
validate_nav_deviation_bounds v nav bps h = ground arith
