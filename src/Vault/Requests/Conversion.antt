-- ===== src/Vault/Requests/Conversion.antt =====
-- What a resolved request is paid: rounding, solvency, and when a resolution cannot fail.
use programs.Prelude.{ℕ, ◌+◌, ◌-◌, ◌*◌, ◌/◌, ◌^◌, ◌≤◌, ◌<◌, ◌≡◌, subst, sym, arith}
use programs.Constants.{nav_precision}
use programs.Errors.{ok}
use programs.SafeMath.{safe_add, safe_sub, safe_mul, safe_div, safe_to_u64}
use programs.SafeMath.Laws.{quotient_bounds, product-lt}
use programs.Vault.{Vault}
use programs.Vault.Invariant.{IsSolvent}
use programs.Vault.Requests.{
  resolve_deposit, resolve_withdrawal, amount_for, shares_for, outflow_cap,
}

-- The shares for a deposit are worth no more than it, and one share more would be.
pub shares_for_bounds :
    (amount nav : ℕ) {shares : ℕ}
    → shares_for amount nav ≡ ok shares
    → (shares * nav ≤ amount * nav_precision) × (amount * nav_precision < shares * nav + nav)
unfolding shares_for safe_mul safe_div safe_to_u64
shares_for_bounds amount nav h = ground (arith, quotient_bounds (amount * nav_precision) nav)

-- The payout for shares is worth no more than they are, and less than one unit short of it.
pub amount_for_bounds :
    (shares nav : ℕ) {amount : ℕ}
    → amount_for shares nav ≡ ok amount
    → (amount * nav_precision ≤ shares * nav)
      × (shares * nav < amount * nav_precision + nav_precision)
unfolding amount_for safe_mul safe_div safe_to_u64
amount_for_bounds shares nav h = ground arith

-- A resolved deposit was pending in full, mints at least one share, as many as the amount buys at
-- the NAV, leaves the pending total and enters the assets by its amount, and changes nothing else
-- of the vault.
pub resolve_deposit_moves :
    (v : Vault) (amount : ℕ) {w : Vault} {shares : ℕ}
    → resolve_deposit v amount ≡ ok (w, shares)
    → (amount ≤ v.pending_deposits)
      × (0 < shares)
      × (shares_for amount v.nav_per_share ≡ ok shares)
      × (w ≡ record v {
        pending_deposits = v.pending_deposits - amount;
        total_assets = v.total_assets + amount;
      })
unfolding resolve_deposit safe_sub safe_add
resolve_deposit_moves v amount h = ground arith

-- A deposit resolved in a solvent vault leaves it solvent, with the shares that it mints added to
-- the supply.
pub resolve_deposit-IsSolvent :
    (v : Vault) (amount supply : ℕ) {w : Vault} {shares : ℕ}
    → IsSolvent v supply
    → resolve_deposit v amount ≡ ok (w, shares)
    → IsSolvent w (supply + shares)
resolve_deposit-IsSolvent v amount supply {w} {shares} solvent h =
    let (_, _, minted, e) = resolve_deposit_moves v amount h in
    subst (λ u. IsSolvent u (supply + shares)) (sym e)
      (omega (arith, shares_for_bounds amount v.nav_per_share minted))

-- A resolved withdrawal was pending in full; it pays what the shares are worth at the NAV, which
-- the assets cover, takes the shares from the pending ones and the payout from the assets, counts
-- it as outflow, and changes nothing else of the vault.
pub resolve_withdrawal_moves :
    (v : Vault) (shares bps : ℕ) {w : Vault} {amount : ℕ}
    → resolve_withdrawal v shares bps ≡ ok (w, amount)
    → (shares ≤ v.pending_withdrawal_shares)
      × (amount ≤ v.total_assets)
      × (amount_for shares v.nav_per_share ≡ ok amount)
      × (w ≡ record v {
        pending_withdrawal_shares = v.pending_withdrawal_shares - shares;
        epoch_outflow = v.epoch_outflow + amount;
        total_assets = v.total_assets - amount;
      })
unfolding resolve_withdrawal safe_sub safe_add
resolve_withdrawal_moves v shares bps h = ground arith

-- A withdrawal resolved in a vault that is solvent for the shares left together with those
-- redeemed leaves it solvent for the shares left.
pub resolve_withdrawal-IsSolvent :
    (v : Vault) (shares bps left : ℕ) {w : Vault} {amount : ℕ}
    → IsSolvent v (left + shares)
    → resolve_withdrawal v shares bps ≡ ok (w, amount)
    → IsSolvent w left
resolve_withdrawal-IsSolvent v shares bps left {w} {amount} solvent h =
    let (_, covered, paid, e) = resolve_withdrawal_moves v shares bps h in
    subst (λ u. IsSolvent u left) (sym e)
      (omega (arith, amount_for_bounds shares v.nav_per_share paid))

-- Shares bought for an amount and redeemed at the same NAV return no more than the amount; what is
-- lost is less than the price of one share and one unit of the deposit mint.
pub deposit_round_trip :
    (amount nav : ℕ) {shares back : ℕ}
    → shares_for amount nav ≡ ok shares
    → amount_for shares nav ≡ ok back
    → (back ≤ amount) × (amount * nav_precision < back * nav_precision + nav_precision + nav)
deposit_round_trip amount nav {shares} {back} bought sold =
    let lo = shares_for_bounds amount nav bought in
    let hi = amount_for_bounds shares nav sold in (omega arith, omega arith)

-- In a vault that is solvent for the shares left together with those redeemed, a resolution of
-- pending shares succeeds, whatever the outflow cap: no check of it can fail, as long as the
-- pending shares and the NAV fit a u64, the cap a u16, and the assets with the outflow of the
-- epoch a u64.
pub resolve_withdrawal_total :
    (v : Vault) (shares bps left : ℕ)
    → IsSolvent v (left + shares)
    → shares ≤ v.pending_withdrawal_shares
    → v.pending_withdrawal_shares < 2 ^ 64
    → v.nav_per_share < 2 ^ 64
    → v.total_assets + v.epoch_outflow < 2 ^ 64
    → bps < 2 ^ 16
    → (w : Vault) × (amount : ℕ) × (resolve_withdrawal v shares bps ≡ ok (w, amount))
unfolding resolve_withdrawal amount_for outflow_cap safe_sub safe_add safe_mul safe_div safe_to_u64
resolve_withdrawal_total v shares bps left solvent h p q r s =
    let paid = shares * v.nav_per_share / nav_precision in
    let priced : shares * v.nav_per_share ≤ v.total_assets * nav_precision = omega arith in
    let fits = product-lt 64 64 shares v.nav_per_share (omega arith) q in
    let fits' = product-lt 64 16 (v.total_assets + v.epoch_outflow) bps r s in
    (
      record v {
        pending_withdrawal_shares = v.pending_withdrawal_shares - shares;
        epoch_outflow = v.epoch_outflow + paid;
        total_assets = v.total_assets - paid;
      },
      paid,
      ground arith,
    )
