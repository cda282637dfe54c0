-- ===== src/Vault/Fees/Schedule.antt =====
-- The delay before a fee increase, and the claims of fee shares.
use programs.Prelude.{ℕ, ◌+◌, ◌≤◌, ◌<◌, ◌≡◌, ◌≢◌, ◌⊎◌, sym, subst, arith, Option, some}
use programs.Prelude.Int.{ℤ, pos, ◌+ℤ◌, ◌≤ℤ◌, eq_of_parts}
use programs.Constants.{max_bps, fee_increase_delay}
use programs.Errors.{ok, err, custom, invalid_basis_points, no_fee_to_claim}
use programs.SafeMath.{safe_add_i64}
use programs.Vault.{Vault}
use programs.Vault.Invariant.{IsValid, IsSolvent}
use programs.Vault.Fees.{update_fees, apply_pending_fees, claim_manager_fee, claim_platform_fee}

-- A successful fee update never raises a live rate. Either no change is then pending, or the
-- change is due after the full delay and both live rates are as before.
pub update_fees_schedules :
    (v : Vault) (performance management : Option ℕ) (now : ℤ) {w : Vault}
    → update_fees v performance management now ≡ ok w
    → (w.performance_fee_bps ≤ v.performance_fee_bps)
      × (w.management_fee_bps ≤ v.management_fee_bps)
      × ((w.fee_effective_ts ≡ pos 0)
          ⊎ ((w.fee_effective_ts ≡ now +ℤ fee_increase_delay)
              × (w.performance_fee_bps ≡ v.performance_fee_bps)
              × (w.management_fee_bps ≡ v.management_fee_bps)))
unfolding update_fees safe_add_i64
update_fees_schedules v performance management now h = ground arith

-- A successful fee update keeps a valid vault valid.
pub update_fees-IsValid :
    (v : Vault) (performance management : Option ℕ) (now : ℤ) {w : Vault}
    → IsValid v
    → update_fees v performance management now ≡ ok w
    → IsValid w
unfolding update_fees safe_add_i64
update_fees-IsValid v performance management now i h = ground arith

-- A fee update with a rate above 100%, in either of its two arguments, is refused with the error
-- for invalid basis points.
pub update_fees_refuses :
    (v : Vault) (performance management : Option ℕ) (bps : ℕ) (now : ℤ)
    → max_bps < bps
    → (performance ≡ some bps) ⊎ (management ≡ some bps)
    → update_fees v performance management now ≡ err (custom invalid_basis_points)
unfolding update_fees
update_fees_refuses v performance management bps now h e = ground arith

-- After a successful fee update that names both rates, whether they rise or fall, applying the
-- pending fees once the full delay has passed makes exactly these two rates live, and leaves no
-- change pending. The time at which the delay ends must not be 0, which stands for no change.
pub fee_update_arrives :
    (v : Vault) (performance management : ℕ) (asked now : ℤ) {w : Vault}
    → update_fees v (some performance) (some management) asked ≡ ok w
    → asked +ℤ fee_increase_delay ≢ pos 0
    → asked +ℤ fee_increase_delay ≤ℤ now
    → ((apply_pending_fees w now).performance_fee_bps ≡ performance)
      × ((apply_pending_fees w now).management_fee_bps ≡ management)
      × ((apply_pending_fees w now).fee_effective_ts ≡ pos 0)
unfolding update_fees apply_pending_fees safe_add_i64
fee_update_arrives v performance management asked now h nonzero due =
    ground (arith, eq_of_parts (asked +ℤ fee_increase_delay) (pos 0))

-- After a fee update, as long as less than the full delay has passed since, applying the pending
-- fees leaves both live rates no higher than they were before the update.
pub fee_increase_waits :
    (v : Vault) (performance management : Option ℕ) (asked now : ℤ) {w : Vault}
    → update_fees v performance management asked ≡ ok w
    → ¬ (asked +ℤ fee_increase_delay ≤ℤ now)
    → ((apply_pending_fees w now).performance_fee_bps ≤ v.performance_fee_bps)
      × ((apply_pending_fees w now).management_fee_bps ≤ v.management_fee_bps)
unfolding apply_pending_fees
fee_increase_waits v performance management asked now h early =
    ground (arith, update_fees_schedules v performance management asked h)

-- In a solvent vault, a successful claim of the manager pays all its unclaimed fee shares and sets
-- their counter to zero, and nothing else of the vault; a second claim is refused, and the vault
-- is solvent with the claimed shares in the supply.
pub claim_manager_fee_once :
    (v : Vault) (supply : ℕ) {w : Vault} {shares : ℕ}
    → IsSolvent v supply
    → claim_manager_fee v ≡ ok (w, shares)
    → (shares ≡ v.unclaimed_manager_fee_shares)
      × (w ≡ record v { unclaimed_manager_fee_shares = 0 })
      × (claim_manager_fee w ≡ err (custom no_fee_to_claim))
      × IsSolvent w (supply + shares)
unfolding claim_manager_fee
claim_manager_fee_once v supply {w} {shares} solvent h =
    let e : shares ≡ v.unclaimed_manager_fee_shares = ground arith in
    let e' : w ≡ record v { unclaimed_manager_fee_shares = 0 } = ground arith in
    (e, e', ground arith, subst (λ u. IsSolvent u (supply + shares)) (sym e') (ground arith))

-- In a solvent vault, a successful claim for the platform pays all its unclaimed fee shares and
-- sets their counter to zero, and nothing else of the vault; a second claim is refused, and the
-- vault is solvent with the claimed shares in the supply.
pub claim_platform_fee_once :
    (v : Vault) (supply : ℕ) {w : Vault} {shares : ℕ}
    → IsSolvent v supply
    → claim_platform_fee v ≡ ok (w, shares)
    → (shares ≡ v.unclaimed_platform_fee_shares)
      × (w ≡ record v { unclaimed_platform_fee_shares = 0 })
      × (claim_platform_fee w ≡ err (custom no_fee_to_claim))
      × IsSolvent w (supply + shares)
unfolding claim_platform_fee
claim_platform_fee_once v supply {w} {shares} solvent h =
    let e : shares ≡ v.unclaimed_platform_fee_shares = ground arith in
    let e' : w ≡ record v { unclaimed_platform_fee_shares = 0 } = ground arith in
    (e, e', ground arith, subst (λ u. IsSolvent u (supply + shares)) (sym e') (ground arith))
