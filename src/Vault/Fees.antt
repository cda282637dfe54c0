-- ===== src/Vault/Fees.antt =====
-- state/vault.rs, section "Fees": the manager's fee rates and the claims of fee shares.
pub mod Schedule
use programs.Prelude.{ℕ, not, ◌&&◌, Option, none, some, ltb, leb, if◌then◌else◌}
use programs.Prelude.Int.{ℤ, pos, leb_ℤ, eqb_ℤ}
use programs.Constants.{max_bps, fee_increase_delay}
use programs.SafeMath.{safe_add_i64}
use programs.Errors.{Result, ok, ◌>>=◌, ◌>>◌, validate, invalid_basis_points, no_fee_to_claim}
use programs.Vault.{Vault}

-- `Option::unwrap_or`
abbrev pub unwrap_or {ℓ} : {A : Type ℓ} → Option A → A → A
unwrap_or none d = d
unwrap_or (some a) d = a

unfoldable pub update_fees : Vault → Option ℕ → Option ℕ → ℤ → Result Vault
unfolding validate
update_fees self performance management now = do
  let idle = eqb_ℤ self.fee_effective_ts (pos 0)
  let current_performance =
      if idle then self.performance_fee_bps else self.pending_performance_fee_bps
  let current_management = if idle then self.management_fee_bps else self.pending_management_fee_bps
  let performance_fee_bps = unwrap_or performance current_performance
  let management_fee_bps = unwrap_or management current_management
  validate (leb performance_fee_bps max_bps && leb management_fee_bps max_bps) invalid_basis_points
  if leb performance_fee_bps self.performance_fee_bps
        && leb management_fee_bps self.management_fee_bps
      then ok (record self {
        performance_fee_bps = performance_fee_bps;
        management_fee_bps = management_fee_bps;
        pending_performance_fee_bps = 0;
        pending_management_fee_bps = 0;
        fee_effective_ts = pos 0;
      })
      else (do
        effective ← safe_add_i64 now fee_increase_delay
        ok (record self {
          pending_performance_fee_bps = performance_fee_bps;
          pending_management_fee_bps = management_fee_bps;
          fee_effective_ts = effective;
        }))

unfoldable pub apply_pending_fees : Vault → ℤ → Vault
apply_pending_fees self now =
    if not (eqb_ℤ self.fee_effective_ts (pos 0)) && leb_ℤ self.fee_effective_ts now
    then record self {
      performance_fee_bps = self.pending_performance_fee_bps;
      management_fee_bps = self.pending_management_fee_bps;
      pending_performance_fee_bps = 0;
      pending_management_fee_bps = 0;
      fee_effective_ts = pos 0;
    }
    else self

-- The vault that is left, and the shares to mint.
unfoldable pub claim_manager_fee : Vault → Result (Vault × ℕ)
unfolding validate
claim_manager_fee self = do
  let shares = self.unclaimed_manager_fee_shares
  validate (ltb 0 shares) no_fee_to_claim
  ok (record self { unclaimed_manager_fee_shares = 0 }, shares)

unfoldable pub claim_platform_fee : Vault → Result (Vault × ℕ)
unfolding validate
claim_platform_fee self = do
  let shares = self.unclaimed_platform_fee_shares
  validate (ltb 0 shares) no_fee_to_claim
  ok (record self { unclaimed_platform_fee_shares = 0 }, shares)
