-- ===== src/Vault/Requests.antt =====
-- state/vault.rs, section "Requests": the vault's side of deposits and withdrawals.
pub mod Conversion
pub mod Accounting
use programs.Prelude.{ℕ, ◌||◌, ltb, leb, ◌==◌}
use programs.Constants.{max_bps, nav_precision}
use programs.SafeMath.{safe_add, safe_sub, safe_mul, safe_div, safe_to_u64}
use programs.Errors.{
  Result, ok, ◌>>=◌, ◌>>◌, validate, vault_nav_is_zero, deposit_below_minimum, deposit_cap_reached,
  zero_shares_minted, withdrawal_below_minimum,
}
use programs.Vault.{Vault}

unfoldable pub request_deposit : Vault → ℕ → Result Vault
unfolding validate
request_deposit self amount = do
  validate (ltb 0 self.nav_per_share) vault_nav_is_zero
  validate (leb self.min_deposit amount) deposit_below_minimum
  pending ← safe_add 64 self.pending_deposits amount
  total ← safe_add 64 self.total_assets pending
  validate (leb total self.deposit_cap) deposit_cap_reached
  ok (record self { pending_deposits = pending })

unfoldable pub cancel_deposit : Vault → ℕ → Result Vault
cancel_deposit self amount = do
  pending ← safe_sub self.pending_deposits amount
  ok (record self { pending_deposits = pending })

-- The shares that an amount buys at a NAV.
unfoldable pub shares_for : ℕ → ℕ → Result ℕ
shares_for amount nav_per_share = do
  a ← safe_mul 128 amount nav_precision
  b ← safe_div a nav_per_share
  safe_to_u64 b

-- The vault that is left, and the shares to mint.
unfoldable pub resolve_deposit : Vault → ℕ → Result (Vault × ℕ)
unfolding validate
resolve_deposit self amount = do
  validate (ltb 0 self.nav_per_share) vault_nav_is_zero
  shares ← shares_for amount self.nav_per_share
  validate (ltb 0 shares) zero_shares_minted
  pending ← safe_sub self.pending_deposits amount
  total ← safe_add 64 self.total_assets amount
  ok (record self { pending_deposits = pending; total_assets = total }, shares)

unfoldable pub request_withdrawal : Vault → ℕ → ℕ → Result Vault
unfolding validate
request_withdrawal self shares share_balance = do
  validate (leb self.min_withdrawal_shares shares || shares == share_balance)
      withdrawal_below_minimum
  pending ← safe_add 64 self.pending_withdrawal_shares shares
  ok (record self { pending_withdrawal_shares = pending })

unfoldable pub cancel_withdrawal : Vault → ℕ → Result Vault
cancel_withdrawal self shares = do
  pending ← safe_sub self.pending_withdrawal_shares shares
  ok (record self { pending_withdrawal_shares = pending })

-- What shares are worth at a NAV.
unfoldable pub amount_for : ℕ → ℕ → Result ℕ
amount_for shares nav_per_share = do
  a ← safe_mul 128 shares nav_per_share
  b ← safe_div a nav_precision
  safe_to_u64 b

-- The epoch's outflow cap. The test against it is commented out in the source, so that only the
-- overflow checks of its computation are left.
unfoldable pub outflow_cap : Vault → ℕ → Result ℕ
outflow_cap self max_epoch_outflow_bps = do
  a ← safe_add 128 self.total_assets self.epoch_outflow
  b ← safe_mul 128 a max_epoch_outflow_bps
  safe_div b max_bps

-- The vault that is left, and the deposit mint amount to pay out.
unfoldable pub resolve_withdrawal : Vault → ℕ → ℕ → Result (Vault × ℕ)
resolve_withdrawal self shares max_epoch_outflow_bps = do
  pending ← safe_sub self.pending_withdrawal_shares shares
  amount ← amount_for shares self.nav_per_share
  max_epoch_outflow ← outflow_cap self max_epoch_outflow_bps
  outflow ← safe_add 64 self.epoch_outflow amount
  total ← safe_sub self.total_assets amount
  ok (
    record self {
      pending_withdrawal_shares = pending;
      epoch_outflow = outflow;
      total_assets = total;
    },
    amount,
  )
