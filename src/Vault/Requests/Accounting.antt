-- ===== src/Vault/Requests/Accounting.antt =====
-- When the vault takes a request, what it records of it, and that cancelling undoes it.
use programs.Prelude.{ℕ, ◌+◌, ◌-◌, ◌^◌, ◌≤◌, ◌<◌, ◌≡◌, ◌↔◌, ◌⊎◌, arith}
use programs.Errors.{ok}
use programs.SafeMath.{safe_add, safe_sub}
use programs.Vault.{Vault}
use programs.Vault.Requests.{request_deposit, cancel_deposit, request_withdrawal, cancel_withdrawal}

-- A deposit request is taken exactly when the NAV is not zero, the amount is at least the minimum,
-- and assets with all pending deposits stay within the cap and a u64; it then adds the amount to
-- the pending deposits and changes nothing else.
pub request_deposit_iff :
    (v w : Vault) (amount : ℕ)
    → (request_deposit v amount ≡ ok w) ↔ (
        (0 < v.nav_per_share)
        × (v.min_deposit ≤ amount)
        × (v.total_assets + (v.pending_deposits + amount) ≤ v.deposit_cap)
        × (v.total_assets + (v.pending_deposits + amount) < 2 ^ 64)
        × (w ≡ record v { pending_deposits = v.pending_deposits + amount }))
unfolding request_deposit safe_add
request_deposit_iff v w amount = (λ h. ground arith, λ h. ground arith)

-- A withdrawal request is taken exactly when it reaches the minimum or is the whole balance, and
-- the pending shares stay within a u64; it then adds the shares to the pending ones and changes
-- nothing else.
pub request_withdrawal_iff :
    (v w : Vault) (shares balance : ℕ)
    → (request_withdrawal v shares balance ≡ ok w) ↔ (
        ((v.min_withdrawal_shares ≤ shares) ⊎ (shares ≡ balance))
        × (v.pending_withdrawal_shares + shares < 2 ^ 64)
        × (w ≡ record v { pending_withdrawal_shares = v.pending_withdrawal_shares + shares }))
unfolding request_withdrawal safe_add
request_withdrawal_iff v w shares balance = (λ h. ground arith, λ h. ground arith)

-- Cancelling the amount of a deposit request straight after the vault took it succeeds, and gives
-- back the vault as it was.
pub cancel_deposit-request_deposit :
    (v : Vault) (amount : ℕ) {w : Vault}
    → request_deposit v amount ≡ ok w
    → cancel_deposit w amount ≡ ok v
unfolding cancel_deposit safe_sub
cancel_deposit-request_deposit v amount {w} h = ground (arith, (request_deposit_iff v w amount).0 h)

-- Cancelling the shares of a withdrawal request straight after the vault took it succeeds, and
-- gives back the vault as it was.
pub cancel_withdrawal-request_withdrawal :
    (v : Vault) (shares balance : ℕ) {w : Vault}
    → request_withdrawal v shares balance ≡ ok w
    → cancel_withdrawal w shares ≡ ok v
unfolding cancel_withdrawal safe_sub
cancel_withdrawal-request_withdrawal v shares balance {w} h =
    ground (arith, (request_withdrawal_iff v w shares balance).0 h)

pub cancel_deposit_moves :
    (v : Vault) (amount : ℕ) {w : Vault}
    → cancel_deposit v amount ≡ ok w
    → (amount ≤ v.pending_deposits)
      × (w ≡ record v { pending_deposits = v.pending_deposits - amount })
unfolding cancel_deposit safe_sub
cancel_deposit_moves v amount h = ground arith

pub cancel_withdrawal_moves :
    (v : Vault) (shares : ℕ) {w : Vault}
    → cancel_withdrawal v shares ≡ ok w
    → (shares ≤ v.pending_withdrawal_shares)
      × (w ≡ record v { pending_withdrawal_shares = v.pending_withdrawal_shares - shares })
unfolding cancel_withdrawal safe_sub
cancel_withdrawal_moves v shares h = ground arith
