-- ===== src/System/Steps/Covered.antt =====
-- What the cancellations of requests can rely on when the books are balanced.
use programs.Prelude.{ℕ, ◌-◌, ◌≤◌, ◌≡◌, arith, some, List}
use programs.Errors.{ok}
use programs.SafeMath.{safe_sub}
use programs.Accounts.{lookup, total, total-erase}
use programs.Vault.{Pubkey, Vault}
use programs.Vault.Requests.{cancel_deposit, cancel_withdrawal}
use programs.DepositRequest.{DepositRequest}
use programs.WithdrawalRequest.{WithdrawalRequest}
use programs.Runtime.{Runtime}
use programs.World.{World}
use programs.System.Books.{owed}
use programs.System.Balanced.{IsBalanced}

total-lookup {ℓ} :
    {R : Type ℓ} (f : R → ℕ) (q : ℕ) (r : R) (m : List (ℕ × R))
    → lookup q m ≡ some r
    → f r ≤ total f m
total-lookup f q r m e = omega (arith, total-erase f q r m e)

module _ (rt : Runtime) where
  -- With balanced books, taking any open deposit request out of the pending deposits of its vault
  -- never underflows: it succeeds and subtracts the amount.
  pub cancel_deposit-covered :
      (w : World) (key : Pubkey) (r : DepositRequest) (v : Vault)
      → IsBalanced rt w
      → lookup key w.deposit_requests ≡ some r
      → lookup r.vault w.vaults ≡ some v
      → cancel_deposit v r.amount
        ≡ ok (record v { pending_deposits = v.pending_deposits - r.amount })
  unfolding cancel_deposit safe_sub
  cancel_deposit-covered w key r v i asked found = ground (
    arith,
    i.deposits r.vault,
    total-lookup (owed (λ r. r.vault) (λ r. r.amount) r.vault) key r w.deposit_requests asked,
  )

  -- With balanced books, taking any open withdrawal request out of the pending shares of its vault
  -- never underflows: it succeeds and subtracts the shares.
  pub cancel_withdrawal-covered :
      (w : World) (key : Pubkey) (r : WithdrawalRequest) (v : Vault)
      → IsBalanced rt w
      → lookup key w.withdrawal_requests ≡ some r
      → lookup r.vault w.vaults ≡ some v
      → cancel_withdrawal v r.shares
        ≡ ok (record v { pending_withdrawal_shares = v.pending_withdrawal_shares - r.shares })
  unfolding cancel_withdrawal safe_sub
  cancel_withdrawal-covered w key r v i asked found = ground (
    arith,
    i.shares r.vault,
    total-lookup (owed (λ r. r.vault) (λ r. r.shares) r.vault) key r w.withdrawal_requests asked,
  )
