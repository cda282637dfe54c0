-- ===== src/DepositRequest.antt =====
-- state/deposit_request.rs: a pending deposit, held for one authority and one vault.
use programs.Prelude.{ℕ, ◌||◌, ltb, leb, ◌==◌}
use programs.Prelude.Int.{ℤ, pos}
use programs.SafeMath.{safe_add}
use programs.Errors.{
  Result, ok, ◌>>=◌, ◌>>◌, validate, invalid_request_authority, invalid_request_vault,
  pending_request_not_resolved, request_not_resolvable, request_not_cancellable,
}
use programs.Vault.{Pubkey}

pub record NewDepositRequestArgs : Type 0 where
  pub authority : Pubkey
  pub vault : Pubkey
  pub epoch : ℕ
  pub created_ts : ℤ
  pub bump : ℕ

-- The reserved bytes are left out.
pub record DepositRequest : Type 0 where
  pub authority : Pubkey
  pub vault : Pubkey
  pub amount : ℕ
  pub epoch : ℕ
  pub created_ts : ℤ
  pub bump : ℕ
  pub rent_escrow : ℕ

-- `DepositRequest::new`
unfoldable pub new : NewDepositRequestArgs → DepositRequest
new args = record {
  authority = args.authority;
  vault = args.vault;
  amount = 0;
  epoch = args.epoch;
  created_ts = args.created_ts;
  bump = args.bump;
  rent_escrow = 0;
}

-- What an account that was just created reads as: all its bytes are zero.
abbrev pub zeroed : DepositRequest
zeroed = record {
  authority = 0;
  vault = 0;
  amount = 0;
  epoch = 0;
  created_ts = pos 0;
  bump = 0;
  rent_escrow = 0;
}

unfoldable pub validate_authority : DepositRequest → Pubkey → Result (Unit {0})
unfolding validate
validate_authority self authority = validate (authority == self.authority) invalid_request_authority

unfoldable pub validate_vault : DepositRequest → Pubkey → Result (Unit {0})
unfolding validate
validate_vault self vault = validate (vault == self.vault) invalid_request_vault

-- Requests can only accumulate within a single epoch.
unfoldable pub add : DepositRequest → ℕ → ℕ → Result DepositRequest
unfolding validate
add self amount epoch = do
  validate (self.epoch == epoch) pending_request_not_resolved
  total ← safe_add 64 self.amount amount
  ok (record self { amount = total })

unfoldable pub is_resolvable : DepositRequest → ℕ → Result (Unit {0})
unfolding validate
is_resolvable self vault_nav_epoch =
    validate (ltb self.epoch vault_nav_epoch) request_not_resolvable

-- Until a NAV is posted for the request, or while the NAV is zero and the deposit cannot resolve.
unfoldable pub is_cancellable : DepositRequest → ℕ → ℕ → Result (Unit {0})
unfolding validate
is_cancellable self vault_nav_epoch vault_nav_per_share =
    validate (vault_nav_per_share == 0 || leb vault_nav_epoch self.epoch) request_not_cancellable
