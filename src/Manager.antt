-- ===== src/Manager.antt =====
-- state/manager.rs: a whitelist entry that lets its authority create vaults.
use programs.Prelude.{ℕ, ◌==◌}
use programs.Errors.{Result, validate, invalid_manager_authority}
use programs.Vault.{Pubkey}

pub record NewManagerArgs : Type 0 where
  pub authority : Pubkey
  pub bump : ℕ

-- The reserved bytes are left out.
pub record Manager : Type 0 where
  pub authority : Pubkey
  pub bump : ℕ

-- `Manager::new`
unfoldable pub new : NewManagerArgs → Manager
new args = record { authority = args.authority; bump = args.bump }

unfoldable pub validate_authority : Manager → Pubkey → Result (Unit {0})
unfolding validate
validate_authority self authority = validate (authority == self.authority) invalid_manager_authority
