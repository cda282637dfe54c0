-- ===== src/Protocol/Dlmm.antt =====
-- The Meteora DLMM program, which vaults provide liquidity through. Its client is generated from
-- idls/dlmm.json, so that its operations are fields of a record of which nothing is assumed here.
use programs.Prelude.{ℕ, Option, List}
use programs.Prelude.Int.{ℤ}
use programs.Errors.{Result}
use programs.Vault.{Pubkey}
use programs.Seeds.{Seed}
use programs.Runtime.{Ledger, AccountMeta}

-- From idls/dlmm.json.
abbrev pub dlmm_id : Pubkey
dlmm_id =
    85_346_005_064_901_035_260_837_218_429_895_067_658_408_182_237_806_649_244_386_764_562_559_131_576_580

-- What this program reads of a position.
pub record PositionV2 : Type 0 where
  pub lower_bin_id : ℤ
  pub upper_bin_id : ℤ
  pub owner : Pubkey
  pub lb_pair : Pubkey

-- The accounts of the calls that move liquidity or fees.
pub record LiquidityAccounts : Type 0 where
  pub position : Pubkey
  pub lb_pair : Pubkey
  pub bin_array_bitmap_extension : Option Pubkey
  pub user_token_x : Pubkey
  pub user_token_y : Pubkey
  pub reserve_x : Pubkey
  pub reserve_y : Pubkey
  pub token_x_mint : Pubkey
  pub token_y_mint : Pubkey
  pub sender : Pubkey
  pub token_x_program : Pubkey
  pub token_y_program : Pubkey
  pub memo_program : Option Pubkey
  pub event_authority : Pubkey

-- The accounts of the calls on a position itself.
pub record PositionAccounts : Type 0 where
  pub payer : Pubkey
  pub position : Pubkey
  pub lb_pair : Pubkey
  pub owner : Pubkey
  pub system_program : Pubkey
  pub event_authority : Pubkey

pub record Dlmm : Type 0 where
  -- a position account, which the framework loads by its type
  pub load_position : Ledger → Pubkey → Result PositionV2
  -- the signer's seeds, the lower bin and the width
  pub initialize_position2 : PositionAccounts → List Seed → ℤ → ℤ → Ledger → Result Ledger
  -- the bins to add and the side
  pub increase_position_length : PositionAccounts → List Seed → ℕ → ℕ → Ledger → Result Ledger
  -- the serialized liquidity parameter and remaining accounts info
  pub add_liquidity_by_strategy2 :
      LiquidityAccounts → List Seed → List AccountMeta → List ℕ → List ℕ → Ledger → Result Ledger
  -- the range, the basis points to remove, and the serialized remaining accounts info
  pub remove_liquidity_by_range2 :
      LiquidityAccounts → List Seed → List AccountMeta → ℤ → ℤ → ℕ → List ℕ → Ledger → Result Ledger
  -- the range, and the serialized remaining accounts info
  pub claim_fee2 :
      LiquidityAccounts → List Seed → List AccountMeta → ℤ → ℤ → List ℕ → Ledger → Result Ledger
  -- position, sender, rent receiver, event authority
  pub close_position2 : Pubkey → Pubkey → Pubkey → Pubkey → List Seed → Ledger → Result Ledger
