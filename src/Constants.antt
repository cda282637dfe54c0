-- ===== src/Constants.antt =====
-- programs/hedge_vault/src/constants.rs
use Prim.Native.Nat.{ℕ}
use programs.Prelude.Int.{ℤ, pos}

-- 100%
abbrev pub max_bps : ℕ
max_bps = 10_000

abbrev pub config_version : ℕ
config_version = 2

abbrev pub vault_version : ℕ
vault_version = 1

abbrev pub strategy_version : ℕ
strategy_version = 1

abbrev pub config_v1_len : ℕ
config_v1_len = 160

-- 1e9 is one deposit mint unit per share.
abbrev pub nav_precision : ℕ
nav_precision = 1_000_000_000

-- 4 hours
abbrev pub epoch_duration : ℕ
epoch_duration = 14_400

abbrev pub treasury_claim_fee_bps : ℕ
treasury_claim_fee_bps = 1_000

-- 365 days
abbrev pub seconds_per_year : ℕ
seconds_per_year = 31_536_000

-- 7 days
abbrev pub fee_increase_delay : ℤ
fee_increase_delay = pos 604_800

-- 3%
abbrev pub default_max_slippage_bps : ℕ
default_max_slippage_bps = 300
