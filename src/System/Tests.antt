-- ===== src/System/Tests.antt =====
-- A deposit is requested, added to and taken back, in a world with one vault. The called programs let
-- everything pass; an address is the number that its seeds spell.
pub mod Addresses
mod Runs
mod Deposits
mod Withdrawals
mod Navs
mod Settings
mod Closing
use programs.Prelude.{
  ℕ, ◌+◌, ◌-◌, ◌*◌, ◌^◌, ◌<◌, ◌≡◌, refl, arith, Bool, true, false, none, some, List, [], ◌∷◌,
}
use programs.Prelude.Int.{pos}
use programs.Errors.{Result, ok, validate, constraint}
use programs.SafeMath.{safe_add, safe_sub}
use programs.Accounts.{lookup, insert, erase, total}
use programs.Vault
use programs.Vault.{
  Pubkey, Vault, epoch, validate_deposit_mint, validate_share_mint, is_vault_operational,
  validate_deposit_not_paused,
}
use programs.Vault.Requests.{request_deposit, cancel_deposit}
use programs.Config
use programs.Config.{Config, is_protocol_operational}
use programs.DepositRequest
use programs.DepositRequest.{DepositRequest}
use programs.Seeds.{
  Seed, to_le_bytes, validate_pda, config_seeds, vault_seeds, deposit_request_seeds,
  deposit_request_tag, withdrawal_request_tag,
}
use programs.Runtime.{Runtime, Ledger, Clock, update}
use programs.Payout.{
  validate_deposit_mint_extensions, payout_account_len, escrow_payout_rent, close,
}
use programs.Protocol.Dlmm.{Dlmm}
use programs.World.{World, load_config, load_vault, init_token_account}
use programs.Instructions.Deposits.{
  DepositRequestCreate, DepositRequestCancel, init_deposit_request, prepare_deposit_request,
  deposit_request_create, check_deposit_request, deposit_request_cancel,
}
use programs.System.Balanced.{IsKey, IsSigner, IsBalanced, deposit_address, withdrawal_address}
use programs.System.Steps.{Step, Run, stop, step}
use programs.System.Steps.Invariant.{Step-IsBalanced, Run-IsBalanced}
use programs.System.Tests.Addresses.{spelled, derived, derived-Collisionless}

abbrev pub rt : Runtime
rt = record {
  token_id = 2;
  token_2022_id = 3;
  create_program_address = λ seeds. some (derived seeds);
  find_program_address = λ seeds. (derived seeds, 255);
  find_address_under = λ program seeds. derived seeds;
  associated_token_address = λ owner mint program. owner + mint;
  minimum_balance = λ len. len;
  extended_account_len = λ extensions. none;
  create_account = λ payer key space l. ok l;
  create_mint = λ payer mint decimals authority program l. ok l;
  create_token_account = λ payer account mint authority program l. ok l;
  transfer = λ from to n l. ok l;
  transfer_checked = λ program authority from mint to n decimals l. ok l;
  mint_to = λ program mint to authority n l. ok l;
  burn = λ program mint from authority n l. ok l;
  close_account = λ program account to authority l. ok l;
  create_idempotent = λ payer account authority mint program l. ok l;
  invoke_signed = λ call accounts seeds l. ok l;
  token_ledger_account = λ content. ok 0;
}

-- Every position has the bins 0 to 9.
abbrev pub dlmm : Dlmm
dlmm = record {
  load_position = λ l key.
      ok (record { lower_bin_id = pos 0; upper_bin_id = pos 9; owner = 254; lb_pair = 71 });
  initialize_position2 = λ accounts seeds lower width l. ok l;
  increase_position_length = λ accounts seeds bins side l. ok l;
  add_liquidity_by_strategy2 = λ accounts seeds remaining parameter info l. ok l;
  remove_liquidity_by_range2 = λ accounts seeds remaining lower upper bps info l. ok l;
  claim_fee2 = λ accounts seeds remaining lower upper info l. ok l;
  close_position2 = λ position sender receiver authority seeds l. ok l;
}

abbrev pub config : Config
config = record {
  admin = 21;
  nav_updater = 22;
  treasury_authority = 23;
  guardian = 24;
  next_vault_id = 1;
  platform_performance_fee_bps = 500;
  platform_management_fee_bps = 50;
  max_nav_deviation_bps = 1_000;
  max_epoch_outflow_bps = 5_000;
  status = Config.normal;
  bump = 253;
  version = 2;
  pending_admin = 0;
  max_slippage_bps = 0;
}

-- Its address is that of the seeds with the identifier 0 and the bump 254.
abbrev pub vault : Vault
vault = record {
  id = 0;
  authority = 11;
  name = [];
  deposit_mint = 12;
  share_mint = 13;
  deposit_cap = 1_000_000;
  total_assets = 0;
  nav_per_share = 1_000_000_000;
  high_water_mark = 1_000_000_000;
  nav_epoch = 0;
  last_nav_ts = pos 0;
  pending_deposits = 0;
  pending_withdrawal_shares = 0;
  unclaimed_manager_fee_shares = 0;
  unclaimed_platform_fee_shares = 0;
  epoch_outflow = 0;
  next_strategy_id = 0;
  performance_fee_bps = 2_000;
  management_fee_bps = 100;
  status = Vault.normal;
  bump = 254;
  version = 1;
  deposit_paused = 0;
  withdrawal_paused = 0;
  min_deposit = 10;
  min_withdrawal_shares = 5;
  fee_effective_ts = pos 0;
  pending_performance_fee_bps = 0;
  pending_management_fee_bps = 0;
  open_strategy_count = 0;
}

abbrev pub ledger : Ledger
ledger = record {
  lamports = λ key. 1_000;
  amount = λ account. 500;
  supply = λ mint. 0;
  decimals = λ mint. 6;
  owner = λ mint. 2;
  extensions = λ mint. none;
  token_account = λ account. none;
  has_data = λ account. true;
  account_data = λ account. [];
  return_data = none;
}

abbrev pub before : World
before = record {
  configs = (253, config) ∷ [];
  managers = [];
  vaults = (254, vault) ∷ [];
  deposit_requests = [];
  withdrawal_requests = [];
  strategies = [];
  ledger = ledger;
}

-- The depositor's request account for the vault.
abbrev pub request_key : Pubkey
request_key = 254 * 2 ^ 256 + 77

abbrev pub request_of : ℕ → DepositRequest
request_of amount = record {
  authority = 77;
  vault = 254;
  amount = amount;
  epoch = 3;
  created_ts = pos 43_200;
  bump = 255;
  rent_escrow = 165;
}

abbrev pub with_request : ℕ → World
with_request amount = record before {
  vaults = (254, record vault { pending_deposits = amount }) ∷ [];
  deposit_requests = (request_key, request_of amount) ∷ [];
}

abbrev pub create : DepositRequestCreate
create = record {
  depositor = 77;
  config = 253;
  vault = 254;
  deposit_request = request_key;
  deposit_mint = 12;
  share_mint = 13;
  depositor_token_account = 89;
  deposit_escrow = 254;
  deposit_mint_token_program = 2;
}

abbrev pub clock : Clock
clock = record { epoch = 9; unix_timestamp = pos 43_200 }

abbrev pub cancel : DepositRequestCancel
cancel = record {
  depositor = 77;
  vault = 254;
  deposit_request = request_key;
  deposit_mint = 12;
  depositor_token_account = 89;
  deposit_escrow = 254;
  deposit_mint_token_program = 2;
}

-- After the request's account was closed.
abbrev pub closed : Ledger
closed = record ledger {
  lamports = update (update ledger.lamports 77 2_000) request_key 0;
  has_data = update ledger.has_data request_key false;
}
