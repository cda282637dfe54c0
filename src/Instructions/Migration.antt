-- ===== src/Instructions/Migration.antt =====
-- instructions/config_migrate.rs: the configuration of 160 bytes grows to the present layout. The account
-- is still bytes before that, laid out as the fields of `Config` stand.
pub mod Laws
mod Tests
use programs.Prelude.{ℕ, zero, suc, ◌-◌, ◌&&◌, List, [], ◌∷◌, ◌++◌, ltb, ◌==◌, if◌then◌else◌}
use programs.Constants.{config_v1_len, config_version}
use programs.Errors.{
  Result, ok, err, panicked, ◌>>=◌, ◌>>◌, validate, constraint, invalid_config,
  invalid_config_version, invalid_admin,
}
use programs.Bytes.{length, take, drop, read_le, starts_with}
use programs.Accounts.{insert}
use programs.Vault.{Pubkey}
use programs.Config
use programs.Config.{Config, ProtocolStatus, normal, paused, reduce_only}
use programs.Runtime.{Runtime, Ledger, update}
use programs.World.{World}
use programs.Instructions.Lifecycle.{config_of, config_space}

-- `declare_id!`
abbrev pub program_id : Pubkey
program_id =
    2_341_078_157_071_529_817_778_724_091_552_459_642_205_580_962_809_512_894_482_277_811_154_895_998_732

-- `Config::DISCRIMINATOR`, the first eight bytes of the SHA-256 of "account:Config".
abbrev pub config_discriminator : List ℕ
config_discriminator = 155 ∷ 12 ∷ 170 ∷ 224 ∷ 30 ∷ 250 ∷ 204 ∷ 130 ∷ []

pub record ConfigMigrate : Type 0 where
  pub admin : Pubkey
  pub config : Pubkey

-- `ProtocolStatus` by its byte. Another byte is none of its values, and counts as a failure here.
unfoldable pub status_of : ℕ → Result ProtocolStatus
status_of n =
    if n == 0
    then ok normal
    else if n == 1
    then ok paused
    else if n == 2
    then ok reduce_only
    else err panicked

-- The struct as `bytemuck` reads it behind the discriminator: the fields in order, with the padding.
unfoldable pub from_bytes : List ℕ → Result Config
from_bytes bs = do
  status ← status_of (read_le 1 bs 152)
  ok (record {
    admin = read_le 32 bs 8;
    nav_updater = read_le 32 bs 40;
    treasury_authority = read_le 32 bs 72;
    guardian = read_le 32 bs 104;
    next_vault_id = read_le 8 bs 136;
    platform_performance_fee_bps = read_le 2 bs 144;
    platform_management_fee_bps = read_le 2 bs 146;
    max_nav_deviation_bps = read_le 2 bs 148;
    max_epoch_outflow_bps = read_le 2 bs 150;
    status = status;
    bump = read_le 1 bs 153;
    version = read_le 1 bs 160;
    pending_admin = read_le 32 bs 168;
    max_slippage_bps = read_le 2 bs 200;
  })

unfoldable pub zeros : ℕ → List ℕ
zeros zero = []
zeros (suc n) = 0 ∷ zeros n

-- `resize`, to more bytes: the new ones are zero.
unfoldable pub resize : List ℕ → ℕ → List ℕ
resize bs new_len = bs ++ zeros (new_len - length bs)

-- The bytes after the version was written.
abbrev pub write_version : List ℕ → List ℕ
write_version bs = take 160 bs ++ (config_version ∷ drop 161 bs)

-- What must hold of the account that is migrated.
unfoldable pub check_v1 : (owner : Pubkey) → List ℕ → (admin : Pubkey) → Result (Unit {0})
check_v1 owner bs admin = do
  validate (owner == program_id && starts_with bs config_discriminator) invalid_config
  validate (length bs == config_v1_len) invalid_config_version
  validate (read_le 32 bs 8 == admin) invalid_admin

module _ (rt : Runtime) where
  -- What is missing for the rent of the larger account.
  unfoldable pub pay_rent : ConfigMigrate → Ledger → Result Ledger
  pay_rent a l =
      let rent_due = rt.minimum_balance config_space - l.lamports a.config in
      if ltb 0 rent_due then rt.transfer a.admin a.config rent_due l else ok l

  unfoldable pub config_migrate : ConfigMigrate → World → Result World
  config_migrate a w = do
    constraint (a.config == (config_of rt).0)
    let bs = w.ledger.account_data a.config in
        (do
          check_v1 (w.ledger.owner a.config) bs a.admin
          l ← pay_rent a w.ledger
          config ← from_bytes (resize bs config_space)
          ok (record w {
            configs = insert a.config (Config.migrate config) w.configs;
            ledger = record l {
              account_data =
                  update l.account_data a.config (write_version (resize bs config_space));
            };
          }))
