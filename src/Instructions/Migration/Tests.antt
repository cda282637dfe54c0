-- ===== src/Instructions/Migration/Tests.antt =====
-- A configuration of the first layout is migrated.
use programs.Prelude.{◌≡◌, refl, arith, [], ◌∷◌}
use programs.Errors.{ok, validate, constraint}
use programs.Accounts.{insert}
use programs.Bytes.{length, take, drop, slice, from_le_bytes, read_le, starts_with}
use programs.Seeds.{to_le_bytes}
use programs.Config
use programs.Config.{Config}
use programs.Runtime.{Ledger, update}
use programs.World.{World}
use programs.Instructions.Migration.{
  ConfigMigrate, program_id, status_of, from_bytes, zeros, resize, write_version, check_v1,
  pay_rent, config_migrate,
}
use programs.Instructions.Migration.Laws.{Fits, v1_bytes, grown, Migrated, config_migrate-Migrated}
use programs.System.Tests.Addresses.{derived}
use programs.System.Tests.{rt, config, ledger, before}

config-Fits : Fits config
config-Fits = record {
  admin = omega arith;
  nav_updater = omega arith;
  treasury_authority = omega arith;
  guardian = omega arith;
  next_vault_id = omega arith;
  performance = omega arith;
  management = omega arith;
  deviation = omega arith;
  outflow = omega arith;
  bump = omega arith;
}

abbrev migrate : ConfigMigrate
migrate = record { admin = 21; config = 0 }

abbrev old_ledger : Ledger
old_ledger = record ledger { owner = λ key. program_id; account_data = λ key. v1_bytes config }

abbrev old : World
old = record before { configs = []; ledger = old_ledger }

abbrev migrated : World
migrated = record old {
  configs = (0, record (grown config) { version = 2 }) ∷ [];
  ledger = record old_ledger {
    account_data = update old_ledger.account_data 0 (write_version (resize (v1_bytes config) 352));
  };
}

migrate-runs : config_migrate rt migrate old ≡ ok migrated
unfolding config_migrate constraint derived check_v1 validate starts_with length read_le slice take
    drop from_le_bytes v1_bytes to_le_bytes pay_rent from_bytes status_of resize zeros
    Config.migrate insert
migrate-runs = refl

config_migrate-Migrated_example : Migrated config migrate migrated
config_migrate-Migrated_example =
    config_migrate-Migrated rt migrate old migrated config config-Fits refl migrate-runs
