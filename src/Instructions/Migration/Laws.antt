-- ===== src/Instructions/Migration/Laws.antt =====
-- A migration keeps what the old configuration said.
use programs.Prelude.{ℕ, ◌+◌, ◌^◌, ◌<◌, some, ◌≡◌, refl, sym, ap, ◌∙◌, List, [], ◌∷◌, ◌++◌, arith}
use programs.Errors.{ok, validate, constraint, then-elim, bind-elim, ok-injective}
use programs.Accounts.{lookup, lookup-insert_same}
use programs.Runtime.{Runtime, update}
use programs.World.{World}
use programs.Bytes.{length, take, drop, slice, from_le_bytes, read_le}
use programs.Bytes.Laws.{from_le_bytes-to_le_bytes}
use programs.Seeds.{to_le_bytes}
use programs.Config
use programs.Config.{Config, ProtocolStatus, normal, paused, reduce_only}
use programs.Instructions.Migration.{
  ConfigMigrate, config_discriminator, status_of, from_bytes, zeros, resize, write_version,
  check_v1, pay_rent, config_migrate,
}

abbrev pub status_byte : ProtocolStatus → ℕ
status_byte normal = 0
status_byte paused = 1
status_byte reduce_only = 2

-- Every field fits its width.
pub record Fits (c : Config) : Type 0 where
  pub admin : c.admin < 256 ^ 32
  pub nav_updater : c.nav_updater < 256 ^ 32
  pub treasury_authority : c.treasury_authority < 256 ^ 32
  pub guardian : c.guardian < 256 ^ 32
  pub next_vault_id : c.next_vault_id < 256 ^ 8
  pub performance : c.platform_performance_fee_bps < 256 ^ 2
  pub management : c.platform_management_fee_bps < 256 ^ 2
  pub deviation : c.max_nav_deviation_bps < 256 ^ 2
  pub outflow : c.max_epoch_outflow_bps < 256 ^ 2
  pub bump : c.bump < 256 ^ 1

-- The 160 bytes of the first layout, which ends with the status, the bump and padding.
unfoldable pub v1_bytes : Config → List ℕ
v1_bytes c =
    config_discriminator
    ++ (to_le_bytes 32 c.admin
        ++ (to_le_bytes 32 c.nav_updater
            ++ (to_le_bytes 32 c.treasury_authority
                ++ (to_le_bytes 32 c.guardian
                    ++ (to_le_bytes 8 c.next_vault_id
                        ++ (to_le_bytes 2 c.platform_performance_fee_bps
                            ++ (to_le_bytes 2 c.platform_management_fee_bps
                                ++ (to_le_bytes 2 c.max_nav_deviation_bps
                                    ++ (to_le_bytes 2 c.max_epoch_outflow_bps
                                        ++ (status_byte c.status
                                            ∷ (to_le_bytes 1 c.bump
                                                ++ (0 ∷ 0 ∷ 0 ∷ 0 ∷ 0 ∷ 0 ∷ []))))))))))))

-- The configuration, its fields after the first layout being zero.
abbrev pub grown : Config → Config
grown c = record c { version = 0; pending_admin = 0; max_slippage_bps = 0 }

-- Every field at its offset, in the account that was grown.
abbrev Kept : Config → List ℕ → Type 0
Kept c bs =
    (read_le 32 bs 8 ≡ c.admin)
    × (read_le 32 bs 40 ≡ c.nav_updater)
    × (read_le 32 bs 72 ≡ c.treasury_authority)
    × (read_le 32 bs 104 ≡ c.guardian)
    × (read_le 8 bs 136 ≡ c.next_vault_id)
    × (read_le 2 bs 144 ≡ c.platform_performance_fee_bps)
    × (read_le 2 bs 146 ≡ c.platform_management_fee_bps)
    × (read_le 2 bs 148 ≡ c.max_nav_deviation_bps)
    × (read_le 2 bs 150 ≡ c.max_epoch_outflow_bps)
    × (read_le 1 bs 153 ≡ c.bump)

v1_bytes-Kept : (c : Config) → Fits c → Kept c (resize (v1_bytes c) 352)
unfolding read_le slice take drop resize v1_bytes to_le_bytes length zeros from_le_bytes
v1_bytes-Kept c h = (
  from_le_bytes-to_le_bytes 32 c.admin h.admin,
  from_le_bytes-to_le_bytes 32 c.nav_updater h.nav_updater,
  from_le_bytes-to_le_bytes 32 c.treasury_authority h.treasury_authority,
  from_le_bytes-to_le_bytes 32 c.guardian h.guardian,
  from_le_bytes-to_le_bytes 8 c.next_vault_id h.next_vault_id,
  from_le_bytes-to_le_bytes 2 c.platform_performance_fee_bps h.performance,
  from_le_bytes-to_le_bytes 2 c.platform_management_fee_bps h.management,
  from_le_bytes-to_le_bytes 2 c.max_nav_deviation_bps h.deviation,
  from_le_bytes-to_le_bytes 2 c.max_epoch_outflow_bps h.outflow,
  from_le_bytes-to_le_bytes 1 c.bump h.bump,
)

abbrev Zeroed : List ℕ → Type 0
Zeroed bs = (read_le 1 bs 160 ≡ 0) × (read_le 32 bs 168 ≡ 0) × (read_le 2 bs 200 ≡ 0)

v1_bytes-Zeroed : (c : Config) → Zeroed (resize (v1_bytes c) 352)
unfolding read_le slice take drop resize v1_bytes to_le_bytes length zeros from_le_bytes
v1_bytes-Zeroed c = (refl, refl, refl)

status_of-byte : (s : ProtocolStatus) → status_of (status_byte s + 0) ≡ ok s
unfolding status_of
status_of-byte normal = refl
status_of-byte paused = refl
status_of-byte reduce_only = refl

v1_bytes-status : (c : Config) → status_of (read_le 1 (resize (v1_bytes c) 352) 152) ≡ ok c.status
unfolding read_le slice take drop resize v1_bytes to_le_bytes length zeros from_le_bytes status_of
v1_bytes-status c = status_of-byte c.status

pub from_bytes-v1_bytes :
    (c : Config) → Fits c → from_bytes (resize (v1_bytes c) 352) ≡ ok (grown c)
unfolding from_bytes
from_bytes-v1_bytes c h =
    let kept = v1_bytes-Kept c h in
    let fresh = v1_bytes-Zeroed c in
    rw
      (
        v1_bytes-status c,
        kept.0,
        kept.1,
        kept.2,
        kept.3,
        kept.4,
        kept.5,
        kept.6,
        kept.7,
        kept.8,
        kept.9,
        fresh.0,
        fresh.1,
        fresh.2,
      )
      refl

v1_bytes-admin : (c : Config) → Fits c → read_le 32 (v1_bytes c) 8 ≡ c.admin
unfolding read_le slice take drop v1_bytes to_le_bytes
v1_bytes-admin c h = from_le_bytes-to_le_bytes 32 c.admin h.admin

-- The new data is longer than the old layout.
length-grown : (c : Config) → length (write_version (resize (v1_bytes c) 352)) ≡ 352
unfolding take drop resize v1_bytes to_le_bytes length zeros
length-grown c = refl

check_v1-admin :
    (owner admin : ℕ) (bs : List ℕ) → check_v1 owner bs admin ≡ ok tt → read_le 32 bs 8 ≡ admin
unfolding check_v1 validate
check_v1-admin owner admin bs h = ground arith

update_same : (f : ℕ → List ℕ) (k : ℕ) (bs : List ℕ) → update f k bs k ≡ bs
update_same f k bs = ground arith

-- The migrated account: kept under its key, of the signer's, and too long to be migrated again.
pub record Migrated (c : Config) (a : ConfigMigrate) (w' : World) : Type 0 where
  pub kept : lookup a.config w'.configs ≡ some (record (grown c) { version = 2 })
  pub signed : c.admin ≡ a.admin
  pub once : length (w'.ledger.account_data a.config) ≡ 352

-- Let the data of an account be the bytes of a configuration in the first layout, whose fields fit
-- their widths. A successful config_migrate of it was signed by the admin of that configuration,
-- and leaves under its key the same configuration with the present version, no pending admin and a
-- slippage cap of zero. The new data have 352 bytes, so that they are not of the first layout any
-- more.
pub config_migrate-Migrated :
    (rt : Runtime) (a : ConfigMigrate) (w w' : World) (c : Config)
    → Fits c
    → w.ledger.account_data a.config ≡ v1_bytes c
    → config_migrate rt a w ≡ ok w'
    → Migrated c a w'
unfolding config_migrate Config.migrate
config_migrate-Migrated rt a w w' c fits e h = then-elim (constraint _) _ h λ at h₁.
    then-elim (check_v1 _ _ _) _ h₁ λ checked h₂. bind-elim (pay_rent rt a _) _ h₂ λ l paid h₃.
      bind-elim (from_bytes _) _ h₃ λ config found h₄.
        let final = sym (ok-injective h₄) in
        let same : ok (grown c) ≡ ok config =
          sym (from_bytes-v1_bytes c fits)
          ∙ (ap (λ bs. from_bytes (resize bs 352)) (sym e) ∙ found) in
        let there = ok-injective same in
        record {
          kept =
              ap (λ v. lookup a.config v.configs) final
              ∙ (lookup-insert_same a.config _ w.configs
                  ∙ ap (λ d. some (Config.migrate d)) (sym there));
          signed =
              sym (v1_bytes-admin c fits)
              ∙ (ap (λ bs. read_le 32 bs 8) (sym e) ∙ check_v1-admin _ _ _ checked);
          once =
              ap (λ v. length (v.ledger.account_data a.config)) final
              ∙ (ap length (update_same l.account_data a.config _)
                  ∙ (ap (λ bs. length (write_version (resize bs 352))) e ∙ length-grown c));
        }
