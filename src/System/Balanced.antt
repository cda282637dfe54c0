-- ===== src/System/Balanced.antt =====
-- The books of the whole program: what each vault has pending is what its open requests add up to, the
-- strategies that it counts are those that name it, and each request stands at the address derived from its vault and authority.
pub mod Settlements
pub mod Creations
pub mod Openings
use programs.Prelude.{ℕ, ◌^◌, ◌<◌, ◌≡◌, ◌≢◌, refl, List, []}
use programs.Accounts.{lookup, total, Every}
use programs.Vault.{Pubkey, Vault}
use programs.Config.{default_key}
use programs.DepositRequest
use programs.DepositRequest.{DepositRequest}
use programs.WithdrawalRequest
use programs.WithdrawalRequest.{WithdrawalRequest}
use programs.Strategy.{Strategy}
use programs.Runtime.{Runtime, Ledger}
use programs.World.{World, deposit_request_of, withdrawal_request_of}
use programs.System.Books.{Agrees, held, owed}

-- The 32 bytes of a key.
abbrev pub IsKey : Pubkey → Type 0
IsKey k = k < 2 ^ 256

-- A key that can sign: the default key, which is the system program's, cannot.
pub record IsSigner (k : Pubkey) : Type 0 where
  pub key : IsKey k
  pub signs : k ≢ default_key

-- What an account entry must satisfy: it is where its seeds lead, and its seeds are keys.
pub record IsFiled (address : Pubkey → Pubkey → Pubkey) (key vault authority : Pubkey)
    : Type 0 where
  pub at : key ≡ address vault authority
  pub vault_key : IsKey vault
  pub signer : IsSigner authority

abbrev pub deposit_address : Runtime → Pubkey → Pubkey → Pubkey
deposit_address rt vault authority = (deposit_request_of rt vault authority).0

abbrev pub withdrawal_address : Runtime → Pubkey → Pubkey → Pubkey
withdrawal_address rt vault authority = (withdrawal_request_of rt vault authority).0

abbrev pub DepositIsFiled : Runtime → Pubkey → DepositRequest → Type 0
DepositIsFiled rt key r = IsFiled (deposit_address rt) key r.vault r.authority

abbrev pub WithdrawalIsFiled : Runtime → Pubkey → WithdrawalRequest → Type 0
WithdrawalIsFiled rt key r = IsFiled (withdrawal_address rt) key r.vault r.authority

abbrev pub DepositsAgree : World → Type 0
DepositsAgree w =
    Agrees (λ (v : Vault). v.pending_deposits) (λ (r : DepositRequest). r.vault) (λ r. r.amount)
      w.vaults w.deposit_requests

abbrev pub SharesAgree : World → Type 0
SharesAgree w =
    Agrees (λ (v : Vault). v.pending_withdrawal_shares) (λ (r : WithdrawalRequest). r.vault)
      (λ r. r.shares) w.vaults w.withdrawal_requests

abbrev pub StrategiesAgree : World → Type 0
StrategiesAgree w =
    Agrees (λ (v : Vault). v.open_strategy_count) (λ (s : Strategy). s.vault) (λ s. 1) w.vaults
      w.strategies

pub record IsBalanced (rt : Runtime) (w : World) : Type 0 where
  pub deposits : DepositsAgree w
  pub shares : SharesAgree w
  pub strategies : StrategiesAgree w
  pub deposits_filed : Every (DepositIsFiled rt) w.deposit_requests
  pub withdrawals_filed : Every (WithdrawalIsFiled rt) w.withdrawal_requests

-- Different seeds lead to different addresses.
pub record Collisionless (address : Pubkey → Pubkey → Pubkey) : Type 0 where
  pub same_vault :
      (v a v' a' : Pubkey)
      → IsKey v
      → IsKey a
      → IsKey v'
      → IsKey a'
      → address v a ≡ address v' a'
      → v ≡ v'

pub same_address :
    (address : Pubkey → Pubkey → Pubkey) {v a v' a' : Pubkey}
    → v ≡ v'
    → a ≡ a'
    → address v a ≡ address v' a'
same_address address p q i = address (p i) (q i)
