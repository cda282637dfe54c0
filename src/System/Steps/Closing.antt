-- ===== src/System/Steps/Closing.antt =====
-- What is left when instructions/vault_close.rs has closed a vault.
use programs.Prelude.{
  ℕ, ◌≡◌, ◌≢◌, inl, inr, arith, some, none, List, [], ◌∷◌, ◌==◌, Bool-cases, subst,
}
use programs.Errors.{ok}
use programs.Accounts.{lookup, remove, total, Every, lookup-remove}
use programs.Vault.{Pubkey, Vault}
use programs.DepositRequest.{DepositRequest}
use programs.WithdrawalRequest.{WithdrawalRequest}
use programs.Strategy.{Strategy}
use programs.Runtime.{Runtime}
use programs.World.{World}
use programs.Instructions.Lifecycle.{VaultClose, vault_close}
use programs.System.Effects.Lifecycle.{Settled, vault_close-VaultClosed}
use programs.System.Books.{owed, total-empty}
use programs.System.Balanced.{IsBalanced}

-- What is open for a vault in a world.
abbrev pub deposits_for : Pubkey → World → ℕ
deposits_for key w =
    total (owed (λ (r : DepositRequest). r.vault) (λ r. r.amount) key) w.deposit_requests

abbrev pub shares_for : Pubkey → World → ℕ
shares_for key w =
    total (owed (λ (r : WithdrawalRequest). r.vault) (λ r. r.shares) key) w.withdrawal_requests

-- No entry names the key.
abbrev pub Unnamed : Pubkey → World → Type 0
Unnamed key w = Every (λ _ (s : Strategy). s.vault ≢ key) w.strategies

-- The vault of a close is gone, and nothing in the world waits for it.
pub record Gone (w w' : World) (a : VaultClose) : Type 0 where
  pub vault : Vault
  pub held : lookup a.vault w.vaults ≡ some vault
  pub signed : a.authority ≡ vault.authority
  pub settled : Settled vault (w.ledger.supply vault.share_mint)
  pub absent : lookup a.vault w'.vaults ≡ none
  pub deposits : deposits_for a.vault w' ≡ 0
  pub shares : shares_for a.vault w' ≡ 0
  pub unnamed : Unnamed a.vault w'

total-Every :
    (key : ℕ) (m : List (ℕ × Strategy))
    → total (owed (λ (s : Strategy). s.vault) (λ s. 1) key) m ≡ 0
    → Every (λ _ (s : Strategy). s.vault ≢ key) m
unfolding total
total-Every key [] h = tt
total-Every key ((k, s) ∷ m) h = elim (Bool-cases (s.vault == key)) [
  | inl hit ↦ ground arith
  | inr miss ↦ (ground arith, total-Every key m (ground arith))
]

lookup-remove_same {ℓ} : {A : Type ℓ} (k : ℕ) (m : List (ℕ × A)) → lookup k (remove k m) ≡ none
lookup-remove_same k m = ground (arith, lookup-remove k k m)

-- With balanced books, a successful vault_close found a vault at the named address and was signed
-- by its authority; that vault had no share of its mint outstanding, no pending or unclaimed
-- amount, no open strategy and no assets. After it no account is at the vault's address, what the
-- open deposit requests naming the vault hold and what the open withdrawal requests naming it ask
-- for add up to zero, and no stored strategy names it.
pub vault_close-Gone :
    (rt : Runtime) (a : VaultClose) (w w' : World)
    → IsBalanced rt w
    → vault_close rt a w ≡ ok w'
    → Gone w w' a
vault_close-Gone rt a w w' i h =
    let c = vault_close-VaultClosed rt a w h in
    subst (λ w'. Gone w w' a) c.final
      (record {
        vault = c.vault;
        held = c.vault_found;
        signed = c.signed;
        settled = subst (λ m. Settled c.vault (w.ledger.supply m)) c.share_mint c.settled;
        absent = lookup-remove_same a.vault w.vaults;
        deposits =
            total-empty _ _ _ a.vault c.vault w.vaults w.deposit_requests c.vault_found
              c.settled.deposits i.deposits;
        shares =
            total-empty _ _ _ a.vault c.vault w.vaults w.withdrawal_requests c.vault_found
              c.settled.shares i.shares;
        unnamed = total-Every a.vault w.strategies (
            total-empty _ _ _ a.vault c.vault w.vaults w.strategies c.vault_found c.settled.counted
              i.strategies);
      })
