-- ===== src/System/Balanced/Creations.antt =====
-- A new request keeps the books balanced. If there is one at its address already, that is of the same
-- vault, since addresses do not collide, and the amount is added to it.
use programs.Prelude.{ℕ, ◌≡◌, refl, sym, subst, ◌∙◌, inl, inr, arith, Option, none, some}
use programs.Accounts.{lookup, insert, lookup-Every, insert-Every}
use programs.Vault.{Pubkey}
use programs.DepositRequest.{DepositRequest}
use programs.WithdrawalRequest.{WithdrawalRequest}
use programs.Runtime.{Runtime}
use programs.World.{World}
use programs.System.Effects.FiledDeposit.{DepositFiled, DepositRequested}
use programs.System.Effects.FiledWithdrawal.{WithdrawalFiled, WithdrawalRequested}
use programs.System.Books.{keeps-Agrees, insert_new-Agrees, insert_more-Agrees}
use programs.System.Balanced.{
  IsBalanced, IsKey, IsSigner, Collisionless, DepositIsFiled, WithdrawalIsFiled, deposit_address,
  withdrawal_address, same_address,
}

module _ (rt : Runtime) where
  -- Of the account at a derived address: the request in it, if any, is of the vault and signer that the
  -- address was derived from.
  deposit_at-vault :
      Collisionless (deposit_address rt)
      → (w : World) (vk who rk : Pubkey) (old : DepositRequest) → IsBalanced rt w
      → IsKey vk
      → IsSigner who
      → rk ≡ deposit_address rt vk who
      → lookup rk w.deposit_requests ≡ some old
      → (old.vault ≡ vk) × DepositIsFiled rt rk old
  deposit_at-vault c w vk who rk old i key signer at found =
      let here =
        lookup-Every (DepositIsFiled rt) rk old w.deposit_requests i.deposits_filed found in
      (
        c.same_vault old.vault old.authority vk who here.vault_key here.signer.key key signer.key
            (sym here.at ∙ at),
        here,
      )

  pub DepositRequested-IsBalanced :
      Collisionless (deposit_address rt)
      → (vk who rk : Pubkey) (amount : ℕ) (w w' : World) → IsBalanced rt w
      → IsKey vk
      → IsSigner who
      → rk ≡ deposit_address rt vk who
      → DepositRequested w vk who rk amount w'
      → IsBalanced rt w'
  DepositRequested-IsBalanced c vk who rk amount w w' i key signer at s =
      subst (IsBalanced rt) s.final (filed (lookup rk w.deposit_requests) refl s.filed)
    where
      filed :
          (o : Option DepositRequest)
          → lookup rk w.deposit_requests ≡ o
          → DepositFiled o vk who amount s.request
          → IsBalanced rt (record w {
            vaults = insert vk s.vault' w.vaults;
            deposit_requests = insert rk s.request w.deposit_requests;
            ledger = s.ledger;
          })
      filed none e (n, v, by) = record {
        deposits =
            insert_new-Agrees _ _ _ vk rk s.vault s.vault' s.request w.vaults w.deposit_requests
              s.vault_found e v (ground (arith, s.given)) i.deposits;
        shares =
            keeps-Agrees _ _ _ vk s.vault s.vault' w.vaults w.withdrawal_requests s.vault_found
              s.kept i.shares;
        strategies =
            keeps-Agrees _ _ _ vk s.vault s.vault' w.vaults w.strategies s.vault_found s.counted
              i.strategies;
        deposits_filed =
            insert-Every (DepositIsFiled rt) rk s.request w.deposit_requests
              (record {
                at = at ∙ sym (same_address (deposit_address rt) v by);
                vault_key = subst IsKey (sym v) key;
                signer = subst IsSigner (sym by) signer;
              })
              i.deposits_filed;
        withdrawals_filed = i.withdrawals_filed;
      }
      filed (some old) e (inl blank) =
          absurd ((deposit_at-vault c w vk who rk old i key signer at e).1.signer.signs blank)
      filed (some old) e (inr (n, v, by)) =
          let (mine, here) = deposit_at-vault c w vk who rk old i key signer at e in
          record {
            deposits =
                insert_more-Agrees _ _ _ vk rk amount s.vault s.vault' old s.request w.vaults
                  w.deposit_requests s.vault_found e mine v n s.given i.deposits;
            shares =
                keeps-Agrees _ _ _ vk s.vault s.vault' w.vaults w.withdrawal_requests s.vault_found
                  s.kept i.shares;
            strategies =
                keeps-Agrees _ _ _ vk s.vault s.vault' w.vaults w.strategies s.vault_found s.counted
                  i.strategies;
            deposits_filed =
                insert-Every (DepositIsFiled rt) rk s.request w.deposit_requests
                  (record {
                    at = here.at ∙ sym (same_address (deposit_address rt) v by);
                    vault_key = subst IsKey (sym v) here.vault_key;
                    signer = subst IsSigner (sym by) here.signer;
                  })
                  i.deposits_filed;
            withdrawals_filed = i.withdrawals_filed;
          }

  -- Of the account at a derived address: the request in it, if any, is of the vault and signer that the
  -- address was derived from.
  withdrawal_at-vault :
      Collisionless (withdrawal_address rt)
      → (w : World) (vk who rk : Pubkey) (old : WithdrawalRequest) → IsBalanced rt w
      → IsKey vk
      → IsSigner who
      → rk ≡ withdrawal_address rt vk who
      → lookup rk w.withdrawal_requests ≡ some old
      → (old.vault ≡ vk) × WithdrawalIsFiled rt rk old
  withdrawal_at-vault c w vk who rk old i key signer at found =
      let here =
        lookup-Every (WithdrawalIsFiled rt) rk old w.withdrawal_requests i.withdrawals_filed
          found in
      (
        c.same_vault old.vault old.authority vk who here.vault_key here.signer.key key signer.key
            (sym here.at ∙ at),
        here,
      )

  pub WithdrawalRequested-IsBalanced :
      Collisionless (withdrawal_address rt)
      → (vk who rk : Pubkey) (shares : ℕ) (w w' : World) → IsBalanced rt w
      → IsKey vk
      → IsSigner who
      → rk ≡ withdrawal_address rt vk who
      → WithdrawalRequested w vk who rk shares w'
      → IsBalanced rt w'
  WithdrawalRequested-IsBalanced c vk who rk shares w w' i key signer at s =
      subst (IsBalanced rt) s.final (filed (lookup rk w.withdrawal_requests) refl s.filed)
    where
      filed :
          (o : Option WithdrawalRequest)
          → lookup rk w.withdrawal_requests ≡ o
          → WithdrawalFiled o vk who shares s.request
          → IsBalanced rt (record w {
            vaults = insert vk s.vault' w.vaults;
            withdrawal_requests = insert rk s.request w.withdrawal_requests;
            ledger = s.ledger;
          })
      filed none e (n, v, by) = record {
        deposits =
            keeps-Agrees _ _ _ vk s.vault s.vault' w.vaults w.deposit_requests s.vault_found s.kept
              i.deposits;
        shares =
            insert_new-Agrees _ _ _ vk rk s.vault s.vault' s.request w.vaults w.withdrawal_requests
              s.vault_found e v (ground (arith, s.given)) i.shares;
        strategies =
            keeps-Agrees _ _ _ vk s.vault s.vault' w.vaults w.strategies s.vault_found s.counted
              i.strategies;
        deposits_filed = i.deposits_filed;
        withdrawals_filed =
            insert-Every (WithdrawalIsFiled rt) rk s.request w.withdrawal_requests
              (record {
                at = at ∙ sym (same_address (withdrawal_address rt) v by);
                vault_key = subst IsKey (sym v) key;
                signer = subst IsSigner (sym by) signer;
              })
              i.withdrawals_filed;
      }
      filed (some old) e (inl blank) =
          absurd ((withdrawal_at-vault c w vk who rk old i key signer at e).1.signer.signs blank)
      filed (some old) e (inr (n, v, by)) =
          let (mine, here) = withdrawal_at-vault c w vk who rk old i key signer at e in
          record {
            deposits =
                keeps-Agrees _ _ _ vk s.vault s.vault' w.vaults w.deposit_requests s.vault_found
                  s.kept i.deposits;
            shares =
                insert_more-Agrees _ _ _ vk rk shares s.vault s.vault' old s.request w.vaults
                  w.withdrawal_requests s.vault_found e mine v n s.given i.shares;
            strategies =
                keeps-Agrees _ _ _ vk s.vault s.vault' w.vaults w.strategies s.vault_found s.counted
                  i.strategies;
            deposits_filed = i.deposits_filed;
            withdrawals_filed =
                insert-Every (WithdrawalIsFiled rt) rk s.request w.withdrawal_requests
                  (record {
                    at = here.at ∙ sym (same_address (withdrawal_address rt) v by);
                    vault_key = subst IsKey (sym v) here.vault_key;
                    signer = subst IsSigner (sym by) here.signer;
                  })
                  i.withdrawals_filed;
          }
