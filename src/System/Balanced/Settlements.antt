-- ===== src/System/Balanced/Settlements.antt =====
-- Instructions that settle requests, and those that leave them alone, keep the books balanced.
use programs.Prelude.{subst}
use programs.Accounts.{erase-Every}
use programs.Vault.{Pubkey}
use programs.Runtime.{Runtime}
use programs.World.{World}
use programs.System.Effects.{DepositSettled}
use programs.System.Effects.Withdrawals.{WithdrawalSettled}
use programs.System.Effects.Navs.{VaultTouched}
use programs.System.Settings.Effects.{ConfigTouched}
use programs.System.Books.{keeps-Agrees, erase-Agrees}
use programs.System.Balanced.{IsBalanced, DepositIsFiled, WithdrawalIsFiled}

module _ (rt : Runtime) where
  pub DepositSettled-IsBalanced :
      (vault_key request_key : Pubkey) (w w' : World)
      → IsBalanced rt w
      → DepositSettled w vault_key request_key w'
      → IsBalanced rt w'
  DepositSettled-IsBalanced vk rk w w' i s = subst (IsBalanced rt) s.final (record {
    deposits =
        erase-Agrees _ _ _ vk rk s.vault s.vault' s.request w.vaults w.deposit_requests
          s.vault_found s.request_found s.of_vault s.taken.covered s.taken.taken i.deposits;
    shares =
        keeps-Agrees _ _ _ vk s.vault s.vault' w.vaults w.withdrawal_requests s.vault_found
          s.taken.kept i.shares;
    strategies =
        keeps-Agrees _ _ _ vk s.vault s.vault' w.vaults w.strategies s.vault_found s.taken.counted
          i.strategies;
    deposits_filed = erase-Every (DepositIsFiled rt) rk w.deposit_requests i.deposits_filed;
    withdrawals_filed = i.withdrawals_filed;
  })

  pub WithdrawalSettled-IsBalanced :
      (vault_key request_key : Pubkey) (w w' : World)
      → IsBalanced rt w
      → WithdrawalSettled w vault_key request_key w'
      → IsBalanced rt w'
  WithdrawalSettled-IsBalanced vk rk w w' i s = subst (IsBalanced rt) s.final (record {
    deposits =
        keeps-Agrees _ _ _ vk s.vault s.vault' w.vaults w.deposit_requests s.vault_found
          s.taken.kept i.deposits;
    shares =
        erase-Agrees _ _ _ vk rk s.vault s.vault' s.request w.vaults w.withdrawal_requests
          s.vault_found s.request_found s.of_vault s.taken.covered s.taken.taken i.shares;
    strategies =
        keeps-Agrees _ _ _ vk s.vault s.vault' w.vaults w.strategies s.vault_found s.taken.counted
          i.strategies;
    deposits_filed = i.deposits_filed;
    withdrawals_filed =
        erase-Every (WithdrawalIsFiled rt) rk w.withdrawal_requests i.withdrawals_filed;
  })

  pub VaultTouched-IsBalanced :
      (vault_key : Pubkey) (w w' : World)
      → IsBalanced rt w
      → VaultTouched w vault_key w'
      → IsBalanced rt w'
  VaultTouched-IsBalanced vk w w' i s = subst (IsBalanced rt) s.final (record {
    deposits =
        keeps-Agrees _ _ _ vk s.vault s.vault' w.vaults w.deposit_requests s.vault_found
          s.owes.deposits i.deposits;
    shares =
        keeps-Agrees _ _ _ vk s.vault s.vault' w.vaults w.withdrawal_requests s.vault_found
          s.owes.shares i.shares;
    strategies =
        keeps-Agrees _ _ _ vk s.vault s.vault' w.vaults w.strategies s.vault_found s.owes.counted
          i.strategies;
    deposits_filed = i.deposits_filed;
    withdrawals_filed = i.withdrawals_filed;
  })

  pub ConfigTouched-IsBalanced :
      (w w' : World) → IsBalanced rt w → ConfigTouched w w' → IsBalanced rt w'
  ConfigTouched-IsBalanced w w' i s = subst (IsBalanced rt) s.final (record {
    deposits = i.deposits;
    shares = i.shares;
    strategies = i.strategies;
    deposits_filed = i.deposits_filed;
    withdrawals_filed = i.withdrawals_filed;
  })
