-- ===== src/System/Balanced/Openings.antt =====
-- Instructions that begin or end a strategy or a vault, and those that use a strategy, keep the books
-- balanced.
use programs.Prelude.{subst, refl}
use programs.Vault.{Pubkey}
use programs.Runtime.{Runtime}
use programs.World.{World}
use programs.Instructions.Lifecycle.{VaultClose}
use programs.System.Effects.Strategies.{StrategyOpened, StrategyClosed}
use programs.System.Effects.Actions.{StrategyActed}
use programs.System.Effects.Lifecycle.{RolesTouched, VaultOpened, VaultClosed}
use programs.System.Books.{
  keeps-Agrees, erase-Agrees, insert_new-Agrees, replace-Agrees, open-Agrees, close-Agrees,
}
use programs.System.Balanced.{IsBalanced}

module _ (rt : Runtime) where
  pub StrategyOpened-IsBalanced :
      (vault_key key : Pubkey) (w w' : World)
      → IsBalanced rt w
      → StrategyOpened w vault_key key w'
      → IsBalanced rt w'
  StrategyOpened-IsBalanced vk sk w w' i s = subst (IsBalanced rt) s.final (record {
    deposits =
        keeps-Agrees _ _ _ vk s.vault s.vault' w.vaults w.deposit_requests s.vault_found
          s.raised.deposits i.deposits;
    shares =
        keeps-Agrees _ _ _ vk s.vault s.vault' w.vaults w.withdrawal_requests s.vault_found
          s.raised.shares i.shares;
    strategies =
        insert_new-Agrees _ _ _ vk sk s.vault s.vault' s.strategy w.vaults w.strategies
          s.vault_found s.free s.of_vault s.raised.counted i.strategies;
    deposits_filed = i.deposits_filed;
    withdrawals_filed = i.withdrawals_filed;
  })

  pub StrategyClosed-IsBalanced :
      (vault_key key : Pubkey) (w w' : World)
      → IsBalanced rt w
      → StrategyClosed w vault_key key w'
      → IsBalanced rt w'
  StrategyClosed-IsBalanced vk sk w w' i s = subst (IsBalanced rt) s.final (record {
    deposits =
        keeps-Agrees _ _ _ vk s.vault s.vault' w.vaults w.deposit_requests s.vault_found
          s.lowered.deposits i.deposits;
    shares =
        keeps-Agrees _ _ _ vk s.vault s.vault' w.vaults w.withdrawal_requests s.vault_found
          s.lowered.shares i.shares;
    strategies =
        erase-Agrees _ _ _ vk sk s.vault s.vault' s.strategy w.vaults w.strategies s.vault_found
          s.strategy_found s.of_vault s.lowered.covered s.lowered.counted i.strategies;
    deposits_filed = i.deposits_filed;
    withdrawals_filed = i.withdrawals_filed;
  })

  pub StrategyActed-IsBalanced :
      (key : Pubkey) (w w' : World) → IsBalanced rt w → StrategyActed w key w' → IsBalanced rt w'
  StrategyActed-IsBalanced sk w w' i s = subst (IsBalanced rt) s.final (record {
    deposits = i.deposits;
    shares = i.shares;
    strategies =
        replace-Agrees _ _ _ sk s.strategy s.strategy' w.vaults w.strategies s.strategy_found
          s.same_vault refl i.strategies;
    deposits_filed = i.deposits_filed;
    withdrawals_filed = i.withdrawals_filed;
  })

  pub RolesTouched-IsBalanced :
      (w w' : World) → IsBalanced rt w → RolesTouched w w' → IsBalanced rt w'
  RolesTouched-IsBalanced w w' i s = subst (IsBalanced rt) s.final (record {
    deposits = i.deposits;
    shares = i.shares;
    strategies = i.strategies;
    deposits_filed = i.deposits_filed;
    withdrawals_filed = i.withdrawals_filed;
  })

  pub VaultOpened-IsBalanced :
      (vault_key : Pubkey) (w w' : World)
      → IsBalanced rt w
      → VaultOpened w vault_key w'
      → IsBalanced rt w'
  VaultOpened-IsBalanced vk w w' i s = subst (IsBalanced rt) s.final (record {
    deposits =
        open-Agrees _ _ _ vk s.vault w.vaults w.deposit_requests s.free s.deposits i.deposits;
    shares = open-Agrees _ _ _ vk s.vault w.vaults w.withdrawal_requests s.free s.shares i.shares;
    strategies = open-Agrees _ _ _ vk s.vault w.vaults w.strategies s.free s.counted i.strategies;
    deposits_filed = i.deposits_filed;
    withdrawals_filed = i.withdrawals_filed;
  })

  pub VaultClosed-IsBalanced :
      (a : VaultClose) (w w' : World) → IsBalanced rt w → VaultClosed w a w' → IsBalanced rt w'
  VaultClosed-IsBalanced a w w' i s = subst (IsBalanced rt) s.final (record {
    deposits =
        close-Agrees _ _ _ a.vault s.vault w.vaults w.deposit_requests s.vault_found
          s.settled.deposits i.deposits;
    shares =
        close-Agrees _ _ _ a.vault s.vault w.vaults w.withdrawal_requests s.vault_found
          s.settled.shares i.shares;
    strategies =
        close-Agrees _ _ _ a.vault s.vault w.vaults w.strategies s.vault_found s.settled.counted
          i.strategies;
    deposits_filed = i.deposits_filed;
    withdrawals_filed = i.withdrawals_filed;
  })
