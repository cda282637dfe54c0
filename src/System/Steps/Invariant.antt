-- ===== src/System/Steps/Invariant.antt =====
-- What holds after any sequence of instructions, and of every single one.
use programs.Runtime.{Runtime}
use programs.World.{World}
use programs.System.Balanced.{IsBalanced, Collisionless, deposit_address, withdrawal_address}
use programs.System.Balanced.Settlements.{
  DepositSettled-IsBalanced, WithdrawalSettled-IsBalanced, VaultTouched-IsBalanced,
  ConfigTouched-IsBalanced,
}
use programs.System.Balanced.Creations.{DepositRequested-IsBalanced, WithdrawalRequested-IsBalanced}
use programs.System.Balanced.Openings.{
  StrategyOpened-IsBalanced, StrategyActed-IsBalanced, StrategyClosed-IsBalanced,
  RolesTouched-IsBalanced, VaultOpened-IsBalanced, VaultClosed-IsBalanced,
}
use programs.System.Ledgers.{Operation}
use programs.System.Steps.{Step, Run, stop, step}
use programs.System.Steps.Outcome.{
  Outcome, deposit_requested, deposit_settled, withdrawal_requested, withdrawal_settled,
  strategy_opened, strategy_closed, strategy_acted, vault_touched, config_touched, roles_touched,
  vault_opened, vault_closed, process-Outcome,
}

module _ (rt : Runtime) where
  module _ (w w' : World) (cd : Collisionless (deposit_address rt))
      (cw : Collisionless (withdrawal_address rt)) (i : IsBalanced rt w) where
    Outcome-IsBalanced : (o : Operation) → Outcome rt w w' o → IsBalanced rt w'
    Outcome-IsBalanced _ (deposit_requested vault authority key n is_key signer at s) =
        DepositRequested-IsBalanced rt cd vault authority key n w w' i is_key signer at s
    Outcome-IsBalanced _ (deposit_settled vault key s) =
        DepositSettled-IsBalanced rt vault key w w' i s
    Outcome-IsBalanced _ (withdrawal_requested vault authority key n is_key signer at s) =
        WithdrawalRequested-IsBalanced rt cw vault authority key n w w' i is_key signer at s
    Outcome-IsBalanced _ (withdrawal_settled vault key s) =
        WithdrawalSettled-IsBalanced rt vault key w w' i s
    Outcome-IsBalanced _ (strategy_opened vault key s) =
        StrategyOpened-IsBalanced rt vault key w w' i s
    Outcome-IsBalanced _ (strategy_closed vault key s) =
        StrategyClosed-IsBalanced rt vault key w w' i s
    Outcome-IsBalanced _ (strategy_acted key s) = StrategyActed-IsBalanced rt key w w' i s
    Outcome-IsBalanced _ (vault_touched vault s) = VaultTouched-IsBalanced rt vault w w' i s
    Outcome-IsBalanced _ (config_touched s) = ConfigTouched-IsBalanced rt w w' i s
    Outcome-IsBalanced _ (roles_touched s) = RolesTouched-IsBalanced rt w w' i s
    Outcome-IsBalanced _ (vault_opened vault s) = VaultOpened-IsBalanced rt vault w w' i s
    Outcome-IsBalanced _ (vault_closed a s) = VaultClosed-IsBalanced rt a w w' i s

  pub Step-IsBalanced :
      {w w' : World}
      → Collisionless (deposit_address rt)
      → Collisionless (withdrawal_address rt)
      → IsBalanced rt w
      → Step rt w w'
      → IsBalanced rt w'
  Step-IsBalanced {w} {w'} cd cw i s =
      Outcome-IsBalanced w w' cd cw i _
        (process-Outcome rt s.dlmm s.clock w w' s.instruction s.signed s.succeeds)

  -- Any sequence of successful instructions, of any of the entry points, keeps the books balanced,
  -- if no two pairs of keys derive the same address of a request and the signers that open
  -- requests are not the default key: the pending deposits and pending withdrawal shares of every
  -- vault are exactly what the open requests that name it add up to, its count of open strategies
  -- is the number of stored strategies that name it, the requests that name a vault that is not
  -- there add up to zero and no strategy names one, and each request stands at the address derived
  -- from its vault and authority.
  pub Run-IsBalanced :
      {w w' : World}
      → Collisionless (deposit_address rt)
      → Collisionless (withdrawal_address rt)
      → IsBalanced rt w
      → Run rt w w'
      → IsBalanced rt w'
  Run-IsBalanced cd cw i stop = i
  Run-IsBalanced cd cw i (step s more) = Run-IsBalanced cd cw (Step-IsBalanced cd cw i s) more
