-- ===== src/System/Steps.antt =====
-- A successful instruction as a step between worlds, and sequences of steps.
pub mod Outcome
pub mod Refinement
pub mod Invariant
pub mod Covered
pub mod Closing
use programs.Prelude.{ℕ, ◌≡◌}
use programs.Errors.{ok}
use programs.Runtime.{Runtime, Clock}
use programs.World.{World}
use programs.Protocol.Dlmm.{Dlmm}
use programs.Entry
use programs.Entry.{Instruction, process}
use programs.System.Balanced.{IsKey, IsSigner}

-- What the runtime knows of the signer of the instructions that open a request.
abbrev pub IsSigned : Instruction → Type 0
IsSigned (Entry.deposit_request_create a amount) = IsKey a.vault × IsSigner a.depositor
IsSigned (Entry.withdrawal_request_create a shares) = IsKey a.vault × IsSigner a.withdrawer
IsSigned _ = Unit

-- One instruction that succeeded, with any accounts, arguments and time.
pub record Step (rt : Runtime) (w w' : World) : Type 0 where
  pub dlmm : Dlmm
  pub clock : Clock
  pub instruction : Instruction
  pub signed : IsSigned instruction
  pub succeeds : process rt dlmm clock instruction w ≡ ok w'

-- Instructions one after the other.
pub data Run (rt : Runtime) : World → World → Type 0 where
  stop : {w : World} → Run rt w w
  step : {w w' w'' : World} → Step rt w w' → Run rt w' w'' → Run rt w w''
