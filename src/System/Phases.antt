-- ===== src/System/Phases.antt =====
-- When a request may be settled, and when taken back.
use programs.Prelude.{ℕ, ◌≡◌, ◌<◌, ◌⊎◌, inl, inr, arith, ltb, Bool-cases}
use programs.Errors.{ok, err, custom, validate, request_not_resolvable, request_not_cancellable}
use programs.DepositRequest
use programs.DepositRequest.{DepositRequest}
use programs.WithdrawalRequest
use programs.WithdrawalRequest.{WithdrawalRequest}

-- Under a NAV that is not zero, a deposit request is at each time in one of two phases: it can be
-- resolved and not cancelled, or cancelled and not resolved, the other being refused with its
-- error.
pub deposit_phases :
    (r : DepositRequest) (nav_epoch nav : ℕ)
    → 0 < nav
    → ((DepositRequest.is_resolvable r nav_epoch ≡ ok tt)
        × (DepositRequest.is_cancellable r nav_epoch nav ≡ err (custom request_not_cancellable)))
      ⊎ ((DepositRequest.is_resolvable r nav_epoch ≡ err (custom request_not_resolvable))
          × (DepositRequest.is_cancellable r nav_epoch nav ≡ ok tt))
unfolding DepositRequest.is_resolvable DepositRequest.is_cancellable validate
deposit_phases r nav_epoch nav live = elim (Bool-cases (ltb r.epoch nav_epoch)) [
  | inl later ↦ inl (ground arith, ground arith)
  | inr early ↦ inr (ground arith, ground arith)
]

-- A withdrawal request is at each time in one of two phases: it can be resolved and not cancelled,
-- or cancelled and not resolved, the other being refused with its error.
pub withdrawal_phases :
    (r : WithdrawalRequest) (nav_epoch : ℕ)
    → ((WithdrawalRequest.is_resolvable r nav_epoch ≡ ok tt)
        × (WithdrawalRequest.is_cancellable r nav_epoch ≡ err (custom request_not_cancellable)))
      ⊎ ((WithdrawalRequest.is_resolvable r nav_epoch ≡ err (custom request_not_resolvable))
          × (WithdrawalRequest.is_cancellable r nav_epoch ≡ ok tt))
unfolding WithdrawalRequest.is_resolvable WithdrawalRequest.is_cancellable validate
withdrawal_phases r nav_epoch = elim (Bool-cases (ltb r.epoch nav_epoch)) [
  | inl later ↦ inl (ground arith, ground arith)
  | inr early ↦ inr (ground arith, ground arith)
]
