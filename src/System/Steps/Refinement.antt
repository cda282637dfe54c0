-- ===== src/System/Steps/Refinement.antt =====
-- The program refines the abstract books.
use programs.Prelude.{
  ℕ, ◌+◌, ◌-◌, ◌≤◌, ◌≡◌, refl, sym, ap, ◌∙◌, subst, inl, inr, arith, Option, none, some, List, ◌==◌,
  Bool-cases,
}
use std.Path.{fun_ext}
use programs.Errors.{ok}
use programs.Accounts.{lookup, insert, remove, lookup-insert, lookup-remove}
use programs.Vault.{Vault}
use programs.DepositRequest.{DepositRequest}
use programs.WithdrawalRequest.{WithdrawalRequest}
use programs.Runtime.{Runtime, Clock}
use programs.Protocol.Dlmm.{Dlmm}
use programs.World.{World}
use programs.Entry.{Instruction, process}
use programs.System.Books.{held}
use programs.System.Ledgers.{
  file_deposit, settle_deposit, file_withdrawal, settle_withdrawal, begin_strategy, end_strategy,
  Obligations, Ledgers, Operation, write, covered, apply, asked_amount, asked_shares, operation,
  view_vault, view,
}
use programs.System.Steps.{IsSigned}
use programs.System.Steps.Outcome.{
  Outcome, deposit_requested, deposit_settled, withdrawal_requested, withdrawal_settled,
  strategy_opened, strategy_closed, strategy_acted, vault_touched, config_touched, roles_touched,
  vault_opened, vault_closed, process-Outcome,
}

abbrev view_vaults : List (ℕ × Vault) → Ledgers
view_vaults m k = view_vault (lookup k m)

view-insert :
    (k : ℕ) (v : Vault) (m : List (ℕ × Vault)) (o : Obligations)
    → view_vault (some v) ≡ o
    → view_vaults (insert k v m) ≡ write (view_vaults m) k o
view-insert k v m o e = fun_ext λ j. elim (Bool-cases (k == j)) [
  | inl hit ↦ ground (arith, lookup-insert k j v m)
  | inr miss ↦ ground (arith, lookup-insert k j v m)
]

view-found :
    (k : ℕ) (v : Vault) (m : List (ℕ × Vault))
    → lookup k m ≡ some v
    → view_vaults m k ≡ view_vault (some v)
view-found k v m e = ap view_vault e

write-same : (b : Ledgers) (k : ℕ) (o : Obligations) → b k ≡ o → write b k o ≡ b
write-same b k o e =
    fun_ext λ j. elim (Bool-cases (k == j)) [ inl hit ↦ ground arith | inr miss ↦ ground arith ]

obligations-same :
    (v : Vault) (d s n : ℕ)
    → v.pending_deposits ≡ d
    → v.pending_withdrawal_shares ≡ s
    → v.open_strategy_count ≡ n
    → view_vault (some v) ≡ record { deposits = d; shares = s; strategies = n }
unfolding view_vault
obligations-same v d s n p q r = cc

-- A vault's entry changes, and what is seen of it changes by `f`.
view-changed :
    (f : Obligations → Obligations) (k : ℕ) (v v' : Vault) (m : List (ℕ × Vault))
    → lookup k m ≡ some v
    → view_vault (some v') ≡ f (view_vault (some v))
    → write (view_vaults m) k (f (view_vaults m k)) ≡ view_vaults (insert k v' m)
view-changed f k v v' m found e = sym (view-insert k v' m _ (e ∙ ap f (sym (ap view_vault found))))

-- A vault's entry changes, and nothing is seen of that.
view-kept :
    (k : ℕ) (v v' : Vault) (m : List (ℕ × Vault))
    → lookup k m ≡ some v
    → view_vault (some v') ≡ view_vault (some v)
    → view_vaults m ≡ view_vaults (insert k v' m)
view-kept k v v' m found e =
    cc (view-changed (λ o. o) k v v' m found e, write-same (view_vaults m) k (view_vaults m k) refl)

view-opened :
    (k : ℕ) (v : Vault) (m : List (ℕ × Vault))
    → lookup k m ≡ none
    → view_vault (some v) ≡ view_vault none
    → view_vaults m ≡ view_vaults (insert k v m)
view-opened k v m free e = fun_ext λ j. elim (Bool-cases (k == j)) [
  | inl hit ↦ ground (arith, lookup-insert k j v m)
  | inr miss ↦ ground (arith, lookup-insert k j v m)
]

view-closed :
    (k : ℕ) (v : Vault) (m : List (ℕ × Vault))
    → lookup k m ≡ some v
    → view_vault (some v) ≡ view_vault none
    → view_vaults m ≡ view_vaults (remove k m)
view-closed k v m found e = fun_ext λ j. elim (Bool-cases (k == j)) [
  | inl hit ↦ ground (arith, lookup-remove k j m)
  | inr miss ↦ ground (arith, lookup-remove k j m)
]

covered-some : (n of : ℕ) (b b' : Ledgers) → n ≤ of → b ≡ b' → covered n of b ≡ some b'
covered-some n of b b' h e = ground (arith, e)

-- What a request was filed with is what it is settled for.
asked-found : {R : Type 0} (f : R → ℕ) (r : R) {o : Option R} → o ≡ some r → held f o ≡ f r
asked-found f r e = ap (held f) e

module _ (rt : Runtime) (w w' : World) where
  Outcome-apply : (o : Operation) → Outcome rt w w' o → apply o (view w) ≡ some (view w')
  unfolding apply view_vault
  Outcome-apply _ (deposit_requested k authority key n _ _ _ s) =
      subst (λ w'. apply (file_deposit k n) (view w) ≡ some (view w')) s.final
        (ap some (
          view-changed (λ o. record o { deposits = o.deposits + n }) k s.vault s.vault' w.vaults
            s.vault_found (obligations-same s.vault' _ _ _ s.given s.kept s.counted)))
  Outcome-apply _ (deposit_settled k key s) =
      let asked = asked-found (λ (r : DepositRequest). r.amount) s.request s.request_found in
      subst (λ w'. apply (settle_deposit k (asked_amount w key)) (view w) ≡ some (view w')) s.final
        (covered-some _ _ _ _ (ground (arith, asked, s.taken.covered, s.vault_found)) (
          view-changed (λ o. record o { deposits = o.deposits - asked_amount w key }) k s.vault
            s.vault' w.vaults s.vault_found
            (obligations-same s.vault' _ _ _ (ground (arith, asked, s.taken.taken)) s.taken.kept
              s.taken.counted)))
  Outcome-apply _ (withdrawal_requested k authority key n _ _ _ s) =
      subst (λ w'. apply (file_withdrawal k n) (view w) ≡ some (view w')) s.final
        (ap some (
          view-changed (λ o. record o { shares = o.shares + n }) k s.vault s.vault' w.vaults
            s.vault_found (obligations-same s.vault' _ _ _ s.kept s.given s.counted)))
  Outcome-apply _ (withdrawal_settled k key s) =
      let asked = asked-found (λ (r : WithdrawalRequest). r.shares) s.request s.request_found in
      subst (λ w'. apply (settle_withdrawal k (asked_shares w key)) (view w) ≡ some (view w'))
        s.final
        (covered-some _ _ _ _ (ground (arith, asked, s.taken.covered, s.vault_found)) (
          view-changed (λ o. record o { shares = o.shares - asked_shares w key }) k s.vault s.vault'
            w.vaults s.vault_found
            (obligations-same s.vault' _ _ _ s.taken.kept (ground (arith, asked, s.taken.taken))
              s.taken.counted)))
  Outcome-apply _ (strategy_opened k key s) =
      subst (λ w'. apply (begin_strategy k) (view w) ≡ some (view w')) s.final
        (ap some (
          view-changed (λ o. record o { strategies = o.strategies + 1 }) k s.vault s.vault' w.vaults
            s.vault_found
            (obligations-same s.vault' _ _ _ s.raised.deposits s.raised.shares s.raised.counted)))
  Outcome-apply _ (strategy_closed k key s) =
      subst (λ w'. apply (end_strategy k) (view w) ≡ some (view w')) s.final
        (covered-some _ _ _ _ (ground (arith, s.lowered.covered, s.vault_found)) (
          view-changed (λ o. record o { strategies = o.strategies - 1 }) k s.vault s.vault' w.vaults
            s.vault_found
            (obligations-same s.vault' _ _ _ s.lowered.deposits s.lowered.shares
              s.lowered.counted)))
  Outcome-apply _ (strategy_acted key s) = subst (λ w'. some (view w) ≡ some (view w')) s.final refl
  Outcome-apply _ (vault_touched k s) =
      subst (λ w'. some (view w) ≡ some (view w')) s.final
        (ap some (
          view-kept k s.vault s.vault' w.vaults s.vault_found
            (obligations-same s.vault' _ _ _ s.owes.deposits s.owes.shares s.owes.counted)))
  Outcome-apply _ (config_touched s) = subst (λ w'. some (view w) ≡ some (view w')) s.final refl
  Outcome-apply _ (roles_touched s) = subst (λ w'. some (view w) ≡ some (view w')) s.final refl
  Outcome-apply _ (vault_opened k s) =
      subst (λ w'. some (view w) ≡ some (view w')) s.final
        (ap some (
          view-opened k s.vault w.vaults s.free
            (obligations-same s.vault _ _ _ s.deposits s.shares s.counted)))
  Outcome-apply _ (vault_closed a s) =
      subst (λ w'. some (view w) ≡ some (view w')) s.final
        (ap some (
          view-closed a.vault s.vault w.vaults s.vault_found
            (obligations-same s.vault _ _ _ s.settled.deposits s.settled.shares s.settled.counted)))

-- Every successful instruction, signed by a key that is not the default one where it opens a
-- request, refines one operation on abstract books, which hold the pending deposits, the pending
-- shares and the count of open strategies of each vault. The operation is read off the instruction
-- and, for a request that is settled, the amount or shares stored in it: opening a request adds to
-- one number of one vault, settling it subtracts, opening and closing a strategy counts up and
-- down, and every other instruction changes nothing. The abstract operation is allowed, with no
-- subtraction beyond what is there, and turns the books before into the books after.
pub process-Refines :
    (rt : Runtime) (dlmm : Dlmm) (clock : Clock) (e : Instruction) (w w' : World)
    → IsSigned e
    → process rt dlmm clock e w ≡ ok w'
    → apply (operation e w) (view w) ≡ some (view w')
process-Refines rt dlmm clock e w w' signed h =
    Outcome-apply rt w w' _ (process-Outcome rt dlmm clock w w' e signed h)
