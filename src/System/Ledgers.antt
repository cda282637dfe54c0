-- ===== src/System/Ledgers.antt =====
-- The books in the abstract: what each vault has pending and how many strategies it counts, without
-- accounts, requests or keys, and the few operations on them that instructions amount to.
use programs.Prelude.{ℕ, ◌+◌, ◌-◌, ◌==◌, leb, Option, none, some, if◌then◌else◌}
use programs.Accounts.{lookup}
use programs.Vault.{Pubkey, Vault}
use programs.DepositRequest.{DepositRequest}
use programs.WithdrawalRequest.{WithdrawalRequest}
use programs.World.{World}
use programs.Entry
use programs.Entry.{Instruction}
use programs.System.Books.{held}

pub record Obligations : Type 0 where
  pub deposits : ℕ
  pub shares : ℕ
  pub strategies : ℕ

abbrev pub Ledgers : Type 0
Ledgers = Pubkey → Obligations

pub data Operation : Type 0 where
  file_deposit : (vault : Pubkey) (amount : ℕ) → Operation
  settle_deposit : (vault : Pubkey) (amount : ℕ) → Operation
  file_withdrawal : (vault : Pubkey) (shares : ℕ) → Operation
  settle_withdrawal : (vault : Pubkey) (shares : ℕ) → Operation
  begin_strategy : (vault : Pubkey) → Operation
  end_strategy : (vault : Pubkey) → Operation
  idle : Operation

abbrev pub write : Ledgers → Pubkey → Obligations → Ledgers
write b vault o k = if vault == k then o else b k

-- What may be subtracted is subtracted.
abbrev pub covered : ℕ → ℕ → Ledgers → Option Ledgers
covered n of b = if leb n of then some b else none

unfoldable pub apply : Operation → Ledgers → Option Ledgers
apply (file_deposit v n) b = some (write b v (record (b v) { deposits = (b v).deposits + n }))
apply (settle_deposit v n) b =
    covered n (b v).deposits (write b v (record (b v) { deposits = (b v).deposits - n }))
apply (file_withdrawal v n) b = some (write b v (record (b v) { shares = (b v).shares + n }))
apply (settle_withdrawal v n) b =
    covered n (b v).shares (write b v (record (b v) { shares = (b v).shares - n }))
apply (begin_strategy v) b = some (write b v (record (b v) { strategies = (b v).strategies + 1 }))
apply (end_strategy v) b =
    covered 1 (b v).strategies (write b v (record (b v) { strategies = (b v).strategies - 1 }))
apply idle b = some b

abbrev pub asked_amount : World → Pubkey → ℕ
asked_amount w key = held (λ (r : DepositRequest). r.amount) (lookup key w.deposit_requests)

abbrev pub asked_shares : World → Pubkey → ℕ
asked_shares w key = held (λ (r : WithdrawalRequest). r.shares) (lookup key w.withdrawal_requests)

-- What an instruction amounts to. The amount of a request is the one it was filed with.
unfoldable pub operation : Instruction → World → Operation
operation (Entry.deposit_request_create a amount) w = file_deposit a.vault amount
operation (Entry.deposit_request_resolve a) w =
    settle_deposit a.vault (asked_amount w a.deposit_request)
operation (Entry.deposit_request_cancel a) w =
    settle_deposit a.vault (asked_amount w a.deposit_request)
operation (Entry.deposit_request_reject a) w =
    settle_deposit a.vault (asked_amount w a.deposit_request)
operation (Entry.withdrawal_request_create a shares) w = file_withdrawal a.vault shares
operation (Entry.withdrawal_request_resolve a) w =
    settle_withdrawal a.vault (asked_shares w a.withdrawal_request)
operation (Entry.withdrawal_request_cancel a) w =
    settle_withdrawal a.vault (asked_shares w a.withdrawal_request)
operation (Entry.withdrawal_request_reject a) w =
    settle_withdrawal a.vault (asked_shares w a.withdrawal_request)
operation (Entry.jupiter_initialize_strategy a) w = begin_strategy a.vault
operation (Entry.phoenix_initialize_strategy a) w = begin_strategy a.vault
operation (Entry.meteora_dlmm_initialize_position a lower_bin_id upper_bin_id) w =
    begin_strategy a.vault
operation (Entry.vault_close_strategy a remaining) w = end_strategy a.vault
operation _ w = idle

unfoldable pub view_vault : Option Vault → Obligations
view_vault none = record { deposits = 0; shares = 0; strategies = 0 }
view_vault (some v) = record {
  deposits = v.pending_deposits;
  shares = v.pending_withdrawal_shares;
  strategies = v.open_strategy_count;
}

-- The abstract books of a world, as its vaults keep them.
abbrev pub view : World → Ledgers
view w k = view_vault (lookup k w.vaults)
