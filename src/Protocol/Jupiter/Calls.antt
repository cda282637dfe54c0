-- ===== src/Protocol/Jupiter/Calls.antt =====
-- `JupiterSwapCpi::swap` of protocol/jupiter.rs: the accounts of each route instruction, and its call.
use programs.Prelude.{ℕ, true, false, List, [], ◌∷◌, map, ◌==◌, if◌then◌else◌}
use programs.Errors.{
  Result, ok, err, custom, panicked, ◌>>=◌, ◌>>◌, validate, invalid_remaining_accounts,
  invalid_program_id, invalid_token_account_owner,
}
use programs.Vault.{Pubkey}
use programs.Seeds.{Seed}
use programs.Runtime.{Runtime, Ledger, AccountMeta, new, new_readonly}
use programs.Protocol.Jupiter.{
  SwapVariant, from_swap_data, route, route_with_token_ledger, exact_out_route,
  shared_accounts_route, shared_accounts_exact_out_route,
}

pub record JupiterSwapCpi : Type 0 where
  pub source_token_program : Pubkey
  pub destination_token_program : Pubkey
  pub token_account_authority : Pubkey
  pub source_token_account : Pubkey
  pub destination_token_account : Pubkey
  pub source_mint : Pubkey
  pub destination_mint : Pubkey
  pub event_authority : Pubkey
  pub jupiter_program : Pubkey

-- The account infos and the account metas of a call.
abbrev pub Accounts : Type 0
Accounts = List Pubkey × List AccountMeta

-- An account after the named ones, as it was passed to this program.
abbrev keys : List AccountMeta → List Pubkey
keys accounts = map (λ a. a.pubkey) accounts

unfoldable pub exact_out_route_accounts :
    JupiterSwapCpi → (token_program token_2022_program : Pubkey) → List AccountMeta → Accounts
exact_out_route_accounts self token_program token_2022_program remaining = (
  (self.source_token_program
      ∷ self.destination_token_program
      ∷ self.token_account_authority
      ∷ self.source_token_account
      ∷ self.destination_token_account
      ∷ self.source_mint
      ∷ self.destination_mint
      ∷ self.event_authority
      ∷ self.jupiter_program
      ∷ keys remaining),
  (new_readonly token_program false
      ∷ new_readonly self.token_account_authority true
      ∷ new self.source_token_account false
      ∷ new self.destination_token_account false
      ∷ new_readonly self.jupiter_program false
      ∷ new_readonly self.source_mint false
      ∷ new_readonly self.destination_mint false
      ∷ new_readonly self.jupiter_program false
      ∷ new_readonly token_2022_program false
      ∷ new_readonly self.event_authority false
      ∷ new_readonly self.jupiter_program false
      ∷ remaining),
)

unfoldable pub route_accounts :
    JupiterSwapCpi → (token_program : Pubkey) → List AccountMeta → Accounts
route_accounts self token_program remaining = (
  (self.source_token_program
      ∷ self.destination_token_program
      ∷ self.token_account_authority
      ∷ self.source_token_account
      ∷ self.destination_token_account
      ∷ self.destination_mint
      ∷ self.event_authority
      ∷ self.jupiter_program
      ∷ keys remaining),
  (new_readonly token_program false
      ∷ new_readonly self.token_account_authority true
      ∷ new self.source_token_account false
      ∷ new self.destination_token_account false
      ∷ new_readonly self.jupiter_program false
      ∷ new_readonly self.destination_mint false
      ∷ new_readonly self.jupiter_program false
      ∷ new_readonly self.event_authority false
      ∷ new_readonly self.jupiter_program false
      ∷ remaining),
)

-- The first remaining account is the token ledger, which Jupiter owns and which names the source.
unfoldable pub token_ledger_route_accounts :
    Runtime
    → Ledger
    → JupiterSwapCpi
    → (token_program : Pubkey) → List AccountMeta
    → Result Accounts
token_ledger_route_accounts rt l self token_program [] = err (custom invalid_remaining_accounts)
token_ledger_route_accounts rt l self token_program (token_ledger ∷ remaining) = do
  validate (l.owner token_ledger.pubkey == self.jupiter_program) invalid_program_id
  token_account ← rt.token_ledger_account (l.account_data token_ledger.pubkey)
  validate (token_account == self.source_token_account) invalid_token_account_owner
  ok (
    (self.source_token_program
        ∷ self.destination_token_program
        ∷ self.token_account_authority
        ∷ self.source_token_account
        ∷ self.destination_token_account
        ∷ self.destination_mint
        ∷ token_ledger.pubkey
        ∷ self.event_authority
        ∷ self.jupiter_program
        ∷ keys remaining),
    (new_readonly token_program false
        ∷ new_readonly self.token_account_authority true
        ∷ new self.source_token_account false
        ∷ new self.destination_token_account false
        ∷ new_readonly self.jupiter_program false
        ∷ new_readonly self.destination_mint false
        ∷ new_readonly self.jupiter_program false
        ∷ new_readonly token_ledger.pubkey false
        ∷ new_readonly self.event_authority false
        ∷ new_readonly self.jupiter_program false
        ∷ remaining),
  )

-- The first three remaining accounts are the program's; a missing one is a panic.
unfoldable pub shared_route_accounts :
    JupiterSwapCpi
    → (token_program token_2022_program : Pubkey) → List AccountMeta
    → Result Accounts
shared_route_accounts self token_program token_2022_program (authority ∷ from ∷ to ∷ remaining) =
    ok (
      (self.source_token_program
          ∷ self.destination_token_program
          ∷ authority.pubkey
          ∷ self.token_account_authority
          ∷ self.source_token_account
          ∷ from.pubkey
          ∷ to.pubkey
          ∷ self.destination_token_account
          ∷ self.source_mint
          ∷ self.destination_mint
          ∷ self.event_authority
          ∷ self.jupiter_program
          ∷ keys (authority ∷ from ∷ to ∷ remaining)),
      (new_readonly token_program false
          ∷ new_readonly authority.pubkey false
          ∷ new_readonly self.token_account_authority true
          ∷ new self.source_token_account false
          ∷ new from.pubkey false
          ∷ new to.pubkey false
          ∷ new self.destination_token_account false
          ∷ new_readonly self.source_mint false
          ∷ new_readonly self.destination_mint false
          ∷ new_readonly self.jupiter_program false
          ∷ new_readonly token_2022_program false
          ∷ new_readonly self.event_authority false
          ∷ new_readonly self.jupiter_program false
          ∷ remaining),
    )
shared_route_accounts self token_program token_2022_program _ = err panicked

module _ (rt : Runtime) where
  -- The optional slot for Token-2022: the program of a leg that uses it, or else Jupiter's own id.
  unfoldable pub token_2022_slot : JupiterSwapCpi → Pubkey
  token_2022_slot self =
      if self.source_token_program == rt.token_2022_id
      then self.source_token_program
      else if self.destination_token_program == rt.token_2022_id
      then self.destination_token_program
      else self.jupiter_program

  unfoldable pub swap_accounts :
      SwapVariant → Ledger → JupiterSwapCpi → List AccountMeta → Result Accounts
  swap_accounts exact_out_route l self remaining =
      ok (exact_out_route_accounts self rt.token_id (token_2022_slot self) remaining)
  swap_accounts route l self remaining = ok (route_accounts self rt.token_id remaining)
  swap_accounts route_with_token_ledger l self remaining =
      token_ledger_route_accounts rt l self rt.token_id remaining
  swap_accounts shared_accounts_exact_out_route l self remaining =
      shared_route_accounts self rt.token_id (token_2022_slot self) remaining
  swap_accounts shared_accounts_route l self remaining =
      shared_route_accounts self rt.token_id (token_2022_slot self) remaining

  unfoldable pub swap :
      JupiterSwapCpi → List ℕ → List AccountMeta → List Seed → Ledger → Result Ledger
  swap self swap_data remaining_accounts signer_seeds l = do
    variant ← from_swap_data swap_data
    (account_infos, accounts) ← swap_accounts variant l self remaining_accounts
    rt.invoke_signed
        (record {
          program_id = self.jupiter_program;
          accounts = accounts;
          instruction_data = swap_data;
        })
        account_infos signer_seeds l
