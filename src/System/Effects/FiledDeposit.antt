-- ===== src/System/Effects/FiledDeposit.antt =====
-- What a successful `deposit_request_create` did to the accounts.
use programs.Prelude.{
  ℕ, ◌+◌, ◌≡◌, ◌⊎◌, inl, inr, arith, sym, subst, ◌∙◌, Option, none, some, true, false, ◌==◌,
  Bool-cases,
}
use programs.Errors.{ok, constraint, validate, bind-elim, then-elim, ok-injective}
use programs.SafeMath.{safe_add}
use programs.Accounts.{lookup, insert}
use programs.Vault.{
  Pubkey, Vault, is_vault_operational, validate_deposit_not_paused, validate_deposit_mint,
  validate_share_mint,
}
use programs.Vault.Requests.{request_deposit}
use programs.Vault.Requests.Accounting.{request_deposit_iff}
use programs.Config.{default_key, is_protocol_operational}
use programs.DepositRequest
use programs.DepositRequest.{DepositRequest}
use programs.Runtime.{Runtime, Ledger, Clock}
use programs.Payout.{validate_deposit_mint_extensions}
use programs.World.{World, load_config, load_vault, deposit_request_of}
use programs.Instructions.Deposits.{
  DepositRequestCreate, deposit_request_create, init_deposit_request, prepare_deposit_request,
}
use programs.System.Effects.{load_vault-lookup, constraint_holds}

-- What the request is, given the one that was there: a new one of the signer and the vault, or the
-- old one with more in it. An old one with no authority counts as none.
abbrev pub DepositFiled :
    Option DepositRequest → (vault authority : Pubkey) → ℕ → DepositRequest → Type 0
DepositFiled none vault authority amount r =
    (r.amount ≡ amount) × (r.vault ≡ vault) × (r.authority ≡ authority)
DepositFiled (some old) vault authority amount r =
    (old.authority ≡ default_key)
    ⊎ ((r.amount ≡ old.amount + amount) × (r.vault ≡ old.vault) × (r.authority ≡ old.authority))

add_moves :
    (r : DepositRequest) (amount epoch : ℕ) {r' : DepositRequest}
    → DepositRequest.add r amount epoch ≡ ok r'
    → (r'.amount ≡ r.amount + amount) × (r'.vault ≡ r.vault) × (r'.authority ≡ r.authority)
unfolding DepositRequest.add safe_add
add_moves r amount epoch h = ground arith

-- A request entered the books: the vault counts it, and it stands under its address.
pub record DepositRequested (w : World) (vault_key authority request_key : Pubkey) (amount : ℕ)
    (w' : World) : Type 0 where
  pub request : DepositRequest
  pub vault : Vault
  pub vault' : Vault
  pub ledger : Ledger
  pub vault_found : lookup vault_key w.vaults ≡ some vault
  pub given : vault'.pending_deposits ≡ vault.pending_deposits + amount
  pub kept : vault'.pending_withdrawal_shares ≡ vault.pending_withdrawal_shares
  pub counted : vault'.open_strategy_count ≡ vault.open_strategy_count
  pub filed :
      DepositFiled (lookup request_key w.deposit_requests) vault_key authority amount request
  pub final :
      record w {
        vaults = insert vault_key vault' w.vaults;
        deposit_requests = insert request_key request w.deposit_requests;
        ledger = ledger;
      }
      ≡ w'

init_blank :
    (rt : Runtime) (payer key : Pubkey) (l : Ledger) {r : DepositRequest} {l₁ : Ledger}
    → init_deposit_request rt none payer key l ≡ ok (r, l₁)
    → r.authority ≡ 0
unfolding init_deposit_request
init_blank rt payer key l h = ground arith

init_found :
    (rt : Runtime) (payer key : Pubkey) (l : Ledger) {old r : DepositRequest} {l₁ : Ledger}
    → init_deposit_request rt (some old) payer key l ≡ ok (r, l₁)
    → r ≡ old
unfolding init_deposit_request
init_found rt payer key l h = ground arith

request_deposit-moves :
    (v : Vault) (amount : ℕ) {w : Vault}
    → request_deposit v amount ≡ ok w
    → (w.pending_deposits ≡ v.pending_deposits + amount)
      × (w.pending_withdrawal_shares ≡ v.pending_withdrawal_shares)
      × (w.open_strategy_count ≡ v.open_strategy_count)
unfolding request_deposit
request_deposit-moves v amount {w} h = ground (arith, (request_deposit_iff v w amount).0 h)

module _ (rt : Runtime) where
  prepare_fresh :
      (a : DepositRequestCreate) (clock : Clock) (opened : DepositRequest) (l : Ledger)
      {p : DepositRequest × Ledger}
      → (opened.authority == default_key) ≡ true
      → prepare_deposit_request rt a clock opened l ≡ ok p
      → (p.0.amount ≡ 0) × (p.0.vault ≡ a.vault) × (p.0.authority ≡ a.depositor)
  unfolding prepare_deposit_request DepositRequest.new
  prepare_fresh a clock opened l e h = ground arith

  prepare_old :
      (a : DepositRequestCreate) (clock : Clock) (opened : DepositRequest) (l : Ledger)
      {p : DepositRequest × Ledger}
      → (opened.authority == default_key) ≡ false
      → prepare_deposit_request rt a clock opened l ≡ ok p
      → p.0 ≡ opened
  unfolding prepare_deposit_request
  prepare_old a clock opened l e h = ground arith

  -- The request that is written is the one that the account then holds.
  prepare-DepositFiled :
      (a : DepositRequestCreate) (clock : Clock) (amount epoch : ℕ) (o : Option DepositRequest)
      (l l₁ l₂ : Ledger) {opened prepared request : DepositRequest}
      → init_deposit_request rt o a.depositor a.deposit_request l ≡ ok (opened, l₁)
      → prepare_deposit_request rt a clock opened l₁ ≡ ok (prepared, l₂)
      → DepositRequest.add prepared amount epoch ≡ ok request
      → DepositFiled o a.vault a.depositor amount request
  prepare-DepositFiled a clock amount epoch none l l₁ l₂ {opened} hi hp ha =
      let blank : opened.authority ≡ 0 = init_blank rt a.depositor a.deposit_request l hi in
      let fresh = prepare_fresh a clock opened l₁ (ground (arith, blank)) hp in
      let sum = add_moves _ amount epoch ha in
      (omega (arith, fresh.0, sum.0), sum.1 ∙ fresh.1, sum.2 ∙ fresh.2)
  prepare-DepositFiled a clock amount epoch (some old) l l₁ l₂ {opened} {prepared} {request} hi hp
        ha =
      elim (Bool-cases (old.authority == default_key)) [
        | inl zero ↦ inl (ground arith)
        | inr live ↦
            let same : opened ≡ old = init_found rt a.depositor a.deposit_request l hi in
            let kept : prepared ≡ old =
              prepare_old a clock opened l₁
                (subst (λ r. (r.authority == default_key) ≡ false) (sym same) live) hp
              ∙ same in
            inr (
              subst
                (λ r.
                  (request.amount ≡ r.amount + amount)
                  × (request.vault ≡ r.vault)
                  × (request.authority ≡ r.authority))
                kept (add_moves prepared amount epoch ha))
      ]

  pub deposit_request_create-DepositRequested :
      (a : DepositRequestCreate) (clock : Clock) (amount : ℕ) (w : World) {w' : World}
      → deposit_request_create rt a clock amount w ≡ ok w'
      → DepositRequested w a.vault a.depositor a.deposit_request amount w'
        × (a.deposit_request ≡ (deposit_request_of rt a.vault a.depositor).0)
  unfolding deposit_request_create
  deposit_request_create-DepositRequested a clock amount w h = then-elim (constraint _) _ h λ ec h₁.
      bind-elim (init_deposit_request _ _ _ _ _) _ h₁ λ opened ei h₂.
        then-elim (constraint _) _ h₂ λ _ h₃. then-elim (constraint _) _ h₃ λ _ h₄.
          then-elim (validate _ _) _ h₄ λ _ h₅. bind-elim (load_config _ _ _) _ h₅ λ config _ h₆.
            then-elim (is_protocol_operational _) _ h₆ λ _ h₇.
              bind-elim (load_vault _ _ _) _ h₇ λ vault ev h₈.
                then-elim (is_vault_operational _) _ h₈ λ _ h₉.
                  then-elim (validate_deposit_not_paused _) _ h₉ λ _ h₁₀.
                    then-elim (validate_deposit_mint _ _) _ h₁₀ λ _ h₁₁.
                      then-elim (validate_share_mint _ _) _ h₁₁ λ _ h₁₂.
                        then-elim (validate_deposit_mint_extensions _ _ _ _) _ h₁₂ λ _ h₁₃.
                          bind-elim (prepare_deposit_request _ _ _ _ _) _ h₁₃ λ prepared ep h₁₄.
                            bind-elim (DepositRequest.add _ _ _) _ h₁₄ λ request ea h₁₅.
                              bind-elim (request_deposit _ _) _ h₁₅ λ v' ev' h₁₆.
                                bind-elim (rt.transfer_checked _ _ _ _ _ _ _ _) _ h₁₆ λ _ _ h₁₇.
                                  let moved = request_deposit-moves vault amount ev' in
                                  (
                                    record {
                                      request = request;
                                      vault = vault;
                                      vault' = v';
                                      ledger = _;
                                      vault_found = load_vault-lookup rt w a.vault ev;
                                      given = moved.0;
                                      kept = moved.1;
                                      counted = moved.2;
                                      filed =
                                          prepare-DepositFiled a clock amount _ _ _ _ _ ei ep ea;
                                      final = ok-injective h₁₇;
                                    },
                                    constraint_holds ec,
                                  )
