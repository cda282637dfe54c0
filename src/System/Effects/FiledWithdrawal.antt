-- ===== src/System/Effects/FiledWithdrawal.antt =====
-- What a successful `withdrawal_request_create` did to the accounts.
use programs.Prelude.{
  ℕ, ◌+◌, ◌≡◌, ◌⊎◌, inl, inr, arith, sym, subst, ◌∙◌, Option, none, some, true, false, ◌==◌,
  Bool-cases,
}
use programs.Errors.{ok, constraint, validate, bind-elim, then-elim, ok-injective}
use programs.SafeMath.{safe_add}
use programs.Accounts.{lookup, insert}
use programs.Vault.{
  Pubkey, Vault, is_vault_withdrawable, validate_withdrawal_not_paused, validate_deposit_mint,
  validate_share_mint,
}
use programs.Vault.Requests.{request_withdrawal}
use programs.Vault.Requests.Accounting.{request_withdrawal_iff}
use programs.Config.{default_key, is_protocol_withdrawable}
use programs.WithdrawalRequest
use programs.WithdrawalRequest.{WithdrawalRequest}
use programs.Runtime.{Runtime, Ledger, Clock}
use programs.World.{World, load_config, load_vault, withdrawal_request_of}
use programs.Instructions.Withdrawals.{
  WithdrawalRequestCreate, withdrawal_request_create, init_withdrawal_request,
  prepare_withdrawal_request,
}
use programs.System.Effects.{load_vault-lookup, constraint_holds}

-- What the request is, given the one that was there: a new one of the signer and the vault, or the
-- old one with more in it. An old one with no authority counts as none.
abbrev pub WithdrawalFiled :
    Option WithdrawalRequest → (vault authority : Pubkey) → ℕ → WithdrawalRequest → Type 0
WithdrawalFiled none vault authority shares r =
    (r.shares ≡ shares) × (r.vault ≡ vault) × (r.authority ≡ authority)
WithdrawalFiled (some old) vault authority shares r =
    (old.authority ≡ default_key)
    ⊎ ((r.shares ≡ old.shares + shares) × (r.vault ≡ old.vault) × (r.authority ≡ old.authority))

add_moves :
    (r : WithdrawalRequest) (shares epoch : ℕ) {r' : WithdrawalRequest}
    → WithdrawalRequest.add r shares epoch ≡ ok r'
    → (r'.shares ≡ r.shares + shares) × (r'.vault ≡ r.vault) × (r'.authority ≡ r.authority)
unfolding WithdrawalRequest.add safe_add
add_moves r shares epoch h = ground arith

-- A request entered the books: the vault counts it, and it stands under its address.
pub record WithdrawalRequested (w : World) (vault_key authority request_key : Pubkey) (shares : ℕ)
    (w' : World) : Type 0 where
  pub request : WithdrawalRequest
  pub vault : Vault
  pub vault' : Vault
  pub ledger : Ledger
  pub vault_found : lookup vault_key w.vaults ≡ some vault
  pub given : vault'.pending_withdrawal_shares ≡ vault.pending_withdrawal_shares + shares
  pub kept : vault'.pending_deposits ≡ vault.pending_deposits
  pub counted : vault'.open_strategy_count ≡ vault.open_strategy_count
  pub filed :
      WithdrawalFiled (lookup request_key w.withdrawal_requests) vault_key authority shares request
  pub final :
      record w {
        vaults = insert vault_key vault' w.vaults;
        withdrawal_requests = insert request_key request w.withdrawal_requests;
        ledger = ledger;
      }
      ≡ w'

init_blank :
    (rt : Runtime) (payer key : Pubkey) (l : Ledger) {r : WithdrawalRequest} {l₁ : Ledger}
    → init_withdrawal_request rt none payer key l ≡ ok (r, l₁)
    → r.authority ≡ 0
unfolding init_withdrawal_request
init_blank rt payer key l h = ground arith

init_found :
    (rt : Runtime) (payer key : Pubkey) (l : Ledger) {old r : WithdrawalRequest} {l₁ : Ledger}
    → init_withdrawal_request rt (some old) payer key l ≡ ok (r, l₁)
    → r ≡ old
unfolding init_withdrawal_request
init_found rt payer key l h = ground arith

request_withdrawal-moves :
    (v : Vault) (shares balance : ℕ) {w : Vault}
    → request_withdrawal v shares balance ≡ ok w
    → (w.pending_withdrawal_shares ≡ v.pending_withdrawal_shares + shares)
      × (w.pending_deposits ≡ v.pending_deposits)
      × (w.open_strategy_count ≡ v.open_strategy_count)
unfolding request_withdrawal
request_withdrawal-moves v shares balance {w} h =
    ground (arith, (request_withdrawal_iff v w shares balance).0 h)

module _ (rt : Runtime) where
  prepare_fresh :
      (a : WithdrawalRequestCreate) (clock : Clock) (opened : WithdrawalRequest) (l : Ledger)
      {p : WithdrawalRequest × Ledger}
      → (opened.authority == default_key) ≡ true
      → prepare_withdrawal_request rt a clock opened l ≡ ok p
      → (p.0.shares ≡ 0) × (p.0.vault ≡ a.vault) × (p.0.authority ≡ a.withdrawer)
  unfolding prepare_withdrawal_request WithdrawalRequest.new
  prepare_fresh a clock opened l e h = ground arith

  prepare_old :
      (a : WithdrawalRequestCreate) (clock : Clock) (opened : WithdrawalRequest) (l : Ledger)
      {p : WithdrawalRequest × Ledger}
      → (opened.authority == default_key) ≡ false
      → prepare_withdrawal_request rt a clock opened l ≡ ok p
      → p.0 ≡ opened
  unfolding prepare_withdrawal_request
  prepare_old a clock opened l e h = ground arith

  -- The request that is written is the one that the account then holds.
  prepare-WithdrawalFiled :
      (a : WithdrawalRequestCreate) (clock : Clock) (shares epoch : ℕ)
      (o : Option WithdrawalRequest) (l l₁ l₂ : Ledger)
      {opened prepared request : WithdrawalRequest}
      → init_withdrawal_request rt o a.withdrawer a.withdrawal_request l ≡ ok (opened, l₁)
      → prepare_withdrawal_request rt a clock opened l₁ ≡ ok (prepared, l₂)
      → WithdrawalRequest.add prepared shares epoch ≡ ok request
      → WithdrawalFiled o a.vault a.withdrawer shares request
  prepare-WithdrawalFiled a clock shares epoch none l l₁ l₂ {opened} hi hp ha =
      let blank : opened.authority ≡ 0 = init_blank rt a.withdrawer a.withdrawal_request l hi in
      let fresh = prepare_fresh a clock opened l₁ (ground (arith, blank)) hp in
      let sum = add_moves _ shares epoch ha in
      (omega (arith, fresh.0, sum.0), sum.1 ∙ fresh.1, sum.2 ∙ fresh.2)
  prepare-WithdrawalFiled a clock shares epoch (some old) l l₁ l₂ {opened} {prepared} {request} hi
        hp ha =
      elim (Bool-cases (old.authority == default_key)) [
        | inl zero ↦ inl (ground arith)
        | inr live ↦
            let same : opened ≡ old = init_found rt a.withdrawer a.withdrawal_request l hi in
            let kept : prepared ≡ old =
              prepare_old a clock opened l₁
                (subst (λ r. (r.authority == default_key) ≡ false) (sym same) live) hp
              ∙ same in
            inr (
              subst
                (λ r.
                  (request.shares ≡ r.shares + shares)
                  × (request.vault ≡ r.vault)
                  × (request.authority ≡ r.authority))
                kept (add_moves prepared shares epoch ha))
      ]

  pub withdrawal_request_create-WithdrawalRequested :
      (a : WithdrawalRequestCreate) (clock : Clock) (shares : ℕ) (w : World) {w' : World}
      → withdrawal_request_create rt a clock shares w ≡ ok w'
      → WithdrawalRequested w a.vault a.withdrawer a.withdrawal_request shares w'
        × (a.withdrawal_request ≡ (withdrawal_request_of rt a.vault a.withdrawer).0)
  unfolding withdrawal_request_create
  withdrawal_request_create-WithdrawalRequested a clock shares w h =
      then-elim (constraint _) _ h λ ec h₁.
        bind-elim (init_withdrawal_request _ _ _ _ _) _ h₁ λ opened ei h₂.
          then-elim (constraint _) _ h₂ λ _ h₃. then-elim (constraint _) _ h₃ λ _ h₄.
            then-elim (validate _ _) _ h₄ λ _ h₅. bind-elim (load_config _ _ _) _ h₅ λ config _ h₆.
              then-elim (is_protocol_withdrawable _) _ h₆ λ _ h₇.
                bind-elim (load_vault _ _ _) _ h₇ λ vault ev h₈.
                  then-elim (is_vault_withdrawable _) _ h₈ λ _ h₉.
                    then-elim (validate_withdrawal_not_paused _) _ h₉ λ _ h₁₀.
                      then-elim (validate_deposit_mint _ _) _ h₁₀ λ _ h₁₁.
                        then-elim (validate_share_mint _ _) _ h₁₁ λ _ h₁₂.
                          bind-elim (prepare_withdrawal_request _ _ _ _ _) _ h₁₂ λ prepared ep h₁₃.
                            bind-elim (WithdrawalRequest.add _ _ _) _ h₁₃ λ request ea h₁₄.
                              bind-elim (request_withdrawal _ _ _) _ h₁₄ λ v' ev' h₁₅.
                                bind-elim (rt.transfer_checked _ _ _ _ _ _ _ _) _ h₁₅ λ _ _ h₁₆.
                                  let moved = request_withdrawal-moves vault shares _ ev' in
                                  (
                                    record {
                                      request = request;
                                      vault = vault;
                                      vault' = v';
                                      ledger = _;
                                      vault_found = load_vault-lookup rt w a.vault ev;
                                      given = moved.0;
                                      kept = moved.1;
                                      counted = moved.2;
                                      filed =
                                          prepare-WithdrawalFiled a clock shares _ _ _ _ _ ei ep ea;
                                      final = ok-injective h₁₆;
                                    },
                                    constraint_holds ec,
                                  )
