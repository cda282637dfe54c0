-- ===== src/Instructions/Strategies/Jupiter.antt =====
-- instructions/jupiter_initialize_strategy.rs and jupiter_swap.rs.
use programs.Prelude.{ℕ, not, ◌&&◌, List, leb, ◌==◌, if◌then◌else◌}
use programs.Errors.{
  Result, ok, ◌>>=◌, ◌>>◌, validate, constraint, invalid_swap_mints, invalid_strategy_mint,
  invalid_target_mint, swap_output_below_minimum,
}
use programs.SafeMath.{safe_sub}
use programs.Vault.{Pubkey, Vault, validate_deposit_mint}
use programs.Config.{slippage_cap}
use programs.Strategy
use programs.Strategy.{Strategy, record_action}
use programs.Seeds.{vault_seeds}
use programs.Runtime.{Runtime, Ledger, Clock, AccountMeta}
use programs.World.{World, load, init_token_account}
use programs.Protocol.Jupiter.{
  SwapMode, exact_in, exact_out, RouteArgs, jupiter_id, jupiter_aggregator_event_authority,
  from_swap_data, mode, check_amount_and_slippage, min_amount_out, max_amount_in,
}
use programs.Protocol.Jupiter.Calls.{JupiterSwapCpi, swap}
use programs.Instructions.Strategies.{
  target_mint_of, load_operational, init_strategy, open_strategy, validate_strategy, set_strategy,
}

pub record JupiterInitializeStrategy : Type 0 where
  pub authority : Pubkey
  pub config : Pubkey
  pub vault : Pubkey
  pub strategy : Pubkey
  pub destination_mint : Pubkey

pub record JupiterSwap : Type 0 where
  pub authority : Pubkey
  pub config : Pubkey
  pub vault : Pubkey
  pub strategy : Pubkey
  pub source_mint : Pubkey
  pub destination_mint : Pubkey
  pub vault_source_token_account : Pubkey
  pub vault_destination_token_account : Pubkey
  pub source_token_program : Pubkey
  pub destination_token_program : Pubkey
  pub event_authority : Pubkey
  pub jupiter_program : Pubkey

-- One leg is the deposit mint; the other is the target.
unfoldable pub swap_target : Vault → (source_mint destination_mint : Pubkey) → Result Pubkey
swap_target vault source_mint destination_mint =
    if source_mint == vault.deposit_mint
    then ok destination_mint
    else (do validate_deposit_mint vault destination_mint; ok source_mint)

-- What the vault requires of the balances after the route ran.
unfoldable pub check_swap :
    SwapMode
    → RouteArgs
    → (max_slippage_bps destination_received source_spent : ℕ) → Result (Unit {0})
check_swap exact_in args max_slippage_bps destination_received source_spent = do
  minimum ← min_amount_out args.quoted_amount max_slippage_bps
  validate (leb minimum destination_received) swap_output_below_minimum
check_swap exact_out args max_slippage_bps destination_received source_spent = do
  validate (leb args.amount destination_received) swap_output_below_minimum
  maximum ← max_amount_in args.quoted_amount max_slippage_bps
  validate (leb source_spent maximum) swap_output_below_minimum

-- The accounts that the swap passes on.
abbrev pub swap_cpi : JupiterSwap → JupiterSwapCpi
swap_cpi a = record {
  source_token_program = a.source_token_program;
  destination_token_program = a.destination_token_program;
  token_account_authority = a.vault;
  source_token_account = a.vault_source_token_account;
  destination_token_account = a.vault_destination_token_account;
  source_mint = a.source_mint;
  destination_mint = a.destination_mint;
  event_authority = a.event_authority;
  jupiter_program = a.jupiter_program;
}

module _ (rt : Runtime) where
  unfoldable pub jupiter_initialize_strategy :
      JupiterInitializeStrategy → Clock → World → Result World
  jupiter_initialize_strategy a clock w = do
    l ←
        init_strategy rt w a.authority a.vault a.destination_mint a.strategy
          (Strategy.jupiter_swap a.destination_mint)
    (config, vault) ← load_operational rt w a.config a.vault a.authority
    validate
        (not (a.destination_mint == vault.deposit_mint)
          && not (a.destination_mint == vault.share_mint))
        invalid_strategy_mint
    open_strategy rt a.vault a.destination_mint a.strategy vault
        (Strategy.jupiter_swap a.destination_mint) clock.unix_timestamp l w

  -- The attributes of the swap's accounts. The destination account is created if needed.
  unfoldable pub init_swap_accounts : JupiterSwap → Ledger → Result Ledger
  init_swap_accounts a l = do
    constraint (
        a.vault_source_token_account
        == rt.associated_token_address a.vault a.source_mint a.source_token_program)
    constraint (
        a.vault_destination_token_account
        == rt.associated_token_address a.vault a.destination_mint a.destination_token_program)
    l' ←
        init_token_account rt a.authority a.vault_destination_token_account a.vault
          a.destination_mint a.destination_token_program l
    constraint (a.event_authority == jupiter_aggregator_event_authority)
    constraint (a.jupiter_program == jupiter_id)
    ok l'

  -- The call, between the two readings of the balances.
  unfoldable pub run_swap :
      JupiterSwap
      → Vault
      → List ℕ
      → List AccountMeta
      → (amount slippage_bps max_slippage_bps : ℕ) → Ledger
      → Result Ledger
  run_swap a vault swap_data remaining amount slippage_bps max_slippage_bps l = do
    variant ← from_swap_data swap_data
    args ← check_amount_and_slippage swap_data amount slippage_bps max_slippage_bps
    l' ← swap rt (swap_cpi a) swap_data remaining (vault_seeds vault.id vault.bump) l
    destination_received ←
        safe_sub (l'.amount a.vault_destination_token_account)
          (l.amount a.vault_destination_token_account)
    source_spent ←
        safe_sub (l.amount a.vault_source_token_account) (l'.amount a.vault_source_token_account)
    check_swap (mode variant) args max_slippage_bps destination_received source_spent
    ok l'

  unfoldable pub jupiter_swap :
      JupiterSwap
      → Clock
      → List ℕ
      → List AccountMeta
      → (amount slippage_bps : ℕ) → World
      → Result World
  jupiter_swap a clock swap_data remaining amount slippage_bps w = do
    strategy ← load w.strategies a.strategy
    l ← init_swap_accounts a w.ledger
    (config, vault) ← load_operational rt w a.config a.vault a.authority
    validate (not (a.source_mint == a.destination_mint)) invalid_swap_mints
    validate (not (a.destination_mint == vault.share_mint)) invalid_strategy_mint
    target_mint ← swap_target vault a.source_mint a.destination_mint
    validate_strategy rt strategy a.vault target_mint a.strategy
    strategy_target_mint ← target_mint_of strategy.strategy_type
    validate (strategy_target_mint == target_mint) invalid_target_mint
    l' ← run_swap a vault swap_data remaining amount slippage_bps (slippage_cap config) l
    ok (record (set_strategy w a.strategy (record_action strategy clock.unix_timestamp)) {
      ledger = l';
    })
