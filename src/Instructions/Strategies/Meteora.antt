-- ===== src/Instructions/Strategies/Meteora.antt =====
-- instructions/meteora_dlmm_*.rs: the instructions on a liquidity position. Bins has their arithmetic.
pub mod Bins
pub mod Laws
use programs.Prelude.{ℕ, false, Option, none, some, List, ltb, ◌==◌, if◌then◌else◌}
use programs.Prelude.Int.{ℤ}
use programs.Errors.{Result, ok, ◌>>=◌, ◌>>◌, validate, constraint, invalid_position}
use programs.Constants.{max_bps, treasury_claim_fee_bps}
use programs.SafeMath.{safe_sub, safe_mul, safe_div, safe_to_u64}
use programs.Vault.{Pubkey, Vault, validate_authority, is_vault_operational, is_vault_withdrawable}
use programs.Config.{Config, is_protocol_operational, validate_treasury_authority}
use programs.Strategy
use programs.Strategy.{
  Strategy, StrategyType, jupiter_swap, meteora_dlmm, phoenix_perp, record_action,
}
use programs.Seeds.{Seed, vault_seeds}
use programs.Runtime.{Runtime, Ledger, Clock, AccountMeta}
use programs.World.{World, load, load_config, load_vault, init_token_account}
use programs.Protocol.Dlmm.{Dlmm, dlmm_id, PositionV2, LiquidityAccounts, PositionAccounts}
use programs.Instructions.Strategies.Meteora.Bins.{
  checked_bin_range, initial_width, validate_extension, upper_side,
}
use programs.Instructions.Strategies.{
  position_of, load_operational, strategy_of, init_strategy, open_strategy, validate_strategy,
  set_strategy,
}

pub record MeteoraDlmmInitializePosition : Type 0 where
  pub authority : Pubkey
  pub config : Pubkey
  pub vault : Pubkey
  pub strategy : Pubkey
  pub position : Pubkey
  pub lb_pair : Pubkey
  pub event_authority : Pubkey
  pub system_program : Pubkey
  pub dlmm_program : Pubkey

pub record MeteoraDlmmExtendPosition : Type 0 where
  pub authority : Pubkey
  pub config : Pubkey
  pub vault : Pubkey
  pub strategy : Pubkey
  pub position : Pubkey
  pub lb_pair : Pubkey
  pub event_authority : Pubkey
  pub system_program : Pubkey
  pub dlmm_program : Pubkey

-- The accounts that adding and removing liquidity and claiming fees have in common.
pub record MeteoraDlmmLiquidity : Type 0 where
  pub authority : Pubkey
  pub config : Pubkey
  pub vault : Pubkey
  pub strategy : Pubkey
  pub vault_token_x : Pubkey
  pub vault_token_y : Pubkey
  pub position : Pubkey
  pub lb_pair : Pubkey
  pub bin_array_bitmap_extension : Option Pubkey
  pub reserve_x : Pubkey
  pub reserve_y : Pubkey
  pub token_x_mint : Pubkey
  pub token_y_mint : Pubkey
  pub token_x_program : Pubkey
  pub token_y_program : Pubkey
  pub memo_program : Option Pubkey
  pub event_authority : Pubkey
  pub dlmm_program : Pubkey

-- A claim names the treasury and its accounts too.
pub record Treasury : Type 0 where
  pub authority : Pubkey
  pub token_x : Pubkey
  pub token_y : Pubkey

abbrev liquidity_accounts : MeteoraDlmmLiquidity → LiquidityAccounts
liquidity_accounts a = record {
  position = a.position;
  lb_pair = a.lb_pair;
  bin_array_bitmap_extension = a.bin_array_bitmap_extension;
  user_token_x = a.vault_token_x;
  user_token_y = a.vault_token_y;
  reserve_x = a.reserve_x;
  reserve_y = a.reserve_y;
  token_x_mint = a.token_x_mint;
  token_y_mint = a.token_y_mint;
  sender = a.vault;
  token_x_program = a.token_x_program;
  token_y_program = a.token_y_program;
  memo_program = a.memo_program;
  event_authority = a.event_authority;
}

-- `matches!` on a position and the strategy's.
unfoldable pub is_position : StrategyType → Pubkey → Result (Unit {0})
is_position (meteora_dlmm position) key = validate (position == key) invalid_position
is_position (jupiter_swap target_mint) key = validate false invalid_position
is_position (phoenix_perp trader_account) key = validate false invalid_position

-- `transfer_treasury_fee`: what it sends.
unfoldable pub treasury_fee : ℕ → Result ℕ
treasury_fee claimed_amount = do
  a ← safe_mul 128 claimed_amount treasury_claim_fee_bps
  b ← safe_div a max_bps
  safe_to_u64 b

module _ (rt : Runtime) (dlmm : Dlmm) where
  unfoldable pub meteora_dlmm_initialize_position :
      MeteoraDlmmInitializePosition → Clock → (lower_bin_id upper_bin_id : ℤ) → World → Result World
  meteora_dlmm_initialize_position a clock lower_bin_id upper_bin_id w = do
    l ←
        init_strategy rt w a.authority a.vault a.position a.strategy
          (Strategy.meteora_dlmm a.position)
    constraint (a.dlmm_program == dlmm_id)
    (config, vault) ← load_operational rt w a.config a.vault a.authority
    width ← initial_width lower_bin_id upper_bin_id
    l' ←
        dlmm.initialize_position2
          (record {
            payer = a.authority;
            position = a.position;
            lb_pair = a.lb_pair;
            owner = a.vault;
            system_program = a.system_program;
            event_authority = a.event_authority;
          })
          (vault_seeds vault.id vault.bump) lower_bin_id width l
    open_strategy rt a.vault a.position a.strategy vault (Strategy.meteora_dlmm a.position)
        clock.unix_timestamp l' w

  -- The seeds attribute of the strategy stands beside the check in the handler.
  unfoldable pub meteora_dlmm_extend_position :
      MeteoraDlmmExtendPosition → (bins_to_add : ℕ) → World → Result World
  meteora_dlmm_extend_position a bins_to_add w = do
    strategy ← load w.strategies a.strategy
    position ← dlmm.load_position w.ledger a.position
    constraint (a.dlmm_program == dlmm_id)
    (config, vault) ← load_operational rt w a.config a.vault a.authority
    validate_strategy rt strategy a.vault a.position a.strategy
    is_position strategy.strategy_type a.position
    validate (position.owner == a.vault) invalid_position
    validate (position.lb_pair == a.lb_pair) invalid_position
    validate_extension position.lower_bin_id position.upper_bin_id bins_to_add
    l ←
        dlmm.increase_position_length
          (record {
            payer = a.authority;
            position = a.position;
            lb_pair = a.lb_pair;
            owner = a.vault;
            system_program = a.system_program;
            event_authority = a.event_authority;
          })
          (vault_seeds vault.id vault.bump) bins_to_add upper_side w.ledger
    ok (record w { ledger = l })

  -- The strategy of the position.
  unfoldable pub check_position : MeteoraDlmmLiquidity → Strategy → Result (Unit {0})
  check_position a strategy = do
    validate_strategy rt strategy a.vault a.position a.strategy
    strategy_position ← position_of strategy.strategy_type
    validate (strategy_position == a.position) invalid_position

  -- The `associated_token` attributes of the vault's two accounts.
  unfoldable pub check_token_accounts : MeteoraDlmmLiquidity → Result (Unit {0})
  check_token_accounts a = do
    constraint
        (a.vault_token_x == rt.associated_token_address a.vault a.token_x_mint a.token_x_program)
    constraint
        (a.vault_token_y == rt.associated_token_address a.vault a.token_y_mint a.token_y_program)
    constraint (a.dlmm_program == dlmm_id)

  unfoldable pub meteora_dlmm_add_liquidity :
      MeteoraDlmmLiquidity
      → Clock
      → List AccountMeta
      → (liquidity_parameter remaining_accounts_info : List ℕ) → World
      → Result World
  meteora_dlmm_add_liquidity a clock remaining liquidity_parameter remaining_accounts_info w = do
    strategy ← load w.strategies a.strategy
    check_token_accounts a
    (config, vault) ← load_operational rt w a.config a.vault a.authority
    check_position a strategy
    l ←
        dlmm.add_liquidity_by_strategy2 (liquidity_accounts a) (vault_seeds vault.id vault.bump)
          remaining liquidity_parameter remaining_accounts_info w.ledger
    amount_x_spent ← safe_sub (w.ledger.amount a.vault_token_x) (l.amount a.vault_token_x)
    amount_y_spent ← safe_sub (w.ledger.amount a.vault_token_y) (l.amount a.vault_token_y)
    ok (record (set_strategy w a.strategy (record_action strategy clock.unix_timestamp)) {
      ledger = l;
    })

  unfoldable pub meteora_dlmm_remove_liquidity :
      MeteoraDlmmLiquidity
      → Clock
      → List AccountMeta
      → (bps_to_remove : ℕ) → (remaining_accounts_info : List ℕ) (requested_range : Option (ℤ × ℤ))
      → World
      → Result World
  meteora_dlmm_remove_liquidity a clock remaining bps_to_remove remaining_accounts_info
        requested_range w =
      do
        strategy ← load w.strategies a.strategy
        check_token_accounts a
        l₁ ←
            init_token_account rt a.authority a.vault_token_x a.vault a.token_x_mint
              a.token_x_program w.ledger
        l₂ ←
            init_token_account rt a.authority a.vault_token_y a.vault a.token_y_mint
              a.token_y_program l₁
        position ← dlmm.load_position l₂ a.position
        config ← load_config rt w a.config
        is_protocol_operational config
        vault ← load_vault rt w a.vault
        validate_authority vault a.authority
        is_vault_withdrawable vault
        check_position a strategy
        (lower_bin_id, upper_bin_id) ←
            checked_bin_range position.lower_bin_id position.upper_bin_id requested_range
        l₃ ←
            dlmm.remove_liquidity_by_range2 (liquidity_accounts a) (vault_seeds vault.id vault.bump)
              remaining lower_bin_id upper_bin_id bps_to_remove remaining_accounts_info l₂
        amount_x_received ← safe_sub (l₃.amount a.vault_token_x) (l₂.amount a.vault_token_x)
        amount_y_received ← safe_sub (l₃.amount a.vault_token_y) (l₂.amount a.vault_token_y)
        ok (record (set_strategy w a.strategy (record_action strategy clock.unix_timestamp)) {
          ledger = l₃;
        })

  -- `transfer_treasury_fee`, of one token from the vault's account to the treasury's.
  unfoldable pub transfer_treasury_fee :
      ℕ → (from to mint token_program vault : Pubkey) → Ledger → Result (ℕ × Ledger)
  transfer_treasury_fee claimed_amount from to mint token_program vault l = do
    amount ← treasury_fee claimed_amount
    l' ←
        (if ltb 0 amount
          then rt.transfer_checked token_program vault from mint to amount (l.decimals mint) l
          else ok l)
    ok (amount, l')

  -- The claim, the amounts by the change of the balances, and the treasury's part of each.
  unfoldable pub run_claim :
      MeteoraDlmmLiquidity
      → Treasury
      → List AccountMeta
      → List Seed
      → (lower upper : ℤ) → List ℕ
      → Ledger
      → Result Ledger
  run_claim a treasury remaining seeds lower upper remaining_accounts_info l = do
    l₁ ←
        dlmm.claim_fee2 (liquidity_accounts a) seeds remaining lower upper remaining_accounts_info l
    amount_x ← safe_sub (l₁.amount a.vault_token_x) (l.amount a.vault_token_x)
    amount_y ← safe_sub (l₁.amount a.vault_token_y) (l.amount a.vault_token_y)
    (treasury_amount_x, l₂) ←
        transfer_treasury_fee amount_x a.vault_token_x treasury.token_x a.token_x_mint
          a.token_x_program a.vault l₁
    (treasury_amount_y, l₃) ←
        transfer_treasury_fee amount_y a.vault_token_y treasury.token_y a.token_y_mint
          a.token_y_program a.vault l₂
    vault_retained_x ← safe_sub amount_x treasury_amount_x
    vault_retained_y ← safe_sub amount_y treasury_amount_y
    ok l₃

  -- The treasury's accounts, created if needed.
  unfoldable pub init_treasury : MeteoraDlmmLiquidity → Treasury → Ledger → Result Ledger
  init_treasury a treasury l = do
    constraint (
        treasury.token_x
        == rt.associated_token_address treasury.authority a.token_x_mint a.token_x_program)
    constraint (
        treasury.token_y
        == rt.associated_token_address treasury.authority a.token_y_mint a.token_y_program)
    l₁ ←
        init_token_account rt a.authority treasury.token_x treasury.authority a.token_x_mint
          a.token_x_program l
    init_token_account rt a.authority treasury.token_y treasury.authority a.token_y_mint
        a.token_y_program l₁

  unfoldable pub meteora_dlmm_claim_fee :
      MeteoraDlmmLiquidity
      → Treasury
      → Clock
      → List AccountMeta
      → (remaining_accounts_info : List ℕ) (requested_range : Option (ℤ × ℤ)) → World
      → Result World
  meteora_dlmm_claim_fee a treasury clock remaining remaining_accounts_info requested_range w = do
    strategy ← load w.strategies a.strategy
    check_token_accounts a
    l ← init_treasury a treasury w.ledger
    position ← dlmm.load_position l a.position
    config ← load_config rt w a.config
    is_protocol_operational config
    validate_treasury_authority config treasury.authority
    vault ← load_vault rt w a.vault
    validate_authority vault a.authority
    is_vault_withdrawable vault
    check_position a strategy
    (lower_bin_id, upper_bin_id) ←
        checked_bin_range position.lower_bin_id position.upper_bin_id requested_range
    l' ←
        run_claim a treasury remaining (vault_seeds vault.id vault.bump) lower_bin_id upper_bin_id
          remaining_accounts_info l
    ok (record (set_strategy w a.strategy (record_action strategy clock.unix_timestamp)) {
      ledger = l';
    })
