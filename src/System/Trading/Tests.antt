-- ===== src/System/Trading/Tests.antt =====
-- A vault that swaps, trades on Phoenix, moves collateral and is migrated, at concrete accounts. The called
-- programs answer with fixed balances and bytes.
mod Phoenix
use programs.Prelude.{
  ℕ, ◌+◌, ◌-◌, ◌*◌, ◌/◌, ◌^◌, ◌<◌, ◌≤◌, ◌≡◌, ◌↔◌, refl, arith, Bool, true, false, some, none, List,
  [], ◌∷◌, ◌++◌, ◌==◌, if◌then◌else◌,
}
use programs.Prelude.Int.{pos, ◌+ℤ◌, ◌≤ℤ◌}
use programs.Errors.{Result, ok, validate, constraint, require}
use programs.SafeMath.{safe_add, safe_sub, safe_mul, safe_div, safe_to_u64}
use programs.Accounts.{lookup, insert}
use programs.Bytes.{length, take, drop, slice, from_le_bytes, read_le, starts_with}
use programs.Vault
use programs.Vault.{Vault, validate_deposit_mint, is_vault_operational}
use programs.Config.{is_protocol_operational, slippage_cap}
use programs.Strategy
use programs.Strategy.{Strategy, record_action}
use programs.Seeds.{to_le_bytes, validate_pda, config_seeds, vault_seeds, strategy_seeds}
use programs.Runtime.{Runtime, Ledger, Clock, Instruction, update}
use programs.World.{World, load_config, load_vault, init_token_account}
use programs.Protocol.Jupiter.{
  jupiter_id, jupiter_aggregator_event_authority, route_discriminator, RouteArgs, from_swap_data,
  mode, uses_token_ledger, parse, parse_with_token_ledger, read_route_args,
  check_amount_and_slippage, min_amount_out, max_amount_in,
}
use programs.Protocol.Jupiter.Laws.{encode_args, parse-encode_args, min_amount_out_total}
use programs.Protocol.Jupiter.Calls.{swap, swap_accounts, route_accounts}
use programs.Instructions.Strategies.{load_operational, validate_strategy, target_mint_of}
use programs.Instructions.Strategies.Jupiter.{
  JupiterSwap, swap_target, check_swap, init_swap_accounts, run_swap, jupiter_swap,
}
use programs.Instructions.Strategies.Meteora.{treasury_fee}
use programs.Instructions.Strategies.Meteora.Bins.{validate_extension}
use programs.Instructions.Strategies.Meteora.Laws.{treasury_fee_lem, validate_extension_iff}
use programs.System.Tests.Addresses.{spelled, derived}
use programs.System.Tests.{rt, config, vault, ledger, before, clock}
use programs.System.Trading.Swaps.{Traded, jupiter_swap-Traded}

abbrev args : RouteArgs
args = record { amount = 1_000; quoted_amount = 2_000; slippage_bps = 50 }

-- A route with an empty plan.
abbrev empty_route : List ℕ
empty_route = route_discriminator ++ (0 ∷ 0 ∷ 0 ∷ 0 ∷ [])

abbrev route_data : List ℕ
route_data = empty_route ++ encode_args args 7

parse-encode_args_example : parse (empty_route ++ encode_args args 7) ≡ ok args
parse-encode_args_example =
    parse-encode_args args 7 empty_route (omega arith) (omega arith) (omega arith)

min_amount_out_total_example : min_amount_out 2_000 300 ≡ ok (2_000 * (10_000 - 300) / 10_000)
min_amount_out_total_example = min_amount_out_total 2_000 300 (omega arith) (omega arith)

treasury_fee_lem_example : treasury_fee 99 ≡ ok (99 / 10)
treasury_fee_lem_example = treasury_fee_lem 99 (omega arith)

validate_extension_iff_example :
    (validate_extension (pos 0) (pos 69) 91 ≡ ok tt)
    ↔ ((1 ≤ 91) × (91 ≤ 91) × (pos 0 ≤ℤ pos 69) × (pos 69 +ℤ pos (91 + 1) ≤ℤ pos 0 +ℤ pos 1_400))
validate_extension_iff_example = validate_extension_iff (pos 0) (pos 69) 91

-- The strategy of the vault 254 on the mint 14 stands at the address of its seeds.
abbrev pub strategy_key : ℕ → ℕ
strategy_key account = 254 * 2 ^ 256 + account

abbrev pub strategy : Strategy
strategy = record {
  vault = 254;
  created_ts = pos 0;
  last_action_ts = pos 0;
  id = 0;
  bump = 255;
  version = 1;
  strategy_type = Strategy.jupiter_swap 14;
}

abbrev funded : World
funded = record before { strategies = (strategy_key 14, strategy) ∷ [] }

-- Jupiter takes 1,000 of the deposit mint and gives 1,960 of the target.
abbrev swapped : Ledger
swapped = record ledger {
  amount = λ account. if account == 266 then 500 else if account == 268 then 2_460 else 500;
}

abbrev rich : Ledger
rich = record ledger { amount = λ account. if account == 266 then 1_500 else 500 }

abbrev trading_rt : Runtime
trading_rt = record rt { invoke_signed = λ call accounts seeds l. ok swapped }

abbrev swap_named : JupiterSwap
swap_named = record {
  authority = 11;
  config = 253;
  vault = 254;
  strategy = strategy_key 14;
  source_mint = 12;
  destination_mint = 14;
  vault_source_token_account = 266;
  vault_destination_token_account = 268;
  source_token_program = 2;
  destination_token_program = 2;
  event_authority = jupiter_aggregator_event_authority;
  jupiter_program = jupiter_id;
}

abbrev wealthy : World
wealthy = record funded { ledger = rich }

abbrev after_swap : World
after_swap = record wealthy {
  strategies = (strategy_key 14, record strategy { last_action_ts = pos 43_200 }) ∷ [];
  ledger = swapped;
}

swap-runs : jupiter_swap trading_rt swap_named clock route_data [] 1_000 100 wealthy ≡ ok after_swap
unfolding jupiter_swap init_swap_accounts init_token_account load_operational load_config load_vault
    validate_pda derived spelled to_le_bytes constraint validate require is_protocol_operational
    is_vault_operational Vault.validate_authority swap_target validate_strategy target_mint_of
    run_swap from_swap_data starts_with check_amount_and_slippage read_route_args uses_token_ledger
    parse length read_le slice take drop from_le_bytes encode_args swap swap_accounts route_accounts
    safe_sub safe_mul safe_div safe_to_u64 check_swap mode min_amount_out slippage_cap record_action
    lookup insert config_seeds vault_seeds strategy_seeds
swap-runs = refl

jupiter_swap-Traded_example :
    Traded trading_rt swap_named route_data [] 1_000 100 wealthy after_swap
jupiter_swap-Traded_example =
    jupiter_swap-Traded trading_rt swap_named clock route_data [] 1_000 100 wealthy after_swap
      swap-runs
