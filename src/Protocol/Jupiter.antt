-- ===== src/Protocol/Jupiter.antt =====
-- protocol/jupiter.rs: the route instructions of the Jupiter aggregator that a vault may relay, their
-- trailing arguments, and the slippage cap on both. Calls has the accounts of each route.

pub mod Calls
pub mod Laws
use programs.Prelude.{ℕ, ◌+◌, ◌-◌, Bool, true, false, List, [], ◌∷◌, ltb, leb, ◌==◌, if◌then◌else◌}
use programs.Constants.{max_bps}
use programs.Errors.{
  Result, ok, err, invalid_instruction, ◌>>=◌, ◌>>◌, validate, require, invalid_instruction_data,
  slippage_exceeds_cap,
}
use programs.SafeMath.{safe_add, safe_sub, safe_mul, safe_div, safe_to_u64}
use programs.Bytes.{length, read_le, starts_with}
use programs.Vault.{Pubkey}

-- From idls/jupiter.json.
abbrev pub jupiter_id : Pubkey
jupiter_id =
    64_715_607_305_651_700_642_051_317_651_573_375_989_260_250_670_395_057_068_300_139_620_800_065_272_068

abbrev pub jupiter_aggregator_event_authority : Pubkey
jupiter_aggregator_event_authority =
    105_342_159_937_068_985_520_944_382_869_226_733_913_777_367_836_769_706_822_851_468_192_653_910_884_276

-- The discriminators, from idls/jupiter.json.
abbrev pub exact_out_route_discriminator : List ℕ
exact_out_route_discriminator = 208 ∷ 51 ∷ 239 ∷ 151 ∷ 123 ∷ 43 ∷ 237 ∷ 92 ∷ []

abbrev pub route_discriminator : List ℕ
route_discriminator = 229 ∷ 23 ∷ 203 ∷ 151 ∷ 122 ∷ 227 ∷ 173 ∷ 42 ∷ []

abbrev pub route_with_token_ledger_discriminator : List ℕ
route_with_token_ledger_discriminator = 150 ∷ 86 ∷ 71 ∷ 116 ∷ 167 ∷ 93 ∷ 14 ∷ 104 ∷ []

abbrev pub shared_accounts_exact_out_route_discriminator : List ℕ
shared_accounts_exact_out_route_discriminator = 176 ∷ 209 ∷ 105 ∷ 168 ∷ 154 ∷ 125 ∷ 69 ∷ 62 ∷ []

abbrev pub shared_accounts_route_discriminator : List ℕ
shared_accounts_route_discriminator = 193 ∷ 32 ∷ 155 ∷ 51 ∷ 65 ∷ 214 ∷ 156 ∷ 129 ∷ []

-- The bytes of the arguments at the end of a route instruction: `SLIPPAGE_TAIL`, and so on.
abbrev pub slippage_tail : ℕ
slippage_tail = 2 + 1

abbrev pub args_tail : ℕ
args_tail = 8 + 8 + slippage_tail

abbrev pub token_ledger_args_tail : ℕ
token_ledger_args_tail = 8 + slippage_tail

pub data SwapMode : Type 0 where
  exact_in exact_out : SwapMode

pub data SwapVariant : Type 0 where
  route route_with_token_ledger exact_out_route : SwapVariant
  shared_accounts_route shared_accounts_exact_out_route : SwapVariant

unfoldable pub from_swap_data : List ℕ → Result SwapVariant
from_swap_data swap_data =
    if starts_with swap_data exact_out_route_discriminator
    then ok exact_out_route
    else if starts_with swap_data route_discriminator
    then ok route
    else if starts_with swap_data route_with_token_ledger_discriminator
    then ok route_with_token_ledger
    else if starts_with swap_data shared_accounts_exact_out_route_discriminator
    then ok shared_accounts_exact_out_route
    else if starts_with swap_data shared_accounts_route_discriminator
    then ok shared_accounts_route
    else err invalid_instruction

unfoldable pub mode : SwapVariant → SwapMode
mode route = exact_in
mode route_with_token_ledger = exact_in
mode shared_accounts_route = exact_in
mode exact_out_route = exact_out
mode shared_accounts_exact_out_route = exact_out

unfoldable pub uses_token_ledger : SwapVariant → Bool
uses_token_ledger route = false
uses_token_ledger route_with_token_ledger = true
uses_token_ledger exact_out_route = false
uses_token_ledger shared_accounts_route = false
uses_token_ledger shared_accounts_exact_out_route = false

pub record RouteArgs : Type 0 where
  pub amount : ℕ
  pub quoted_amount : ℕ
  pub slippage_bps : ℕ

-- `RouteArgs::parse`. The offsets do not underflow once the length was tested.
unfoldable pub parse : List ℕ → Result RouteArgs
parse swap_data = do
  validate (leb args_tail (length swap_data)) invalid_instruction_data
  let bps_offset = length swap_data - slippage_tail in
      let quoted_offset = bps_offset - 8 in
      let amount_offset = quoted_offset - 8 in
      ok (record {
        amount = read_le 8 swap_data amount_offset;
        quoted_amount = read_le 8 swap_data quoted_offset;
        slippage_bps = read_le 2 swap_data bps_offset;
      })

-- `RouteArgs::parse_with_token_ledger`
unfoldable pub parse_with_token_ledger : List ℕ → Result RouteArgs
parse_with_token_ledger swap_data = do
  validate (leb token_ledger_args_tail (length swap_data)) invalid_instruction_data
  let bps_offset = length swap_data - slippage_tail in
      let quoted_offset = bps_offset - 8 in
      ok (record {
        amount = 0;
        quoted_amount = read_le 8 swap_data quoted_offset;
        slippage_bps = read_le 2 swap_data bps_offset;
      })

unfoldable pub min_amount_out : ℕ → ℕ → Result ℕ
min_amount_out quoted_out_amount max_slippage_bps = do
  kept ← safe_sub max_bps max_slippage_bps
  a ← safe_mul 128 quoted_out_amount kept
  b ← safe_div a max_bps
  safe_to_u64 b

unfoldable pub max_amount_in : ℕ → ℕ → Result ℕ
max_amount_in quoted_in_amount max_slippage_bps = do
  raised ← safe_add 128 max_bps max_slippage_bps
  a ← safe_mul 128 quoted_in_amount raised
  b ← safe_div a max_bps
  safe_to_u64 b

-- The arguments by the variant, and the amount that the caller named against them.
unfoldable pub read_route_args : SwapVariant → List ℕ → (amount : ℕ) → Result RouteArgs
read_route_args variant swap_data amount =
    if uses_token_ledger variant
    then (do validate (ltb 0 amount) invalid_instruction_data; parse_with_token_ledger swap_data)
    else (do args ← parse swap_data; require (amount == args.amount); ok args)

unfoldable pub check_amount_and_slippage :
    List ℕ → (amount slippage_bps max_slippage_bps : ℕ) → Result RouteArgs
check_amount_and_slippage swap_data amount slippage_bps max_slippage_bps = do
  validate (leb token_ledger_args_tail (length swap_data)) invalid_instruction_data
  variant ← from_swap_data swap_data
  args ← read_route_args variant swap_data amount
  require (leb args.slippage_bps slippage_bps)
  validate (leb args.slippage_bps max_slippage_bps) slippage_exceeds_cap
  validate (leb slippage_bps max_slippage_bps) slippage_exceeds_cap
  ok args
