-- ===== src/Protocol/Jupiter/Laws.antt =====
-- What protocol/jupiter.rs reads of an instruction, and what its slippage limits amount to.
use programs.Prelude.{
  ℕ, ◌+◌, ◌-◌, ◌*◌, ◌/◌, ◌^◌, ◌<◌, ◌≤◌, ◌≡◌, refl, ◌∙◌, arith, true, List, [], ◌∷◌, ◌++◌, leb,
  le→leb,
}
use programs.Errors.{ok, validate}
use programs.SafeMath.{safe_add, safe_sub, safe_mul, safe_div, safe_to_u64}
use programs.SafeMath.Laws.{quotient_bounds}
use programs.Bytes.{length, read_le}
use programs.Bytes.Laws.{length-append, length-to_le_bytes, read_le-append, read_le-past}
use programs.Seeds.{to_le_bytes}
use programs.Protocol.Jupiter.{RouteArgs, parse, min_amount_out, max_amount_in}

-- The arguments as the serializer of a route instruction writes them, and the platform fee.
unfoldable pub encode_args : RouteArgs → ℕ → List ℕ
encode_args args platform_fee_bps =
    to_le_bytes 8 args.amount
    ++ (to_le_bytes 8 args.quoted_amount
        ++ (to_le_bytes 2 args.slippage_bps ++ (platform_fee_bps ∷ [])))

pub min_amount_out_lem :
    (quoted bps out : ℕ)
    → min_amount_out quoted bps ≡ ok out
    → (bps ≤ 10_000)
      × (10_000 * out ≤ quoted * (10_000 - bps))
      × (quoted * (10_000 - bps) < 10_000 * (out + 1))
unfolding min_amount_out safe_sub safe_mul safe_div safe_to_u64
min_amount_out_lem quoted bps out h =
    ground (arith, quotient_bounds (quoted * (10_000 - bps)) 10_000)

-- For a quote that fits a u64 and a cap of at most 100%, the least output of a route is always
-- computed, with no overflow, and is the quote less the cap, rounded down.
pub min_amount_out_total :
    (quoted bps : ℕ)
    → quoted < 2 ^ 64
    → bps ≤ 10_000
    → min_amount_out quoted bps ≡ ok (quoted * (10_000 - bps) / 10_000)
unfolding min_amount_out safe_sub safe_mul safe_div safe_to_u64
min_amount_out_total quoted bps h k =
    let below : quoted * (10_000 - bps) ≤ quoted * 10_000 = grind arith in
    ground (arith, below, quotient_bounds (quoted * (10_000 - bps)) 10_000)

pub max_amount_in_lem :
    (quoted bps most : ℕ)
    → max_amount_in quoted bps ≡ ok most
    → (10_000 * most ≤ quoted * (10_000 + bps)) × (quoted * (10_000 + bps) < 10_000 * (most + 1))
unfolding max_amount_in safe_add safe_mul safe_div safe_to_u64
max_amount_in_lem quoted bps most h =
    ground (arith, quotient_bounds (quoted * (10_000 + bps)) 10_000)

-- Where each of the arguments stands behind the discriminator and the route plan.
encode_args-fields :
    (args : RouteArgs) (fee : ℕ) (plan : List ℕ)
    → args.amount < 2 ^ 64
    → args.quoted_amount < 2 ^ 64
    → args.slippage_bps < 2 ^ 16
    → let all = plan ++ encode_args args fee in
      (read_le 8 all (length plan + 0) ≡ args.amount)
      × (read_le 8 all (length plan + 8) ≡ args.quoted_amount)
      × (read_le 2 all (length plan + 16) ≡ args.slippage_bps)
unfolding encode_args length
encode_args-fields args fee plan ha hq hs =
    let amount = to_le_bytes 8 args.amount in
    let quoted = to_le_bytes 8 args.quoted_amount in
    let slippage = to_le_bytes 2 args.slippage_bps ++ (fee ∷ []) in
    let all = amount ++ (quoted ++ slippage) in
    (
      read_le-past 8 _ 0 plan all refl
          ∙ read_le-append 8 args.amount 0 [] (quoted ++ slippage) ha refl,
      read_le-past 8 _ 8 plan all refl
          ∙ read_le-append 8 args.quoted_amount 8 amount slippage hq (length-to_le_bytes 8 _),
      read_le-past 2 _ 16 plan all refl
          ∙ (read_le-past 2 8 8 amount (quoted ++ slippage) (length-to_le_bytes 8 _)
              ∙ read_le-append 2 args.slippage_bps 8 quoted (fee ∷ []) hs (length-to_le_bytes 8 _)),
    )

length-encode_args :
    (args : RouteArgs) (fee : ℕ) (plan : List ℕ)
    → length (plan ++ encode_args args fee) ≡ length plan + 19
unfolding encode_args length
length-encode_args args fee plan = simp (length-append, length-to_le_bytes)

-- Whatever bytes precede them, the arguments at the end of a route instruction are parsed as they
-- were written, if they fit their widths, for any platform fee.
pub parse-encode_args :
    (args : RouteArgs) (fee : ℕ) (plan : List ℕ)
    → args.amount < 2 ^ 64
    → args.quoted_amount < 2 ^ 64
    → args.slippage_bps < 2 ^ 16
    → parse (plan ++ encode_args args fee) ≡ ok args
unfolding parse validate
parse-encode_args args fee plan ha hq hs =
    let found = encode_args-fields args fee plan ha hq hs in
    let size = length-encode_args args fee plan in
    let enough : leb 19 (length plan + 19) ≡ true = le→leb _ _ (omega arith) in
    let bps : length plan + 19 - 3 ≡ length plan + 16 = omega arith in
    let quoted : length plan + 16 - 8 ≡ length plan + 8 = omega arith in
    let amount : length plan + 8 - 8 ≡ length plan + 0 = omega arith in
    rw (size, enough, bps, quoted, amount, found.0, found.1, found.2) refl
