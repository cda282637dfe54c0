-- ===== src/System/Trading/Swaps.antt =====
-- A routed swap, held against the balances that it left.
use programs.Prelude.{
  sym, ◌∙◌, ◌==◌, ℕ, ◌+◌, ◌-◌, ◌*◌, ◌≡◌, ◌≤◌, ◌<◌, ◌⊎◌, arith, List, leb, subst, ap,
}
use programs.Errors.{
  HedgeVaultError, ok, validate, constraint, require, bind-elim, then-elim, ok-injective,
}
use programs.SafeMath.{safe_sub}
use programs.Vault.{Pubkey, Vault, validate_deposit_mint}
use programs.Config.{Config, slippage_cap}
use programs.Seeds.{vault_seeds}
use programs.Runtime.{Runtime, Ledger, Clock, AccountMeta}
use programs.World.{World, load}
use programs.Protocol.Jupiter.{
  SwapMode, SwapVariant, exact_in, exact_out, RouteArgs, from_swap_data, mode, read_route_args,
  check_amount_and_slippage, min_amount_out, max_amount_in,
}
use programs.Protocol.Jupiter.Laws.{min_amount_out_lem, max_amount_in_lem}
use programs.Protocol.Jupiter.Calls.{swap}
use programs.Instructions.Strategies.{load_operational, validate_strategy, target_mint_of}
use programs.Instructions.Strategies.Jupiter.{
  JupiterSwap, swap_target, check_swap, swap_cpi, init_swap_accounts, run_swap, jupiter_swap,
}
use programs.System.Trading.{Operational, load_operational-Operational}

-- What the balances of the two accounts must show, by the mode. The slippage cap is in basis points.
abbrev pub Fair : SwapMode → RouteArgs → (bps received spent : ℕ) → Type 0
Fair exact_in args bps received spent =
    args.quoted_amount * (10_000 - bps) < 10_000 * (received + 1)
Fair exact_out args bps received spent =
    (args.amount ≤ received) × (10_000 * spent ≤ args.quoted_amount * (10_000 + bps))

validate-leb : (a b : ℕ) (e : HedgeVaultError) → validate (leb a b) e ≡ ok tt → a ≤ b
unfolding validate
validate-leb a b e h = ground arith

check_swap-Fair :
    (m : SwapMode) (args : RouteArgs) (bps received spent : ℕ)
    → check_swap m args bps received spent ≡ ok tt
    → Fair m args bps received spent
unfolding check_swap
check_swap-Fair exact_in args bps received spent h =
    bind-elim (min_amount_out _ _) _ h λ least found h₁.
      let bound = min_amount_out_lem _ _ _ found in
      let enough = validate-leb _ _ _ h₁ in omega (arith, bound.2)
check_swap-Fair exact_out args bps received spent h = then-elim (validate _ _) _ h λ enough h₁.
    bind-elim (max_amount_in _ _) _ h₁ λ most found h₂.
      let bound = max_amount_in_lem _ _ _ found in
      let within = validate-leb _ _ _ h₂ in (validate-leb _ _ _ enough, omega (arith, bound.0))

require-leb : (a b : ℕ) → require (leb a b) ≡ ok tt → a ≤ b
unfolding require
require-leb a b h = ground arith

-- The arguments that a route was checked with: they stand in its data.
record Checked (variant : SwapVariant) (swap_data : List ℕ) (amount slippage_bps bps : ℕ)
    (args : RouteArgs) : Type 0 where
  reads : read_route_args variant swap_data amount ≡ ok args
  named : args.slippage_bps ≤ slippage_bps
  capped : slippage_bps ≤ bps

check_amount_and_slippage-Checked :
    (swap_data : List ℕ) (amount slippage_bps bps : ℕ) (variant : SwapVariant) (args : RouteArgs)
    → from_swap_data swap_data ≡ ok variant
    → check_amount_and_slippage swap_data amount slippage_bps bps ≡ ok args
    → Checked variant swap_data amount slippage_bps bps args
unfolding check_amount_and_slippage
check_amount_and_slippage-Checked swap_data amount slippage_bps bps variant args is h =
    then-elim (validate _ _) _ h λ long h₁. bind-elim (from_swap_data _) _ h₁ λ variant' known h₂.
      bind-elim (read_route_args _ _ _) _ h₂ λ found reads h₃.
        then-elim (require _) _ h₃ λ covers h₄. then-elim (validate _ _) _ h₄ λ routed h₅.
          then-elim (validate _ _) _ h₅ λ capped h₆.
            let same_variant : variant' ≡ variant = ok-injective (sym known ∙ is) in
            subst (λ r. Checked variant swap_data amount slippage_bps bps r) (ok-injective h₆)
              (record {
                reads =
                    subst (λ m. read_route_args m swap_data amount ≡ ok found) same_variant reads;
                named = require-leb _ _ covers;
                capped = validate-leb _ _ _ capped;
              })

safe_sub-exact : (a b : ℕ) {c : ℕ} → safe_sub a b ≡ ok c → (b ≤ a) × (c ≡ a - b)
unfolding safe_sub
safe_sub-exact a b h = ground arith

-- What the vault's two accounts went through.
pub record Exchanged (m : SwapMode) (args : RouteArgs) (bps : ℕ) (l l' : Ledger) (from to : Pubkey)
    : Type 0 where
  pub gained : l.amount to ≤ l'.amount to
  pub spent : l'.amount from ≤ l.amount from
  pub fair : Fair m args bps (l'.amount to - l.amount to) (l.amount from - l'.amount from)

-- The call of Jupiter between two readings of the balances, with what the vault asked of it. The
-- arguments are those in the route data.
pub record Routed (rt : Runtime) (a : JupiterSwap) (vault : Vault) (swap_data : List ℕ)
    (remaining : List AccountMeta) (amount slippage_bps bps : ℕ) (l l' : Ledger) : Type 0 where
  pub variant : SwapVariant
  pub args : RouteArgs
  pub known : from_swap_data swap_data ≡ ok variant
  pub reads : read_route_args variant swap_data amount ≡ ok args
  pub capped : (args.slippage_bps ≤ slippage_bps) × (slippage_bps ≤ bps)
  pub called : swap rt (swap_cpi a) swap_data remaining (vault_seeds vault.id vault.bump) l ≡ ok l'
  pub exchanged :
      Exchanged
        (mode variant)
        args
        bps
        l
        l'
        a.vault_source_token_account
        a.vault_destination_token_account

run_swap-Routed :
    (rt : Runtime) (a : JupiterSwap) (vault : Vault) (swap_data : List ℕ)
    (remaining : List AccountMeta) (amount slippage_bps bps : ℕ) (l l' : Ledger)
    → run_swap rt a vault swap_data remaining amount slippage_bps bps l ≡ ok l'
    → Routed rt a vault swap_data remaining amount slippage_bps bps l l'
unfolding run_swap
run_swap-Routed rt a vault swap_data remaining amount slippage_bps bps l l' h =
    bind-elim (from_swap_data _) _ h λ variant known h₁.
      bind-elim (check_amount_and_slippage _ _ _ _) _ h₁ λ args checked h₂.
        bind-elim (swap rt _ _ _ _ _) _ h₂ λ after moved h₃.
          bind-elim (safe_sub _ _) _ h₃ λ received gain h₄.
            bind-elim (safe_sub _ _) _ h₄ λ spent loss h₅.
              then-elim (check_swap _ _ _ _ _) _ h₅ λ fair h₆.
                let gained = safe_sub-exact _ _ gain in
                let lost = safe_sub-exact _ _ loss in
                let before_from = l.amount a.vault_source_token_account in
                let after_from = after.amount a.vault_source_token_account in
                let asked =
                  check_amount_and_slippage-Checked swap_data amount slippage_bps bps variant args
                    known checked in
                subst (λ l'. Routed rt a vault swap_data remaining amount slippage_bps bps l l')
                  (ok-injective h₆)
                  (record {
                    variant = variant;
                    args = args;
                    known = known;
                    reads = asked.reads;
                    capped = (asked.named, asked.capped);
                    called = moved;
                    exchanged = record {
                      gained = gained.0;
                      spent = lost.0;
                      fair =
                          subst (λ n. Fair (mode variant) args bps n (before_from - after_from))
                            gained.1
                            (subst (λ n. Fair (mode variant) args bps received n) lost.1
                              (check_swap-Fair _ args bps received spent fair));
                    };
                  })

-- The two accounts of a swap are the vault's own, for the mints and token programs named.
pub record Owned (rt : Runtime) (a : JupiterSwap) : Type 0 where
  pub source :
      a.vault_source_token_account
      ≡ rt.associated_token_address a.vault a.source_mint a.source_token_program
  pub destination :
      a.vault_destination_token_account
      ≡ rt.associated_token_address a.vault a.destination_mint a.destination_token_program

constraint-same : (a b : ℕ) → constraint (a == b) ≡ ok tt → a ≡ b
unfolding constraint
constraint-same a b h = ground arith

init_swap_accounts-Owned :
    (rt : Runtime) (a : JupiterSwap) (l : Ledger) {l' : Ledger}
    → init_swap_accounts rt a l ≡ ok l'
    → Owned rt a
unfolding init_swap_accounts
init_swap_accounts-Owned rt a l h = then-elim (constraint _) _ h λ from h₁.
    then-elim (constraint _) _ h₁
      λ to _. record { source = constraint-same _ _ from; destination = constraint-same _ _ to }

-- A swap that went through. `before` is the ledger with the destination account created.
pub record Traded (rt : Runtime) (a : JupiterSwap) (swap_data : List ℕ)
    (remaining : List AccountMeta) (amount slippage_bps : ℕ) (w w' : World) : Type 0 where
  pub config : Config
  pub vault : Vault
  pub before : Ledger
  pub allowed : Operational w a.config a.vault a.authority config vault
  pub owned : Owned rt a
  pub created : init_swap_accounts rt a w.ledger ≡ ok before
  pub legs : (a.source_mint ≡ vault.deposit_mint) ⊎ (a.destination_mint ≡ vault.deposit_mint)
  pub routed :
      Routed rt a vault swap_data remaining amount slippage_bps
        (slippage_cap config)
        before
        w'.ledger

swap_target-legs :
    (vault : Vault) (from to target : Pubkey)
    → swap_target vault from to ≡ ok target
    → (from ≡ vault.deposit_mint) ⊎ (to ≡ vault.deposit_mint)
unfolding swap_target validate_deposit_mint validate
swap_target-legs vault from to target h = ground arith

-- A successful jupiter_swap was signed by the authority of the vault, with the protocol and the
-- vault in their normal status, has the deposit mint as one leg, and runs between the vault's own
-- associated accounts of the two mints. The route data are of a known kind; the arguments read
-- from them name a slippage of at most the one that the caller named, which is at most the cap of
-- the configuration. Jupiter was called with these data on the ledger with the destination account
-- created, and the ledger after its call is the final one. Between these two ledgers the
-- destination did not fall and the source did not grow; an exact-in route brought more than the
-- quote in the arguments less the cap, short of one unit, and an exact-out route brought the
-- amount in the arguments at a price of at most the quote plus the cap.
pub jupiter_swap-Traded :
    (rt : Runtime) (a : JupiterSwap) (clock : Clock) (swap_data : List ℕ)
    (remaining : List AccountMeta) (amount slippage_bps : ℕ) (w w' : World)
    → jupiter_swap rt a clock swap_data remaining amount slippage_bps w ≡ ok w'
    → Traded rt a swap_data remaining amount slippage_bps w w'
unfolding jupiter_swap
jupiter_swap-Traded rt a clock swap_data remaining amount slippage_bps w w' h =
    bind-elim (load _ _) _ h λ strategy found h₁.
      bind-elim (init_swap_accounts rt _ _) _ h₁ λ before created h₂.
        bind-elim (load_operational rt _ _ _ _) _ h₂ λ both allowed h₃.
          then-elim (validate _ _) _ h₃ λ apart h₄. then-elim (validate _ _) _ h₄ λ no_shares h₅.
            bind-elim (swap_target _ _ _) _ h₅ λ target leg h₆.
              then-elim (validate_strategy rt _ _ _ _) _ h₆ λ at h₇.
                bind-elim (target_mint_of _) _ h₇ λ named kind h₈.
                  then-elim (validate _ _) _ h₈ λ same h₉.
                    bind-elim (run_swap rt _ _ _ _ _ _ _ _) _ h₉ λ after moved last. record {
                      config = both.0;
                      vault = both.1;
                      before = before;
                      allowed = load_operational-Operational rt w _ _ _ allowed;
                      owned = init_swap_accounts-Owned rt a w.ledger created;
                      created = created;
                      legs = swap_target-legs _ _ _ _ leg;
                      routed =
                          subst
                            (λ l.
                              Routed rt a both.1 swap_data remaining amount slippage_bps
                                (slippage_cap both.0) before l)
                            (ap (λ v. v.ledger) (ok-injective last))
                            (run_swap-Routed rt a _ _ _ _ _ _ _ _ moved);
                    }
