-- ===== src/System/Trading/Orders.antt =====
-- Orders on Phoenix: in which state they may be placed, what they must fill, and that the trader is not
-- left open to liquidation.
use programs.Prelude.{
  ℕ, refl, ◌≡◌, ◌≢◌, ◌∙◌, ◌≤◌, arith, ap, subst, some, Bool, true, false, not, List, leb,
}
use programs.Errors.{HedgeVaultError, ok, validate, constraint, bind-elim, then-elim, ok-injective}
use programs.Accounts.{lookup}
use programs.Vault
use programs.Vault.{
  Pubkey, Vault, VaultStatus, validate_authority, is_vault_operational, is_vault_withdrawable,
}
use programs.Config
use programs.Config.{Config, ProtocolStatus, is_protocol_operational, is_protocol_withdrawable}
use programs.Runtime.{Runtime, Ledger, Clock}
use programs.World.{World, load, load_config, load_vault}
use programs.Protocol.Phoenix.{hawkeye_program_id}
use programs.Protocol.Phoenix.Returns.{
  MatchingEngineResponse, from_return_data, returned_by, base_lots_filled, parse_is_liquidatable,
}
use programs.Protocol.Phoenix.Packets.{OrderPacket, order_data}
use programs.Protocol.Phoenix.Calls.{PhoenixCpi, market_action, place_order, is_liquidatable}
use programs.Seeds.{Seed, vault_seeds}
use programs.Strategy.{Strategy}
use programs.Instructions.Strategies.{load_operational, check_phoenix_strategy}
use programs.Instructions.Strategies.Phoenix.{
  market_of, trading_cpi, market_packet, PhoenixTrading, PhoenixMarketOrderParams,
  PhoenixLimitOrderParams, check_phoenix_addresses, check_order_status, check_trading, check_margin,
  phoenix_place_market_order, phoenix_place_limit_order,
}
use programs.System.Effects.{load_vault-lookup}
use programs.System.Guards.{load_config-lookup, protocol_is_normal, vault_is_normal}
use programs.System.Trading.Traders.{
  WithinTrading, TraderOf, check_phoenix_strategy-TraderOf, constraint-same,
}
use programs.System.Trading.{Operational, load_operational-Operational, authority_signs}

-- Hawkeye was the last program to return data, and its answer is that the trader is not liquidatable.
abbrev pub NotLiquidatable : Ledger → Type 0
NotLiquidatable l =
    (answer : List ℕ) × (returned_by hawkeye_program_id l.return_data ≡ ok answer)
    × (parse_is_liquidatable answer ≡ ok false)

validate-not : (b : Bool) (e : HedgeVaultError) → validate (not b) e ≡ ok tt → b ≡ false
unfolding validate
validate-not b e h = ground arith

-- Hawkeye's view of the trader, taken last: its answer is that the trader is not liquidatable.
pub record Safe (rt : Runtime) (cpi : PhoenixCpi) (program map : Pubkey) (l l' : Ledger)
    : Type 0 where
  pub viewed : is_liquidatable rt cpi program map l ≡ ok (false, l')
  pub answered : NotLiquidatable l'

view-NotLiquidatable :
    (rt : Runtime) (cpi : PhoenixCpi) (program map : Pubkey) (l l' : Ledger) (b : Bool)
    → is_liquidatable rt cpi program map l ≡ ok (b, l')
    → b ≡ false
    → NotLiquidatable l'
unfolding is_liquidatable
view-NotLiquidatable rt cpi program map l l' b h refuted =
    bind-elim (rt.invoke_signed _ _ _ _) _ h λ after viewed h₁.
      bind-elim (returned_by _ _) _ h₁ λ answer returned h₂.
        bind-elim (parse_is_liquidatable _) _ h₂ λ liquidatable parsed h₃.
          let same : liquidatable ≡ b = ap (λ p. p.0) (ok-injective h₃) in
          subst (λ l. NotLiquidatable l) (ap (λ p. p.1) (ok-injective h₃))
            (answer, returned, parsed ∙ ap (λ c. ok c) (same ∙ refuted))

check_margin-Safe :
    (rt : Runtime) (a : PhoenixTrading) (tail : List Pubkey) (program : Pubkey) (l l' : Ledger)
    → check_margin rt a tail program l ≡ ok l'
    → Safe rt (trading_cpi a tail) program a.perp_asset_map l l'
unfolding check_margin
check_margin-Safe rt a tail program l l' h =
    bind-elim (is_liquidatable rt _ _ _ _) _ h λ both viewed h₁.
      then-elim (validate _ _) _ h₁ λ safe h₂.
        let no = validate-not both.0 _ safe in
        subst (λ l'. Safe rt (trading_cpi a tail) program a.perp_asset_map l l') (ok-injective h₂)
          (record {
            viewed = viewed ∙ ap (λ b. ok (b, both.1)) no;
            answered = view-NotLiquidatable rt _ _ _ l both.1 both.0 viewed no;
          })

-- What Phoenix did with an order: the call, and the response that it returned with it.
pub record Matched (rt : Runtime) (a : PhoenixTrading) (tail : List Pubkey) (packet : OrderPacket)
    (seeds : List Seed) (l l' : Ledger) (response : MatchingEngineResponse) : Type 0 where
  pub sent : market_action rt (trading_cpi a tail) (market_of a) (order_data packet) seeds l ≡ ok l'
  pub returned : from_return_data l'.return_data ≡ ok response

place_order-Matched :
    (rt : Runtime) (a : PhoenixTrading) (tail : List Pubkey) (packet : OrderPacket)
    (seeds : List Seed) (l l' : Ledger) (response : MatchingEngineResponse)
    → place_order rt (trading_cpi a tail) (market_of a) packet seeds l ≡ ok (response, l')
    → Matched rt a tail packet seeds l l' response
unfolding place_order
place_order-Matched rt a tail packet seeds l l' response h =
    bind-elim (market_action rt _ _ _ _ _) _ h λ after sent h₁.
      bind-elim (from_return_data _) _ h₁ λ found returned h₂.
        let same = ok-injective h₂ in
        subst (λ both. Matched rt a tail packet seeds l both.1 both.0) same
          (record { sent = sent; returned = returned })

-- An order that only reduces a position may run unless the protocol or the vault is paused; another
-- one needs both to be normal.
abbrev pub MayOrder : Bool → ProtocolStatus → VaultStatus → Type 0
MayOrder true p v = (p ≢ Config.paused) × (v ≢ Vault.paused)
MayOrder false p v = (p ≡ Config.normal) × (v ≡ Vault.normal)

check_order_status-MayOrder :
    (reduce_only : Bool) (c : Config) (v : Vault)
    → check_order_status reduce_only c v ≡ ok tt
    → MayOrder reduce_only c.status v.status
unfolding check_order_status is_protocol_withdrawable is_vault_withdrawable validate
check_order_status-MayOrder true c v h = ground arith
check_order_status-MayOrder false c v h =
    then-elim (is_protocol_operational _) _ h
      λ runs h₁. (protocol_is_normal c runs, vault_is_normal v h₁)

-- A market order that went through. `placed` is the ledger after the order, before the last view.
pub record Filled (rt : Runtime) (a : PhoenixTrading) (hawkeye_program : Pubkey)
    (tail : List Pubkey) (params : PhoenixMarketOrderParams) (w w' : World) : Type 0 where
  pub config : Config
  pub vault : Vault
  pub placed : Ledger
  pub response : MatchingEngineResponse
  pub configured : lookup a.config w.configs ≡ some config
  pub held : lookup a.vault w.vaults ≡ some vault
  pub signed : a.authority ≡ vault.authority
  pub allowed : MayOrder params.reduce_only config.status vault.status
  pub trader : TraderOf rt w a.vault a.strategy a.trader_account
  pub matched :
      Matched rt a tail
        (market_packet params)
        (vault_seeds vault.id vault.bump)
        w.ledger
        placed
        response
  pub filled : params.min_base_lots_to_fill ≤ base_lots_filled response
  pub program : hawkeye_program ≡ hawkeye_program_id
  pub safe : Safe rt (trading_cpi a tail) hawkeye_program a.perp_asset_map placed w'.ledger
  pub within : WithinTrading w w'

check_trading-TraderOf :
    (rt : Runtime) (a : PhoenixTrading) (tail : List Pubkey) (s : Strategy) (w : World)
    → load w.strategies a.strategy ≡ ok s
    → check_trading rt a tail s w.ledger ≡ ok tt
    → TraderOf rt w a.vault a.strategy a.trader_account
unfolding check_trading
check_trading-TraderOf rt a tail s w found h =
    then-elim (check_phoenix_strategy rt _ _ _ _) _ h
      λ at _. check_phoenix_strategy-TraderOf rt w s _ _ _ found at

validate-leb : (a b : ℕ) (e : HedgeVaultError) → validate (leb a b) e ≡ ok tt → a ≤ b
unfolding validate
validate-leb a b e h = ground arith

-- A successful phoenix_place_market_order was signed by the authority of the vault; with an order
-- that only reduces, neither the protocol nor the vault was paused, and with any other one both
-- had their normal status. The order went to the trader account of a stored strategy of the vault,
-- at its derived address. Phoenix was sent the packet of the parameters, signed by the vault, and
-- the response in the return data that it left fills at least the least number of base lots asked
-- for. Hawkeye was then asked about that trader, answered that it is not liquidatable, and the
-- ledger that it left is the final one. Besides the ledger only strategies were written.
pub phoenix_place_market_order-Filled :
    (rt : Runtime) (a : PhoenixTrading) (hawkeye_program : Pubkey) (tail : List Pubkey)
    (clock : Clock) (params : PhoenixMarketOrderParams) (w w' : World)
    → phoenix_place_market_order rt a hawkeye_program tail clock params w ≡ ok w'
    → Filled rt a hawkeye_program tail params w w'
unfolding phoenix_place_market_order
phoenix_place_market_order-Filled rt a hawkeye_program tail clock params w w' h =
    bind-elim (load _ _) _ h λ strategy found h₁.
      then-elim (check_phoenix_addresses _ _ _) _ h₁ λ addressed h₂.
        then-elim (constraint _) _ h₂ λ named h₃.
          bind-elim (load_config rt w _) _ h₃ λ config configured h₄.
            bind-elim (load_vault rt w _) _ h₄ λ vault held h₅.
              then-elim (validate_authority _ _) _ h₅ λ signed h₆.
                then-elim (check_order_status _ _ _) _ h₆ λ allowed h₇.
                  then-elim (check_trading rt _ _ _ _) _ h₇ λ traded h₈.
                    bind-elim (place_order rt _ _ _ _ _) _ h₈ λ placed sent h₉.
                      then-elim (validate _ _) _ h₉ λ filled h₁₀.
                        bind-elim (check_margin rt _ _ _ _) _ h₁₀ λ after margin last. record {
                          config = config;
                          vault = vault;
                          placed = placed.1;
                          response = placed.0;
                          configured = load_config-lookup rt w _ configured;
                          held = load_vault-lookup rt w _ held;
                          signed = authority_signs _ _ signed;
                          allowed = check_order_status-MayOrder _ _ _ allowed;
                          trader = check_trading-TraderOf rt a tail strategy w found traded;
                          matched = place_order-Matched rt a tail _ _ _ _ _ sent;
                          filled = validate-leb _ _ _ filled;
                          program = constraint-same _ _ named;
                          safe =
                              subst
                                (λ l.
                                  Safe rt (trading_cpi a tail) hawkeye_program a.perp_asset_map
                                    placed.1 l)
                                (ap (λ v. v.ledger) (ok-injective last))
                                (check_margin-Safe rt a tail _ _ _ margin);
                          within = subst (WithinTrading w) (ok-injective last) refl;
                        }

-- A limit order that went through.
pub record Rested (a : PhoenixTrading) (w w' : World) : Type 0 where
  pub config : Config
  pub vault : Vault
  pub allowed : Operational w a.config a.vault a.authority config vault
  pub safe : NotLiquidatable w'.ledger

pub phoenix_place_limit_order-Rested :
    (rt : Runtime) (a : PhoenixTrading) (hawkeye_program : Pubkey) (tail : List Pubkey)
    (clock : Clock) (params : PhoenixLimitOrderParams) (w w' : World)
    → phoenix_place_limit_order rt a hawkeye_program tail clock params w ≡ ok w'
    → Rested a w w'
unfolding phoenix_place_limit_order
phoenix_place_limit_order-Rested rt a hawkeye_program tail clock params w w' h =
    bind-elim (load _ _) _ h λ strategy found h₁.
      then-elim (check_phoenix_addresses _ _ _) _ h₁ λ addressed h₂.
        then-elim (constraint _) _ h₂ λ named h₃.
          bind-elim (load_operational rt _ _ _ _) _ h₃ λ both allowed h₄.
            then-elim (check_trading rt _ _ _ _) _ h₄ λ traded h₅.
              bind-elim (place_order rt _ _ _ _ _) _ h₅ λ placed sent h₆.
                bind-elim (check_margin rt _ _ _ _) _ h₆ λ after margin last. record {
                  config = both.0;
                  vault = both.1;
                  allowed = load_operational-Operational rt w _ _ _ allowed;
                  safe =
                      subst (λ l. NotLiquidatable l) (ap (λ v. v.ledger) (ok-injective last))
                        (check_margin-Safe rt a tail _ _ _ margin).answered;
                }
