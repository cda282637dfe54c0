-- ===== src/Protocol/Phoenix/Calls.antt =====
-- The calls of protocol/phoenix.rs: Phoenix itself, Hawkeye's margin view, and Ember, which wraps USDC.
use programs.Prelude.{ℕ, Bool, true, false, Option, List, [], ◌∷◌, ◌++◌, map, ◌==◌}
use programs.Errors.{Result, ok, ◌>>=◌, ◌>>◌, validate, invalid_phoenix_account}
use programs.Vault.{Pubkey}
use programs.Seeds.{Seed, bytes, key_bytes, to_le_bytes}
use programs.Runtime.{Runtime, Ledger, AccountMeta, new, new_readonly}
use programs.Protocol.Phoenix.{
  phoenix_program_id, hawkeye_program_id, ember_program_id, trader_pda_index,
  trader_subaccount_index,
}
use programs.Protocol.Phoenix.Discriminators
use programs.Protocol.Phoenix.Packets.{
  OrderPacket, PhoenixCancelMode, option_bytes, instruction_data, order_data, cancel_data,
  register_trader_data,
}
use programs.Protocol.Phoenix.Accounts.{PhoenixGlobalConfig, validate_account}
use programs.Protocol.Phoenix.Returns.{
  MatchingEngineResponse, from_return_data, returned_by, parse_is_liquidatable,
}

abbrev pub trader_tag : Seed
trader_tag = bytes "trader"

abbrev pub spline_tag : Seed
spline_tag = bytes "spline"

pub record PhoenixMarket : Type 0 where
  pub perp_asset_map : Pubkey
  pub orderbook : Pubkey
  pub spline_collection : Pubkey

pub record PhoenixCpi : Type 0 where
  pub phoenix_program : Pubkey
  pub log_authority : Pubkey
  pub global_config : Pubkey
  pub trader : Pubkey
  pub trader_account : Pubkey
  pub tail : List Pubkey

pub record EmberCpi : Type 0 where
  pub ember_program : Pubkey
  pub trader : Pubkey
  pub ember_state : Pubkey
  pub usdc_mint : Pubkey
  pub canonical_mint : Pubkey
  pub trader_usdc_account : Pubkey
  pub trader_canonical_account : Pubkey
  pub ember_vault : Pubkey
  pub token_program : Pubkey

-- The accounts of a call: metas and infos. `prefix` and `extend_tail` build both lists.
unfoldable pub prefix : PhoenixCpi → List AccountMeta × List Pubkey
prefix self = (
  (new_readonly self.phoenix_program false
      ∷ new_readonly self.log_authority false
      ∷ new self.global_config false
      ∷ new_readonly self.trader true
      ∷ []),
  (self.phoenix_program ∷ self.log_authority ∷ self.global_config ∷ self.trader ∷ []),
)

abbrev pub writable : List Pubkey → List AccountMeta
writable keys = map (λ k. new k false) keys

abbrev pub readable : List Pubkey → List AccountMeta
readable keys = map (λ k. new_readonly k false) keys

module _ (rt : Runtime) where
  unfoldable pub trader_address : Pubkey → Pubkey
  trader_address authority =
      rt.find_address_under phoenix_program_id
        (trader_tag ∷ key_bytes authority ∷ (trader_pda_index ∷ trader_subaccount_index ∷ []) ∷ [])

  unfoldable pub spline_collection_address : Pubkey → Pubkey
  spline_collection_address orderbook =
      rt.find_address_under phoenix_program_id (spline_tag ∷ key_bytes orderbook ∷ [])

  -- `PhoenixMarket::validate`
  unfoldable pub validate_market : PhoenixMarket → PhoenixGlobalConfig → Result (Unit {0})
  validate_market self global_config = do
    validate_account global_config.perp_asset_map self.perp_asset_map
    validate (self.spline_collection == spline_collection_address self.orderbook)
        invalid_phoenix_account

  -- `PhoenixCpi::invoke`
  unfoldable pub invoke_phoenix :
      List AccountMeta → List Pubkey → List ℕ → List Seed → Ledger → Result Ledger
  invoke_phoenix accounts account_infos content signer_seeds l =
      rt.invoke_signed
        (record {
          program_id = phoenix_program_id;
          accounts = accounts;
          instruction_data = content;
        })
        account_infos signer_seeds l

  -- `payer` and the system program; the call is not signed by the vault.
  unfoldable pub register_trader :
      PhoenixCpi → (payer system_program : Pubkey) → Ledger → Result Ledger
  register_trader self payer system_program l =
      invoke_phoenix
        (new_readonly self.phoenix_program false
          ∷ new_readonly self.log_authority false
          ∷ new_readonly self.global_config false
          ∷ new payer true
          ∷ new_readonly self.trader false
          ∷ new self.trader_account false
          ∷ new_readonly system_program false
          ∷ [])
        (self.phoenix_program ∷ self.log_authority ∷ self.global_config ∷ payer ∷ self.trader
          ∷ self.trader_account ∷ system_program ∷ [])
        register_trader_data [] l

  unfoldable pub deposit_funds :
      PhoenixCpi
      → (trader_token_account global_vault token_program : Pubkey) → ℕ
      → List Seed
      → Ledger
      → Result Ledger
  deposit_funds self trader_token_account global_vault token_program amount signer_seeds l =
      invoke_phoenix
        ((prefix self).0
          ++ (new trader_token_account false
              ∷ new self.trader_account false
              ∷ new global_vault false
              ∷ new_readonly token_program false
              ∷ writable self.tail))
        ((prefix self).1
          ++ (trader_token_account ∷ self.trader_account ∷ global_vault ∷ token_program
              ∷ self.tail))
        (instruction_data Discriminators.deposit_funds (to_le_bytes 8 amount)) signer_seeds l

  unfoldable pub withdraw_funds :
      PhoenixCpi
      → (perp_asset_map global_vault trader_token_account token_program withdraw_queue : Pubkey) → ℕ
      → List Seed
      → Ledger
      → Result Ledger
  withdraw_funds self perp_asset_map global_vault trader_token_account token_program withdraw_queue
        amount signer_seeds l =
      invoke_phoenix
        ((prefix self).0
          ++ (new self.trader_account false
              ∷ new perp_asset_map false
              ∷ new global_vault false
              ∷ new trader_token_account false
              ∷ new_readonly token_program false
              ∷ (writable self.tail ++ (new withdraw_queue false ∷ []))))
        ((prefix self).1
          ++ (self.trader_account
              ∷ perp_asset_map
              ∷ global_vault
              ∷ trader_token_account
              ∷ token_program
              ∷ (self.tail ++ (withdraw_queue ∷ []))))
        (instruction_data Discriminators.withdraw_funds (to_le_bytes 8 amount)) signer_seeds l

  unfoldable pub market_action :
      PhoenixCpi → PhoenixMarket → List ℕ → List Seed → Ledger → Result Ledger
  market_action self market content signer_seeds l =
      invoke_phoenix
        ((prefix self).0
          ++ (new self.trader_account false
              ∷ new market.perp_asset_map false
              ∷ (writable self.tail
                  ++ (new market.orderbook false ∷ new market.spline_collection false ∷ []))))
        ((prefix self).1
          ++ (self.trader_account
              ∷ market.perp_asset_map
              ∷ (self.tail ++ (market.orderbook ∷ market.spline_collection ∷ []))))
        content signer_seeds l

  unfoldable pub place_order :
      PhoenixCpi
      → PhoenixMarket
      → OrderPacket
      → List Seed
      → Ledger
      → Result (MatchingEngineResponse × Ledger)
  place_order self market packet signer_seeds l = do
    l' ← market_action self market (order_data packet) signer_seeds l
    response ← from_return_data l'.return_data
    ok (response, l')

  unfoldable pub cancel_orders :
      PhoenixCpi → PhoenixMarket → PhoenixCancelMode → List Seed → Ledger → Result Ledger
  cancel_orders self market mode signer_seeds l = do
    content ← cancel_data mode
    market_action self market content signer_seeds l

  -- The view is a call too: it leaves its answer as return data.
  unfoldable pub is_liquidatable :
      PhoenixCpi → (hawkeye_program perp_asset_map : Pubkey) → Ledger → Result (Bool × Ledger)
  is_liquidatable self hawkeye_program perp_asset_map l = do
    l' ←
        rt.invoke_signed
          (record {
            program_id = hawkeye_program_id;
            accounts =
                new_readonly self.phoenix_program false
                ∷ new_readonly self.global_config false
                ∷ (readable self.tail
                    ++ (new_readonly perp_asset_map false
                        ∷ new_readonly self.trader_account false
                        ∷ []));
            instruction_data = Discriminators.hawkeye_view_margin;
          })
          (hawkeye_program
            ∷ self.phoenix_program
            ∷ self.global_config
            ∷ (self.tail ++ (perp_asset_map ∷ self.trader_account ∷ [])))
          [] l
    answer ← returned_by hawkeye_program_id l'.return_data
    liquidatable ← parse_is_liquidatable answer
    ok (liquidatable, l')

  -- `EmberCpi::invoke`
  unfoldable pub invoke_ember : EmberCpi → List ℕ → List Seed → Ledger → Result Ledger
  invoke_ember self content signer_seeds l =
      rt.invoke_signed
        (record {
          program_id = ember_program_id;
          accounts =
              new_readonly self.trader true
              ∷ new_readonly self.ember_state false
              ∷ new_readonly self.usdc_mint false
              ∷ new self.canonical_mint false
              ∷ new self.trader_usdc_account false
              ∷ new self.trader_canonical_account false
              ∷ new self.ember_vault false
              ∷ new_readonly self.token_program false
              ∷ [];
          instruction_data = content;
        })
        (self.ember_program ∷ self.trader ∷ self.ember_state ∷ self.usdc_mint ∷ self.canonical_mint
          ∷ self.trader_usdc_account ∷ self.trader_canonical_account ∷ self.ember_vault
          ∷ self.token_program ∷ [])
        signer_seeds l

  unfoldable pub ember_deposit : EmberCpi → ℕ → List Seed → Ledger → Result Ledger
  ember_deposit self amount signer_seeds l =
      invoke_ember self (instruction_data Discriminators.ember_deposit (to_le_bytes 8 amount))
        signer_seeds l

  unfoldable pub ember_withdraw : EmberCpi → Option ℕ → List Seed → Ledger → Result Ledger
  ember_withdraw self amount signer_seeds l =
      invoke_ember self (instruction_data Discriminators.ember_withdraw (option_bytes amount))
        signer_seeds l
