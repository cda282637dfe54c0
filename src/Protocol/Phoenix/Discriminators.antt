-- ===== src/Protocol/Phoenix/Discriminators.antt =====
-- The discriminators of protocol/phoenix.rs: of instructions, of accounts, and of a return value.
use programs.Prelude.{ℕ, List, [], ◌∷◌}

abbrev pub register_trader : List ℕ
register_trader = 75 ∷ 243 ∷ 224 ∷ 167 ∷ 1 ∷ 5 ∷ 51 ∷ 32 ∷ []

abbrev pub deposit_funds : List ℕ
deposit_funds = 202 ∷ 39 ∷ 52 ∷ 211 ∷ 53 ∷ 20 ∷ 250 ∷ 88 ∷ []

abbrev pub withdraw_funds : List ℕ
withdraw_funds = 241 ∷ 36 ∷ 29 ∷ 111 ∷ 208 ∷ 31 ∷ 104 ∷ 217 ∷ []

abbrev pub place_market_order : List ℕ
place_market_order = 90 ∷ 118 ∷ 192 ∷ 252 ∷ 192 ∷ 99 ∷ 39 ∷ 145 ∷ []

abbrev pub place_limit_order : List ℕ
place_limit_order = 108 ∷ 176 ∷ 33 ∷ 186 ∷ 146 ∷ 229 ∷ 1 ∷ 197 ∷ []

abbrev pub cancel_all : List ℕ
cancel_all = 98 ∷ 191 ∷ 75 ∷ 220 ∷ 115 ∷ 40 ∷ 71 ∷ 237 ∷ []

abbrev pub cancel_up_to : List ℕ
cancel_up_to = 26 ∷ 209 ∷ 244 ∷ 253 ∷ 59 ∷ 175 ∷ 227 ∷ 54 ∷ []

abbrev pub cancel_orders_by_id : List ℕ
cancel_orders_by_id = 234 ∷ 204 ∷ 126 ∷ 94 ∷ 222 ∷ 22 ∷ 141 ∷ 24 ∷ []

abbrev pub ember_deposit : List ℕ
ember_deposit = 242 ∷ 35 ∷ 198 ∷ 137 ∷ 82 ∷ 225 ∷ 242 ∷ 182 ∷ []

abbrev pub ember_withdraw : List ℕ
ember_withdraw = 183 ∷ 18 ∷ 70 ∷ 156 ∷ 148 ∷ 109 ∷ 161 ∷ 34 ∷ []

abbrev pub hawkeye_view_margin : List ℕ
hawkeye_view_margin = 178 ∷ 10 ∷ 124 ∷ 173 ∷ 236 ∷ 210 ∷ 117 ∷ 6 ∷ []

abbrev pub global_configuration : List ℕ
global_configuration = 37 ∷ 146 ∷ 212 ∷ 210 ∷ 47 ∷ 136 ∷ 111 ∷ 20 ∷ []

abbrev pub trader : List ℕ
trader = 41 ∷ 97 ∷ 73 ∷ 105 ∷ 110 ∷ 214 ∷ 112 ∷ 9 ∷ []

abbrev pub global_trader_index : List ℕ
global_trader_index = 145 ∷ 92 ∷ 169 ∷ 6 ∷ 5 ∷ 144 ∷ 1 ∷ 205 ∷ []

abbrev pub active_trader_buffer : List ℕ
active_trader_buffer = 192 ∷ 255 ∷ 205 ∷ 165 ∷ 80 ∷ 154 ∷ 131 ∷ 5 ∷ []

abbrev pub view_margin_return_magic : List ℕ
view_margin_return_magic = 63 ∷ 37 ∷ 255 ∷ 61 ∷ 157 ∷ 91 ∷ 95 ∷ 149 ∷ []
