-- ===== src/Protocol/Phoenix.antt =====
-- protocol/phoenix.rs: its constants. Packets has the instruction data, Accounts the accounts that are
-- read, Returns what the called programs return, Calls the calls.
pub mod Discriminators
pub mod Packets
pub mod Accounts
pub mod Returns
pub mod Calls
use programs.Prelude.{ℕ, ◌+◌, ◌^◌}
use programs.Vault.{Pubkey}

abbrev pub phoenix_program_id : Pubkey
phoenix_program_id =
    60_833_785_836_287_891_998_356_989_019_860_424_732_298_649_444_061_468_918_067_246_672_784_752_275_662

abbrev pub phoenix_log_authority : Pubkey
phoenix_log_authority =
    74_974_598_772_322_573_329_372_867_614_780_705_645_272_744_801_924_128_997_636_823_143_447_687_223_272

abbrev pub phoenix_global_configuration : Pubkey
phoenix_global_configuration =
    91_493_182_335_393_371_111_365_324_282_506_672_439_956_571_741_165_456_283_620_123_500_699_230_121_757

abbrev pub hawkeye_program_id : Pubkey
hawkeye_program_id =
    9_360_950_940_449_260_885_225_019_262_067_124_480_627_626_123_059_672_438_182_024_499_659_992_224_774

abbrev pub ember_program_id : Pubkey
ember_program_id =
    90_645_907_796_659_164_264_384_398_724_655_512_389_720_236_074_141_525_405_782_381_376_467_776_656_326

abbrev pub ember_state : Pubkey
ember_state =
    105_748_556_789_036_597_355_642_917_267_722_627_051_881_544_488_134_758_376_589_758_911_653_639_738_455

abbrev pub ember_vault : Pubkey
ember_vault =
    8_295_524_160_459_156_671_879_371_106_128_895_646_861_309_702_051_509_971_238_856_792_831_188_125_652

abbrev pub usdc_mint : Pubkey
usdc_mint =
    44_038_989_332_232_875_767_728_230_833_221_784_800_016_657_929_639_790_580_194_199_162_493_425_351_366

-- A vault registers one trader account, index (0, 0).
abbrev pub trader_pda_index : ℕ
trader_pda_index = 0

abbrev pub trader_subaccount_index : ℕ
trader_subaccount_index = 0

abbrev pub trader_max_positions : ℕ
trader_max_positions = 128

-- The flags of an onboarded trader: it may place market orders, deposit and withdraw.
abbrev pub trader_ready_flags : ℕ
trader_ready_flags = 2 ^ 2 + 2 ^ 4 + 2 ^ 5

abbrev pub max_cancel_order_ids : ℕ
max_cancel_order_ids = 100
