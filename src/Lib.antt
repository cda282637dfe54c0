-- ===== src/Lib.antt =====
-- hedge_vault: a Solana program for managed vaults (programs/hedge_vault/src). Depositors and
-- withdrawers put requests into escrow; a keeper posts the assets of a vault once an epoch; the
-- program derives the NAV of a share, accrues the fees as shares, and settles the requests at the
-- first NAV posted after them. An admin configures the protocol and a manager its vault.
--
-- The files, each with the code that it models:
--
-- - Errors, Constants, SafeMath, Seeds: error.rs, constants.rs, and of utils/ the files
--   safe_math.rs, validate.rs, seeds.rs. Error codes keep their names; an error that the framework
--   or another program raises is a constructor beside them.
-- - Vault: state/vault.rs, with children for its sections: Nav (update_nav, cut where the source
--   branches), Requests (request_, cancel_ and resolve_ of deposits and withdrawals) and Fees
--   (update_fees, apply_pending_fees, the claims). A method that mutates self returns the new
--   vault. Vault/Invariant has the predicates, and Vault/Nav/, Vault/Requests/ and Vault/Fees/
--   what is proved.
-- - Config, Manager, DepositRequest, WithdrawalRequest: the files of state/ so named.
-- - Runtime: what the program calls, as the fields of a record: address derivation, rent, the
--   system program and the token programs, over a ledger of balances.
-- - Payout: utils/token.rs, utils/payout.rs and utils/system.rs.
-- - World, Accounts: the accounts of the program by address, as association lists.
-- - Instructions: Deposits, Withdrawals, Navs and Settings have the handlers of instructions/,
--   each with the account constraints of its struct, as functions from a world to a new world or
--   an error.
-- - Strategy: state/strategy.rs. Instructions/Strategies: the instructions on strategies, by
--   protocol, and vault_close_strategy.
-- - Protocol: Jupiter and Phoenix, from protocol/jupiter.rs and protocol/phoenix.rs: what is
--   read of the data and the accounts of these programs, the bytes that are sent to them, and the
--   order of the accounts. Dlmm is the generated client of the Meteora program, a record of
--   operations.
-- - Instructions/Lifecycle, Instructions/Migration: configurations, managers and vaults that
--   begin and end; config_migrate works on the bytes of the account.
-- - Bytes: byte strings, slices and little-endian numbers.
-- - Entry: lib.rs, an instruction with its accounts and arguments, and the handler that it goes
--   to.
-- - Prelude: Boolean tests and integers over the native numbers.
-- - System: the instructions together. Effects reads off a handler what it did to the accounts;
--   Books, Balanced and Steps have the books of pending requests and open strategies, the
--   successful instructions of any entry point as steps, and sequences of them; Ledgers has the
--   abstract books that Steps/Refinement holds the program against; Guards, Phases, Pricing and
--   Settings who may run an instruction, when, and what it may change.
--
-- Numbers: a u8 to u128 is a number, kept in range by the checks that the source makes, which take
-- the width; an i64 is an integer. No function of the model needs fuel.
--
-- After an error the runtime discards all changes, so that an error carries no state. Log events,
-- reserved bytes and padding are left out. A `Signer` account and the owner check of a typed
-- account are taken as made by the framework.
--
-- Not modelled: events.rs, the log records; the reading of instruction arguments, which the
-- framework generates; and everything on the client side. A call of another program is a parameter
-- of Runtime or Dlmm, which may change the ledger in any way or fail; no property assumes more of
-- it.
pub mod Prelude
pub mod Errors
pub mod Constants
pub mod SafeMath
pub mod Vault
pub mod Config
pub mod Manager
pub mod DepositRequest
pub mod WithdrawalRequest
pub mod Strategy
pub mod Seeds
pub mod Bytes
pub mod Accounts
pub mod Runtime
pub mod Payout
pub mod Protocol
pub mod World
pub mod Instructions
pub mod Entry
pub mod System
