-- ===== src/Protocol.antt =====
-- programs/hedge_vault/src/protocol: the data formats and the calls of the programs that vaults trade on.
pub mod Jupiter
pub mod Phoenix
pub mod Dlmm
