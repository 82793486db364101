-- ===== src/Accounts.antt =====
-- On-chain accounts: src/accounts/deserialize.ts and src/accounts/fetchers.ts.
pub mod Platform
pub mod Steps
pub mod Status
pub mod Pda
pub mod PullApproval
pub mod StreamMandate
pub mod VelaMandate
pub mod TokenConfig
pub mod AgentMandate
pub mod Anchor
pub mod Plans
pub mod Merchant
