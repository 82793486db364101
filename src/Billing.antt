-- ===== src/Billing.antt =====
-- Money: what a plan change costs and what a stream has accrued.
pub mod Proration
pub mod Accrued
pub mod Amount
pub mod Upgrade
