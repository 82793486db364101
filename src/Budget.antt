-- ===== src/Budget.antt =====
-- Agent budgets: `computeResetWindow`, `clampRemaining`, `checkAgentBudget` and
-- `verifyAgentMandate` of src/accounts/fetchers.ts, and `validateAgentPull` of
-- src/validators/preflight.ts.
pub mod Window
pub mod Reasons
pub mod Check
pub mod Pull
pub mod Subscription
pub mod Subscribe
pub mod Afford
