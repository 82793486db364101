-- ===== src/Tests.antt =====
-- Concrete inputs for the theorems: a small platform, accounts, budgets and calls.
mod Toy
mod Streams
mod Approvals
mod AgentMandates
mod Mandates
mod Tokens
mod Budgets
mod Nonces
mod Bills
mod Payments
mod Keepers
mod Upgrades
mod Plans
mod Addresses
mod StreamCalls
mod AnchorCalls
mod Clients
mod Merchants
mod AgentPayments
mod Subscriptions
mod Reports
