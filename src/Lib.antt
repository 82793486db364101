-- ===== src/Lib.antt =====
-- The core of the Vela SDK for recurring, streamed and agent payments on Solana: how it reads
-- accounts, judges budgets and payments, and computes money. The SDK is TypeScript in src/; the
-- program on the chain is not part of the repository.
--
-- The parts, and how they interact:
--   Prelude    names of the libraries, tests on numbers, lists, signed integers (`bigint`), results.
--   Errors     the errors that the readers of accounts throw; Translate is src/errors/translate.ts,
--              with its regular expressions as readers of a text.
--   Bytes      src/browser/bytes.ts: fixed-width little-endian integers over lists of bytes, with
--              their wrap-around (`u64_le`, `read_i64_le`), slices and discriminators. Every reader of
--              an account goes through these.
--   Accounts   src/accounts: Platform is what @solana/web3.js and SHA-256 offer, with their
--              documented laws in `IsLawful`; Pda is `PDAFactory`, and Pda/Seeds lists its
--              seeds for mandates of every kind; StreamMandate, VelaMandate,
--              PullApproval and TokenConfig are the readers of src/accounts/deserialize.ts, and
--              AgentMandate that of src/accounts/fetchers.ts. Each has a module Layout with the bytes
--              of the account, written field by field, against which the reader is proved. Anchor has
--              the readers of objects that Anchor has decoded, and Plans those of plans, with
--              src/accounts/subscribable-plan.ts; Merchant is the state of a
--              merchant. TokenConfig has also `resolveTokenConfig` and
--              `getTokenSymbol` of src/token, and TokenConfig/Enabled `getEnabledTokens`.
--   Budget     Window, Check and Pull are `computeResetWindow`, `checkAgentBudget`,
--              `verifyAgentMandate` and `validateAgentPull` over a network that is an argument;
--              Subscribe is `validateSubscribe` of src/validators/preflight.ts with its fetches,
--              Subscription the rest of that file, Afford `canAfford` of src/x402/client.ts.
--   X402       src/x402: NonceCache is src/x402/nonce-cache.ts with its two maps as association
--              lists (Dict); Proof is src/x402/proof.ts; Base58, Transaction, Verify and Middleware
--              are src/x402/server.ts, where `handle` is one request with the cache before and after
--              it, and Middleware/Once runs any number of requests one after another. Verify/Pays
--              says what a payment is by the fields of the transaction, and NonceCache/Status is the
--              state machine of one nonce, which the cache implements.
--              Client is `VelaPaymentHandler.fetch` of src/x402/client.ts, whose run is the list of
--              its requests and payments; Client/EndToEnd runs it against the middleware.
--   Billing    Proration is src/proration/preview.ts, Accrued src/accrued.ts, Amount
--              src/token/parse-amount.ts and format-amount.ts, Upgrade
--              src/builders/upgrade-builder.ts, which uses Proration and Amount.
--   Instructions  src/instructions: the types of @solana/web3.js and the writers of Node's Buffer;
--              Streams and PlanChanges build the instructions whose accounts and bytes the SDK writes
--              itself, and Idl has the tables of idl/vela_protocol.json for them, with the reading of
--              an instruction by such a table (`interpret`), which is their specification. Anchor has
--              the program as a parameter that lays out a call by names; Pulls (execute-pull.ts),
--              Agents (the agent mandates) and Subscriptions (subscribe.ts, cancel.ts, wrap.ts,
--              unwrap.ts and wrap-and-subscribe.ts) build such calls, as do Merchants (plans, usage
--              reports, and the configurations of keepers, tokens and the protocol) and Computations
--              (request-validation.ts and the like, with the addresses at Arcium).
--   Keeper     src/internal/usage-bridge.ts: the retry loop of the usage bridge.
--   Tests      the theorems at concrete inputs.
--
-- How the code is modelled: a function that throws returns a `Result`; state is passed explicitly,
-- so `consumeNonce` takes a cache and returns one; the clock is an argument, once for each time that
-- the code reads it where it matters (`Times`); an optional parameter is an `Option` whose default is
-- written out; a key is a type parameter with the operations of `Platform`; a text is a string where
-- it is only compared and the codes of its characters where it is parsed. `await` is left out: the
-- answers of the network are functions.
--
-- Bounds and fuel: `write_digits` of a number has one more step than the number, which is more than
-- its digits; `push_carry` has as many steps as the carry; `try_from` has the attempts that are left.
-- Each is proved to be enough where it is used. `bigint`s have no bound; lengths are natural numbers.
--
-- Not modelled: the sending of transactions (src/client.ts), fund-authority.ts of src/instructions,
-- which only calls a library, the encryption of usage (src/usage.ts), the decoding of events and
-- webhooks (src/events, src/helius), base64 and JSON, the command line (cli), generated code and the
-- IDL; and, of the parts above, the fallbacks to an Anchor fetcher, the readers of its objects for
-- the protocol and tokens, and the texts of errors but where the code looks into them.
pub mod Accounts
pub mod Billing
pub mod Budget
pub mod Bytes
pub mod Errors
pub mod Instructions
pub mod Keeper
pub mod Prelude
pub mod Tests
pub mod X402
