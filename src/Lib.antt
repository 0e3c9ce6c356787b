-- ===== src/Lib.antt =====
-- Vortex protocol contracts: Soroban contracts with which users submit cross-chain swap intents and
-- bonded solvers deliver them.
--
-- Parts and how they interact. The settlement contract (intent_settlement/src/lib.rs) keeps intents,
-- solvers, bonds and counters; a call moves an intent between its states and pays tokens. It asks an
-- oracle (intent_settlement/src/oracle.rs) to weigh exposures, a solver registry for tiers, a proof
-- registry for source-chain proofs and a policy contract for permission: these answers are fields
-- of the environment `Env`, a parameter of every operation. Slashes are shared with the backstop
-- vault (backstop_vault/src/lib.rs), in which liquidity providers hold shares. The treasury pays
-- grants by vesting streams (treasury_streams/src/lib.rs). The timelock controller
-- (timelock/src/lib.rs) runs the calls of an operation after a delay. The
-- governor (governor/src/lib.rs) counts votes by recorded power and asks the timelock to run what
-- passed. The fee router (fee_router/src/lib.rs) shares fees among sinks. The arbiter panel
-- (arbiter_panel/src/lib.rs) decides disputes and tells the settlement contract. The proof registry
-- (proof_registry/src/lib.rs) turns verified cross-chain messages into proofs of deposits, and the
-- solver registry (solver_registry/src/lib.rs) keeps stakes, obligations, scores and tiers.
--
-- Files.
--   Base: numbers, results of calls, checked machine arithmetic, signed integers, contract storage
--     as association lists, prefixes of lists, division, token transfers.
--   Settlement/Types, Const, State: the records, the constants, the storage as one record, the
--     loaders. Bonds, Index, Chains: bond tables, the slash formula, the oracle's weights, the
--     solver's list of intents, source-chain names and proofs.
--   Settlement/Submit, Accept, Fill, Close, Slash, Dispute, Solvers, Extend, Prune: one function per
--     entry point, named as in the source; `X_checks` are its guards in order, `X_effects` its
--     writes.
--   Settlement/Success, Counts, Trace: what a successful call has found and written, the counters,
--     and the contract as a step relation. Slashing, Payouts, Timing, Access: the guarantees.
--   Common: vortex-common/src/lib.rs (Bps, Rounds). Math: intent_settlement/src/math.rs, the pure
--     copies of the contract's arithmetic (Formulas, Decode, Bounds, Encode, Agreement).
--   Timelock: timelock/src/lib.rs (Model), what its operations do (Runs) and its runs (Trace).
--   Router: fee_router/src/lib.rs (Model), the sink sets (Sinks), what a distribution credits
--     (Shares, Succeeds), the changes of weights (Runs).
--   Arbiters: arbiter_panel/src/lib.rs (State, Rounds), its majorities (Majority), what its loops do
--     (Success, Release, Verdicts), its runs (Runs), its locks and bonds (Locks, Solvency, Expiry).
--   Governor: governor/src/lib.rs (Power, Proposals), the search (Search), what its operations do
--     (Success), its runs (Runs, Tallies) and the snapshots of power (Snapshots).
--   Registry: proof_registry/src/lib.rs (Model), its strings (Hex), what a message does (Received),
--     its runs (Runs), replays (Replays) and the way of a deposit to a proof (Delivery).
--   Staking: solver_registry/src/lib.rs (State, Admin, Stakes), what its operations do (Changes,
--     Outcomes, Writes), its runs (Runs), the tokens behind the bonds (Backing), obligations
--     (Obligations), replayed writes (Once), tiers (Tiers) and scores (Scores).
--   Vault: Model, Success, Totals, Price. Streams: Model, Vesting, Success, Ids, Books, Behaviour.
--
-- Conventions. Addresses, tokens and identifiers are natural numbers. A call gives `ok`, a contract
-- error `err`, or `trap`: an overflow, a missing signature, an `unwrap` of nothing, a token call
-- that fails. The host rolls back a call that does not succeed, so failures carry no state.
-- Overflow checks are on in the build profile, so a sum that does not fit its type is a trap; an
-- i128 that only guarded code writes is a natural number, and one that may be negative an integer
-- (`Base.Int`). Token transfers are recorded in a log, the last one first; what a transfer into the
-- contract delivers is `received` of the environment. The list loops are structural recursion; the
-- one loop on fuel is the binary search of the governor, whose fuel is the number of checkpoints
-- and one, which `search-power_at` shows to be enough.
--
-- Where the source declares a function twice, the model follows the one its file names; where it
-- uses a constant or helper that it does not declare, the constant is a field of the environment and
-- the helper is left out. Left out too are time-to-live bumps, events, administration and timelocked
-- changes, bids, backstop claims, batches, outbound intents and paged views of the
-- settlement contract, and the contracts that no file here is about. So in the results on the
-- settlement contract a sequence of calls is one of the operations that `Settlement.Trace.Step`
-- lists: submitting, accepting, filling, slashing, cancelling, expiring and amending an intent, the
-- escrowed fills and their disputes, registering a solver, withdrawing a bond, leaving, extending a
-- deadline, deleting an old intent and setting how long it is kept. What is left out, pausing
-- included, is not among them. Of what is left out, batches write intents by the bodies of these
-- operations, and settle_bids only where it finds one in the state Bidding, which no call stores.
pub mod Base
pub mod Common
pub mod Math
pub mod Settlement
pub mod Streams
pub mod Vault
pub mod Timelock
pub mod Router
pub mod Arbiters
pub mod Governor
pub mod Registry
pub mod Staking
