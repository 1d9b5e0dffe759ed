-- ===== src/Lib.antt =====
-- A model of vtt, a proof-of-stake chain for tokenised assets, written in Rust. What is modelled:
--
-- Primitives is crates/vtt-primitives. Addresses and hashes are the numbers their bytes stand for,
-- texts are lists of bytes; an `Amount` is a number below 2^128, with the checked operations and the
-- panicking `+` and `-`. AssetGovernance is asset_governance.rs.
-- State is crates/vtt-state/src/{account, asset, statedb, oracle}.rs. `StateDb` is the struct
-- `StateDB` less the fields that no modelled operation reads, with no storage backend, so that the
-- maps serve every read: `get_account` has no fall-through to storage, and `restore` no writes to it,
-- so that what a rolled back transaction leaves on disk is outside the model. A `HashMap` is an association list (Prelude/Map), a `HashSet` a list without
-- repetition (Prelude/Sets); a loop over one of them takes the order of the list. What statedb.rs
-- keeps as bytes in its column of metadata (parameters of the chain, KYC approvals, jurisdictions,
-- processed deposits) is a field of its own. State.Db, Staking, Params and Snapshot hold the
-- operations under their Rust names: Staking those on stake, unbonding, missed slots and slashing,
-- Params those on metadata, Snapshot the rollback; Oracle is oracle.rs. Balances, Transfers, Assets,
-- Holders, Value, Release and Oracle.Median are about them.
-- Dex is crates/vtt-dex. Math is math.rs: 256-bit products, quotients and square roots on pairs of
-- 128-bit words, bit by bit, and the swap formulas. Pool is pool.rs with the store of a pool;
-- Quote, Swap, Shares, Liquidity, Revenue and Tokens are swap.rs, liquidity.rs and revenue.rs, and
-- Mining is mining.rs. An operation is a call on the state that can fail (Prelude/Action), which
-- keeps what was written before an error; what it computes without the state stands apart, in Quote
-- and Shares.
-- Consensus is crates/vtt-consensus. Finality is finality.rs, Rewards rewards.rs and Slashing
-- slashing.rs; Governance is governance.rs, with its state in Governance.System; Validators and
-- Engine are validator.rs and engine.rs. The stable sort of the election is an insertion sort.
-- Executor is crates/vtt-executor/src/lib.rs. Run is `execute_transaction_at` and
-- `execute_block_transactions_at`: the checks of a transaction, its gas and fee, the snapshot, the
-- action and the rollback, the receipt; Dispatch is `execute_action`. The handlers `execute_...`
-- stand in Stake, Assets, Redemption (with the distribution of revenue), Proposals, Bridge, Feeds
-- and Evidence, each with what is proved of it in its child modules; Rewards is
-- `distribute_producer_reward` with the rewards and fees of a block. Logs and the texts of errors
-- are left out: an error with a text is `custom`.
-- TxPool is crates/vtt-txpool/src/lib.rs. An `Instant` is a number of nanoseconds and the clock an
-- argument; Index and Add are about the two indexes of the pool.
-- Multichain is crates/vtt-multichain/src/messaging.rs; Window is the contract of its inbox.
--
-- The operations of Dex call those of State, which they take as they are; a swap reads its pool
-- from the state database, computes a quote, moves the two tokens and writes the pool back. The
-- handlers of the executor call State, Dex and Consensus on one state database, and the executor
-- restores its snapshot when a handler fails.
--
-- Machine integers are natural numbers. `+`, `-` and `*` on `u128` wrap around, as they do in a
-- release build; `checked_` operations return an option; a panic is an outcome of its own.
--
-- Loops on fuel: `newton`, the loop of `sqrt_u128`, gets its argument as fuel, and `newton_u256`
-- its first estimate, since every round lowers the estimate. The loops of `div_u128` are over 128
-- bits. Trimming the prefix of a feed type gets the length of the text, since every round drops a
-- byte of it.
--
-- Parameters: the BLAKE3 hash, and the hashes of borsh encodings; the borsh encodings of a pool, of
-- which a decoding of what was encoded is assumed to give the pool back, of a mining state and of a
-- header; the decoding of slashing evidence; the address of a public key; the check of a signature;
-- the voting period of proposals, which the environment may set; and the actions on contracts and
-- on proposals of the chain, which the executor runs by `other_action`.
--
-- Not modelled: storage, networking, RPC, the WebAssembly engine and the programs, which are input
-- and output or call third-party crates; the contracts and the Solidity bridge; the executor's steps
-- on proposals of the chain and on contracts; and the state trie, compliance, the registry and
-- the shared security of the chains, the crate of the chain, and the Merkle root of the outbox.
pub mod Prelude
pub mod Primitives
pub mod State
pub mod Dex
pub mod Consensus
pub mod Executor
pub mod TxPool
pub mod Multichain
