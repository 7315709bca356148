-- ===== src/Lib.antt =====
-- hayate indexes the Cardano chain for a set of wallets. This library models its indexer: the block
-- processor takes blocks, keeps the UTxOs, balances, address index, histories and events of the
-- tracked addresses in LSM trees, and undoes blocks when the chain rolls back.
--
-- The parts, and how they interact:
-- - src/indexer/block_processor.rs, `BlockProcessor`: Processor/State.antt has its state and its keys,
--   Processor/Transaction.antt the methods for one transaction, Processor/Entry.antt the balance and
--   the index entry of one UTxO, Processor/Block.antt `process_block` and the set-up, and
--   Processor/Rollback.antt `rollback_to` and `rollback_block`. It calls the storage handle only.
--   `WalletFilter` is in Filter.antt.
-- - src/indexer/storage_manager.rs: Manager.antt has the commands, the task that owns the storage and
--   serves them, and Handle.antt the methods of `StorageHandle`. A command is indexed by the type of
--   its reply, and a call is a step of the manager.
-- - src/indexer/mod.rs, `NetworkStorage`: Storage/State.antt has the trees, Storage/Tips.antt tips,
--   nonces and block metadata, Storage/Indexes.antt the indexes, Storage/Snapshots.antt snapshots
--   (with `save_snapshot` of src/rewards.rs), and Storage/Open.antt the opening of all trees, each
--   from its latest sound snapshot. `Network` is in Network.antt.
-- - src/indexer/block_walker.rs: BlockWalker.antt has the walk along the stored block metadata, over
--   the storage handle.
-- - src/snapshot_manager.rs: SnapshotTimer.antt has the timing of snapshots, and SnapshotFiles.antt
--   their names, the latest one, the removal of old ones and the restore.
-- - src/rewards.rs: Rewards.antt has `RewardsTracker`, which the network storage holds. Its children
--   are the theorems on balances, withdrawals and delegations.
-- - src/rewards_calculation.rs: RewardsCalculation.antt has the pots of an epoch and the rewards of a
--   pool.
-- - src/wallet/unified_tx/builder.rs: Wallet/Selection.antt has `select_coins`, the choice of the inputs
--   of a transaction, Wallet/Transaction.antt `build_tx_internal` and its types, and Wallet/Fees.antt
--   `build` with its fee loop. What the node answers for the protocol parameters, the address for the
--   change and the encoding of what `PlutusTransactionBuilder` is told are parameters.
-- - src/protocol_params.rs: ProtocolParams.antt has the least fee and the least value of an output.
-- Externals.antt has the other crates as parameters: the trees, JSON, hexadecimal, and the decoding of
-- blocks and addresses (Chain.antt). `Reliable` states what is relied on where nothing fails. The
-- trees, the codec and the laws have a concrete instance in Sample.antt, which Tests.antt and the
-- modules below it use for examples. Result.antt has the monad of methods that change an object and
-- may fail, and Json.antt the JSON values. What is written before an error stays written.
-- FileSystem.antt has the calls of the file system and of the trees' files, which change a disk, with
-- the laws of directories (`Readable`) and of snapshots (`Sound`). `Bincode` with `Decodes` in
-- Rewards.antt and `Rationals` with `Exact` in RewardsCalculation.antt are further crates.
-- Sample/Disk.antt and Sample/Records.antt have instances of these.
--
-- Processor/Ledger.antt is the abstract view: a map from UTxO keys to data, what it holds for each
-- address, and when the trees agree with it. Processor/Undo.antt states when the work on a block can
-- be undone. Both range over a list of keys in which every UTxO key stands once.
--
-- Bounds: numbers are unbounded, with `% 2 ^ 64` where a `u64` sum may wrap in a release build. The
-- deletion of events runs for at most 100000 rounds, as the source does, and the fee
-- loop of `build` for three. No other loop has fuel.
--
-- Choices: the rollback buffer has its newest block first. A hash set is a list in the order of
-- insertion. A clock is read by the caller and handed in. Logging is left out. In the storage manager
-- the cleanup of a directory is a parameter that says whether it succeeds; SnapshotFiles.antt has the
-- cleanup itself. A panic of the ratios is none. Names of networks are ASCII.
--
-- Not modelled: the rest of the wallets, the gRPC services, the node's network protocols and
-- storage, the immutable chain files, most protocol parameters, configuration and command lines.
pub mod Prelude
pub mod Result
pub mod Json
pub mod BlockWalker
pub mod Chain
pub mod Externals
pub mod Storage
pub mod Manager
pub mod Network
pub mod Handle
pub mod FileSystem
pub mod Filter
pub mod SnapshotFiles
pub mod SnapshotTimer
pub mod Processor
pub mod Rewards
pub mod RewardsCalculation
pub mod Sample
pub mod Tests
pub mod Wallet
pub mod ProtocolParams
