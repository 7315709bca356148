-- ===== src/Storage/Open.antt =====
-- Opening the storage of a network, each tree from its latest sound snapshot (src/indexer/mod.rs,
-- open_lsm_tree_with_snapshot and NetworkStorage::open; src/rewards.rs, RewardsTracker::open).
pub mod Laws
use hayate.Prelude.{ℕ, Option, none, some, List, [], ◌∷◌}
use hayate.Prelude.Text.{Text, codes}
use hayate.Prelude.Sorting.{sort, reverse, last, text_leb}
use hayate.Result.{Result, ok, err, Exec, ⊤, pure, ◌>>=◌, ◌>>◌}
use hayate.Externals.{Externals}
use hayate.FileSystem.{FileSystem, TreeFiles, join}
use hayate.Network.{Network, as_str}
use hayate.Storage.State.{NetworkStorage, RewardsTracker}
use hayate.Storage.Tips.{match_option}

-- `match m { Ok(a) => f(a), Err(_) => k }`
abbrev pub branch_on : {S A B : Type 0} → Result A → (A → Exec S B) → Exec S B → Exec S B
branch_on (ok a) f k = f a
branch_on (err e) f k = k

abbrev pub attempt : {S A B : Type 0} → Exec S A → (A → Exec S B) → Exec S B → Exec S B
attempt m f k s = let (r, s') = m s in branch_on r f k s'

module _ ⦃X : Externals⦄ ⦃F : FileSystem⦄ ⦃L : TreeFiles X F⦄ where
  open X use {Tree}
  open F use {Disk, remove_dir_all}
  open L use {
    open_tree, list_snapshots, open_snapshot, Snapshot, load, validate, delete_snapshot,
    open_monoidal,
  }

  -- A snapshot that is not sound is removed; a failure of that is logged only.
  abbrev pub skip_after : Exec Disk ⊤ → Exec Disk (Option Tree)
  skip_after remove d = (ok none, (remove d).1)

  -- One round of the loop over the snapshots.
  try_snapshot : Text → Text → Exec Disk (Option Tree)
  try_snapshot tree_path name =
      attempt (load tree_path name)
        (λ snapshot.
          attempt (validate snapshot)
            (λ _.
              attempt (open_snapshot tree_path name) (λ tree. pure (some tree))
                (skip_after (delete_snapshot snapshot)))
            (skip_after (delete_snapshot snapshot)))
        (skip_after (remove_dir_all (join (join tree_path (codes "snapshots")) name)))

  try_snapshots : Text → List Text → Exec Disk Tree
  try_snapshots tree_path [] = open_tree tree_path
  try_snapshots tree_path (name ∷ rest) = do
    found ← try_snapshot tree_path name
    match_option found (try_snapshots tree_path rest) λ tree. pure tree

  -- A list of no snapshots opens the tree anew too, before the sort.
  unfoldable pub open_lsm_tree_with_snapshot : Text → Exec Disk Tree
  unfolding try_snapshots try_snapshot
  open_lsm_tree_with_snapshot tree_path = do
    temp_tree ← open_tree tree_path
    snapshots ← list_snapshots temp_tree
    try_snapshots tree_path (reverse (sort text_leb snapshots))

  -- `rewards::get_latest_snapshot`: the greatest name.
  get_latest_snapshot : Text → Exec Disk (Option Text)
  get_latest_snapshot tree_path = do
    temp_tree ← open_tree tree_path
    snapshots ← list_snapshots temp_tree
    pure (last (sort text_leb snapshots))

  -- `rewards::open_lsm_tree_with_snapshot`, which checks no snapshot.
  open_rewards_tree : Text → Exec Disk Tree
  open_rewards_tree tree_path = do
    latest ← get_latest_snapshot tree_path
    match_option latest (open_tree tree_path) (open_snapshot tree_path)

  -- `RewardsTracker::open`
  unfoldable pub open_rewards : Text → ℕ → Exec Disk RewardsTracker
  unfolding open_rewards_tree get_latest_snapshot
  open_rewards path start_epoch = do
    snapshots ← open_rewards_tree (join path (codes "reward_snapshots"))
    withdrawals ← open_rewards_tree (join path (codes "withdrawals"))
    delegations ← open_rewards_tree (join path (codes "delegations"))
    pure (record {
      snapshots = snapshots;
      withdrawals = withdrawals;
      delegations = delegations;
      indexing_start_epoch = start_epoch;
    })

  -- `NetworkStorage::open`; the network itself is kept as the last part of its path.
  unfoldable pub open_storage : Text → Network → Exec Disk NetworkStorage
  unfolding open_rewards open_lsm_tree_with_snapshot
  open_storage base_path network = do
    let path = join base_path (as_str network)
    utxo_tree ← open_lsm_tree_with_snapshot (join path (codes "utxos"))
    balance_tree ← open_monoidal (join path (codes "balances"))
    governance_tree ← open_lsm_tree_with_snapshot (join path (codes "governance"))
    nonce_tree ← open_lsm_tree_with_snapshot (join path (codes "nonces"))
    chain_tip_tree ← open_lsm_tree_with_snapshot (join path (codes "chain_tip"))
    address_utxo_index ← open_lsm_tree_with_snapshot (join path (codes "address_utxos"))
    address_tx_index ← open_lsm_tree_with_snapshot (join path (codes "address_txs"))
    policy_tx_index ← open_lsm_tree_with_snapshot (join path (codes "policy_txs"))
    asset_tx_index ← open_lsm_tree_with_snapshot (join path (codes "asset_txs"))
    spent_utxo_index ← open_lsm_tree_with_snapshot (join path (codes "spent_utxos"))
    block_events_tree ← open_lsm_tree_with_snapshot (join path (codes "block_events"))
    block_hash_index ← open_lsm_tree_with_snapshot (join path (codes "block_hash_index"))
    rewards_tracker ← open_rewards (join path (codes "rewards")) 0
    pure (record {
      network_path = path;
      utxo_tree = utxo_tree;
      balance_tree = balance_tree;
      governance_tree = governance_tree;
      rewards_tracker = rewards_tracker;
      nonce_tree = nonce_tree;
      chain_tip_tree = chain_tip_tree;
      address_utxo_index = address_utxo_index;
      address_tx_index = address_tx_index;
      policy_tx_index = policy_tx_index;
      asset_tx_index = asset_tx_index;
      spent_utxo_index = spent_utxo_index;
      block_events_tree = block_events_tree;
      block_hash_index = block_hash_index;
      indexing_start_epoch = 0;
    })
