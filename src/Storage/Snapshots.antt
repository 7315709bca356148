-- ===== src/Storage/Snapshots.antt =====
-- Snapshots of every tree of `NetworkStorage` (src/indexer/mod.rs, src/rewards.rs).
use hayate.Prelude.{ℕ, Option, List, [], ◌∷◌, ◌++◌, unwrap_or, if◌then◌else◌}
use hayate.Prelude.Text.{Text, codes}
use hayate.Prelude.Decimal.{show, show_padded}
use hayate.Result.{gets, ⊤, Exec, At, within, ◌>>◌}
use hayate.Externals.{Externals}
use hayate.Storage.State.{
  NetworkStorage, RewardsTracker, utxos, governance, nonces, chain_tips, address_utxos, address_txs,
  policy_txs, asset_txs, spent_utxos, block_events, block_hashes,
}

-- `format!("slot-{:020}", slot)`
unfoldable pub snapshot_name : ℕ → Text
snapshot_name slot = codes "slot-" ++ show_padded 20 slot

abbrev pub snapshot_label : ℕ → Text
snapshot_label slot = codes "Slot " ++ show slot

module _ ⦃X : Externals⦄ where
  open X use {Tree, save_snapshot, cleanup_directory}

  abbrev pub save : {S : Type 0} → At S Tree → ℕ → Exec S ⊤
  save f slot = within f (λ t. save_snapshot t (snapshot_name slot) (snapshot_label slot))

  abbrev pub reward_snapshots : At RewardsTracker Tree
  reward_snapshots = record { look = λ r. r.snapshots; put = λ t r. record r { snapshots = t } }

  abbrev pub withdrawals : At RewardsTracker Tree
  withdrawals = record { look = λ r. r.withdrawals; put = λ t r. record r { withdrawals = t } }

  abbrev pub delegations : At RewardsTracker Tree
  delegations = record { look = λ r. r.delegations; put = λ t r. record r { delegations = t } }

  abbrev pub rewards : At NetworkStorage RewardsTracker
  rewards = record { look = λ s. s.rewards_tracker; put = λ r s. record s { rewards_tracker = r } }

  -- `RewardsTracker::save_snapshot`
  unfoldable pub save_rewards_snapshot : ℕ → Exec RewardsTracker ⊤
  save_rewards_snapshot slot = do
    save reward_snapshots slot
    save withdrawals slot
    save delegations slot

  -- The balance tree has no snapshot.
  unfoldable pub save_all_snapshots : ℕ → Exec NetworkStorage ⊤
  save_all_snapshots slot = do
    save utxos slot
    save governance slot
    save nonces slot
    save chain_tips slot
    save address_utxos slot
    save address_txs slot
    save policy_txs slot
    save asset_txs slot
    save spent_utxos slot
    save block_events slot
    save block_hashes slot
    within rewards (save_rewards_snapshot slot)

  -- The directories that the cleanup visits, below the path of the network.
  cleaned_directories : List Text
  cleaned_directories =
      codes "utxos"
      ∷ codes "governance"
      ∷ codes "nonces"
      ∷ codes "chain_tip"
      ∷ codes "address_utxos"
      ∷ codes "address_txs"
      ∷ codes "policy_txs"
      ∷ codes "asset_txs"
      ∷ codes "spent_utxos"
      ∷ codes "block_events"
      ∷ codes "block_hash_index"
      ∷ codes "rewards/pool_stake"
      ∷ codes "rewards/wallet_rewards"
      ∷ codes "rewards/reward_snapshots"
      ∷ []

  -- The directories whose cleanup failed.
  cleanup_errors : Text → ℕ → List Text → List Text
  cleanup_errors path keep [] = []
  cleanup_errors path keep (sub ∷ rest) =
      let more = cleanup_errors path keep rest in
      if cleanup_directory (path ++ (codes "/" ++ sub)) keep then more else sub ∷ more

  -- The errors are logged only: the method returns `Ok` with the storage as it was.
  unfoldable pub cleanup_all_snapshots : Option ℕ → Exec NetworkStorage (List Text)
  unfolding cleanup_errors cleaned_directories
  cleanup_all_snapshots keep_latest =
      gets (λ s. cleanup_errors s.network_path (unwrap_or keep_latest 10) cleaned_directories)
