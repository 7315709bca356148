-- ===== src/Manager.antt =====
-- The storage manager (src/indexer/storage_manager.rs): a task that owns the storage and serves
-- one command at a time. A command is indexed by what its reply channel carries.
pub mod Laws
pub mod Queries
use hayate.Prelude.{ℕ, Bool, true, false, Option, none, some, List, [], ◌∷◌, if◌then◌else◌}
use hayate.Prelude.Text.{Bytes, Text}
use hayate.Prelude.Utf8.{from_utf8}
use hayate.Result.{
  Result, ok, err, storage_not_available, channel_closed, ⊤, Exec, pure, lift, gets, ◌>>=◌, ◌>>◌,
  within,
}
use hayate.Externals.{Externals}
use hayate.Storage.State.{
  ChainTip, BlockMetadata, NetworkStorage, read, write, remove, utxos, spent_utxos, block_events,
  balances,
}
use hayate.Storage.Tips
use hayate.Storage.Indexes
use hayate.Storage.Snapshots

-- The commands that read or change the storage and reply with a `Result`.
pub data StorageCommand : Type 0 → Type 1 where
  store_chain_tip : ℕ → Bytes → ℕ → StorageCommand ⊤
  get_chain_tip : StorageCommand (Option ChainTip)
  store_wallet_tip : Text → ℕ → Bytes → ℕ → StorageCommand ⊤
  get_wallet_tip : Text → StorageCommand (Option ChainTip)
  get_min_wallet_tip : List Text → StorageCommand (Option ChainTip)
  get_utxo : Text → StorageCommand (Option Bytes)
  get_utxos_for_address : Text → StorageCommand (List Text)
  insert_utxo : Text → Bytes → StorageCommand ⊤
  delete_utxo : Text → StorageCommand ⊤
  get_balance : Text → StorageCommand ℕ
  update_balance : Text → ℕ → StorageCommand ⊤
  add_utxo_to_address_index : Text → Text → StorageCommand ⊤
  remove_utxo_from_address_index : Text → Text → StorageCommand ⊤
  add_tx_to_address_history : Text → Text → StorageCommand ⊤
  get_tx_history_for_address : Text → StorageCommand (List Text)
  add_tx_to_policy_index : Text → Text → StorageCommand ⊤
  get_txs_for_policy : Text → StorageCommand (List Text)
  add_tx_to_asset_index : Text → Text → Text → StorageCommand ⊤
  get_txs_for_asset : Text → Text → StorageCommand (List Text)
  insert_spent_utxo : Text → Bytes → StorageCommand ⊤
  delete_spent_utxo : Text → StorageCommand ⊤
  insert_block_event : Text → Bytes → StorageCommand ⊤
  delete_block_event : Text → StorageCommand ⊤
  get_block_event : Text → StorageCommand (Option Bytes)
  store_block_metadata : Bytes → ℕ → ℕ → Option Bytes → StorageCommand ⊤
  get_block_metadata : Bytes → StorageCommand (Option BlockMetadata)
  delete_block_metadata : Bytes → StorageCommand ⊤
  scan_block_events_by_prefix : Text → StorageCommand (List (Text × Bytes))
  save_snapshots : ℕ → StorageCommand ⊤
  cleanup_snapshots : Option ℕ → StorageCommand ⊤
  rollback_to_slot : ℕ → StorageCommand ℕ
  rollback_to_slot_with_hash : ℕ → Bytes → StorageCommand ℕ

-- `ScanBlockEventsByPrefix`: the entries whose key is text.
readable : List (Bytes × Bytes) → List (Text × Bytes)
readable [] = []
readable ((key, value) ∷ rest) =
    let more = readable rest in elim (from_utf8 key) [ none ↦ more | some t ↦ (t, value) ∷ more ]

module _ ⦃X : Externals⦄ where
  open X use {get_monoid, insert_monoid, scan_prefix}

  -- What each command does with the storage.
  unfoldable pub serve : {A : Type 0} → StorageCommand A → Exec NetworkStorage A
  unfolding readable
  serve (store_chain_tip slot hash timestamp) = Tips.store_chain_tip slot hash timestamp
  serve get_chain_tip = Tips.get_chain_tip
  serve (store_wallet_tip wallet_id slot hash timestamp) =
      Tips.store_wallet_tip wallet_id slot hash timestamp
  serve (get_wallet_tip wallet_id) = Tips.get_wallet_tip wallet_id
  serve (get_min_wallet_tip wallet_ids) = Tips.get_min_wallet_tip wallet_ids
  serve (get_utxo utxo_key) = read utxos utxo_key
  serve (get_utxos_for_address address_hex) = Indexes.get_utxos_for_address address_hex
  serve (insert_utxo utxo_key utxo_data) = write utxos utxo_key utxo_data
  serve (delete_utxo utxo_key) = remove utxos utxo_key
  serve (get_balance address_hex) = λ s. (get_monoid s.balance_tree address_hex, s)
  serve (update_balance address_hex new_balance) =
      within balances (λ t. insert_monoid t address_hex new_balance)
  serve (add_utxo_to_address_index address_hex utxo_key) =
      Indexes.add_utxo_to_address_index address_hex utxo_key
  serve (remove_utxo_from_address_index address_hex utxo_key) =
      Indexes.remove_utxo_from_address_index address_hex utxo_key
  serve (add_tx_to_address_history address_hex tx_hash_hex) =
      Indexes.add_tx_to_address_history address_hex tx_hash_hex
  serve (get_tx_history_for_address address_hex) = Indexes.get_tx_history_for_address address_hex
  serve (add_tx_to_policy_index policy_id_hex tx_hash_hex) =
      Indexes.add_tx_to_policy_index policy_id_hex tx_hash_hex
  serve (get_txs_for_policy policy_id_hex) = Indexes.get_txs_for_policy policy_id_hex
  serve (add_tx_to_asset_index policy_id_hex asset_name_hex tx_hash_hex) =
      Indexes.add_tx_to_asset_index policy_id_hex asset_name_hex tx_hash_hex
  serve (get_txs_for_asset policy_id_hex asset_name_hex) =
      Indexes.get_txs_for_asset policy_id_hex asset_name_hex
  serve (insert_spent_utxo utxo_key spend_event) = write spent_utxos utxo_key spend_event
  serve (delete_spent_utxo utxo_key) = remove spent_utxos utxo_key
  serve (insert_block_event event_key event_data) = write block_events event_key event_data
  serve (delete_block_event event_key) = remove block_events event_key
  serve (get_block_event event_key) = read block_events event_key
  serve (store_block_metadata block_hash slot timestamp prev_hash) =
      Tips.store_block_metadata block_hash slot timestamp prev_hash
  serve (get_block_metadata block_hash) = Tips.get_block_metadata block_hash
  serve (delete_block_metadata block_hash) = Tips.delete_block_metadata block_hash
  serve (scan_block_events_by_prefix prefix) =
      gets (λ s. readable (scan_prefix s.block_events_tree prefix))
  serve (save_snapshots slot) = Snapshots.save_all_snapshots slot
  serve (cleanup_snapshots keep_latest) = do Snapshots.cleanup_all_snapshots keep_latest; pure tt
  -- Both rewind the stored tip only, the first with an empty hash.
  serve (rollback_to_slot target_slot) = do Tips.store_chain_tip target_slot [] 0; pure target_slot
  serve (rollback_to_slot_with_hash target_slot hash) = do
    Tips.store_chain_tip target_slot hash 0
    pure target_slot

  -- The messages of the channel.
  pub data Request : Type 1 where
    command : {A : Type 0} → StorageCommand A → Request
    take_storage : Request
    return_storage : NetworkStorage → Request
    shutdown : Request

  -- What goes back through the reply channel of a request.
  pub data Response : Type 1 where
    reply : {A : Type 0} → Result A → Response
    taken : Option NetworkStorage → Response
    no_reply stopped : Response

  -- `running` is false once the task has ended and its receiver is dropped.
  pub record StorageManager : Type 0 where
    pub storage : Option NetworkStorage
    pub running : Bool

  -- `StorageManager::new`
  unfoldable pub new : NetworkStorage → StorageManager
  new storage = record { storage = some storage; running = true }

  -- `if let Some(ref mut storage) = self.storage { … } else { Err(…) }`
  with_storage :
      {A : Type 0}
      → Exec NetworkStorage A
      → Option NetworkStorage
      → Result A × Option NetworkStorage
  with_storage m none = (err storage_not_available, none)
  with_storage m (some s) = let (r, s') = m s in (r, some s')

  -- A command of the first kind, on a task that runs.
  unfoldable pub execute : {A : Type 0} → StorageCommand A → Exec StorageManager A
  unfolding with_storage
  execute c m = let (r, s) = with_storage (serve c) m.storage in (r, record m { storage = s })

  -- `handle_command`; the task goes on while `running` holds.
  unfoldable pub handle_command : Request → StorageManager → Response × StorageManager
  handle_command (command c) m = let (r, m') = execute c m in (reply r, m')
  handle_command take_storage m = (taken m.storage, record m { storage = none })
  handle_command (return_storage storage) m = (no_reply, record m { storage = some storage })
  handle_command shutdown m = (stopped, record m { storage = none; running = false })

  -- `run`: the requests that reach the task, in the order of the channel, and their replies. What
  -- the channel still holds when the task ends is dropped. The storage is dropped at the end.
  unfoldable pub run : List Request → StorageManager → List Response × StorageManager
  run [] m = ([], record m { storage = none; running = false })
  run (r ∷ rest) m =
      let (response, m') = handle_command r m in
      let (more, m'') = run rest m' in
      if m'.running then (response ∷ more, m'') else (response ∷ [], record m' { storage = none })

  -- `StorageHandle`: `self.sender.send(…)?; rx.await?`. The send fails once the task has ended.
  unfoldable pub send : {A : Type 0} → StorageCommand A → Exec StorageManager A
  send c m = if m.running then execute c m else (err channel_closed, m)
