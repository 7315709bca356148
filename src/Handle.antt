-- ===== src/Handle.antt =====
-- `StorageHandle` (src/indexer/storage_manager.rs): one method for each command, which sends it to
-- the storage manager and waits for the reply.
pub mod Laws
use hayate.Prelude.{ℕ, false, Option, none, List, some, if◌then◌else◌}
use hayate.Prelude.Text.{Bytes, Text}
use hayate.Result.{Result, ok, err, channel_closed, ⊤, Exec}
use hayate.Externals.{Externals}
use hayate.Storage.State.{ChainTip, BlockMetadata, NetworkStorage}
use hayate.Manager.{
  StorageManager, StorageCommand, Request, Response, reply, taken, no_reply, stopped, send,
  handle_command,
}

module _ ⦃X : Externals⦄ where
  unfoldable pub store_chain_tip : ℕ → Bytes → ℕ → Exec StorageManager ⊤
  store_chain_tip slot hash timestamp = send (StorageCommand.store_chain_tip slot hash timestamp)

  unfoldable pub get_chain_tip : Exec StorageManager (Option ChainTip)
  get_chain_tip = send StorageCommand.get_chain_tip

  unfoldable pub store_wallet_tip : Text → ℕ → Bytes → ℕ → Exec StorageManager ⊤
  store_wallet_tip wallet_id slot hash timestamp =
      send (StorageCommand.store_wallet_tip wallet_id slot hash timestamp)

  unfoldable pub get_wallet_tip : Text → Exec StorageManager (Option ChainTip)
  get_wallet_tip wallet_id = send (StorageCommand.get_wallet_tip wallet_id)

  unfoldable pub get_min_wallet_tip : List Text → Exec StorageManager (Option ChainTip)
  get_min_wallet_tip wallet_ids = send (StorageCommand.get_min_wallet_tip wallet_ids)

  unfoldable pub get_utxo : Text → Exec StorageManager (Option Bytes)
  get_utxo utxo_key = send (StorageCommand.get_utxo utxo_key)

  unfoldable pub get_utxos_for_address : Text → Exec StorageManager (List Text)
  get_utxos_for_address address_hex = send (StorageCommand.get_utxos_for_address address_hex)

  unfoldable pub get_tx_history_for_address : Text → Exec StorageManager (List Text)
  get_tx_history_for_address address_hex =
      send (StorageCommand.get_tx_history_for_address address_hex)

  unfoldable pub get_txs_for_policy : Text → Exec StorageManager (List Text)
  get_txs_for_policy policy_id_hex = send (StorageCommand.get_txs_for_policy policy_id_hex)

  unfoldable pub get_txs_for_asset : Text → Text → Exec StorageManager (List Text)
  get_txs_for_asset policy_id_hex asset_name_hex =
      send (StorageCommand.get_txs_for_asset policy_id_hex asset_name_hex)

  unfoldable pub get_block_event : Text → Exec StorageManager (Option Bytes)
  get_block_event event_key = send (StorageCommand.get_block_event event_key)

  unfoldable pub get_block_metadata : Bytes → Exec StorageManager (Option BlockMetadata)
  get_block_metadata block_hash = send (StorageCommand.get_block_metadata block_hash)

  unfoldable pub delete_block_metadata : Bytes → Exec StorageManager ⊤
  delete_block_metadata block_hash = send (StorageCommand.delete_block_metadata block_hash)

  unfoldable pub scan_block_events_by_prefix : Text → Exec StorageManager (List (Text × Bytes))
  scan_block_events_by_prefix prefix = send (StorageCommand.scan_block_events_by_prefix prefix)

  unfoldable pub insert_utxo : Text → Bytes → Exec StorageManager ⊤
  insert_utxo utxo_key utxo_data = send (StorageCommand.insert_utxo utxo_key utxo_data)

  unfoldable pub delete_utxo : Text → Exec StorageManager ⊤
  delete_utxo utxo_key = send (StorageCommand.delete_utxo utxo_key)

  unfoldable pub get_balance : Text → Exec StorageManager ℕ
  get_balance address_hex = send (StorageCommand.get_balance address_hex)

  unfoldable pub update_balance : Text → ℕ → Exec StorageManager ⊤
  update_balance address_hex new_balance =
      send (StorageCommand.update_balance address_hex new_balance)

  unfoldable pub add_utxo_to_address_index : Text → Text → Exec StorageManager ⊤
  add_utxo_to_address_index address_hex utxo_key =
      send (StorageCommand.add_utxo_to_address_index address_hex utxo_key)

  unfoldable pub remove_utxo_from_address_index : Text → Text → Exec StorageManager ⊤
  remove_utxo_from_address_index address_hex utxo_key =
      send (StorageCommand.remove_utxo_from_address_index address_hex utxo_key)

  unfoldable pub add_tx_to_address_history : Text → Text → Exec StorageManager ⊤
  add_tx_to_address_history address_hex tx_hash_hex =
      send (StorageCommand.add_tx_to_address_history address_hex tx_hash_hex)

  unfoldable pub add_tx_to_policy_index : Text → Text → Exec StorageManager ⊤
  add_tx_to_policy_index policy_id_hex tx_hash_hex =
      send (StorageCommand.add_tx_to_policy_index policy_id_hex tx_hash_hex)

  unfoldable pub add_tx_to_asset_index : Text → Text → Text → Exec StorageManager ⊤
  add_tx_to_asset_index policy_id_hex asset_name_hex tx_hash_hex =
      send (StorageCommand.add_tx_to_asset_index policy_id_hex asset_name_hex tx_hash_hex)

  unfoldable pub insert_spent_utxo : Text → Bytes → Exec StorageManager ⊤
  insert_spent_utxo utxo_key spend_event =
      send (StorageCommand.insert_spent_utxo utxo_key spend_event)

  unfoldable pub delete_spent_utxo : Text → Exec StorageManager ⊤
  delete_spent_utxo utxo_key = send (StorageCommand.delete_spent_utxo utxo_key)

  unfoldable pub insert_block_event : Text → Bytes → Exec StorageManager ⊤
  insert_block_event event_key event_data =
      send (StorageCommand.insert_block_event event_key event_data)

  unfoldable pub delete_block_event : Text → Exec StorageManager ⊤
  delete_block_event event_key = send (StorageCommand.delete_block_event event_key)

  unfoldable pub store_block_metadata : Bytes → ℕ → ℕ → Option Bytes → Exec StorageManager ⊤
  store_block_metadata block_hash slot timestamp prev_hash =
      send (StorageCommand.store_block_metadata block_hash slot timestamp prev_hash)

  unfoldable pub save_snapshots : ℕ → Exec StorageManager ⊤
  save_snapshots slot = send (StorageCommand.save_snapshots slot)

  unfoldable pub cleanup_snapshots : Option ℕ → Exec StorageManager ⊤
  cleanup_snapshots keep_latest = send (StorageCommand.cleanup_snapshots keep_latest)

  unfoldable pub rollback_to_slot : ℕ → Exec StorageManager ℕ
  rollback_to_slot target_slot = send (StorageCommand.rollback_to_slot target_slot)

  unfoldable pub rollback_to_slot_with_hash : ℕ → Bytes → Exec StorageManager ℕ
  rollback_to_slot_with_hash target_slot hash =
      send (StorageCommand.rollback_to_slot_with_hash target_slot hash)

  -- What comes back for `TakeStorage`.
  abbrev taken_of : Response → Option NetworkStorage
  taken_of (taken storage) = storage
  taken_of (reply r) = none
  taken_of no_reply = none
  taken_of stopped = none

  -- `None` when the storage is away, and when the task has ended.
  unfoldable pub take_storage : StorageManager → Option NetworkStorage × StorageManager
  take_storage m =
      if m.running
      then (let (response, m') = handle_command Request.take_storage m in (taken_of response, m'))
      else (none, m)

  unfoldable pub return_storage : NetworkStorage → Exec StorageManager ⊤
  return_storage storage m =
      if m.running
      then (ok tt, (handle_command (Request.return_storage storage) m).1)
      else (err channel_closed, m)

  unfoldable pub shutdown : Exec StorageManager ⊤
  shutdown m =
      if m.running then (ok tt, (handle_command Request.shutdown m).1) else (err channel_closed, m)
