-- ===== src/Handle/Laws.antt =====
-- What each call of the handle returns, and the storage that it leaves, when the manager runs with
-- its storage at home and no library call fails.
use hayate.Prelude.{Option, ℕ}
use hayate.Prelude.Text.{Bytes, Text}
use hayate.Result.{Returns}
use hayate.Externals.{Externals, Reliable}
use hayate.Storage.State.{NetworkStorage}
use hayate.Storage.Tips
use hayate.Storage.Indexes.{
  entry_key, marker, add_utxo_to_address_index, remove_utxo_from_address_index,
  add_tx_to_address_history, add_tx_to_policy_index, add_tx_to_asset_index, asset_owner,
}
use hayate.Manager.{new, serve, execute, send}
use hayate.Handle

module _ ⦃X : Externals⦄ (R : Reliable X) (s : NetworkStorage) where
  pub get_utxo-new : (k : Text) → Returns (Handle.get_utxo k) (new s) (R.find s.utxo_tree k) (new s)
  unfolding Handle.get_utxo send execute serve new
  get_utxo-new k = rw (R.get_lem s.utxo_tree k)

  pub insert_utxo-new :
      (k : Text) (v : Bytes)
      → Returns
          (Handle.insert_utxo k v)
          (new s)
          tt
          (new (record s { utxo_tree = (X.insert s.utxo_tree k v).1 }))
  unfolding Handle.insert_utxo send execute serve new
  insert_utxo-new k v = rw (R.insert_succeeds s.utxo_tree k v)

  pub delete_utxo-new :
      (k : Text)
      → Returns
          (Handle.delete_utxo k)
          (new s)
          tt
          (new (record s { utxo_tree = (X.delete s.utxo_tree k).1 }))
  unfolding Handle.delete_utxo send execute serve new
  delete_utxo-new k = rw (R.delete_succeeds s.utxo_tree k)

  pub insert_spent_utxo-new :
      (k : Text) (v : Bytes)
      → Returns
          (Handle.insert_spent_utxo k v)
          (new s)
          tt
          (new (record s { spent_utxo_index = (X.insert s.spent_utxo_index k v).1 }))
  unfolding Handle.insert_spent_utxo send execute serve new
  insert_spent_utxo-new k v = rw (R.insert_succeeds s.spent_utxo_index k v)

  pub delete_spent_utxo-new :
      (k : Text)
      → Returns
          (Handle.delete_spent_utxo k)
          (new s)
          tt
          (new (record s { spent_utxo_index = (X.delete s.spent_utxo_index k).1 }))
  unfolding Handle.delete_spent_utxo send execute serve new
  delete_spent_utxo-new k = rw (R.delete_succeeds s.spent_utxo_index k)

  pub get_block_event-new :
      (k : Text) → Returns (Handle.get_block_event k) (new s) (R.find s.block_events_tree k) (new s)
  unfolding Handle.get_block_event send execute serve new
  get_block_event-new k = rw (R.get_lem s.block_events_tree k)

  pub insert_block_event-new :
      (k : Text) (v : Bytes)
      → Returns
          (Handle.insert_block_event k v)
          (new s)
          tt
          (new (record s { block_events_tree = (X.insert s.block_events_tree k v).1 }))
  unfolding Handle.insert_block_event send execute serve new
  insert_block_event-new k v = rw (R.insert_succeeds s.block_events_tree k v)

  pub delete_block_event-new :
      (k : Text)
      → Returns
          (Handle.delete_block_event k)
          (new s)
          tt
          (new (record s { block_events_tree = (X.delete s.block_events_tree k).1 }))
  unfolding Handle.delete_block_event send execute serve new
  delete_block_event-new k = rw (R.delete_succeeds s.block_events_tree k)

  pub get_balance-new :
      (k : Text) → Returns (Handle.get_balance k) (new s) (R.total s.balance_tree k) (new s)
  unfolding Handle.get_balance send execute serve new
  get_balance-new k = rw (R.get_monoid_lem s.balance_tree k)

  pub update_balance-new :
      (k : Text) (n : ℕ)
      → Returns
          (Handle.update_balance k n)
          (new s)
          tt
          (new (record s { balance_tree = (X.insert_monoid s.balance_tree k n).1 }))
  unfolding Handle.update_balance send execute serve new
  update_balance-new k n = rw (R.insert_monoid_succeeds s.balance_tree k n)

  pub add_utxo_to_address_index-new :
      (a k : Text)
      → Returns (Handle.add_utxo_to_address_index a k) (new s) tt (
          new (record s {
            address_utxo_index = (X.insert s.address_utxo_index (entry_key a k) marker).1;
          }))
  unfolding Handle.add_utxo_to_address_index add_utxo_to_address_index send execute serve new
  add_utxo_to_address_index-new a k =
      rw (R.insert_succeeds s.address_utxo_index (entry_key a k) marker)

  pub remove_utxo_from_address_index-new :
      (a k : Text)
      → Returns (Handle.remove_utxo_from_address_index a k) (new s) tt (
          new (record s { address_utxo_index = (X.delete s.address_utxo_index (entry_key a k)).1 }))
  unfolding Handle.remove_utxo_from_address_index remove_utxo_from_address_index send execute serve
      new
  remove_utxo_from_address_index-new a k =
      rw (R.delete_succeeds s.address_utxo_index (entry_key a k))

  pub add_tx_to_address_history-new :
      (a h : Text)
      → Returns (Handle.add_tx_to_address_history a h) (new s) tt (
          new (record s {
            address_tx_index = (X.insert s.address_tx_index (entry_key a h) marker).1;
          }))
  unfolding Handle.add_tx_to_address_history add_tx_to_address_history send execute serve new
  add_tx_to_address_history-new a h =
      rw (R.insert_succeeds s.address_tx_index (entry_key a h) marker)

  pub add_tx_to_policy_index-new :
      (p h : Text)
      → Returns (Handle.add_tx_to_policy_index p h) (new s) tt (
          new
            (record s { policy_tx_index = (X.insert s.policy_tx_index (entry_key p h) marker).1 }))
  unfolding Handle.add_tx_to_policy_index add_tx_to_policy_index send execute serve new
  add_tx_to_policy_index-new p h = rw (R.insert_succeeds s.policy_tx_index (entry_key p h) marker)

  pub add_tx_to_asset_index-new :
      (p n h : Text)
      → Returns (Handle.add_tx_to_asset_index p n h) (new s) tt (
          new (record s {
            asset_tx_index = (X.insert s.asset_tx_index (entry_key (asset_owner p n) h) marker).1;
          }))
  unfolding Handle.add_tx_to_asset_index add_tx_to_asset_index send execute serve new
  add_tx_to_asset_index-new p n h =
      rw (R.insert_succeeds s.asset_tx_index (entry_key (asset_owner p n) h) marker)

  pub delete_block_metadata-new :
      (h : Bytes)
      → Returns
          (Handle.delete_block_metadata h)
          (new s)
          tt
          (new (record s { block_hash_index = (X.delete s.block_hash_index h).1 }))
  unfolding Handle.delete_block_metadata Tips.delete_block_metadata send execute serve new
  delete_block_metadata-new h = rw (R.delete_succeeds s.block_hash_index h)

  pub store_block_metadata-new :
      (h : Bytes) (slot timestamp : ℕ) (prev_hash : Option Bytes)
      → (t : X.Tree) × Returns
          (Handle.store_block_metadata h slot timestamp prev_hash)
          (new s)
          tt
          (new (record s { block_hash_index = t }))
  unfolding Handle.store_block_metadata Tips.store_block_metadata send execute serve new
  store_block_metadata-new h slot timestamp prev_hash = (
    (X.insert s.block_hash_index h (R.written (Tips.metadata_json slot timestamp prev_hash))).1,
    rw (R.to_vec_lem, R.insert_succeeds),
  )

  pub store_chain_tip-new :
      (slot : ℕ) (hash : Bytes) (timestamp : ℕ)
      → (t : X.Tree) × Returns
          (Handle.store_chain_tip slot hash timestamp)
          (new s)
          tt
          (new (record s { chain_tip_tree = t }))
  unfolding Handle.store_chain_tip Tips.store_chain_tip Tips.store_tip send execute serve new
  store_chain_tip-new slot hash timestamp = (
    (X.insert s.chain_tip_tree Tips.current_tip (R.written (Tips.tip_data slot hash timestamp))).1,
    rw (R.to_vec_lem, R.insert_succeeds),
  )

  pub store_wallet_tip-new :
      (w : Text) (slot : ℕ) (hash : Bytes) (timestamp : ℕ)
      → (t : X.Tree) × Returns
          (Handle.store_wallet_tip w slot hash timestamp)
          (new s)
          tt
          (new (record s { chain_tip_tree = t }))
  unfolding Handle.store_wallet_tip Tips.store_wallet_tip Tips.store_tip send execute serve new
  store_wallet_tip-new w slot hash timestamp = (
    (X.insert s.chain_tip_tree (Tips.wallet_tip_key w)
        (R.written (Tips.tip_data slot hash timestamp))).1,
    rw (R.to_vec_lem, R.insert_succeeds),
  )
