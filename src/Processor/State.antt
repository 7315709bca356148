-- ===== src/Processor/State.antt =====
-- The state of the block processor and of the block that it works on
-- (src/indexer/block_processor.rs), and the formats of its keys.
pub mod Epochs
use hayate.Prelude.{ℕ, ◌+◌, ◌*◌, ◌/◌, ◌%◌, ◌^◌, Bool, Option, List, ◌++◌, ◌==◌}
use hayate.Prelude.Text.{Bytes, Text, codes}
use hayate.Prelude.Decimal.{show, show_padded}
use hayate.Result.{Exec, At, within}
use hayate.Externals.{Externals}
use hayate.Manager.{StorageManager}
use hayate.Filter.{WalletFilter}
use hayate.SnapshotTimer.{SnapshotManager}

abbrev pub u64_mod : ℕ
u64_mod = 2 ^ 64

-- `TokenConfig` (src/config.rs), less its label.
pub record TokenConfig : Type 0 where
  pub policy_id : Text
  pub asset_name : Option Text

-- `utxos_spent` holds the key, the data of the UTxO and the spend event.
pub record RollbackInfo : Type 0 where
  pub slot : ℕ
  pub block_hash : Bytes
  pub timestamp : ℕ
  pub utxos_created : List Text
  pub utxos_spent : List (Text × Bytes × Bytes)
  pub spent_utxos_recorded : List Text

-- The set of addresses is a list without repetitions, in the order of insertion.
pub record BlockStats : Type 0 where
  pub slot : ℕ
  pub block_hash : Bytes
  pub tx_count : ℕ
  pub utxos_created : ℕ
  pub utxos_spent : ℕ
  pub addresses_affected : List Text

module _ ⦃X : Externals⦄ where
  open X use {hex_encode}

  -- The rollback buffer has its newest block first: `push_back` is `∷`.
  pub record BlockProcessor : Type 0 where
    pub storage : StorageManager
    pub filter : WalletFilter
    pub current_epoch : ℕ
    pub blocks_processed : ℕ
    pub current_slot : ℕ
    pub wallet_ids : List Text
    pub tracked_tokens : List TokenConfig
    pub rollback_buffer : List RollbackInfo
    pub rollback_buffer_size : ℕ
    pub system_start_ms : ℕ
    pub snapshot_manager : SnapshotManager
    pub chain_tip_slot : ℕ

  -- What the methods for one transaction change: the storage behind the handle, and the
  -- `&mut BlockStats` and `&mut RollbackInfo` that they are handed.
  pub record Work : Type 0 where
    pub storage : StorageManager
    pub stats : BlockStats
    pub rollback_info : RollbackInfo

  -- A call on the storage handle.
  abbrev pub ask : {A : Type 0} → Exec StorageManager A → Exec Work A
  ask = within (record { look = λ w. w.storage; put = λ m w. record w { storage = m } })

  -- `format!("{}#{}", hex::encode(hash), index)`
  abbrev pub utxo_key_of : Bytes → ℕ → Text
  utxo_key_of hash index = hex_encode hash ++ (codes "#" ++ show index)

-- `format!("slot#{:020}#{:010}", slot, event_index)`
unfoldable pub event_key : ℕ → ℕ → Text
event_key slot event_index =
    codes "slot#" ++ (show_padded 20 slot ++ (codes "#" ++ show_padded 10 event_index))

unfoldable pub slot_to_epoch : ℕ → ℕ
slot_to_epoch slot = slot / 86_400

unfoldable pub epoch_to_slot : ℕ → ℕ
epoch_to_slot epoch = epoch * 86_400 % u64_mod

-- `slot.is_multiple_of(86_400)`
unfoldable pub is_epoch_boundary : ℕ → Bool
is_epoch_boundary slot = slot % 86_400 == 0
