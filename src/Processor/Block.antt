-- ===== src/Processor/Block.antt =====
-- `process_block`, `save_current_tips` and the set-up of the block processor
-- (src/indexer/block_processor.rs).
pub mod Bounds
pub mod Success
use hayate.Prelude.{
  ℕ, ◌+◌, ◌*◌, ◌%◌, Bool, true, false, Option, none, some, List, [], ◌∷◌, ◌++◌, length, ltb,
  unwrap_or, if◌then◌else◌,
}
use hayate.Prelude.Text.{Bytes, Text, codes}
use hayate.Result.{
  Result, ok, err, slot_before_current, block_decode_failed, ⊤, Exec, pure, raise, lift, gets,
  modify, when, ◌>>=◌, ◌>>◌, for_each, within,
}
use hayate.Json.{Json, null, string, object, end, field}
use hayate.Chain.{MultiEraTx, MultiEraBlock}
use hayate.Externals.{Externals}
use hayate.Manager.{StorageManager}
use hayate.Handle
use hayate.Filter
use hayate.Filter.{WalletFilter}
use hayate.SnapshotTimer
use hayate.SnapshotTimer.{SnapshotManager}
use hayate.Storage.State.{ChainTip}
use hayate.Storage.Tips.{match_option}
use hayate.Processor.State.{
  TokenConfig, RollbackInfo, BlockStats, BlockProcessor, Work, event_key, slot_to_epoch, u64_mod,
}
use hayate.Processor.Transaction.{At, process_transaction}

-- `chain_tip_slot: Option<u64>`, and the clock where the method reads it: at the test whether a
-- snapshot is due, and after the snapshot.
pub record Arrival : Type 0 where
  pub slot : ℕ
  pub block_hash : Bytes
  pub chain_tip_slot : Option ℕ
  pub now : ℕ
  pub later : ℕ

-- `VecDeque::pop_front` where the newest block stands first.
unfoldable pub pop_front : List RollbackInfo → List RollbackInfo
pop_front [] = []
pop_front (x ∷ []) = []
pop_front (x ∷ y ∷ rest) = x ∷ pop_front (y ∷ rest)

unfoldable pub push_block : RollbackInfo → ℕ → List RollbackInfo → List RollbackInfo
push_block info size buffer =
    if ltb size (length (info ∷ buffer)) then pop_front (info ∷ buffer) else info ∷ buffer

-- The chain tip estimate after a block.
unfoldable pub estimate_tip : Option ℕ → ℕ → ℕ → ℕ
estimate_tip (some tip_slot) slot estimate = tip_slot
estimate_tip none slot estimate = if ltb estimate slot then slot else estimate

unfoldable pub block_timestamp_of : ℕ → ℕ → ℕ
block_timestamp_of system_start_ms slot = (system_start_ms + slot * 1000 % u64_mod) % u64_mod

module _ ⦃X : Externals⦄ where
  open X use {to_vec, from_slice, decode_block}

  abbrev pub on_storage : {A : Type 0} → Exec StorageManager A → Exec BlockProcessor A
  on_storage = within (record { look = λ p. p.storage; put = λ m p. record p { storage = m } })

  -- `new_with_rollback_buffer`, at a time `now`
  unfoldable pub new_with_rollback_buffer :
      ℕ → ℕ → ℕ → StorageManager → Result BlockProcessor × StorageManager
  new_with_rollback_buffer buffer_size system_start_ms now = do
    tip ← Handle.get_chain_tip
    let current_slot = elim tip as (λ _. ℕ) [ none ↦ 0 | some t ↦ t.slot ]
    gets λ storage. record {
      storage = storage;
      filter = Filter.new;
      current_epoch = 0;
      blocks_processed = 0;
      current_slot = current_slot;
      wallet_ids = [];
      tracked_tokens = [];
      rollback_buffer = [];
      rollback_buffer_size = buffer_size;
      system_start_ms = system_start_ms;
      snapshot_manager = SnapshotTimer.new now 100 300 600 10;
      chain_tip_slot = current_slot;
    }

  unfoldable pub add_wallet_id : Text → BlockProcessor → BlockProcessor
  add_wallet_id wallet_id p = record p { wallet_ids = p.wallet_ids ++ wallet_id ∷ [] }

  unfoldable pub add_wallet : Bytes → Bytes → BlockProcessor → BlockProcessor
  add_wallet payment_key stake_key p = record p {
    filter =
        Filter.add_stake_credential stake_key (Filter.add_payment_key_hash payment_key p.filter);
  }

  unfoldable pub add_tracked_address : Bytes → BlockProcessor → BlockProcessor
  add_tracked_address address_bytes p = record p {
    filter = Filter.add_address address_bytes p.filter;
  }

  unfoldable pub add_tracked_token : TokenConfig → BlockProcessor → BlockProcessor
  add_tracked_token token p = record p { tracked_tokens = p.tracked_tokens ++ token ∷ [] }

  -- `for wallet_id in &self.wallet_ids { store_wallet_tip(…) }`
  unfoldable pub store_wallet_tips : List Text → ℕ → Bytes → ℕ → Exec StorageManager ⊤
  store_wallet_tips [] slot hash timestamp = pure tt
  store_wallet_tips (wallet_id ∷ rest) slot hash timestamp =
      Handle.store_wallet_tip wallet_id slot hash timestamp
      >> store_wallet_tips rest slot hash timestamp

  -- The tips of the newest block of a buffer.
  unfoldable pub save_tips_of : List Text → List RollbackInfo → Exec StorageManager ⊤
  save_tips_of wallet_ids [] = pure tt
  save_tips_of wallet_ids (last_block ∷ _) = do
    Handle.store_chain_tip last_block.slot last_block.block_hash last_block.timestamp
    store_wallet_tips wallet_ids last_block.slot last_block.block_hash last_block.timestamp

  unfoldable pub save_current_tips : Exec BlockProcessor ⊤
  unfolding save_tips_of
  save_current_tips p = on_storage (save_tips_of p.wallet_ids p.rollback_buffer) p

  -- The transactions of a block, from its first to its last.
  unfoldable pub process_transactions :
      ℕ → Bytes → ℕ → ℕ → WalletFilter → List TokenConfig → List MultiEraTx → Exec Work ⊤
  process_transactions slot block_hash timestamp tx_index filter tokens [] = pure tt
  process_transactions slot block_hash timestamp tx_index filter tokens (tx ∷ rest) =
      process_transaction
        (record {
          slot = slot;
          block_hash = block_hash;
          tx_index = tx_index;
          block_timestamp = timestamp;
        })
        filter tokens tx
      >> process_transactions slot block_hash timestamp (tx_index + 1) filter tokens rest

  -- The loop of CREATED events; it returns the next event index.
  unfoldable pub write_created : ℕ → ℕ → List Text → Exec StorageManager ℕ
  write_created slot event_index [] = pure event_index
  write_created slot event_index (utxo_key ∷ rest) = do
    found ← Handle.get_utxo utxo_key
    match_option found (write_created slot event_index rest) λ utxo_data. do
      event_bytes ← lift (
          to_vec (
            object (
              field (codes "event_type") (string (codes "CREATED")) (
                field (codes "utxo_key") (string utxo_key) (
                  field (codes "utxo_data")
                    (elim (from_slice utxo_data) as (λ _. Json) [ ok j ↦ j | err _ ↦ null ])
                    end)))))
      Handle.insert_block_event (event_key slot event_index) event_bytes
      write_created slot (event_index + 1) rest

  -- The loop of SPENT events.
  unfoldable pub write_spent : ℕ → ℕ → List (Text × Bytes × Bytes) → Exec StorageManager ⊤
  write_spent slot event_index [] = pure tt
  write_spent slot event_index ((utxo_key, utxo_data, spend_event_bytes) ∷ rest) = do
    utxo_json ← lift (from_slice utxo_data)
    spend_data ← lift (from_slice spend_event_bytes)
    event_bytes ← lift (
        to_vec (
          object (
            field (codes "event_type") (string (codes "SPENT")) (
              field (codes "utxo_key") (string utxo_key) (
                field (codes "utxo_data") utxo_json (field (codes "spend_data") spend_data end))))))
    Handle.insert_block_event (event_key slot event_index) event_bytes
    write_spent slot (event_index + 1) rest

  unfoldable pub write_events : RollbackInfo → Exec StorageManager ⊤
  write_events info = do
    event_index ← write_created info.slot 0 info.utxos_created
    write_spent info.slot event_index info.utxos_spent

  -- Entering the epoch of a slot; the result says whether it is a later one.
  unfoldable pub enter_epoch : ℕ → Exec BlockProcessor Bool
  enter_epoch epoch p =
      if ltb p.current_epoch epoch
      then (ok true, record p { current_epoch = epoch })
      else (ok false, p)

  -- The storage comes back to the processor, whether the transactions succeed or fail.
  unfoldable pub back_from_work : BlockProcessor → Result ⊤ × Work → Result Work × BlockProcessor
  back_from_work p (ok _, w) = (ok w, record p { storage = w.storage })
  back_from_work p (err e, w) = (err e, record p { storage = w.storage })

  -- The work on the transactions, from empty statistics and rollback information.
  unfoldable pub work_on : Arrival → MultiEraBlock → BlockProcessor → Result Work × BlockProcessor
  work_on a block p =
      let timestamp = block_timestamp_of p.system_start_ms a.slot in
      back_from_work p (
        process_transactions a.slot a.block_hash timestamp 0 p.filter p.tracked_tokens block.txs
          (record {
            storage = p.storage;
            stats = record {
              slot = a.slot;
              block_hash = a.block_hash;
              tx_count = 0;
              utxos_created = 0;
              utxos_spent = 0;
              addresses_affected = [];
            };
            rollback_info = record {
              slot = a.slot;
              block_hash = a.block_hash;
              timestamp = timestamp;
              utxos_created = [];
              utxos_spent = [];
              spent_utxos_recorded = [];
            };
          }))

  -- The fields that a stored block moves on.
  unfoldable pub advance : Arrival → RollbackInfo → BlockProcessor → BlockProcessor
  advance a info p = record p {
    current_slot = a.slot;
    blocks_processed = p.blocks_processed + 1;
    chain_tip_slot = estimate_tip a.chain_tip_slot a.slot p.chain_tip_slot;
    rollback_buffer = push_block info p.rollback_buffer_size p.rollback_buffer;
  }

  -- What follows the saving of the snapshots: the cleanup. A failure of either is logged, and is no
  -- failure of the block.
  unfoldable pub after_save : ℕ → ℕ → BlockProcessor → Result ⊤ × StorageManager → BlockProcessor
  after_save later slot p (ok _, m) = record p {
    storage = (Handle.cleanup_snapshots (some 10) m).1;
    snapshot_manager = SnapshotTimer.record_snapshot later slot p.snapshot_manager;
  }
  after_save later slot p (err _, m) = record p { storage = m }

  unfoldable pub take_snapshot : ℕ → ℕ → BlockProcessor → BlockProcessor
  take_snapshot later slot p = after_save later slot p (Handle.save_snapshots slot p.storage)

  unfoldable pub snapshot_if_due : Arrival → Exec BlockProcessor ⊤
  snapshot_if_due a p = (
    ok tt,
    if SnapshotTimer.should_snapshot a.now a.slot p.chain_tip_slot p.snapshot_manager
        then take_snapshot a.later a.slot p
        else p,
  )

  -- What follows the transactions of a block.
  unfoldable pub finish_block :
      Arrival → MultiEraBlock → Bool → Work → Exec BlockProcessor BlockStats
  unfolding write_events advance take_snapshot snapshot_if_due
  finish_block a block epoch_boundary w = do
    on_storage (write_events w.rollback_info)
    on_storage (
        Handle.store_block_metadata a.block_hash a.slot w.rollback_info.timestamp
          block.previous_hash)
    modify (advance a w.rollback_info)
    when epoch_boundary save_current_tips
    snapshot_if_due a
    pure w.stats

  unfoldable pub process_block : Bytes → Arrival → Exec BlockProcessor BlockStats
  unfolding enter_epoch work_on finish_block
  process_block block_bytes a p =
      if ltb a.slot p.current_slot
      then (err (slot_before_current a.slot p.current_slot), p)
      else match_option (decode_block block_bytes) (raise block_decode_failed)
          (λ block. do
            epoch_boundary ← enter_epoch (slot_to_epoch a.slot)
            w ← work_on a block
            finish_block a block epoch_boundary w)
          p

  unfoldable pub create_final_snapshot : Exec BlockProcessor ⊤
  create_final_snapshot p = on_storage (Handle.save_snapshots p.current_slot) p
