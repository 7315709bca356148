-- ===== src/Tests/Blocks.antt =====
-- The theorems on the block processor's own state, its keys and its snapshots.
use hayate.Prelude.{
  ℕ, ◌≡◌, refl, ◌↔◌, ◌+◌, ◌≤◌, ◌<◌, true, false, none, some, [], ◌∷◌, arith, is_some,
}
use hayate.Prelude.Text.{Text, text_eq}
use hayate.Prelude.Decimal.{show, show_padded}
use hayate.Result.{Returns}
use hayate.SnapshotTimer
use hayate.SnapshotTimer.{should_snapshot, record_snapshot}
use hayate.SnapshotTimer.Laws.{should_snapshot-record_snapshot}
use hayate.Filter
use hayate.Storage.State.{NetworkStorage}
use hayate.Storage.Tips.{store_chain_tip, get_chain_tip}
use hayate.Manager.{new, send, serve, execute}
use hayate.Processor.State.{
  BlockProcessor, event_key, slot_to_epoch, epoch_to_slot, is_epoch_boundary,
}
use hayate.Processor.State.Epochs.{epoch_to_slot-slot_to_epoch}
use hayate.Processor.Block.{Arrival, process_block}
use hayate.Processor.Block.Bounds.{IsBounded, process_block-IsBounded}
use hayate.Handle
use hayate.Storage.Tips.Laws.{tip}
use hayate.Processor.Rollback.{rollback_to, delete_events}
use hayate.Processor.Rollback.Rewinds.{Rewinds, rollback_to-Rewinds}
use hayate.Processor.Rollback.Events.{delete_events-removes}
use hayate.Tests.{X, R, empty}

epoch_to_slot-slot_to_epoch_example :
    (epoch_to_slot (slot_to_epoch 90_000) ≤ 90_000)
    × (90_000 < epoch_to_slot (slot_to_epoch 90_000) + 86_400)
    × ((is_epoch_boundary 90_000 ≡ true) ↔ (epoch_to_slot (slot_to_epoch 90_000) ≡ 90_000))
epoch_to_slot-slot_to_epoch_example = epoch_to_slot-slot_to_epoch 90_000 (omega arith)

abbrev manager : SnapshotTimer.SnapshotManager
manager = SnapshotTimer.new 0 100 300 600 10

should_snapshot-record_snapshot_example :
    ((1_000 ≤ 950 + manager.tip_threshold)
      → (should_snapshot 400_000 950 1_000 (record_snapshot 50_000 950 manager) ≡ true)
        ↔ (50_000 + manager.tip_interval ≤ 400_000))
    × ((950 + manager.tip_threshold < 1_000)
        → (should_snapshot 400_000 950 1_000 (record_snapshot 50_000 950 manager) ≡ true)
          ↔ (50_000 + manager.bulk_interval ≤ 400_000))
unfolding SnapshotTimer.new
should_snapshot-record_snapshot_example =
    should_snapshot-record_snapshot 50_000 400_000 950 950 1_000 manager (omega arith) (omega arith)

-- A processor at slot 50 whose stored tip is at slot 10.
abbrev stored : NetworkStorage ⦃X = X⦄
stored = (store_chain_tip ⦃X = X⦄ 10 (7 ∷ []) 0 empty).1

abbrev processor : BlockProcessor ⦃X = X⦄
processor = record {
  storage = new ⦃X = X⦄ stored;
  filter = Filter.new;
  current_epoch = 0;
  blocks_processed = 1;
  current_slot = 50;
  wallet_ids = [];
  tracked_tokens = [];
  rollback_buffer =
      record {
        slot = 50;
        block_hash = 5 ∷ [];
        timestamp = 0;
        utxos_created = [];
        utxos_spent = [];
        spent_utxos_recorded = [];
      }
      ∷ [];
  rollback_buffer_size = 1;
  system_start_ms = 0;
  snapshot_manager = manager;
  chain_tip_slot = 50;
}

abbrev arrival : ℕ → Arrival
arrival slot = record {
  slot = slot;
  block_hash = 6 ∷ [];
  chain_tip_slot = none;
  now = 0;
  later = 0;
}

stored_tip :
    Returns
      (Handle.get_chain_tip ⦃X = X⦄)
      processor.storage
      (some (tip 10 (7 ∷ []) 0))
      processor.storage
unfolding Handle.get_chain_tip send execute serve new get_chain_tip store_chain_tip text_eq
stored_tip = refl

rollback_to-Rewinds_example : Rewinds ⦃X = X⦄ 5 10 processor (rollback_to ⦃X = X⦄ 5 processor)
rollback_to-Rewinds_example =
    rollback_to-Rewinds ⦃X = X⦄ 5 (tip 10 (7 ∷ []) 0) processor stored_tip (omega arith)

process_block-IsBounded_example :
    IsBounded ⦃X = X⦄ 50 1 (process_block ⦃X = X⦄ [] (arrival 60) processor).1
process_block-IsBounded_example =
    process_block-IsBounded ⦃X = X⦄ [] (arrival 60) processor (omega arith)

-- A storage with one event of slot 9.
abbrev with_event : NetworkStorage ⦃X = X⦄
with_event = record empty { block_events_tree = (event_key 9 0, some (1 ∷ [])) ∷ [] }

stand :
    (j : ℕ)
    → 0 ≤ j
    → j < 0 + 1
    → is_some (R.find with_event.block_events_tree (event_key 9 j)) ≡ true
unfolding event_key show_padded show text_eq
stand j a b = (let e : j ≡ 0 = omega arith in rw e)

delete_events-removes_example :
    (t : X.Tree) × Returns
      (delete_events ⦃X = X⦄ 3 9 0)
      (new ⦃X = X⦄ with_event)
      tt
      (new ⦃X = X⦄ (record with_event { block_events_tree = t }))
    × ((j : ℕ) → 0 ≤ j → j ≤ 0 + 1 → R.find t (event_key 9 j) ≡ none)
    × ((k : Text)
        → ((j : ℕ) → 0 ≤ j → j < 0 + 1 → text_eq (event_key 9 j) k ≡ false)
        → R.find t k ≡ R.find with_event.block_events_tree k)
unfolding event_key show_padded show text_eq
delete_events-removes_example =
    delete_events-removes ⦃X = X⦄ R 9 3 0 1 with_event (omega arith) stand refl
