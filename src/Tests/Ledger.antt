-- ===== src/Tests/Ledger.antt =====
-- The theorems on blocks and their rollback, on a storage without UTxOs and on one with a UTxO.
use hayate.Prelude.{none, refl, arith, ◌≡◌, ◌↔◌, true, List, [], ◌∷◌, is_some}
use hayate.Prelude.Text.{Text, codes}
use hayate.Prelude.Utf8.{IsAscii}
use hayate.Result.{Returns}
use hayate.Filter
use hayate.Storage.State.{NetworkStorage}
use hayate.Storage.Indexes.{entry_key, members, owner_prefix}
use hayate.Storage.Indexes.Laws.{mem-members}
use hayate.Manager.{new}
use hayate.Handle
use hayate.Processor.State.{BlockProcessor, BlockStats, RollbackInfo}
use hayate.Processor.Ledger.{held, owns, IsConsistent}
use hayate.Processor.Ledger.Queries.{get_utxos_for_address-IsConsistent}
use hayate.Processor.Transaction.Effects.{work}
use hayate.Processor.Block.{Arrival, push_block, process_block, process_transactions}
use hayate.Processor.Rollback.{rollback_block}
use hayate.Processor.Undo.Blocks.{at_home, rollback_block-process_block}
use hayate.SnapshotTimer
use hayate.Processor.Undo.RoundTrip.{no_changes, SameLedger, process_transactions-IsConsistent}
use hayate.Tests.{
  block, X, R, empty, txs, ks, stats, empty-IsConsistent, empty-IsReady, one, one-IsConsistent, a7,
}
use mathlib.Core.List.{Mem}

process_transactions-IsConsistent_example :
    (s' : NetworkStorage ⦃X = X⦄) × (st' : BlockStats) × (info : RollbackInfo) × Returns
      (process_transactions ⦃X = X⦄ 9 (1 ∷ []) 900 0 Filter.new [] txs)
      (work ⦃X = X⦄ empty stats (no_changes ⦃X = X⦄ R ks 9 (1 ∷ []) 900))
      tt
      (work ⦃X = X⦄ s' st' info)
    × IsConsistent ⦃X = X⦄ R ks s'
process_transactions-IsConsistent_example =
    process_transactions-IsConsistent ⦃X = X⦄ R ks 9 (1 ∷ []) 900 0 Filter.new [] txs empty stats
      empty-IsConsistent empty-IsReady

abbrev arrival : Arrival
arrival = record {
  slot = 60;
  block_hash = 6 ∷ [];
  chain_tip_slot = none;
  now = 700_000;
  later = 700_001;
}

abbrev processor : BlockProcessor ⦃X = X⦄
processor = record {
  storage = new ⦃X = X⦄ empty;
  filter = Filter.new;
  current_epoch = 0;
  blocks_processed = 1;
  current_slot = 50;
  wallet_ids = codes "w" ∷ [];
  tracked_tokens = [];
  rollback_buffer = [];
  rollback_buffer_size = 10;
  system_start_ms = 0;
  snapshot_manager = SnapshotTimer.new 0 100 300 600 10;
  chain_tip_slot = 50;
}

rollback_block-process_block_example :
    (st : BlockStats) × (p' : BlockProcessor ⦃X = X⦄) × (s' : NetworkStorage ⦃X = X⦄)
    × (info : RollbackInfo) × (s'' : NetworkStorage ⦃X = X⦄) × Returns
        (process_block ⦃X = X⦄ [] arrival)
        (at_home ⦃X = X⦄ R processor empty)
        st
        p'
    × (p'.storage ≡ new ⦃X = X⦄ s')
    × (p'.current_slot ≡ 60)
    × (p'.rollback_buffer ≡ push_block info 10 [])
    × IsConsistent ⦃X = X⦄ R ks s'
    × Returns (rollback_block ⦃X = X⦄ info) p'.storage tt (new ⦃X = X⦄ s'')
    × SameLedger ⦃X = X⦄ R ks empty s''
rollback_block-process_block_example =
    rollback_block-process_block ⦃X = X⦄ R ks [] arrival processor empty block refl (omega arith)
      empty-IsConsistent empty-IsReady

get_utxos_for_address-IsConsistent_example :
    Returns
      (Handle.get_balance ⦃X = X⦄ a7)
      (new ⦃X = X⦄ one)
      (held ⦃X = X⦄ a7 ks (R.find one.utxo_tree))
      (new ⦃X = X⦄ one)
    × ((l : List Text) × Returns
          (Handle.get_utxos_for_address ⦃X = X⦄ a7)
          (new ⦃X = X⦄ one)
          l
          (new ⦃X = X⦄ one)
        × ((k : Text)
            → IsAscii (entry_key a7 k)
            → Mem k l ↔ (owns ⦃X = X⦄ a7 (R.find one.utxo_tree k) ≡ true)))
get_utxos_for_address-IsConsistent_example =
    get_utxos_for_address-IsConsistent ⦃X = X⦄ R ks one a7 one-IsConsistent
      (omega arith, (omega arith, tt))

mem-members_example :
    Mem (codes "b") (
      members
        (owner_prefix (codes "a"))
        (X.scan_prefix one.address_utxo_index (owner_prefix (codes "a"))))
    ↔ (is_some (R.find one.address_utxo_index (entry_key (codes "a") (codes "b"))) ≡ true)
mem-members_example =
    mem-members ⦃X = X⦄ R one.address_utxo_index (codes "a") (codes "b")
      (omega arith, (omega arith, (omega arith, tt)))
