-- ===== src/SnapshotTimer/Laws.antt =====
-- When a snapshot falls due.
use hayate.Prelude.{ℕ, ◌+◌, ◌-◌, ◌≤◌, ◌<◌, ◌≡◌, ◌↔◌, true, false, arith, leb}
use hayate.SnapshotTimer.{SnapshotManager, should_snapshot, record_snapshot}

-- After a snapshot at `now`, the next is due exactly from the interval on, which is the interval of
-- the tip where the chain tip is at most the threshold ahead of the current slot, and that of bulk
-- sync otherwise, both of at least a millisecond.
pub should_snapshot-record_snapshot :
    (now later slot current_slot chain_tip_slot : ℕ) (m : SnapshotManager)
    → 0 < m.tip_interval
    → 0 < m.bulk_interval
    → ((chain_tip_slot ≤ current_slot + m.tip_threshold)
        → (should_snapshot later current_slot chain_tip_slot (record_snapshot now slot m) ≡ true)
          ↔ (now + m.tip_interval ≤ later))
      × ((current_slot + m.tip_threshold < chain_tip_slot)
          → (should_snapshot later current_slot chain_tip_slot (record_snapshot now slot m) ≡ true)
            ↔ (now + m.bulk_interval ≤ later))
unfolding should_snapshot record_snapshot
should_snapshot-record_snapshot now later slot current_slot chain_tip_slot m h1 h2 = (
  λ near.
      (let e : leb (chain_tip_slot - current_slot) m.tip_threshold ≡ true = ground arith in
        rw e (ground arith)),
  λ far.
      (let e : leb (chain_tip_slot - current_slot) m.tip_threshold ≡ false = ground arith in
        rw e (ground arith)),
)
