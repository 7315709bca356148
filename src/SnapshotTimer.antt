-- ===== src/SnapshotTimer.antt =====
-- The timing of `SnapshotManager` (src/snapshot_manager.rs). Instants and durations are numbers
-- of milliseconds; the clock is read by the caller and handed in.
pub mod Laws
use hayate.Prelude.{ℕ, ◌-◌, ◌*◌, Bool, leb, if◌then◌else◌}

pub record SnapshotManager : Type 0 where
  pub last_snapshot_time : ℕ
  pub last_snapshot_slot : ℕ
  pub tip_interval : ℕ
  pub bulk_interval : ℕ
  pub tip_threshold : ℕ
  pub max_snapshots : ℕ

unfoldable pub new : ℕ → ℕ → ℕ → ℕ → ℕ → SnapshotManager
new now tip_threshold tip_interval_secs bulk_interval_secs max_snapshots = record {
  last_snapshot_time = now;
  last_snapshot_slot = 0;
  tip_interval = tip_interval_secs * 1000;
  bulk_interval = bulk_interval_secs * 1000;
  tip_threshold = tip_threshold;
  max_snapshots = max_snapshots;
}

-- `elapsed` is 0 where the clock stands before the last snapshot, as `saturating_sub` is.
unfoldable pub should_snapshot : ℕ → ℕ → ℕ → SnapshotManager → Bool
should_snapshot now current_slot chain_tip_slot m =
    let blocks_behind = chain_tip_slot - current_slot in
    let required_interval =
      if leb blocks_behind m.tip_threshold then m.tip_interval else m.bulk_interval in
    leb required_interval (now - m.last_snapshot_time)

unfoldable pub record_snapshot : ℕ → ℕ → SnapshotManager → SnapshotManager
record_snapshot now slot m = record m { last_snapshot_time = now; last_snapshot_slot = slot }
