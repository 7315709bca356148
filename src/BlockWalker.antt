-- ===== src/BlockWalker.antt =====
-- The walk back from the tip of the node along the previous hashes of the stored block metadata
-- (src/indexer/block_walker.rs). What the node answers is a parameter.
pub mod Laws
use hayate.Prelude.{ℕ, zero, suc, Option, none, some, [], ◌==◌, if◌then◌else◌}
use hayate.Prelude.Text.{Bytes}
use hayate.Result.{
  Result, zero_blocks, block_not_found, target_not_found, walk_failed, connect_failed,
  tip_query_failed, metadata_query_failed, target_query_failed, ⊤, Exec, pure, raise, lift, ◌>>=◌,
  ◌>>◌, map_err,
}
use hayate.Externals.{Externals}
use hayate.Storage.State.{BlockMetadata}
use hayate.Storage.Tips.{match_option}
use hayate.Manager.{StorageManager}
use hayate.Handle.{get_block_metadata}

-- `Point` of the chain-sync protocol
pub data Point : Type 0 where
  origin : Point
  specific : ℕ → Bytes → Point

module _ ⦃X : Externals⦄ where
  open X use {hex_encode}

  -- The metadata of the block that the walk ends at.
  arrive : Bytes → Exec StorageManager (ℕ × Bytes)
  arrive prev_hash = do
    target_metadata ← map_err target_query_failed (get_block_metadata prev_hash)
    match_option target_metadata (raise (target_not_found (hex_encode prev_hash)))
        λ m. pure (m.0, prev_hash)

  -- One round, with the rounds that are left after it; `next` is the rest of the loop.
  round_at : ℕ → (Bytes → Exec StorageManager (ℕ × Bytes)) → Bytes → Exec StorageManager (ℕ × Bytes)
  round_at left next current_hash = do
    metadata ← map_err metadata_query_failed (get_block_metadata current_hash)
    match_option metadata (raise (block_not_found (hex_encode current_hash))) λ m.
        match_option m.2 (pure (0, []))
          λ prev_hash. if left == 0 then arrive prev_hash else next prev_hash

  -- The loop over `blocks_walked`, with the rounds left in place of the fuel.
  unfoldable pub walk : ℕ → ℕ → Bytes → Exec StorageManager (ℕ × Bytes)
  unfolding round_at arrive
  walk n_blocks zero current_hash = raise (walk_failed n_blocks)
  walk n_blocks (suc left) current_hash = round_at left (walk n_blocks left) current_hash

  walk_from : ℕ → Point → Exec StorageManager (ℕ × Bytes)
  walk_from n_blocks Point.origin = pure (0, [])
  walk_from n_blocks (Point.specific slot hash) = walk n_blocks n_blocks hash

  -- `NodeClient::connect` and the tip that `find_intersect` reports are what the node answers.
  unfoldable pub walk_back_n_blocks : Result ⊤ → Result Point → ℕ → Exec StorageManager (ℕ × Bytes)
  unfolding walk_from walk
  walk_back_n_blocks connection tip n_blocks = if n_blocks == 0 then raise zero_blocks else do
    map_err connect_failed (lift connection)
    point ← map_err tip_query_failed (lift tip)
    walk_from n_blocks point
