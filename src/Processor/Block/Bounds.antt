-- ===== src/Processor/Block/Bounds.antt =====
-- What every outcome of `process_block` keeps: the order of slots and the bound of the buffer.
use hayate.Prelude.{
  ℕ, ◌≤◌, ◌≡◌, refl, Bool, true, false, List, [], ◌∷◌, length, arith, ltb, Bool-cases, Option-cases,
  inl, inr,
}
use hayate.Prelude.Text.{Bytes}
use hayate.Result.{
  Result, ok, err, ⊤, Exec, pure, modify, when, Keeps, Keeps-bind, Keeps-then, ◌>>=◌, ◌>>◌,
}
use hayate.Chain.{MultiEraBlock}
use hayate.Externals.{Externals}
use hayate.Manager.{StorageManager}
use hayate.Handle
use hayate.SnapshotTimer
use hayate.Processor.State.{RollbackInfo, BlockStats, BlockProcessor, Work, slot_to_epoch}
use hayate.Processor.Block.{
  Arrival, pop_front, push_block, on_storage, save_current_tips, enter_epoch, work_on,
  back_from_work, process_transactions, block_timestamp_of, advance, after_save, take_snapshot,
  snapshot_if_due, finish_block, process_block, write_events,
}

length-pop_front :
    (x : RollbackInfo) (l : List RollbackInfo) → length (pop_front (x ∷ l)) ≡ length l
unfolding pop_front
length-pop_front x [] = refl
length-pop_front x (y ∷ l) = omega (arith, length-pop_front y l)

-- A buffer that is within its size stays within it when a block is pushed.
length-push_block :
    (info : RollbackInfo) (size : ℕ) (buffer : List RollbackInfo)
    → length buffer ≤ size
    → length (push_block info size buffer) ≤ size
unfolding push_block
length-push_block info size buffer h = elim (Bool-cases (ltb size (length (info ∷ buffer)))) [
  | inl full ↦ rw full (omega (arith, length-pop_front info buffer))
  | inr room ↦ rw room (ground arith)
]

module _ ⦃X : Externals⦄ where
  -- The slot is at least `c`, and the buffer is within `size`.
  pub record IsBounded (c size : ℕ) (p : BlockProcessor) : Type 0 where
    pub slot : c ≤ p.current_slot
    pub size_kept : p.rollback_buffer_size ≡ size
    pub buffer : length p.rollback_buffer ≤ size

  module _ (c size : ℕ) where
    abbrev Kept : {A : Type 0} → Exec BlockProcessor A → Type 0
    Kept = Keeps (IsBounded c size)

    on_storage-Kept : {A : Type 0} (m : Exec StorageManager A) → Kept (on_storage m)
    on_storage-Kept m p h = record { slot = h.slot; size_kept = h.size_kept; buffer = h.buffer }

    enter_epoch-Kept : (e : ℕ) → Kept (enter_epoch e)
    unfolding enter_epoch
    enter_epoch-Kept e p h = elim (Bool-cases (ltb p.current_epoch e)) [
      | inl later ↦ rw later (record { slot = h.slot; size_kept = h.size_kept; buffer = h.buffer })
      | inr same ↦ rw same h
    ]

    work_on-Kept : (a : Arrival) (block : MultiEraBlock) → Kept (work_on a block)
    unfolding work_on back_from_work
    work_on-Kept a block p h = by_result (
        process_transactions a.slot a.block_hash (block_timestamp_of p.system_start_ms a.slot) 0
          p.filter p.tracked_tokens block.txs _)
      where
        by_result : (r : Result ⊤ × Work) → IsBounded c size (back_from_work p r).1
        by_result (ok _, w) = record { slot = h.slot; size_kept = h.size_kept; buffer = h.buffer }
        by_result (err _, w) = record { slot = h.slot; size_kept = h.size_kept; buffer = h.buffer }

    advance-Kept : (a : Arrival) (info : RollbackInfo) → c ≤ a.slot → Kept (modify (advance a info))
    unfolding advance
    advance-Kept a info le p h = record {
      slot = le;
      size_kept = h.size_kept;
      buffer = rw h.size_kept (length-push_block info size p.rollback_buffer h.buffer);
    }

    save_current_tips-Kept : Kept save_current_tips
    unfolding save_current_tips
    save_current_tips-Kept p h = record {
      slot = h.slot;
      size_kept = h.size_kept;
      buffer = h.buffer;
    }

    when-Kept : (b : Bool) (m : Exec BlockProcessor ⊤) → Kept m → Kept (when b m)
    when-Kept true m k = k
    when-Kept false m k = λ p h. h

    take_snapshot-IsBounded :
        (later slot : ℕ) (p : BlockProcessor)
        → IsBounded c size p
        → IsBounded c size (take_snapshot later slot p)
    unfolding take_snapshot after_save
    take_snapshot-IsBounded later slot p h = by_result (Handle.save_snapshots slot p.storage)
      where
        by_result : (r : Result ⊤ × StorageManager) → IsBounded c size (after_save later slot p r)
        by_result (ok _, m) = record { slot = h.slot; size_kept = h.size_kept; buffer = h.buffer }
        by_result (err _, m) = record { slot = h.slot; size_kept = h.size_kept; buffer = h.buffer }

    snapshot_if_due-Kept : (a : Arrival) → Kept (snapshot_if_due a)
    unfolding snapshot_if_due
    snapshot_if_due-Kept a p h =
        elim (Bool-cases
          (SnapshotTimer.should_snapshot a.now a.slot p.chain_tip_slot p.snapshot_manager)) [
            | inl due ↦ rw due (take_snapshot-IsBounded a.later a.slot p h)
            | inr early ↦ rw early h
          ]

    finish_block-Kept :
        (a : Arrival) (block : MultiEraBlock) (b : Bool) (w : Work)
        → c ≤ a.slot
        → Kept (finish_block a block b w)
    unfolding finish_block
    finish_block-Kept a block b w le =
        let P = IsBounded c size in
        let events = on_storage (write_events w.rollback_info) in
        let metadata = on_storage (
          Handle.store_block_metadata a.block_hash a.slot w.rollback_info.timestamp
            block.previous_hash) in
        let moved : Exec BlockProcessor ⊤ = modify (advance a w.rollback_info) in
        let tips = when b save_current_tips in
        let done : Exec BlockProcessor BlockStats = pure w.stats in
        Keeps-then P events (metadata >> (moved >> (tips >> (snapshot_if_due a >> done))))
          (on_storage-Kept (write_events w.rollback_info))
          (Keeps-then P metadata (moved >> (tips >> (snapshot_if_due a >> done)))
            (on_storage-Kept (
              Handle.store_block_metadata a.block_hash a.slot w.rollback_info.timestamp
                block.previous_hash))
            (Keeps-then P moved (tips >> (snapshot_if_due a >> done))
              (advance-Kept a w.rollback_info le)
              (Keeps-then P tips (snapshot_if_due a >> done)
                (when-Kept b save_current_tips save_current_tips-Kept)
                (Keeps-then P (snapshot_if_due a) done (snapshot_if_due-Kept a) (λ p h. h)))))

  -- Whether it succeeds or fails, `process_block` never lowers the current slot, keeps the size of
  -- the rollback buffer, and leaves no more blocks in the buffer than its size, where there were
  -- no more before.
  pub process_block-IsBounded :
      (bytes : Bytes) (a : Arrival) (p : BlockProcessor)
      → length p.rollback_buffer ≤ p.rollback_buffer_size
      → IsBounded p.current_slot p.rollback_buffer_size (process_block bytes a p).1
  unfolding process_block
  process_block-IsBounded bytes a p h =
      let b : IsBounded p.current_slot p.rollback_buffer_size p = record {
        slot = omega arith;
        size_kept = refl;
        buffer = h;
      } in
      elim (Bool-cases (ltb a.slot p.current_slot)) [
        | inl before ↦ rw before b
        | inr after ↦ elim (Option-cases (X.decode_block bytes)) [
          | inl undecoded ↦ rw (after, undecoded) b
          | inr (block, decoded) ↦
              (let c = p.current_slot in
                let size = p.rollback_buffer_size in
                let finish : Bool → Exec BlockProcessor BlockStats =
                  λ e. work_on a block >>= finish_block a block e in
                rw (after, decoded)
                  (Keeps-bind (IsBounded c size) (enter_epoch (slot_to_epoch a.slot)) finish
                    (enter_epoch-Kept c size (slot_to_epoch a.slot))
                    (λ e.
                      Keeps-bind (IsBounded c size) (work_on a block) (finish_block a block e)
                        (work_on-Kept c size a block)
                        (λ w. finish_block-Kept c size a block e w (ground arith)))
                    p b))
        ]
      ]
