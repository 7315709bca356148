-- ===== src/Processor/Undo/Blocks.antt =====
-- `process_block` on a consistent storage, and the rollback of the block.
use hayate.Prelude.{
  ℕ, ◌≤◌, ◌≡◌, refl, fun_ext, sym, ap, ◌∙◌, Bool, true, false, some, List, [], arith, ltb,
  Bool-cases, inl, inr,
}
use hayate.Prelude.Text.{Bytes, Text}
use hayate.Result.{⊤, Exec, pure, modify, Returns, Returns-then, Returns-bind, when, ◌>>◌, ◌>>=◌}
use hayate.Chain.{MultiEraBlock}
use hayate.Externals.{Externals, Reliable}
use hayate.SnapshotTimer
use hayate.SnapshotTimer.{SnapshotManager}
use hayate.Storage.State.{NetworkStorage}
use hayate.Manager.{StorageManager, new}
use hayate.Handle
use hayate.Processor.State.{RollbackInfo, BlockStats, BlockProcessor, slot_to_epoch}
use hayate.Processor.Ledger.{held, IsConsistent}
use hayate.Processor.Transaction.Effects.{work}
use hayate.Processor.Block.{
  Arrival, block_timestamp_of, push_block, save_current_tips, enter_epoch, work_on, back_from_work,
  advance, after_save, take_snapshot, snapshot_if_due, on_storage, finish_block, process_block,
  write_events,
}
use hayate.Processor.Block.Success.{
  write_events-new, save_tips_of-new, SameFinds, save_snapshots-new, cleanup_snapshots-new,
}
use hayate.Processor.Rollback.{event_limit, rollback_block}
use hayate.Processor.Undo.{removed-at, restored-at, AllParse}
use hayate.Processor.Undo.Restorable.{Restorable-fewer}
use hayate.Processor.Undo.Forward.{process_transactions-Leads}
use hayate.Processor.Undo.RoundTrip.{
  IsReady, SameLedger, no_changes, start-Progress, Undoable, Progress-Undoable,
  rollback_block_on-Undoable,
}

module _ ⦃X : Externals⦄ (R : Reliable X) where
  -- The processor `p`, with the storage `s` at home.
  abbrev pub at_home : BlockProcessor → NetworkStorage → BlockProcessor
  at_home p s = record p { storage = new s }

  on_storage-at_home :
      {A : Type 0} (m : Exec StorageManager A) (p : BlockProcessor) (s s' : NetworkStorage) (x : A)
      → Returns m (new s) x (new s')
      → Returns (on_storage m) (at_home p s) x (at_home p s')
  on_storage-at_home m p s s' x e = rw e

  enter_epoch-at_home :
      (e : ℕ) (p : BlockProcessor)
      → (b : Bool) × (c : ℕ) × Returns (enter_epoch e) p b (record p { current_epoch = c })
  unfolding enter_epoch
  enter_epoch-at_home e p = elim (Bool-cases (ltb p.current_epoch e)) [
    | inl later ↦ (true, e, rw later)
    | inr same ↦ (false, p.current_epoch, rw same)
  ]

  save_current_tips-at_home :
      (b : Bool) (p : BlockProcessor) (s : NetworkStorage)
      → (t : X.Tree) × Returns
          (when b save_current_tips)
          (at_home p s)
          tt
          (at_home p (record s { chain_tip_tree = t }))
  unfolding save_current_tips
  save_current_tips-at_home true p s =
      let (t, e) = save_tips_of-new R p.wallet_ids p.rollback_buffer s in (t, rw e)
  save_current_tips-at_home false p s = (s.chain_tip_tree, refl)

  snapshot_if_due-at_home :
      (a : Arrival) (p : BlockProcessor) (s : NetworkStorage)
      → (s' : NetworkStorage) × (k : SnapshotManager) × Returns
          (snapshot_if_due a)
          (at_home p s)
          tt
          (record (at_home p s') { snapshot_manager = k })
        × SameFinds R s s'
  unfolding snapshot_if_due take_snapshot after_save
  snapshot_if_due-at_home a p s =
      elim (Bool-cases
        (SnapshotTimer.should_snapshot a.now a.slot p.chain_tip_slot p.snapshot_manager)) [
          | inl due ↦
              (let (e, same) = save_snapshots-new R a.slot s in
                (
                  _,
                  SnapshotTimer.record_snapshot a.later a.slot p.snapshot_manager,
                  rw (due, e, cleanup_snapshots-new R (some 10) _),
                  same,
                ))
          | inr early ↦ (
            s,
            p.snapshot_manager,
            rw early,
            record { utxos = λ j. refl; spent = λ j. refl; index = λ j. refl; balances = refl },
          )
        ]

  finish_block-at_home :
      (a : Arrival) (block : MultiEraBlock) (b : Bool) (p : BlockProcessor) (s : NetworkStorage)
      (st : BlockStats) (info : RollbackInfo)
      → AllParse info.utxos_spent
      → (s' : NetworkStorage) × (k : SnapshotManager) × Returns
          (finish_block a block b (work s st info))
          (at_home p s)
          st
          (record (at_home (advance a info p) s') { snapshot_manager = k })
        × SameFinds R s s'
  unfolding finish_block advance
  finish_block-at_home a block b p s st info h =
      let (t1, e1) = write_events-new R info s h in
      let s1 : NetworkStorage = record s { block_events_tree = t1 } in
      let (t2, e2) =
        Handle.Laws.store_block_metadata-new R s1 a.block_hash a.slot info.timestamp
          block.previous_hash in
      let s2 : NetworkStorage = record s1 { block_hash_index = t2 } in
      let p2 = advance a info p in
      let (t3, e3) = save_current_tips-at_home b p2 s2 in
      let s3 : NetworkStorage = record s2 { chain_tip_tree = t3 } in
      let (s4, k, e4, same) = snapshot_if_due-at_home a p2 s3 in
      let metadata =
        on_storage
          (Handle.store_block_metadata a.block_hash a.slot info.timestamp block.previous_hash) in
      let moved : Exec BlockProcessor ⊤ = modify (advance a info) in
      let tips = when b save_current_tips in
      let done : Exec BlockProcessor BlockStats = pure st in
      (
        s4,
        k,
        Returns-then (on_storage (write_events info))
            (metadata >> (moved >> (tips >> (snapshot_if_due a >> done))))
            (on_storage-at_home (write_events info) p s s1 tt e1)
            (Returns-then metadata (moved >> (tips >> (snapshot_if_due a >> done)))
              (on_storage-at_home
                (Handle.store_block_metadata a.block_hash a.slot info.timestamp block.previous_hash)
                p s1 s2 tt e2)
              (Returns-then tips (snapshot_if_due a >> done) e3
                (Returns-then (snapshot_if_due a) done e4 refl))),
        record {
          utxos = same.utxos;
          spent = same.spent;
          index = same.index;
          balances = same.balances;
        },
      )

  module _ (ks : List Text) where
    SameFinds-IsConsistent :
        {s s' : NetworkStorage} → SameFinds R s s' → IsConsistent R ks s → IsConsistent R ks s'
    SameFinds-IsConsistent q p = record {
      listed = λ k d h. p.listed k d (sym (q.utxos k) ∙ h);
      clean = λ k d b h. p.clean k d b (sym (q.utxos k) ∙ h);
      readable = λ k d h. p.readable k d (sym (q.utxos k) ∙ h);
      balanced = λ a.
          ap (λ t. R.total t a) q.balances
          ∙ (p.balanced a ∙ ap (held a ks) (fun_ext (λ j. sym (q.utxos j))));
      indexed = λ a k h. q.index _ ∙ rw (q.utxos k) (p.indexed a k h);
    }

    SameFinds-Undoable :
        {s0 s s' : NetworkStorage} {info : RollbackInfo}
        → SameFinds R s s'
        → Undoable R ks s0 s info
        → Undoable R ks s0 s' info
    SameFinds-Undoable {s = s} {s' = s'} {info = info} q p = record {
      consistent = SameFinds-IsConsistent q p.consistent;
      undo = λ j.
          removed-at info.utxos_created _ _ j (restored-at info.utxos_spent _ _ j (q.utxos j))
          ∙ p.undo j;
      undo_spent = λ j. removed-at info.spent_utxos_recorded _ _ j (q.spent j) ∙ p.undo_spent j;
      room = λ b. rw q.balances (p.room b);
      restorable =
          Restorable-fewer ks info.utxos_spent (R.find s.utxo_tree) (R.find s'.utxo_tree)
            (λ j h. q.utxos j ∙ h) p.restorable;
      parse = p.parse;
    }

    -- A block that decodes, is not before the current slot, and that a consistent storage is ready
    -- for, is processed with success: the current slot is the block's, the balances and the address
    -- index agree with the UTxOs, and the rollback information that is pushed on the buffer undoes
    -- the block: its rollback succeeds, and the UTxOs, the spent UTxOs, the balances and the entries
    -- of the address index are then what they were before the block.
    pub rollback_block-process_block :
        (bytes : Bytes) (a : Arrival) (p : BlockProcessor) (s : NetworkStorage)
        (block : MultiEraBlock)
        → X.decode_block bytes ≡ some block
        → p.current_slot ≤ a.slot
        → IsConsistent R ks s
        → IsReady R ks s block.txs
        → (st : BlockStats) × (p' : BlockProcessor) × (s' : NetworkStorage) × (info : RollbackInfo)
          × (s'' : NetworkStorage) × Returns (process_block bytes a) (at_home p s) st p'
          × (p'.storage ≡ new s')
          × (p'.current_slot ≡ a.slot)
          × (p'.rollback_buffer ≡ push_block info p.rollback_buffer_size p.rollback_buffer)
          × IsConsistent R ks s'
          × Returns (rollback_block info) p'.storage tt (new s'')
          × SameLedger R ks s s''
    unfolding process_block work_on back_from_work advance rollback_block
    rollback_block-process_block bytes a p s block decoded le c ready =
        let forward : ltb a.slot p.current_slot ≡ false = ground arith in
        let timestamp = block_timestamp_of p.system_start_ms a.slot in
        let i0 = no_changes R ks a.slot a.block_hash timestamp in
        let (b, epoch, e1) = enter_epoch-at_home (slot_to_epoch a.slot) (at_home p s) in
        let p1 : BlockProcessor = record p { current_epoch = epoch } in
        let st0 : BlockStats = record {
          slot = a.slot;
          block_hash = a.block_hash;
          tx_count = 0;
          utxos_created = 0;
          utxos_spent = 0;
          addresses_affected = [];
        } in
        let (s1, st, info, e2, x) =
          process_transactions-Leads R ks s i0 a.slot a.block_hash timestamp 0 p.filter
            p.tracked_tokens block.txs s st0 i0 ready.addresses ready.distinct
            (start-Progress R ks s block.txs a.slot a.block_hash timestamp c ready) in
        let (s2, k, e3, same) = finish_block-at_home a block b p1 s1 st info x.parse in
        let u = SameFinds-Undoable same (Progress-Undoable R ks i0 s s1 info x) in
        let (s3, e4, ledger) = rollback_block_on-Undoable R ks event_limit s s2 info c u in
        let p' : BlockProcessor = record (at_home (advance a info p1) s2) {
          snapshot_manager = k;
        } in
        let finish : Bool → Exec BlockProcessor BlockStats =
          λ e. work_on a block >>= finish_block a block e in
        let worked : Returns (work_on a block) (at_home p1 s) (work s1 st info) (at_home p1 s1) =
          rw e2 in
        (
          st,
          p',
          s2,
          info,
          s3,
          rw (forward, decoded)
              (Returns-bind (enter_epoch (slot_to_epoch a.slot)) finish e1
                (Returns-bind (work_on a block) (finish_block a block b) worked e3)),
          refl,
          refl,
          refl,
          u.consistent,
          e4,
          ledger,
        )
