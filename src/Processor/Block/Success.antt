-- ===== src/Processor/Block/Success.antt =====
-- The parts of `process_block` after the transactions succeed, and keep what a rollback needs.
use hayate.Prelude.{ℕ, ◌+◌, ◌≡◌, refl, Option, List, [], ◌∷◌, Option-cases, inl, inr}
use hayate.Prelude.Text.{Bytes, Text, codes}
use hayate.Result.{ok, err, Returns}
use hayate.Json.{Json, string, null, object, field, end}
use hayate.Externals.{Externals, Reliable}
use hayate.Storage.State.{NetworkStorage}
use hayate.Storage.Snapshots
use hayate.Storage.Snapshots.{snapshot_name, snapshot_label}
use hayate.Manager.{new, send, execute, serve}
use hayate.Handle
use hayate.Processor.State.{RollbackInfo, event_key}
use hayate.Processor.Block.{
  write_created, write_spent, write_events, store_wallet_tips, save_tips_of,
}
use hayate.Processor.Undo.{AllParse}

module _ ⦃X : Externals⦄ (R : Reliable X) where
  pub write_created-new :
      (slot i : ℕ) (keys : List Text) (s : NetworkStorage)
      → (n : ℕ) × (t : X.Tree) × Returns
          (write_created slot i keys)
          (new s)
          n
          (new (record s { block_events_tree = t }))
  unfolding write_created
  write_created-new slot i [] s = (i, s.block_events_tree, refl)
  write_created-new slot i (k ∷ keys) s = elim (Option-cases (R.find s.utxo_tree k)) [
    | inl absent ↦
        (let (n, t, e) = write_created-new slot i keys s in
          (n, t, rw (Handle.Laws.get_utxo-new R s k, absent) e))
    | inr (d, there) ↦
        (let v = R.written (
            object (
              field (codes "event_type") (string (codes "CREATED")) (
                field (codes "utxo_key") (string k) (
                  field (codes "utxo_data")
                    (elim (X.from_slice d) as (λ _. Json) [ ok j ↦ j | err _ ↦ null ]) end)))) in
          let s1 : NetworkStorage = record s {
            block_events_tree = (X.insert s.block_events_tree (event_key slot i) v).1;
          } in
          let (n, t, e) = write_created-new slot (i + 1) keys s1 in
          (
            n,
            t,
            rw
                (
                  Handle.Laws.get_utxo-new R s k,
                  there,
                  R.to_vec_lem,
                  Handle.Laws.insert_block_event-new R s (event_key slot i) v,
                )
                e,
          ))
  ]

  pub write_spent-new :
      (slot i : ℕ) (l : List (Text × Bytes × Bytes)) (s : NetworkStorage)
      → AllParse l
      → (t : X.Tree) × Returns
          (write_spent slot i l)
          (new s)
          tt
          (new (record s { block_events_tree = t }))
  unfolding write_spent
  write_spent-new slot i [] s h = (s.block_events_tree, refl)
  write_spent-new slot i ((k, d, ev) ∷ l) s (((j, read), (q, also)), all) =
      let v = R.written (
        object (
          field (codes "event_type") (string (codes "SPENT")) (
            field (codes "utxo_key") (string k)
              (field (codes "utxo_data") j (field (codes "spend_data") q end))))) in
      let s1 : NetworkStorage = record s {
        block_events_tree = (X.insert s.block_events_tree (event_key slot i) v).1;
      } in
      let (t, e) = write_spent-new slot (i + 1) l s1 all in
      (
        t,
        rw (read, also, R.to_vec_lem, Handle.Laws.insert_block_event-new R s (event_key slot i) v)
            e,
      )

  pub write_events-new :
      (info : RollbackInfo) (s : NetworkStorage)
      → AllParse info.utxos_spent
      → (t : X.Tree) × Returns
          (write_events info)
          (new s)
          tt
          (new (record s { block_events_tree = t }))
  unfolding write_events
  write_events-new info s h =
      let (n, t1, e1) = write_created-new info.slot 0 info.utxos_created s in
      let s1 : NetworkStorage = record s { block_events_tree = t1 } in
      let (t2, e2) = write_spent-new info.slot n info.utxos_spent s1 h in (t2, rw e1 e2)

  pub store_wallet_tips-new :
      (ids : List Text) (slot : ℕ) (hash : Bytes) (timestamp : ℕ) (s : NetworkStorage)
      → (t : X.Tree) × Returns
          (store_wallet_tips ids slot hash timestamp)
          (new s)
          tt
          (new (record s { chain_tip_tree = t }))
  unfolding store_wallet_tips
  store_wallet_tips-new [] slot hash timestamp s = (s.chain_tip_tree, refl)
  store_wallet_tips-new (w ∷ ids) slot hash timestamp s =
      let (t1, e1) = Handle.Laws.store_wallet_tip-new R s w slot hash timestamp in
      let s1 : NetworkStorage = record s { chain_tip_tree = t1 } in
      let (t2, e2) = store_wallet_tips-new ids slot hash timestamp s1 in (t2, rw e1 e2)

  pub save_tips_of-new :
      (ids : List Text) (buffer : List RollbackInfo) (s : NetworkStorage)
      → (t : X.Tree) × Returns
          (save_tips_of ids buffer)
          (new s)
          tt
          (new (record s { chain_tip_tree = t }))
  unfolding save_tips_of
  save_tips_of-new ids [] s = (s.chain_tip_tree, refl)
  save_tips_of-new ids (b ∷ _) s =
      let (t1, e1) = Handle.Laws.store_chain_tip-new R s b.slot b.block_hash b.timestamp in
      let s1 : NetworkStorage = record s { chain_tip_tree = t1 } in
      let (t2, e2) = store_wallet_tips-new ids b.slot b.block_hash b.timestamp s1 in (t2, rw e1 e2)

  -- Storages whose UTxOs, spent UTxOs, balances and address indexes cannot be told apart.
  pub record SameFinds (s s' : NetworkStorage) : Type 0 where
    pub utxos : (j : Text) → R.find s'.utxo_tree j ≡ R.find s.utxo_tree j
    pub spent : (j : Text) → R.find s'.spent_utxo_index j ≡ R.find s.spent_utxo_index j
    pub index : (j : Text) → R.find s'.address_utxo_index j ≡ R.find s.address_utxo_index j
    pub balances : s'.balance_tree ≡ s.balance_tree

  -- Every tree that is saved, in the order of the saves.
  abbrev saved : ℕ → NetworkStorage → NetworkStorage
  saved slot s =
      let after : X.Tree → X.Tree =
        λ t. (X.save_snapshot t (snapshot_name slot) (snapshot_label slot)).1 in
      record s {
        utxo_tree = after s.utxo_tree;
        governance_tree = after s.governance_tree;
        nonce_tree = after s.nonce_tree;
        chain_tip_tree = after s.chain_tip_tree;
        address_utxo_index = after s.address_utxo_index;
        address_tx_index = after s.address_tx_index;
        policy_tx_index = after s.policy_tx_index;
        asset_tx_index = after s.asset_tx_index;
        spent_utxo_index = after s.spent_utxo_index;
        block_events_tree = after s.block_events_tree;
        block_hash_index = after s.block_hash_index;
        rewards_tracker = record s.rewards_tracker {
          snapshots = after s.rewards_tracker.snapshots;
          withdrawals = after s.rewards_tracker.withdrawals;
          delegations = after s.rewards_tracker.delegations;
        };
      }

  pub save_snapshots-new :
      (slot : ℕ) (s : NetworkStorage)
      → Returns (Handle.save_snapshots slot) (new s) tt (new (saved slot s))
        × SameFinds s (saved slot s)
  unfolding Handle.save_snapshots Snapshots.save_all_snapshots Snapshots.save_rewards_snapshot send
      execute serve new
  save_snapshots-new slot s =
      let ok_at : (t : X.Tree)
          → (X.save_snapshot t (snapshot_name slot) (snapshot_label slot)).0 ≡ ok tt =
        λ t. R.save_succeeds t (snapshot_name slot) (snapshot_label slot) in
      (
        rw (
          ok_at s.utxo_tree,
          ok_at s.governance_tree,
          ok_at s.nonce_tree,
          ok_at s.chain_tip_tree,
          ok_at s.address_utxo_index,
          ok_at s.address_tx_index,
          ok_at s.policy_tx_index,
          ok_at s.asset_tx_index,
          ok_at s.spent_utxo_index,
          ok_at s.block_events_tree,
          ok_at s.block_hash_index,
          ok_at s.rewards_tracker.snapshots,
          ok_at s.rewards_tracker.withdrawals,
          ok_at s.rewards_tracker.delegations,
        ),
        record {
          utxos = λ j. R.find-save_snapshot s.utxo_tree _ _ j;
          spent = λ j. R.find-save_snapshot s.spent_utxo_index _ _ j;
          index = λ j. R.find-save_snapshot s.address_utxo_index _ _ j;
          balances = refl;
        },
      )

  pub cleanup_snapshots-new :
      (keep : Option ℕ) (s : NetworkStorage)
      → Returns (Handle.cleanup_snapshots keep) (new s) tt (new s)
  unfolding Handle.cleanup_snapshots Snapshots.cleanup_all_snapshots send execute serve new
  cleanup_snapshots-new keep s = refl
