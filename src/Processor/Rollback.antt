-- ===== src/Processor/Rollback.antt =====
-- `rollback_to` and `rollback_block` (src/indexer/block_processor.rs).
pub mod Events
pub mod Rewinds
use hayate.Prelude.{
  ℕ, zero, suc, ◌+◌, ◌-◌, Bool, true, false, Option, none, some, List, [], ◌∷◌, ltb, leb, ◌==◌,
  is_some, if◌then◌else◌, ◌&&◌,
}
use hayate.Prelude.Text.{Bytes, Text}
use hayate.Result.{Result, ok, err, ⊤, Exec, pure, gets, modify, when, ◌>>=◌, ◌>>◌, for_each}
use hayate.Externals.{Externals}
use hayate.Manager.{StorageManager}
use hayate.Handle
use hayate.Storage.State.{ChainTip}
use hayate.Storage.Tips.{match_option}
use hayate.Processor.State.{RollbackInfo, BlockProcessor, event_key}
use hayate.Processor.Entry.{credit, debit}
use hayate.Processor.Block.{on_storage, store_wallet_tips}

-- The events that a rolled back block may have: the bound of the deletion loop.
abbrev pub event_limit : ℕ
event_limit = 100_000

module _ ⦃X : Externals⦄ where
  -- `for (utxo_key, utxo_data, _) in &info.utxos_spent`
  unfoldable pub restore_spent : List (Text × Bytes × Bytes) → Exec StorageManager ⊤
  restore_spent [] = pure tt
  restore_spent ((utxo_key, utxo_data, _) ∷ rest) =
      Handle.insert_utxo utxo_key utxo_data >> (credit utxo_key utxo_data >> restore_spent rest)

  unfoldable pub forget_spent : List Text → Exec StorageManager ⊤
  forget_spent [] = pure tt
  forget_spent (utxo_key ∷ rest) = Handle.delete_spent_utxo utxo_key >> forget_spent rest

  -- `rounds` are left of the loop over event indexes; the first missing event ends it.
  unfoldable pub delete_events : ℕ → ℕ → ℕ → Exec StorageManager ⊤
  delete_events zero slot event_index = pure tt
  delete_events (suc rounds) slot event_index = do
    found ← Handle.get_block_event (event_key slot event_index)
    match_option found (pure tt) λ _. do
      Handle.delete_block_event (event_key slot event_index)
      delete_events rounds slot (event_index + 1)

  -- `for utxo_key in &info.utxos_created`
  unfoldable pub delete_created : List Text → Exec StorageManager ⊤
  delete_created [] = pure tt
  delete_created (utxo_key ∷ rest) =
      (Handle.get_utxo utxo_key >>= λ found. match_option found (pure tt) (debit utxo_key))
      >> (Handle.delete_utxo utxo_key >> delete_created rest)

  unfoldable pub rollback_block_on : ℕ → RollbackInfo → Exec StorageManager ⊤
  rollback_block_on limit info = do
    Handle.delete_block_metadata info.block_hash
    restore_spent info.utxos_spent
    forget_spent info.spent_utxos_recorded
    delete_events limit info.slot 0
    delete_created info.utxos_created

  -- `rollback_block`
  unfoldable pub rollback_block : RollbackInfo → Exec StorageManager ⊤
  rollback_block = rollback_block_on event_limit

  -- The loop over the buffer, newest block first: it returns how many blocks it rolled back and
  -- what is left of the buffer. A block is off the buffer before it is rolled back.
  unfoldable pub rollback_buffered :
      ℕ → ℕ → List RollbackInfo → StorageManager → Result ℕ × List RollbackInfo × StorageManager
  rollback_buffered target_slot count [] m = (ok count, [], m)
  rollback_buffered target_slot count (info ∷ rest) m =
      if leb info.slot target_slot
      then (ok count, info ∷ rest, m)
      else let (r, m') = rollback_block info m in
        elim r as (λ _. Result ℕ × List RollbackInfo × StorageManager) [
          | ok _ ↦ rollback_buffered target_slot (count + 1) rest m'
          | err e ↦ (err e, rest, m')
        ]

  unfoldable pub pop_blocks : ℕ → Exec BlockProcessor ℕ
  pop_blocks target_slot p =
      let (r, buffer, m) = rollback_buffered target_slot 0 p.rollback_buffer p.storage in
      (r, record p { rollback_buffer = buffer; storage = m })

  -- What follows the buffer: the tips go to the target with an empty hash.
  unfoldable pub rewind_tips : ℕ → ℕ → ℕ → Exec BlockProcessor ℕ
  rewind_tips target_slot stored_slot blocks_rolled_back = do
    on_storage (Handle.store_chain_tip target_slot [] 0)
    (λ p. on_storage (store_wallet_tips p.wallet_ids target_slot [] 0) p)
    modify (λ p. record p { current_slot = target_slot })
    pure (
        if blocks_rolled_back == 0 && ltb target_slot stored_slot
        then stored_slot - target_slot
        else blocks_rolled_back)

  unfoldable pub rollback_to : ℕ → Exec BlockProcessor ℕ
  unfolding pop_blocks rewind_tips
  rollback_to target_slot = do
    tip ← on_storage Handle.get_chain_tip
    let stored_slot = elim tip as (λ _. ℕ) [ none ↦ 0 | some t ↦ t.slot ]
    if leb stored_slot target_slot
        then pure 0
        else do count ← pop_blocks target_slot; rewind_tips target_slot stored_slot count
