-- ===== src/Processor/Entry.antt =====
-- What the block processor does to the balance and the address index for one stored UTxO: the
-- blocks under `serde_json::from_slice(utxo_data)` in `process_input` and `rollback_block`
-- (src/indexer/block_processor.rs).
pub mod Laws
use hayate.Prelude.{ℕ, ◌+◌, ◌-◌, ◌%◌, Option, none, some}
use hayate.Prelude.Text.{Bytes, Text, codes}
use hayate.Result.{Result, ok, err, ⊤, Exec, pure, ◌>>=◌, ◌>>◌}
use hayate.Json.{Json, str_field, u64_field}
use hayate.Externals.{Externals}
use hayate.Manager.{StorageManager}
use hayate.Handle
use hayate.Storage.Tips.{match_option}
use hayate.Processor.State.{u64_mod}

module _ ⦃X : Externals⦄ where
  open X use {from_slice}

  -- The `address` and the `amount` of stored data, if it is JSON and has them.
  abbrev pub address_in : Result Json → Option Text
  address_in (ok j) = str_field (codes "address") j
  address_in (err _) = none

  abbrev pub amount_in : Result Json → Option ℕ
  amount_in (ok j) = u64_field (codes "amount") j
  amount_in (err _) = none

  -- `current_balance + amount`, which wraps in a release build.
  unfoldable pub add_to_balance : Text → ℕ → Exec StorageManager ⊤
  add_to_balance address amount = do
    current_balance ← Handle.get_balance address
    Handle.update_balance address ((current_balance + amount) % u64_mod)

  -- `current_balance.saturating_sub(amount)`
  unfoldable pub subtract_from_balance : Text → ℕ → Exec StorageManager ⊤
  subtract_from_balance address amount = do
    current_balance ← Handle.get_balance address
    Handle.update_balance address (current_balance - amount)

  unfoldable pub debit_entry : Option Text → Option ℕ → Text → Exec StorageManager ⊤
  debit_entry none amount utxo_key = pure tt
  debit_entry (some address) amount utxo_key = do
    match_option amount (pure tt) (subtract_from_balance address)
    Handle.remove_utxo_from_address_index address utxo_key

  unfoldable pub credit_entry : Option Text → Option ℕ → Text → Exec StorageManager ⊤
  credit_entry none amount utxo_key = pure tt
  credit_entry (some address) amount utxo_key = do
    match_option amount (pure tt) (add_to_balance address)
    Handle.add_utxo_to_address_index address utxo_key

  -- The UTxO leaves its address.
  unfoldable pub debit : Text → Bytes → Exec StorageManager ⊤
  debit utxo_key utxo_data =
      debit_entry (address_in (from_slice utxo_data)) (amount_in (from_slice utxo_data)) utxo_key

  -- The UTxO comes back to its address.
  unfoldable pub credit : Text → Bytes → Exec StorageManager ⊤
  credit utxo_key utxo_data =
      credit_entry (address_in (from_slice utxo_data)) (amount_in (from_slice utxo_data)) utxo_key
