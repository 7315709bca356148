-- ===== src/Processor/Transaction.antt =====
-- `process_transaction`, `process_input`, `process_output` and `track_tokens_in_transaction`
-- (src/indexer/block_processor.rs).
pub mod Effects
pub mod Histories
use hayate.Prelude.{
  ℕ, ◌+◌, ◌%◌, Bool, true, false, Option, none, some, List, [], ◌∷◌, ◌++◌, ◌&&◌, not, if◌then◌else◌,
}
use hayate.Prelude.Text.{Bytes, Text, codes, text_eq}
use hayate.Result.{
  Result, ok, err, address_failed, ⊤, Exec, pure, raise, lift, modify, when, ◌>>=◌, ◌>>◌, for_each,
}
use hayate.Json.{Json, number, string, object, Fields, end, field, insert_field, set_key}
use hayate.Chain.{
  MultiEraInput, MultiEraAsset, alonzo_compatible_output, conway_output, other, PolicyAssets,
  DatumOption, MultiEraOutput, MultiEraTx,
}
use hayate.Externals.{Externals}
use hayate.Manager.{StorageManager}
use hayate.Handle
use hayate.Filter.{WalletFilter, is_empty, is_our_address}
use hayate.Storage.Tips.{match_option}
use hayate.Processor.State.{TokenConfig, RollbackInfo, BlockStats, Work, ask, utxo_key_of, u64_mod}
use hayate.Processor.Entry.{address_in, debit, add_to_balance}

-- The block that a transaction stands in, as the methods are handed it.
pub record At : Type 0 where
  pub slot : ℕ
  pub block_hash : Bytes
  pub tx_index : ℕ
  pub block_timestamp : ℕ

-- `HashSet::insert`
insert_text : Text → List Text → List Text
insert_text a [] = a ∷ []
insert_text a (x ∷ xs) = if text_eq x a then x ∷ xs else x ∷ insert_text a xs

unfoldable pub affect : Text → BlockStats → BlockStats
unfolding insert_text
affect address stats = record stats {
  addresses_affected = insert_text address stats.addresses_affected;
}

-- `utxos_spent.push(…)` and `spent_utxos_recorded.push(…)`
unfoldable pub push_spent : Text → Bytes → Bytes → RollbackInfo → RollbackInfo
push_spent utxo_key utxo_data spend_event info = record info {
  utxos_spent = info.utxos_spent ++ (utxo_key, utxo_data, spend_event) ∷ [];
  spent_utxos_recorded = info.spent_utxos_recorded ++ utxo_key ∷ [];
}

unfoldable pub push_created : Text → RollbackInfo → RollbackInfo
push_created utxo_key info = record info { utxos_created = info.utxos_created ++ utxo_key ∷ [] }

asset_name : MultiEraAsset → Bytes
asset_name (alonzo_compatible_output name _) = name
asset_name (conway_output name _) = name
asset_name (other name _) = name

asset_amount : MultiEraAsset → ℕ
asset_amount (alonzo_compatible_output _ amount) = amount
asset_amount (conway_output _ amount) = amount
asset_amount (other _ _) = 0

module _ ⦃X : Externals⦄ where
  open X use {hex_encode, to_vec, from_slice, blake2b_256}

  abbrev pub on_stats : (BlockStats → BlockStats) → Exec Work ⊤
  on_stats f = modify (λ w. record w { stats = f w.stats })

  abbrev pub on_info : (RollbackInfo → RollbackInfo) → Exec Work ⊤
  on_info f = modify (λ w. record w { rollback_info = f w.rollback_info })

  unfoldable pub spend_event : At → Bytes → Json
  spend_event at spending_tx_hash = object (
      field (codes "spent_at_slot") (number at.slot) (
        field (codes "spent_at_block_hash") (string (hex_encode at.block_hash)) (
          field (codes "spent_at_tx_index") (number at.tx_index) (
            field (codes "spent_at_tx_hash") (string (hex_encode spending_tx_hash))
              (field (codes "spent_at_block_timestamp") (number at.block_timestamp) end)))))

  -- The stored UTxO that an input names is spent: `utxo_data` is what the storage holds.
  unfoldable pub spend_utxo : At → Bytes → Text → Bytes → Exec Work ⊤
  spend_utxo at spending_tx_hash utxo_key utxo_data = do
    match_option (address_in (from_slice utxo_data)) (pure tt) λ address. on_stats (affect address)
    ask (debit utxo_key utxo_data)
    spend_event_bytes ← lift (to_vec (spend_event at spending_tx_hash))
    ask (Handle.insert_spent_utxo utxo_key spend_event_bytes)
    on_info (push_spent utxo_key utxo_data spend_event_bytes)
    ask (Handle.delete_utxo utxo_key)
    on_stats (λ stats. record stats { utxos_spent = stats.utxos_spent + 1 })

  unfoldable pub process_input : At → Bytes → MultiEraInput → Exec Work ⊤
  process_input at spending_tx_hash input = do
    let utxo_key = utxo_key_of input.hash input.index
    found ← ask (Handle.get_utxo utxo_key)
    match_option found (pure tt) (spend_utxo at spending_tx_hash utxo_key)

  -- The map of a policy's assets, under `policy.name` keys.
  add_assets : Text → List MultiEraAsset → Fields → Fields
  add_assets policy_id_hex [] m = m
  add_assets policy_id_hex (asset ∷ rest) m = add_assets policy_id_hex rest (
      insert_field (policy_id_hex ++ (codes "." ++ hex_encode (asset_name asset)))
        (number (asset_amount asset)) m)

  assets_map : List PolicyAssets → Fields → Fields
  assets_map [] m = m
  assets_map (p ∷ rest) m = assets_map rest (add_assets (hex_encode p.policy) p.assets m)

  with_assets : List PolicyAssets → Json → Json
  with_assets [] j = j
  with_assets (p ∷ rest) j = set_key (codes "assets") (object (assets_map (p ∷ rest) end)) j

  with_datum : Option DatumOption → Json → Json
  with_datum none j = j
  with_datum (some (DatumOption.hash h)) j = set_key (codes "datum_hash") (string (hex_encode h)) j
  with_datum (some (DatumOption.inline datum_bytes)) j =
      set_key (codes "datum") (string (hex_encode datum_bytes))
        (set_key (codes "datum_hash") (string (hex_encode (blake2b_256 datum_bytes))) j)

  -- The fields that every record of an output has.
  abbrev pub base_json : At → Bytes → ℕ → Bytes → ℕ → Json
  base_json at tx_hash output_idx address_bytes lovelace = object (
      field (codes "tx_hash") (string (hex_encode tx_hash)) (
        field (codes "output_index") (number output_idx) (
          field (codes "address") (string (hex_encode address_bytes)) (
            field (codes "amount") (number lovelace) (
              field (codes "slot") (number at.slot) (
                field (codes "block_hash") (string (hex_encode at.block_hash)) (
                  field (codes "tx_index") (number at.tx_index)
                    (field (codes "block_timestamp") (number at.block_timestamp) end))))))))

  -- The record of an output; the script reference is never written.
  unfoldable pub utxo_json : At → Bytes → ℕ → Bytes → MultiEraOutput → Json
  unfolding with_assets with_datum assets_map add_assets asset_name asset_amount
  utxo_json at tx_hash output_idx address_bytes output =
      with_datum output.datum
        (with_assets output.assets (base_json at tx_hash output_idx address_bytes output.coin))

  -- The test that skips an output.
  unfoldable pub is_tracked : WalletFilter → Bytes → Bool
  is_tracked filter address_bytes =
      not (not (is_our_address address_bytes filter) && not (is_empty filter.tracked_payment_keys))

  -- An output that is tracked is stored.
  unfoldable pub create_utxo : At → Bytes → ℕ → Bytes → MultiEraOutput → Exec Work ⊤
  create_utxo at tx_hash output_idx address_bytes output = do
    let utxo_key = utxo_key_of tx_hash output_idx
    let address_hex = hex_encode address_bytes
    utxo_bytes ← lift (to_vec (utxo_json at tx_hash output_idx address_bytes output))
    ask (Handle.insert_utxo utxo_key utxo_bytes)
    on_info (push_created utxo_key)
    ask (add_to_balance address_hex output.coin)
    ask (Handle.add_utxo_to_address_index address_hex utxo_key)
    on_stats
        (λ stats. affect address_hex (record stats { utxos_created = stats.utxos_created + 1 }))

  unfoldable pub process_output : At → WalletFilter → Bytes → ℕ → MultiEraOutput → Exec Work ⊤
  process_output at filter tx_hash output_idx output =
      match_option output.address (raise address_failed) λ address_bytes.
        when (is_tracked filter address_bytes)
          (create_utxo at tx_hash output_idx address_bytes output)

  -- `for (output_idx, output) in outputs.iter().enumerate()`
  unfoldable pub process_outputs : At → WalletFilter → Bytes → ℕ → List MultiEraOutput → Exec Work ⊤
  process_outputs at filter tx_hash output_idx [] = pure tt
  process_outputs at filter tx_hash output_idx (output ∷ rest) =
      process_output at filter tx_hash output_idx output
      >> process_outputs at filter tx_hash (output_idx + 1) rest

  -- A tracked token against the assets of a policy.
  index_assets : Text → Text → Option Text → MultiEraAsset → Exec StorageManager ⊤
  index_assets policy_id_hex tx_hash_hex none asset =
      Handle.add_tx_to_asset_index policy_id_hex (hex_encode (asset_name asset)) tx_hash_hex
  index_assets policy_id_hex tx_hash_hex (some tracked_asset_name) asset =
      when (text_eq (hex_encode (asset_name asset)) tracked_asset_name)
        (Handle.add_tx_to_asset_index policy_id_hex (hex_encode (asset_name asset)) tx_hash_hex)

  track_token : Text → PolicyAssets → TokenConfig → Exec StorageManager ⊤
  track_token tx_hash_hex p token = when (text_eq token.policy_id (hex_encode p.policy)) (
      Handle.add_tx_to_policy_index (hex_encode p.policy) tx_hash_hex
      >> for_each p.assets (index_assets (hex_encode p.policy) tx_hash_hex token.asset_name))

  unfoldable pub track_tokens_in_transaction :
      List TokenConfig → List MultiEraOutput → Text → Exec StorageManager ⊤
  unfolding for_each track_token index_assets asset_name
  track_tokens_in_transaction tokens outputs tx_hash_hex =
      for_each outputs
        λ output. for_each output.assets λ p. for_each tokens (track_token tx_hash_hex p)

  -- The history of every address that the block has affected so far.
  unfoldable pub extend_histories : Text → Exec Work ⊤
  extend_histories tx_hash_hex w =
      ask
        (for_each w.stats.addresses_affected
          λ address_hex. Handle.add_tx_to_address_history address_hex tx_hash_hex)
        w

  unfoldable pub process_transaction :
      At → WalletFilter → List TokenConfig → MultiEraTx → Exec Work ⊤
  unfolding for_each extend_histories
  process_transaction at filter tokens tx = do
    on_stats (λ stats. record stats { tx_count = stats.tx_count + 1 })
    for_each tx.inputs (process_input at tx.hash)
    process_outputs at filter tx.hash 0 tx.outputs
    extend_histories (hex_encode tx.hash)
    when (not (is_empty tokens))
        (ask (track_tokens_in_transaction tokens tx.outputs (hex_encode tx.hash)))
