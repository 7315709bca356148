-- ===== src/Storage/Indexes.antt =====
-- The indexes of `NetworkStorage` (src/indexer/mod.rs). Each entry is a key of a tree, the owner
-- and the member joined by `:`, and a query is a scan of the owner's prefix.
pub mod Laws
use hayate.Prelude.{Option, none, some, List, [], ◌∷◌, ◌++◌, and_then}
use hayate.Prelude.Text.{Bytes, Text, codes, strip_prefix}
use hayate.Prelude.Utf8.{from_utf8}
use hayate.Result.{ok, ⊤, Exec, gets}
use hayate.Externals.{Externals}
use hayate.Storage.State.{
  NetworkStorage, Field, write, remove, address_utxos, address_txs, policy_txs, asset_txs,
}

-- What stands behind the prefix of a key, if the key is text.
abbrev pub member_of : Text → Bytes → Option Text
member_of prefix key = and_then (from_utf8 key) (strip_prefix prefix)

abbrev pub push_some : Option Text → List Text → List Text
push_some none more = more
push_some (some m) more = m ∷ more

-- The loop of every query over the entries that a scan returns.
unfoldable pub members : Text → List (Bytes × Bytes) → List Text
members prefix [] = []
members prefix ((key, _) ∷ rest) = push_some (member_of prefix key) (members prefix rest)

-- The 1-byte marker that an index entry stores.
abbrev pub marker : Bytes
marker = 1 ∷ []

-- `format!("{}:{}", owner, member)`
abbrev pub entry_key : Text → Text → Text
entry_key owner member = owner ++ (codes ":" ++ member)

-- `format!("{}:", owner)`
abbrev pub owner_prefix : Text → Text
owner_prefix owner = owner ++ codes ":"

-- `format!("{}:{}", policy_id_hex, asset_name_hex)`
abbrev pub asset_owner : Text → Text → Text
asset_owner policy_id_hex asset_name_hex = policy_id_hex ++ (codes ":" ++ asset_name_hex)

module _ ⦃X : Externals⦄ where
  open X use {scan_prefix}

  abbrev pub query : Field → Text → Exec NetworkStorage (List Text)
  query f owner s =
      (ok (members (owner_prefix owner) (scan_prefix (f.look s) (owner_prefix owner))), s)

  unfoldable pub add_utxo_to_address_index : Text → Text → Exec NetworkStorage ⊤
  add_utxo_to_address_index address_hex utxo_key =
      write address_utxos (entry_key address_hex utxo_key) marker

  unfoldable pub remove_utxo_from_address_index : Text → Text → Exec NetworkStorage ⊤
  remove_utxo_from_address_index address_hex utxo_key =
      remove address_utxos (entry_key address_hex utxo_key)

  unfoldable pub get_utxos_for_address : Text → Exec NetworkStorage (List Text)
  get_utxos_for_address address_hex = query address_utxos address_hex

  unfoldable pub add_tx_to_address_history : Text → Text → Exec NetworkStorage ⊤
  add_tx_to_address_history address_hex tx_hash_hex =
      write address_txs (entry_key address_hex tx_hash_hex) marker

  unfoldable pub get_tx_history_for_address : Text → Exec NetworkStorage (List Text)
  get_tx_history_for_address address_hex = query address_txs address_hex

  unfoldable pub add_tx_to_policy_index : Text → Text → Exec NetworkStorage ⊤
  add_tx_to_policy_index policy_id_hex tx_hash_hex =
      write policy_txs (entry_key policy_id_hex tx_hash_hex) marker

  unfoldable pub get_txs_for_policy : Text → Exec NetworkStorage (List Text)
  get_txs_for_policy policy_id_hex = query policy_txs policy_id_hex

  unfoldable pub add_tx_to_asset_index : Text → Text → Text → Exec NetworkStorage ⊤
  add_tx_to_asset_index policy_id_hex asset_name_hex tx_hash_hex =
      write asset_txs (entry_key (asset_owner policy_id_hex asset_name_hex) tx_hash_hex) marker

  unfoldable pub get_txs_for_asset : Text → Text → Exec NetworkStorage (List Text)
  get_txs_for_asset policy_id_hex asset_name_hex =
      query asset_txs (asset_owner policy_id_hex asset_name_hex)
