-- ===== src/Storage/Tips.antt =====
-- Chain tips, wallet tips, nonces and block metadata of `NetworkStorage` (src/indexer/mod.rs):
-- JSON records under fixed or formatted keys of a tree.
pub mod Laws
use hayate.Prelude.{
  ℕ, Option, none, some, List, [], ◌∷◌, ◌++◌, if◌then◌else◌, ltb, unwrap_or, and_then,
}
use hayate.Prelude.Text.{Bytes, Text, codes}
use hayate.Prelude.Decimal.{show}
use hayate.Result.{Result, ok, map_ok, ⊤, Exec, pure, lift, ◌>>=◌, ◌>>◌}
use hayate.Json.{Json, number, string, object, end, field, str_field, u64_field, option_string}
use hayate.Externals.{Externals}
use hayate.Storage.State.{
  ChainTip, BlockMetadata, NetworkStorage, read, write, remove, nonces, chain_tips, block_hashes,
}
use mathlib.Core.Option

-- What `Option` gives to a `match` with an action for each case.
abbrev pub match_option : {S A B : Type 0} → Option A → Exec S B → (A → Exec S B) → Exec S B
match_option none m f = m
match_option (some a) m f = f a

module _ ⦃X : Externals⦄ where
  open X use {to_vec, from_slice, hex_encode, hex_decode}

  abbrev pub nonce_key : ℕ → Text
  nonce_key epoch = codes "nonce:" ++ show epoch

  unfoldable pub store_nonce : ℕ → Bytes → Exec NetworkStorage ⊤
  store_nonce epoch nonce = write nonces (nonce_key epoch) nonce

  unfoldable pub get_nonce : ℕ → Exec NetworkStorage (Option Bytes)
  get_nonce epoch = read nonces (nonce_key epoch)

  -- The JSON that a tip is stored as.
  abbrev pub tip_data : ℕ → Bytes → ℕ → Json
  tip_data slot hash timestamp = object (
      field (codes "slot") (number slot) (
        field (codes "hash") (string (hex_encode hash))
          (field (codes "timestamp") (number timestamp) end)))

  abbrev pub tip_of : Json → ChainTip
  tip_of j = record {
    height = 0;
    slot = unwrap_or (u64_field (codes "slot") j) 0;
    hash = unwrap_or (hex_decode (unwrap_or (str_field (codes "hash") j) [])) [];
    timestamp = unwrap_or (u64_field (codes "timestamp") j) 0;
  }

  abbrev pub decode_tip : Option Bytes → Result (Option ChainTip)
  decode_tip none = ok none
  decode_tip (some value) = map_ok (λ j. some (tip_of j)) (from_slice value)

  unfoldable pub store_tip : Text → ℕ → Bytes → ℕ → Exec NetworkStorage ⊤
  store_tip key slot hash timestamp = do
    v ← lift (to_vec (tip_data slot hash timestamp))
    write chain_tips key v

  unfoldable pub get_tip : Text → Exec NetworkStorage (Option ChainTip)
  get_tip key = do found ← read chain_tips key; lift (decode_tip found)

  abbrev pub current_tip : Text
  current_tip = codes "current_tip"

  abbrev pub wallet_tip_key : Text → Text
  wallet_tip_key wallet_id = codes "wallet_tip:" ++ wallet_id

  unfoldable pub store_chain_tip : ℕ → Bytes → ℕ → Exec NetworkStorage ⊤
  unfolding store_tip
  store_chain_tip = store_tip current_tip

  unfoldable pub get_chain_tip : Exec NetworkStorage (Option ChainTip)
  unfolding get_tip
  get_chain_tip = get_tip current_tip

  unfoldable pub store_wallet_tip : Text → ℕ → Bytes → ℕ → Exec NetworkStorage ⊤
  unfolding store_tip
  store_wallet_tip wallet_id = store_tip (wallet_tip_key wallet_id)

  unfoldable pub get_wallet_tip : Text → Exec NetworkStorage (Option ChainTip)
  unfolding get_tip
  get_wallet_tip wallet_id = get_tip (wallet_tip_key wallet_id)

  -- One more wallet's tip, against the least so far.
  unfoldable pub lower_tip : Option ChainTip → ChainTip → ChainTip
  lower_tip none tip = tip
  lower_tip (some current_min) tip = if ltb tip.slot current_min.slot then tip else current_min

  -- The loop over the wallets; a wallet with no tip ends it.
  unfoldable pub min_tip_from : Option ChainTip → List Text → Exec NetworkStorage (Option ChainTip)
  min_tip_from min_tip [] = pure min_tip
  min_tip_from min_tip (wallet_id ∷ rest) = do
    found ← get_wallet_tip wallet_id
    match_option found (pure none) λ tip. min_tip_from (some (lower_tip min_tip tip)) rest

  unfoldable pub get_min_wallet_tip : List Text → Exec NetworkStorage (Option ChainTip)
  unfolding min_tip_from lower_tip
  get_min_wallet_tip [] = get_chain_tip
  get_min_wallet_tip (wallet_id ∷ rest) = min_tip_from none (wallet_id ∷ rest)

  abbrev pub metadata_json : ℕ → ℕ → Option Bytes → Json
  metadata_json slot timestamp prev_hash = object (
      field (codes "slot") (number slot) (
        field (codes "timestamp") (number timestamp)
          (field (codes "prev_hash") (option_string (Option.map hex_encode prev_hash)) end)))

  unfoldable pub store_block_metadata : Bytes → ℕ → ℕ → Option Bytes → Exec NetworkStorage ⊤
  store_block_metadata block_hash slot timestamp prev_hash = do
    v ← lift (to_vec (metadata_json slot timestamp prev_hash))
    write block_hashes block_hash v

  abbrev pub metadata_of : Json → BlockMetadata
  metadata_of j = (
    unwrap_or (u64_field (codes "slot") j) 0,
    unwrap_or (u64_field (codes "timestamp") j) 0,
    and_then (str_field (codes "prev_hash") j) hex_decode,
  )

  abbrev pub decode_metadata : Option Bytes → Result (Option BlockMetadata)
  decode_metadata none = ok none
  decode_metadata (some value) = map_ok (λ j. some (metadata_of j)) (from_slice value)

  unfoldable pub get_block_metadata : Bytes → Exec NetworkStorage (Option BlockMetadata)
  get_block_metadata block_hash = do
    found ← read block_hashes block_hash
    lift (decode_metadata found)

  unfoldable pub delete_block_metadata : Bytes → Exec NetworkStorage ⊤
  delete_block_metadata block_hash = remove block_hashes block_hash
