-- ===== src/Wallet/Selection.antt =====
-- The choice of the inputs of a transaction (src/wallet/unified_tx/builder.rs, select_coins). A
-- `BTreeMap` is a list of its entries in the order of the keys.
pub mod Laws
mod Order
pub mod Worth
use hayate.Prelude.{
  ℕ, ◌+◌, ◌-◌, Bool, true, false, not, ◌&&◌, Option, none, some, List, [], ◌∷◌, ◌++◌, ◌⊎◌, inl, inr,
  ltb, leb, ◌==◌, if◌then◌else◌,
}
use hayate.Prelude.Text.{Bytes, Text, codes, text_eq}
use hayate.Prelude.Decimal.{u64_limit}
use hayate.Prelude.Sorting.{filter, text_leb}
use hayate.Externals.{Externals}

pub record AssetData : Type 0 where
  pub policy_id : Bytes
  pub asset_name : Bytes
  pub amount : ℕ

pub record UtxoData : Type 0 where
  pub tx_hash : Bytes
  pub output_index : ℕ
  pub address : Bytes
  pub coin : ℕ
  pub assets : List AssetData
  pub datum_hash : Option Bytes
  pub datum : Option Bytes

abbrev pub Amounts : Type 0
Amounts = List (Text × ℕ)

-- The errors of `UnifiedTxError` that the choice of coins and the fee loop return; a message of the
-- transaction builder stands in `builder_error`.
pub data UnifiedTxError : Type 0 where
  no_utxos : UnifiedTxError
  insufficient_funds : ℕ → ℕ → UnifiedTxError
  insufficient_assets : Text → ℕ → ℕ → UnifiedTxError
  no_outputs : UnifiedTxError
  fee_estimation_error : Text → UnifiedTxError
  builder_error : Text → UnifiedTxError
  collateral_required : UnifiedTxError

pub record Selection : Type 0 where
  pub selected : List UtxoData
  pub change_lovelace : ℕ
  pub change_assets : Amounts

-- `u64::saturating_add`
abbrev pub saturating_add : ℕ → ℕ → ℕ
saturating_add a b = if ltb (a + b) u64_limit then a + b else u64_limit - 1

-- `*map.get(key).unwrap_or(&0)`
abbrev pub amount_of : Text → Amounts → ℕ
amount_of key [] = 0
amount_of key ((k, n) ∷ rest) = if text_eq key k then n else amount_of key rest

-- `map.insert(key, n)`: the entry of the key, in the place of its order.
unfoldable pub put : Text → ℕ → Amounts → Amounts
put key n [] = (key, n) ∷ []
put key n ((k, m) ∷ rest) =
    let more = put key n rest in
    if text_eq key k
    then (key, n) ∷ rest
    else if text_leb key k
    then (key, n) ∷ (k, m) ∷ rest
    else (k, m) ∷ more

-- `*map.entry(key).or_insert(0) = map.get(&key).unwrap_or(&0).saturating_add(n)`
abbrev pub add_amount : Text → ℕ → Amounts → Amounts
add_amount key n map = put key (saturating_add (amount_of key map) n) map

-- Each required amount is there.
unfoldable pub all_assets_sufficient : Amounts → Amounts → Bool
all_assets_sufficient [] total = true
all_assets_sufficient ((key, needed) ∷ rest) total =
    leb needed (amount_of key total) && all_assets_sufficient rest total

-- The first required amount that is not there.
unfoldable pub missing_asset : Amounts → Amounts → Option UnifiedTxError
missing_asset [] total = none
missing_asset ((key, needed) ∷ rest) total =
    let more = missing_asset rest total in
    if leb needed (amount_of key total)
    then more
    else some (insufficient_assets key needed (amount_of key total))

unfoldable pub change_of : Amounts → Amounts → Amounts
change_of required [] = []
change_of required ((key, total) ∷ rest) =
    let needed = amount_of key required in
    let more = change_of required rest in
    if ltb needed total then (key, total - needed) ∷ more else more

is_pure_ada : UtxoData → Bool
is_pure_ada u = elim u.assets [ [] ↦ true | a ∷ rest ↦ false ]

unfoldable pub is_script_input : List UtxoData → UtxoData → Bool
is_script_input [] u = false
is_script_input (s ∷ rest) u =
    if text_eq s.tx_hash u.tx_hash && s.output_index == u.output_index
    then true
    else is_script_input rest u

need_assets : Amounts → Bool
need_assets [] = false
need_assets (a ∷ rest) = true

-- The outputs that are no script inputs: those with tokens first where tokens are required, and
-- otherwise those without.
unfoldable pub selection_order : List UtxoData → List UtxoData → Amounts → List UtxoData
unfolding is_pure_ada need_assets
selection_order script_inputs utxos required =
    let usable = filter (λ u. not (is_script_input script_inputs u)) utxos in
    let pure_ada_utxos = filter is_pure_ada usable in
    let utxos_with_tokens = filter (λ u. not (is_pure_ada u)) usable in
    if need_assets required
    then utxos_with_tokens ++ pure_ada_utxos
    else pure_ada_utxos ++ utxos_with_tokens

-- What the selected outputs are worth.
pub record Purse : Type 0 where
  pub total_lovelace : ℕ
  pub total_assets : Amounts

module _ ⦃X : Externals⦄ where
  open X use {hex_encode}

  abbrev pub asset_key : AssetData → Text
  asset_key a = hex_encode a.policy_id ++ (codes ":" ++ hex_encode a.asset_name)

  unfoldable pub add_assets : List AssetData → Amounts → Amounts
  add_assets [] total = total
  add_assets (a ∷ rest) total = add_assets rest (add_amount (asset_key a) a.amount total)

  unfoldable pub add_utxo : UtxoData → Purse → Purse
  unfolding add_assets
  add_utxo u p = record {
    total_lovelace = saturating_add p.total_lovelace u.coin;
    total_assets = add_assets u.assets p.total_assets;
  }

  abbrev pub is_enough : ℕ → Amounts → Purse → Bool
  is_enough required assets p =
      leb required p.total_lovelace && all_assets_sufficient assets p.total_assets

  -- The greedy loop: the outputs that it adds, and what all are worth.
  unfoldable pub take_coins : ℕ → Amounts → List UtxoData → Purse → List UtxoData × Purse
  take_coins required assets [] p = ([], p)
  take_coins required assets (u ∷ rest) p =
      let p' = add_utxo u p in
      let (more, q) = take_coins required assets rest p' in
      if is_enough required assets p' then (u ∷ [], p') else (u ∷ more, q)

  -- The checks after the loop.
  unfoldable pub check_funds : ℕ → Amounts → List UtxoData × Purse → UnifiedTxError ⊎ Selection
  check_funds required assets (selected, p) =
      if ltb p.total_lovelace required
      then inl (insufficient_funds required p.total_lovelace)
      else elim (missing_asset assets p.total_assets) [
        | some e ↦ inl e
        | none ↦ inr (record {
          selected = selected;
          change_lovelace = p.total_lovelace - required;
          change_assets = change_of assets p.total_assets;
        })
      ]

  unfoldable pub select_coins :
      Option (List UtxoData) → List UtxoData → ℕ → Amounts → UnifiedTxError ⊎ Selection
  unfolding take_coins check_funds
  select_coins none script_inputs required assets = inl no_utxos
  select_coins (some utxos) script_inputs required assets = check_funds required assets (
      take_coins required assets (selection_order script_inputs utxos assets)
        (record { total_lovelace = 0; total_assets = [] }))
