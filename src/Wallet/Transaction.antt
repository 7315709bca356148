-- ===== src/Wallet/Transaction.antt =====
-- The transaction that the unified builder makes of a selection (src/wallet/unified_tx/builder.rs,
-- build_tx_internal, and its types in src/wallet/unified_tx/types.rs). What it tells
-- `PlutusTransactionBuilder`, call by call, is the record `Draft`. The encoding of a draft is a
-- parameter, which also has the errors of these calls; so a missing collateral is reported before an
-- input or an output that the calls refuse, where the source reports the latter.
pub mod Laws
use hayate.Prelude.{
  ℕ, ◌+◌, ◌*◌, Bool, true, false, not, ◌&&◌, ◌||◌, Option, none, some, List, [], ◌∷◌, ◌++◌, map,
  ◌⊎◌, inl, inr, ltb, leb, length, if◌then◌else◌,
}
use hayate.Prelude.Text.{Bytes, Text, codes, text_eq}
use hayate.Prelude.Int.{ℤ}
use hayate.Externals.{Externals}
use hayate.ProtocolParams
use hayate.ProtocolParams.{ProtocolParameters, max}
use hayate.Rewards.{split_colons}
use hayate.Wallet.Selection.{AssetData, UtxoData, Amounts, UnifiedTxError, collateral_required}

pub data FeeStrategy : Type 0 where
  fixed : ℕ → FeeStrategy
  automatic : FeeStrategy

pub data TxOutput (D S : Type 0) : Type 0 where
  payment : Bytes → ℕ → List AssetData → TxOutput D S
  script_payment : Bytes → ℕ → List AssetData → D → Option S → TxOutput D S

pub record MintOperation (S R : Type 0) : Type 0 where
  pub policy_id : Bytes
  pub asset_name : Bytes
  pub amount : ℤ
  pub policy_script : Option S
  pub redeemer : Option R
  pub native_script : Option Bytes

pub record ScriptInputSpec (S R : Type 0) : Type 0 where
  pub utxo : UtxoData
  pub script : S
  pub redeemer : R
  pub datum : Option Bytes

-- `PlutusOutput`
pub record PlutusOutput (D S : Type 0) : Type 0 where
  pub address : Bytes
  pub lovelace : ℕ
  pub assets : List AssetData
  pub datum : Option D
  pub script_ref : Option S

-- `UnifiedTxBuilder`, over the types of datums, scripts and redeemers; the address for the change is
-- what the wallet answers for its index.
pub record UnifiedTxBuilder (D S R : Type 0) : Type 0 where
  pub change_address : UnifiedTxError ⊎ Bytes
  pub available_utxos : Option (List UtxoData)
  pub outputs : List (TxOutput D S)
  pub mints : List (MintOperation S R)
  pub script_inputs : List (ScriptInputSpec S R)
  pub collateral : Option (List UtxoData)
  pub fee_strategy : FeeStrategy
  pub ttl : Option ℕ
  pub validity_start : Option ℕ

-- What `PlutusTransactionBuilder` is told; its network stands in the encoding.
pub record Draft (D S R : Type 0) : Type 0 where
  pub change_address : Bytes
  pub inputs : List UtxoData
  pub script_inputs : List (ScriptInputSpec S R)
  pub outputs : List (PlutusOutput D S)
  pub collateral : List UtxoData
  pub mints : List (MintOperation S R)
  pub fee : ℕ
  pub ttl : Option ℕ
  pub validity_start : Option ℕ
  pub language_view : Bool

-- The `?` of a result.
abbrev pub and_then :
    {A B : Type 0} → UnifiedTxError ⊎ A → (A → UnifiedTxError ⊎ B) → UnifiedTxError ⊎ B
and_then (inl e) f = inl e
and_then (inr a) f = f a

-- At least 1 ADA.
abbrev pub calculate_min_utxo : ProtocolParameters → ℕ → ℕ
calculate_min_utxo params output_size_bytes =
    max (ProtocolParams.calculate_min_utxo params output_size_bytes) 1000000

abbrev pub is_empty : {A : Type 0} → List A → Bool
is_empty [] = true
is_empty (a ∷ rest) = false

-- The lovelace of the change output: more than the change where that is below the least for the
-- tokens in it.
abbrev pub change_ada : ℕ → ℕ → ℕ
change_ada change_lovelace min_utxo_for_output =
    if ltb change_lovelace min_utxo_for_output then min_utxo_for_output else change_lovelace

module _ {D S : Type 0} where
  abbrev pub plutus_output : TxOutput D S → PlutusOutput D S
  plutus_output (payment address lovelace assets) = record {
    address = address;
    lovelace = lovelace;
    assets = assets;
    datum = none;
    script_ref = none;
  }
  plutus_output (script_payment address lovelace assets datum script_ref) = record {
    address = address;
    lovelace = lovelace;
    assets = assets;
    datum = some datum;
    script_ref = script_ref;
  }

  abbrev pub change_outputs : Option (PlutusOutput D S) → List (PlutusOutput D S)
  change_outputs none = []
  change_outputs (some o) = o ∷ []

  abbrev pub actual_change_amount : Option (PlutusOutput D S) → ℕ
  actual_change_amount none = 0
  actual_change_amount (some o) = o.lovelace

module _ {S R : Type 0} where
  abbrev has_policy_script : List (MintOperation S R) → Bool
  has_policy_script [] = false
  has_policy_script (m ∷ rest) = elim m.policy_script [
    | some s ↦ true
    | none ↦ has_policy_script rest
  ]

module _ {D S R : Type 0} where
  abbrev has_plutus_scripts : UnifiedTxBuilder D S R → Bool
  has_plutus_scripts b = not (is_empty b.script_inputs) || has_policy_script b.mints

  abbrev pub collateral_of : UnifiedTxBuilder D S R → UnifiedTxError ⊎ List UtxoData
  collateral_of b =
      if has_plutus_scripts b
      then elim b.collateral [ some utxos ↦ inr utxos | none ↦ inl collateral_required ]
      else inr []

module _ ⦃X : Externals⦄ where
  open X use {hex_decode}

  -- One token of the change: its key is split at the colons.
  abbrev asset_data_of : List Bytes → ℕ → List AssetData → List AssetData
  asset_data_of (policy_id ∷ asset_name ∷ []) amount rest = elim (hex_decode policy_id) [
    | none ↦ rest
    | some p ↦ elim (hex_decode asset_name) [
      | none ↦ rest
      | some n ↦ record { policy_id = p; asset_name = n; amount = amount } ∷ rest
    ]
  ]
  asset_data_of _ amount rest = rest

  unfoldable pub change_asset_data : Amounts → List AssetData
  unfolding split_colons
  change_asset_data [] = []
  change_asset_data ((key, amount) ∷ rest) =
      asset_data_of (split_colons key) amount (change_asset_data rest)

  module _ {D S : Type 0} where
    -- The change output, if there is one.
    unfoldable pub change_output :
        ProtocolParameters → Bytes → ℕ → Amounts → Option (PlutusOutput D S)
    change_output params address change_lovelace change_assets =
        let min_change = calculate_min_utxo params 60 in
        let assets = change_asset_data change_assets in
        let output : ℕ → PlutusOutput D S = λ lovelace. record {
          address = address;
          lovelace = lovelace;
          assets = assets;
          datum = none;
          script_ref = none;
        } in
        if not (is_empty change_assets)
        then some (output (change_ada change_lovelace (1500000 + 150000 * length assets)))
        else if leb min_change change_lovelace
        then some (output (change_ada change_lovelace min_change))
        else none

  module _ {D S R : Type 0} where
    abbrev pub draft :
        UnifiedTxBuilder D S R
        → Bytes
        → List UtxoData
        → Option (PlutusOutput D S)
        → List UtxoData
        → ℕ
        → Draft D S R
    draft b address selected_utxos change collateral fee = record {
      change_address = address;
      inputs = selected_utxos;
      script_inputs = b.script_inputs;
      outputs = map plutus_output b.outputs ++ change_outputs change;
      collateral = collateral;
      mints = b.mints;
      fee = fee;
      ttl = b.ttl;
      validity_start = b.validity_start;
      language_view = has_plutus_scripts b;
    }

    unfoldable pub build_tx_internal :
        (Draft D S R → UnifiedTxError ⊎ (Bytes × Bytes))
        → UnifiedTxBuilder D S R
        → ProtocolParameters
        → List UtxoData
        → ℕ
        → Amounts
        → ℕ
        → UnifiedTxError ⊎ (Bytes × Bytes × ℕ)
    build_tx_internal encode b params selected_utxos change_lovelace change_assets fee =
        and_then b.change_address λ address.
          let change = change_output params address change_lovelace change_assets in
          and_then (collateral_of b) λ collateral.
            and_then (encode (draft b address selected_utxos change collateral fee))
              λ tx. inr (tx.0, tx.1, actual_change_amount change)
