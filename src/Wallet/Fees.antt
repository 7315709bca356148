-- ===== src/Wallet/Fees.antt =====
-- `build` of the unified transaction builder (src/wallet/unified_tx/builder.rs): what the outputs
-- require of the wallet, and the loop that finds the fee. The protocol parameters that the node
-- answers, and the encoding of a draft, are parameters.
pub mod Laws
use hayate.Prelude.{
  ℕ, zero, suc, ◌+◌, ◌-◌, ◌*◌, ◌/◌, ◌%◌, min, Option, none, some, List, [], ◌∷◌, ◌++◌, ◌⊎◌, inl,
  inr, ltb, leb, length, map, ◌&&◌, if◌then◌else◌,
}
use hayate.Prelude.Text.{Bytes, Text, codes, text_eq}
use hayate.Prelude.Decimal.{u64_limit, show}
use hayate.Prelude.Int.{ℤ, pos, negsuc}
use hayate.Externals.{Externals}
use hayate.ProtocolParams.{ProtocolParameters, calculate_min_fee}
use hayate.Wallet.Selection.{
  AssetData, UtxoData, Amounts, UnifiedTxError, no_outputs, fee_estimation_error, Selection,
  saturating_add, amount_of, add_assets, select_coins,
}
use hayate.Wallet.Transaction.{
  TxOutput, payment, script_payment, MintOperation, ScriptInputSpec, FeeStrategy, fixed, automatic,
  UnifiedTxBuilder, Draft, and_then, calculate_min_utxo, is_empty, build_tx_internal,
}

pub record BuiltTransaction : Type 0 where
  pub tx_bytes : Bytes
  pub tx_hash : Bytes
  pub fee_paid : ℕ
  pub inputs_used : List UtxoData
  pub change_amount : ℕ
  pub output_count : ℕ

abbrev pub estimate_fee : FeeStrategy → ProtocolParameters → ℕ → ℕ
estimate_fee (fixed fee) params tx_size_bytes = fee
estimate_fee automatic params tx_size_bytes = calculate_min_fee params tx_size_bytes

-- The amounts after minting, of which only the positive ones stay.
subtract_minted : Amounts → Amounts → Amounts
subtract_minted minted [] = []
subtract_minted minted ((key, required) ∷ rest) =
    let more = subtract_minted minted rest in
    if leb required (amount_of key minted)
    then more
    else (key, required - amount_of key minted) ∷ more

-- `*minted_assets.entry(key).or_insert(0) += amount`
abbrev add_minted : Text → ℕ → Amounts → Amounts
add_minted key n [] = (key, n) ∷ []
add_minted key n ((k, m) ∷ rest) =
    let more = add_minted key n rest in
    if text_eq key k then (k, (m + n) % u64_limit) ∷ rest else (k, m) ∷ more

abbrev change_too_small : ℕ → ℕ → ℕ → Text
change_too_small required_fee current_fee change =
    codes "Insufficient change to cover fee. Required: "
    ++ (show required_fee
        ++ (codes ", Current: "
            ++ (show current_fee
                ++ (codes ", Change: " ++ (show change ++ codes ". Need to select more UTxOs.")))))

module _ {D S : Type 0} where
  abbrev lovelace_of : TxOutput D S → ℕ
  lovelace_of (payment address lovelace assets) = lovelace
  lovelace_of (script_payment address lovelace assets datum script_ref) = lovelace

  abbrev assets_of : TxOutput D S → List AssetData
  assets_of (payment address lovelace assets) = assets
  assets_of (script_payment address lovelace assets datum script_ref) = assets

  unfoldable pub total_output_lovelace : ℕ → List (TxOutput D S) → ℕ
  total_output_lovelace total [] = total
  total_output_lovelace total (o ∷ rest) =
      total_output_lovelace (saturating_add total (lovelace_of o)) rest

  -- What datums and script references add to the estimated size.
  abbrev extra_size : TxOutput D S → ℕ
  extra_size (payment address lovelace assets) = 0
  extra_size (script_payment address lovelace assets datum none) = 100
  extra_size (script_payment address lovelace assets datum (some s)) = 300

  abbrev extra_output_size : List (TxOutput D S) → ℕ
  extra_output_size [] = 0
  extra_output_size (o ∷ rest) = extra_size o + extra_output_size rest

  abbrev pub estimated_tx_size : List (TxOutput D S) → ℕ
  estimated_tx_size outputs =
      300
      + min (total_output_lovelace 0 outputs / 10000000 + 1) 10 * 180
      + (length outputs + 1) * 60
      + extra_output_size outputs

module _ ⦃X : Externals⦄ where
  open X use {hex_encode}

  -- Only what is minted counts, not what is burnt.
  minted_assets : {S R : Type 0} → List (MintOperation S R) → Amounts → Amounts
  minted_assets [] minted = minted
  minted_assets (o ∷ rest) minted = minted_assets rest (elim o.amount [
    | pos n ↦
        if ltb 0 n
        then add_minted (hex_encode o.policy_id ++ (codes ":" ++ hex_encode o.asset_name)) n minted
        else minted
    | negsuc n ↦ minted
  ])

  output_assets : {D S : Type 0} → List (TxOutput D S) → Amounts → Amounts
  output_assets [] required = required
  output_assets (o ∷ rest) required = output_assets rest (add_assets (assets_of o) required)

  module _ {D S R : Type 0} where
    -- What the outputs hold and the transaction does not mint.
    unfoldable pub required_assets : UnifiedTxBuilder D S R → Amounts
    unfolding output_assets minted_assets subtract_minted
    required_assets b = subtract_minted (minted_assets b.mints []) (output_assets b.outputs [])

    module _ (encode : Draft D S R → UnifiedTxError ⊎ (Bytes × Bytes)) (b : UnifiedTxBuilder D S R)
        (params : ProtocolParameters) where
      abbrev pub built : ℕ → Selection → Bytes × Bytes × ℕ → BuiltTransaction
      built current_fee s (tx_bytes, tx_hash, actual_change) = record {
        tx_bytes = tx_bytes;
        tx_hash = tx_hash;
        fee_paid = current_fee;
        inputs_used = s.selected;
        change_amount = actual_change;
        output_count = length b.outputs + (if ltb 0 actual_change then 1 else 0);
      }

      -- The end of a round: the fee is enough, or the change covers a higher one in the next round.
      unfoldable pub check_fee :
          (ℕ → UnifiedTxError ⊎ BuiltTransaction)
          → ℕ
          → Selection
          → Bytes × Bytes × ℕ
          → UnifiedTxError ⊎ BuiltTransaction
      check_fee next current_fee s tx =
          let required_fee = estimate_fee b.fee_strategy params (length tx.0) in
          let least = (required_fee - current_fee + calculate_min_utxo params 60) % u64_limit in
          if leb required_fee current_fee
          then inr (built current_fee s tx)
          else if leb least s.change_lovelace
          then next required_fee
          else inl
              (fee_estimation_error (change_too_small required_fee current_fee s.change_lovelace))

      -- One selection and one transaction for a fee.
      unfoldable pub attempt : ℕ → UnifiedTxError ⊎ (Selection × (Bytes × Bytes × ℕ))
      attempt current_fee =
          and_then
            (select_coins b.available_utxos
              (map (λ (i : ScriptInputSpec S R). i.utxo) b.script_inputs)
              (saturating_add (total_output_lovelace 0 b.outputs) current_fee) (required_assets b))
            λ s.
              and_then
                (build_tx_internal encode b params s.selected s.change_lovelace s.change_assets
                  current_fee)
                λ tx. inr (s, tx)

      -- The loop, with the iterations that are left.
      unfoldable pub fee_rounds : ℕ → ℕ → UnifiedTxError ⊎ BuiltTransaction
      unfolding check_fee
      fee_rounds zero current_fee =
          inl (fee_estimation_error (codes "Fee calculation did not converge after 3 iterations"))
      fee_rounds (suc left) current_fee =
          let next = fee_rounds left in
          and_then (attempt current_fee) λ a. check_fee next current_fee a.0 a.1

    unfoldable pub build :
        (Draft D S R → UnifiedTxError ⊎ (Bytes × Bytes))
        → UnifiedTxError ⊎ ProtocolParameters
        → UnifiedTxBuilder D S R
        → UnifiedTxError ⊎ BuiltTransaction
    unfolding fee_rounds
    build encode params b =
        if is_empty b.outputs && is_empty b.mints
        then inl no_outputs
        else and_then params λ p.
          fee_rounds encode b p 3 (estimate_fee b.fee_strategy p (estimated_tx_size b.outputs))
