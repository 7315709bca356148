-- ===== src/Wallet/Transaction/Laws.antt =====
-- What the outputs of a transaction hold.
use hayate.Prelude.{
  subst, false, ℕ, ◌+◌, ◌*◌, ◌<◌, ◌≡◌, refl, ◌⊎◌, inl, inr, Bool-cases, Option, none, some, List,
  [], ◌∷◌, ◌++◌, map, ltb, leb, arith, length,
}
use hayate.Prelude.Text.{Bytes}
use hayate.Externals.{Externals}
use hayate.ProtocolParams.{ProtocolParameters}
use hayate.Wallet.Selection.{Amounts, UtxoData, UnifiedTxError}
use hayate.Wallet.Transaction.{
  TxOutput, payment, script_payment, PlutusOutput, UnifiedTxBuilder, Draft, and_then,
  calculate_min_utxo, plutus_output, change_asset_data, change_output, change_outputs,
  actual_change_amount, collateral_of, draft, build_tx_internal,
}

pub split_inr :
    {A B : Type 0} (r : UnifiedTxError ⊎ A) (f : A → UnifiedTxError ⊎ B) (b : B)
    → and_then r f ≡ inr b
    → (a : A) × (r ≡ inr a) × (f a ≡ inr b)
split_inr (inl e) f b h = absurd (cc)
split_inr (inr a) f b h = (a, refl, h)

module _ {D S : Type 0} where
  -- The lovelace that the outputs of a request hold, and that the outputs of a draft hold.
  unfoldable pub requested : List (TxOutput D S) → ℕ
  requested [] = 0
  requested (payment address lovelace assets ∷ rest) = lovelace + requested rest
  requested (script_payment address lovelace assets datum script_ref ∷ rest) =
      lovelace + requested rest

  pub paid : List (PlutusOutput D S) → ℕ
  paid [] = 0
  paid (o ∷ rest) = o.lovelace + paid rest

  paid-change :
      (outputs : List (TxOutput D S)) (change : Option (PlutusOutput D S))
      → paid (map plutus_output outputs ++ change_outputs change)
        ≡ requested outputs + actual_change_amount change
  unfolding paid requested
  paid-change [] none = omega arith
  paid-change [] (some o) = omega arith
  paid-change (payment address lovelace assets ∷ rest) change =
      omega (arith, paid-change rest change)
  paid-change (script_payment address lovelace assets datum script_ref ∷ rest) change =
      omega (arith, paid-change rest change)

-- How the change that is paid compares with the change that is left: it is the same; or nothing is
-- paid, where less than the least value of an output is left; or more is paid than is left, the
-- least for an output with n tokens.
abbrev pub Changes : ProtocolParameters → ℕ → ℕ → Type 0
Changes params left amount =
    (amount ≡ left)
    ⊎ ((amount ≡ 0) × (left < calculate_min_utxo params 60))
    ⊎ ((n : ℕ) × (amount ≡ 1500000 + 150000 * n) × (left < amount))

module _ ⦃X : Externals⦄ (D S : Type 0) where
  actual_change_amount-Changes :
      (params : ProtocolParameters) (address : Bytes) (left : ℕ) (assets : Amounts)
      → Changes params left
          (actual_change_amount (change_output {D = D} {S = S} params address left assets))
  unfolding change_output
  actual_change_amount-Changes params address left [] =
      elim (Bool-cases (leb (calculate_min_utxo params 60) left)) [
        | inl enough ↦
            (let e : ltb left (calculate_min_utxo params 60) ≡ false = ground arith in
              rw (enough, e) (inl refl))
        | inr short ↦ rw short (inr (inl (refl, ground arith)))
      ]
  actual_change_amount-Changes params address left (a ∷ assets) =
      let least = 1500000 + 150000 * length (change_asset_data (a ∷ assets)) in
      elim (Bool-cases (ltb left least)) [
        | inl short ↦
            rw short (inr (inr (length (change_asset_data (a ∷ assets)), refl, ground arith)))
        | inr enough ↦ rw enough (inl refl)
      ]

module _ ⦃X : Externals⦄ {D S R : Type 0} (encode : Draft D S R → UnifiedTxError ⊎ (Bytes × Bytes))
    (b : UnifiedTxBuilder D S R) (params : ProtocolParameters) where
  -- The transaction is the encoding of a draft with these inputs and this fee, whose outputs hold
  -- what is requested and the change that is paid.
  abbrev pub Encodes : List UtxoData → ℕ → ℕ → Bytes × Bytes × ℕ → Type 0
  Encodes inputs fee left (tx_bytes, tx_hash, change) =
      (d : Draft D S R) × (encode d ≡ inr (tx_bytes, tx_hash))
      × (d.inputs ≡ inputs)
      × (d.fee ≡ fee)
      × (paid d.outputs ≡ requested b.outputs + change)
      × Changes params left change

  pub build_tx_internal-Encodes :
      (inputs : List UtxoData) (left : ℕ) (assets : Amounts) (fee : ℕ) (tx : Bytes × Bytes × ℕ)
      → build_tx_internal encode b params inputs left assets fee ≡ inr tx
      → Encodes inputs fee left tx
  unfolding build_tx_internal
  build_tx_internal-Encodes inputs left assets fee tx h =
      let (address, _, rest) = split_inr b.change_address _ tx h in
      let change = change_output params address left assets in
      let (collateral, _, rest') = split_inr (collateral_of b) _ tx rest in
      let d = draft b address inputs change collateral fee in
      let ((tx_bytes, tx_hash), encoded, same) =
        split_inr (encode d) (λ y. inr (y.0, y.1, actual_change_amount change)) tx rest' in
      let e : (tx_bytes, tx_hash, actual_change_amount change) ≡ tx = cc in
      subst (Encodes inputs fee left) e (
        d,
        encoded,
        refl,
        refl,
        paid-change b.outputs change,
        actual_change_amount-Changes D S params address left assets,
      )
