-- ===== src/Wallet/Fees/Laws.antt =====
-- What a transaction that is built pays.
use hayate.Prelude.{ℕ, ◌+◌, ◌≤◌, ◌≡◌, ◌⊎◌, length}
use hayate.Prelude.Text.{Bytes}
use hayate.Externals.{Externals}
use hayate.ProtocolParams.{ProtocolParameters}
use hayate.Wallet.Selection.{UnifiedTxError, Selection}
use hayate.Wallet.Selection.Worth.{capped, lovelace}
use hayate.Wallet.Transaction.{UnifiedTxBuilder, Draft}
use hayate.Wallet.Transaction.Laws.{requested, Encodes}
use hayate.Wallet.Fees.{BuiltTransaction, estimate_fee}

module _ ⦃X : Externals⦄ {D S R : Type 0} (encode : Draft D S R → UnifiedTxError ⊎ (Bytes × Bytes))
    (b : UnifiedTxBuilder D S R) (params : ProtocolParameters) where
  -- The transaction is the encoding of a draft that spends the selected outputs. These are worth what
  -- is requested, the fee and the change that is left together; and its outputs hold what is
  -- requested and the change that is paid.
  abbrev pub Pays : BuiltTransaction → Type 0
  Pays t =
      (left : ℕ) × (capped (requested b.outputs + t.fee_paid) + left
        ≡ capped (lovelace t.inputs_used))
      × Encodes encode b params t.inputs_used t.fee_paid left
          (t.tx_bytes, t.tx_hash, t.change_amount)
      × (estimate_fee b.fee_strategy params (length t.tx_bytes) ≤ t.fee_paid)

  -- What an attempt found.
  abbrev Found : ℕ → Selection × (Bytes × Bytes × ℕ) → Type 0
  Found fee (s, tx) =
      (capped (requested b.outputs + fee) + s.change_lovelace ≡ capped (lovelace s.selected))
      × Encodes encode b params s.selected fee s.change_lovelace tx
