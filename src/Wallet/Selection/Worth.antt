-- ===== src/Wallet/Selection/Worth.antt =====
-- What outputs are worth, as sums, and what a choice of coins covers in these terms.
use hayate.Prelude.{
  ℕ, ◌+◌, ◌-◌, ◌<◌, ◌≤◌, ◌≡◌, ◌⊎◌, inl, inr, List, [], ◌∷◌, ◌++◌, All, if◌then◌else◌, min,
}
use hayate.Prelude.Text.{Text, codes, text_eq}
use hayate.Prelude.Decimal.{u64_limit}
use hayate.Externals.{Externals}
use hayate.Wallet.Selection.{
  AssetData, UtxoData, Amounts, UnifiedTxError, insufficient_funds, insufficient_assets, Selection,
}
use mathlib.Core.List.{Mem}

-- The greatest 64-bit number stands for every sum beyond it.
abbrev pub capped : ℕ → ℕ
capped n = min n (u64_limit - 1)

-- The sum of the lovelace of outputs.
pub lovelace : List UtxoData → ℕ
lovelace [] = 0
lovelace (u ∷ us) = u.coin + lovelace us

module _ ⦃X : Externals⦄ where
  open X use {hex_encode}

  -- How much of a token some assets are: its name is the policy and the asset name in hexadecimal,
  -- with a colon between them.
  pub amount_in : Text → List AssetData → ℕ
  amount_in token [] = 0
  amount_in token (a ∷ rest) =
      (if text_eq token (hex_encode a.policy_id ++ (codes ":" ++ hex_encode a.asset_name))
        then a.amount
        else 0)
      + amount_in token rest

  -- The sum of a token in outputs.
  pub tokens : Text → List UtxoData → ℕ
  tokens token [] = 0
  tokens token (u ∷ us) = amount_in token u.assets + tokens token us

  module _ (required : ℕ) (assets : Amounts) where
    -- What the choice returns from the outputs `order`: a selection from the front, which is worth
    -- what is required and the change, and covers each required amount; or an error, where all of
    -- them do not.
    abbrev pub Chooses : List UtxoData → UnifiedTxError ⊎ Selection → Type 0
    Chooses order (inr s) =
        ((rest : List UtxoData) × (order ≡ s.selected ++ rest))
        × (required + s.change_lovelace ≡ capped (lovelace s.selected))
        × All (λ e. e.1 ≤ capped (tokens e.0 s.selected)) assets
    Chooses order (inl (insufficient_funds n a)) =
        (n ≡ required) × (a ≡ capped (lovelace order)) × (a < required)
    Chooses order (inl (insufficient_assets k n a)) =
        Mem (k, n) assets × (a ≡ capped (tokens k order)) × (a < n)
    Chooses order (inl e) = ⊥
