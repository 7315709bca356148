-- ===== src/Tests/Coins.antt =====
-- The theorems on the choice of coins and on the transactions that are built.
use hayate.Prelude.{ℕ, ◌≡◌, ◌⊎◌, refl, false, none, some, List, [], ◌∷◌, All, inr}
use hayate.Prelude.Text.{Bytes, text_eq}
use hayate.ProtocolParams
use hayate.ProtocolParams.{ProtocolParameters}
use hayate.Wallet.Selection.{
  AssetData, UtxoData, UnifiedTxError, Selection, asset_key, is_script_input, selection_order,
  select_coins, take_coins, all_assets_sufficient, missing_asset, change_of, put, check_funds,
  add_utxo,
}
use hayate.Wallet.Selection.Laws.{select_coins-skips}
use hayate.Wallet.Transaction.{payment, fixed, UnifiedTxBuilder, Draft}
use hayate.Wallet.Fees.{BuiltTransaction}
use hayate.Tests.{X}

abbrev token : AssetData
token = record { policy_id = 10 ∷ []; asset_name = 11 ∷ []; amount = 2 }

abbrev coins : List UtxoData
coins =
    record {
      tx_hash = 7 ∷ [];
      output_index = 0;
      address = 1 ∷ [];
      coin = 3;
      assets = [];
      datum_hash = none;
      datum = none;
    }
    ∷ record {
      tx_hash = 8 ∷ [];
      output_index = 1;
      address = 1 ∷ [];
      coin = 4;
      assets = token ∷ [];
      datum_hash = none;
      datum = none;
    }
    ∷ record {
      tx_hash = 9 ∷ [];
      output_index = 0;
      address = 1 ∷ [];
      coin = 9;
      assets = [];
      datum_hash = none;
      datum = none;
    }
    ∷ []

-- The last output is a script input: the first two are chosen.
abbrev script_utxo : UtxoData
script_utxo = record {
  tx_hash = 9 ∷ [];
  output_index = 0;
  address = 1 ∷ [];
  coin = 9;
  assets = [];
  datum_hash = none;
  datum = none;
}

abbrev scripts : List UtxoData
scripts = script_utxo ∷ []

abbrev first_two : List UtxoData
first_two =
    record {
      tx_hash = 7 ∷ [];
      output_index = 0;
      address = 1 ∷ [];
      coin = 3;
      assets = [];
      datum_hash = none;
      datum = none;
    }
    ∷ record {
      tx_hash = 8 ∷ [];
      output_index = 1;
      address = 1 ∷ [];
      coin = 4;
      assets = token ∷ [];
      datum_hash = none;
      datum = none;
    }
    ∷ []

abbrev choice : Selection
choice = record {
  selected = first_two;
  change_lovelace = 2;
  change_assets = (asset_key ⦃X = X⦄ token, 2) ∷ [];
}

chosen : select_coins ⦃X = X⦄ (some coins) scripts 5 [] ≡ inr choice
unfolding all_assets_sufficient missing_asset change_of put select_coins take_coins check_funds
    add_utxo selection_order is_script_input text_eq
chosen = refl

select_coins-skips_example : All (λ u. is_script_input scripts u ≡ false) first_two
select_coins-skips_example = select_coins-skips ⦃X = X⦄ 5 [] coins scripts choice chosen

abbrev params : ProtocolParameters
params = record { min_fee_a = 1; min_fee_b = 2; utxo_cost_per_byte = 3; min_utxo_lovelace = none }

abbrev encode : Draft ℕ ℕ ℕ → UnifiedTxError ⊎ (Bytes × Bytes)
encode d = inr (1 ∷ 2 ∷ [], 3 ∷ [])

-- The change has tokens: more lovelace is paid than is left.
abbrev request : UnifiedTxBuilder ℕ ℕ ℕ
request = record {
  change_address = inr (5 ∷ []);
  available_utxos = some coins;
  outputs = payment (4 ∷ []) 1 [] ∷ [];
  mints = [];
  script_inputs = record { utxo = script_utxo; script = 0; redeemer = 0; datum = none } ∷ [];
  collateral = some [];
  fee_strategy = fixed 4;
  ttl = none;
  validity_start = none;
}

abbrev paying : BuiltTransaction
paying = record {
  tx_bytes = 1 ∷ 2 ∷ [];
  tx_hash = 3 ∷ [];
  fee_paid = 4;
  inputs_used = first_two;
  change_amount = 1650000;
  output_count = 2;
}
