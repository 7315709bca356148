-- ===== src/Tests.antt =====
-- A storage, a block and a manager for the examples, on association lists for trees.
mod Ledger
mod Stores
mod Blocks
mod Walks
mod Disks
mod Rewards
mod Pots
mod Coins
use hayate.Prelude.{
  ℕ, ◌≡◌, refl, Bool, true, false, Option, none, some, List, [], ◌∷◌, Bool-cases, inl, inr, arith,
  ◌+◌, ◌<◌, ◌≤◌,
}
use hayate.Prelude.Text.{Bytes, Text, codes, text_eq, text_eq_sound}
use hayate.Prelude.Decimal.{show}
use hayate.Result.{ok, ⊤}
use hayate.Chain.{MultiEraInput, MultiEraOutput, MultiEraTx, MultiEraBlock}
use hayate.Externals.{Externals, Reliable}
use hayate.Sample.{libraries, reliable}
use hayate.Filter
use hayate.Filter.{WalletFilter}
use hayate.Storage.State.{NetworkStorage, ChainTip}
use hayate.Storage.Tips.Laws.{
  get_tips-store_chain_tip, get_tips-store_wallet_tip, get_block_metadata-store_block_metadata,
  get_min_wallet_tip-IsLeast,
}
use hayate.Manager.{StorageManager, new}
use hayate.Processor.State.{BlockStats, RollbackInfo, BlockProcessor, utxo_key_of}
use hayate.Json.{Json, number, string, object, field, end}
use hayate.Storage.Indexes.{entry_key, marker}
use hayate.Processor.Ledger.{count, IsConsistent, Adds}
use hayate.Processor.Ledger.Preserved.{Adds-IsConsistent}
use hayate.Processor.Undo.{listed}
use hayate.Processor.Undo.Forward.{block_keys}
use hayate.Processor.Undo.RoundTrip.{IsReady, process_transactions-IsConsistent}

-- A block of two transactions: the second spends the output of the first.
abbrev txs : List MultiEraTx
txs =
    record {
      hash = 7 ∷ [];
      inputs = [];
      outputs = record { address = some (1 ∷ 2 ∷ []); coin = 5; assets = []; datum = none } ∷ [];
    }
    ∷ record {
      hash = 8 ∷ [];
      inputs = record { hash = 7 ∷ []; index = 0 } ∷ [];
      outputs = record { address = some (3 ∷ []); coin = 4; assets = []; datum = none } ∷ [];
    }
    ∷ []

abbrev block : MultiEraBlock
block = record { txs = txs; previous_hash = none }

abbrev X : Externals
X = libraries (some block)

abbrev R : Reliable X
R = reliable (some block)

abbrev empty : NetworkStorage ⦃X = X⦄
empty = record {
  network_path = codes "preview";
  utxo_tree = [];
  balance_tree = [];
  governance_tree = [];
  rewards_tracker = record {
    snapshots = [];
    withdrawals = [];
    delegations = [];
    indexing_start_epoch = 0;
  };
  nonce_tree = [];
  chain_tip_tree = [];
  address_utxo_index = [];
  address_tx_index = [];
  policy_tx_index = [];
  asset_tx_index = [];
  spent_utxo_index = [];
  block_events_tree = [];
  block_hash_index = [];
  indexing_start_epoch = 0;
}

abbrev ks : List Text
ks = block_keys ⦃X = X⦄ txs

abbrev stats : BlockStats
stats = record {
  slot = 9;
  block_hash = 1 ∷ [];
  tx_count = 0;
  utxos_created = 0;
  utxos_spent = 0;
  addresses_affected = [];
}

empty-IsConsistent : IsConsistent ⦃X = X⦄ R ks empty
empty-IsConsistent = record {
  listed = λ k d h. absurd (cc);
  clean = λ k d b h. absurd (cc);
  readable = λ k d h. absurd (cc);
  balanced = λ a. refl;
  indexed = λ a k h. refl;
}

abbrev k7 : Text
k7 = utxo_key_of ⦃X = X⦄ (7 ∷ []) 0

abbrev k8 : Text
k8 = utxo_key_of ⦃X = X⦄ (8 ∷ []) 0

listed_once : (j : Text) → listed j ks ≡ true → count j ks ≡ 1
unfolding show text_eq
listed_once j h = elim (Bool-cases (text_eq k7 j)) [
  | inl same ↦ rw (← text_eq_sound k7 j same)
  | inr differ ↦ elim (Bool-cases (text_eq k8 j)) [
    | inl same ↦ rw (← text_eq_sound k8 j same)
    | inr also ↦ absurd (let e = rw (differ, also) at h in cc)
  ]
]

empty-IsReady : IsReady ⦃X = X⦄ R ks empty txs
unfolding show text_eq
empty-IsReady = record {
  addresses = ((refl, tt), ((refl, tt), tt));
  distinct = (refl, (refl, tt));
  absent = λ j h. refl;
  unspent_before = λ j h. refl;
  once = listed_once;
  unspent = λ j d h. refl;
  room = λ b. omega arith;
}

-- A storage with one UTxO.
abbrev a7 : Text
a7 = codes "ab"

abbrev j7 : Json
j7 = object (field (codes "address") (string a7) (field (codes "amount") (number 5) end))

abbrev d7 : Bytes
d7 = R.written j7

abbrev one : NetworkStorage ⦃X = X⦄
one = record empty {
  utxo_tree = (k7, some d7) ∷ [];
  balance_tree = (a7, 5) ∷ [];
  address_utxo_index = (entry_key a7 k7, some marker) ∷ [];
}

one-Adds : Adds ⦃X = X⦄ R k7 d7 empty one
unfolding text_eq
one-Adds = record { utxos = λ j. refl; balances = λ a. ground arith; index = λ e. refl }

one-IsConsistent : IsConsistent ⦃X = X⦄ R ks one
unfolding show text_eq
one-IsConsistent =
    Adds-IsConsistent ⦃X = X⦄ R ks k7 d7 empty-IsConsistent refl refl
      (λ b h. (let e : a7 ≡ b = cc in rw (← e) (omega arith, (omega arith, tt))))
      (R.reread j7, R.from_slice-written j7) one-Adds
