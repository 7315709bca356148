-- ===== src/Storage/State.antt =====
-- The fields of `NetworkStorage` (src/indexer/mod.rs) and the calls of its trees. The Merkle tree
-- of governance actions is never read nor written by the program, and is left out.
use hayate.Prelude.{ℕ, Option}
use hayate.Prelude.Text.{Bytes, Text}
use hayate.Result.{⊤, Exec, At, within}
use hayate.Externals.{Externals}

pub record ChainTip : Type 0 where
  pub height : ℕ
  pub slot : ℕ
  pub hash : Bytes
  pub timestamp : ℕ

-- (slot, timestamp, prev_hash)
abbrev pub BlockMetadata : Type 0
BlockMetadata = ℕ × ℕ × Option Bytes

module _ ⦃X : Externals⦄ where
  open X use {
    Tree, get, insert, delete, scan_prefix, save_snapshot, MonoidalTree, get_monoid, insert_monoid,
    to_vec, from_slice, hex_encode, hex_decode,
  }

  pub record RewardsTracker : Type 0 where
    pub snapshots : Tree
    pub withdrawals : Tree
    pub delegations : Tree
    pub indexing_start_epoch : ℕ

  pub record NetworkStorage : Type 0 where
    pub network_path : Text
    pub utxo_tree : Tree
    pub balance_tree : MonoidalTree
    pub governance_tree : Tree
    pub rewards_tracker : RewardsTracker
    pub nonce_tree : Tree
    pub chain_tip_tree : Tree
    pub address_utxo_index : Tree
    pub address_tx_index : Tree
    pub policy_tx_index : Tree
    pub asset_tx_index : Tree
    pub spent_utxo_index : Tree
    pub block_events_tree : Tree
    pub block_hash_index : Tree
    pub indexing_start_epoch : ℕ

  -- The calls of a tree, as actions on the storage that holds it.
  abbrev pub Field : Type 0
  Field = At NetworkStorage Tree

  abbrev pub read : Field → Bytes → Exec NetworkStorage (Option Bytes)
  read f k s = (get (f.look s) k, s)

  abbrev pub write : Field → Bytes → Bytes → Exec NetworkStorage ⊤
  write f k v = within f (λ t. insert t k v)

  abbrev pub remove : Field → Bytes → Exec NetworkStorage ⊤
  remove f k = within f (λ t. delete t k)

  abbrev pub utxos : Field
  utxos = record { look = λ s. s.utxo_tree; put = λ t s. record s { utxo_tree = t } }

  abbrev pub nonces : Field
  nonces = record { look = λ s. s.nonce_tree; put = λ t s. record s { nonce_tree = t } }

  abbrev pub governance : Field
  governance = record {
    look = λ s. s.governance_tree;
    put = λ t s. record s { governance_tree = t };
  }

  abbrev pub chain_tips : Field
  chain_tips = record { look = λ s. s.chain_tip_tree; put = λ t s. record s { chain_tip_tree = t } }

  abbrev pub address_utxos : Field
  address_utxos = record {
    look = λ s. s.address_utxo_index;
    put = λ t s. record s { address_utxo_index = t };
  }

  abbrev pub address_txs : Field
  address_txs = record {
    look = λ s. s.address_tx_index;
    put = λ t s. record s { address_tx_index = t };
  }

  abbrev pub policy_txs : Field
  policy_txs = record {
    look = λ s. s.policy_tx_index;
    put = λ t s. record s { policy_tx_index = t };
  }

  abbrev pub asset_txs : Field
  asset_txs = record { look = λ s. s.asset_tx_index; put = λ t s. record s { asset_tx_index = t } }

  abbrev pub spent_utxos : Field
  spent_utxos = record {
    look = λ s. s.spent_utxo_index;
    put = λ t s. record s { spent_utxo_index = t };
  }

  abbrev pub block_events : Field
  block_events = record {
    look = λ s. s.block_events_tree;
    put = λ t s. record s { block_events_tree = t };
  }

  abbrev pub block_hashes : Field
  block_hashes = record {
    look = λ s. s.block_hash_index;
    put = λ t s. record s { block_hash_index = t };
  }

  abbrev pub balances : At NetworkStorage MonoidalTree
  balances = record { look = λ s. s.balance_tree; put = λ t s. record s { balance_tree = t } }
