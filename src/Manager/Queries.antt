-- ===== src/Manager/Queries.antt =====
-- The commands that only read.
use hayate.Prelude.{◌≡◌, refl, Bool, true, false, Option, none, some, List, [], ◌∷◌}
use hayate.Prelude.Text.{Text}
use hayate.Result.{Keeps, Keeps-bind, lift, pure, Exec}
use hayate.Externals.{Externals}
use hayate.Storage.State.{NetworkStorage, ChainTip, chain_tips, block_hashes, read}
use hayate.Storage.Tips
use hayate.Storage.Tips.{
  match_option, decode_tip, decode_metadata, current_tip, wallet_tip_key, lower_tip, min_tip_from,
}
use hayate.Storage.Indexes
use hayate.Manager.{StorageCommand, serve, StorageManager, execute, send}

-- Whether a command is a query.
abbrev pub is_query : {A : Type 0} → StorageCommand A → Bool
is_query StorageCommand.get_chain_tip = true
is_query (StorageCommand.get_wallet_tip _) = true
is_query (StorageCommand.get_min_wallet_tip _) = true
is_query (StorageCommand.get_utxo _) = true
is_query (StorageCommand.get_utxos_for_address _) = true
is_query (StorageCommand.get_balance _) = true
is_query (StorageCommand.get_tx_history_for_address _) = true
is_query (StorageCommand.get_txs_for_policy _) = true
is_query (StorageCommand.get_txs_for_asset _ _) = true
is_query (StorageCommand.get_block_event _) = true
is_query (StorageCommand.get_block_metadata _) = true
is_query (StorageCommand.scan_block_events_by_prefix _) = true
is_query _ = false

module _ ⦃X : Externals⦄ (s : NetworkStorage) where
  abbrev Still : {A : Type 0} → Exec NetworkStorage A → Type 0
  Still = Keeps (λ (t : NetworkStorage). t ≡ s)

  get_wallet_tip-Still : (w : Text) → Still (Tips.get_wallet_tip w)
  unfolding Tips.get_wallet_tip Tips.get_tip
  get_wallet_tip-Still w =
      Keeps-bind (λ (t : NetworkStorage). t ≡ s) (read chain_tips (wallet_tip_key w))
        (λ found. lift (decode_tip found)) (λ t e. e) (λ found t e. e)

  get_chain_tip-Still : Still Tips.get_chain_tip
  unfolding Tips.get_chain_tip Tips.get_tip
  get_chain_tip-Still =
      Keeps-bind (λ (t : NetworkStorage). t ≡ s) (read chain_tips current_tip)
        (λ found. lift (decode_tip found)) (λ t e. e) (λ found t e. e)

  min_tip_from-Still : (ws : List Text) (least : Option ChainTip) → Still (min_tip_from least ws)
  unfolding min_tip_from
  min_tip_from-Still [] least = λ t e. e
  min_tip_from-Still (w ∷ ws) least =
      let go : Option ChainTip → Exec NetworkStorage (Option ChainTip) = λ found.
        match_option found (pure none) λ tip. min_tip_from (some (lower_tip least tip)) ws in
      let rest : (found : Option ChainTip) → Still (go found) = λ found.
        elim found as (λ found. Still (go found)) [
          | none ↦ λ t e. e
          | some tip ↦ min_tip_from-Still ws (some (lower_tip least tip))
        ] in
      Keeps-bind (λ (t : NetworkStorage). t ≡ s) (Tips.get_wallet_tip w) go (get_wallet_tip-Still w)
        rest

  serve-Still : {A : Type 0} (c : StorageCommand A) → is_query c ≡ true → Still (serve c)
  unfolding serve Tips.get_min_wallet_tip Tips.get_block_metadata Indexes.get_utxos_for_address
      Indexes.get_tx_history_for_address Indexes.get_txs_for_policy Indexes.get_txs_for_asset
  serve-Still StorageCommand.get_chain_tip q = get_chain_tip-Still
  serve-Still (StorageCommand.get_wallet_tip w) q = get_wallet_tip-Still w
  serve-Still (StorageCommand.get_min_wallet_tip []) q = get_chain_tip-Still
  serve-Still (StorageCommand.get_min_wallet_tip (w ∷ ws)) q = min_tip_from-Still (w ∷ ws) none
  serve-Still (StorageCommand.get_utxo k) q = λ t e. e
  serve-Still (StorageCommand.get_utxos_for_address a) q = λ t e. e
  serve-Still (StorageCommand.get_balance a) q = λ t e. e
  serve-Still (StorageCommand.get_tx_history_for_address a) q = λ t e. e
  serve-Still (StorageCommand.get_txs_for_policy p) q = λ t e. e
  serve-Still (StorageCommand.get_txs_for_asset p n) q = λ t e. e
  serve-Still (StorageCommand.get_block_event k) q = λ t e. e
  serve-Still (StorageCommand.get_block_metadata h) q =
      Keeps-bind (λ (t : NetworkStorage). t ≡ s) (read block_hashes h)
        (λ found. lift (decode_metadata found)) (λ t e. e) (λ found t e. e)
  serve-Still (StorageCommand.scan_block_events_by_prefix p) q = λ t e. e
  serve-Still _ q = absurd (cc)

module _ ⦃X : Externals⦄ where
  -- A query leaves the manager as it is, whether it succeeds or fails, whether the storage is there or
  -- away, and whether the task runs or has ended.
  pub send-is_query :
      {A : Type 0} (c : StorageCommand A) (m : StorageManager)
      → is_query c ≡ true
      → (send c m).1 ≡ m
  unfolding send execute
  send-is_query c m q = by_parts m.storage m.running
    where
      by_parts :
          (o : Option NetworkStorage) (b : Bool)
          → (send c (record { storage = o; running = b })).1 ≡ record { storage = o; running = b }
      by_parts o false = refl
      by_parts none true = refl
      by_parts (some s) true = let e = serve-Still s c q s refl in rw e
