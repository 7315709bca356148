-- ===== src/Processor/Undo/RoundTrip.antt =====
-- The transactions of a block against a consistent storage, and their rollback.
use hayate.Prelude.{
  ℕ, ◌+◌, ◌<◌, ◌≡◌, refl, fun_ext, sym, ap, ◌∙◌, true, none, some, List, [], arith,
}
use hayate.Prelude.Text.{Bytes, Text}
use hayate.Result.{Returns}
use hayate.Chain.{MultiEraTx}
use hayate.Externals.{Externals, Reliable}
use hayate.Filter.{WalletFilter}
use hayate.Storage.State.{NetworkStorage}
use hayate.Storage.Indexes.{entry_key}
use hayate.Manager.{new}
use hayate.Handle
use hayate.Processor.State.{TokenConfig, RollbackInfo, BlockStats, u64_mod}
use hayate.Processor.Ledger.{count, held, HasNoColon, IsConsistent}
use hayate.Processor.Transaction.Effects.{work}
use hayate.Processor.Block.{process_transactions}
use hayate.Processor.Rollback.{rollback_block_on}
use hayate.Processor.Undo.{
  removed, restored, returned, Restorable, AllParse, listed, removed-at, Distinct, Progress,
}
use hayate.Processor.Undo.Forward.{
  block_keys, block_coins, HasAddresses, process_transactions-Leads,
}
use hayate.Processor.Undo.Back.{
  restore_spent-new, forget_spent-new, delete_events-new, delete_created-new,
}

module _ ⦃X : Externals⦄ (R : Reliable X) (ks : List Text) where
  -- What a block needs of the storage: outputs with addresses and new keys, no UTxO that is
  -- recorded as spent, and balances that its coins cannot overflow.
  pub record IsReady (s : NetworkStorage) (txs : List MultiEraTx) : Type 0 where
    pub addresses : HasAddresses txs
    pub distinct : Distinct (block_keys txs)
    pub absent : (j : Text) → listed j (block_keys txs) ≡ true → R.find s.utxo_tree j ≡ none
    pub unspent_before :
        (j : Text) → listed j (block_keys txs) ≡ true → R.find s.spent_utxo_index j ≡ none
    pub once : (j : Text) → listed j (block_keys txs) ≡ true → count j ks ≡ 1
    pub unspent :
        (j : Text) (d : Bytes) → R.find s.utxo_tree j ≡ some d → R.find s.spent_utxo_index j ≡ none
    pub room : (b : Text) → R.total s.balance_tree b + block_coins txs < u64_mod

  -- Two storages with the same UTxOs, spent UTxOs, balances and entries of address indexes.
  pub record SameLedger (s s' : NetworkStorage) : Type 0 where
    pub utxos : (j : Text) → R.find s'.utxo_tree j ≡ R.find s.utxo_tree j
    pub spent : (j : Text) → R.find s'.spent_utxo_index j ≡ R.find s.spent_utxo_index j
    pub balances : (a : Text) → R.total s'.balance_tree a ≡ R.total s.balance_tree a
    pub index :
        (a k : Text)
        → HasNoColon a
        → R.find s'.address_utxo_index (entry_key a k) ≡ R.find s.address_utxo_index (entry_key a k)

  -- The rollback information that a block starts with.
  abbrev pub no_changes : ℕ → Bytes → ℕ → RollbackInfo
  no_changes slot block_hash timestamp = record {
    slot = slot;
    block_hash = block_hash;
    timestamp = timestamp;
    utxos_created = [];
    utxos_spent = [];
    spent_utxos_recorded = [];
  }

  pub start-Progress :
      (s : NetworkStorage) (txs : List MultiEraTx) (slot : ℕ) (block_hash : Bytes) (timestamp : ℕ)
      → IsConsistent R ks s
      → IsReady s txs
      → Progress R ks s
          (no_changes slot block_hash timestamp)
          (block_keys txs)
          (block_coins txs)
          s
          (no_changes slot block_hash timestamp)
  start-Progress s txs slot block_hash timestamp p q = record {
    consistent = p;
    same = record { chain_tips = refl; events = refl; blocks = refl };
    undo = λ j. refl;
    undo_spent = λ j. refl;
    present = λ j d h. h;
    unspent = q.unspent;
    free = λ j h. record {
      before = q.absent j h;
      unspent_before = q.unspent_before j h;
      once = q.once j h;
      absent = q.absent j h;
      never_spent = q.absent j h;
    };
    room = λ b. omega (arith, q.room b);
    restorable = tt;
    parse = tt;
    at_slot = refl;
    at_hash = refl;
    at_time = refl;
  }

  -- Consistent storages with the same UTxOs agree in balances and entries.
  consistent-SameLedger :
      (s s' : NetworkStorage)
      → ((j : Text) → R.find s'.utxo_tree j ≡ R.find s.utxo_tree j)
      → ((j : Text) → R.find s'.spent_utxo_index j ≡ R.find s.spent_utxo_index j)
      → IsConsistent R ks s
      → IsConsistent R ks s'
      → SameLedger s s'
  consistent-SameLedger s s' u v p q = record {
    utxos = u;
    spent = v;
    balances = λ a. q.balanced a ∙ (ap (held a ks) (fun_ext u) ∙ sym (p.balanced a));
    index = λ a k h. q.indexed a k h ∙ (rw (u k) (sym (p.indexed a k h)));
  }

  -- What `info` undoes, from the storage `s` back to what `s0` had.
  pub record Undoable (s0 s : NetworkStorage) (info : RollbackInfo) : Type 0 where
    pub consistent : IsConsistent R ks s
    pub undo :
        (j : Text)
        → removed info.utxos_created (restored info.utxos_spent (R.find s.utxo_tree)) j
          ≡ R.find s0.utxo_tree j
    pub undo_spent :
        (j : Text)
        → removed info.spent_utxos_recorded (R.find s.spent_utxo_index) j
          ≡ R.find s0.spent_utxo_index j
    pub room : (b : Text) → R.total s.balance_tree b + returned b info.utxos_spent < u64_mod
    pub restorable : Restorable ks (R.find s.utxo_tree) info.utxos_spent
    pub parse : AllParse info.utxos_spent

  pub Progress-Undoable :
      {pending : List Text} {coins : ℕ} (i0 : RollbackInfo) (s0 s : NetworkStorage)
      (info : RollbackInfo)
      → Progress R ks s0 i0 pending coins s info
      → Undoable s0 s info
  Progress-Undoable i0 s0 s info p = record {
    consistent = p.consistent;
    undo = p.undo;
    undo_spent = p.undo_spent;
    room = λ b. omega (arith, p.room b);
    restorable = p.restorable;
    parse = p.parse;
  }

  -- What a rollback does after a block.
  pub rollback_block_on-Undoable :
      (limit : ℕ) (s0 s : NetworkStorage) (info : RollbackInfo)
      → IsConsistent R ks s0
      → Undoable s0 s info
      → (s' : NetworkStorage) × Returns (rollback_block_on limit info) (new s) tt (new s')
        × SameLedger s0 s'
  unfolding rollback_block_on
  rollback_block_on-Undoable limit s0 s info p0 p =
      let s1 : NetworkStorage = record s {
        block_hash_index = (X.delete s.block_hash_index info.block_hash).1;
      } in
      let p1 : IsConsistent R ks s1 = record {
        listed = p.consistent.listed;
        clean = p.consistent.clean;
        readable = p.consistent.readable;
        balanced = p.consistent.balanced;
        indexed = p.consistent.indexed;
      } in
      let (s2, e2, u2, x2) =
        restore_spent-new R ks info.utxos_spent s1 p1 p.restorable p.parse p.room in
      let (t3, e3, u3) = forget_spent-new R ks info.spent_utxos_recorded s2 in
      let s3 : NetworkStorage = record s2 { spent_utxo_index = t3 } in
      let (t4, e4) = delete_events-new R ks limit info.slot 0 s3 in
      let s4 : NetworkStorage = record s3 { block_events_tree = t4 } in
      let c = x2.consistent in
      let p4 : IsConsistent R ks s4 = record {
        listed = c.listed;
        clean = c.clean;
        readable = c.readable;
        balanced = c.balanced;
        indexed = c.indexed;
      } in
      let (s5, e5, u5, x5) = delete_created-new R ks info.utxos_created s4 p4 in
      (
        s5,
        rw (Handle.Laws.delete_block_metadata-new R s info.block_hash, e2, e3, e4) e5,
        consistent-SameLedger s0 s5
            (λ j. u5 j ∙ (removed-at info.utxos_created _ _ j (u2 j) ∙ p.undo j))
            (λ j.
              ap (λ t. R.find t j) x5.spent
              ∙ (u3 j
                  ∙ (removed-at info.spent_utxos_recorded _ _ j (ap (λ t. R.find t j) x2.spent)
                      ∙ p.undo_spent j)))
            p0 x5.consistent,
      )

  module _ (slot : ℕ) (block_hash : Bytes) (timestamp tx_index : ℕ) (filter : WalletFilter)
      (tokens : List TokenConfig) (txs : List MultiEraTx) (s : NetworkStorage) (st : BlockStats)
      (p : IsConsistent R ks s) (q : IsReady s txs) where
    -- From a storage where the balances and the address index agree with the UTxOs, the transactions
    -- of a block that the storage is ready for succeed, and the balances and the address index agree
    -- with the UTxOs afterwards.
    pub process_transactions-IsConsistent :
        (s' : NetworkStorage) × (st' : BlockStats) × (info : RollbackInfo) × Returns
          (process_transactions slot block_hash timestamp tx_index filter tokens txs)
          (work s st (no_changes slot block_hash timestamp))
          tt
          (work s' st' info)
        × IsConsistent R ks s'
    process_transactions-IsConsistent =
        let (s', st', info, e, x) =
          process_transactions-Leads R ks s (no_changes slot block_hash timestamp) slot block_hash
            timestamp tx_index filter tokens txs s st (no_changes slot block_hash timestamp)
            q.addresses q.distinct (start-Progress s txs slot block_hash timestamp p q) in
        (s', st', info, e, x.consistent)
