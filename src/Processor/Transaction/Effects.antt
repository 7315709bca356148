-- ===== src/Processor/Transaction/Effects.antt =====
-- What spending an input and storing an output do to the storage, the statistics apart.
use hayate.Prelude.{
  ℕ, ◌+◌, ◌<◌, ◌≡◌, refl, Option, none, some, List, [], ◌∷◌, arith, if◌then◌else◌, Bool-cases, inl,
  inr,
}
use hayate.Prelude.Text.{Bytes, Text, text_eq, text_eq_sound, codes}
use hayate.Result.{pure, Returns}
use hayate.Json.{str_field, u64_field}
use hayate.Chain.{MultiEraOutput, DatumOption, PolicyAssets}
use hayate.Externals.{Externals, Reliable}
use hayate.Storage.State.{NetworkStorage}
use hayate.Storage.Indexes.{entry_key, marker}
use hayate.Manager.{new}
use hayate.Handle
use hayate.Processor.State.{RollbackInfo, BlockStats, Work, u64_mod, utxo_key_of}
use hayate.Storage.Tips.{match_option}
use hayate.Processor.Entry.{amount_in, debit}
use hayate.Processor.Entry.Laws.{debit_entry-new, add_to_balance-new}
use hayate.Processor.Ledger.{owner, worth_to, worth, Adds, Drops}
use hayate.Processor.Transaction.{
  At, affect, push_spent, push_created, spend_event, spend_utxo, on_stats, utxo_json, create_utxo,
  with_assets, with_datum, base_json,
}

module _ ⦃X : Externals⦄ where
  open X use {hex_encode}

  -- The work on a block whose manager has the storage `s`.
  abbrev pub work : NetworkStorage → BlockStats → RollbackInfo → Work
  work s stats info = record { storage = new s; stats = stats; rollback_info = info }

  -- The trees that only the end of a block writes.
  pub record SameBlocks (s s' : NetworkStorage) : Type 0 where
    pub chain_tips : s'.chain_tip_tree ≡ s.chain_tip_tree
    pub events : s'.block_events_tree ≡ s.block_events_tree
    pub blocks : s'.block_hash_index ≡ s.block_hash_index

  pub record Spends (R : Reliable X) (k : Text) (d ev : Bytes) (s s' : NetworkStorage)
      : Type 0 where
    pub drops : Drops R k d s s'
    pub spent :
        (j : Text)
        → R.find s'.spent_utxo_index j
          ≡ (if text_eq k j then some ev else R.find s.spent_utxo_index j)
    pub same : SameBlocks s s'

  pub record Creates (R : Reliable X) (k : Text) (d : Bytes) (s s' : NetworkStorage) : Type 0 where
    pub adds : Adds R k d s s'
    pub spent : s'.spent_utxo_index ≡ s.spent_utxo_index
    pub same : SameBlocks s s'

module _ ⦃X : Externals⦄ (R : Reliable X) where
  -- The optional fields of a record leave its address and its amount alone.
  module _ (at : At) (tx_hash : Bytes) (idx : ℕ) (address : Bytes) (coin : ℕ) where
    base_fields :
        (o : Option DatumOption) (ps : List PolicyAssets)
        → let j = with_datum o (with_assets ps (base_json at tx_hash idx address coin)) in
          (str_field (codes "address") j ≡ some (X.hex_encode address))
          × (u64_field (codes "amount") j ≡ some coin)
    unfolding with_datum with_assets text_eq
    base_fields none [] = (refl, refl)
    base_fields none (p ∷ ps) = (refl, refl)
    base_fields (some (DatumOption.hash h)) [] = (refl, refl)
    base_fields (some (DatumOption.hash h)) (p ∷ ps) = (refl, refl)
    base_fields (some (DatumOption.inline b)) [] = (refl, refl)
    base_fields (some (DatumOption.inline b)) (p ∷ ps) = (refl, refl)

  -- The data that an output is stored as belongs to its address, with its coin.
  module _ (at : At) (tx_hash : Bytes) (idx : ℕ) (address : Bytes) (output : MultiEraOutput) where
    abbrev pub stored : Bytes
    stored = R.written (utxo_json at tx_hash idx address output)

    pub owner-stored : owner stored ≡ some (X.hex_encode address)
    unfolding utxo_json
    owner-stored =
        rw (R.from_slice-written, R.str_field-reread)
          (base_fields at tx_hash idx address output.coin output.datum output.assets).0

    pub worth-stored :
        (a : Text)
        → worth a (some stored) ≡ worth_to a (some (X.hex_encode address)) (some output.coin)
    unfolding utxo_json
    worth-stored a = rw (
      R.from_slice-written,
      R.str_field-reread,
      R.u64_field-reread,
      (base_fields at tx_hash idx address output.coin output.datum output.assets).0,
      (base_fields at tx_hash idx address output.coin output.datum output.assets).1,
    )

  -- The statistics after an input's address, if the data has one, is affected.
  abbrev noted : Option Text → BlockStats → BlockStats
  noted none st = st
  noted (some address) st = affect address st

  noted_lem :
      (o : Option Text) (s : NetworkStorage) (st : BlockStats) (info : RollbackInfo)
      → Returns
          (match_option o (pure tt) λ address. on_stats (affect address))
          (work s st info)
          tt
          (work s (noted o st) info)
  noted_lem none s st info = refl
  noted_lem (some address) s st info = refl

  -- The spend event as it is stored.
  abbrev pub event : At → Bytes → Bytes
  event at spending_tx_hash = R.written (spend_event at spending_tx_hash)

  -- Spending a UTxO takes its data out, and records the event.
  pub spend_utxo-work :
      (at : At) (h : Bytes) (k : Text) (d : Bytes) (s : NetworkStorage) (st : BlockStats)
      (info : RollbackInfo)
      → (s' : NetworkStorage) × (st' : BlockStats) × Returns
          (spend_utxo at h k d)
          (work s st info)
          tt
          (work s' st' (push_spent k d (event at h) info))
        × Spends R k d (event at h) s s'
  unfolding spend_utxo debit
  spend_utxo-work at h k d s st info =
      let (s1, debited, e) = debit_entry-new R s (owner d) (amount_in (X.from_slice d)) k in
      let s2 : NetworkStorage = record s1 {
        spent_utxo_index = (X.insert s1.spent_utxo_index k (event at h)).1;
      } in
      let s3 : NetworkStorage = record s2 { utxo_tree = (X.delete s1.utxo_tree k).1 } in
      let st1 = noted (owner d) st in
      (
        s3,
        record st1 { utxos_spent = st1.utxos_spent + 1 },
        rw (
          noted_lem (owner d) s st info,
          debited,
          R.to_vec_lem (spend_event at h),
          Handle.Laws.insert_spent_utxo-new R s1 k (event at h),
          Handle.Laws.delete_utxo-new R s2 k,
        ),
        record {
          drops = record {
            utxos = λ j. rw (R.find-delete, e.utxos);
            balances = e.balances;
            index = e.index;
          };
          spent = λ j. rw (R.find-insert, e.elsewhere.spent);
          same = record {
            chain_tips = e.elsewhere.chain_tips;
            events = e.elsewhere.events;
            blocks = e.elsewhere.blocks;
          };
        },
      )

  -- Storing an output puts its data in, if the balance has room for its coin.
  pub create_utxo-work :
      (at : At) (h : Bytes) (idx : ℕ) (address : Bytes) (output : MultiEraOutput)
      (s : NetworkStorage) (st : BlockStats) (info : RollbackInfo)
      → R.total s.balance_tree (X.hex_encode address) + output.coin < u64_mod
      → let k = utxo_key_of h idx in
        (s' : NetworkStorage) × (st' : BlockStats) × Returns
          (create_utxo at h idx address output)
          (work s st info)
          tt
          (work s' st' (push_created k info))
        × Creates R k (stored at h idx address output) s s'
  unfolding create_utxo
  create_utxo-work at h idx address output s st info room =
      let k = utxo_key_of h idx in
      let a = X.hex_encode address in
      let d = stored at h idx address output in
      let s1 : NetworkStorage = record s { utxo_tree = (X.insert s.utxo_tree k d).1 } in
      let s2 : NetworkStorage = record s1 {
        balance_tree =
            (X.insert_monoid s.balance_tree a (R.total s.balance_tree a + output.coin)).1;
      } in
      let s3 : NetworkStorage = record s2 {
        address_utxo_index = (X.insert s.address_utxo_index (entry_key a k) marker).1;
      } in
      (
        s3,
        affect a (record st { utxos_created = st.utxos_created + 1 }),
        rw (
          R.to_vec_lem (utxo_json at h idx address output),
          Handle.Laws.insert_utxo-new R s k d,
          add_to_balance-new R s1 a output.coin room,
          Handle.Laws.add_utxo_to_address_index-new R s2 a k,
        ),
        record {
          adds = record {
            utxos = λ j. rw R.find-insert;
            balances = λ b.
                rw (worth-stored at h idx address output b, R.total-insert)
                  (elim (Bool-cases (text_eq a b)) [
                    | inl same ↦ rw (same, text_eq_sound a b same)
                    | inr differ ↦ rw differ (omega arith)
                  ]);
            index = λ e. rw (owner-stored at h idx address output, R.find-insert);
          };
          spent = refl;
          same = record { chain_tips = refl; events = refl; blocks = refl };
        },
      )
