-- ===== src/Processor/Entry/Laws.antt =====
-- The effect of `debit` and `credit` on the balances and the address index, when the manager has
-- its storage and no library call fails.
use hayate.Prelude.{
  ℕ, ◌+◌, ◌-◌, ◌%◌, ◌<◌, ◌≡◌, refl, Option, none, some, arith, if◌then◌else◌, Bool-cases, inl, inr,
}
use hayate.Prelude.Text.{Text, text_eq, text_eq_sound, text_eq_refl}
use hayate.Result.{Returns, Returns-then}
use hayate.Externals.{Externals, Reliable}
use hayate.Storage.State.{NetworkStorage}
use hayate.Storage.Indexes.{entry_key, marker}
use hayate.Manager.{new}
use hayate.Handle
use hayate.Processor.State.{u64_mod}
use hayate.Processor.Entry.{add_to_balance, subtract_from_balance, debit_entry, credit_entry}
use hayate.Processor.Ledger.{worth_to, is_entry_of}

module _ ⦃X : Externals⦄ where
  -- The trees that neither balances nor UTxOs stand in.
  pub record SameElsewhere (s s' : NetworkStorage) : Type 0 where
    pub chain_tips : s'.chain_tip_tree ≡ s.chain_tip_tree
    pub spent : s'.spent_utxo_index ≡ s.spent_utxo_index
    pub events : s'.block_events_tree ≡ s.block_events_tree
    pub blocks : s'.block_hash_index ≡ s.block_hash_index

  pub record Debits (R : Reliable X) (o : Option Text) (n : Option ℕ) (k : Text)
      (s s' : NetworkStorage) : Type 0 where
    pub utxos : s'.utxo_tree ≡ s.utxo_tree
    pub balances :
        (a : Text) → R.total s'.balance_tree a ≡ R.total s.balance_tree a - worth_to a o n
    pub index :
        (e : Text)
        → R.find s'.address_utxo_index e
          ≡ (if is_entry_of o k e then none else R.find s.address_utxo_index e)
    pub elsewhere : SameElsewhere s s'

  pub record Credits (R : Reliable X) (o : Option Text) (n : Option ℕ) (k : Text)
      (s s' : NetworkStorage) : Type 0 where
    pub utxos : s'.utxo_tree ≡ s.utxo_tree
    pub balances :
        (a : Text) → R.total s'.balance_tree a ≡ R.total s.balance_tree a + worth_to a o n
    pub index :
        (e : Text)
        → R.find s'.address_utxo_index e
          ≡ (if is_entry_of o k e then some marker else R.find s.address_utxo_index e)
    pub elsewhere : SameElsewhere s s'

module _ ⦃X : Externals⦄ (R : Reliable X) (s : NetworkStorage) where
  pub subtract_from_balance-new :
      (b : Text) (n : ℕ)
      → Returns (subtract_from_balance b n) (new s) tt (
          new (record s {
            balance_tree = (X.insert_monoid s.balance_tree b (R.total s.balance_tree b - n)).1;
          }))
  unfolding subtract_from_balance
  subtract_from_balance-new b n =
      rw (Handle.Laws.get_balance-new R s b) (Handle.Laws.update_balance-new R s b _)

  pub add_to_balance-new :
      (b : Text) (n : ℕ)
      → R.total s.balance_tree b + n < u64_mod
      → Returns (add_to_balance b n) (new s) tt (
          new (record s {
            balance_tree = (X.insert_monoid s.balance_tree b (R.total s.balance_tree b + n)).1;
          }))
  unfolding add_to_balance
  add_to_balance-new b n h = rw (Handle.Laws.get_balance-new R s b) (
      let e : (R.total s.balance_tree b + n) % u64_mod ≡ R.total s.balance_tree b + n =
        omega arith in
      rw e (Handle.Laws.update_balance-new R s b _))

  pub debit_entry-new :
      (o : Option Text) (n : Option ℕ) (k : Text)
      → (s' : NetworkStorage) × Returns (debit_entry o n k) (new s) tt (new s')
        × Debits R o n k s s'
  unfolding debit_entry
  debit_entry-new none n k = (
    s,
    refl,
    record {
      utxos = refl;
      balances = λ a. omega arith;
      index = λ e. refl;
      elsewhere = record { chain_tips = refl; spent = refl; events = refl; blocks = refl };
    },
  )
  debit_entry-new (some b) none k = (
    _,
    Handle.Laws.remove_utxo_from_address_index-new R s b k,
    record {
      utxos = refl;
      balances = λ a. ground arith;
      index = λ e. R.find-delete s.address_utxo_index (entry_key b k) e;
      elsewhere = record { chain_tips = refl; spent = refl; events = refl; blocks = refl };
    },
  )
  debit_entry-new (some b) (some n) k = (
    _,
    Returns-then (subtract_from_balance b n) (Handle.remove_utxo_from_address_index b k)
        (subtract_from_balance-new b n) (Handle.Laws.remove_utxo_from_address_index-new R _ b k),
    record {
      utxos = refl;
      balances = λ a. rw R.total-insert (elim (Bool-cases (text_eq b a)) [
        | inl same ↦ rw (same, text_eq_sound b a same)
        | inr differ ↦ rw differ (omega arith)
      ]);
      index = λ e. R.find-delete s.address_utxo_index (entry_key b k) e;
      elsewhere = record { chain_tips = refl; spent = refl; events = refl; blocks = refl };
    },
  )

  pub credit_entry-new :
      (o : Option Text) (n : Option ℕ) (k : Text)
      → ((b : Text) → R.total s.balance_tree b + worth_to b o n < u64_mod)
      → (s' : NetworkStorage) × Returns (credit_entry o n k) (new s) tt (new s')
        × Credits R o n k s s'
  unfolding credit_entry
  credit_entry-new none n k h = (
    s,
    refl,
    record {
      utxos = refl;
      balances = λ a. omega arith;
      index = λ e. refl;
      elsewhere = record { chain_tips = refl; spent = refl; events = refl; blocks = refl };
    },
  )
  credit_entry-new (some b) none k h = (
    _,
    Handle.Laws.add_utxo_to_address_index-new R s b k,
    record {
      utxos = refl;
      balances = λ a. ground arith;
      index = λ e. R.find-insert s.address_utxo_index (entry_key b k) marker e;
      elsewhere = record { chain_tips = refl; spent = refl; events = refl; blocks = refl };
    },
  )
  credit_entry-new (some b) (some n) k h = (
    _,
    Returns-then (add_to_balance b n) (Handle.add_utxo_to_address_index b k)
        (add_to_balance-new b n (rw (text_eq_refl b) at (h b)))
        (Handle.Laws.add_utxo_to_address_index-new R _ b k),
    record {
      utxos = refl;
      balances = λ a. rw R.total-insert (elim (Bool-cases (text_eq b a)) [
        | inl same ↦ rw (same, text_eq_sound b a same)
        | inr differ ↦ rw differ (omega arith)
      ]);
      index = λ e. R.find-insert s.address_utxo_index (entry_key b k) marker e;
      elsewhere = record { chain_tips = refl; spent = refl; events = refl; blocks = refl };
    },
  )
