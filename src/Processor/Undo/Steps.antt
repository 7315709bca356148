-- ===== src/Processor/Undo/Steps.antt =====
-- Spending a UTxO, storing an output and skipping one keep the work of a block undoable.
use hayate.Prelude.{
  ℕ, ◌+◌, ◌≤◌, ◌≡◌, refl, sym, ◌∙◌, true, false, none, some, List, [], ◌∷◌, ◌++◌, arith, All-append,
  Bool-cases, inl, inr,
}
use hayate.Prelude.Text.{Bytes, Text, text_eq, text_eq_sound, text_eq_refl}
use hayate.Externals.{Externals, Reliable}
use hayate.Storage.State.{NetworkStorage}
use hayate.Processor.State.{RollbackInfo}
use hayate.Processor.Ledger.{count, owner, worth, HasNoColon, Parses}
use hayate.Processor.Ledger.Preserved.{Adds-IsConsistent, Drops-IsConsistent}
use hayate.Processor.Transaction.{push_spent, push_created}
use hayate.Processor.Transaction.Effects.{SameBlocks, Spends, Creates}
use hayate.Processor.Undo.{
  listed-cons, change, restored, listed, removed-append_one, restored-append_one, removed-at,
  restored-at, restored-free, IsFree, Progress,
}
use hayate.Processor.Undo.Restorable.{
  returned-append_one, Restorable-fewer, restored-unlisted, Restorable-append_one,
  Restorable-insert, worth-held,
}

module _ ⦃X : Externals⦄ (R : Reliable X) (ks : List Text) (s0 : NetworkStorage)
    (i0 : RollbackInfo) where
  SameBlocks-trans :
      {s1 s2 s3 : NetworkStorage} → SameBlocks s1 s2 → SameBlocks s2 s3 → SameBlocks s1 s3
  SameBlocks-trans p q = record {
    chain_tips = q.chain_tips ∙ p.chain_tips;
    events = q.events ∙ p.events;
    blocks = q.blocks ∙ p.blocks;
  }

  module _ {pending : List Text} {coins : ℕ} {s s' : NetworkStorage} {info : RollbackInfo}
      (k : Text) (d ev : Bytes) (p : Progress R ks s0 i0 pending coins s info)
      (there : R.find s.utxo_tree k ≡ some d) (x : Spends R k d ev s s') where
    -- A key with other data than `k`, after `k` was spent.
    after_spend :
        (j : Text)
        → text_eq k j ≡ false
        → restored info.utxos_spent (R.find s'.utxo_tree) j
          ≡ restored info.utxos_spent (R.find s.utxo_tree) j
    after_spend j differ = restored-at info.utxos_spent _ _ j (rw (x.drops.utxos j, differ) refl)

    -- The data that a rollback restores is the same after the spending as before it.
    restored_after_spend :
        (j : Text)
        → restored (info.utxos_spent ++ (k, d, ev) ∷ []) (R.find s'.utxo_tree) j
          ≡ restored info.utxos_spent (R.find s.utxo_tree) j
    restored_after_spend j =
        restored-append_one info.utxos_spent k d ev (R.find s'.utxo_tree) j
        ∙ elim (Bool-cases (text_eq k j)) [
          | inl same ↦ rw (same, ← text_eq_sound k j same) (sym (p.present k d there))
          | inr differ ↦ rw differ (after_spend j differ)
        ]

    -- What is pending is not what was spent.
    spent_not_pending : (j : Text) → listed j pending ≡ true → text_eq k j ≡ false
    spent_not_pending j h = elim (Bool-cases (text_eq k j)) [
      | inl same ↦ absurd (
          let e = (p.free j h).absent in
          let f : R.find s.utxo_tree j ≡ some d = rw (← text_eq_sound k j same) there in cc)
      | inr differ ↦ differ
    ]

    -- A key that still holds data is not the one that was spent.
    still_there :
        (j : Text) (e : Bytes)
        → R.find s'.utxo_tree j ≡ some e
        → (text_eq k j ≡ false) × (R.find s.utxo_tree j ≡ some e)
    still_there j e h = elim (Bool-cases (text_eq k j)) [
      | inl same ↦
          absurd (let gone : R.find s'.utxo_tree j ≡ none = rw (x.drops.utxos j, same) in cc)
      | inr differ ↦ (differ, sym (rw (x.drops.utxos j, differ) refl) ∙ h)
    ]

    once : count k ks ≡ 1
    once = p.consistent.listed k d there

    fewer : (j : Text) → R.find s.utxo_tree j ≡ none → R.find s'.utxo_tree j ≡ none
    fewer j h = elim (Bool-cases (text_eq k j)) [
      | inl same ↦ rw (x.drops.utxos j, same)
      | inr differ ↦ rw (x.drops.utxos j, differ) h
    ]

    pub Spends-Progress : Parses ev → Progress R ks s0 i0 pending coins s' (push_spent k d ev info)
    unfolding push_spent
    Spends-Progress parses = record {
      consistent = Drops-IsConsistent R ks k d p.consistent there x.drops;
      same = SameBlocks-trans p.same x.same;
      undo = λ j. removed-at info.utxos_created _ _ j (restored_after_spend j) ∙ p.undo j;
      undo_spent = λ j.
          removed-append_one info.spent_utxos_recorded k (R.find s'.spent_utxo_index) j
          ∙ elim (Bool-cases (text_eq k j)) [
            | inl same ↦ rw (same, ← text_eq_sound k j same) (sym (p.unspent k d there))
            | inr differ ↦
                (rw differ (
                  removed-at info.spent_utxos_recorded _ _ j (rw (x.spent j, differ) refl)
                  ∙ p.undo_spent j))
          ];
      present = λ j e h.
          let (differ, old) = still_there j e h in restored_after_spend j ∙ p.present j e old;
      unspent = λ j e h. p.unspent j e (still_there j e h).1;
      free = λ j h.
          let f = p.free j h in
          let differ = spent_not_pending j h in
          record {
            before = f.before;
            unspent_before = f.unspent_before;
            once = f.once;
            absent = rw (x.drops.utxos j, differ) f.absent;
            never_spent = restored_after_spend j ∙ f.never_spent;
          };
      room = λ b.
          let bound = worth-held b k d ks (R.find s.utxo_tree) once there in
          omega (
            arith,
            p.room b,
            x.drops.balances b,
            bound,
            p.consistent.balanced b,
            returned-append_one b info.utxos_spent k d ev,
          );
      restorable =
          Restorable-append_one ks info.utxos_spent (R.find s'.utxo_tree) k d ev
            (Restorable-fewer ks info.utxos_spent (R.find s.utxo_tree) (R.find s'.utxo_tree)
              (λ j h. fewer j h) p.restorable)
            (restored-unlisted ks info.utxos_spent (R.find s.utxo_tree) (R.find s'.utxo_tree) k d
              p.restorable there (rw (x.drops.utxos k, text_eq_refl k)))
            once (λ b h. p.consistent.clean k d b there h);
      parse =
          All-append _ info.utxos_spent _ p.parse ((p.consistent.readable k d there, parses), tt);
      at_slot = p.at_slot;
      at_hash = p.at_hash;
      at_time = p.at_time;
    }

  module _ {pending : List Text} {s s' : NetworkStorage} {info : RollbackInfo} (k : Text)
      (d : Bytes) (coin coins : ℕ) (p : Progress R ks s0 i0 (k ∷ pending) (coin + coins) s info)
      (fresh : listed k pending ≡ false) (x : Creates R k d s s') where
    k-IsFree : IsFree R ks s0 s info k
    k-IsFree = p.free k (rw (text_eq_refl k))

    after_create :
        (j : Text)
        → text_eq k j ≡ false
        → restored info.utxos_spent (R.find s'.utxo_tree) j
          ≡ restored info.utxos_spent (R.find s.utxo_tree) j
    after_create j differ = restored-at info.utxos_spent _ _ j (rw (x.adds.utxos j, differ) refl)

    created_not_pending : (j : Text) → listed j pending ≡ true → text_eq k j ≡ false
    created_not_pending j h = elim (Bool-cases (text_eq k j)) [
      | inl same ↦
          absurd (let f : listed j pending ≡ false = rw (← text_eq_sound k j same) fresh in cc)
      | inr differ ↦ differ
    ]

    pub Creates-Progress :
        ((b : Text) → owner d ≡ some b → HasNoColon b)
        → Parses d
        → ((b : Text) → worth b (some d) ≤ coin)
        → Progress R ks s0 i0 pending coins s' (push_created k info)
    unfolding push_created
    Creates-Progress clean parses small = record {
      consistent =
          Adds-IsConsistent R ks k d p.consistent k-IsFree.once k-IsFree.absent clean parses x.adds;
      same = SameBlocks-trans p.same x.same;
      undo = λ j. removed-append_one info.utxos_created k _ j ∙ elim (Bool-cases (text_eq k j)) [
        | inl same ↦ rw (same, ← text_eq_sound k j same) (sym k-IsFree.before)
        | inr differ ↦
            (rw differ (removed-at info.utxos_created _ _ j (after_create j differ) ∙ p.undo j))
      ];
      undo_spent = λ j. rw x.spent (p.undo_spent j);
      present = λ j e h. elim (Bool-cases (text_eq k j)) [
        | inl same ↦
            (rw (← text_eq_sound k j same) (
              restored-free info.utxos_spent _ (R.find s'.utxo_tree) k k-IsFree.never_spent
              ∙ rw (text_eq_sound k j same) h))
        | inr differ ↦
            after_create j differ ∙ p.present j e (sym (rw (x.adds.utxos j, differ) refl) ∙ h)
      ];
      unspent = λ j e h. elim (Bool-cases (text_eq k j)) [
        | inl same ↦ rw (← text_eq_sound k j same) k-IsFree.unspent_before
        | inr differ ↦ p.unspent j e (sym (rw (x.adds.utxos j, differ) refl) ∙ h)
      ];
      free = λ j h.
          let f = p.free j (listed-cons j k pending h) in
          let differ = created_not_pending j h in
          record {
            before = f.before;
            unspent_before = f.unspent_before;
            once = f.once;
            absent = rw (x.adds.utxos j, differ) f.absent;
            never_spent = after_create j differ ∙ f.never_spent;
          };
      room = λ b. omega (arith, p.room b, x.adds.balances b, small b);
      restorable =
          Restorable-fewer ks info.utxos_spent (change k (some d) (R.find s.utxo_tree))
            (R.find s'.utxo_tree) (λ j h. x.adds.utxos j ∙ h)
            (Restorable-insert ks info.utxos_spent (R.find s.utxo_tree) k d p.restorable
              k-IsFree.never_spent);
      parse = p.parse;
      at_slot = p.at_slot;
      at_hash = p.at_hash;
      at_time = p.at_time;
    }

  -- An output that is not tracked leaves its key unused.
  pub skip-Progress :
      {pending : List Text} {s : NetworkStorage} {info : RollbackInfo} (k : Text) (coin coins : ℕ)
      → Progress R ks s0 i0 (k ∷ pending) (coin + coins) s info
      → Progress R ks s0 i0 pending coins s info
  skip-Progress {pending = pending} k coin coins p = record {
    consistent = p.consistent;
    same = p.same;
    undo = p.undo;
    undo_spent = p.undo_spent;
    present = p.present;
    unspent = p.unspent;
    free = λ j h. p.free j (listed-cons j k pending h);
    room = λ b. omega (arith, p.room b);
    restorable = p.restorable;
    parse = p.parse;
    at_slot = p.at_slot;
    at_hash = p.at_hash;
    at_time = p.at_time;
  }

  -- The trees of transaction histories, after whatever writes.
  abbrev pub with_histories : NetworkStorage → X.Tree → X.Tree → X.Tree → NetworkStorage
  with_histories s a b c = record s {
    address_tx_index = a;
    policy_tx_index = b;
    asset_tx_index = c;
  }

  pub with_histories-Progress :
      {pending : List Text} {coins : ℕ} {s : NetworkStorage} {info : RollbackInfo} (a b c : X.Tree)
      → Progress R ks s0 i0 pending coins s info
      → Progress R ks s0 i0 pending coins (with_histories s a b c) info
  with_histories-Progress a b c p = record {
    consistent = record {
      listed = p.consistent.listed;
      clean = p.consistent.clean;
      readable = p.consistent.readable;
      balanced = p.consistent.balanced;
      indexed = p.consistent.indexed;
    };
    same = record {
      chain_tips = p.same.chain_tips;
      events = p.same.events;
      blocks = p.same.blocks;
    };
    undo = p.undo;
    undo_spent = p.undo_spent;
    present = p.present;
    unspent = p.unspent;
    free = λ j h.
        let f = p.free j h in
        record {
          before = f.before;
          unspent_before = f.unspent_before;
          once = f.once;
          absent = f.absent;
          never_spent = f.never_spent;
        };
    room = p.room;
    restorable = p.restorable;
    parse = p.parse;
    at_slot = p.at_slot;
    at_hash = p.at_hash;
    at_time = p.at_time;
  }
