-- ===== src/Processor/Undo/Back.antt =====
-- The parts of `rollback_block` on a consistent storage: what each leaves, and that it succeeds.
use hayate.Prelude.{
  ℕ, zero, suc, ◌+◌, ◌<◌, ◌≡◌, refl, fun_ext, ◌≢◌, sym, ap, ◌∙◌, none, some, List, [], ◌∷◌, arith,
  All, Bool-cases, Option-cases, inl, inr,
}
use hayate.Prelude.Text.{Bytes, Text, text_eq, text_eq_sound}
use hayate.Json.{Json}
use hayate.Result.{ok, pure, Returns, Returns-then_then, ◌>>◌, ◌>>=◌}
use hayate.Externals.{Externals, Reliable}
use hayate.Storage.State.{NetworkStorage}
use hayate.Storage.Tips.{match_option}
use hayate.Manager.{new}
use hayate.Handle
use hayate.Processor.State.{u64_mod, event_key}
use hayate.Processor.Entry.{credit, debit, amount_in}
use hayate.Processor.Entry.Laws.{credit_entry-new, debit_entry-new}
use hayate.Processor.Ledger.{count, owner, worth, held, IsConsistent, Adds, Drops}
use hayate.Processor.Ledger.Preserved.{Adds-IsConsistent, Drops-IsConsistent}
use hayate.Processor.Rollback.{restore_spent, forget_spent, delete_events, delete_created}
use hayate.Processor.Transaction.Effects.{SameBlocks}
use hayate.Processor.Undo.{
  change, removed, restored, removed-at, restored-at, AllParse, returned, Restorable,
}
use hayate.Processor.Undo.Restorable.{Restorable-fewer}

module _ ⦃X : Externals⦄ (R : Reliable X) (ks : List Text) where
  -- What a step of a rollback keeps: the agreement of the trees, and the trees it does not touch.
  pub record Steps (s s' : NetworkStorage) : Type 0 where
    pub consistent : IsConsistent R ks s'
    pub spent : s'.spent_utxo_index ≡ s.spent_utxo_index
    pub same : SameBlocks s s'

  Steps-trans : {s1 s2 s3 : NetworkStorage} → Steps s1 s2 → Steps s2 s3 → Steps s1 s3
  Steps-trans p q = record {
    consistent = q.consistent;
    spent = q.spent ∙ p.spent;
    same = record {
      chain_tips = q.same.chain_tips ∙ p.same.chain_tips;
      events = q.same.events ∙ p.same.events;
      blocks = q.same.blocks ∙ p.same.blocks;
    };
  }

  -- One UTxO comes back.
  restore_one :
      (k : Text) (d : Bytes) (s : NetworkStorage)
      → IsConsistent R ks s
      → R.find s.utxo_tree k ≡ none
      → count k ks ≡ 1
      → ((b : Text) → owner d ≡ some b → All (λ c. c ≢ b':') b)
      → ((j : Json) × (X.from_slice d ≡ ok j))
      → ((b : Text) → R.total s.balance_tree b + worth b (some d) < u64_mod)
      → (s' : NetworkStorage) × Returns (Handle.insert_utxo k d >> credit k d) (new s) tt (new s')
        × Adds R k d s s'
        × Steps s s'
  unfolding credit
  restore_one k d s p absent once clean parses room =
      let s1 : NetworkStorage = record s { utxo_tree = (X.insert s.utxo_tree k d).1 } in
      let (s2, credited, e) = credit_entry-new R s1 (owner d) (amount_in (X.from_slice d)) k room in
      let adds : Adds R k d s s2 = record {
        utxos = λ j. rw (e.utxos) (R.find-insert s.utxo_tree k d j);
        balances = e.balances;
        index = e.index;
      } in
      (
        s2,
        rw (Handle.Laws.insert_utxo-new R s k d) credited,
        adds,
        record {
          consistent = Adds-IsConsistent R ks k d p once absent clean parses adds;
          spent = e.elsewhere.spent;
          same = record {
            chain_tips = e.elsewhere.chain_tips;
            events = e.elsewhere.events;
            blocks = e.elsewhere.blocks;
          };
        },
      )

  pub restore_spent-new :
      (l : List (Text × Bytes × Bytes)) (s : NetworkStorage)
      → IsConsistent R ks s
      → Restorable ks (R.find s.utxo_tree) l
      → AllParse l
      → ((b : Text) → R.total s.balance_tree b + returned b l < u64_mod)
      → (s' : NetworkStorage) × Returns (restore_spent l) (new s) tt (new s')
        × ((j : Text) → R.find s'.utxo_tree j ≡ restored l (R.find s.utxo_tree) j)
        × Steps s s'
  unfolding restore_spent
  restore_spent-new [] s p r parses room = (
    s,
    refl,
    λ j. refl,
    record {
      consistent = p;
      spent = refl;
      same = record { chain_tips = refl; events = refl; blocks = refl };
    },
  )
  restore_spent-new ((k, d, ev) ∷ l) s p ((absent, once, clean), more) ((parses, _), all) room =
      let (s1, e1, adds, x1) =
        restore_one k d s p absent once clean parses (λ b. omega (arith, room b)) in
      let (s2, e2, u2, x2) =
        restore_spent-new l s1 x1.consistent
          (Restorable-fewer ks l (change k (some d) (R.find s.utxo_tree)) (R.find s1.utxo_tree)
            (λ j h. adds.utxos j ∙ h) more)
          all (λ b. omega (arith, room b, adds.balances b)) in
      (
        s2,
        Returns-then_then (Handle.insert_utxo k d) (credit k d) (restore_spent l) (new s) e1 e2,
        λ j. u2 j ∙ restored-at l _ _ j (adds.utxos j),
        Steps-trans x1 x2,
      )

  pub forget_spent-new :
      (l : List Text) (s : NetworkStorage)
      → (t : X.Tree) × Returns (forget_spent l) (new s) tt (new (record s { spent_utxo_index = t }))
        × ((j : Text) → R.find t j ≡ removed l (R.find s.spent_utxo_index) j)
  unfolding forget_spent
  forget_spent-new [] s = (s.spent_utxo_index, refl, λ j. refl)
  forget_spent-new (k ∷ l) s =
      let t1 = (X.delete s.spent_utxo_index k).1 in
      let (t2, e2, u2) = forget_spent-new l (record s { spent_utxo_index = t1 }) in
      (
        t2,
        rw (Handle.Laws.delete_spent_utxo-new R s k) e2,
        λ j. u2 j ∙ removed-at l _ _ j (R.find-delete s.spent_utxo_index k j),
      )

  pub delete_events-new :
      (rounds slot i : ℕ) (s : NetworkStorage)
      → (t : X.Tree) × Returns
          (delete_events rounds slot i)
          (new s)
          tt
          (new (record s { block_events_tree = t }))
  unfolding delete_events
  delete_events-new zero slot i s = (s.block_events_tree, refl)
  delete_events-new (suc rounds) slot i s =
      let k = event_key slot i in
      elim (Option-cases (R.find s.block_events_tree k)) [
        | inl absent ↦ (s.block_events_tree, rw (Handle.Laws.get_block_event-new R s k, absent))
        | inr (d, there) ↦
            (let t1 = (X.delete s.block_events_tree k).1 in
              let (t2, e2) =
                delete_events-new rounds slot (i + 1) (record s { block_events_tree = t1 }) in
              (
                t2,
                rw
                    (
                      Handle.Laws.get_block_event-new R s k,
                      there,
                      Handle.Laws.delete_block_event-new R s k,
                    )
                    e2,
              ))
      ]

  -- A storage that finds the same data is as consistent.
  same_utxos-IsConsistent :
      {s s' : NetworkStorage}
      → ((j : Text) → R.find s'.utxo_tree j ≡ R.find s.utxo_tree j)
      → s'.balance_tree ≡ s.balance_tree
      → s'.address_utxo_index ≡ s.address_utxo_index
      → IsConsistent R ks s
      → IsConsistent R ks s'
  same_utxos-IsConsistent {s} {s'} u b x p =
      let all : R.find s.utxo_tree ≡ R.find s'.utxo_tree = fun_ext (λ j. sym (u j)) in
      record {
        listed = λ k d h. p.listed k d (sym (u k) ∙ h);
        clean = λ k d a h. p.clean k d a (sym (u k) ∙ h);
        readable = λ k d h. p.readable k d (sym (u k) ∙ h);
        balanced = λ a. rw b (p.balanced a ∙ ap (held a ks) all);
        indexed = λ a k h. rw (x, u k) (p.indexed a k h);
      }

  -- One output goes.
  delete_one :
      (k : Text) (s : NetworkStorage)
      → IsConsistent R ks s
      → (s' : NetworkStorage) × Returns
          ((Handle.get_utxo k >>= λ found. match_option found (pure tt) (debit k))
            >> Handle.delete_utxo k)
          (new s)
          tt
          (new s')
        × ((j : Text) → R.find s'.utxo_tree j ≡ change k none (R.find s.utxo_tree) j)
        × Steps s s'
  unfolding debit
  delete_one k s p = elim (Option-cases (R.find s.utxo_tree k)) [
    | inl absent ↦
        (let s1 : NetworkStorage = record s { utxo_tree = (X.delete s.utxo_tree k).1 } in
          let u : (j : Text) → R.find s1.utxo_tree j ≡ change k none (R.find s.utxo_tree) j =
            λ j. R.find-delete s.utxo_tree k j in
          (
            s1,
            rw (Handle.Laws.get_utxo-new R s k, absent, Handle.Laws.delete_utxo-new R s k),
            u,
            record {
              consistent =
                  same_utxos-IsConsistent {s = s} {s' = s1}
                    (λ j. u j ∙ elim (Bool-cases (text_eq k j)) [
                      | inl same ↦ rw (same, ← text_eq_sound k j same, absent)
                      | inr differ ↦ rw differ
                    ])
                    refl refl p;
              spent = refl;
              same = record { chain_tips = refl; events = refl; blocks = refl };
            },
          ))
    | inr (d, there) ↦
        (let (s1, debited, e) = debit_entry-new R s (owner d) (amount_in (X.from_slice d)) k in
          let s2 : NetworkStorage = record s1 { utxo_tree = (X.delete s1.utxo_tree k).1 } in
          let drops : Drops R k d s s2 = record {
            utxos = λ j. rw (R.find-delete, e.utxos);
            balances = e.balances;
            index = e.index;
          } in
          (
            s2,
            rw (Handle.Laws.get_utxo-new R s k, there, debited, Handle.Laws.delete_utxo-new R s1 k),
            drops.utxos,
            record {
              consistent = Drops-IsConsistent R ks k d p there drops;
              spent = e.elsewhere.spent;
              same = record {
                chain_tips = e.elsewhere.chain_tips;
                events = e.elsewhere.events;
                blocks = e.elsewhere.blocks;
              };
            },
          ))
  ]

  pub delete_created-new :
      (l : List Text) (s : NetworkStorage)
      → IsConsistent R ks s
      → (s' : NetworkStorage) × Returns (delete_created l) (new s) tt (new s')
        × ((j : Text) → R.find s'.utxo_tree j ≡ removed l (R.find s.utxo_tree) j)
        × Steps s s'
  unfolding delete_created
  delete_created-new [] s p = (
    s,
    refl,
    λ j. refl,
    record {
      consistent = p;
      spent = refl;
      same = record { chain_tips = refl; events = refl; blocks = refl };
    },
  )
  delete_created-new (k ∷ l) s p =
      let (s1, e1, u1, x1) = delete_one k s p in
      let (s2, e2, u2, x2) = delete_created-new l s1 x1.consistent in
      (
        s2,
        Returns-then_then (Handle.get_utxo k >>= λ found. match_option found (pure tt) (debit k))
            (Handle.delete_utxo k) (delete_created l) (new s) e1 e2,
        λ j. u2 j ∙ removed-at l _ _ j (u1 j),
        Steps-trans x1 x2,
      )
