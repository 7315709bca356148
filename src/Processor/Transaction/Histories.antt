-- ===== src/Processor/Transaction/Histories.antt =====
-- Writing transaction histories and token indexes touches no other tree.
use hayate.Prelude.{refl, Bool, true, false, Option, none, some, List, [], ◌∷◌}
use hayate.Prelude.Text.{Text}
use hayate.Result.{⊤, Exec, pure, when, ◌>>◌, Returns, Returns-then, for_each}
use hayate.Chain.{MultiEraAsset, PolicyAssets, MultiEraOutput}
use hayate.Externals.{Externals, Reliable}
use hayate.Storage.State.{NetworkStorage}
use hayate.Manager.{StorageManager, new}
use hayate.Handle
use hayate.Processor.State.{TokenConfig}
use hayate.Processor.Transaction.{track_tokens_in_transaction, track_token, index_assets}

module _ ⦃X : Externals⦄ (R : Reliable X) where
  -- `m` succeeds, and writes at most the trees of histories.
  pub record WritesHistories (m : Exec StorageManager ⊤) : Type 0 where
    pub from :
        (s : NetworkStorage)
        → (a : X.Tree) × (b : X.Tree) × (c : X.Tree) × Returns m
            (new s)
            tt
            (new (record s { address_tx_index = a; policy_tx_index = b; asset_tx_index = c }))

  WritesHistories-pure : WritesHistories (pure tt)
  WritesHistories-pure = record {
    from = λ s. (s.address_tx_index, s.policy_tx_index, s.asset_tx_index, refl);
  }

  WritesHistories-then :
      (m n : Exec StorageManager ⊤)
      → WritesHistories m
      → WritesHistories n
      → WritesHistories (m >> n)
  WritesHistories-then m n p q = record {
    from = λ s.
        let (a, b, c, e) = p.from s in
        let s' : NetworkStorage = record s {
          address_tx_index = a;
          policy_tx_index = b;
          asset_tx_index = c;
        } in
        let (a', b', c', e') = q.from s' in (a', b', c', Returns-then m n e e');
  }

  WritesHistories-when :
      (b : Bool) (m : Exec StorageManager ⊤) → WritesHistories m → WritesHistories (when b m)
  WritesHistories-when true m p = p
  WritesHistories-when false m p = WritesHistories-pure

  pub WritesHistories-for_each :
      {A : Type 0} (l : List A) (f : A → Exec StorageManager ⊤)
      → ((x : A) → WritesHistories (f x))
      → WritesHistories (for_each l f)
  unfolding for_each
  WritesHistories-for_each [] f p = WritesHistories-pure
  WritesHistories-for_each (x ∷ l) f p =
      WritesHistories-then (f x) (for_each l f) (p x) (WritesHistories-for_each l f p)

  pub add_tx_to_address_history-WritesHistories :
      (a h : Text) → WritesHistories (Handle.add_tx_to_address_history a h)
  add_tx_to_address_history-WritesHistories a h = record {
    from = λ s. (_, _, _, Handle.Laws.add_tx_to_address_history-new R s a h);
  }

  policy-WritesHistories : (p h : Text) → WritesHistories (Handle.add_tx_to_policy_index p h)
  policy-WritesHistories p h = record {
    from = λ s. (_, _, _, Handle.Laws.add_tx_to_policy_index-new R s p h);
  }

  asset-WritesHistories : (p n h : Text) → WritesHistories (Handle.add_tx_to_asset_index p n h)
  asset-WritesHistories p n h = record {
    from = λ s. (_, _, _, Handle.Laws.add_tx_to_asset_index-new R s p n h);
  }

  index_assets-WritesHistories :
      (p h : Text) (o : Option Text) (asset : MultiEraAsset)
      → WritesHistories (index_assets p h o asset)
  unfolding index_assets
  index_assets-WritesHistories p h none asset = asset-WritesHistories p _ h
  index_assets-WritesHistories p h (some name) asset =
      WritesHistories-when _ _ (asset-WritesHistories p _ h)

  track_token-WritesHistories :
      (h : Text) (p : PolicyAssets) (token : TokenConfig) → WritesHistories (track_token h p token)
  unfolding track_token
  track_token-WritesHistories h p token = WritesHistories-when _ _ (
      WritesHistories-then _ _ (policy-WritesHistories _ h)
        (WritesHistories-for_each p.assets _ (index_assets-WritesHistories _ h token.asset_name)))

  pub track_tokens-WritesHistories :
      (tokens : List TokenConfig) (outputs : List MultiEraOutput) (h : Text)
      → WritesHistories (track_tokens_in_transaction tokens outputs h)
  unfolding track_tokens_in_transaction
  track_tokens-WritesHistories tokens outputs h = WritesHistories-for_each outputs _ λ output.
      WritesHistories-for_each output.assets _
        λ p. WritesHistories-for_each tokens _ (track_token-WritesHistories h p)
