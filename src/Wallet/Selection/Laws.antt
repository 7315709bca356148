-- ===== src/Wallet/Selection/Laws.antt =====
-- What a choice of coins finds, in terms of the purse that its loop fills.
use hayate.Prelude.{
  ℕ, ◌+◌, ◌<◌, ◌≤◌, ◌≡◌, refl, ap, subst, sym, ◌∙◌, ◌⊎◌, inl, inr, Bool, true, false, ◌&&◌, none,
  some, List, [], ◌∷◌, ◌++◌, All, ltb, leb, Bool-cases, Option-cases, arith,
}
use hayate.Prelude.Text.{Text}
use hayate.Prelude.Sorting.Laws.{All-parts}
use hayate.Wallet.Selection.Order.{selection_order-skips}
use hayate.Externals.{Externals}
use hayate.Wallet.Selection.{
  UtxoData, Amounts, UnifiedTxError, no_utxos, no_outputs, fee_estimation_error, builder_error,
  collateral_required, insufficient_funds, insufficient_assets, Selection, Purse, amount_of,
  all_assets_sufficient, missing_asset, is_script_input, selection_order, add_utxo, is_enough,
  take_coins, check_funds, select_coins,
}
use mathlib.Core.List.{append-nil, Mem, mem-cons_self, mem-cons_of_mem}

-- Each required amount is covered.
abbrev pub Covers : Purse → Amounts → Type 0
Covers p = All (λ e. e.1 ≤ amount_of e.0 p.total_assets)

abbrev pub nothing : Purse
nothing = record { total_lovelace = 0; total_assets = [] }

both : (a b : Bool) → (a && b) ≡ true → (a ≡ true) × (b ≡ true)
both true true h = (refl, refl)
both true false h = absurd (cc)
both false b h = absurd (cc)

-- What the error says of the purse, which lacks one of the required amounts.
abbrev pub Lacks : Purse → Amounts → UnifiedTxError → Type 0
Lacks p assets (insufficient_assets k n a) =
    Mem (k, n) assets × (a ≡ amount_of k p.total_assets) × (a < n)
Lacks p assets _ = ⊥

missing_asset-none :
    (assets : Amounts) (p : Purse) → missing_asset assets p.total_assets ≡ none → Covers p assets
unfolding missing_asset
missing_asset-none [] p h = tt
missing_asset-none ((k, n) ∷ l) p h = elim (Bool-cases (leb n (amount_of k p.total_assets))) [
  | inl yea ↦ (let r = rw yea at h in (ground arith, missing_asset-none l p r))
  | inr nay ↦ absurd (let r = rw nay at h in cc)
]

Lacks-cons :
    (p : Purse) (x : Text × ℕ) (l : Amounts) (e : UnifiedTxError) → Lacks p l e → Lacks p (x ∷ l) e
Lacks-cons p x l (insufficient_assets k n a) (m, h, g) = (mem-cons_of_mem x m, h, g)
Lacks-cons p x l no_utxos h = h
Lacks-cons p x l no_outputs h = h
Lacks-cons p x l (fee_estimation_error s) h = h
Lacks-cons p x l (builder_error s) h = h
Lacks-cons p x l collateral_required h = h
Lacks-cons p x l (insufficient_funds n a) h = h

missing_asset-some :
    (assets : Amounts) (p : Purse) (e : UnifiedTxError)
    → missing_asset assets p.total_assets ≡ some e
    → Lacks p assets e
unfolding missing_asset
missing_asset-some [] p e h = absurd (cc)
missing_asset-some ((k, n) ∷ l) p e h = elim (Bool-cases (leb n (amount_of k p.total_assets))) [
  | inl yea ↦ Lacks-cons p (k, n) l e (missing_asset-some l p e (rw yea at h))
  | inr nay ↦
      (let r = rw nay at h in
        let same : insufficient_assets k n (amount_of k p.total_assets) ≡ e = cc in
        rw (← same) (mem-cons_self, refl, ground arith))
]

sufficient-Covers :
    (assets : Amounts) (p : Purse)
    → all_assets_sufficient assets p.total_assets ≡ true
    → missing_asset assets p.total_assets ≡ none
unfolding all_assets_sufficient missing_asset
sufficient-Covers [] p h = refl
sufficient-Covers ((k, n) ∷ l) p h =
    let (yea, rest) =
      both (leb n (amount_of k p.total_assets)) (all_assets_sufficient l p.total_assets) h in
    rw yea (sufficient-Covers l p rest)

module _ ⦃X : Externals⦄ where
  -- The purse after some outputs.
  unfoldable pub worth : List UtxoData → Purse → Purse
  worth [] p = p
  worth (u ∷ us) p = worth us (add_utxo u p)

  module _ (required : ℕ) (assets : Amounts) where
    -- The loop takes outputs from the front, until they are enough or none is left.
    abbrev Takes : List UtxoData → Purse → List UtxoData × Purse → Type 0
    Takes us p (selected, q) =
        (rest : List UtxoData) × (us ≡ selected ++ rest)
        × (q ≡ worth selected p)
        × ((is_enough required assets q ≡ true) ⊎ (rest ≡ []))

    take_coins-Takes :
        (us : List UtxoData) (p : Purse) → Takes us p (take_coins required assets us p)
    unfolding take_coins worth
    take_coins-Takes [] p = ([], refl, refl, inr refl)
    take_coins-Takes (u ∷ us) p = elim (Bool-cases (is_enough required assets (add_utxo u p))) [
      | inl enough ↦ rw enough (us, refl, refl, inl enough)
      | inr short ↦
          (let (rest, split, sum, stop) = take_coins-Takes us (add_utxo u p) in
            rw short (rest, ap (λ l. u ∷ l) split, sum, stop))
    ]

    -- What the choice returns from the outputs `order`: a selection from the front, which covers
    -- what is required and leaves the rest of its lovelace as change; or an error, where all of
    -- them do not cover it.
    abbrev pub Finds : List UtxoData → UnifiedTxError ⊎ Selection → Type 0
    Finds order (inr s) =
        ((rest : List UtxoData) × (order ≡ s.selected ++ rest))
        × (required + s.change_lovelace ≡ (worth s.selected nothing).total_lovelace)
        × Covers (worth s.selected nothing) assets
    Finds order (inl (insufficient_funds n a)) =
        (n ≡ required) × (a ≡ (worth order nothing).total_lovelace) × (a < required)
    Finds order (inl (insufficient_assets k n a)) =
        Lacks (worth order nothing) assets (insufficient_assets k n a)
    Finds order (inl e) = ⊥

    -- Where the loop took all outputs, the purse is what they are worth.
    all_taken :
        (order selected rest : List UtxoData) (q : Purse)
        → order ≡ selected ++ rest
        → q ≡ worth selected nothing
        → rest ≡ []
        → q ≡ worth order nothing
    all_taken order selected rest q split sum last =
        let same : order ≡ selected = split ∙ ap (λ r. selected ++ r) last ∙ append-nil selected in
        sum ∙ ap (λ l. worth l nothing) (sym same)

    Lacks-Finds :
        (order : List UtxoData) (e : UnifiedTxError)
        → Lacks (worth order nothing) assets e
        → Finds order (inl e)
    Lacks-Finds order (insufficient_assets k n a) h = h
    Lacks-Finds order no_utxos h = absurd h
    Lacks-Finds order no_outputs h = absurd h
    Lacks-Finds order (fee_estimation_error s) h = absurd h
    Lacks-Finds order (builder_error s) h = absurd h
    Lacks-Finds order collateral_required h = absurd h
    Lacks-Finds order (insufficient_funds n a) h = absurd h

    Lacks-not_enough :
        (q : Purse) (e : UnifiedTxError)
        → is_enough required assets q ≡ true
        → missing_asset assets q.total_assets ≡ some e
        → ⊥
    Lacks-not_enough q e enough missing =
        let (_, rest) =
          both (leb required q.total_lovelace) (all_assets_sufficient assets q.total_assets)
            enough in
        let none_missing = sufficient-Covers assets q rest in cc

    funds_short :
        (q : Purse) → is_enough required assets q ≡ true → ltb q.total_lovelace required ≡ true → ⊥
    funds_short q enough short =
        let (rich, _) =
          both (leb required q.total_lovelace) (all_assets_sufficient assets q.total_assets)
            enough in
        ground arith

    check_funds-Finds :
        (order selected : List UtxoData) (q : Purse)
        → Takes order nothing (selected, q)
        → Finds order (check_funds required assets (selected, q))
    unfolding check_funds
    check_funds-Finds order selected q (rest, split, sum, stop) =
        elim (Bool-cases (ltb q.total_lovelace required)) [
          | inl short ↦ rw short (elim stop [
            | inl enough ↦ absurd (funds_short q enough short)
            | inr last ↦ (
              refl,
              ap (λ (p : Purse). p.total_lovelace) (all_taken order selected rest q split sum last),
              ground arith,
            )
          ])
          | inr rich ↦ elim (Option-cases (missing_asset assets q.total_assets)) [
            | inl none_missing ↦
                rw (rich, none_missing)
                  (
                    (rest, split),
                    (let e = ap (λ (p : Purse). p.total_lovelace) sum in ground arith),
                    subst (λ (p : Purse). Covers p assets) sum
                        (missing_asset-none assets q none_missing),
                  )
            | inr (e, missing) ↦
                rw (rich, missing)
                  (elim stop [
                    | inl enough ↦ absurd (Lacks-not_enough q e enough missing)
                    | inr last ↦ Lacks-Finds order e (
                        subst (λ (p : Purse). Lacks p assets e)
                          (all_taken order selected rest q split sum last)
                          (missing_asset-some assets q e missing))
                  ])
          ]
        ]

    pub select_coins-Finds :
        (utxos script_inputs : List UtxoData)
        → Finds
            (selection_order script_inputs utxos assets)
            (select_coins (some utxos) script_inputs required assets)
    unfolding select_coins
    select_coins-Finds utxos script_inputs =
        let order = selection_order script_inputs utxos assets in
        check_funds-Finds order _ _ (take_coins-Takes order nothing)

    -- No selected output is a script input of the transaction.
    pub select_coins-skips :
        (utxos script_inputs : List UtxoData) (s : Selection)
        → select_coins (some utxos) script_inputs required assets ≡ inr s
        → All (λ u. is_script_input script_inputs u ≡ false) s.selected
    select_coins-skips utxos script_inputs s chosen =
        let order = selection_order script_inputs utxos assets in
        let ((rest, split), _, _) =
          subst (λ (o : UnifiedTxError ⊎ Selection). Finds order o) chosen
            (select_coins-Finds utxos script_inputs) in
        (All-parts (λ u. is_script_input script_inputs u ≡ false) s.selected rest
          (subst (λ l. All (λ u. is_script_input script_inputs u ≡ false) l) split
            (selection_order-skips script_inputs utxos assets))).0
