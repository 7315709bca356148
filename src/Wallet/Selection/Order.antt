-- ===== src/Wallet/Selection/Order.antt =====
-- The order in which select_coins tries the outputs has no script input.
use hayate.Prelude.{
  ◌≡◌, inl, inr, Bool, true, false, not, List, [], ◌∷◌, All, All-append, Bool-cases, arith,
}
use hayate.Prelude.Sorting.{filter}
use hayate.Wallet.Selection.{
  UtxoData, Amounts, is_pure_ada, is_script_input, need_assets, selection_order,
}

filter-passes :
    {A : Type 0} (q : A → Bool) (P : A → Type 0) (l : List A)
    → ((x : A) → q x ≡ true → P x)
    → All P (filter q l)
filter-passes q P [] h = tt
filter-passes q P (x ∷ l) h = elim (Bool-cases (q x)) [
  | inl yea ↦ rw yea (h x yea, filter-passes q P l h)
  | inr nay ↦ rw nay (filter-passes q P l h)
]

filter-keeps :
    {A : Type 0} (q : A → Bool) (P : A → Type 0) (l : List A) → All P l → All P (filter q l)
filter-keeps q P [] h = tt
filter-keeps q P (x ∷ l) (p, h) = elim (Bool-cases (q x)) [
  | inl yea ↦ rw yea (p, filter-keeps q P l h)
  | inr nay ↦ rw nay (filter-keeps q P l h)
]

not-true : (b : Bool) → not b ≡ true → b ≡ false
not-true b h = ground arith

pub selection_order-skips :
    (script_inputs utxos : List UtxoData) (assets : Amounts)
    → All
        (λ u. is_script_input script_inputs u ≡ false)
        (selection_order script_inputs utxos assets)
unfolding selection_order
selection_order-skips script_inputs utxos assets =
    let P : UtxoData → Type 0 = λ u. is_script_input script_inputs u ≡ false in
    let usable = filter (λ u. not (is_script_input script_inputs u)) utxos in
    let skipped : All P usable =
      filter-passes _ P utxos (λ u h. not-true (is_script_input script_inputs u) h) in
    let pure_ada = filter-keeps is_pure_ada P usable skipped in
    let tokens = filter-keeps (λ u. not (is_pure_ada u)) P usable skipped in
    elim (Bool-cases (need_assets assets)) [
      | inl yea ↦ rw yea (All-append P _ _ tokens pure_ada)
      | inr nay ↦ rw nay (All-append P _ _ pure_ada tokens)
    ]
