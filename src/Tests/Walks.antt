-- ===== src/Tests/Walks.antt =====
-- The theorems on the block walker.
use hayate.Prelude.{
  ◌≡◌, refl, Option, none, some, [], ◌∷◌, Bool-cases, inl, inr, if◌then◌else◌, arith,
}
use hayate.Prelude.Text.{Bytes, text_eq}
use hayate.Result.{ok, Returns}
use hayate.Storage.State.{NetworkStorage, BlockMetadata}
use hayate.Storage.Tips.{store_block_metadata, get_block_metadata}
use hayate.Manager.{new, send, execute, serve}
use hayate.Handle
use hayate.BlockWalker.{Point, walk_back_n_blocks}
use hayate.BlockWalker.Laws.{Walks, walk_back_n_blocks-Walks}
use hayate.Tests.{X, empty}

-- The block 7 at slot 9 stands on the block 6 at slot 5, the first of its chain.
abbrev chain : NetworkStorage ⦃X = X⦄
chain =
    (store_block_metadata ⦃X = X⦄ (7 ∷ []) 9 900 (some (6 ∷ []))
      (store_block_metadata ⦃X = X⦄ (6 ∷ []) 5 500 none empty).1).1

abbrev stored : Bytes → Option BlockMetadata
stored h =
    if text_eq (7 ∷ []) h
    then some (9, 900, some (6 ∷ []))
    else if text_eq (6 ∷ []) h
    then some (5, 500, none)
    else none

chain-read :
    (h : Bytes)
    → Returns
        (Handle.get_block_metadata ⦃X = X⦄ h)
        (new ⦃X = X⦄ chain)
        (stored h)
        (new ⦃X = X⦄ chain)
unfolding Handle.get_block_metadata send execute serve new get_block_metadata store_block_metadata
    text_eq
chain-read h = elim (Bool-cases (text_eq (7 ∷ []) h)) [
  | inl seven ↦ rw seven
  | inr not_seven ↦ elim (Bool-cases (text_eq (6 ∷ []) h)) [
    | inl six ↦ rw (not_seven, six)
    | inr not_six ↦ rw (not_seven, not_six)
  ]
]

stored-seven : stored (7 ∷ []) ≡ some (9, 900, some (6 ∷ []))
unfolding text_eq
stored-seven = refl

stored-six : stored (6 ∷ []) ≡ some (5, 500, none)
unfolding text_eq
stored-six = refl

walk_back_n_blocks-Walks_example :
    Walks ⦃X = X⦄ stored 3
      (7 ∷ [])
      (new ⦃X = X⦄ chain)
      (walk_back_n_blocks ⦃X = X⦄ (ok tt) (ok (Point.specific 9 (7 ∷ []))) 3 (new ⦃X = X⦄ chain))
walk_back_n_blocks-Walks_example =
    walk_back_n_blocks-Walks ⦃X = X⦄ stored (new ⦃X = X⦄ chain) chain-read 3 9 (7 ∷ [])
      (omega arith)
