-- ===== src/Tests/Stores.antt =====
-- The theorems on tips, block metadata and the storage manager.
use hayate.Prelude.{
  map, refl, ◌≡◌, none, some, Option, [], ◌∷◌, ◌++◌, Bool-cases, inl, inr, if◌then◌else◌,
}
use hayate.Prelude.Text.{Bytes, Text, codes, text_eq}
use hayate.Result.{ok, Returns}
use hayate.Storage.State.{NetworkStorage, ChainTip}
use hayate.Storage.Tips.{
  store_chain_tip, get_chain_tip, store_wallet_tip, get_wallet_tip, get_min_wallet_tip,
  store_block_metadata, get_block_metadata, delete_block_metadata,
}
use hayate.Storage.Tips.Laws.{
  tip, IsLeast, get_tips-store_chain_tip, get_tips-store_wallet_tip,
  get_block_metadata-store_block_metadata, get_min_wallet_tip-IsLeast,
}
use hayate.Manager.{StorageCommand, Request, Response, new, run, send}
use hayate.Manager.Queries.{send-is_query}
use hayate.Manager.Laws.{holding, refusal, run-shutdown, run-take_storage}
use hayate.Tests.{X, R, empty, one}

get_tips-store_chain_tip_example :
    let (r, s') = store_chain_tip ⦃X = X⦄ 9 (7 ∷ []) 900 empty in
    (r ≡ ok tt)
    × ((get_chain_tip ⦃X = X⦄ s').0 ≡ ok (some (tip 9 (7 ∷ []) 900)))
    × ((w : Text) → (get_wallet_tip ⦃X = X⦄ w s').0 ≡ (get_wallet_tip ⦃X = X⦄ w empty).0)
get_tips-store_chain_tip_example = get_tips-store_chain_tip ⦃X = X⦄ R 9 (7 ∷ []) 900 empty

get_tips-store_wallet_tip_example :
    let (r, s') = store_wallet_tip ⦃X = X⦄ (codes "w") 9 (7 ∷ []) 900 empty in
    (r ≡ ok tt)
    × ((w : Text)
        → (get_wallet_tip ⦃X = X⦄ w s').0 ≡ (
            if text_eq (codes "w") w
            then ok (some (tip 9 (7 ∷ []) 900))
            else (get_wallet_tip ⦃X = X⦄ w empty).0))
    × ((get_chain_tip ⦃X = X⦄ s').0 ≡ (get_chain_tip ⦃X = X⦄ empty).0)
get_tips-store_wallet_tip_example =
    get_tips-store_wallet_tip ⦃X = X⦄ R 9 (7 ∷ []) 900 empty (codes "w")

get_block_metadata-store_block_metadata_example :
    let (r, s') = store_block_metadata ⦃X = X⦄ (7 ∷ []) 9 900 (some (6 ∷ [])) empty in
    (r ≡ ok tt)
    × ((j : Bytes)
        → (get_block_metadata ⦃X = X⦄ j s').0 ≡ (
            if text_eq (7 ∷ []) j
            then ok (some (9, 900, some (6 ∷ [])))
            else (get_block_metadata ⦃X = X⦄ j empty).0))
    × ((get_block_metadata ⦃X = X⦄ (7 ∷ []) (delete_block_metadata ⦃X = X⦄ (7 ∷ []) s').1).0
        ≡ ok none)
get_block_metadata-store_block_metadata_example =
    get_block_metadata-store_block_metadata ⦃X = X⦄ R (7 ∷ []) 9 900 (some (6 ∷ [])) empty

-- A storage where the wallet `a` is at slot 3, and no other wallet has a tip.
abbrev tips : Text → Option ChainTip
tips w = if text_eq (codes "a") w then some (tip 3 [] 0) else none

abbrev with_tip : NetworkStorage ⦃X = X⦄
with_tip = (store_wallet_tip ⦃X = X⦄ (codes "a") 3 [] 0 empty).1

tips-read : (w : Text) → Returns (get_wallet_tip ⦃X = X⦄ w) with_tip (tips w) with_tip
unfolding get_wallet_tip store_wallet_tip text_eq
tips-read w = elim (Bool-cases (text_eq (codes "a") w)) [
  | inl same ↦ rw same
  | inr differ ↦ rw differ
]

get_min_wallet_tip-IsLeast_example :
    (m : Option ChainTip) × Returns
      (get_min_wallet_tip ⦃X = X⦄ (codes "a" ∷ codes "b" ∷ []))
      with_tip
      m
      with_tip
    × IsLeast ⦃X = X⦄ with_tip tips m (codes "a" ∷ codes "b" ∷ [])
get_min_wallet_tip-IsLeast_example =
    get_min_wallet_tip-IsLeast ⦃X = X⦄ with_tip tips tips-read (codes "a") (codes "b" ∷ [])

abbrev get_one : StorageCommand (Option Bytes)
get_one = StorageCommand.get_utxo (codes "a")

run-shutdown_example :
    run ⦃X = X⦄
      ((Request.command get_one ∷ []) ++ Request.shutdown ∷ (Request.take_storage ∷ []))
      (new ⦃X = X⦄ one)
    ≡ run ⦃X = X⦄ ((Request.command get_one ∷ []) ++ Request.shutdown ∷ []) (new ⦃X = X⦄ one)
run-shutdown_example =
    run-shutdown ⦃X = X⦄ (Request.command get_one ∷ []) (Request.take_storage ∷ [])
      (new ⦃X = X⦄ one)

run-take_storage_example :
    run ⦃X = X⦄
      (Request.take_storage ∷ (Request.command get_one ∷ Request.take_storage ∷ [])
        ++ Request.return_storage one ∷ Request.command get_one ∷ [])
      (holding ⦃X = X⦄ (some empty))
    ≡ (
      Response.taken (some empty)
            ∷ map (refusal ⦃X = X⦄) (Request.command get_one ∷ Request.take_storage ∷ [])
          ++ Response.no_reply
            ∷ (run ⦃X = X⦄ (Request.command get_one ∷ []) (holding ⦃X = X⦄ (some one))).0,
      (run ⦃X = X⦄ (Request.command get_one ∷ []) (holding ⦃X = X⦄ (some one))).1,
    )
run-take_storage_example =
    run-take_storage ⦃X = X⦄ empty one (Request.command get_one ∷ Request.take_storage ∷ [])
      (Request.command get_one ∷ []) (tt, (tt, tt))

send-is_query_example : (send ⦃X = X⦄ get_one (new ⦃X = X⦄ one)).1 ≡ new ⦃X = X⦄ one
send-is_query_example = send-is_query ⦃X = X⦄ get_one (new ⦃X = X⦄ one) refl
